-- ===== src/Tests.antt =====
-- The code at concrete inputs, and the theorems there.
mod Register
mod Bits
mod Search
mod Entries
mod PowerSet
mod Parallel
mod Partitions
mod Assertions
mod Lists
mod History
mod S2
mod Events
mod Locality
mod Program
mod Store
mod EventStore
