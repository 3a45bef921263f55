-- ===== src/Lib.antt =====
-- porcupine-rust decides whether a concurrent history is linearizable with respect to a model: a
-- state machine that the user gives. A history is flattened into entries, a call and a return for
-- each operation, sorted by time. The entries are laid out as a doubly linked list in a vector (the
-- node arena), and a depth-first search takes operations off the list one by one: a call that
-- stands before every return of the list is tried against the model; a return at the cursor means
-- that the operations so far are to be taken back. A cache of pairs of a bitset (the operations
-- taken) and a state prunes branches that were searched before.
--
-- Which file models which part of the repository:
--   Types, Model          src/types.rs and the trait Model of src/model.rs: a record of the user's
--                         methods, with the state's `PartialEq` as `state_eq`
--   Model/PowerSet        NondeterministicModel, PowerSetModel, HashedPowerSetModel, deduplicate and
--                         deduplicate_hashed of src/model.rs
--   Bitset                src/bitset.rs; words are natural numbers below 2 ^ 64
--   Entry, Entries        Entry, EntryValue, make_entries, make_entries_from_indices, renumber,
--                         convert_entries and convert_entries_from_indices of src/checker.rs
--   Partitions            scan_partition_covering of src/invariants.rs
--   Assertions            assert_well_formed, assert_well_formed_events, assert_minimal_call,
--                         assert_cache_sound and assert_partition_events_paired of src/invariants.rs
--   Arena                 Node, NodeRef, NodeArena, from_entries, lift and unlift of src/checker.rs;
--                         each pass of from_entries and each unlinking is a function of its own
--   Checker               cache_contains_with_bit, CallFrame and check_single of src/checker.rs: one
--                         record holds the local variables, and a round of the loop is a function;
--                         Checker/Linearizable is the specification: linearizability of a history,
--                         and Checker/PowerSet that under a nondeterministic model
--   Task                  the closure of check_parallel in src/checker.rs: the work on one partition,
--                         one access of a shared flag or one round of the search at a time
--   Timer                 TimerHandle, cancel and spawn_timer of src/checker.rs
--   Parallel              check_parallel and to_check_result of src/checker.rs, and the calling thread
--                         of check_operations and check_events from check_parallel to the answer
--   Checks                check_operations and check_events of src/checker.rs: the assertions, the
--                         partitions of the history, and the start of their check; Checks/Events
--                         names the operations in a history of events
--   Locality              the specification of docs/spec.md, INV-LIN-03: histories over independent
--                         parts, one for each key, of operations and of events
--   S2, S2/Parse, S2/Main the model of a stream, the parser of records and main of
--                         examples/s2_checker.rs; S2/Rules states the rules of the stream,
--                         S2/Parse/Format those of a recorded history, and
--                         S2/Verdict puts the check and the model together
--   Bits, Base            bit operations on words, and what the other modules share
--   Suite                 the unit tests of src/checker.rs, src/invariants.rs and src/bitset.rs, each a
--                         Boolean that holds, over the model of the code it calls
--   Tests                 the theorems at concrete inputs
-- The children of each module prove its theorems and are named for what they prove.
--
-- A panic (an index out of range, `expect`, `unreachable!`) is `none` in straight-line code, and an
-- end of its own in the search. The loop of check_single runs on fuel, one unit a round;
-- `enough_fuel` gives the rounds that a search over a number of operations needs at most, and the
-- theorems on its answer show that so many are enough. The kill flag of check_single, which other
-- threads write, is a function that gives what each round reads. Node indices and ids wrap to
-- 32 bits as in the source; the theorems ask for histories whose indices fit, since the last index
-- stands for no node. Hash maps are association lists, looked up by key, and `sort_by` is a stable
-- sort. Machine words elsewhere (times, ids) are only compared and copied.
--
-- The threads of a check share a record of flags. What happens is a list of events: a task makes
-- its next access, the calling thread goes on, the timer thread acts, or its wait ends. All orders
-- are allowed, so nothing is assumed of the scheduler or of the thread pool but that a task that is
-- not begun is dropped only once another was found illegal. A relaxed load may see a set flag late,
-- but a thread that saw it set sees it set again; a flag is never reset. After the thread pool is
-- done, the calling thread sees what its tasks stored. The unstable sorts are parameters that keep
-- the partitions. The end of a wait is an event without a clock, since the standard library allows
-- spurious wakeups and does not say how late the timeout is. Assertions run where the flag `debug`
-- says so. The library `serde_json` is a parameter: its calls. The additions of u32 in the S2 model
-- wrap, as in a build without overflow checks; with them, such an addition panics, and the model does
-- not speak of that build where one overflows.
--
-- Not modelled: what `main` of examples/s2_checker.rs prints (its reading of the file is a
-- parameter), the benchmarks, the integration tests under tests/ and the Quint model; src/lib.rs only
-- names the modules. A panic in a task ends that task without an end of its own. The unit tests with a
-- timeout have no clock: their runs are orders of steps in which the timer acts late or first.
pub mod Base
pub mod Bits
pub mod Bitset
pub mod Types
pub mod Model
pub mod Entry
pub mod Entries
pub mod Partitions
pub mod Arena
pub mod Checker
pub mod Task
pub mod Timer
pub mod Parallel
pub mod Assertions
pub mod Locality
pub mod Checks
pub mod S2
pub mod Suite
pub mod Tests
