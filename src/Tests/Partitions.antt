-- ===== src/Tests/Partitions.antt =====
-- The scan of two partitions of three entries.
use porcupine_rust.Base.{ℕ, ◌<◌, ◌≡◌, refl, ◌↔◌, none, some, List, [], ◌∷◌, length, get_elem?}
use porcupine_rust.Partitions.{Owners, scan_partition_covering}
use porcupine_rust.Partitions.Covering.{IsIn, scan_partition_covering_lem}

abbrev parts : List (List ℕ)
parts = (0 ∷ 2 ∷ []) ∷ (1 ∷ []) ∷ []

abbrev owners : Owners
owners = some 0 ∷ some 1 ∷ some 0 ∷ []

scans : scan_partition_covering parts 3 ≡ some owners
unfolding scan_partition_covering
scans = refl

-- An index in two partitions, and one in none.
twice : scan_partition_covering ((0 ∷ 1 ∷ []) ∷ (1 ∷ []) ∷ []) 2 ≡ none
unfolding scan_partition_covering
twice = refl

missing : scan_partition_covering parts 4 ≡ none
unfolding scan_partition_covering
missing = refl

scan_partition_covering_lem_example :
    (length owners ≡ 3)
    × ((i p : ℕ) → (get_elem? owners i ≡ some (some p)) ↔ IsIn parts i p)
    × ((i : ℕ) → i < 3 → (p : ℕ) × IsIn parts i p)
scan_partition_covering_lem_example = scan_partition_covering_lem parts 3 owners scans
