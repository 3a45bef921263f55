-- ===== src/Entry/Paired.antt =====
-- Entry lists in which each call has one return of its operation, after it.
use porcupine_rust.Base.{ℕ, ◌≡◌, List, [], ◌∷◌, ◌==◌, if◌then◌else◌}
use porcupine_rust.Entry.{EntryValue, Entry, call, return}

module _ {I O : Type 0} where
  -- The entries of operation `i`.
  abbrev pub only : ℕ → List (Entry I O) → List (Entry I O)
  only i [] = []
  only i (e ∷ l) = if e.id == i then e ∷ only i l else only i l

  -- What an entry needs of the entries after it.
  abbrev pub HasReturn : EntryValue I O → ℕ → List (Entry I O) → Type 0
  HasReturn (call i) id l = (e : Entry I O) × (o : O) × (only id l ≡ e ∷ []) × (e.value ≡ return o)
  HasReturn (return o) id l = only id l ≡ []

  abbrev pub IsPaired : List (Entry I O) → Type 0
  IsPaired [] = Unit {0}
  IsPaired (e ∷ l) = HasReturn e.value e.id l × IsPaired l

  abbrev pub All {κ} : (Entry I O → Type κ) → List (Entry I O) → Type κ
  All P [] = Unit
  All P (e ∷ l) = P e × All P l
