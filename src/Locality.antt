-- ===== src/Locality.antt =====
-- Histories of a system of independent parts, one for each key, as docs/spec.md has them under
-- INV-LIN-03: each operation has a key, and acts on the part of that key alone.
pub mod Keys
pub mod Split
pub mod Join
pub mod Checks
pub mod Independent
pub mod Agreement
pub mod Ranks
pub mod Called
pub mod Ids
pub mod Chosen
pub mod Retimed
pub mod Paired
pub mod EventChecks
use mathlib.Core.List.{Memᴰ}
use porcupine_rust.Base.{ℕ, suc, ◌<◌, ◌≡◌, some, List, [], ◌∷◌, ◌++◌, ◌==◌, if◌then◌else◌}
use porcupine_rust.Types.{Operation}
use porcupine_rust.Model.{Model}

-- The elements with a key.
unfoldable pub with_key {ℓ} : {A : Type ℓ} → (A → ℕ) → ℕ → List A → List A
with_key key k [] = []
with_key key k (x ∷ l) = let rest = with_key key k l in if key x == k then x ∷ rest else rest

-- The positions of the elements with a key, from `i` on.
unfoldable pub positions {ℓ} : {A : Type ℓ} → (A → ℕ) → ℕ → ℕ → List A → List ℕ
positions key k i [] = []
positions key k i (x ∷ l) =
    let rest = positions key k (suc i) l in if key x == k then i ∷ rest else rest

unfoldable pub update : {S : Type 0} → (ℕ → S) → ℕ → S → ℕ → S
update states k s j = if k == j then s else states j

module _ {S I O : Type 0} (m : Model S I O) (key : Operation I O → ℕ) where
  -- The operations can be put in an order, with an operation that returned before another was
  -- called before it, that the parts accept from their states.
  pub data KeyedLinearizable : (ℕ → S) → List (Operation I O) → Type 0 where
    done : (states : ℕ → S) → KeyedLinearizable states []
    next :
        {states : ℕ → S} {s' : S} {ops : List (Operation I O)} (k r : List (Operation I O))
        (op : Operation I O)
        → ops ≡ k ++ op ∷ r
        → ((q : Operation I O) → Memᴰ q ops → ¬ (q.return_time < op.call))
        → m.step (states (key op)) op.input op.output ≡ some s'
        → KeyedLinearizable (update states (key op) s') (k ++ r)
        → KeyedLinearizable states ops
