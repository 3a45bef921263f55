-- ===== src/Checker/Decide.antt =====
-- The search decides whether a live list has an order, within a bound of rounds.
use porcupine_rust.Base.{
  ℕ, zero, suc, ◌*◌, ◌/◌, ◌≤◌, ◌<◌, ◌≡◌, refl, ap, arith, List, [], ◌∷◌, ◌++◌, length,
  length-append,
}
use porcupine_rust.Entry.{EntryValue, call, return}
use porcupine_rust.Model.{Model, EqIsSound}
use porcupine_rust.Arena.Live.{Slot}
use porcupine_rust.Checker.{Search}
use porcupine_rust.Checker.Remaining.{without, All}
use porcupine_rust.Checker.Descend.{Explored-call}
use porcupine_rust.Checker.AtCall.{at_call}
use porcupine_rust.Checker.Explore.{
  Ready, Explored, weaken, Explored-end, Explored-return, cost, cost_mono, cost-suc,
}

module _ {S I O : Type 0} (m : Model S I O) (sound : EqIsSound m) (all : List (Slot I O)) (w : ℕ)
    (fits : All (λ s. s.id / 64 < w) all) where
  -- `k` operations are left at most.
  pub explore :
      (k : ℕ) (r a l : List (Slot I O)) (st : Search S I O)
      → Ready m all w st l a r
      → length l ≤ 2 * k
      → Explored m all w st l (cost k (length r))
  explore k [] a l st h le = Explored-end m all w st l a (cost k 0) h
  explore zero (c ∷ r) a l st h le =
      absurd (omega (arith, ap length h.split, length-append a (c ∷ r)))
  explore (suc k) (c ∷ r) a l st h le =
      by_value (explore (suc k) r (a ++ c ∷ []) l) (explore k (without c.id l) [] (without c.id l))
        c.value refl
    where
      by_value :
          ((st' : Search S I O)
            → Ready m all w st' l (a ++ c ∷ []) r
            → length l ≤ 2 * suc k
            → Explored m all w st' l (cost (suc k) (length r)))
          → ((st' : Search S I O)
              → Ready m all w st' (without c.id l) [] (without c.id l)
              → length (without c.id l) ≤ 2 * k
              → Explored m all w st' (without c.id l) (cost k (length (without c.id l))))
          → (v : EntryValue I O) → c.value ≡ v
          → Explored m all w st l (cost (suc k) (length (c ∷ r)))
      by_value rest down (return o) is = Explored-return m all w st l a r c o _ is h
      by_value rest down (call i) is = rw (cost-suc k (length r)) (
          Explored-call m all w sound fits st l a r c i (cost k (2 * k)) (cost (suc k) (length r))
            is h
            (λ st' h'.
              weaken m all w st' (without c.id l) _ _ (cost_mono k _ _ (fewer i is))
                (down st' h' (fewer i is)))
            (λ st' h'. rest st' h' le))
        where
          fewer : (i : I) → c.value ≡ call i → length (without c.id l) ≤ 2 * k
          fewer i is = omega (arith, le, (at_call m all w st l a r c i fits h is).fewer)
