-- ===== src/Arena/Unlink.antt =====
-- Unlinking one node takes it out of the live list, and relinking it restores the arena.
use porcupine_rust.Base.{
  ℕ, ◌<◌, ◌≡◌, ◌≢◌, refl, ap, ◌∙◌, sym, arith, some, List, [], ◌∷◌, ◌++◌, ◌==◌, get_elem?, set,
  get_elem?-set_self, get_elem?-set_ne, false, set-set_self, set-set_comm, set-get_elem?, ==_ne,
}
use porcupine_rust.Arena.{NodeArena, Node, no_ref, unlink, relink, set_next, set_prev}
use porcupine_rust.Arena.Live.{Slot, node_of, Linked, Chain-frame, SameFixed, SameFixed-set}

module _ {I O : Type 0} where
  pub record Unlinked (a : NodeArena I O) (p : ℕ) (n : Node I O) (x : Slot I O)
      (l : List (Slot I O)) : Type 0 where
    pub arena : NodeArena I O
    pub unlinks : unlink a x.idx ≡ some arena
    pub linked : Linked arena p n l
    pub relinks : relink arena x.idx ≡ some a
    pub same_fixed : SameFixed a arena
    pub frame : (j : ℕ) → j < p → get_elem? arena j ≡ get_elem? a j

  set_next_eq :
      (a : NodeArena I O) (i v : ℕ) (n : Node I O)
      → get_elem? a i ≡ some n
      → set_next a i v ≡ some (set a i (record n { next = v }))
  unfolding set_next
  set_next_eq a i v n e = rw e

  set_prev_eq :
      (a : NodeArena I O) (i v : ℕ) (n : Node I O)
      → get_elem? a i ≡ some n
      → set_prev a i v ≡ some (set a i (record n { prev = v }))
  unfolding set_prev
  set_prev_eq a i v n e = rw e

  -- The last node: only its predecessor changes.
  unlink_last :
      (a : NodeArena I O) (p : ℕ) (n : Node I O) (x : Slot I O)
      → Linked a p n (x ∷ [])
      → Unlinked a p n x []
  unlink_last a p n x h =
      let before : get_elem? a p ≡ some (record n { next = x.idx }) = h.0 in
      let lt : p < x.idx = h.1.0 in
      let at : get_elem? a x.idx ≡ some (node_of p x []) = h.1.2 in
      let a' = set a p (record n { next = no_ref }) in
      let at' : get_elem? a' x.idx ≡ some (node_of p x []) =
        get_elem?-set_ne a p x.idx (record n { next = no_ref }) (omega arith) ∙ at in
      let before' = get_elem?-set_self a p (record n { next = no_ref }) _ before in
      record {
        arena = a';
        unlinks = unfold unlink in rw (at, set_next_eq a p no_ref _ before) refl;
        linked = (before', tt);
        relinks =
            unfold relink in
            rw (at', set_next_eq a' p x.idx _ before')
              (ap some (set-set_self a p _ _ ∙ set-get_elem? a p _ before));
        same_fixed = SameFixed-set a p _ _ before refl;
        frame = λ j q. get_elem?-set_ne a p j _ (omega arith);
      }

  -- Two writes undone by the writes of the old values.
  restore :
      (a : NodeArena I O) (p b : ℕ) (p0 p1 b0 b1 : Node I O)
      → p ≢ b
      → get_elem? a p ≡ some p0
      → get_elem? a b ≡ some b0
      → set (set (set (set a p p1) b b1) p p0) b b0 ≡ a
  restore a p b p0 p1 b0 b1 ne gp gb =
      ap (λ t. set t b b0)
        (set-set_comm (set a p p1) b p b1 p0 (λ e. ne (sym e))
          ∙ ap (λ t. set t b b1) (set-set_self a p p1 p0 ∙ set-get_elem? a p p0 gp))
      ∙ set-set_self a b b1 b0
      ∙ set-get_elem? a b b0 gb

  -- A node with a successor.
  unlink_inner :
      (a : NodeArena I O) (p : ℕ) (n : Node I O) (x b : Slot I O) (l : List (Slot I O))
      → Linked a p n (x ∷ b ∷ l)
      → Unlinked a p n x (b ∷ l)
  unlink_inner a p n x b l h =
      let p0 : Node I O = record n { next = x.idx } in
      let p1 : Node I O = record n { next = b.idx } in
      let b0 = node_of x.idx b l in
      let b1 = node_of p b l in
      let a1 = set a p p1 in
      let a2 = set a1 b.idx b1 in
      let a3 = set a2 p p0 in
      let gp : get_elem? a p ≡ some p0 = h.0 in
      let px : p < x.idx = h.1.0 in
      let gx : get_elem? a x.idx ≡ some (node_of p x (b ∷ l)) = h.1.2 in
      let xb : x.idx < b.idx = h.1.3.0 in
      let fits : b.idx < no_ref = h.1.3.1 in
      let gb : get_elem? a b.idx ≡ some b0 = h.1.3.2 in
      let present : (b.idx == no_ref) ≡ false = ==_ne b.idx no_ref (omega arith) in
      let gb1 : get_elem? a1 b.idx ≡ some b0 = get_elem?-set_ne a p b.idx p1 (omega arith) ∙ gb in
      let gx2 : get_elem? a2 x.idx ≡ some (node_of p x (b ∷ l)) =
        get_elem?-set_ne a1 b.idx x.idx b1 (omega arith)
        ∙ get_elem?-set_ne a p x.idx p1 (omega arith)
        ∙ gx in
      let gp2 : get_elem? a2 p ≡ some p1 =
        get_elem?-set_ne a1 b.idx p b1 (omega arith) ∙ get_elem?-set_self a p p1 p0 gp in
      let gb2 : get_elem? a2 b.idx ≡ some b1 = get_elem?-set_self a1 b.idx b1 b0 gb1 in
      let gb3 : get_elem? a3 b.idx ≡ some b1 = get_elem?-set_ne a2 p b.idx p0 (omega arith) ∙ gb2 in
      record {
        arena = a2;
        unlinks =
            unfold unlink in
            rw (gx, set_next_eq a p b.idx p0 gp, present, set_prev_eq a1 b.idx p b0 gb1) refl;
        linked = (
          gp2,
          (
            (omega arith),
            fits,
            gb2,
            Chain-frame a a2 b.idx l
                (λ j q.
                  get_elem?-set_ne a1 b.idx j b1 (omega arith)
                  ∙ get_elem?-set_ne a p j p1 (omega arith))
                h.1.3.3,
          ),
        );
        relinks =
            unfold relink in
            rw (gx2, set_next_eq a2 p x.idx p1 gp2, present, set_prev_eq a3 b.idx x.idx b1 gb3)
              (ap some (restore a p b.idx p0 p1 b0 b1 (omega arith) gp gb));
        same_fixed =
            λ j. SameFixed-set a1 b.idx b0 b1 gb1 refl j ∙ SameFixed-set a p p0 p1 gp refl j;
        frame = λ j q.
            get_elem?-set_ne a1 b.idx j b1 (omega arith) ∙ get_elem?-set_ne a p j p1 (omega arith);
      }

  pub unlink_lem :
      (A B : List (Slot I O)) (a : NodeArena I O) (p : ℕ) (n : Node I O) (x : Slot I O)
      → Linked a p n (A ++ x ∷ B)
      → Unlinked a p n x (A ++ B)
  unlink_lem [] [] a p n x h = unlink_last a p n x h
  unlink_lem [] (b ∷ B) a p n x h = unlink_inner a p n x b B h
  unlink_lem (y ∷ A) B a p n x h =
      let py : p < y.idx = h.1.0 in
      let rest = unlink_lem A B a y.idx (node_of p y []) x (h.1.2, h.1.3) in
      record {
        arena = rest.arena;
        unlinks = rest.unlinks;
        linked = (rest.frame p py ∙ h.0, (py, h.1.1, rest.linked.0, rest.linked.1));
        relinks = rest.relinks;
        same_fixed = rest.same_fixed;
        frame = λ j q. rest.frame j (omega arith);
      }
