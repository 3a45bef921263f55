-- ===== src/Arena/Lift.antt =====
-- `lift` takes a call and its return out of the live list, and `unlift` undoes it.
use mathlib.Core.List.{append_assoc}
use porcupine_rust.Base.{
  ℕ, ◌<◌, ◌≡◌, refl, ap, ◌∙◌, sym, subst, arith, Option, none, some, List, [], ◌∷◌, ◌++◌, get_elem?,
  ==_ne,
}
use porcupine_rust.Arena.{
  NodeArena, Node, NodeRef, no_ref, to_ref, lift, unlift, head_next, next_of,
}
use porcupine_rust.Arena.Live.{
  Slot, head_idx, node_of, Chain, Linked, sentinel, Live, SameFixed-get_elem?,
}
use porcupine_rust.Arena.Unlink.{unlink_lem}

module _ {I O : Type 0} where
  pub Linked-get_elem? :
      (A B : List (Slot I O)) (a : NodeArena I O) (p : ℕ) (n : Node I O) (x : Slot I O)
      → Linked a p n (A ++ x ∷ B)
      → (q : ℕ) × (get_elem? a x.idx ≡ some (node_of q x B))
  Linked-get_elem? [] B a p n x h = (p, h.1.2)
  Linked-get_elem? (y ∷ A) B a p n x h =
      Linked-get_elem? A B a y.idx (node_of p y []) x (h.1.2, h.1.3)

  pub Linked-idx-lt :
      (A B : List (Slot I O)) (a : NodeArena I O) (p : ℕ) (n : Node I O) (x : Slot I O)
      → Linked a p n (A ++ x ∷ B)
      → x.idx < no_ref
  Linked-idx-lt [] B a p n x h = h.1.1
  Linked-idx-lt (y ∷ A) B a p n x h = Linked-idx-lt A B a y.idx (node_of p y []) x (h.1.2, h.1.3)

  -- The reference that the code reads where the list goes on with `l`.
  abbrev pub cursor_of : List (Slot I O) → Option NodeRef
  cursor_of [] = none
  cursor_of (s ∷ l) = some s.idx

  to_ref-head_idx :
      (a : NodeArena I O) (p : ℕ) (l : List (Slot I O))
      → Chain a p l
      → to_ref (head_idx l) ≡ cursor_of l
  to_ref-head_idx a p [] h = refl
  to_ref-head_idx a p (s ∷ l) h =
      let fits : s.idx < no_ref = h.1 in rw (==_ne s.idx no_ref (omega arith)) refl

  Linked-drop :
      (A B : List (Slot I O)) (a : NodeArena I O) (p : ℕ) (n : Node I O)
      → Linked a p n (A ++ B)
      → (q : ℕ) × Chain a q B
  Linked-drop [] B a p n h = (p, h.1)
  Linked-drop (y ∷ A) B a p n h = Linked-drop A B a y.idx (node_of p y []) (h.1.2, h.1.3)

  -- The head of the live list.
  pub head_next_lem :
      (a : NodeArena I O) (l : List (Slot I O)) → Live a l → head_next a ≡ some (cursor_of l)
  unfolding head_next
  head_next_lem a l h = rw (h.0) (ap some (to_ref-head_idx a 0 l h.1))

  -- The next live entry.
  pub next_of_lem :
      (A B : List (Slot I O)) (a : NodeArena I O) (x : Slot I O)
      → Live a (A ++ x ∷ B)
      → next_of a x.idx ≡ some (cursor_of B)
  unfolding next_of
  next_of_lem A B a x h =
      let (q, g) = Linked-get_elem? A B a 0 sentinel x h in
      let (r, c) = Linked-drop A (x ∷ B) a 0 sentinel h in
      rw g (ap some (to_ref-head_idx a x.idx B c.3))

  pub record Lifted (a : NodeArena I O) (c : Slot I O) (l : List (Slot I O)) : Type 0 where
    pub arena : NodeArena I O
    pub lifts : lift a c.idx ≡ some arena
    pub live : Live arena l
    pub unlifts : unlift arena c.idx ≡ some a
    pub node : Node I O
    pub reads : get_elem? arena c.idx ≡ some node
    pub keeps_id : node.id ≡ c.id

  -- In a live list in which `c` is matched to `m` after it, lifting `c` leaves the list without the
  -- two, and unlifting it then gives the very arena back.
  pub lift_lem :
      (A B C : List (Slot I O)) (a : NodeArena I O) (c m : Slot I O)
      → c.match_idx ≡ m.idx
      → Live a (A ++ c ∷ (B ++ m ∷ C))
      → Lifted a c ((A ++ B) ++ C)
  lift_lem A B C a c m e h =
      let (q, gc) = Linked-get_elem? A (B ++ m ∷ C) a 0 sentinel c h in
      let u = unlink_lem A (B ++ m ∷ C) a 0 sentinel c h in
      let v =
        unlink_lem (A ++ B) C u.arena 0 sentinel m
          (subst (Live u.arena) (sym (append_assoc A B (m ∷ C))) u.linked) in
      let (n', g', f') =
        SameFixed-get_elem? a v.arena c.idx _ (λ j. v.same_fixed j ∙ u.same_fixed j) gc in
      let mi : n'.match_idx ≡ m.idx = ap (λ n. n.match_idx) f' ∙ e in
      record {
        arena = v.arena;
        lifts = unfold lift in rw (gc, u.unlinks, e) v.unlinks;
        live = v.linked;
        unlifts = unfold unlift in rw (g', mi, v.relinks) u.relinks;
        node = n';
        reads = g';
        keeps_id = ap (λ n. n.id) f';
      }
