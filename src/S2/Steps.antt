-- ===== src/S2/Steps.antt =====
-- The model of an S2 stream takes the steps of the rules, and one more.
use mathlib.Core.List.{Memᴰ}
use mathlib.Core.List.Memᴰ
use porcupine_rust.Base.{
  ℕ, ◌≡◌, refl, sym, ◌∙◌, ap, subst, arith, Bool, true, false, not, none, List, [], ◌∷◌, ◌==◌,
  ==_iff, ==_refl, inl, inr, ◌⊎◌, ◌↔◌, Bool-cases, Option-cases, if◌then◌else◌,
}
use porcupine_rust.Model.PowerSet.Dedup.{EqIsSound}
use porcupine_rust.S2.{
  S2StreamState, Append, S2Input, append, read, check_tail, S2Output, append_success,
  append_definite_failure, append_indefinite_failure, read_success, read_failure,
  check_tail_success, check_tail_failure, optimistic, tokens_differ, token_missing, seq_num_differs,
  append_step, s2_step, s2_stream_model,
}
use porcupine_rust.S2.Guards.{
  TokenHolds, SeqHolds, seq_num_iff, token_missing_iff, tokens_differ_iff, token_eq_sound,
}
use porcupine_rust.S2.Rules.{
  Appends, Appends-iff, S2Step, appended, rejected, lost, durable, reads, read_fails, checks,
  check_fails, TokenlessStep, tokenless, Steps,
}

-- States of an S2 stream that compare equal are the same.
pub s2_stream_model-EqIsSound : EqIsSound s2_stream_model
s2_stream_model-EqIsSound s t h =
    let a : s.tail ≡ t.tail = (==_iff s.tail t.tail).0 (ground arith) in
    let b : s.xxh3 ≡ t.xxh3 = (==_iff s.xxh3 t.xxh3).0 (ground arith) in
    let c : s.fencing_token ≡ t.fencing_token =
      token_eq_sound s.fencing_token t.fencing_token (ground arith) in
    cc (a, b, c)

branch_mem :
    (b : Bool) (l r : List S2StreamState) (t : S2StreamState)
    → Memᴰ t (if b then l else r)
    → Memᴰ t l ⊎ ((b ≡ false) × Memᴰ t r)
branch_mem true l r t h = inl h
branch_mem false l r t h = inr (refl, h)

guard_mem :
    (b : Bool) (l : List S2StreamState) (t : S2StreamState)
    → Memᴰ t (if b then [] else l) ↔ ((b ≡ false) × Memᴰ t l)
guard_mem true l t = (λ h. absurd (Memᴰ.not-nil h), λ h. absurd (cc (h.0)))
guard_mem false l t = (λ h. (refl, h), λ h. h.1)

only_mem :
    (b : Bool) (s t : S2StreamState) → Memᴰ t (if b then s ∷ [] else []) ↔ ((b ≡ true) × (t ≡ s))
only_mem true s t = (λ h. (refl, Memᴰ.eq_of_singleton h), λ h. Memᴰ.head (h.1))
only_mem false s t = (λ h. absurd (Memᴰ.not-nil h), λ h. absurd (cc (h.0)))

same_iff : (m n : ℕ) → (not (m == n) ≡ false) ↔ (m ≡ n)
same_iff m n = (λ h. (==_iff m n).0 (ground arith), λ h. rw (h, ==_refl n) refl)

success_step :
    (s : S2StreamState) (a : Append) (tail : ℕ) (t : S2StreamState)
    → Memᴰ t (append_step s a (append_success tail))
    → S2Step s (append a) (append_success tail) t
unfolding append_step
success_step s a tail t h =
    let (b, p) = (guard_mem (token_missing a.fencing_token s.fencing_token) _ t).0 h in
    let (c, q) = (guard_mem (seq_num_differs a.match_seq_num s.tail) _ t).0 p in
    let (d, r) = (guard_mem (not (tail == (optimistic s a).tail)) _ t).0 q in
    let e : t ≡ optimistic s a = Memᴰ.eq_of_singleton r in
    appended ((token_missing_iff a.fencing_token s.fencing_token).0 b)
      ((seq_num_iff a.match_seq_num s.tail).0 c) ((Appends-iff s a t).1 e)
      ((same_iff tail (optimistic s a).tail).0 d ∙ ap (λ x. x.tail) (sym e))

success_mem :
    (s : S2StreamState) (a : Append) (tail : ℕ) (t : S2StreamState)
    → TokenHolds a.fencing_token s.fencing_token
    → SeqHolds a.match_seq_num s.tail
    → tail ≡ (optimistic s a).tail
    → t ≡ optimistic s a
    → Memᴰ t (append_step s a (append_success tail))
unfolding append_step
success_mem s a tail t b c d e =
    rw
      (
        (token_missing_iff a.fencing_token s.fencing_token).1 b,
        (seq_num_iff a.match_seq_num s.tail).1 c,
        (same_iff tail (optimistic s a).tail).1 d,
      )
      (Memᴰ.head e)

lost_at :
    (s : S2StreamState) (a : Append) (t : S2StreamState)
    → Memᴰ t (s ∷ [])
    → S2Step s (append a) append_indefinite_failure t
lost_at s a t h =
    subst (λ x. S2Step s (append a) append_indefinite_failure x) (sym (Memᴰ.eq_of_singleton h)) lost

-- An append whose token is not another than the stream's took effect.
effect_step :
    (s : S2StreamState) (a : Append) (t : S2StreamState)
    → (s.fencing_token ≡ none) ⊎ TokenHolds a.fencing_token s.fencing_token
    → SeqHolds a.match_seq_num s.tail
    → Appends s a t
    → Steps s (append a) append_indefinite_failure t
effect_step s a t (inr holds) seq h = inl (durable holds seq h)
effect_step s a t (inl e) seq h = elim (Option-cases a.fencing_token) [
  | inl n ↦ inl (durable (inl n) seq h)
  | inr (token, g) ↦ inr (tokenless token g e seq h)
]

lost_step :
    (s : S2StreamState) (a : Append) (t : S2StreamState)
    → Memᴰ t (append_step s a append_indefinite_failure)
    → Steps s (append a) append_indefinite_failure t
unfolding append_step
lost_step s a t h = elim (branch_mem (tokens_differ a.fencing_token s.fencing_token) _ _ t h) [
  | inl p ↦ inl (lost_at s a t p)
  | inr p ↦ elim (branch_mem (seq_num_differs a.match_seq_num s.tail) _ _ t (p.1)) [
    | inl q ↦ inl (lost_at s a t q)
    | inr q ↦ elim (Memᴰ.cases_cons (q.1)) [
      | inl e ↦
          effect_step s a t ((tokens_differ_iff a.fencing_token s.fencing_token).0 (p.0))
            ((seq_num_iff a.match_seq_num s.tail).0 (q.0)) ((Appends-iff s a t).1 e)
      | inr r ↦ inl (lost_at s a t r)
    ]
  ]
]

durable_mem :
    (s : S2StreamState) (a : Append) (t : S2StreamState)
    → (s.fencing_token ≡ none) ⊎ TokenHolds a.fencing_token s.fencing_token
    → SeqHolds a.match_seq_num s.tail
    → t ≡ optimistic s a
    → Memᴰ t (append_step s a append_indefinite_failure)
unfolding append_step
durable_mem s a t b c e =
    rw
      (
        (tokens_differ_iff a.fencing_token s.fencing_token).1 b,
        (seq_num_iff a.match_seq_num s.tail).1 c,
      )
      (Memᴰ.head e)

lost_mem : (s : S2StreamState) (a : Append) → Memᴰ s (append_step s a append_indefinite_failure)
unfolding append_step
lost_mem s a = elim (Bool-cases (tokens_differ a.fencing_token s.fencing_token)) [
  | inl e ↦ rw (e) (Memᴰ.head refl)
  | inr e ↦ elim (Bool-cases (seq_num_differs a.match_seq_num s.tail)) [
    | inl g ↦ rw (e, g) (Memᴰ.head refl)
    | inr g ↦ rw (e, g) (Memᴰ.tail (Memᴰ.head refl))
  ]
]

stays :
    (s : S2StreamState) (i : S2Input) (o : S2Output) (t : S2StreamState)
    → S2Step s i o s
    → t ≡ s
    → S2Step s i o t
stays s i o t h e = subst (λ x. S2Step s i o x) (sym e) h

step_of :
    (s : S2StreamState) (i : S2Input) (o : S2Output) (t : S2StreamState)
    → Memᴰ t (s2_step s i o)
    → Steps s i o t
unfolding s2_step append_step
step_of s (append a) (append_success tail) t h = inl (success_step s a tail t h)
step_of s (append a) append_definite_failure t h =
    inl (stays s (append a) append_definite_failure t rejected (Memᴰ.eq_of_singleton h))
step_of s (append a) append_indefinite_failure t h = lost_step s a t h
step_of s read (read_success tail xxh3) t h =
    let (b, p) = (guard_mem (not (s.xxh3 == xxh3)) _ t).0 h in
    let (c, e) = (only_mem (s.tail == tail) s t).0 p in
    inl (
      stays s read (read_success tail xxh3) t
        (reads ((==_iff s.tail tail).0 c) ((same_iff s.xxh3 xxh3).0 b)) e)
step_of s read read_failure t h =
    inl (stays s read read_failure t read_fails (Memᴰ.eq_of_singleton h))
step_of s check_tail (check_tail_success tail) t h =
    let (c, e) = (only_mem (s.tail == tail) s t).0 h in
    inl (stays s check_tail (check_tail_success tail) t (checks ((==_iff s.tail tail).0 c)) e)
step_of s check_tail check_tail_failure t h =
    inl (stays s check_tail check_tail_failure t check_fails (Memᴰ.eq_of_singleton h))
step_of s (append a) _ t h = absurd (Memᴰ.not-nil h)
step_of s read _ t h = absurd (Memᴰ.not-nil h)
step_of s check_tail _ t h = absurd (Memᴰ.not-nil h)

of_step :
    (s : S2StreamState) (i : S2Input) (o : S2Output) (t : S2StreamState)
    → S2Step s i o t
    → Memᴰ t (s2_step s i o)
unfolding s2_step append_step
of_step s i o t (appended {a = a} {tail = tail} b c h d) =
    let e = (Appends-iff s a t).0 h in success_mem s a tail t b c (d ∙ ap (λ x. x.tail) e) e
of_step s i o t rejected = Memᴰ.head refl
of_step s i o t (lost {a = a}) = lost_mem s a
of_step s i o t (durable {a = a} b c h) = durable_mem s a t (inr b) c ((Appends-iff s a t).0 h)
of_step s i o t (reads {tail = tail} {xxh3 = xxh3} b c) =
    rw ((==_iff s.tail tail).1 b, (same_iff s.xxh3 xxh3).1 c) (Memᴰ.head refl)
of_step s i o t read_fails = Memᴰ.head refl
of_step s i o t (checks {tail = tail} b) = rw ((==_iff s.tail tail).1 b) (Memᴰ.head refl)
of_step s i o t check_fails = Memᴰ.head refl

of_tokenless :
    (s : S2StreamState) (i : S2Input) (o : S2Output) (t : S2StreamState)
    → TokenlessStep s i o t
    → Memᴰ t (s2_step s i o)
unfolding s2_step append_step
of_tokenless s i o t (tokenless {a = a} token asked none_there c h) =
    durable_mem s a t (inl none_there) c ((Appends-iff s a t).0 h)

-- A state is among the next states that the model computes for an operation if and only if the
-- documented rules of the stream allow the step, or it is an indefinite failure of an append that
-- asks for a token, on a stream that has none, and that took effect.
pub s2_step_lem :
    (s : S2StreamState) (i : S2Input) (o : S2Output) (t : S2StreamState)
    → Memᴰ t (s2_step s i o) ↔ (S2Step s i o t ⊎ TokenlessStep s i o t)
s2_step_lem s i o t =
    (step_of s i o t, λ h. elim h [ inl x ↦ of_step s i o t x | inr x ↦ of_tokenless s i o t x ])
