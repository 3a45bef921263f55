-- ===== src/Bitset/Member.antt =====
-- `set` and `clear` as operations on a set of positions.
use porcupine_rust.Base.{
  ℕ, zero, suc, ◌+◌, ◌-◌, ◌/◌, ◌%◌, ◌^◌, ◌<◌, bit_and, bit_or, ◌≡◌, refl, arith, some, length,
  get_elem?, set as write, length-set, replicate, get_elem?_of_lt, get_elem?-set_self, ◌==◌,
  if◌then◌else◌, get_elem?-set_ne, false, ◌||◌, ◌&&◌, not, ap, ◌∙◌, Bool-cases, set-set_self,
  set-get_elem?, ==_iff, inl, inr,
}
use porcupine_rust.Bitset.{Bitset, new, set, clear}
use porcupine_rust.Bitset.Index.{
  InRange, IsWords, IsWords-get_elem?, IsWords-write, bit_of, test, set_eq, clear_eq, set_inv,
}
use porcupine_rust.Bits.{
  bit, bit-lt, bit-bit_or, bit-bit_and, bit-pow_self, bit-pow_ne, bit-not_pow, bit_or-lt,
  bit_or-pow, bit_and-not_pow, pow_lt, bit-zero,
}

-- What one word does, with `==` for the positions.
word_set : (w m j : ℕ) → (bit (bit_or w (2 ^ m)) j == 1) ≡ (m == j || bit w j == 1)
word_set w m j = elim (Bool-cases (m == j)) [
  | inl e ↦
      let e' : m ≡ j = (==_iff m j).0 e in
      ground (arith, bit-bit_or j w (2 ^ m), bit-pow_self j, bit-lt w j, ap (λ t. bit (2 ^ t) j) e')
  | inr e ↦ ground (arith, bit-bit_or j w (2 ^ m), bit-pow_ne m j, bit-lt w j)
]

word_clear :
    (w m j : ℕ)
    → m < 64
    → j < 64
    → (bit (bit_and w (2 ^ 64 - 1 - 2 ^ m)) j == 1) ≡ (not (m == j) && bit w j == 1)
word_clear w m j p q = elim (Bool-cases (m == j)) [
  | inl e ↦
      let e' : m ≡ j = (==_iff m j).0 e in
      ground (
        arith,
        bit-bit_and j w (2 ^ 64 - 1 - 2 ^ m),
        bit-not_pow m 64 j,
        bit-pow_self j,
        bit-lt w j,
        ap (λ t. bit (2 ^ t) j) e',
      )
  | inr e ↦
      ground (
        arith,
        bit-bit_and j w (2 ^ 64 - 1 - 2 ^ m),
        bit-not_pow m 64 j,
        bit-pow_ne m j,
        bit-lt w j,
      )
]

-- After a write of one word, only the positions of that word are read differently.
test-write :
    (b : Bitset) (pos q w v : ℕ)
    → get_elem? b (pos / 64) ≡ some w
    → test (write b (pos / 64) v) q ≡ (if pos / 64 == q / 64 then bit v (q % 64) == 1 else test b q)
unfolding test
test-write b pos q w v e = elim (Bool-cases (pos / 64 == q / 64)) [
  | inl same ↦
      let s : pos / 64 ≡ q / 64 = (==_iff _ _).0 same in
      rw (same, ← s, get_elem?-set_self b (pos / 64) v w e) refl
  | inr other ↦ rw (other, get_elem?-set_ne b (pos / 64) (q / 64) v (ground arith)) refl
]

test_word :
    (b : Bitset) (pos q w : ℕ)
    → get_elem? b (pos / 64) ≡ some w
    → pos / 64 ≡ q / 64
    → test b q ≡ (bit w (q % 64) == 1)
unfolding test
test_word b pos q w e s = rw (← s, e) refl

-- In range, `set` succeeds, keeps the length, and then tests true at `pos` and as before elsewhere.
pub set_lem :
    (b : Bitset) (pos : ℕ)
    → InRange b pos
    → (c : Bitset) × (set b pos ≡ some c)
      × (length c ≡ length b)
      × ((q : ℕ) → test c q ≡ (pos == q || test b q))
set_lem b pos h =
    let (w, e) = get_elem?_of_lt b (pos / 64) h in
    let v = bit_or w (2 ^ (pos % 64)) in
    (
      write b (pos / 64) v,
      set_eq b pos w e,
      length-set b (pos / 64) v,
      λ q.
          ground (
            arith,
            test-write b pos q w v e,
            test_word b pos q w e,
            word_set w (pos % 64) (q % 64),
          ),
    )

-- In range, `clear` succeeds, keeps the length, and then tests false at `pos` and as before elsewhere.
pub clear_lem :
    (b : Bitset) (pos : ℕ)
    → InRange b pos
    → (c : Bitset) × (clear b pos ≡ some c)
      × (length c ≡ length b)
      × ((q : ℕ) → test c q ≡ (not (pos == q) && test b q))
clear_lem b pos h =
    let (w, e) = get_elem?_of_lt b (pos / 64) h in
    let v = bit_and w (2 ^ 64 - 1 - 2 ^ (pos % 64)) in
    (
      write b (pos / 64) v,
      clear_eq b pos w e,
      length-set b (pos / 64) v,
      λ q. ground (
        arith,
        test-write b pos q w v e,
        test_word b pos q w e,
        word_clear w (pos % 64) (q % 64),
      ),
    )

pub set-IsWords : (b c : Bitset) (pos : ℕ) → IsWords b → set b pos ≡ some c → IsWords c
set-IsWords b c pos h e =
    let (w, r, d) = set_inv b c pos e in
    rw d (
      IsWords-write b (pos / 64) _ h (
        bit_or-lt 64 w _ (IsWords-get_elem? b (pos / 64) w h r)
          (pow_lt (pos % 64) 64 (omega arith))))

-- Over words below 2 ^ 64, `clear` undoes `set` of a position that was not set.
pub clear-set :
    (b c : Bitset) (pos : ℕ)
    → IsWords b
    → test b pos ≡ false
    → set b pos ≡ some c
    → clear c pos ≡ some b
clear-set b c pos h t e =
    let (w, r, d) = set_inv b c pos e in
    let v = bit_or w (2 ^ (pos % 64)) in
    let wl : w < 2 ^ 64 = IsWords-get_elem? b (pos / 64) w h r in
    let off : bit w (pos % 64) ≡ 0 =
      ground (arith, test_word b pos pos w r refl, bit-lt w (pos % 64)) in
    let back : bit_and v (2 ^ 64 - 1 - 2 ^ (pos % 64)) ≡ w = ground (
      arith,
      bit_or-pow (pos % 64) w,
      bit_and-not_pow (pos % 64) 64 v,
      bit_or-lt 64 w (2 ^ (pos % 64)),
      pow_lt (pos % 64) 64,
      bit-bit_or (pos % 64) w (2 ^ (pos % 64)),
      bit-pow_self (pos % 64),
    ) in
    let now : get_elem? c (pos / 64) ≡ some v = rw d (get_elem?-set_self b (pos / 64) v w r) in
    clear_eq c pos v now
    ∙ ap some (rw (back, d, set-set_self b (pos / 64) v w) (set-get_elem? b (pos / 64) w r))

IsWords-replicate : (n : ℕ) → IsWords (replicate n 0)
IsWords-replicate zero = tt
IsWords-replicate (suc n) = (omega arith, IsWords-replicate n)

length-replicate : (n : ℕ) → length (replicate {A = ℕ} n 0) ≡ n
length-replicate zero = refl
length-replicate (suc n) = ap suc (length-replicate n)

replicate-zero : (n i m : ℕ) → bit_of (get_elem? (replicate {A = ℕ} n 0) i) m ≡ false
replicate-zero zero i m = refl
replicate-zero (suc n) zero m = ground (arith, bit-zero m)
replicate-zero (suc n) (suc i) m = replicate-zero n i m

-- A new bitset has a word for each of its `n` positions, and tests false everywhere.
pub new_lem :
    (n : ℕ)
    → IsWords (new n)
      × ((pos : ℕ) → pos < n → InRange (new n) pos)
      × ((q : ℕ) → test (new n) q ≡ false)
unfolding new test
new_lem n = (
  IsWords-replicate ((n + 63) / 64),
  λ pos h. omega (arith, length-replicate ((n + 63) / 64)),
  λ q. replicate-zero ((n + 63) / 64) (q / 64) (q % 64),
)
