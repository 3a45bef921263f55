-- ===== src/Bitset/Hash.antt =====
-- The cache key: `hash_with_bit` is a function of the set that it would make, but it is not that
-- set's `hash` where the count of its bits is odd before.
use native.Mathlib.Nat.{pow-suc}
use porcupine_rust.Base.{
  ℕ, zero, suc, ◌+◌, ◌/◌, ◌%◌, ◌^◌, ◌<◌, bit_or, bit_xor, ◌≡◌, refl, arith, some, [], ◌∷◌,
  get_elem?, set as write, false, ap, ◌∙◌, ◌↔◌, sym,
}
use porcupine_rust.Bitset.{Bitset, set, popcnt, fold_words, hash, hash_with_bit, ones}
use porcupine_rust.Bitset.Index.{set_inv, test}
use porcupine_rust.Bits.{
  bit, bit-lt, bit_or-pow, xor_assoc, xor_comm, xor_self, xor-zero, xor_cancel, xor-one,
}

-- The exclusive or of all words.
fold : Bitset → ℕ
fold b = fold_words 0 b

fold_words_lem : (h : ℕ) (b : Bitset) → fold_words h b ≡ bit_xor h (fold b)
unfolding fold_words fold
fold_words_lem h [] = sym (xor-zero h)
fold_words_lem h (v ∷ b) =
    fold_words_lem (bit_xor h v) b
    ∙ xor_assoc h v (fold b)
    ∙ ap (bit_xor h) (
        sym (
          fold_words_lem (bit_xor 0 v) b
          ∙ xor_assoc 0 v (fold b)
          ∙ xor_comm 0 (bit_xor v (fold b))
          ∙ xor-zero (bit_xor v (fold b))))

fold-cons : (v : ℕ) (b : Bitset) → fold (v ∷ b) ≡ bit_xor v (fold b)
unfolding fold fold_words
fold-cons v b =
    fold_words_lem (bit_xor 0 v) b ∙ ap (λ t. bit_xor t (fold b)) (xor_comm 0 v ∙ xor-zero v)

xor_between : (w f : ℕ) → bit_xor (bit_xor w f) w ≡ f
xor_between w f =
    ap (λ t. bit_xor t w) (xor_comm w f)
    ∙ xor_assoc f w w
    ∙ ap (bit_xor f) (xor_self w)
    ∙ xor-zero f

-- Exclusive or by the old and by the new word turns the fold of the old bitset into the new one's.
fold-write :
    (b : Bitset) (i w v : ℕ)
    → get_elem? b i ≡ some w
    → bit_xor (bit_xor (fold b) w) v ≡ fold (write b i v)
fold-write [] i w v e = absurd (cc)
fold-write (a ∷ b) zero w v e =
    let same : a ≡ w = ground arith in
    rw (fold-cons a b, fold-cons v b, same, xor_between w (fold b)) (xor_comm (fold b) v)
fold-write (a ∷ b) (suc i) w v e =
    rw
      (
        fold-cons a b,
        fold-cons a (write b i v),
        xor_assoc a (fold b) w,
        xor_assoc a (bit_xor (fold b) w) v,
      )
      (ap (bit_xor a) (fold-write b i w v e))

ones-add_pow : (k m w : ℕ) → m < k → bit w m ≡ 0 → ones k (w + 2 ^ m) ≡ ones k w + 1
unfolding ones bit
ones-add_pow zero m w h z = absurd (omega arith)
ones-add_pow (suc k) zero w h z =
    let half : (w + 1) / 2 ≡ w / 2 = omega arith in rw half (omega arith)
ones-add_pow (suc k) (suc m) w h z =
    let half : (w + 2 ^ suc m) / 2 ≡ w / 2 + 2 ^ m = omega (arith, pow-suc 2 m) in
    rw half (omega (arith, pow-suc 2 m, ones-add_pow k m (w / 2) (omega arith) z))

popcnt-write :
    (b : Bitset) (i w v : ℕ)
    → get_elem? b i ≡ some w
    → ones 64 v ≡ ones 64 w + 1
    → popcnt (write b i v) ≡ popcnt b + 1
unfolding popcnt
popcnt-write [] i w v e h = absurd (cc)
popcnt-write (a ∷ b) zero w v e h = let same : a ≡ w = ground arith in rw same (omega arith)
popcnt-write (a ∷ b) (suc i) w v e h = omega (arith, popcnt-write b i w v e h)

-- The word that holds `pos`, where `pos` is not set.
record Fresh (b c : Bitset) (pos : ℕ) : Type 0 where
  word : ℕ
  reads : get_elem? b (pos / 64) ≡ some word
  writes : c ≡ write b (pos / 64) (bit_or word (2 ^ (pos % 64)))
  sum : bit_or word (2 ^ (pos % 64)) ≡ word + 2 ^ (pos % 64)
  off : bit word (pos % 64) ≡ 0

Fresh-set : (b c : Bitset) (pos : ℕ) → test b pos ≡ false → set b pos ≡ some c → Fresh b c pos
unfolding test
Fresh-set b c pos t e =
    let (w, r, d) = set_inv b c pos e in
    let o : bit w (pos % 64) ≡ 0 = ground (arith, bit-lt w (pos % 64)) in
    record {
      word = w;
      reads = r;
      writes = d;
      sum = ground (arith, bit_or-pow (pos % 64) w);
      off = o;
    }

-- Setting a position that was not set adds one to the count.
pub popcnt-set :
    (b c : Bitset) (pos : ℕ) → test b pos ≡ false → set b pos ≡ some c → popcnt c ≡ popcnt b + 1
popcnt-set b c pos t e =
    let f = Fresh-set b c pos t e in
    rw f.writes (
      popcnt-write b (pos / 64) f.word _ f.reads
        (rw f.sum (ones-add_pow 64 (pos % 64) f.word (omega arith) f.off)))

hash_with_bit-fold :
    (b c : Bitset) (pos : ℕ)
    → test b pos ≡ false
    → set b pos ≡ some c
    → hash_with_bit b pos ≡ some (bit_xor (bit_xor (popcnt b) 1) (fold c))
unfolding hash_with_bit
hash_with_bit-fold b c pos t e =
    let f = Fresh-set b c pos t e in
    let v = bit_or f.word (2 ^ (pos % 64)) in
    let moved : bit_xor (bit_xor (hash b) f.word) v ≡ bit_xor (popcnt b) (fold c) =
      unfold hash in
      rw
        (
          fold_words_lem (popcnt b) b,
          xor_assoc (popcnt b) (fold b) f.word,
          xor_assoc (popcnt b) (bit_xor (fold b) f.word) v,
          fold-write b (pos / 64) f.word v f.reads,
          f.writes,
        )
        refl in
    rw (f.reads, moved)
      (ap some (
        xor_assoc (popcnt b) (fold c) 1
        ∙ ap (bit_xor (popcnt b)) (xor_comm (fold c) 1)
        ∙ sym (xor_assoc (popcnt b) 1 (fold c))))

-- Two ways to the same set, each by a position that was not set, have the same key.
pub hash_with_bit_key :
    (b b' c : Bitset) (pos pos' : ℕ)
    → test b pos ≡ false
    → set b pos ≡ some c
    → test b' pos' ≡ false
    → set b' pos' ≡ some c
    → hash_with_bit b pos ≡ hash_with_bit b' pos'
hash_with_bit_key b b' c pos pos' t e t' e' =
    let same : popcnt b ≡ popcnt b' =
      omega (arith, popcnt-set b c pos t e, popcnt-set b' c pos' t' e') in
    hash_with_bit-fold b c pos t e
    ∙ ap (λ n. some (bit_xor (bit_xor n 1) (fold c))) same
    ∙ sym (hash_with_bit-fold b' c pos' t' e')

-- For a position that was not set, `hash_with_bit` is the hash of the bitset with the bit set
-- exactly when the count of bits before is even.
pub hash_with_bit-hash_iff :
    (b c : Bitset) (pos : ℕ)
    → test b pos ≡ false
    → set b pos ≡ some c
    → (hash_with_bit b pos ≡ some (hash c)) ↔ (popcnt b % 2 ≡ 0)
hash_with_bit-hash_iff b c pos t e =
    let n = popcnt b in
    let key = hash_with_bit-fold b c pos t e in
    let grown = popcnt-set b c pos t e in
    let full : hash c ≡ bit_xor (fold c) (n + 1) =
      unfold hash in
      (fold_words_lem (popcnt c) c
        ∙ ap (λ k. bit_xor k (fold c)) grown
        ∙ xor_comm (n + 1) (fold c)) in
    let short : bit_xor (bit_xor n 1) (fold c) ≡ bit_xor (fold c) (bit_xor n 1) =
      xor_comm (bit_xor n 1) (fold c) in
    (
      λ p.
          let q : bit_xor (fold c) (bit_xor n 1) ≡ bit_xor (fold c) (n + 1) = ground arith in
          omega (arith, xor_cancel (fold c) (bit_xor n 1) (n + 1) q, xor-one n),
      λ p.
          let q : bit_xor n 1 ≡ n + 1 = omega (arith, xor-one n) in
          key ∙ ap some (short ∙ ap (bit_xor (fold c)) q ∙ sym full),
    )
