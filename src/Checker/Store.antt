-- ===== src/Checker/Store.antt =====
-- The cache as a collection of entries: what holds of all of them, and what a hit gives.
use porcupine_rust.Base.{ℕ, ◌≡◌, arith, List, [], ◌∷◌, ◌++◌, ◌==◌, true, ◌&&◌, Bool-cases, inl, inr}
use porcupine_rust.Bitset
use porcupine_rust.Bitset.{Bitset}
use porcupine_rust.Model.{Model}
use porcupine_rust.Checker.{
  CacheEntry, Cache, bucket, cache_push, scan_bucket, cache_contains_with_bit,
}

module _ {S : Type 0} where
  abbrev pub AllEntries : (CacheEntry S → Type 0) → List (CacheEntry S) → Type 0
  AllEntries P [] = Unit {0}
  AllEntries P (e ∷ entries) = P e × AllEntries P entries

  abbrev pub AllCached : (CacheEntry S → Type 0) → Cache S → Type 0
  AllCached P [] = Unit {0}
  AllCached P ((key, entries) ∷ cache) = AllEntries P entries × AllCached P cache

  AllEntries-map :
      (P Q : CacheEntry S → Type 0)
      → ((e : CacheEntry S) → P e → Q e)
      → (entries : List (CacheEntry S)) → AllEntries P entries
      → AllEntries Q entries
  AllEntries-map P Q f [] h = tt
  AllEntries-map P Q f (e ∷ entries) h = (f e h.0, AllEntries-map P Q f entries h.1)

  pub AllCached-map :
      (P Q : CacheEntry S → Type 0)
      → ((e : CacheEntry S) → P e → Q e)
      → (cache : Cache S) → AllCached P cache
      → AllCached Q cache
  AllCached-map P Q f [] h = tt
  AllCached-map P Q f ((key, entries) ∷ cache) h =
      (AllEntries-map P Q f entries h.0, AllCached-map P Q f cache h.1)

  AllEntries-push :
      (P : CacheEntry S → Type 0) (entries : List (CacheEntry S)) (e : CacheEntry S)
      → AllEntries P entries
      → P e
      → AllEntries P (entries ++ e ∷ [])
  AllEntries-push P [] e h p = (p, tt)
  AllEntries-push P (f ∷ entries) e h p = (h.0, AllEntries-push P entries e h.1 p)

  pub AllCached-push :
      (P : CacheEntry S → Type 0) (cache : Cache S) (hash : ℕ) (e : CacheEntry S)
      → AllCached P cache
      → P e
      → AllCached P (cache_push cache hash e)
  unfolding cache_push
  AllCached-push P [] hash e h p = ((p, tt), tt)
  AllCached-push P ((key, entries) ∷ cache) hash e h p = elim (Bool-cases (key == hash)) [
    | inl y ↦ rw y (AllEntries-push P entries e h.0 p, h.1)
    | inr n ↦ rw n (h.0, AllCached-push P cache hash e h.1 p)
  ]

  AllCached-bucket :
      (P : CacheEntry S → Type 0) (cache : Cache S) (hash : ℕ)
      → AllCached P cache
      → AllEntries P (bucket cache hash)
  unfolding bucket
  AllCached-bucket P [] hash h = tt
  AllCached-bucket P ((key, entries) ∷ cache) hash h = elim (Bool-cases (key == hash)) [
    | inl y ↦ rw y h.0
    | inr n ↦ rw n (AllCached-bucket P cache hash h.1)
  ]

module _ {S I O : Type 0} (m : Model S I O) where
  -- The entry that a probe of the cache found.
  pub record Hit (P : CacheEntry S → Type 0) (b : Bitset) (pos : ℕ) (s : S) : Type 0 where
    pub entry : CacheEntry S
    pub holds : P entry
    pub same_set : Bitset.eq_with_bit b pos entry.linearized ≡ true
    pub same_state : m.state_eq entry.state s ≡ true

  scan_bucket-Hit :
      (P : CacheEntry S → Type 0) (entries : List (CacheEntry S)) (b : Bitset) (pos : ℕ) (s : S)
      → AllEntries P entries
      → scan_bucket m entries b pos s ≡ true
      → Hit P b pos s
  unfolding scan_bucket
  scan_bucket-Hit P [] b pos s h e = absurd (cc)
  scan_bucket-Hit P (f ∷ entries) b pos s h e =
      elim (Bool-cases (Bitset.eq_with_bit b pos f.linearized && m.state_eq f.state s)) [
        | inl y ↦ record {
          entry = f;
          holds = h.0;
          same_set = ground arith;
          same_state = ground arith;
        }
        | inr n ↦ scan_bucket-Hit P entries b pos s h.1 (rw n at e)
      ]

  pub cache_contains-Hit :
      (P : CacheEntry S → Type 0) (cache : Cache S) (hash : ℕ) (b : Bitset) (pos : ℕ) (s : S)
      → AllCached P cache
      → cache_contains_with_bit m cache hash b pos s ≡ true
      → Hit P b pos s
  unfolding cache_contains_with_bit
  cache_contains-Hit P cache hash b pos s h e =
      scan_bucket-Hit P (bucket cache hash) b pos s (AllCached-bucket P cache hash h) e
