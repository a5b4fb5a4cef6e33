-- ===== src/RateLimit/Store/Laws.antt =====
-- Size, distinct keys and what happens to other clients' buckets.
use caas_lite.Prelude.{
  ℕ, ◌+◌, ◌≤◌, ◌≡◌, ◌≢◌, ◌⊎◌, refl, String, none, some, [], ◌∷◌, ◌++◌, inl, inr, if◌then◌else◌,
  str_eq, eq_iff, arith, length, length-append, Option-cases,
}
use caas_lite.RateLimit.Bucket.{TokenBucket, new}
use caas_lite.RateLimit.Store.{
  BucketStore, lookup, erase, write, get, evict_oldest, set, get_or_create,
}

-- No key stands twice, as in a Map.
abbrev pub IsMap : BucketStore → Type 0
IsMap [] = Unit
IsMap ((k, b) ∷ s) = (lookup k s ≡ none) × IsMap s

-- No more buckets than configured; one where `maxBuckets` is 0.
abbrev pub Fits : ℕ → BucketStore → Type 0
Fits max s = (length s ≤ max) ⊎ (length s ≤ 1)

lookup-append_one :
    (j k : String) (b : TokenBucket) (s : BucketStore)
    → lookup k s ≡ none
    → lookup j (s ++ (k, b) ∷ []) ≡ (if str_eq k j then some b else lookup j s)
unfolding lookup
lookup-append_one j k b [] h = refl
lookup-append_one j k b ((i, c) ∷ s) h =
    ground (arith, eq_iff k j, eq_iff i j, eq_iff i k, lookup-append_one j k b s)

lookup-erase :
    (j k : String) (s : BucketStore)
    → IsMap s
    → lookup j (erase k s) ≡ (if str_eq k j then none else lookup j s)
unfolding lookup erase
lookup-erase j k [] h = ground arith
lookup-erase j k ((i, c) ∷ s) h =
    ground (arith, eq_iff k j, eq_iff i j, eq_iff i k, lookup-erase j k s h.1)

pub lookup-write :
    (j k : String) (b : TokenBucket) (s : BucketStore)
    → lookup j (write k b s) ≡ (if str_eq k j then some b else lookup j s)
unfolding lookup write
lookup-write j k b [] = refl
lookup-write j k b ((i, c) ∷ s) =
    ground (arith, eq_iff k j, eq_iff i j, eq_iff i k, lookup-write j k b s)

pub lookup-write_ne :
    (j k : String) (b : TokenBucket) (s : BucketStore) → j ≢ k → lookup j (write k b s) ≡ lookup j s
lookup-write_ne j k b s ne = ground (arith, lookup-write j k b s, eq_iff k j)

append_one-IsMap :
    (k : String) (b : TokenBucket) (s : BucketStore)
    → IsMap s
    → lookup k s ≡ none
    → IsMap (s ++ (k, b) ∷ [])
unfolding lookup
append_one-IsMap k b [] m h = (refl, tt)
append_one-IsMap k b ((i, c) ∷ s) m h =
    ground (arith, eq_iff i k, eq_iff k i, lookup-append_one i k b s, append_one-IsMap k b s m.1)

erase-IsMap : (k : String) (s : BucketStore) → IsMap s → IsMap (erase k s)
unfolding erase
erase-IsMap k [] m = tt
erase-IsMap k ((i, c) ∷ s) m =
    ground (arith, eq_iff k i, eq_iff i k, erase-IsMap k s m.1, lookup-erase i k s m.1)

pub write-IsMap : (k : String) (b : TokenBucket) (s : BucketStore) → IsMap s → IsMap (write k b s)
unfolding write lookup
write-IsMap k b [] m = (refl, tt)
write-IsMap k b ((i, c) ∷ s) m =
    ground (arith, eq_iff k i, eq_iff i k, write-IsMap k b s m.1, lookup-write i k b s)

length-erase :
    (k : String) (s : BucketStore) → lookup k s ≢ none → length (erase k s) + 1 ≡ length s
unfolding erase lookup
length-erase k [] h = absurd (h refl)
length-erase k ((i, c) ∷ s) h = ground (arith, length-erase k s)

length-write_new :
    (k : String) (b : TokenBucket) (s : BucketStore)
    → lookup k s ≡ none
    → length (write k b s) ≡ length s + 1
unfolding write lookup
length-write_new k b [] h = omega arith
length-write_new k b ((i, c) ∷ s) h = ground (arith, length-write_new k b s)

pub length-write_old :
    (k : String) (b : TokenBucket) (s : BucketStore)
    → lookup k s ≢ none
    → length (write k b s) ≡ length s
unfolding write lookup
length-write_old k b [] h = absurd (h refl)
length-write_old k b ((i, c) ∷ s) h = ground (arith, length-write_old k b s)

-- What the store guarantees after a request under key `k`: the bucket is the one that stood
-- there, or a full one; it stands last; keys stay distinct and the number of buckets within the
-- bound; another key's bucket is the same one, unless `k` was new and the other key the oldest
-- one of a full store.
pub record IsTouched (max : ℕ) (k : String) (made : TokenBucket) (s : BucketStore) (b : TokenBucket)
    (s' : BucketStore) : Type 0 where
  pub bucket : b ≡ elim (lookup k s) [ some old ↦ old | none ↦ made ]
  pub stored : lookup k s' ≡ some b
  pub map : IsMap s'
  pub fits : Fits max s'
  pub others :
      (j : String)
      → j ≢ k
      → (lookup j s' ≡ lookup j s) ⊎ ((lookup k s ≡ none) × (lookup j s' ≡ none) × (max ≤ length s))

evict_oldest-IsMap : (max : ℕ) (s : BucketStore) → IsMap s → IsMap (evict_oldest max s)
unfolding evict_oldest
evict_oldest-IsMap max [] m = tt
evict_oldest-IsMap max (e ∷ s) m = ground arith

evict_oldest-room :
    (max : ℕ) (s : BucketStore)
    → Fits max s
    → (length (evict_oldest max s) + 1 ≤ max) ⊎ (length (evict_oldest max s) ≡ 0)
unfolding evict_oldest
evict_oldest-room max [] h = ground arith
evict_oldest-room max (e ∷ s) h = ground arith

lookup-evict_oldest :
    (max : ℕ) (j : String) (s : BucketStore)
    → IsMap s
    → (lookup j (evict_oldest max s) ≡ lookup j s)
      ⊎ ((lookup j (evict_oldest max s) ≡ none) × (max ≤ length s))
unfolding evict_oldest lookup
lookup-evict_oldest max j [] m = ground arith
lookup-evict_oldest max j ((i, b) ∷ s) m = ground (arith, eq_iff i j)

lookup-evict_oldest-none :
    (max : ℕ) (j : String) (s : BucketStore)
    → lookup j s ≡ none
    → lookup j (evict_oldest max s) ≡ none
unfolding evict_oldest lookup
lookup-evict_oldest-none max j [] m = ground arith
lookup-evict_oldest-none max j ((i, b) ∷ s) m = ground (arith, eq_iff i j)

pub get_or_create_bucket :
    (max now : ℕ) (k : String) (capacity rpm : ℕ) (s : BucketStore)
    → (get_or_create max now k capacity rpm s).0
      ≡ elim (lookup k s) [ some old ↦ old | none ↦ new now capacity rpm ]
unfolding get_or_create get
get_or_create_bucket max now k capacity rpm s = ground arith

module _ (max now : ℕ) (k : String) (capacity rpm : ℕ) (s : BucketStore) (m : IsMap s)
    (f : Fits max s) where
  abbrev made : TokenBucket
  made = new now capacity rpm

  IsTouched-old :
      (b : TokenBucket) → lookup k s ≡ some b → IsTouched max k made s b (erase k s ++ (k, b) ∷ [])
  IsTouched-old b e =
      let gone : lookup k (erase k s) ≡ none = ground (arith, lookup-erase k k s m, eq_iff k k) in
      record {
        bucket = ground arith;
        stored = ground (arith, lookup-append_one k k b (erase k s) gone, eq_iff k k);
        map = append_one-IsMap k b (erase k s) (erase-IsMap k s m) gone;
        fits = ground (arith, length-append {0} (erase k s) ((k, b) ∷ []), length-erase k s, f);
        others = λ j ne.
            ground
              (arith, lookup-append_one j k b (erase k s) gone, lookup-erase j k s m, eq_iff k j);
      }

  IsTouched-new : lookup k s ≡ none → IsTouched max k made s made (set max k made s)
  unfolding set
  IsTouched-new e =
      let gone = lookup-evict_oldest-none max k s e in
      record {
        bucket = ground arith;
        stored = ground (arith, lookup-write k k made (evict_oldest max s), eq_iff k k);
        map = write-IsMap k made (evict_oldest max s) (evict_oldest-IsMap max s m);
        fits =
            ground
              (arith, length-write_new k made (evict_oldest max s) gone, evict_oldest-room max s f);
        others = λ j ne. ground (
          arith,
          lookup-write j k made (evict_oldest max s),
          lookup-evict_oldest max j s m,
          eq_iff k j,
        );
      }

  get_or_create_new :
      lookup k s ≡ none → get_or_create max now k capacity rpm s ≡ (made, set max k made s)
  unfolding get_or_create get
  get_or_create_new e = ground arith

  get_or_create_old :
      (b : TokenBucket)
      → lookup k s ≡ some b
      → get_or_create max now k capacity rpm s ≡ (b, erase k s ++ (k, b) ∷ [])
  unfolding get_or_create get
  get_or_create_old b e = ground arith

  -- On a store of distinct keys within its bound, `getOrCreate` gives the key's bucket or a new one
  -- and leaves it stored, keeps the keys distinct and the store within its bound, and leaves every
  -- other key's bucket, save one that is evicted where the key is new and the store full.
  pub get_or_create-IsTouched :
      let (b, s') = get_or_create max now k capacity rpm s in
      IsTouched max k (new now capacity rpm) s b s'
  get_or_create-IsTouched = elim (Option-cases (lookup k s)) [
    | inl e ↦ rw (get_or_create_new e) (IsTouched-new e)
    | inr (b, e) ↦ rw (get_or_create_old b e) (IsTouched-old b e)
  ]
