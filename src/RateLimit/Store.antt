-- ===== src/RateLimit/Store.antt =====
-- `BucketStore` of src/middleware/rateLimiter.ts: a Map in insertion order, the least recently used
-- key first. A bucket is an object that the store shares; `write` is a change of it in place.
pub mod Laws
use caas_lite.Prelude.{
  ℕ, String, Bool, true, false, Option, none, some, List, [], ◌∷◌, ◌++◌, if◌then◌else◌, str_eq, leb,
  length,
}
use caas_lite.RateLimit.Bucket.{TokenBucket, new}

abbrev pub BucketStore : Type 0
BucketStore = List (String × TokenBucket)

unfoldable pub lookup : String → BucketStore → Option TokenBucket
lookup k [] = none
lookup k ((j, b) ∷ s) = if str_eq j k then some b else lookup k s

unfoldable pub erase : String → BucketStore → BucketStore
erase k [] = []
erase k ((j, b) ∷ s) = if str_eq j k then s else (j, b) ∷ erase k s

-- `Map.set`: a key that is there keeps its place.
unfoldable pub write : String → TokenBucket → BucketStore → BucketStore
write k b [] = (k, b) ∷ []
write k b ((j, c) ∷ s) = if str_eq j k then (j, b) ∷ s else (j, c) ∷ write k b s

-- `BucketStore.get` moves the key that it finds to the end.
unfoldable pub get : String → BucketStore → Option TokenBucket × BucketStore
get k s = elim (lookup k s) [ none ↦ (none, s) | some b ↦ (some b, erase k s ++ (k, b) ∷ []) ]

-- The eviction in `BucketStore.set`.
unfoldable pub evict_oldest : ℕ → BucketStore → BucketStore
evict_oldest max [] = []
evict_oldest max (e ∷ s) = if leb max (length (e ∷ s)) then s else e ∷ s

unfoldable pub set : ℕ → String → TokenBucket → BucketStore → BucketStore
set max k b s = write k b (evict_oldest max s)

unfoldable pub get_or_create : ℕ → ℕ → String → ℕ → ℕ → BucketStore → TokenBucket × BucketStore
get_or_create max now k capacity rpm s =
    let (found, s') = get k s in
    let made = new now capacity rpm in
    elim found [ some b ↦ (b, s') | none ↦ (made, set max k made s') ]
