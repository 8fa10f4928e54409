-- ===== src/Filter/Surf/Sound.antt =====
-- SuRFPolicy as a filter policy: what it promises, and what its range query is worth in a table.
use leveldb_surf.Base.{
  ◌≡◌, ◌≢◌, ◌^◌, ◌<◌, refl, ◌∙◌, ap, true, List, [], ◌∷◌, length, Compare, In, Le, ℕ, Bool, some,
  map, All,
}
use leveldb_surf.Filter.Policy.{Bytes, Coding, IsCoding}
use leveldb_surf.Filter.Builder.{Call}
use leveldb_surf.Filter.Reader as Reader
use leveldb_surf.Filter.Reader.{new_reader}
use leveldb_surf.Filter.Answers.Slices.{keys_of}
use leveldb_surf.Filter.Answers.Layout.{block_of, filter_of}
use leveldb_surf.Filter.Answers.Range.{range_never_prunes}
use leveldb_surf.Filter.Surf.{
  SurfLib, IsSurf, IsOrdered, Slice, fresh_cache, create_filter, key_answer, range_answer,
  uncached_policy,
}
use leveldb_surf.Filter.Surf.Queries.{ask_keys, ask_ranges, IsLive, cached_queries-right}

module _ {Surf : Type 0} (lib : SurfLib Surf) where
  pub key_answer-true :
      (bytes key : Bytes)
      → lib.lookup_key (lib.de_serialize bytes) key ≡ true
      → key_answer lib key bytes ≡ true
  unfolding key_answer
  key_answer-true [] key h = refl
  key_answer-true (x ∷ xs) key h = h

  pub range_answer-true :
      (bytes lo hi : Bytes)
      → lib.lookup_range (lib.de_serialize bytes) lo true hi true ≡ true
      → range_answer lib lo hi bytes ≡ true
  unfolding range_answer
  range_answer-true [] lo hi h = refl
  range_answer-true (x ∷ xs) lo hi h = h

module _ {Surf : Type 0} {cmp : Compare Bytes} {lib : SurfLib Surf} (is : IsSurf cmp lib) where
  pub created_key :
      (ks : List Bytes) (k : Bytes)
      → IsOrdered cmp ks
      → In k ks
      → key_answer lib k (create_filter lib ks) ≡ true
  unfolding create_filter
  created_key [] k o m = elim m [ ]
  created_key (j ∷ ks) k o m =
      key_answer-true lib _ k
        (ap (λ s. lib.lookup_key s k) (is.stored (j ∷ ks) o) ∙ is.finds_key (j ∷ ks) k o m)

  created_range :
      (ks : List Bytes) (k lo hi : Bytes)
      → IsOrdered cmp ks
      → In k ks
      → Le cmp lo k
      → Le cmp k hi
      → range_answer lib lo hi (create_filter lib ks) ≡ true
  unfolding create_filter
  created_range [] k lo hi o m l h = elim m [ ]
  created_range (j ∷ ks) k lo hi o m l h = range_answer-true lib _ lo hi (
      ap (λ s. lib.lookup_range s lo true hi true) (is.stored (j ∷ ks) o)
      ∙ is.finds_range (j ∷ ks) k lo hi o m l h)

  -- A call of KeyMayMatch with a key, or of RangeMayMatch with bounds around a key, that the filter
  -- was made of.
  abbrev pub AsksOwnKey : Bytes × Slice → Type 0
  AsksOwnKey call =
      (ks : List Bytes) × (call.1.bytes ≡ create_filter lib ks) × IsOrdered cmp ks × In call.0 ks

  abbrev pub AsksAroundKey : (Bytes × Bytes) × Slice → Type 0
  AsksAroundKey call =
      (ks : List Bytes) × (k : Bytes) × (call.1.bytes ≡ create_filter lib ks)
      × IsOrdered cmp ks
      × In k ks
      × Le cmp call.0.0 k
      × Le cmp k call.0.1

  All-map-some :
      {A : Type 0} (f : A → Bool) (P : A → Type 0)
      → ((x : A) → P x → f x ≡ true)
      → (xs : List A) → All P xs
      → All (λ r. r ≡ some true) (map (λ x. some (f x)) xs)
  All-map-some f P h [] a = tt
  All-map-some f P h (x ∷ xs) a = (ap some (h x a.0), All-map-some f P h xs a.1)

  -- SuRFPolicy's queries through their caches have no false negatives while the bytes at every
  -- address stay as they are: if each filter that a thread asks was made by CreateFilter of keys in
  -- order, then KeyMayMatch is true for every one of its filter's keys, and RangeMayMatch for all
  -- bounds around one, in any number of calls, in any order and over any filters. A stored SuRF is
  -- assumed to read back as it was built and to have no false negatives, over keys in order.
  pub cached_queries-true :
      (memory : ℕ → Bytes) (keys : List (Bytes × Slice)) (ranges : List ((Bytes × Bytes) × Slice))
      → All (λ c. IsLive lib memory c.1) keys
      → All (λ c. IsLive lib memory c.1) ranges
      → All AsksOwnKey keys
      → All AsksAroundKey ranges
      → All (λ r. r ≡ some true) (ask_keys lib fresh_cache keys)
        × All (λ r. r ≡ some true) (ask_ranges lib fresh_cache ranges)
  cached_queries-true memory keys ranges lk lr ok or =
      let right = cached_queries-right lib memory keys ranges lk lr in
      (
        rw right.0 (
            All-map-some (λ c. key_answer lib c.0 c.1.bytes) AsksOwnKey
              (λ call (ks, made, o, i). ap (key_answer lib call.0) made ∙ created_key ks call.0 o i)
              keys ok),
        rw right.1 (
            All-map-some (λ c. range_answer lib c.0.0 c.0.1 c.1.bytes) AsksAroundKey
              (λ call (ks, k, made, o, i, l, h).
                ap (range_answer lib call.0.0 call.0.1) made
                ∙ created_range ks k call.0.0 call.0.1 o i l h)
              ranges or),
      )

-- With SuRFPolicy, its cache left aside, no table is ever skipped: whatever the library answers,
-- RangeMayMatch over every finished block whose filter is not empty and shorter than 4 GiB is true
-- for all bounds, since the reader asks the policy about the sentinel entry too and the policy
-- answers true for no bytes.
pub surf_range_never_prunes :
    {c : Coding} (ic : IsCoding c) {Surf : Type 0} (lib : SurfLib Surf) (cs : List Call)
    (lo hi : Bytes)
    → length (filter_of (uncached_policy lib) (keys_of cs)) < 2 ^ 32
    → filter_of (uncached_policy lib) (keys_of cs) ≢ []
    → Reader.range_may_match c
        (uncached_policy lib)
        (new_reader c (block_of c (uncached_policy lib) cs))
        lo
        hi
      ≡ true
unfolding range_answer
surf_range_never_prunes ic lib cs lo hi =
    range_never_prunes ic (uncached_policy lib) (λ l h. refl) cs lo hi
