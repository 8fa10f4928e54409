-- ===== src/Filter/Surf/Queries.antt =====
-- The `thread_local` cache of a query: right while the bytes at an address stay, wrong when the
-- address of a freed filter is used again.
use leveldb_surf.Base.{
  ℕ, ◌≡◌, ◌≢◌, refl, sym, ap, ap₂, ◌∙◌, ◌⊎◌, inl, inr, Bool, true, List, [], ◌∷◌, Option, none,
  some, arith, ◌==◌, ==_iff, Bool-cases, All, map,
}
use leveldb_surf.Filter.Policy.{Bytes}
use leveldb_surf.Filter.Surf.{
  SurfLib, Slice, Cache, fresh_cache, refresh, ask, query_filter, key_may_match, range_may_match,
  key_answer, range_answer,
}

module _ {Surf : Type 0} (lib : SurfLib Surf) where
  -- What lies at each address; the cached trie is that of the bytes at its pointer.
  abbrev pub Coherent : (ℕ → Bytes) → Cache Surf → Type 0
  Coherent memory t =
      ((t.last_filter_ptr ≡ 0) × (t.cached_surf ≡ none))
      ⊎ (t.cached_surf ≡ some (lib.de_serialize (memory t.last_filter_ptr)))

  -- A slice of a live filter: where it points are its bytes, and a non-empty one points somewhere.
  pub record IsLive (memory : ℕ → Bytes) (filter : Slice) : Type 0 where
    pub there : filter.bytes ≢ [] → memory filter.address ≡ filter.bytes
    pub not_null : filter.bytes ≢ [] → filter.address ≢ 0

  refresh-cached :
      (memory : ℕ → Bytes) (t : Cache Surf) (filter : Slice)
      → memory filter.address ≡ filter.bytes
      → filter.address ≢ 0
      → Coherent memory t
      → (refresh lib t filter).cached_surf ≡ some (lib.de_serialize filter.bytes)
  unfolding refresh
  refresh-cached memory t filter there nz h =
      elim (Bool-cases (filter.address == t.last_filter_ptr)) [
        | inl same ↦ rw same (kept ((==_iff filter.address t.last_filter_ptr).0 same) h)
        | inr other ↦ rw other
      ]
    where
      kept :
          filter.address ≡ t.last_filter_ptr
          → Coherent memory t
          → t.cached_surf ≡ some (lib.de_serialize filter.bytes)
      kept e (inl g) = absurd (nz (e ∙ g.0))
      kept e (inr g) = g ∙ ap (λ b. some (lib.de_serialize b)) (ap memory (sym e) ∙ there)

  pub refresh-pointer :
      (t : Cache Surf) (filter : Slice) → (refresh lib t filter).last_filter_ptr ≡ filter.address
  unfolding refresh
  refresh-pointer t filter = ground arith

  -- The answer of a query for the bytes of a filter, with no cache.
  abbrev pure : (Surf → Bool) → Bytes → Bool
  pure query [] = true
  pure query (x ∷ xs) = query (lib.de_serialize (x ∷ xs))

  pub ask-cached :
      (query : Surf → Bool) (u : Cache Surf) (s : Surf)
      → u.cached_surf ≡ some s
      → ask lib query u ≡ (some (query s), u)
  ask-cached query u s e = ground arith

  pure-key : (key bytes : Bytes) → pure (λ s. lib.lookup_key s key) bytes ≡ key_answer lib key bytes
  unfolding key_answer
  pure-key key [] = refl
  pure-key key (x ∷ xs) = refl

  pure-range :
      (lo hi bytes : Bytes)
      → pure (λ s. lib.lookup_range s lo true hi true) bytes ≡ range_answer lib lo hi bytes
  unfolding range_answer
  pure-range lo hi [] = refl
  pure-range lo hi (x ∷ xs) = refl

  query_filter-right :
      (query : Surf → Bool) (memory : ℕ → Bytes) (t : Cache Surf) (filter : Slice) (bytes : Bytes)
      → filter.bytes ≡ bytes
      → IsLive memory filter
      → Coherent memory t
      → ((query_filter lib query t filter bytes).0 ≡ some (pure query bytes))
        × Coherent memory (query_filter lib query t filter bytes).1
  query_filter-right query memory t filter [] e live h = (refl, h)
  query_filter-right query memory t filter (x ∷ xs) e live h =
      let full : filter.bytes ≢ [] = λ z. cc in
      let cached = refresh-cached memory t filter (live.there full) (live.not_null full) h in
      let pointer = refresh-pointer t filter in
      let there = ap memory pointer ∙ live.there full in
      rw (ask-cached query (refresh lib t filter) (lib.de_serialize filter.bytes) cached) (
        ap (λ b. some (query (lib.de_serialize b))) e,
        inr (cached ∙ ap (λ b. some (lib.de_serialize b)) (sym there)),
      )

  -- One thread's calls of KeyMayMatch, in order, each with its key and its filter.
  pub ask_keys : Cache Surf → List (Bytes × Slice) → List (Option Bool)
  ask_keys t [] = []
  ask_keys t ((key, filter) ∷ calls) =
      let r = key_may_match lib t key filter in r.0 ∷ ask_keys r.1 calls

  -- And of RangeMayMatch.
  pub ask_ranges : Cache Surf → List ((Bytes × Bytes) × Slice) → List (Option Bool)
  ask_ranges t [] = []
  ask_ranges t (((lo, hi), filter) ∷ calls) =
      let r = range_may_match lib t lo hi filter in r.0 ∷ ask_ranges r.1 calls

  key_may_match-right :
      (memory : ℕ → Bytes) (t : Cache Surf) (key : Bytes) (filter : Slice)
      → IsLive memory filter
      → Coherent memory t
      → ((key_may_match lib t key filter).0 ≡ some (key_answer lib key filter.bytes))
        × Coherent memory (key_may_match lib t key filter).1
  unfolding key_may_match
  key_may_match-right memory t key filter live h =
      let r =
        query_filter-right (λ s. lib.lookup_key s key) memory t filter filter.bytes refl live h in
      (r.0 ∙ ap some (pure-key key filter.bytes), r.1)

  range_may_match-right :
      (memory : ℕ → Bytes) (t : Cache Surf) (lo hi : Bytes) (filter : Slice)
      → IsLive memory filter
      → Coherent memory t
      → ((range_may_match lib t lo hi filter).0 ≡ some (range_answer lib lo hi filter.bytes))
        × Coherent memory (range_may_match lib t lo hi filter).1
  unfolding range_may_match
  range_may_match-right memory t lo hi filter live h =
      let r =
        query_filter-right (λ s. lib.lookup_range s lo true hi true) memory t filter filter.bytes
          refl live h in
      (r.0 ∙ ap some (pure-range lo hi filter.bytes), r.1)

  ask_keys-right :
      (memory : ℕ → Bytes) (t : Cache Surf) (calls : List (Bytes × Slice))
      → Coherent memory t
      → All (λ c. IsLive memory c.1) calls
      → ask_keys t calls ≡ map (λ c. some (key_answer lib c.0 c.1.bytes)) calls
  unfolding ask_keys
  ask_keys-right memory t [] h live = refl
  ask_keys-right memory t ((key, filter) ∷ calls) h live =
      let r = key_may_match-right memory t key filter live.0 h in
      ap₂ ◌∷◌ r.0 (ask_keys-right memory (key_may_match lib t key filter).1 calls r.1 live.1)

  ask_ranges-right :
      (memory : ℕ → Bytes) (t : Cache Surf) (calls : List ((Bytes × Bytes) × Slice))
      → Coherent memory t
      → All (λ c. IsLive memory c.1) calls
      → ask_ranges t calls ≡ map (λ c. some (range_answer lib c.0.0 c.0.1 c.1.bytes)) calls
  unfolding ask_ranges
  ask_ranges-right memory t [] h live = refl
  ask_ranges-right memory t (((lo, hi), filter) ∷ calls) h live =
      let r = range_may_match-right memory t lo hi filter live.0 h in
      ap₂ ◌∷◌ r.0 (ask_ranges-right memory (range_may_match lib t lo hi filter).1 calls r.1 live.1)

  -- While the bytes at every address stay as they are, a thread's calls of KeyMayMatch and its
  -- calls of RangeMayMatch, in any number and order and over any filters, each call a live trie
  -- (never a null pointer) and answer as if the filter were read anew for each call.
  pub cached_queries-right :
      (memory : ℕ → Bytes) (keys : List (Bytes × Slice)) (ranges : List ((Bytes × Bytes) × Slice))
      → All (λ c. IsLive memory c.1) keys
      → All (λ c. IsLive memory c.1) ranges
      → (ask_keys fresh_cache keys ≡ map (λ c. some (key_answer lib c.0 c.1.bytes)) keys)
        × (ask_ranges fresh_cache ranges
            ≡ map (λ c. some (range_answer lib c.0.0 c.0.1 c.1.bytes)) ranges)
  cached_queries-right memory keys ranges lk lr = (
    ask_keys-right memory fresh_cache keys (inl (refl, refl)) lk,
    ask_ranges-right memory fresh_cache ranges (inl (refl, refl)) lr,
  )

  pub refresh-same :
      (t : Cache Surf) (filter : Slice)
      → filter.address ≡ t.last_filter_ptr
      → refresh lib t filter ≡ t
  unfolding refresh
  refresh-same t filter e = ground arith

  pub key_may_match-full :
      (t : Cache Surf) (key : Bytes) (filter : Slice)
      → filter.bytes ≢ []
      → key_may_match lib t key filter ≡ ask lib (λ s. lib.lookup_key s key) (refresh lib t filter)
  unfolding key_may_match
  key_may_match-full t key filter full = go filter.bytes refl
    where
      go :
          (bytes : Bytes)
          → filter.bytes ≡ bytes
          → query_filter lib (λ s. lib.lookup_key s key) t filter bytes
            ≡ ask lib (λ s. lib.lookup_key s key) (refresh lib t filter)
      go [] e = absurd (full e)
      go (x ∷ xs) e = refl
