-- ===== src/Filter/Surf/Stale.antt =====
-- The `thread_local` cache when the address of a freed filter is used for another table's filter.
use leveldb_surf.Base.{
  ◌≡◌, ◌≢◌, refl, sym, ap, ◌∙◌, true, false, List, [], some, arith, In, Compare,
}
use leveldb_surf.Filter.Policy.{Bytes}
use leveldb_surf.Filter.Surf.{
  SurfLib, IsSurf, IsOrdered, Slice, Cache, refresh, key_may_match, create_filter, key_answer,
}
use leveldb_surf.Filter.Surf.Sound.{created_key}
use leveldb_surf.Filter.Surf.Queries.{refresh-same, refresh-pointer, key_may_match-full, ask-cached}

module _ {Surf : Type 0} (lib : SurfLib Surf) where
  refresh-new :
      (t : Cache Surf) (f : Slice)
      → f.address ≢ t.last_filter_ptr
      → (refresh lib t f).cached_surf ≡ some (lib.de_serialize f.bytes)
  unfolding refresh
  refresh-new t f n = ground arith

  -- After a query of `f`, a query of any `g` at the same address is answered by the trie of `f`.
  stale_answer :
      (t : Cache Surf) (f g : Slice) (j k : Bytes)
      → f.bytes ≢ []
      → g.bytes ≢ []
      → f.address ≢ t.last_filter_ptr
      → g.address ≡ f.address
      → (key_may_match lib (key_may_match lib t j f).1 k g).0
        ≡ some (lib.lookup_key (lib.de_serialize f.bytes) k)
  stale_answer t f g j k ff gf n e =
      let u = refresh lib t f in
      let s = lib.de_serialize f.bytes in
      let first =
        key_may_match-full lib t j f ff
        ∙ ask-cached lib (λ x. lib.lookup_key x j) u s (refresh-new t f n) in
      let same = refresh-same lib u g (e ∙ sym (refresh-pointer lib t f)) in
      rw
        (
          first,
          key_may_match-full lib u k g gf,
          same,
          ask-cached lib (λ x. lib.lookup_key x k) u s (refresh-new t f n),
        )
        refl

-- A false negative: if a thread has queried the filter of a table at some address, and a filter
-- made of keys in order that include `k` comes to lie at that address, then KeyMayMatch says that
-- `k` is absent whenever the trie of the first table does, though without the cache it would say
-- present.
pub stale_filter_misses_key :
    {Surf : Type 0} {cmp : Compare Bytes} {lib : SurfLib Surf}
    → IsSurf cmp lib
    → (t : Cache Surf) (f g : Slice) (old fresh : List Bytes) (j k : Bytes)
    → f.bytes ≡ create_filter lib old
    → f.bytes ≢ []
    → g.bytes ≡ create_filter lib fresh
    → g.bytes ≢ []
    → f.address ≢ t.last_filter_ptr
    → g.address ≡ f.address
    → lib.lookup_key (lib.de_serialize f.bytes) k ≡ false
    → IsOrdered cmp fresh
    → In k fresh
    → ((key_may_match lib (key_may_match lib t j f).1 k g).0 ≡ some false)
      × (key_answer lib k g.bytes ≡ true)
stale_filter_misses_key {lib = lib} is t f g old fresh j k fb ff gb gf n e absent o m = (
  stale_answer lib t f g j k ff gf n e ∙ ap some absent,
  ap (key_answer lib k) gb ∙ created_key is fresh k o m,
)
