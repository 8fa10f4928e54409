-- ===== src/Filter/Surf.antt =====
-- project/surf_filter.cc: SuRFPolicy. The SuRF library (surf/surf.hpp) is not in this repository:
-- it is the parameter `lib`.
pub mod Sound
pub mod Queries
pub mod Stale
use leveldb_surf.Base.{
  ℕ, ◌≡◌, Bool, true, List, [], ◌∷◌, Option, none, some, ◌==◌, if◌then◌else◌, In, Compare, Le,
  IsSorted,
}
use leveldb_surf.Filter.Policy.{Bytes, FilterPolicy}

-- What the policy calls of surf::SuRF.
pub record SurfLib (Surf : Type 0) : Type 0 where
  pub build : List Bytes → Surf
  pub serialize : Surf → Bytes
  pub de_serialize : Bytes → Surf
  pub lookup_key : Surf → Bytes → Bool
  pub lookup_range : Surf → Bytes → Bool → Bytes → Bool → Bool

-- Keys in ascending order, perhaps with duplicates, as CreateFilter asks for.
abbrev pub IsOrdered : Compare Bytes → List Bytes → Type 0
IsOrdered cmp keys = IsSorted (Le cmp) keys

-- What SuRF documents, over keys in order: it can be stored, and it has no false negatives.
pub record IsSurf {Surf : Type 0} (cmp : Compare Bytes) (lib : SurfLib Surf) : Type 0 where
  pub stored :
      (keys : List Bytes)
      → IsOrdered cmp keys
      → lib.de_serialize (lib.serialize (lib.build keys)) ≡ lib.build keys
  pub finds_key :
      (keys : List Bytes) (k : Bytes)
      → IsOrdered cmp keys
      → In k keys
      → lib.lookup_key (lib.build keys) k ≡ true
  pub finds_range :
      (keys : List Bytes) (k lo hi : Bytes)
      → IsOrdered cmp keys
      → In k keys
      → Le cmp lo k
      → Le cmp k hi
      → lib.lookup_range (lib.build keys) lo true hi true ≡ true

-- A slice: the address of its first byte (0 is the null pointer) and its bytes.
pub record Slice : Type 0 where
  pub address : ℕ
  pub bytes : Bytes

-- The two `thread_local` variables of a query, as the thread starts with them.
pub record Cache (Surf : Type 0) : Type 0 where
  pub last_filter_ptr : ℕ
  pub cached_surf : Option Surf

abbrev pub fresh_cache : {Surf : Type 0} → Cache Surf
fresh_cache = record { last_filter_ptr = 0; cached_surf = none }

module _ {Surf : Type 0} (lib : SurfLib Surf) where
  -- CreateFilter: the bytes appended to `*dst`.
  unfoldable pub create_filter : List Bytes → Bytes
  create_filter [] = []
  create_filter (k ∷ ks) = lib.serialize (lib.build (k ∷ ks))

  -- The block that both queries begin with: the trie is made anew if the pointer has changed.
  unfoldable pub refresh : Cache Surf → Slice → Cache Surf
  refresh t filter = if filter.address == t.last_filter_ptr then t else record {
    last_filter_ptr = filter.address;
    cached_surf = some (lib.de_serialize filter.bytes);
  }

  -- A query of the cached trie: `none` is a call through a null pointer.
  abbrev pub ask : (Surf → Bool) → Cache Surf → Option Bool × Cache Surf
  ask query t = elim t.cached_surf [ none ↦ (none, t) | some s ↦ (some (query s), t) ]

  abbrev pub query_filter : (Surf → Bool) → Cache Surf → Slice → Bytes → Option Bool × Cache Surf
  query_filter query t filter [] = (some true, t)
  query_filter query t filter (_ ∷ _) = ask query (refresh t filter)

  unfoldable pub key_may_match : Cache Surf → Bytes → Slice → Option Bool × Cache Surf
  unfolding refresh
  key_may_match t key filter = query_filter (λ s. lib.lookup_key s key) t filter filter.bytes

  unfoldable pub range_may_match : Cache Surf → Bytes → Bytes → Slice → Option Bool × Cache Surf
  unfolding refresh
  range_may_match t lo hi filter =
      query_filter (λ s. lib.lookup_range s lo true hi true) t filter filter.bytes

  -- The specification of the two queries: a trie made anew for each, with no cache.
  unfoldable pub key_answer : Bytes → Bytes → Bool
  key_answer key [] = true
  key_answer key (x ∷ xs) = lib.lookup_key (lib.de_serialize (x ∷ xs)) key

  unfoldable pub range_answer : Bytes → Bytes → Bytes → Bool
  range_answer lo hi [] = true
  range_answer lo hi (x ∷ xs) = lib.lookup_range (lib.de_serialize (x ∷ xs)) lo true hi true

  -- The policy with these queries, for the filter block, which passes its filters on as bytes.
  abbrev pub uncached_policy : FilterPolicy
  uncached_policy = record {
    create_filter = create_filter;
    key_may_match = key_answer;
    range_may_match = range_answer;
  }
