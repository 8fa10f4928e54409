-- ===== src/Filter/Tests.antt =====
-- The properties of the filter block and of SuRFPolicy on a table of two blocks.
use leveldb_surf.Base.{
  ℕ, ◌<◌, ◌^◌, ◌≡◌, ◌≢◌, refl, true, false, List, [], ◌∷◌, some, length, map, inl, inr, arith, All,
}
use leveldb_surf.Samples.Bytes.{
  little_endian, little_endian-IsCoding, byte_trie, byte_trie-IsSurf, byte_policy-IsSound,
}
use leveldb_surf.Filter.Policy.{Bytes, FilterPolicy}
use leveldb_surf.Filter.Builder.{Call, starts, adds}
use leveldb_surf.Filter.Reader
use leveldb_surf.Filter.Reader.{new_reader}
use leveldb_surf.Filter.Answers.Slices.{keys_of}
use leveldb_surf.Filter.Answers.Layout.{filter_of, block_of}
use leveldb_surf.Filter.Answers.Point.{point_answer, key_may_match-finish, added_key_may_match}
use leveldb_surf.Filter.Answers.Range.{
  range_answer, range_may_match-finish, added_range_may_match, short_block_answers,
}
use leveldb_surf.Filter.Surf
use leveldb_surf.Filter.Surf.{uncached_policy, create_filter, Slice, fresh_cache, key_answer}
use leveldb_surf.Filter.Surf.Sound.{cached_queries-true, surf_range_never_prunes}
use leveldb_surf.Filter.Surf.Queries.{ask_keys, ask_ranges, IsLive, cached_queries-right}
use leveldb_surf.Filter.Surf.Stale.{stale_filter_misses_key}

abbrev policy : FilterPolicy
policy = uncached_policy byte_trie

-- Two data blocks with the keys "ab", "b" and "c".
abbrev calls : List Call
calls = starts 0 ∷ adds (97 ∷ 98 ∷ []) ∷ adds (98 ∷ []) ∷ starts 4096 ∷ adds (99 ∷ []) ∷ []

three_bytes : filter_of policy (keys_of calls) ≡ 97 ∷ 98 ∷ 99 ∷ []
unfolding create_filter
three_bytes = refl

is_short : length (filter_of policy (keys_of calls)) < 2 ^ 32
is_short = rw three_bytes (omega arith)

is_full : filter_of policy (keys_of calls) ≢ []
is_full = rw three_bytes (λ e. cc)

key_may_match-finish_example :
    Reader.key_may_match little_endian policy
      (new_reader little_endian (block_of little_endian policy calls))
      4096
      (99 ∷ [])
    ≡ point_answer policy (filter_of policy (keys_of calls)) 4096 (99 ∷ [])
key_may_match-finish_example =
    key_may_match-finish little_endian-IsCoding policy calls 4096 (99 ∷ []) is_short

added_key_may_match_example :
    Reader.key_may_match little_endian policy
      (new_reader little_endian (block_of little_endian policy calls))
      4096
      (99 ∷ [])
    ≡ true
added_key_may_match_example =
    added_key_may_match little_endian-IsCoding byte_policy-IsSound calls 4096 (99 ∷ []) is_short
      (omega arith) (inr (inr (inl refl)))

range_may_match-finish_example :
    Reader.range_may_match little_endian policy
      (new_reader little_endian (block_of little_endian policy calls))
      (120 ∷ [])
      (121 ∷ [])
    ≡ range_answer policy (filter_of policy (keys_of calls)) (120 ∷ []) (121 ∷ [])
range_may_match-finish_example =
    range_may_match-finish little_endian-IsCoding policy calls (120 ∷ []) (121 ∷ []) is_short

added_range_may_match_example :
    Reader.range_may_match little_endian policy
      (new_reader little_endian (block_of little_endian policy calls))
      (98 ∷ [])
      (99 ∷ [])
    ≡ true
added_range_may_match_example =
    added_range_may_match little_endian-IsCoding byte_policy-IsSound calls (98 ∷ []) (98 ∷ [])
      (99 ∷ []) is_short is_full (inr (inl refl)) (λ h. cc) (λ h. cc)

surf_range_never_prunes_example :
    Reader.range_may_match little_endian policy
      (new_reader little_endian (block_of little_endian policy calls))
      (120 ∷ [])
      (121 ∷ [])
    ≡ true
surf_range_never_prunes_example =
    surf_range_never_prunes little_endian-IsCoding byte_trie calls (120 ∷ []) (121 ∷ []) is_short
      is_full

short_block_answers_example :
    (Reader.key_may_match little_endian policy (new_reader little_endian (0 ∷ 0 ∷ [])) 0 (99 ∷ [])
      ≡ true)
    × (Reader.range_may_match little_endian policy
          (new_reader little_endian (0 ∷ 0 ∷ []))
          (98 ∷ [])
          (99 ∷ [])
        ≡ false)
short_block_answers_example =
    short_block_answers little_endian policy (0 ∷ 0 ∷ []) 0 (99 ∷ []) (98 ∷ []) (99 ∷ [])
      (omega arith)

-- Two filters of one byte each, at one address.
abbrev old_filter : Slice
old_filter = record { address = 16; bytes = 97 ∷ [] }

abbrev new_filter : Slice
new_filter = record { address = 16; bytes = 98 ∷ [] }

abbrev memory : ℕ → Bytes
memory address = 97 ∷ []

old_filter-IsLive : IsLive byte_trie memory old_filter
old_filter-IsLive = record { there = λ h. refl; not_null = λ h e. absurd (omega arith) }

-- And one elsewhere.
abbrev other_filter : Slice
other_filter = record { address = 32; bytes = 97 ∷ [] }

other_filter-IsLive : IsLive byte_trie memory other_filter
other_filter-IsLive = record { there = λ h. refl; not_null = λ h e. absurd (omega arith) }

cached_queries-right_example :
    (ask_keys byte_trie fresh_cache ((98 ∷ [], old_filter) ∷ (97 ∷ [], old_filter) ∷ [])
      ≡ map
          (λ (c : Bytes × Slice). some (key_answer byte_trie c.0 c.1.bytes))
          ((98 ∷ [], old_filter) ∷ (97 ∷ [], old_filter) ∷ []))
    × (ask_ranges byte_trie fresh_cache [] ≡ [])
cached_queries-right_example =
    cached_queries-right byte_trie memory ((98 ∷ [], old_filter) ∷ (97 ∷ [], old_filter) ∷ []) []
      (old_filter-IsLive, (old_filter-IsLive, tt)) tt

cached_queries-true_example :
    All
      (λ r. r ≡ some true)
      (ask_keys byte_trie fresh_cache
        ((97 ∷ [], old_filter) ∷ (97 ∷ 98 ∷ [], other_filter) ∷ (97 ∷ [], old_filter) ∷ []))
    × All
        (λ r. r ≡ some true)
        (ask_ranges byte_trie fresh_cache (((97 ∷ [], 98 ∷ []), old_filter) ∷ []))
unfolding create_filter
cached_queries-true_example =
    cached_queries-true byte_trie-IsSurf memory
      ((97 ∷ [], old_filter) ∷ (97 ∷ 98 ∷ [], other_filter) ∷ (97 ∷ [], old_filter) ∷ [])
      (((97 ∷ [], 98 ∷ []), old_filter) ∷ [])
      (old_filter-IsLive, (other_filter-IsLive, (old_filter-IsLive, tt))) (old_filter-IsLive, tt)
      (
        ((97 ∷ []) ∷ [], refl, (tt, tt), inl refl),
        (
          ((97 ∷ 98 ∷ []) ∷ [], refl, (tt, tt), inl refl),
          (((97 ∷ []) ∷ [], refl, (tt, tt), inl refl), tt),
        ),
      )
      (((97 ∷ []) ∷ [], 97 ∷ [], refl, (tt, tt), inl refl, (λ h. cc), (λ h. cc)), tt)

stale_filter_misses_key_example :
    ((Surf.key_may_match byte_trie
        (Surf.key_may_match byte_trie fresh_cache (97 ∷ []) old_filter).1
        (98 ∷ [])
        new_filter).0
      ≡ some false)
    × (key_answer byte_trie (98 ∷ []) (98 ∷ []) ≡ true)
unfolding create_filter
stale_filter_misses_key_example =
    stale_filter_misses_key byte_trie-IsSurf fresh_cache old_filter new_filter ((97 ∷ []) ∷ [])
      ((98 ∷ []) ∷ []) (97 ∷ []) (98 ∷ []) refl (λ e. cc) refl (λ e. cc) (λ e. absurd (omega arith))
      refl refl (tt, tt) (inl refl)
