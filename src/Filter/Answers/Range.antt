-- ===== src/Filter/Answers/Range.antt =====
-- FilterBlockReader::RangeMayMatch over the block of Finish, and over a block that is no filter.
use leveldb_surf.Base.{
  ℕ, ◌^◌, ◌<◌, ◌≡◌, ◌≢◌, refl, Bool, true, false, ◌||◌, List, [], ◌∷◌, arith, length, In, Compare,
  Le,
}
use leveldb_surf.Filter.Policy.{Bytes, Coding, IsCoding, FilterPolicy, IsSound}
use leveldb_surf.Filter.Builder.{Call, finish_layout}
use leveldb_surf.Filter.Reader.{FilterBlockReader, new_reader, key_may_match, range_may_match}
use leveldb_surf.Filter.Answers.Slices.{keys_of}
use leveldb_surf.Filter.Answers.Point.{key_may_match-none}
use leveldb_surf.Filter.Answers.Layout.{
  framed_reader, block_of, filter_of, block_of-layout, layout-framed, layout-empty,
  new_reader-framed, entry_start-first, entry_limit-first, entry_start-second, entry_limit-second,
  filter-first, filter-second,
}

-- The answer by the filter alone: its own answer, or that of the policy for an empty filter.
abbrev pub range_answer : FilterPolicy → Bytes → Bytes → Bytes → Bool
range_answer policy [] lo hi = false
range_answer policy (x ∷ xs) lo hi =
    policy.range_may_match lo hi (x ∷ xs) || policy.range_may_match lo hi []

range_may_match-none :
    (c : Coding) (policy : FilterPolicy) (r : FilterBlockReader) (lo hi : Bytes)
    → r.num ≡ 0
    → range_may_match c policy r lo hi ≡ false
unfolding range_may_match
range_may_match-none c policy r lo hi e = rw e

module _ {c : Coding} (ic : IsCoding c) (policy : FilterPolicy) (f : Bytes) (n : ℕ)
    (e : length f ≡ n) (small : n < 2 ^ 32) where
  range_may_match-framed :
      (lo hi : Bytes)
      → range_may_match c policy (framed_reader c f n) lo hi
        ≡ (policy.range_may_match lo hi f || policy.range_may_match lo hi [])
  unfolding range_may_match
  range_may_match-framed lo hi =
      rw
        (
          entry_start-first ic f n e small,
          entry_limit-first ic f n e small,
          filter-first {c = c} ic f n e small,
          entry_start-second ic f n e small,
          entry_limit-second ic f n e small,
          filter-second {c = c} ic f n e small,
        )
        (ground arith)

range_of_layout :
    {c : Coding} (ic : IsCoding c) (policy : FilterPolicy) (f lo hi : Bytes)
    → length f < 2 ^ 32
    → range_may_match c policy (new_reader c (finish_layout c f)) lo hi
      ≡ range_answer policy f lo hi
range_of_layout {c} ic policy [] lo hi small =
    range_may_match-none c policy _ lo hi (layout-empty ic)
range_of_layout {c} ic policy (x ∷ xs) lo hi small =
    rw (layout-framed c x xs small, new_reader-framed ic (x ∷ xs) (length (x ∷ xs)) refl small)
      (range_may_match-framed ic policy (x ∷ xs) (length (x ∷ xs)) refl small lo hi)

-- For every sequence of StartBlock and AddKey calls before Finish, whose filter is shorter than
-- 4 GiB, RangeMayMatch over the finished block answers false if no filter was written, and else
-- as the policy does for the one filter of all the added keys or for the empty filter that the
-- reader takes the sentinel entry to be.
pub range_may_match-finish :
    {c : Coding} (ic : IsCoding c) (policy : FilterPolicy) (cs : List Call) (lo hi : Bytes)
    → length (filter_of policy (keys_of cs)) < 2 ^ 32
    → range_may_match c policy (new_reader c (block_of c policy cs)) lo hi
      ≡ range_answer policy (filter_of policy (keys_of cs)) lo hi
range_may_match-finish {c} ic policy cs lo hi small =
    rw (block_of-layout c policy cs)
      (range_of_layout ic policy (filter_of policy (keys_of cs)) lo hi small)

range_answer_sound :
    (policy : FilterPolicy) (f lo hi : Bytes)
    → f ≢ []
    → policy.range_may_match lo hi f ≡ true
    → range_answer policy f lo hi ≡ true
range_answer_sound policy [] lo hi h m = absurd (h refl)
range_answer_sound policy (x ∷ xs) lo hi h m = rw m

range_answer-empty :
    (policy : FilterPolicy) (f lo hi : Bytes)
    → f ≢ []
    → policy.range_may_match lo hi [] ≡ true
    → range_answer policy f lo hi ≡ true
range_answer-empty policy [] lo hi h m = absurd (h refl)
range_answer-empty policy (x ∷ xs) lo hi h m = ground arith

filter_of-range :
    {cmp : Compare Bytes} {policy : FilterPolicy}
    → IsSound cmp policy
    → (ks : List Bytes) (k lo hi : Bytes) → In k ks
    → Le cmp lo k
    → Le cmp k hi
    → policy.range_may_match lo hi (filter_of policy ks) ≡ true
filter_of-range s [] k lo hi m l h = elim m [ ]
filter_of-range s (j ∷ ks) k lo hi m l h = s.range_sound (j ∷ ks) k lo hi m l h

-- A table that holds an added key between the bounds, both included, is never skipped, if its
-- filter is not empty and shorter than 4 GiB and the policy itself misses none of its keys.
pub added_range_may_match :
    {c : Coding} {cmp : Compare Bytes} {policy : FilterPolicy} (ic : IsCoding c)
    → IsSound cmp policy
    → (cs : List Call) (k lo hi : Bytes) → length (filter_of policy (keys_of cs)) < 2 ^ 32
    → filter_of policy (keys_of cs) ≢ []
    → In k (keys_of cs)
    → Le cmp lo k
    → Le cmp k hi
    → range_may_match c policy (new_reader c (block_of c policy cs)) lo hi ≡ true
added_range_may_match {policy = policy} ic s cs k lo hi small some_bytes m l h =
    rw (range_may_match-finish ic policy cs lo hi small) (
      range_answer_sound policy (filter_of policy (keys_of cs)) lo hi some_bytes
        (filter_of-range s (keys_of cs) k lo hi m l h))

-- The range filter prunes nothing: if the policy answers true for an empty filter, RangeMayMatch
-- over any finished block with a filter shorter than 4 GiB is true for all bounds.
pub range_never_prunes :
    {c : Coding} (ic : IsCoding c) (policy : FilterPolicy)
    → ((lo hi : Bytes) → policy.range_may_match lo hi [] ≡ true)
    → (cs : List Call) (lo hi : Bytes) → length (filter_of policy (keys_of cs)) < 2 ^ 32
    → filter_of policy (keys_of cs) ≢ []
    → range_may_match c policy (new_reader c (block_of c policy cs)) lo hi ≡ true
range_never_prunes ic policy always cs lo hi small some_bytes =
    rw (range_may_match-finish ic policy cs lo hi small)
      (range_answer-empty policy (filter_of policy (keys_of cs)) lo hi some_bytes (always lo hi))

new_reader-short :
    (c : Coding) (contents : Bytes) → length contents < 5 → (new_reader c contents).num ≡ 0
unfolding new_reader
new_reader-short c contents h = ground arith

-- Over a block that is too short for a trailer the two queries disagree: KeyMayMatch takes the
-- error for a potential match, and RangeMayMatch says that no key is in any range.
pub short_block_answers :
    (c : Coding) (policy : FilterPolicy) (contents : Bytes) (off : ℕ) (key lo hi : Bytes)
    → length contents < 5
    → (key_may_match c policy (new_reader c contents) off key ≡ true)
      × (range_may_match c policy (new_reader c contents) lo hi ≡ false)
short_block_answers c policy contents off key lo hi h = (
  key_may_match-none c policy _ off key (new_reader-short c contents h),
  range_may_match-none c policy _ lo hi (new_reader-short c contents h),
)
