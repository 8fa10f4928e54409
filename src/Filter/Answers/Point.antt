-- ===== src/Filter/Answers/Point.antt =====
-- FilterBlockReader::KeyMayMatch over the block of Finish.
use leveldb_surf.Base.{
  ℕ, ◌/◌, ◌^◌, ◌<◌, ◌≤◌, ◌≡◌, refl, Bool, true, List, [], ◌∷◌, arith, length, ◌==◌, if◌then◌else◌,
  In, Compare,
}
use leveldb_surf.Filter.Policy.{Bytes, Coding, IsCoding, FilterPolicy, IsSound}
use leveldb_surf.Filter.Builder.{Call, finish_layout}
use leveldb_surf.Filter.Reader.{FilterBlockReader, new_reader, key_may_match}
use leveldb_surf.Filter.Answers.Slices.{keys_of}
use leveldb_surf.Filter.Answers.Layout.{
  framed_reader, block_of, filter_of, block_of-layout, layout-framed, layout-empty,
  new_reader-framed, entry_start-first, entry_limit-first, entry_start-second, entry_limit-second,
  filter-first, filter-second,
}

-- The answer by the filter alone: it covers the first 4 GiB of the table, an empty filter the
-- next, and there is none beyond.
abbrev pub point_answer : FilterPolicy → Bytes → ℕ → Bytes → Bool
point_answer policy [] off key = true
point_answer policy (x ∷ xs) off key =
    if off / 2 ^ 32 == 0
    then policy.key_may_match key (x ∷ xs)
    else if off / 2 ^ 32 == 1
    then policy.key_may_match key []
    else true

pub key_may_match-none :
    (c : Coding) (policy : FilterPolicy) (r : FilterBlockReader) (off : ℕ) (key : Bytes)
    → r.num ≡ 0
    → key_may_match c policy r off key ≡ true
unfolding key_may_match
key_may_match-none c policy r off key e = rw e (ground arith)

module _ {c : Coding} (ic : IsCoding c) (policy : FilterPolicy) (f : Bytes) (n : ℕ)
    (e : length f ≡ n) (small : n < 2 ^ 32) where
  key_may_match-first :
      (off : ℕ) (key : Bytes)
      → off / 2 ^ 32 ≡ 0
      → key_may_match c policy (framed_reader c f n) off key ≡ policy.key_may_match key f
  unfolding key_may_match
  key_may_match-first off key z =
      rw
        (
          z,
          entry_start-first ic f n e small,
          entry_limit-first ic f n e small,
          filter-first {c = c} ic f n e small,
        )
        (ground arith)

  key_may_match-second :
      (off : ℕ) (key : Bytes)
      → off / 2 ^ 32 ≡ 1
      → key_may_match c policy (framed_reader c f n) off key ≡ policy.key_may_match key []
  unfolding key_may_match
  key_may_match-second off key z =
      rw
        (
          z,
          entry_start-second ic f n e small,
          entry_limit-second ic f n e small,
          filter-second {c = c} ic f n e small,
        )
        (ground arith)

  key_may_match-beyond :
      (off : ℕ) (key : Bytes)
      → 2 ≤ off / 2 ^ 32
      → key_may_match c policy (framed_reader c f n) off key ≡ true
  unfolding key_may_match
  key_may_match-beyond off key z = ground arith

  key_may_match-framed :
      (off : ℕ) (key : Bytes)
      → key_may_match c policy (framed_reader c f n) off key ≡ (
          if off / 2 ^ 32 == 0
          then policy.key_may_match key f
          else if off / 2 ^ 32 == 1
          then policy.key_may_match key []
          else true)
  key_may_match-framed off key = ground (
    arith,
    key_may_match-first off key,
    key_may_match-second off key,
    key_may_match-beyond off key,
  )

answer_of_layout :
    {c : Coding} (ic : IsCoding c) (policy : FilterPolicy) (f : Bytes) (off : ℕ) (key : Bytes)
    → length f < 2 ^ 32
    → key_may_match c policy (new_reader c (finish_layout c f)) off key
      ≡ point_answer policy f off key
answer_of_layout {c} ic policy [] off key small =
    key_may_match-none c policy _ off key (layout-empty ic)
answer_of_layout {c} ic policy (x ∷ xs) off key small =
    rw (layout-framed c x xs small, new_reader-framed ic (x ∷ xs) (length (x ∷ xs)) refl small)
      (key_may_match-framed ic policy (x ∷ xs) (length (x ∷ xs)) refl small off key)

-- For every sequence of StartBlock and AddKey calls before Finish, whose filter is shorter than
-- 4 GiB, KeyMayMatch over the finished block answers by the one filter of all the added keys
-- whenever the block offset is below 2^32, by the empty filter for the next 2^32 offsets (the
-- reader counts the sentinel as a second entry), and true beyond, or if no filter was written.
pub key_may_match-finish :
    {c : Coding} (ic : IsCoding c) (policy : FilterPolicy) (cs : List Call) (off : ℕ) (key : Bytes)
    → length (filter_of policy (keys_of cs)) < 2 ^ 32
    → key_may_match c policy (new_reader c (block_of c policy cs)) off key
      ≡ point_answer policy (filter_of policy (keys_of cs)) off key
key_may_match-finish {c} ic policy cs off key small =
    rw (block_of-layout c policy cs)
      (answer_of_layout ic policy (filter_of policy (keys_of cs)) off key small)

point_answer_sound :
    (policy : FilterPolicy) (f : Bytes) (off : ℕ) (key : Bytes)
    → off < 2 ^ 32
    → policy.key_may_match key f ≡ true
    → point_answer policy f off key ≡ true
point_answer_sound policy [] off key h m = refl
point_answer_sound policy (x ∷ xs) off key h m = ground arith

filter_of-key :
    {cmp : Compare Bytes} {policy : FilterPolicy}
    → IsSound cmp policy
    → (ks : List Bytes) (key : Bytes) → In key ks
    → policy.key_may_match key (filter_of policy ks) ≡ true
filter_of-key s [] key m = elim m [ ]
filter_of-key s (k ∷ ks) key m = s.key_sound (k ∷ ks) key m

-- No added key is ever reported absent, in a table of at most 4 GiB whose filter is that short
-- too, if the policy itself reports none of its keys absent.
pub added_key_may_match :
    {c : Coding} {cmp : Compare Bytes} {policy : FilterPolicy} (ic : IsCoding c)
    → IsSound cmp policy
    → (cs : List Call) (off : ℕ) (key : Bytes) → length (filter_of policy (keys_of cs)) < 2 ^ 32
    → off < 2 ^ 32
    → In key (keys_of cs)
    → key_may_match c policy (new_reader c (block_of c policy cs)) off key ≡ true
added_key_may_match {c} {policy = policy} ic s cs off key small h m =
    rw (key_may_match-finish ic policy cs off key small) (
      point_answer_sound policy (filter_of policy (keys_of cs)) off key h
        (filter_of-key s (keys_of cs) key m))
