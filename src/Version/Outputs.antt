-- ===== src/Version/Outputs.antt =====
-- project/version_set.cc: Compaction::ShouldStopBefore and IsBaseLevelForKey, which the outputs of
-- a compaction depend on.
pub mod BaseLevel
use leveldb_surf.Base.{
  ℕ, zero, suc, ◌+◌, ◌-◌, Bool, true, false, List, [], ◌∷◌, ltb, ◌==◌, if◌then◌else◌, is_lt, is_gt,
  drop,
}
use leveldb_surf.Version.Keys.{KeySpace}
use leveldb_surf.Version.Files.{FileMetaData}
use leveldb_surf.Version.Levels.{num_levels, max_grand_parent_overlap_bytes}

-- The fields of Compaction that ShouldStopBefore changes.
pub record Progress : Type 0 where
  pub grandparent_index : ℕ
  pub seen_key : Bool
  pub overlapped_bytes : ℕ

module _ {U I : Type 0} (ks : KeySpace U I) where
  -- The loop of ShouldStopBefore over the grandparents from the index on.
  unfoldable pub pass_grandparents : I → List (FileMetaData I) → Progress → Progress
  pass_grandparents key [] p = p
  pass_grandparents key (f ∷ fs) p =
      let rest = pass_grandparents key fs (record p {
        grandparent_index = p.grandparent_index + 1;
        overlapped_bytes =
            if p.seen_key then p.overlapped_bytes + f.file_size else p.overlapped_bytes;
      }) in
      if is_gt (ks.internal_cmp key f.largest) then rest else p

  unfoldable pub should_stop_before : ℕ → List (FileMetaData I) → I → Progress → Bool × Progress
  unfolding pass_grandparents
  should_stop_before target grandparents key p =
      let q = pass_grandparents key (drop p.grandparent_index grandparents) p in
      if ltb (max_grand_parent_overlap_bytes target) q.overlapped_bytes
      then (true, record q { seen_key = true; overlapped_bytes = 0 })
      else (false, record q { seen_key = true })

  -- The loop of IsBaseLevelForKey over the files of one level from its pointer on: whether the key
  -- falls in a file, and the pointer.
  unfoldable pub scan_level : U → List (FileMetaData I) → ℕ → Bool × ℕ
  scan_level key [] ptr = (false, ptr)
  scan_level key (f ∷ fs) ptr =
      let rest = scan_level key fs (ptr + 1) in
      if is_gt (ks.user_cmp key (ks.user_key f.largest))
      then rest
      else (if is_lt (ks.user_cmp key (ks.user_key f.smallest)) then false else true, ptr)

  abbrev pub set_pointer : (ℕ → ℕ) → ℕ → ℕ → ℕ → ℕ
  set_pointer ptrs level ptr l = if l == level then ptr else ptrs l

  -- The loop over the levels from `lvl` on, with the number of levels left.
  unfoldable pub scan_levels : (ℕ → List (FileMetaData I)) → U → ℕ → ℕ → (ℕ → ℕ) → Bool × (ℕ → ℕ)
  unfolding scan_level
  scan_levels files key zero lvl ptrs = (true, ptrs)
  scan_levels files key (suc left) lvl ptrs =
      let found = scan_level key (drop (ptrs lvl) (files lvl)) (ptrs lvl) in
      let ptrs' = set_pointer ptrs lvl found.1 in
      let rest = scan_levels files key left (lvl + 1) ptrs' in
      if found.0 then (false, ptrs') else rest

  unfoldable pub is_base_level_for_key :
      (ℕ → List (FileMetaData I)) → ℕ → U → (ℕ → ℕ) → Bool × (ℕ → ℕ)
  unfolding scan_levels
  is_base_level_for_key files level key ptrs =
      scan_levels files key (num_levels - (level + 2)) (level + 2) ptrs
