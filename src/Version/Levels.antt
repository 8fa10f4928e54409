-- ===== src/Version/Levels.antt =====
-- project/version_set.cc: sizes and limits, Version::OverlapInLevel, PickLevelForMemTableOutput
-- and VersionSet::GetRange.
use leveldb_surf.Base.{
  ℕ, zero, suc, ◌+◌, ◌*◌, Bool, Option, none, some, List, [], ◌∷◌, ltb, if◌then◌else◌, is_lt, is_gt,
  ◌>>=◌,
}
use leveldb_surf.Version.Keys.{KeySpace}
use leveldb_surf.Version.Files.{FileMetaData, some_file_overlaps_range}
use leveldb_surf.Version.Inputs.{get_overlapping_inputs}

-- config::kNumLevels (static_assert in LevelSummary) and config::kMaxMemCompactLevel of
-- db/dbformat.h, the latter as a parameter of what reads it.
abbrev pub num_levels : ℕ
num_levels = 7

-- The sums are taken without wrap-around: the sizes of the files of a level stay below 2^63 in all.
unfoldable pub total_file_size : {I : Type 0} → List (FileMetaData I) → ℕ
total_file_size [] = 0
total_file_size (f ∷ fs) = f.file_size + total_file_size fs

-- `target` is TargetFileSize, options->max_file_size.
unfoldable pub max_grand_parent_overlap_bytes : ℕ → ℕ
max_grand_parent_overlap_bytes target = 10 * target

unfoldable pub expanded_compaction_byte_size_limit : ℕ → ℕ
expanded_compaction_byte_size_limit target = 25 * target

-- MaxBytesForLevel: a double in the source, always a whole number.
unfoldable pub max_bytes_for_level : ℕ → ℕ
max_bytes_for_level zero = 10 * 1048576
max_bytes_for_level (suc zero) = 10 * 1048576
max_bytes_for_level (suc (suc level)) = max_bytes_for_level (suc level) * 10

module _ {U I : Type 0} (ks : KeySpace U I) where
  unfoldable pub overlap_in_level :
      (ℕ → List (FileMetaData I)) → ℕ → Option U → Option U → Option Bool
  overlap_in_level files level lo hi = some_file_overlaps_range ks (ltb 0 level) (files level) lo hi

  -- The loop of PickLevelForMemTableOutput with `rounds` levels left below the maximum; the
  -- internal keys `start` and `limit` carry the two user keys.
  unfoldable pub pick_loop : ℕ → ℕ → (ℕ → List (FileMetaData I)) → U → U → I → I → ℕ → Option ℕ
  unfolding overlap_in_level total_file_size max_grand_parent_overlap_bytes
  pick_loop zero target files smallest largest start limit level = some level
  pick_loop (suc rounds) target files smallest largest start limit level = do
    next_overlaps ← overlap_in_level files (suc level) (some smallest) (some largest)
    let rest = pick_loop rounds target files smallest largest start limit (suc level)
    if next_overlaps
        then some level
        else if ltb (level + 2) num_levels
        then (do
          overlaps ←
              get_overlapping_inputs ks (level + 2) (files (level + 2)) (some start) (some limit)
          if ltb (max_grand_parent_overlap_bytes target) (total_file_size overlaps)
              then some level
              else rest)
        else rest

  unfoldable pub pick_level_for_mem_table_output :
      ℕ → ℕ → (ℕ → List (FileMetaData I)) → U → U → I → I → Option ℕ
  unfolding pick_loop
  pick_level_for_mem_table_output max_mem_compact_level target files smallest largest start limit =
      do
        overlaps ← overlap_in_level files 0 (some smallest) (some largest)
        if overlaps
            then some 0
            else pick_loop max_mem_compact_level target files smallest largest start limit 0

  -- GetRange, from the second file on, with the range so far.
  unfoldable pub extend_range : List (FileMetaData I) → I → I → I × I
  extend_range [] smallest largest = (smallest, largest)
  extend_range (f ∷ fs) smallest largest =
      extend_range fs (if is_lt (ks.internal_cmp f.smallest smallest) then f.smallest else smallest)
        (if is_gt (ks.internal_cmp f.largest largest) then f.largest else largest)

  -- `none`: the assert that the inputs are not empty fails.
  unfoldable pub get_range : List (FileMetaData I) → Option (I × I)
  unfolding extend_range
  get_range [] = none
  get_range (f ∷ fs) = some (extend_range fs f.smallest f.largest)
