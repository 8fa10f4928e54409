-- ===== src/Version/Stats.antt =====
-- project/version_set.cc: Version::UpdateStats and RecordReadSample,
-- VersionSet::MarkFileNumberUsed, ApproximateOffsetOf and MaxNextLevelOverlappingBytes, and
-- LevelFileNumIterator.
pub mod Offsets
use leveldb_surf.Base.{
  ℕ, zero, suc, ◌+◌, ◌-◌, Bool, true, false, not, ◌&&◌, ◌||◌, Option, none, some, List, [], ◌∷◌,
  length, get_elem?, ltb, leb, ◌==◌, if◌then◌else◌, is_gt, ◌>>=◌,
}
use leveldb_surf.Version.Keys.{KeySpace}
use leveldb_surf.Version.Files.{FileMetaData, find_file}
use leveldb_surf.Version.Inputs.{get_overlapping_inputs}
use leveldb_surf.Version.Levels.{num_levels, total_file_size}
use leveldb_surf.Version.Get.{Visit, for_each_overlapping}

-- The fields that UpdateStats changes: `allowed_seeks` of each file by its number, and the file to
-- compact with its level. A count below 0 is taken as 0, which passes the same test.
pub record Seeks (I : Type 0) : Type 0 where
  pub allowed_seeks : ℕ → ℕ
  pub file_to_compact : Option (ℕ × FileMetaData I)

abbrev pub is_none : {A : Type 0} → Option A → Bool
is_none none = true
is_none (some a) = false

module _ {I : Type 0} where
  unfoldable pub update_stats : Option (ℕ × FileMetaData I) → Seeks I → Bool × Seeks I
  update_stats none s = (false, s)
  update_stats (some (level, f)) s =
      let left = s.allowed_seeks f.number - 1 in
      let seeks : ℕ → ℕ = λ n. if n == f.number then left else s.allowed_seeks n in
      if leb left 0 && is_none s.file_to_compact
      then (true, record { allowed_seeks = seeks; file_to_compact = some (level, f) })
      else (false, record s { allowed_seeks = seeks })

  -- Match of RecordReadSample, on the first file and the number of matches.
  unfoldable pub sample_match : Visit I (Option (ℕ × FileMetaData I) × ℕ)
  sample_match level f (first, matches) =
      (ltb (matches + 1) 2, (if matches + 1 == 1 then some (level, f) else first, matches + 1))

-- A key that does not parse is none; `none`: a search fails.
unfoldable pub record_read_sample :
    {U I : Type 0}
    → KeySpace U I
    → (ℕ → List (FileMetaData I))
    → Option (U × I)
    → Seeks I
    → Option (Bool × Seeks I)
unfolding update_stats sample_match
record_read_sample ks files none s = some (false, s)
record_read_sample ks files (some (user_key, internal_key)) s = do
  (first, matches) ← for_each_overlapping ks sample_match files user_key internal_key (none, 0)
  some (if leb 2 matches then update_stats first s else (false, s))

unfoldable pub mark_file_number_used : ℕ → ℕ → ℕ
mark_file_number_used number next = if leb next number then number + 1 else next

module _ {U I : Type 0} (ks : KeySpace U I) where
  -- The loop of ApproximateOffsetOf over a level; `is_sorted` is the test `level > 0`, and
  -- `table_offset` is the offset in the file's table, 0 if it does not open.
  unfoldable pub level_offset : (FileMetaData I → I → ℕ) → Bool → I → List (FileMetaData I) → ℕ
  level_offset table_offset is_sorted ikey [] = 0
  level_offset table_offset is_sorted ikey (f ∷ fs) =
      let rest = level_offset table_offset is_sorted ikey fs in
      if not (is_gt (ks.internal_cmp f.largest ikey))
      then f.file_size + rest
      else if is_gt (ks.internal_cmp f.smallest ikey)
      then (if is_sorted then 0 else rest)
      else table_offset f ikey + rest

  -- From `level` on, with the number of levels left.
  unfoldable pub levels_offset :
      (FileMetaData I → I → ℕ) → (ℕ → List (FileMetaData I)) → I → ℕ → ℕ → ℕ
  unfolding level_offset
  levels_offset table_offset files ikey zero level = 0
  levels_offset table_offset files ikey (suc left) level =
      level_offset table_offset (ltb 0 level) ikey (files level)
      + levels_offset table_offset files ikey left (suc level)

  unfoldable pub approximate_offset_of :
      (FileMetaData I → I → ℕ) → (ℕ → List (FileMetaData I)) → I → ℕ
  unfolding levels_offset
  approximate_offset_of table_offset files ikey = levels_offset table_offset files ikey num_levels 0

  -- The loops of MaxNextLevelOverlappingBytes, with the result so far.
  unfoldable pub max_overlap :
      (ℕ → List (FileMetaData I)) → ℕ → List (FileMetaData I) → ℕ → Option ℕ
  max_overlap files level [] result = some result
  max_overlap files level (f ∷ fs) result = do
    overlaps ←
        get_overlapping_inputs ks (level + 1) (files (level + 1)) (some f.smallest) (some f.largest)
    let sum = total_file_size overlaps
    max_overlap files level fs (if ltb result sum then sum else result)

  unfoldable pub max_overlaps : (ℕ → List (FileMetaData I)) → ℕ → ℕ → ℕ → Option ℕ
  unfolding max_overlap
  max_overlaps files zero level result = some result
  max_overlaps files (suc left) level result = do
    result' ← max_overlap files level (files level) result
    max_overlaps files left (suc level) result'

  unfoldable pub max_next_level_overlapping_bytes : (ℕ → List (FileMetaData I)) → Option ℕ
  unfolding max_overlaps
  max_next_level_overlapping_bytes files = max_overlaps files (num_levels - 2) 1 0

-- LevelFileNumIterator, as its index into the files.
module _ {U I : Type 0} (ks : KeySpace U I) (flist : List (FileMetaData I)) where
  abbrev pub valid : ℕ → Bool
  valid index = ltb index (length flist)

  unfoldable pub seek : I → Option ℕ
  seek target = find_file ks flist target

  abbrev pub seek_to_last : ℕ
  seek_to_last = if length flist == 0 then 0 else length flist - 1

  -- `none`: the assert fails.
  unfoldable pub next : ℕ → Option ℕ
  next index = if valid index then some (index + 1) else none

  unfoldable pub prev : ℕ → Option ℕ
  prev index = if valid index then some (if index == 0 then length flist else index - 1) else none

  -- key() and value(), the latter as the number and the size that it encodes.
  unfoldable pub entry : ℕ → Option (I × ℕ × ℕ)
  entry index = do f ← get_elem? flist index; some (f.largest, f.number, f.file_size)
