-- ===== src/Version/Compaction.antt =====
-- project/version_set.cc: the choice of the inputs of a compaction, and class Compaction.
pub mod Boundary
use leveldb_surf.Base.{
  ℕ, zero, suc, ◌+◌, ◌-◌, Bool, true, false, ◌&&◌, Option, none, some, List, [], ◌∷◌, ◌++◌, length,
  map, ltb, leb, ◌==◌, if◌then◌else◌, is_lt, is_gt, is_eq, ◌>>=◌, drop,
}
use leveldb_surf.Version.Keys.{KeySpace}
use leveldb_surf.Version.Files.{FileMetaData}
use leveldb_surf.Version.Inputs.{get_overlapping_inputs}
use leveldb_surf.Version.Levels.{
  num_levels, total_file_size, max_grand_parent_overlap_bytes, expanded_compaction_byte_size_limit,
  get_range,
}

-- What PickCompaction and CompactRange leave in a Compaction, and the key that the pointer of its
-- level is set to.
pub record Compaction (I : Type 0) : Type 0 where
  pub level : ℕ
  pub inputs0 : List (FileMetaData I)
  pub inputs1 : List (FileMetaData I)
  pub grandparents : List (FileMetaData I)
  pub compact_pointer : I

module _ {U I : Type 0} (ks : KeySpace U I) where
  -- FindLargestKey from the second file on, with the largest key so far.
  unfoldable pub largest_from : I → List (FileMetaData I) → I
  largest_from key [] = key
  largest_from key (f ∷ fs) =
      largest_from (if is_gt (ks.internal_cmp f.largest key) then f.largest else key) fs

  unfoldable pub find_largest_key : List (FileMetaData I) → Option I
  unfolding largest_from
  find_largest_key [] = none
  find_largest_key (f ∷ fs) = some (largest_from f.largest fs)

  unfoldable pub is_boundary : I → FileMetaData I → Bool
  is_boundary largest_key f =
      is_gt (ks.internal_cmp f.smallest largest_key)
      && is_eq (ks.user_cmp (ks.user_key f.smallest) (ks.user_key largest_key))

  unfoldable pub closer : FileMetaData I → Option (FileMetaData I) → FileMetaData I
  closer f none = f
  closer f (some best) = if is_lt (ks.internal_cmp f.smallest best.smallest) then f else best

  -- The loop of FindSmallestBoundaryFile, with the best file so far.
  unfoldable pub boundary_from :
      I → Option (FileMetaData I) → List (FileMetaData I) → Option (FileMetaData I)
  unfolding is_boundary closer
  boundary_from largest_key best [] = best
  boundary_from largest_key best (f ∷ fs) =
      boundary_from largest_key (if is_boundary largest_key f then some (closer f best) else best)
        fs

  unfoldable pub find_smallest_boundary_file : List (FileMetaData I) → I → Option (FileMetaData I)
  unfolding boundary_from
  find_smallest_boundary_file level_files largest_key = boundary_from largest_key none level_files

  -- The loop of AddBoundaryInputs. `none`: the fuel is used up.
  unfoldable pub boundary_loop :
      ℕ → List (FileMetaData I) → List (FileMetaData I) → I → Option (List (FileMetaData I))
  boundary_loop zero level_files files largest_key = none
  boundary_loop (suc fuel) level_files files largest_key =
      elim (find_smallest_boundary_file level_files largest_key) [
        | none ↦ some files
        | some f ↦ boundary_loop fuel level_files (files ++ f ∷ []) f.largest
      ]

  unfoldable pub add_boundary_inputs :
      List (FileMetaData I) → List (FileMetaData I) → Option (List (FileMetaData I))
  unfolding boundary_loop
  add_boundary_inputs level_files files = elim (find_largest_key files) [
    | none ↦ some files
    | some largest_key ↦ boundary_loop (suc (length level_files)) level_files files largest_key
  ]

  -- GetOverlappingInputs of a level and AddBoundaryInputs on what it finds.
  abbrev pub closed_inputs :
      (ℕ → List (FileMetaData I)) → ℕ → I → I → Option (List (FileMetaData I))
  closed_inputs files level smallest largest = do
    inputs ← get_overlapping_inputs ks level (files level) (some smallest) (some largest)
    add_boundary_inputs (files level) inputs

  -- The larger inputs that SetupOtherInputs tries, with their range, if they are taken.
  unfoldable pub expand_inputs :
      ℕ
      → (ℕ → List (FileMetaData I))
      → ℕ
      → List (FileMetaData I)
      → List (FileMetaData I)
      → I
      → I
      → Option (Option (List (FileMetaData I) × List (FileMetaData I) × I))
  expand_inputs target files level inputs0 inputs1 all_start all_limit = do
    expanded0 ← closed_inputs files level all_start all_limit
    if ltb (length inputs0) (length expanded0)
          && ltb (total_file_size inputs1 + total_file_size expanded0)
              (expanded_compaction_byte_size_limit target)
        then (do
          range ← get_range ks expanded0
          expanded1 ← closed_inputs files (suc level) range.0 range.1
          if length expanded1 == length inputs1
              then some (some (expanded0, expanded1, range.1))
              else some none)
        else some none

  -- The files of `level + 2` that the whole range overlaps, and the finished Compaction.
  unfoldable pub with_grandparents :
      (ℕ → List (FileMetaData I))
      → ℕ
      → List (FileMetaData I)
      → List (FileMetaData I)
      → I
      → Option (Compaction I)
  with_grandparents files level inputs0 inputs1 largest = do
    all ← get_range ks (inputs0 ++ inputs1)
    grandparents ←
        if ltb (level + 2) num_levels
        then get_overlapping_inputs ks (level + 2) (files (level + 2)) (some all.0) (some all.1)
        else some []
    some (record {
      level = level;
      inputs0 = inputs0;
      inputs1 = inputs1;
      grandparents = grandparents;
      compact_pointer = largest;
    })

  -- SetupOtherInputs; `target` is TargetFileSize. `none`: an assert fails, or the fuel is used up.
  unfoldable pub setup_other_inputs :
      ℕ → (ℕ → List (FileMetaData I)) → ℕ → List (FileMetaData I) → Option (Compaction I)
  unfolding expand_inputs with_grandparents
  setup_other_inputs target files level picked = do
    inputs0 ← add_boundary_inputs (files level) picked
    range ← get_range ks inputs0
    inputs1 ← closed_inputs files (suc level) range.0 range.1
    all ← get_range ks (inputs0 ++ inputs1)
    expanded ←
        if ltb 0 (length inputs1)
        then expand_inputs target files level inputs0 inputs1 all.0 all.1
        else some none
    elim expanded [
      | none ↦ with_grandparents files level inputs0 inputs1 range.1
      | some (expanded0, expanded1, new_limit) ↦
          with_grandparents files level expanded0 expanded1 new_limit
    ]

  -- The first file after the compaction pointer of the level; a null pointer is the empty string.
  unfoldable pub first_after : Option I → List (FileMetaData I) → Option (FileMetaData I)
  first_after pointer [] = none
  first_after none (f ∷ fs) = some f
  first_after (some key) (f ∷ fs) =
      if is_gt (ks.internal_cmp f.largest key) then some f else first_after (some key) fs

  -- With the wrap-around to the first file. `none`: the level is empty.
  unfoldable pub pick_file : Option I → List (FileMetaData I) → Option (FileMetaData I)
  unfolding first_after
  pick_file pointer files = elim (first_after pointer files) [
    | some f ↦ some f
    | none ↦ elim files [ [] ↦ none | f ∷ fs ↦ some f ]
  ]

  -- PickCompaction past the choice of the first file.
  unfoldable pub from_file :
      ℕ → (ℕ → List (FileMetaData I)) → ℕ → FileMetaData I → Option (Compaction I)
  unfolding setup_other_inputs
  from_file target files zero f = do
    range ← get_range ks (f ∷ [])
    inputs ← get_overlapping_inputs ks 0 (files 0) (some range.0) (some range.1)
    setup_other_inputs target files 0 inputs
  from_file target files (suc level) f = setup_other_inputs target files (suc level) (f ∷ [])

  -- PickCompaction: `size_level` is the level whose score is at least 1, `to_compact` the file and
  -- its level that a seek chose. The outer none is a failed assert, the inner one the null pointer.
  unfoldable pub pick_compaction :
      ℕ
      → (ℕ → List (FileMetaData I))
      → (ℕ → Option I)
      → Option ℕ
      → Option (FileMetaData I × ℕ)
      → Option (Option (Compaction I))
  unfolding pick_file from_file
  pick_compaction target files pointers (some level) to_compact = do
    f ← pick_file (pointers level) (files level)
    c ← from_file target files level f
    some (some c)
  pick_compaction target files pointers none (some (f, level)) = do
    c ← from_file target files level f
    some (some c)
  pick_compaction target files pointers none none = some none

  -- The loop of CompactRange that cuts the inputs, with the bytes so far.
  unfoldable pub cut_inputs : ℕ → ℕ → List (FileMetaData I) → List (FileMetaData I)
  cut_inputs limit total [] = []
  cut_inputs limit total (f ∷ fs) =
      let rest = cut_inputs limit (total + f.file_size) fs in
      if leb limit (total + f.file_size) then f ∷ [] else f ∷ rest

  -- CompactRange.
  unfoldable pub compact_range :
      ℕ → (ℕ → List (FileMetaData I)) → ℕ → Option I → Option I → Option (Option (Compaction I))
  unfolding cut_inputs setup_other_inputs
  compact_range target files level begin end = do
    inputs ← get_overlapping_inputs ks level (files level) begin end
    if length inputs == 0 then some none else (do
      c ←
          setup_other_inputs target files level
            (if ltb 0 level then cut_inputs target 0 inputs else inputs)
      some (some c))

-- Compaction::IsTrivialMove.
unfoldable pub is_trivial_move : {I : Type 0} → ℕ → Compaction I → Bool
is_trivial_move target c =
    (length c.inputs0 == 1 && length c.inputs1 == 0)
    && leb (total_file_size c.grandparents) (max_grand_parent_overlap_bytes target)

-- Compaction::AddInputDeletions: the levels and numbers of the files that the edit removes.
unfoldable pub add_input_deletions : {I : Type 0} → Compaction I → List (ℕ × ℕ)
add_input_deletions {I} c =
    map (λ (f : FileMetaData I). (c.level, f.number)) c.inputs0
    ++ map (λ (f : FileMetaData I). (suc c.level, f.number)) c.inputs1
