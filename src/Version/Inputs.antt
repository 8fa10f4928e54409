-- ===== src/Version/Inputs.antt =====
-- project/version_set.cc: Version::GetOverlappingInputs.
pub mod Step
pub mod Total
pub mod Closed
use leveldb_surf.Base.{
  ℕ, zero, suc, ◌+◌, ◌*◌, Bool, true, false, ◌&&◌, ◌||◌, Option, none, some, List, [], ◌∷◌, ◌++◌,
  length, ◌==◌, if◌then◌else◌, is_lt, is_gt,
}
use mathlib.Core.Option
use leveldb_surf.Version.Keys.{KeySpace}
use leveldb_surf.Version.Files.{FileMetaData}

-- One walk of the loop over the files: it ends, or it sets `i` back to 0 with a wider range.
pub data Walk (U I : Type 0) : Type 0 where
  finished : List (FileMetaData I) → Walk U I
  restarts : Option U → Option U → Walk U I

module _ {U I : Type 0} (ks : KeySpace U I) where
  -- The file is completely before, or completely after, the range; a null end is no bound.
  abbrev pub ends_before : Option U → FileMetaData I → Bool
  ends_before none f = false
  ends_before (some b) f = is_lt (ks.user_cmp (ks.user_key f.largest) b)

  abbrev pub starts_after : Option U → FileMetaData I → Bool
  starts_after none f = false
  starts_after (some e) f = is_gt (ks.user_cmp (ks.user_key f.smallest) e)

  abbrev pub outside : Option U → Option U → FileMetaData I → Bool
  outside b e f = ends_before b f || starts_after e f

  -- The file reaches over the range to the left, or to the right.
  abbrev pub starts_before : Option U → FileMetaData I → Bool
  starts_before none f = false
  starts_before (some b) f = is_lt (ks.user_cmp (ks.user_key f.smallest) b)

  abbrev pub ends_after : Option U → FileMetaData I → Bool
  ends_after none f = false
  ends_after (some e) f = is_gt (ks.user_cmp (ks.user_key f.largest) e)

  -- `is_level0` is the test `level == 0`.
  unfoldable pub pass :
      Bool → Option U → Option U → List (FileMetaData I) → List (FileMetaData I) → Walk U I
  pass is_level0 b e [] inputs = finished inputs
  pass is_level0 b e (f ∷ rest) inputs =
      let next = pass is_level0 b e rest (if outside b e f then inputs else inputs ++ f ∷ []) in
      if outside b e f
      then next
      else if is_level0 && starts_before b f
      then restarts (some (ks.user_key f.smallest)) e
      else if is_level0 && ends_after e f
      then restarts b (some (ks.user_key f.largest))
      else next

  -- `none`: the fuel is used up.
  unfoldable pub gather :
      ℕ → Bool → List (FileMetaData I) → Option U → Option U → Option (List (FileMetaData I))
  unfolding pass
  gather zero is_level0 files b e = none
  gather (suc fuel) is_level0 files b e = elim (pass is_level0 b e files []) [
    | finished inputs ↦ some inputs
    | restarts b' e' ↦ gather fuel is_level0 files b' e'
  ]

  unfoldable pub get_overlapping_inputs :
      ℕ → List (FileMetaData I) → Option I → Option I → Option (List (FileMetaData I))
  unfolding gather
  get_overlapping_inputs level files begin end =
      gather (suc (length files + length files)) (level == 0) files (Option.map ks.user_key begin)
        (Option.map ks.user_key end)
