-- ===== src/Version/Files.antt =====
-- project/version_set.cc: FindFile, AfterFile, BeforeFile and SomeFileOverlapsRange.
pub mod Search
pub mod Overlap
use leveldb_surf.Base.{
  ℕ, zero, suc, ◌+◌, ◌/◌, ◌%◌, ◌^◌, Bool, true, false, not, ◌||◌, Option, none, some, List, [], ◌∷◌,
  length, get_elem?, ltb, leb, if◌then◌else◌, is_lt, is_gt, ◌>>=◌,
}
use leveldb_surf.Version.Keys.{KeySpace}

-- struct FileMetaData, without the two counters that the versions share (`refs`, `allowed_seeks`).
pub record FileMetaData (I : Type 0) : Type 0 where
  pub number : ℕ
  pub file_size : ℕ
  pub smallest : I
  pub largest : I

module _ {U I : Type 0} (ks : KeySpace U I) where
  -- The loop of FindFile. `none`: a read out of bounds, or the fuel is used up.
  unfoldable pub find_loop : ℕ → List (FileMetaData I) → I → ℕ → ℕ → Option ℕ
  find_loop zero files key left right = none
  find_loop (suc fuel) files key left right =
      let mid = ((left + right) % 2 ^ 32) / 2 in
      let upper = find_loop fuel files key ((mid + 1) % 2 ^ 32) right in
      let lower = find_loop fuel files key left mid in
      let body : Option ℕ = elim (get_elem? files mid) [
        | none ↦ none
        | some f ↦ if is_lt (ks.internal_cmp f.largest key) then upper else lower
      ] in
      if ltb left right then body else some right

  unfoldable pub find_file : List (FileMetaData I) → I → Option ℕ
  unfolding find_loop
  find_file files key = find_loop (suc (length files)) files key 0 (length files % 2 ^ 32)

  -- A null key is after no file and before none.
  unfoldable pub after_file : Option U → FileMetaData I → Bool
  after_file none f = false
  after_file (some key) f = is_gt (ks.user_cmp key (ks.user_key f.largest))

  unfoldable pub before_file : Option U → FileMetaData I → Bool
  before_file none f = false
  before_file (some key) f = is_lt (ks.user_cmp key (ks.user_key f.smallest))

  -- The loop over all files.
  unfoldable pub any_overlaps : List (FileMetaData I) → Option U → Option U → Bool
  unfolding after_file before_file
  any_overlaps [] lo hi = false
  any_overlaps (f ∷ fs) lo hi =
      if after_file lo f || before_file hi f then any_overlaps fs lo hi else true

  unfoldable pub first_index : List (FileMetaData I) → Option U → Option ℕ
  first_index files none = some 0
  first_index files (some key) = find_file files (ks.seek_key key)

  unfoldable pub some_file_overlaps_range :
      Bool → List (FileMetaData I) → Option U → Option U → Option Bool
  unfolding any_overlaps first_index
  some_file_overlaps_range false files lo hi = some (any_overlaps files lo hi)
  some_file_overlaps_range true files lo hi = do
    index ← first_index files lo
    if leb (length files) index
        then some false
        else (do f ← get_elem? files index; some (not (before_file hi f)))
