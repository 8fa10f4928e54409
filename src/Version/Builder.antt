-- ===== src/Version/Builder.antt =====
-- project/version_set.cc: VersionSet::Builder, which applies version edits to the files of a
-- version.
pub mod Merge
pub mod Order
pub mod Edits
pub mod Edited
pub mod Sequence
pub mod Strict
pub mod Added
pub mod Replay
use leveldb_surf.Base.{
  ℕ, ◌+◌, ◌/◌, ◌≡◌, Bool, true, false, not, ◌||◌, Option, none, some, List, [], ◌∷◌, ◌++◌, ltb,
  ◌==◌, if◌then◌else◌, is_lt, Ordering, filter,
}
use leveldb_surf.Version.Keys.{KeySpace}
use leveldb_surf.Version.Files.{FileMetaData}

-- The fields of class VersionEdit (db/version_edit.h, not in this repository) that the builder
-- reads: levels with compaction pointers, with numbers of deleted files, and with new files.
pub record VersionEdit (I : Type 0) : Type 0 where
  pub compact_pointers : List (ℕ × I)
  pub deleted_files : List (ℕ × ℕ)
  pub new_files : List (ℕ × FileMetaData I)

-- A std::set of numbers, by its members.
abbrev pub contains : ℕ → List ℕ → Bool
contains n [] = false
contains n (m ∷ ms) = n == m || contains n ms

abbrev pub erase : ℕ → List ℕ → List ℕ
erase n [] = []
erase n (m ∷ ms) = if n == m then erase n ms else m ∷ erase n ms

pub record LevelState (I : Type 0) : Type 0 where
  pub deleted_files : List ℕ
  pub added_files : List (FileMetaData I)

-- `levels_`, and what Apply writes elsewhere: `vset_->compact_pointer_` (none if empty) and the
-- `allowed_seeks` of the new files, by number.
pub record Builder (I : Type 0) : Type 0 where
  pub levels : ℕ → LevelState I
  pub compact_pointer : ℕ → Option I
  pub allowed_seeks : ℕ → ℕ

abbrev pub update : {A : Type 0} → (ℕ → A) → ℕ → A → ℕ → A
update f i a j = if i == j then a else f j

module _ {U I : Type 0} (ks : KeySpace U I) where
  -- BySmallestKey: file numbers break the ties.
  unfoldable pub by_smallest_key : FileMetaData I → FileMetaData I → Bool
  by_smallest_key f g = elim (ks.internal_cmp f.smallest g.smallest) [
    | Ordering.lt ↦ true
    | Ordering.eq ↦ ltb f.number g.number
    | Ordering.gt ↦ false
  ]

  -- Insertion into the std::set of added files: nothing happens if an equivalent file is there.
  unfoldable pub insert_added : FileMetaData I → List (FileMetaData I) → List (FileMetaData I)
  unfolding by_smallest_key
  insert_added f [] = f ∷ []
  insert_added f (g ∷ gs) =
      if by_smallest_key f g
      then f ∷ g ∷ gs
      else if by_smallest_key g f
      then g ∷ insert_added f gs
      else g ∷ gs

  -- One seek for every 16KB of data, and at least 100.
  unfoldable pub seeks_for : ℕ → ℕ
  seeks_for file_size = if ltb (file_size / 16384) 100 then 100 else file_size / 16384

  -- The three loops of Apply.
  unfoldable pub apply_pointers : Builder I → List (ℕ × I) → Builder I
  apply_pointers b [] = b
  apply_pointers b ((level, key) ∷ rest) =
      apply_pointers (record b { compact_pointer = update b.compact_pointer level (some key) }) rest

  unfoldable pub apply_deletions : Builder I → List (ℕ × ℕ) → Builder I
  apply_deletions b [] = b
  apply_deletions b ((level, number) ∷ rest) =
      let state = record (b.levels level) {
        deleted_files = number ∷ (b.levels level).deleted_files;
      } in
      apply_deletions (record b { levels = update b.levels level state }) rest

  unfoldable pub add_file : Builder I → ℕ → FileMetaData I → Builder I
  unfolding insert_added seeks_for
  add_file b level f =
      let state : LevelState I = record {
        deleted_files = erase f.number (b.levels level).deleted_files;
        added_files = insert_added f (b.levels level).added_files;
      } in
      record b {
        levels = update b.levels level state;
        allowed_seeks = update b.allowed_seeks f.number (seeks_for f.file_size);
      }

  unfoldable pub apply_additions : Builder I → List (ℕ × FileMetaData I) → Builder I
  unfolding add_file
  apply_additions b [] = b
  apply_additions b ((level, f) ∷ rest) = apply_additions (add_file b level f) rest

  unfoldable pub apply : Builder I → VersionEdit I → Builder I
  unfolding apply_pointers apply_deletions apply_additions
  apply b edit =
      apply_additions (apply_deletions (apply_pointers b edit.compact_pointers) edit.deleted_files)
        edit.new_files

  -- MaybeAddFile: `files` is `v->files_[level]`. Its assert that the files do not overlap is left
  -- out, and so is the check to the same end that a debug build makes at the end of SaveTo.
  unfoldable pub maybe_add_file :
      List ℕ → List (FileMetaData I) → FileMetaData I → List (FileMetaData I)
  maybe_add_file deleted files f = if contains f.number deleted then files else files ++ f ∷ []

  -- The base files up to std::upper_bound of the added file, which are added, and those from there
  -- on.
  unfoldable pub add_base_below :
      List ℕ
      → FileMetaData I
      → List (FileMetaData I)
      → List (FileMetaData I)
      → List (FileMetaData I) × List (FileMetaData I)
  unfolding maybe_add_file
  add_base_below deleted added files [] = (files, [])
  add_base_below deleted added files (f ∷ base) =
      let rest = add_base_below deleted added (maybe_add_file deleted files f) base in
      if by_smallest_key added f then (files, f ∷ base) else rest

  unfoldable pub add_base :
      List ℕ → List (FileMetaData I) → List (FileMetaData I) → List (FileMetaData I)
  unfolding maybe_add_file
  add_base deleted files [] = files
  add_base deleted files (f ∷ base) = add_base deleted (maybe_add_file deleted files f) base

  -- SaveTo at one level.
  unfoldable pub save_files :
      List ℕ
      → List (FileMetaData I)
      → List (FileMetaData I)
      → List (FileMetaData I)
      → List (FileMetaData I)
  unfolding add_base_below add_base
  save_files deleted files base [] = add_base deleted files base
  save_files deleted files base (f ∷ added) =
      let r = add_base_below deleted f files base in
      save_files deleted (maybe_add_file deleted r.0 f) r.1 added

  unfoldable pub save_to : Builder I → (ℕ → List (FileMetaData I)) → ℕ → List (FileMetaData I)
  unfolding save_files
  save_to b base_files level =
      save_files (b.levels level).deleted_files [] (base_files level) (b.levels level).added_files
