-- ===== src/Version/Builder/Sequence.antt =====
-- Apply keeps the added files sorted, and so SaveTo the files of every level, along any edits.
use leveldb_surf.Base.{ℕ, sym, subst, inl, inr, List, [], ◌∷◌, Bool-cases, IsSorted, ◌==◌}
use leveldb_surf.Version.Keys.{KeySpace, IsKeySpace}
use leveldb_surf.Version.Files.{FileMetaData}
use leveldb_surf.Version.Builder.{
  VersionEdit, LevelState, Builder, add_file, apply_pointers, apply_deletions, apply_additions,
  apply, save_to,
}
use leveldb_surf.Version.Builder.Order.{InOrder, insert_added-IsSorted, save_files-IsSorted}
use leveldb_surf.Version.Builder.Edits.{new_builder, deletions_added, pointers_levels}

module _ {U I : Type 0} (ks : KeySpace U I) where
  added-IsSorted :
      (k : IsKeySpace ks) (b : Builder I) (l level : ℕ) (f : FileMetaData I)
      → IsSorted (InOrder ks) (b.levels l).added_files
      → IsSorted (InOrder ks) (b.levels level).added_files
      → IsSorted (InOrder ks) ((add_file ks b l f).levels level).added_files
  unfolding add_file
  added-IsSorted k b l level f s t = elim (Bool-cases (l == level)) [
    | inl same ↦ rw same (insert_added-IsSorted k f (b.levels l).added_files s)
    | inr other ↦ rw other t
  ]

  additions-IsSorted :
      (k : IsKeySpace ks) (b : Builder I) (fs : List (ℕ × FileMetaData I))
      → ((level : ℕ) → IsSorted (InOrder ks) (b.levels level).added_files)
      → (level : ℕ) → IsSorted (InOrder ks) ((apply_additions ks b fs).levels level).added_files
  unfolding apply_additions
  additions-IsSorted k b [] s level = s level
  additions-IsSorted k b ((l, f) ∷ fs) s level =
      additions-IsSorted k (add_file ks b l f) fs (λ i. added-IsSorted k b l i f (s l) (s i)) level

  apply-IsSorted :
      (k : IsKeySpace ks) (b : Builder I) (edit : VersionEdit I)
      → ((level : ℕ) → IsSorted (InOrder ks) (b.levels level).added_files)
      → (level : ℕ) → IsSorted (InOrder ks) ((apply ks b edit).levels level).added_files
  unfolding apply
  apply-IsSorted k b edit s level =
      let b1 = apply_pointers ks b edit.compact_pointers in
      additions-IsSorted k (apply_deletions ks b1 edit.deleted_files) edit.new_files
        (λ i. rw (deletions_added ks b1 edit.deleted_files i) (
          subst (λ (t : LevelState I). IsSorted (InOrder ks) t.added_files)
            (sym (pointers_levels ks b edit.compact_pointers i)) (s i)))
        level

  -- The edits of a descriptor, applied in order.
  unfoldable pub apply_all : Builder I → List (VersionEdit I) → Builder I
  apply_all b [] = b
  apply_all b (edit ∷ edits) = apply_all (apply ks b edit) edits

  apply_all-IsSorted :
      (k : IsKeySpace ks) (b : Builder I) (edits : List (VersionEdit I))
      → ((level : ℕ) → IsSorted (InOrder ks) (b.levels level).added_files)
      → (level : ℕ) → IsSorted (InOrder ks) ((apply_all b edits).levels level).added_files
  unfolding apply_all
  apply_all-IsSorted k b [] s level = s level
  apply_all-IsSorted k b (edit ∷ edits) s level =
      apply_all-IsSorted k (apply ks b edit) edits (apply-IsSorted k b edit s) level

  -- Whatever edits are applied, in whatever order, to a base version whose levels are sorted by
  -- smallest key (ties by file number), every level of the version that SaveTo stores is sorted so.
  pub save_to-IsSorted :
      (k : IsKeySpace ks) (base : ℕ → List (FileMetaData I)) (edits : List (VersionEdit I))
      → ((level : ℕ) → IsSorted (InOrder ks) (base level))
      → (level : ℕ) → IsSorted (InOrder ks) (save_to ks (apply_all new_builder edits) base level)
  unfolding save_to
  save_to-IsSorted k base edits s level =
      let t = (apply_all new_builder edits).levels level in
      save_files-IsSorted k t.deleted_files (base level) t.added_files (s level)
        (apply_all-IsSorted k new_builder edits (λ i. tt) level)
