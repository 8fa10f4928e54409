-- ===== src/Db/Work/Results.antt =====
-- project/db_impl.cc: the edit that DBImpl::DoCompactionWork installs.
use leveldb_surf.Base.{
  ℕ, suc, ◌<◌, ◌≡◌, refl, ◌∙◌, true, none, some, List, [], ◌∷◌, ◌++◌, length, arith,
}
use leveldb_surf.Base.Status.{is_ok}
use leveldb_surf.Version.Keys.{KeySpace}
use leveldb_surf.Version.Files.{FileMetaData}
use leveldb_surf.Version.Builder.{VersionEdit}
use leveldb_surf.Version.Compaction.{Compaction, add_input_deletions}
use leveldb_surf.Db.Work.{Job, TableBuilder, World, Output, Work, write_outputs}
use leveldb_surf.Db.Work.Visible.{kept, first_cursor}
use leveldb_surf.Db.Work.Outputs.{IsTableBuilder, first_key, last_key, table_entries, Describes}
use leveldb_surf.Db.Work.Written.{write_outputs-kept}
use leveldb_surf.Db.Work.Install.{add_outputs, install_compaction_results, do_compaction_work}

module _ {I V : Type 0} where
  first_key-some : (es : List (I × V)) → 0 < length es → (k : I) × (first_key es ≡ some k)
  first_key-some [] h = absurd (omega arith)
  first_key-some ((key, value) ∷ es) h = (key, refl)

  last_key-some : (es : List (I × V)) → 0 < length es → (k : I) × (last_key es ≡ some k)
  last_key-some [] h = absurd (omega arith)
  last_key-some ((key, value) ∷ []) h = (key, refl)
  last_key-some (e ∷ f ∷ es) h = last_key-some (f ∷ es) (omega arith)

module _ {U I V B : Type 0} (ks : KeySpace U I) (job : Job U I) (tb : TableBuilder B I V)
    (entries : B → List (I × V)) (world : World) where
  -- The files of the next level that hold the tables: number, size, first and last key of each.
  abbrev pub AreFiles : ℕ → List (ℕ × FileMetaData I) → List (ℕ × B) → Type 0
  AreFiles level files [] = files ≡ []
  AreFiles level files ((number, b) ∷ tables) =
      (before : List (ℕ × FileMetaData I)) × (f : FileMetaData I) × (files
        ≡ before ++ (suc level, f) ∷ [])
      × (f.number ≡ number)
      × (f.file_size ≡ tb.file_size b)
      × (first_key (entries b) ≡ some f.smallest)
      × (last_key (entries b) ≡ some f.largest)
      × AreFiles level before tables

  outputs_added :
      (level : ℕ) (os : List (Output I)) (tables : List (ℕ × B))
      → Describes ks job tb entries os tables
      → (files : List (ℕ × FileMetaData I)) × (add_outputs ks job tb world level os ≡ some files)
        × AreFiles level files tables
  unfolding add_outputs
  outputs_added level [] [] d = ([], refl, refl)
  outputs_added level [] ((number, b) ∷ tables) d = absurd d
  outputs_added level (o ∷ os) [] d = absurd d
  outputs_added level (o ∷ os) ((number, b) ∷ tables) (n, s, l, first, last, rest) =
      let (before, added, are) = outputs_added level os tables rest in
      let (smallest, at_first) = first_key-some (entries b) l in
      let (largest, at_last) = last_key-some (entries b) l in
      let f : FileMetaData I = record {
        number = o.number;
        file_size = o.file_size;
        smallest = smallest;
        largest = largest;
      } in
      (
        before ++ (suc level, f) ∷ [],
        rw (added, first ∙ at_first, last ∙ at_last) refl,
        (before, f, refl, n, s, at_first, at_last, are),
      )

  -- Where the status of DoCompactionWork before its installation is OK, there is an edit to
  -- install: it deletes the compaction's inputs at their levels and adds, at the next level and in
  -- order, one file for each table written, with that table's number, size, first and last key; and
  -- the tables hold just the entries that are kept, in their order. It holds for a builder that
  -- holds the entries added to it, whatever the files, the other threads and the sizes at which the
  -- outputs are cut.
  pub do_compaction_work-edit :
      (t : IsTableBuilder tb entries) (c : Compaction I) (edit : VersionEdit I)
      (input : List (I × V)) (w : Work U I B)
      → w.builder ≡ none
      → w.outputs ≡ []
      → w.tables ≡ []
      → w.cursor ≡ first_cursor ks job
      → is_ok (do_compaction_work ks job tb world c edit input w).0 ≡ true
      → (files : List (ℕ × FileMetaData I)) × ((do_compaction_work ks job tb world c edit input w).1
          ≡ some (record edit {
            deleted_files = edit.deleted_files ++ add_input_deletions c;
            new_files = edit.new_files ++ files;
          }))
        × AreFiles c.level files (do_compaction_work ks job tb world c edit input w).3.tables
        × (table_entries ks job tb entries
              (do_compaction_work ks job tb world c edit input w).3.tables
            ≡ kept ks job input (first_cursor ks job))
  unfolding do_compaction_work install_compaction_results
  do_compaction_work-edit t c edit input w e o ta cu ok =
      let (s, described, all) = write_outputs-kept ks job tb entries world t input w e o ta cu ok in
      let w' = (write_outputs ks job tb world input w).1 in
      let (files, added, are) = outputs_added c.level w'.outputs w'.tables described in
      (files, rw (ok, added) refl, are, all)
