-- ===== src/Db/Work/Install.antt =====
-- project/db_impl.cc: the end of DBImpl::DoCompactionWork, InstallCompactionResults and
-- CleanupCompaction.
use leveldb_surf.Base.{ℕ, suc, ◌+◌, Option, none, some, List, [], ◌∷◌, ◌++◌, ◌>>=◌, if◌then◌else◌}
use leveldb_surf.Base.Status.{Status, is_ok}
use leveldb_surf.Version.Keys.{KeySpace}
use leveldb_surf.Version.Files.{FileMetaData}
use leveldb_surf.Version.Levels.{total_file_size}
use leveldb_surf.Version.Builder.{VersionEdit, erase}
use leveldb_surf.Version.Compaction.{Compaction, add_input_deletions}
use leveldb_surf.Db.Work.{Job, TableBuilder, World, Output, Work, write_outputs}

-- The choice of `smallest_snapshot`: the oldest of the snapshots, which are kept oldest first.
unfoldable pub smallest_snapshot_of : List ℕ → ℕ → ℕ
smallest_snapshot_of [] last_sequence = last_sequence
smallest_snapshot_of (oldest ∷ snapshots) last_sequence = oldest

-- CompactionStats without its clock.
pub record CompactionStats : Type 0 where
  pub bytes_read : ℕ
  pub bytes_written : ℕ

module _ {U I V B : Type 0} (ks : KeySpace U I) (job : Job U I) (tb : TableBuilder B I V)
    (world : World) where
  -- The output as AddFile enters it in the edit; none where a key was never set.
  abbrev pub file_of : Output I → Option (FileMetaData I)
  file_of o = do
    smallest ← o.smallest
    largest ← o.largest
    some (record {
      number = o.number;
      file_size = o.file_size;
      smallest = smallest;
      largest = largest;
    })

  -- The loop of InstallCompactionResults over the outputs, of which the last stands first.
  unfoldable pub add_outputs : ℕ → List (Output I) → Option (List (ℕ × FileMetaData I))
  add_outputs level [] = some []
  add_outputs level (o ∷ os) = do
    before ← add_outputs level os
    f ← file_of o
    some (before ++ (suc level, f) ∷ [])

  -- InstallCompactionResults: the edit that goes to LogAndApply, made from the compaction's own
  -- `edit`.
  unfoldable pub install_compaction_results :
      Compaction I → VersionEdit I → List (Output I) → Option (VersionEdit I)
  unfolding add_outputs
  install_compaction_results c edit outputs = do
    files ← add_outputs c.level outputs
    some (record edit {
      deleted_files = edit.deleted_files ++ add_input_deletions c;
      new_files = edit.new_files ++ files;
    })

  unfoldable pub output_bytes : List (Output I) → ℕ
  output_bytes [] = 0
  output_bytes (o ∷ os) = output_bytes os + o.file_size

  unfoldable pub compaction_stats : Compaction I → List (Output I) → CompactionStats
  unfolding total_file_size output_bytes
  compaction_stats c outputs = record {
    bytes_read = total_file_size c.inputs0 + total_file_size c.inputs1;
    bytes_written = output_bytes outputs;
  }

  -- CleanupCompaction: the outputs are pending no more, and a builder that is left is abandoned.
  unfoldable pub release_outputs : List (Output I) → List ℕ → List ℕ
  release_outputs [] pending = pending
  release_outputs (o ∷ os) pending = release_outputs os (erase o.number pending)

  unfoldable pub cleanup_compaction : Work U I B → List ℕ
  unfolding release_outputs
  cleanup_compaction w = release_outputs w.outputs w.pending_outputs

  -- DoCompactionWork: the status before the results are installed, the edit to install if that is
  -- OK, what is added to the statistics of level + 1, and the state for CleanupCompaction.
  unfoldable pub do_compaction_work :
      Compaction I
      → VersionEdit I
      → List (I × V)
      → Work U I B
      → Status × Option (VersionEdit I) × CompactionStats × Work U I B
  unfolding write_outputs install_compaction_results compaction_stats
  do_compaction_work c edit input w =
      let (s, w') = write_outputs ks job tb world input w in
      (
        s,
        if is_ok s then install_compaction_results c edit w'.outputs else none,
        compaction_stats c w'.outputs,
        w',
      )
