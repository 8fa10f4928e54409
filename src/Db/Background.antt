-- ===== src/Db/Background.antt =====
-- project/db_impl.cc: the scheduling of background work, DBImpl::CompactMemTable to
-- BackgroundCompaction.
pub mod Live
mod Tests
use leveldb_surf.Base.{
  ℕ, zero, suc, ◌+◌, ◌-◌, ◌≡◌, Bool, true, false, not, ◌&&◌, ◌||◌, Option, none, some, List, [],
  ◌∷◌, if◌then◌else◌, ◌>>=◌,
}
use leveldb_surf.Base.Status.{Status, is_ok}
use leveldb_surf.Version.Keys.{KeySpace}
use leveldb_surf.Version.Files.{FileMetaData}
use leveldb_surf.Version.Levels.{num_levels, overlap_in_level}

-- struct ManualCompaction; `begin` and `end` are none for the null pointer.
pub record ManualCompaction (I : Type 0) : Type 0 where
  pub level : ℕ
  pub done : Bool
  pub begin : Option I
  pub end : Option I

-- The fields of DBImpl that the scheduling tests and changes. `queued` counts the calls of BGWork
-- that env_->Schedule has accepted and not run; `returned` is the request that the last background
-- call took, as it leaves it to the caller of TEST_CompactRange.
pub record Background (I V : Type 0) : Type 0 where
  pub shutting_down : Bool
  pub bg_error : Status
  pub has_imm : Bool
  pub manual_compaction : Option (ManualCompaction I)
  pub returned : Option (ManualCompaction I)
  pub background_compaction_scheduled : Bool
  pub queued : ℕ
  pub versions : V

-- What the scheduling calls. `work` is DoCompactionWork with CleanupCompaction, together with what
-- the other threads do while it has released the mutex.
pub record Calls (I V C : Type 0) : Type 0 where
  pub needs_compaction : V → Bool
  pub write_level0_table : V → Status
  pub install_memtable : V → Status × V
  pub compact_range : ManualCompaction I → V → Option C × V
  pub pick_compaction : V → Option C × V
  pub is_trivial_move : C → Bool
  pub move_file : C → V → Status × V
  pub last_input_largest : C → I
  pub work : C → Background I V → Status × Background I V

-- TEST_CompactRange: the request for a range of user keys; `end_key` makes
-- InternalKey(*end, 0, static_cast<ValueType>(0)).
unfoldable pub new_manual_compaction :
    {U I : Type 0} → KeySpace U I → (U → I) → ℕ → Option U → Option U → ManualCompaction I
new_manual_compaction ks end_key level begin end = record {
  level = level;
  done = false;
  begin = elim begin [ none ↦ none | some u ↦ some (ks.seek_key u) ];
  end = elim end [ none ↦ none | some u ↦ some (end_key u) ];
}

-- CompactRange: the loop that finds the largest level with files in the range, and the levels that
-- TEST_CompactRange is called on.
unfoldable pub max_level_with_files :
    {U I : Type 0}
    → KeySpace U I
    → (ℕ → List (FileMetaData I))
    → Option U
    → Option U
    → ℕ
    → ℕ
    → ℕ
    → Option ℕ
max_level_with_files ks files begin end zero level found = some found
max_level_with_files ks files begin end (suc left) level found =
    overlap_in_level ks files level begin end >>= λ overlap.
    max_level_with_files ks files begin end left (level + 1) (if overlap then level else found)

abbrev pub levels_below : ℕ → ℕ → List ℕ
levels_below zero level = []
levels_below (suc left) level = level ∷ levels_below left (level + 1)

unfoldable pub compact_range_levels :
    {U I : Type 0}
    → KeySpace U I
    → (ℕ → List (FileMetaData I))
    → Option U
    → Option U
    → Option (List ℕ)
unfolding max_level_with_files
compact_range_levels ks files begin end =
    max_level_with_files ks files begin end (num_levels - 1) 1 1 >>= λ level.
    some (levels_below level 0)

abbrev pub is_some : {A : Type 0} → Option A → Bool
is_some none = false
is_some (some a) = true

module _ {I V C : Type 0} (calls : Calls I V C) where
  -- RecordBackgroundError: the first error stays.
  unfoldable pub record_background_error : Status → Background I V → Background I V
  record_background_error s b = if is_ok b.bg_error then record b { bg_error = s } else b

  -- There is something to do.
  abbrev pub has_work : Background I V → Bool
  has_work b = b.has_imm || is_some b.manual_compaction || calls.needs_compaction b.versions

  -- MaybeScheduleCompaction.
  unfoldable pub maybe_schedule_compaction : Background I V → Background I V
  maybe_schedule_compaction b =
      if b.background_compaction_scheduled
      then b
      else if b.shutting_down
      then b
      else if not (is_ok b.bg_error)
      then b
      else if not b.has_imm
          && not (is_some b.manual_compaction)
          && not (calls.needs_compaction b.versions)
      then b
      else record b { background_compaction_scheduled = true; queued = b.queued + 1 }

  -- The end of CompactMemTable: commit to the new state, or record the error.
  abbrev pub commit_flush : Status → Background I V → Background I V
  commit_flush s b = if is_ok s then record b { has_imm = false } else record_background_error s b

  -- CompactMemTable up to LogAndApply.
  abbrev pub flush_memtable : Background I V → Status × Background I V
  flush_memtable b =
      let written = calls.write_level0_table b.versions in
      let s = if is_ok written && b.shutting_down then Status.io_error else written in
      let applied = calls.install_memtable b.versions in
      (
        if is_ok s then applied.0 else s,
        record b { versions = if is_ok s then applied.1 else b.versions },
      )

  unfoldable pub compact_mem_table : Background I V → Background I V
  unfolding record_background_error
  compact_mem_table b = let flushed = flush_memtable b in commit_flush flushed.0 flushed.1

  -- `if (!status.ok()) RecordBackgroundError(status);`
  abbrev pub record_failure : Status → Background I V → Background I V
  record_failure s b = if is_ok s then b else record_background_error s b

  -- The middle of BackgroundCompaction: the compaction is moved, worked on, or nothing is done.
  unfoldable pub run_compaction : Bool → Option C → Background I V → Status × Background I V
  unfolding record_background_error
  run_compaction is_manual none b = (Status.ok, b)
  run_compaction is_manual (some c) b =
      let moved = calls.move_file c b.versions in
      let worked = calls.work c b in
      if not is_manual && calls.is_trivial_move c
      then (moved.0, record_failure moved.0 (record b { versions = moved.1 }))
      else (worked.0, record_failure worked.0 worked.1)

  -- The end of BackgroundCompaction for a request `m`: it is done, or goes on after the part
  -- compacted.
  unfoldable pub finish_manual : ManualCompaction I → Option C → Status → ManualCompaction I
  finish_manual m none status = record m { done = true }
  finish_manual m (some c) status =
      if is_ok status
      then record m { done = false; begin = some (calls.last_input_largest c) }
      else record m { done = true }

  unfoldable pub compact_chosen : Option (ManualCompaction I) → Background I V → Background I V
  unfolding run_compaction finish_manual
  compact_chosen none b =
      let chosen = calls.pick_compaction b.versions in
      (run_compaction false chosen.0 (record b { versions = chosen.1 })).1
  compact_chosen (some m) b =
      let chosen = calls.compact_range m b.versions in
      let r = run_compaction true chosen.0 (record b { versions = chosen.1 }) in
      record r.1 { manual_compaction = none; returned = some (finish_manual m chosen.0 r.0) }

  -- BackgroundCompaction.
  unfoldable pub background_compaction : Background I V → Background I V
  unfolding compact_mem_table compact_chosen
  background_compaction b =
      if b.has_imm then compact_mem_table b else compact_chosen b.manual_compaction b

  -- No more background work when shutting down or after an error.
  abbrev pub work_unless_stopped : Background I V → Background I V
  work_unless_stopped b =
      if b.shutting_down then b else if not (is_ok b.bg_error) then b else background_compaction b

  -- BackgroundCall, after the environment has taken it from its queue.
  unfoldable pub background_call : Background I V → Background I V
  unfolding background_compaction maybe_schedule_compaction
  background_call b =
      maybe_schedule_compaction
        (record (work_unless_stopped b) { background_compaction_scheduled = false })
