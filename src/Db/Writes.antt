-- ===== src/Db/Writes.antt =====
-- project/db_impl.cc: DBImpl::Write by the writer at the front of the queue, and BuildBatchGroup.
pub mod Grouping
pub mod Front
use leveldb_surf.Base.{
  ℕ, ◌+◌, ◌*◌, ◌^◌, Bool, true, false, not, ◌&&◌, Option, none, some, List, [], ◌∷◌, ◌++◌, ltb, leb,
  ◌==◌, if◌then◌else◌,
}
use leveldb_surf.Base.Status.{Status, is_ok}

-- WriteBatch and WriteBatchInternal (leveldb/write_batch.h, not in this repository).
pub record Batches (B : Type 0) : Type 0 where
  pub byte_size : B → ℕ
  pub count : B → ℕ
  pub empty : B
  pub append : B → B → B

-- struct DBImpl::Writer, with its address for `==`; a null batch asks for a compaction.
pub record Writer (B : Type 0) : Type 0 where
  pub id : ℕ
  pub batch : Option B
  pub sync : Bool

-- What BuildBatchGroup keeps in its loop: the size, the result with whether it is `tmp_batch_`, and
-- the last writer.
pub record Group (B : Type 0) : Type 0 where
  pub size : ℕ
  pub is_tmp : Bool
  pub result : B
  pub last_writer : Writer B

module _ {B : Type 0} (lib : Batches B) where
  abbrev pub max_size : ℕ → ℕ
  max_size size = if leb size (128 * 2 ^ 10) then size + 128 * 2 ^ 10 else 2 ^ 20

  -- The body for a writer with a batch: the result is copied to `tmp_batch_` first.
  unfoldable pub add_batch : Group B → Writer B → B → Group B
  add_batch g w batch = record {
    size = g.size + lib.byte_size batch;
    is_tmp = true;
    result = lib.append (if g.is_tmp then g.result else lib.append lib.empty g.result) batch;
    last_writer = w;
  }

  -- The loop over the writers after the first.
  unfoldable pub group_loop : ℕ → Bool → List (Writer B) → Group B → Group B
  unfolding add_batch
  group_loop limit first_sync [] g = g
  group_loop limit first_sync (w ∷ ws) g =
      let skip = group_loop limit first_sync ws (record g { last_writer = w }) in
      let next : B → Group B = λ batch. group_loop limit first_sync ws (add_batch g w batch) in
      if w.sync && not first_sync then g else elim w.batch [
        | none ↦ skip
        | some batch ↦ if ltb limit (g.size + lib.byte_size batch) then g else next batch
      ]

  -- BuildBatchGroup, with the batch of the first writer.
  unfoldable pub build_batch_group : Writer B → B → List (Writer B) → Group B
  unfolding group_loop
  build_batch_group first batch ws =
      group_loop (max_size (lib.byte_size batch)) first.sync ws
        (record { size = lib.byte_size batch; is_tmp = false; result = batch; last_writer = first })

-- The loop that pops the queue up to the last writer of the group: the writers popped and the rest.
unfoldable pub pop_group : {B : Type 0} → ℕ → List (Writer B) → List (Writer B) × List (Writer B)
pop_group last [] = ([], [])
pop_group last (w ∷ ws) =
    let rest = pop_group last ws in if w.id == last then (w ∷ [], ws) else (w ∷ rest.0, rest.1)

-- What the log, its file and the memtable answer to the batch of a group.
pub record Answers (B : Type 0) : Type 0 where
  pub add_record : B → Status
  pub sync_file : Status
  pub insert_into : B → Status

-- The fields of the database that the write changes, with the memtable as the batches passed to
-- InsertInto and their first sequence numbers.
pub record Db (B : Type 0) : Type 0 where
  pub last_sequence : ℕ
  pub bg_error : Status
  pub mem : List (ℕ × B)
  pub writers : List (Writer B)

abbrev pub record_background_error : {B : Type 0} → Status → Db B → Db B
record_background_error s db = if is_ok db.bg_error then record db { bg_error = s } else db

module _ {B : Type 0} (lib : Batches B) (io : Answers B) where
  -- The status of a batch: log, sync, memtable, each only if what is before it succeeds.
  unfoldable pub synced : Bool → B → Status
  synced sync batch =
      if is_ok (io.add_record batch) && sync then io.sync_file else io.add_record batch

  unfoldable pub write_status : Bool → B → Status
  unfolding synced
  write_status sync batch =
      if is_ok (synced sync batch) then io.insert_into batch else synced sync batch

  abbrev pub sync_error : Bool → B → Bool
  sync_error sync batch = is_ok (io.add_record batch) && sync && not (is_ok io.sync_file)

  -- The block with the lock released, and SetLastSequence.
  unfoldable pub apply_group : Bool → Group B → Db B → Status × Db B
  unfolding write_status
  apply_group sync g db =
      let status = write_status sync g.result in
      let mem =
        if is_ok (synced sync g.result)
        then (db.last_sequence + 1, g.result) ∷ db.mem
        else db.mem in
      let db' = record db { mem = mem; last_sequence = db.last_sequence + lib.count g.result } in
      (status, if sync_error sync g.result then record_background_error status db' else db')

  -- Write once its writer is at the front, from the status of MakeRoomForWrite on: the status, the
  -- writers that it completes, its own first, and the database. `arrived` are the writers that
  -- other threads push on the queue while the lock is released.
  unfoldable pub write_front :
      Status → Writer B → List (Writer B) → List (Writer B) → Db B → Status × List (Writer B) × Db B
  unfolding apply_group
  write_front room w ws arrived db =
      let alone = pop_group w.id (w ∷ ws) in
      let single : Status × List (Writer B) × Db B =
        (room, alone.0, record db { writers = alone.1 }) in
      elim w.batch [
        | none ↦ single
        | some batch ↦
            let g = build_batch_group lib w batch ws in
            let applied = apply_group w.sync g db in
            let popped = pop_group g.last_writer.id (w ∷ ws ++ arrived) in
            if is_ok room
            then (applied.0, popped.0, record applied.1 { writers = popped.1 })
            else single
      ]
