-- ===== src/Db/Work.antt =====
-- project/db_impl.cc: the loop of DBImpl::DoCompactionWork, with OpenCompactionOutputFile and
-- FinishCompactionOutputFile.
pub mod Visible
pub mod Reads
pub mod Outputs
pub mod Written
pub mod Install
pub mod Results
mod Tests
use leveldb_surf.Base.{
  ℕ, zero, suc, ◌+◌, ◌≡◌, Bool, true, false, not, ◌&&◌, ◌||◌, Option, none, some, List, [], ◌∷◌,
  ◌++◌, length, ltb, leb, ◌==◌, if◌then◌else◌, is_eq,
}
use leveldb_surf.Base.Status.{Status, is_ok}
use leveldb_surf.Version.Keys.{KeySpace}
use leveldb_surf.Version.Files.{FileMetaData}
use leveldb_surf.Version.Outputs.{Progress, should_stop_before, is_base_level_for_key}

-- ParsedInternalKey of db/dbformat.h, not in this repository; of the types only deletions matter.
pub record ParsedInternalKey (U : Type 0) : Type 0 where
  pub user_key : U
  pub sequence : ℕ
  pub is_deletion : Bool

-- What a compaction reads and does not change: `parse` is ParseInternalKey and `max_sequence`
-- kMaxSequenceNumber, both of db/dbformat.h; `target` is options->max_file_size.
pub record Job (U I : Type 0) : Type 0 where
  pub parse : I → Option (ParsedInternalKey U)
  pub max_sequence : ℕ
  pub target : ℕ
  pub max_output_file_size : ℕ
  pub level : ℕ
  pub files : ℕ → List (FileMetaData I)
  pub grandparents : List (FileMetaData I)
  pub smallest_snapshot : ℕ

-- The variables of the loop that decide on dropping, with the pointers that IsBaseLevelForKey
-- moves. `current_user_key` is none where `has_current_user_key` is false.
pub record Cursor (U : Type 0) : Type 0 where
  pub current_user_key : Option U
  pub last_sequence_for_key : ℕ
  pub level_ptrs : ℕ → ℕ

module _ {U I : Type 0} (ks : KeySpace U I) (job : Job U I) where
  -- The user key is another one than the current.
  abbrev pub is_first : U → Option U → Bool
  is_first key none = true
  is_first key (some current) = not (is_eq (ks.user_cmp key current))

  -- The cursor moves to the entry.
  abbrev pub move : ParsedInternalKey U → Cursor U → (ℕ → ℕ) → Cursor U
  move p c ptrs = record {
    current_user_key =
        if is_first p.user_key c.current_user_key then some p.user_key else c.current_user_key;
    last_sequence_for_key = p.sequence;
    level_ptrs = ptrs;
  }

  -- The body's decision for a key that parses: whether the entry is dropped.
  unfoldable pub drop_parsed : ParsedInternalKey U → Cursor U → Bool × Cursor U
  drop_parsed p c =
      let last =
        if is_first p.user_key c.current_user_key
        then job.max_sequence
        else c.last_sequence_for_key in
      let base = is_base_level_for_key ks job.files job.level p.user_key c.level_ptrs in
      if leb last job.smallest_snapshot
      then (true, move p c c.level_ptrs)
      else if p.is_deletion && leb p.sequence job.smallest_snapshot
      then (base.0, move p c base.1)
      else (false, move p c c.level_ptrs)

  unfoldable pub drop_entry : I → Cursor U → Bool × Cursor U
  unfolding drop_parsed
  drop_entry key c = elim (job.parse key) [
    | none ↦ (false, record c { current_user_key = none; last_sequence_for_key = job.max_sequence })
    | some p ↦ drop_parsed p c
  ]

-- class TableBuilder (table/table_builder.h) and its file, not in this repository: `finish` is
-- Finish with its status.
pub record TableBuilder (B I V : Type 0) : Type 0 where
  pub new_table_builder : B
  pub add : I → V → B → B
  pub num_entries : B → ℕ
  pub file_size : B → ℕ
  pub finish : B → Status × B

-- The answers of the files and of the other threads. Those that change in time are given by the
-- number of entries that the input still has: `others` is what the work on `imm_` and the writers
-- make of the next file number.
pub record World : Type 0 where
  pub new_writable_file : ℕ → Status
  pub sync : ℕ → Status
  pub close : ℕ → Status
  pub verify : ℕ → ℕ → Status
  pub input_status : ℕ → Status
  pub shutting_down : ℕ → Bool
  pub others : ℕ → ℕ → ℕ

-- CompactionState::Output; an internal key that is cleared is none.
pub record Output (I : Type 0) : Type 0 where
  pub number : ℕ
  pub file_size : ℕ
  pub smallest : Option I
  pub largest : Option I

-- CompactionState with what else the loop changes. The last one of `outputs` comes first, and
-- `tables` holds the finished files in the same order.
pub record Work (U I B : Type 0) : Type 0 where
  pub outputs : List (Output I)
  pub builder : Option B
  pub total_bytes : ℕ
  pub tables : List (ℕ × B)
  pub pending_outputs : List ℕ
  pub next_file_number : ℕ
  pub progress : Progress
  pub cursor : Cursor U

module _ {U I V B : Type 0} (ks : KeySpace U I) (job : Job U I) (tb : TableBuilder B I V)
    (world : World) where
  abbrev pub W : Type 0
  W = Work U I B

  -- `if (s.ok()) s = …`
  abbrev pub and_then : Status → Status → Status
  and_then s next = if is_ok s then next else s

  abbrev pub change_current : (Output I → Output I) → List (Output I) → List (Output I)
  change_current f [] = []
  change_current f (o ∷ os) = f o ∷ os

  abbrev pub current_number : List (Output I) → ℕ
  current_number [] = 0
  current_number (o ∷ os) = o.number

  -- The file number is taken before the file is made, which may fail.
  unfoldable pub open_compaction_output_file : W → Status × W
  open_compaction_output_file w =
      let number = w.next_file_number in
      let w' = record w {
        next_file_number = number + 1;
        pending_outputs = number ∷ w.pending_outputs;
        outputs =
            record { number = number; file_size = 0; smallest = none; largest = none } ∷ w.outputs;
      } in
      let s = world.new_writable_file number in
      (s, if is_ok s then record w' { builder = some tb.new_table_builder } else w')

  -- The rest of FinishCompactionOutputFile after the builder is finished or abandoned.
  abbrev pub close_output : ℕ → Status × B → W → Status × W
  close_output current_entries done w =
      let number = current_number w.outputs in
      let current_bytes = tb.file_size done.1 in
      let closed = and_then (and_then done.0 (world.sync number)) (world.close number) in
      let verified =
        if is_ok closed && ltb 0 current_entries
        then world.verify number current_bytes
        else closed in
      (
        verified,
        record w {
          outputs = change_current (λ o. record o { file_size = current_bytes }) w.outputs;
          total_bytes = w.total_bytes + current_bytes;
          builder = none;
          tables = if is_ok done.0 then (number, done.1) ∷ w.tables else w.tables;
        },
      )

  -- `b` is the builder, and `left` tells the time.
  unfoldable pub finish_compaction_output_file : ℕ → B → W → Status × W
  finish_compaction_output_file left b w =
      close_output (tb.num_entries b)
        (if is_ok (world.input_status left) then tb.finish b else (world.input_status left, b)) w

  -- `if (compact->builder != nullptr) status = FinishCompactionOutputFile(compact, input);`
  abbrev pub finish_if_open : ℕ → Option B → W → Status × W
  finish_if_open left none w = (Status.ok, w)
  finish_if_open left (some b) w = finish_compaction_output_file left b w

  -- The output is cut before the key where the grandparents ask for it.
  unfoldable pub stop_before : ℕ → I → W → Status × W
  unfolding finish_compaction_output_file
  stop_before left key w =
      let stop = should_stop_before ks job.target job.grandparents key w.progress in
      let w' = record w { progress = stop.1 } in
      if stop.0 then finish_if_open left w'.builder w' else (Status.ok, w')

  -- An entry that is kept goes to the builder `b`, and the file is closed when it is big enough.
  unfoldable pub add_entry : ℕ → I → V → B → W → Status × W
  unfolding finish_compaction_output_file
  add_entry left key value b w =
      let outputs =
        change_current
          (λ o. record o {
            smallest = if tb.num_entries b == 0 then some key else o.smallest;
            largest = some key;
          })
          w.outputs in
      let b' = tb.add key value b in
      let w' = record w { outputs = outputs; builder = some b' } in
      if leb job.max_output_file_size (tb.file_size b')
      then finish_compaction_output_file left b' w'
      else (Status.ok, w')

  -- With the builder, if there is one.
  unfoldable pub keep_entry : ℕ → I → V → Option B → W → Status × W
  unfolding open_compaction_output_file add_entry
  keep_entry left key value (some b) w = add_entry left key value b w
  keep_entry left key value none w =
      let opened = open_compaction_output_file w in
      if is_ok opened.0 then add_entry left key value tb.new_table_builder opened.1 else opened

  -- One pass of the loop's body up to `input->Next()`; it breaks where the status is not OK.
  unfoldable pub compact_entry : ℕ → I → V → W → Status × W
  unfolding stop_before drop_entry keep_entry
  compact_entry left key value w =
      let stopped =
        stop_before left key
          (record w { next_file_number = world.others left w.next_file_number }) in
      let dropped = drop_entry ks job key stopped.1.cursor in
      let w' = record stopped.1 { cursor = dropped.1 } in
      if is_ok stopped.0
      then if dropped.0 then (Status.ok, w') else keep_entry left key value w'.builder w'
      else stopped

  -- The loop: its status, how many entries are left, and the state.
  unfoldable pub compact_loop : List (I × V) → W → Status × ℕ × W
  unfolding compact_entry
  compact_loop [] w = (Status.ok, 0, w)
  compact_loop ((key, value) ∷ input) w =
      let left = suc (length input) in
      let r = compact_entry left key value w in
      let rest = compact_loop input r.1 in
      if world.shutting_down left
      then (Status.ok, left, w)
      else if is_ok r.0
      then rest
      else (r.0, left, r.1)

  -- The loop and the statements after it, up to the deletion of the input.
  unfoldable pub write_outputs : List (I × V) → W → Status × W
  unfolding compact_loop finish_compaction_output_file
  write_outputs input w =
      let (s, left, w') = compact_loop input w in
      let s' = and_then s (if world.shutting_down left then Status.io_error else Status.ok) in
      let finished = finish_if_open left w'.builder w' in
      if is_ok s' then (and_then finished.0 (world.input_status left), finished.1) else (s', w')
