-- ===== src/Db/Tests.antt =====
-- The properties of the writes and of the clean-up on small queues and directories.
use leveldb_surf.Base.{
  ℕ, zero, suc, ◌≤◌, ◌^◌, ◌+◌, ◌≡◌, ◌≢◌, refl, true, false, List, [], ◌∷◌, ◌++◌, Option, some, none,
  length, In, inl, arith, All,
}
use leveldb_surf.Base.Status.{Status}
use leveldb_surf.Samples.Keys.{file}
use leveldb_surf.Filter.Policy.{Bytes}
use leveldb_surf.Version.Files.{FileMetaData}
use leveldb_surf.Db.Writes.{Batches, Writer, Answers, Db, build_batch_group, write_front}
use leveldb_surf.Db.Writes.Grouping.{IsBatches, all_updates, last_of, build_batch_group-eq}
use leveldb_surf.Db.Writes.Front.{writer_of, write_front-group}
use leveldb_surf.Db.Room.{Limits, Room, Event, room_pass, make_room_for_write}
use leveldb_surf.Db.Room.Passes.{PassIsRight, room_pass-PassIsRight, make_room_for_write-ok}
use leveldb_surf.Db.Obsolete.{
  FileType, LogNumbers, remove_obsolete_files, remove_obsolete_files-live,
}

-- A batch is the list of its updates.
abbrev lists : Batches (List ℕ)
lists = record { byte_size = length; count = length; empty = []; append = λ a b. a ++ b }

lists-IsBatches : IsBatches lists (λ b. b)
lists-IsBatches = record {
  entries-empty = refl;
  entries-append = λ a b. refl;
  count-eq = λ b. refl;
}

abbrev queue : List (Writer (List ℕ))
queue = writer_of 2 (30 ∷ []) false ∷ writer_of 3 (40 ∷ []) true ∷ []

build_batch_group-eq_example :
    (members : List (Writer (List ℕ))) × (rest : List (Writer (List ℕ))) × (queue ≡ members ++ rest)
    × ((build_batch_group lists (writer_of 1 (20 ∷ []) false) (20 ∷ []) queue).result
        ≡ (20 ∷ []) ++ all_updates (λ b. b) members)
    × ((build_batch_group lists (writer_of 1 (20 ∷ []) false) (20 ∷ []) queue).last_writer
        ≡ last_of (writer_of 1 (20 ∷ []) false) members)
    × (false ≡ false → All (λ w. w.sync ≡ false) members)
    × (1 ≤ 2 ^ 20
        → (build_batch_group lists (writer_of 1 (20 ∷ []) false) (20 ∷ []) queue).size ≤ 2 ^ 20)
build_batch_group-eq_example =
    build_batch_group-eq lists (λ b. b) lists-IsBatches (writer_of 1 (20 ∷ []) false) (20 ∷ [])
      queue

abbrev answers : Answers (List ℕ)
answers = record {
  add_record = λ b. Status.ok;
  sync_file = Status.ok;
  insert_into = λ b. Status.ok;
}

abbrev database : Db (List ℕ)
database = record { last_sequence = 100; bg_error = Status.ok; mem = []; writers = [] }

-- A writer that arrives while the lock is released.
abbrev late : List (Writer (List ℕ))
late = writer_of 4 (50 ∷ []) false ∷ []

write_front-group_example :
    (members : List (Writer (List ℕ))) × (rest : List (Writer (List ℕ))) × (queue ≡ members ++ rest)
    × ((write_front lists answers Status.ok (writer_of 1 (20 ∷ []) false) queue late database).1
        ≡ writer_of 1 (20 ∷ []) false ∷ members)
    × ((write_front lists answers Status.ok
          (writer_of 1 (20 ∷ []) false)
          queue
          late
          database).2.writers
        ≡ rest ++ late)
    × ((write_front lists answers Status.ok
          (writer_of 1 (20 ∷ []) false)
          queue
          late
          database).2.last_sequence
        ≡ 100 + length ((20 ∷ []) ++ all_updates (λ b. b) members))
write_front-group_example =
    write_front-group lists-IsBatches answers 1 (20 ∷ []) false queue late database
      ((refl, (refl, (refl, tt))), ((refl, (refl, tt)), ((refl, tt), (tt, tt))))

abbrev limits : Limits
limits = record { slowdown_trigger = 8; stop_trigger = 12; write_buffer_size = 1000 }

-- A full memtable, and no other one.
abbrev full : Room
full = record {
  bg_error = Status.ok;
  level0_files = 3;
  mem_usage = 2000;
  has_imm = false;
  next_file_number = 12;
  logfile_number = 5;
}

abbrev event : Event
event = record {
  new_status = Status.ok;
  close_status = Status.ok;
  empty_usage = 50;
  others = λ r. r;
}

room_pass-PassIsRight_example :
    PassIsRight limits false true full Status.ok
      (room_pass limits false true Status.ok Status.ok 50 full)
room_pass-PassIsRight_example = room_pass-PassIsRight limits false true Status.ok Status.ok 50 full

after_switch :
    make_room_for_write limits (event ∷ event ∷ []) false true full
    ≡ some (
      Status.ok,
      record full { mem_usage = 50; has_imm = true; next_file_number = 13; logfile_number = 12 },
    )
unfolding make_room_for_write
after_switch = refl

make_room_for_write-ok_example : (Status.ok ≡ Status.ok) × (50 ≤ 1000)
make_room_for_write-ok_example =
    make_room_for_write-ok limits (event ∷ event ∷ []) false true full
      (
        Status.ok,
        record full { mem_usage = 50; has_imm = true; next_file_number = 13; logfile_number = 12 },
      )
      after_switch refl

-- A name is its number; all are tables.
abbrev parse : Bytes → Option (ℕ × FileType)
parse [] = none
parse (n ∷ name) = some (n, FileType.table_file)

abbrev numbers : LogNumbers
numbers = record { log_number = 5; prev_log_number = 0; manifest_file_number = 2 }

abbrev version : ℕ → List (FileMetaData ℕ)
version zero = file 7 4 9 ∷ []
version (suc level) = []

nine_deleted :
    In
      (9 ∷ [])
      (remove_obsolete_files parse Status.ok numbers [] (version ∷ []) ((7 ∷ []) ∷ (9 ∷ []) ∷ [])).0
unfolding remove_obsolete_files
nine_deleted = inl refl

remove_obsolete_files-live_example : (file 7 4 9).number ≢ 9
remove_obsolete_files-live_example =
    remove_obsolete_files-live parse Status.ok numbers [] (version ∷ []) ((7 ∷ []) ∷ (9 ∷ []) ∷ [])
      (9 ∷ []) 9 version 0 (file 7 4 9) nine_deleted refl (inl refl) (omega arith) (inl refl)
