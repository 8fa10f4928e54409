-- ===== src/Db/Work/Tests.antt =====
-- Runs of a compaction of two user keys.
use leveldb_surf.Base.{
  ◌≤◌, ℕ, ◌-◌, ◌/◌, ◌%◌, ◌≡◌, refl, true, false, none, some, List, [], ◌∷◌, ◌++◌, length, ◌==◌,
  if◌then◌else◌, if_lem, arith, inr,
}
use leveldb_surf.Base.Status.{Status, is_ok}
use leveldb_surf.Samples.Keys.{numbers, numbers-IsKeySpace, file}
use leveldb_surf.Version.Files.{FileMetaData}
use leveldb_surf.Version.Files.Overlap.{IsDisjoint}
use leveldb_surf.Version.Levels.{max_grand_parent_overlap_bytes}
use leveldb_surf.Version.Outputs.{should_stop_before, is_base_level_for_key}
use leveldb_surf.Db.Work.{ParsedInternalKey, Job, TableBuilder, World, Work}
use leveldb_surf.Db.Work.Visible.{kept, first_cursor, SeesSame}
use leveldb_surf.Db.Work.Reads.{kept-visible}
use leveldb_surf.Db.Work.Outputs.{IsTableBuilder, table_entries}
use leveldb_surf.Version.Builder.{VersionEdit}
use leveldb_surf.Version.Compaction.{Compaction, add_input_deletions}
use leveldb_surf.Db.Work.Install.{cleanup_compaction, do_compaction_work}
use leveldb_surf.Db.Work.Results.{AreFiles, do_compaction_work-edit}

-- Four versions to a user key, the third of which is a deletion.
abbrev parsed : ℕ → ParsedInternalKey ℕ
parsed i = record { user_key = i / 4; sequence = 3 - i % 4; is_deletion = i % 4 == 2 }

-- Level 3 has the user keys 2 to 4; two files of level 0 overlap.
abbrev files : ℕ → List (FileMetaData ℕ)
files l = if l == 3 then file 7 8 19 ∷ [] else if l == 0 then file 8 0 20 ∷ file 9 4 30 ∷ [] else []

files-IsDisjoint : (l : ℕ) → 3 ≤ l → IsDisjoint numbers (files l)
files-IsDisjoint l h =
    if_lem (IsDisjoint numbers) (l == 3) (λ e. ((λ h. ground arith), tt, tt))
      (λ e. if_lem (IsDisjoint numbers) (l == 0) (λ z. absurd (ground arith)) (λ z. tt))

abbrev job : Job ℕ ℕ
job = record {
  parse = λ i. some (parsed i);
  max_sequence = 100;
  target = 1000;
  max_output_file_size = 3;
  level = 1;
  files = files;
  grandparents = [];
  smallest_snapshot = 1;
}

abbrev input : List (ℕ × ℕ)
input = (4, 40) ∷ (5, 50) ∷ (6, 60) ∷ (7, 70) ∷ (9, 90) ∷ (10, 0) ∷ (11, 110) ∷ []

-- The builder is the list of its entries.
abbrev builder : TableBuilder (List (ℕ × ℕ)) ℕ ℕ
builder = record {
  new_table_builder = [];
  add = λ key value b. b ++ (key, value) ∷ [];
  num_entries = length;
  file_size = length;
  finish = λ b. (Status.ok, b);
}

builder-IsTableBuilder : IsTableBuilder builder (λ b. b)
builder-IsTableBuilder = record {
  entries-new = refl;
  entries-add = λ key value b. refl;
  length-entries = λ b. refl;
  entries-finish = λ b. refl;
}

abbrev world : World
world = record {
  new_writable_file = λ n. Status.ok;
  sync = λ n. Status.ok;
  close = λ n. Status.ok;
  verify = λ n size. Status.ok;
  input_status = λ left. Status.ok;
  shutting_down = λ left. false;
  others = λ left n. n;
}

abbrev start : Work ℕ ℕ (List (ℕ × ℕ))
start = record {
  outputs = [];
  builder = none;
  total_bytes = 0;
  tables = [];
  pending_outputs = [];
  next_file_number = 20;
  progress = record { grandparent_index = 0; seen_key = false; overlapped_bytes = 0 };
  cursor = first_cursor numbers job;
}

-- The deletion of key 1 goes, with the older version; that of key 2 stays.
kept_keys :
    kept numbers job input (first_cursor numbers job) ≡ (4, 40) ∷ (5, 50) ∷ (9, 90) ∷ (10, 0) ∷ []
unfolding kept is_base_level_for_key
kept_keys = refl

abbrev versions : List (ℕ × ℕ)
versions = (5, 50) ∷ (6, 60) ∷ (7, 70) ∷ []

kept-visible_example :
    SeesSame numbers parsed job 1 1 versions (kept numbers job versions (first_cursor numbers job))
kept-visible_example =
    kept-visible numbers-IsKeySpace job parsed files-IsDisjoint 1 1 versions (omega arith)
      (omega arith)
      (
        (inr (refl, omega arith), (inr (refl, omega arith), tt)),
        ((inr (refl, omega arith), tt), (tt, tt)),
      )
      (refl, (refl, (refl, tt)))

abbrev compaction : Compaction ℕ
compaction = record {
  level = 1;
  inputs0 = file 11 4 7 ∷ [];
  inputs1 = file 12 9 11 ∷ [];
  grandparents = [];
  compact_pointer = 7;
}

abbrev no_changes : VersionEdit ℕ
no_changes = record { compact_pointers = []; deleted_files = []; new_files = [] }

work_ok :
    is_ok (do_compaction_work numbers job builder world compaction no_changes input start).0 ≡ true
unfolding do_compaction_work is_base_level_for_key should_stop_before max_grand_parent_overlap_bytes
work_ok = refl

do_compaction_work-edit_example :
    (files : List (ℕ × FileMetaData ℕ)) × ((do_compaction_work numbers job builder world compaction
        no_changes input start).1
      ≡ some
          (record no_changes { deleted_files = add_input_deletions compaction; new_files = files }))
    × AreFiles numbers job builder
        (λ b. b)
        world
        1
        files
        (do_compaction_work numbers job builder world compaction no_changes input start).3.tables
    × (table_entries numbers job builder
          (λ b. b)
          (do_compaction_work numbers job builder world compaction no_changes input start).3.tables
        ≡ kept numbers job input (first_cursor numbers job))
do_compaction_work-edit_example =
    do_compaction_work-edit numbers job builder (λ b. b) world builder-IsTableBuilder compaction
      no_changes input start refl refl refl refl work_ok

-- Two files of level 2 and their statistics; after the clean-up nothing is pending.
work_edit :
    (do_compaction_work numbers job builder world compaction no_changes input start).1
    ≡ some (record {
      compact_pointers = [];
      deleted_files = (1, 11) ∷ (2, 12) ∷ [];
      new_files =
          (2, record { number = 20; file_size = 3; smallest = 4; largest = 9 })
          ∷ (2, record { number = 21; file_size = 1; smallest = 10; largest = 10 })
          ∷ [];
    })
unfolding do_compaction_work is_base_level_for_key should_stop_before max_grand_parent_overlap_bytes
    add_input_deletions
work_edit = refl

pending_after :
    cleanup_compaction numbers job builder world
      (do_compaction_work numbers job builder world compaction no_changes input start).3
    ≡ []
unfolding cleanup_compaction do_compaction_work is_base_level_for_key should_stop_before
    max_grand_parent_overlap_bytes
pending_after = refl
