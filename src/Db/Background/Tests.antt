-- ===== src/Db/Background/Tests.antt =====
-- Runs of the scheduling.
use leveldb_surf.Base.{
  ℕ, ◌+◌, ◌≡◌, refl, sym, true, false, none, some, List, [], ◌∷◌, ltb, ◌==◌, if◌then◌else◌,
}
use leveldb_surf.Base.Status.{Status}
use leveldb_surf.Samples.Keys.{numbers, file}
use leveldb_surf.Version.Files.{FileMetaData}
use leveldb_surf.Version.Levels.{overlap_in_level}
use leveldb_surf.Version.Files.{some_file_overlaps_range, find_file}
use leveldb_surf.Db.Background.{
  Background, Calls, maybe_schedule_compaction, background_call, compact_range_levels,
}
use leveldb_surf.Db.Background.Live.{
  Reachable, IsLive, opened, step, switch_memtable, Reachable-IsLive,
}

-- The versions are the number of files at level 0, of which three need a compaction to none.
abbrev calls : Calls ℕ ℕ ℕ
calls = record {
  needs_compaction = λ v. ltb 2 v;
  write_level0_table = λ v. Status.ok;
  install_memtable = λ v. (Status.ok, v + 1);
  compact_range = λ m v. (none, v);
  pick_compaction = λ v. (if ltb 2 v then some 0 else none, v);
  is_trivial_move = λ c. false;
  move_file = λ c v. (Status.ok, v);
  last_input_largest = λ c. 0;
  work = λ c b. (Status.ok, record b { versions = 0 });
}

abbrev idle : Background ℕ ℕ
idle = record {
  shutting_down = false;
  bg_error = Status.ok;
  has_imm = false;
  manual_compaction = none;
  returned = none;
  background_compaction_scheduled = false;
  queued = 0;
  versions = 2;
}

abbrev switched : Background ℕ ℕ
switched = record idle { has_imm = true; background_compaction_scheduled = true; queued = 1 }

after_open : maybe_schedule_compaction calls idle ≡ idle
unfolding maybe_schedule_compaction
after_open = refl

after_switch : maybe_schedule_compaction calls (record idle { has_imm = true }) ≡ switched
unfolding maybe_schedule_compaction
after_switch = refl

-- The memtable becomes the third file, so that the call schedules the next; that one compacts them.
after_flush :
    background_call calls (record switched { queued = 0 })
    ≡ record switched { has_imm = false; versions = 3 }
unfolding background_call
after_flush = refl

after_compaction :
    background_call calls (record switched { has_imm = false; versions = 3; queued = 0 })
    ≡ record idle { versions = 0 }
unfolding background_call
after_compaction = refl

idle-Reachable : Reachable calls idle
idle-Reachable = rw (sym after_open) (opened idle refl refl)

switched-Reachable : Reachable calls switched
switched-Reachable =
    step idle switched idle-Reachable (rw (sym after_switch) (switch_memtable idle refl))

Reachable-IsLive_example : IsLive calls switched
Reachable-IsLive_example = Reachable-IsLive calls (λ c b s. refl) switched switched-Reachable

-- Files at levels 0 and 2: a range that meets the latter is compacted from levels 0 and 1.
abbrev files : ℕ → List (FileMetaData ℕ)
files l = if l == 0 then file 7 4 9 ∷ [] else if l == 2 then file 5 0 30 ∷ [] else []

levels_of_range : compact_range_levels numbers files (some 5) none ≡ some (0 ∷ 1 ∷ [])
unfolding compact_range_levels overlap_in_level some_file_overlaps_range find_file
levels_of_range = refl
