-- ===== src/Version/Manifest/Tests.antt =====
-- Runs of LogAndApply and Recover on two levels of files.
use leveldb_surf.Base.{
  ℕ, ◌+◌, ◌*◌, ◌/◌, ◌≡◌, refl, true, false, Option, none, some, List, [], ◌∷◌, ◌++◌, subst, ==_iff,
  ltb, ◌==◌, if◌then◌else◌, arith, if_lem, IsSorted,
}
use leveldb_surf.Base.Status.{Status, is_ok}
use leveldb_surf.Filter.Policy.{Bytes}
use leveldb_surf.Samples.Keys.{numbers, numbers-IsKeySpace, file}
use leveldb_surf.Version.Files.{FileMetaData}
use leveldb_surf.Version.Builder.{by_smallest_key, apply}
use leveldb_surf.Version.Builder.Added.{AllNew, files_at}
use leveldb_surf.Version.Manifest.{
  Edit, Codec, Doubles, VersionSet, Disk, Answers, empty_edit, finalize, write_snapshot,
  complete_edit, log_and_apply,
}
use leveldb_surf.Version.Builder.Strict.{Precedes}
use leveldb_surf.Version.Manifest.Recover.{Descriptor, Reuse, manifest_name, recover}
use leveldb_surf.Version.Manifest.Reread.{Restores, numbers_edit, undamaged}
use leveldb_surf.Version.Manifest.Recovered.{recover-log_and_apply}
use leveldb_surf.Version.Manifest.Logged.{AddsNew, builder}
use leveldb_surf.Version.Manifest.History.{Logged, first, next, pointed}
use leveldb_surf.Version.Manifest.Replayed.{SameFiles, recover-Logged}
use leveldb_surf.Version.Manifest.Scores.{IsDoubles, IsBest, finalize-IsBest}

-- Scores in thousandths, with -1 below all.
abbrev doubles : Doubles ℕ
doubles = record {
  minus_one = 0;
  files_over_trigger = λ n. n * 250 + 1;
  bytes_over_limit = λ bytes limit. bytes * 1000 / limit + 1;
  gt = λ a b. ltb b a;
}

doubles-IsDoubles : IsDoubles doubles
doubles-IsDoubles = record {
  gt_irrefl = λ a. ground arith;
  gt_trans = λ a b c h k. ground arith;
  gt_between = λ a b c h. ground arith;
  files-above = λ n. ground arith;
}

-- The records are the edits.
abbrev codec : Codec (Edit ℕ) ℕ
codec = record { encode = λ e. e; decode = λ e. (Status.ok, e) }

abbrev files : ℕ → List (FileMetaData ℕ)
files l = if l == 0 then file 7 4 9 ∷ file 8 6 20 ∷ [] else if l == 2 then file 5 0 30 ∷ [] else []

files-IsSorted : (l : ℕ) → IsSorted (Precedes numbers) (files l)
unfolding by_smallest_key
files-IsSorted l =
    if_lem (IsSorted (Precedes numbers)) (l == 0) (λ e. ((refl, tt), (tt, tt)))
      (λ n. if_lem (IsSorted (Precedes numbers)) (l == 2) (λ e. (tt, tt)) (λ n. tt))

abbrev set_of : (ℕ → List (FileMetaData ℕ)) → (ℕ → Option ℕ) → VersionSet ℕ ℕ
set_of fs pointers = record {
  next_file_number = 9;
  manifest_file_number = 3;
  last_sequence = 100;
  log_number = 4;
  prev_log_number = 0;
  has_descriptor = false;
  compact_pointer = pointers;
  allowed_seeks = λ n. 0;
  current = record { files = fs; compaction_level = none; compaction_score = 0 };
}

abbrev before : VersionSet ℕ ℕ
before = set_of files (λ l. if l == 2 then some 11 else none)

abbrev fresh : VersionSet ℕ ℕ
fresh = set_of (λ l. []) (λ l. none)

abbrev disk : Disk (Edit ℕ)
disk = record { manifests = λ n. []; current_file = some 1 }

abbrev all_ok : Answers
all_ok = record {
  new_writable_file = Status.ok;
  add_snapshot = Status.ok;
  add_record = Status.ok;
  sync = Status.ok;
  set_current_file = Status.ok;
  remove_file = Status.ok;
}

abbrev name : Bytes
name = 99 ∷ []

abbrev descriptor : Descriptor (Edit ℕ)
descriptor = record {
  read_current = Status.ok;
  current = 77 ∷ 51 ∷ 10 ∷ [];
  new_sequential_file = Status.ok;
  records = undamaged numbers doubles codec name (
      (log_and_apply numbers doubles codec name all_ok
          (numbers_edit numbers doubles codec name (some 8) none) before disk).2.manifests
        3);
  end_status = Status.ok;
}

abbrev no_reuse : Reuse
no_reuse = record {
  reuse_logs = false;
  parse_file_name = λ n. none;
  file_size_status = Status.ok;
  manifest_size = 0;
  target_file_size = 1000;
  new_appendable_file = Status.ok;
}

written_ok :
    is_ok
      (log_and_apply numbers doubles codec name all_ok
        (numbers_edit numbers doubles codec name (some 8) none)
        before
        disk).0
    ≡ true
unfolding log_and_apply
written_ok = refl

named : manifest_name (77 ∷ 51 ∷ 10 ∷ []) ≡ some (77 ∷ 51 ∷ [])
unfolding manifest_name
named = refl

recover-log_and_apply_example :
    (is_ok (recover numbers doubles codec name descriptor no_reuse fresh).0 ≡ true)
    × Restores numbers doubles codec name
        (log_and_apply numbers doubles codec name all_ok
          (numbers_edit numbers doubles codec name (some 8) none)
          before
          disk).1
        (recover numbers doubles codec name descriptor no_reuse fresh).1
recover-log_and_apply_example =
    recover-log_and_apply numbers doubles codec name numbers-IsKeySpace (λ e. refl) all_ok (some 8)
      none before fresh disk descriptor no_reuse (77 ∷ 51 ∷ []) refl files-IsSorted
      ((λ l. refl), (λ l. refl)) written_ok refl named refl refl refl

finalize-IsBest_example :
    IsBest doubles files 6
      ((finalize doubles files).compaction_level, (finalize doubles files).compaction_score)
finalize-IsBest_example = finalize-IsBest doubles files doubles-IsDoubles

-- A history: the first edit moves a file down to level 1, the second replaces it there.
abbrev edit_of : List (ℕ × ℕ) → List (ℕ × FileMetaData ℕ) → Edit ℕ
edit_of deleted added = record empty_edit {
  log_number = some 8;
  changes = record { compact_pointers = []; deleted_files = deleted; new_files = added };
}

abbrev edit1 : Edit ℕ
edit1 = edit_of ((0, 7) ∷ []) ((1, file 7 4 9) ∷ [])

abbrev edit2 : Edit ℕ
edit2 = edit_of ((1, 7) ∷ []) ((1, file 9 5 9) ∷ [])

abbrev run1 : Status × VersionSet ℕ ℕ × Disk (Edit ℕ)
run1 = log_and_apply numbers doubles codec name all_ok edit1 before disk

abbrev run2 : Status × VersionSet ℕ ℕ × Disk (Edit ℕ)
run2 = log_and_apply numbers doubles codec name all_ok edit2 run1.1 run1.2

abbrev edits1 : List (Edit ℕ)
edits1 =
    write_snapshot numbers doubles codec name (pointed numbers doubles codec name edit1 before)
    ∷ complete_edit numbers doubles codec name edit1 before
    ∷ []

abbrev edits2 : List (Edit ℕ)
edits2 = edits1 ++ complete_edit numbers doubles codec name edit2 run1.1 ∷ []

run1_ok : is_ok run1.0 ≡ true
unfolding log_and_apply
run1_ok = refl

run2_ok : is_ok run2.0 ≡ true
unfolding log_and_apply
run2_ok = refl

run1_open : run1.1.has_descriptor ≡ true
unfolding log_and_apply
run1_open = refl

-- An edit that adds one file to level 1 adds only new numbers if there it does.
only_level1 :
    (added : ℕ → List (FileMetaData ℕ)) (f : FileMetaData ℕ)
    → AllNew numbers (added 1) (f ∷ [])
    → (l : ℕ) → AllNew numbers (added l) (files_at numbers l ((1, f) ∷ []))
only_level1 added f h l =
    if_lem (λ (fs : List (FileMetaData ℕ)). AllNew numbers (added l) fs) (1 == l)
      (λ e. subst (λ (i : ℕ). AllNew numbers (added i) (f ∷ [])) ((==_iff 1 l).0 e) h) (λ n. tt)

new1 :
    AddsNew numbers doubles codec name fresh
      (write_snapshot numbers doubles codec name (pointed numbers doubles codec name edit1 before)
        ∷ [])
      edit1
unfolding write_snapshot apply complete_edit
new1 l h =
    only_level1
      (λ i.
        ((builder numbers doubles codec name fresh (
            write_snapshot numbers doubles codec name
              (pointed numbers doubles codec name edit1 before)
            ∷ [])).levels
          i).added_files)
      (file 7 4 9) (tt, tt) l

new2 : AddsNew numbers doubles codec name fresh edits1 edit2
unfolding write_snapshot apply complete_edit
new2 l h =
    only_level1 (λ i. ((builder numbers doubles codec name fresh edits1).levels i).added_files)
      (file 9 5 9) (((λ e. absurd (omega (arith, e))), tt), tt) l

logged1 : Logged numbers doubles codec name fresh run1.1 edits1 (run1.2.manifests 3)
logged1 = first all_ok edit1 before disk refl files-IsSorted refl new1 run1_ok

logged2 : Logged numbers doubles codec name fresh run2.1 edits2 (run2.2.manifests 3)
unfolding log_and_apply
logged2 =
    next all_ok edit2 run1.1 run1.1 run1.2 edits1 (run1.2.manifests 3) logged1 (refl, refl, refl)
      run1_open refl refl new2 run2_ok

abbrev descriptor2 : Descriptor (Edit ℕ)
descriptor2 = record descriptor {
  records = undamaged numbers doubles codec name (run2.2.manifests 3);
}

recover-Logged_example :
    (is_ok (recover numbers doubles codec name descriptor2 no_reuse fresh).0 ≡ true)
    × SameFiles numbers doubles codec name run2.1
        (recover numbers doubles codec name descriptor2 no_reuse fresh).1
recover-Logged_example =
    recover-Logged numbers doubles codec name numbers-IsKeySpace (λ e. refl) fresh run2.1 edits2
      (run2.2.manifests 3) descriptor2 no_reuse (77 ∷ 51 ∷ []) ((λ l. refl), (λ l. refl)) logged2
      refl named refl refl refl

-- The second edit, where Sync fails.
abbrev no_sync : Answers
no_sync = record all_ok { sync = Status.io_error }

abbrev run3 : Status × VersionSet ℕ ℕ × Disk (Edit ℕ)
run3 = log_and_apply numbers doubles codec name no_sync edit2 run1.1 run1.2

abbrev descriptor3 : Descriptor (Edit ℕ)
descriptor3 = record descriptor {
  records = undamaged numbers doubles codec name (run3.2.manifests run1.1.manifest_file_number);
}
