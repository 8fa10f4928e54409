-- ===== src/Version/Manifest.antt =====
-- project/version_set.cc: VersionSet::LogAndApply, WriteSnapshot, Finalize, Recover, ReuseManifest
-- and MarkFileNumberUsed.
pub mod Recover
pub mod Snapshot
pub mod Reread
pub mod Recovered
pub mod Logged
pub mod History
pub mod Replayed
pub mod Scores
pub mod Failure
mod Tests
use mathlib.Core.Option
use leveldb_surf.Base.{
  ℕ, zero, suc, ◌+◌, Bool, true, false, not, ◌&&◌, ◌||◌, Option, none, some, List, [], ◌∷◌, ◌++◌,
  map, length, ltb, leb, ◌==◌, if◌then◌else◌,
}
use leveldb_surf.Base.Status.{Status, is_ok}
use leveldb_surf.Filter.Policy.{Bytes}
use leveldb_surf.Table.{bytes_eq}
use leveldb_surf.Version.Keys.{KeySpace}
use leveldb_surf.Version.Files.{FileMetaData}
use leveldb_surf.Version.Levels.{num_levels, total_file_size, max_bytes_for_level}
use leveldb_surf.Version.Builder.{VersionEdit, Builder, update, apply, save_to}

-- class VersionEdit (db/version_edit.h, not in this repository) with its optional fields; `changes`
-- are those that the builder reads.
pub record Edit (I : Type 0) : Type 0 where
  pub comparator : Option Bytes
  pub log_number : Option ℕ
  pub prev_log_number : Option ℕ
  pub next_file_number : Option ℕ
  pub last_sequence : Option ℕ
  pub changes : VersionEdit I

abbrev pub empty_edit : {I : Type 0} → Edit I
empty_edit = record {
  comparator = none;
  log_number = none;
  prev_log_number = none;
  next_file_number = none;
  last_sequence = none;
  changes = record { compact_pointers = []; deleted_files = []; new_files = [] };
}

-- EncodeTo and DecodeFrom of db/version_edit.cc, not in this repository.
pub record Codec (R I : Type 0) : Type 0 where
  pub encode : Edit I → R
  pub decode : R → Status × Edit I

-- The arithmetic of doubles that Finalize uses: the two quotients, and `>`.
pub record Doubles (D : Type 0) : Type 0 where
  pub minus_one : D
  pub files_over_trigger : ℕ → D
  pub bytes_over_limit : ℕ → ℕ → D
  pub gt : D → D → Bool

-- class Version, without its place in the list of versions; the level is none for -1.
pub record Version (I D : Type 0) : Type 0 where
  pub files : ℕ → List (FileMetaData I)
  pub compaction_level : Option ℕ
  pub compaction_score : D

-- class VersionSet; `has_descriptor` tells that `descriptor_log_` and `descriptor_file_` are not
-- null. The counters of seeks belong to the files, by number.
pub record VersionSet (I D : Type 0) : Type 0 where
  pub next_file_number : ℕ
  pub manifest_file_number : ℕ
  pub last_sequence : ℕ
  pub log_number : ℕ
  pub prev_log_number : ℕ
  pub has_descriptor : Bool
  pub compact_pointer : ℕ → Option I
  pub allowed_seeks : ℕ → ℕ
  pub current : Version I D

-- The descriptor files by number, with the records that their logs hold, and what CURRENT names.
pub record Disk (R : Type 0) : Type 0 where
  pub manifests : ℕ → List R
  pub current_file : Option ℕ

-- What the file operations of LogAndApply answer.
pub record Answers : Type 0 where
  pub new_writable_file : Status
  pub add_snapshot : Status
  pub add_record : Status
  pub sync : Status
  pub set_current_file : Status
  pub remove_file : Status

-- One level of WriteSnapshot's two loops.
abbrev pub pointer_of : {I : Type 0} → ℕ → Option I → List (ℕ × I)
pointer_of level none = []
pointer_of level (some key) = (level, key) ∷ []

unfoldable pub snapshot_pointers : {I : Type 0} → (ℕ → Option I) → ℕ → ℕ → List (ℕ × I)
snapshot_pointers pointers zero level = []
snapshot_pointers pointers (suc left) level =
    pointer_of level (pointers level) ++ snapshot_pointers pointers left (level + 1)

unfoldable pub snapshot_files :
    {I : Type 0} → (ℕ → List (FileMetaData I)) → ℕ → ℕ → List (ℕ × FileMetaData I)
snapshot_files files zero level = []
snapshot_files files (suc left) level =
    map (λ f. (level, f)) (files level) ++ snapshot_files files left (level + 1)

-- The score of a level, and the loop of Finalize from a level on with the best so far.
module _ {D : Type 0} (dbl : Doubles D) where
  unfoldable pub level_score : {I : Type 0} → (ℕ → List (FileMetaData I)) → ℕ → D
  unfolding total_file_size max_bytes_for_level
  level_score files zero = dbl.files_over_trigger (length (files 0))
  level_score files (suc level) =
      dbl.bytes_over_limit (total_file_size (files (suc level))) (max_bytes_for_level (suc level))

  unfoldable pub best_score :
      {I : Type 0} → (ℕ → List (FileMetaData I)) → ℕ → ℕ → Option ℕ → D → Option ℕ × D
  unfolding level_score
  best_score files zero level best score = (best, score)
  best_score files (suc left) level best score =
      let here = level_score files level in
      let taken = best_score files left (level + 1) (some level) here in
      let rest = best_score files left (level + 1) best score in
      if dbl.gt here score then taken else rest

  unfoldable pub finalize : {I : Type 0} → (ℕ → List (FileMetaData I)) → Version I D
  unfolding best_score
  finalize files =
      let best = best_score files 6 0 none dbl.minus_one in
      record { files = files; compaction_level = best.0; compaction_score = best.1 }

module _ {U I D R : Type 0} (ks : KeySpace U I) (dbl : Doubles D) (codec : Codec R I)
    (comparator_name : Bytes) where
  -- WriteSnapshot: the edit that it encodes.
  unfoldable pub write_snapshot : VersionSet I D → Edit I
  unfolding snapshot_pointers snapshot_files
  write_snapshot vs = record empty_edit {
    comparator = some comparator_name;
    changes = record {
      compact_pointers = snapshot_pointers vs.compact_pointer num_levels 0;
      deleted_files = [];
      new_files = snapshot_files vs.current.files num_levels 0;
    };
  }

  -- The constructor of Builder, with what Apply changes outside the builder.
  abbrev pub builder_of : VersionSet I D → Builder I
  builder_of vs = record {
    levels = λ level. record { deleted_files = []; added_files = [] };
    compact_pointer = vs.compact_pointer;
    allowed_seeks = vs.allowed_seeks;
  }

  abbrev pub or_else : Option ℕ → ℕ → Option ℕ
  or_else o n = elim o [ none ↦ some n | some m ↦ some m ]

  abbrev pub or_zero : Option ℕ → ℕ
  or_zero o = elim o [ none ↦ 0 | some n ↦ n ]

  -- The numbers that LogAndApply sets in the edit. Its asserts on a given log number are left out.
  unfoldable pub complete_edit : Edit I → VersionSet I D → Edit I
  complete_edit edit vs = record edit {
    log_number = or_else edit.log_number vs.log_number;
    prev_log_number = or_else edit.prev_log_number vs.prev_log_number;
    next_file_number = some vs.next_file_number;
    last_sequence = some vs.last_sequence;
  }

  -- `if (s.ok()) s = …`
  abbrev pub and_then : Status → Status → Status
  and_then s next = if is_ok s then next else s

  -- The status of the writes to the descriptor, the new one's snapshot first.
  abbrev pub write_status : Answers → VersionSet I D → Status
  write_status a vs =
      let opened =
        if vs.has_descriptor then Status.ok else and_then a.new_writable_file a.add_snapshot in
      let written = and_then (and_then opened a.add_record) a.sync in
      if vs.has_descriptor then written else and_then written a.set_current_file

  -- What a new descriptor holds after the writes, up to the first that fails. NewWritableFile
  -- empties the file.
  abbrev pub new_records_written : Answers → Edit I → VersionSet I D → List R → List R
  new_records_written a edit vs records =
      let snapshot = codec.encode (write_snapshot vs) ∷ [] in
      if not (is_ok a.new_writable_file)
      then records
      else if not (is_ok a.add_snapshot)
      then []
      else if is_ok a.add_record
      then snapshot ++ codec.encode edit ∷ []
      else snapshot

  -- What the descriptor holds after the writes; a record is there if AddRecord was OK, and a new
  -- file is removed again on an error, if RemoveFile can.
  abbrev pub written_records : Answers → Edit I → VersionSet I D → List R → List R
  written_records a edit vs records =
      let snapshot = codec.encode (write_snapshot vs) ∷ [] in
      let record_of = codec.encode edit ∷ [] in
      if vs.has_descriptor
      then if is_ok a.add_record then records ++ record_of else records
      else if is_ok (write_status a vs)
      then snapshot ++ record_of
      else if is_ok a.remove_file
      then []
      else new_records_written a edit vs records

  unfoldable pub log_and_apply :
      Answers → Edit I → VersionSet I D → Disk R → Status × VersionSet I D × Disk R
  log_and_apply a edit0 vs0 disk =
      let edit = complete_edit edit0 vs0 in
      let b = apply ks (builder_of vs0) edit.changes in
      let v = finalize dbl (save_to ks b vs0.current.files) in
      let vs = record vs0 {
        compact_pointer = b.compact_pointer;
        allowed_seeks = b.allowed_seeks;
      } in
      let n = vs0.manifest_file_number in
      let s = write_status a vs0 in
      let disk' = record disk {
        manifests = update disk.manifests n (written_records a edit vs (disk.manifests n));
        current_file = if is_ok s && not vs0.has_descriptor then some n else disk.current_file;
      } in
      if is_ok s
      then (
        s,
        record vs {
          current = v;
          log_number = or_zero edit.log_number;
          prev_log_number = or_zero edit.prev_log_number;
          has_descriptor = true;
        },
        disk',
      )
      else (s, vs, disk')

  -- MarkFileNumberUsed.
  unfoldable pub mark_file_number_used : ℕ → VersionSet I D → VersionSet I D
  mark_file_number_used number vs =
      if leb vs.next_file_number number then record vs { next_file_number = number + 1 } else vs
