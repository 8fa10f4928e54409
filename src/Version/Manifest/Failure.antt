-- ===== src/Version/Manifest/Failure.antt =====
-- project/version_set.cc: VersionSet::LogAndApply where a write to an open descriptor fails, and
-- what VersionSet::Recover then makes of the descriptor.
use leveldb_surf.Base.Status.{Status}
use leveldb_surf.Filter.Policy.{Bytes}
use leveldb_surf.Version.Keys.{KeySpace}
use leveldb_surf.Version.Manifest.{Edit, Codec, Doubles, VersionSet, Disk, Answers, log_and_apply}
use leveldb_surf.Version.Manifest.History.{Logged}

-- No write fails.
abbrev pub all_succeed : Answers
all_succeed = record {
  new_writable_file = Status.ok;
  add_snapshot = Status.ok;
  add_record = Status.ok;
  sync = Status.ok;
  set_current_file = Status.ok;
  remove_file = Status.ok;
}

module _ {U I D R : Type 0} (ks : KeySpace U I) (dbl : Doubles D) (codec : Codec R I)
    (name : Bytes) where
  abbrev call : Answers → Edit I → VersionSet I D → Disk R → Status × VersionSet I D × Disk R
  call a edit vs disk = log_and_apply ks dbl codec name a edit vs disk
