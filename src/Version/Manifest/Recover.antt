-- ===== src/Version/Manifest/Recover.antt =====
-- project/version_set.cc: VersionSet::Recover and ReuseManifest.
use leveldb_surf.Base.{
  ℕ, ◌+◌, Bool, true, false, not, ◌||◌, Option, none, some, List, [], ◌∷◌, leb, ◌==◌, if◌then◌else◌,
}
use leveldb_surf.Base.Status.{Status, is_ok}
use leveldb_surf.Filter.Policy.{Bytes}
use leveldb_surf.Table.{bytes_eq}
use leveldb_surf.Version.Keys.{KeySpace}
use leveldb_surf.Version.Builder.{Builder, apply, save_to}
use leveldb_surf.Version.Manifest.{
  Codec, Doubles, VersionSet, builder_of, or_zero, and_then, finalize, mark_file_number_used,
}

-- The bytes of CURRENT without the newline at their end; none without one.
unfoldable pub manifest_name : Bytes → Option Bytes
manifest_name [] = none
manifest_name (c ∷ []) = if c == 10 then some [] else none
manifest_name (c ∷ d ∷ cs) = elim (manifest_name (d ∷ cs)) [
  | none ↦ none
  | some name ↦ some (c ∷ name)
]

-- What the files give Recover: CURRENT, the descriptor that it names, and what the log reader
-- reports with each record and at the end.
pub record Descriptor (R : Type 0) : Type 0 where
  pub read_current : Status
  pub current : Bytes
  pub new_sequential_file : Status
  pub records : List (Status × R)
  pub end_status : Status

-- What ReuseManifest asks: `parse_file_name` gives the number and whether it is a descriptor's
-- name.
pub record Reuse : Type 0 where
  pub reuse_logs : Bool
  pub parse_file_name : Bytes → Option (ℕ × Bool)
  pub file_size_status : Status
  pub manifest_size : ℕ
  pub target_file_size : ℕ
  pub new_appendable_file : Status

-- The variables of Recover's loop, those with a `have_` flag as options.
pub record Read (I : Type 0) : Type 0 where
  pub log_number : Option ℕ
  pub prev_log_number : Option ℕ
  pub next_file : Option ℕ
  pub last_sequence : Option ℕ
  pub builder : Builder I

abbrev pub is_not_found : Status → Bool
is_not_found Status.not_found = true
is_not_found _ = false

abbrev pub newest : Option ℕ → Option ℕ → Option ℕ
newest o old = elim o [ none ↦ old | some n ↦ some n ]

module _ {U I D R : Type 0} (ks : KeySpace U I) (dbl : Doubles D) (codec : Codec R I)
    (comparator_name : Bytes) where
  abbrev pub comparator_status : Option Bytes → Status
  comparator_status none = Status.ok
  comparator_status (some name) =
      if bytes_eq name comparator_name then Status.ok else Status.invalid_argument

  -- The body of the loop for one record.
  unfoldable pub read_record : R → Read I → Status × Read I
  unfolding apply
  read_record record_bytes r =
      let decoded = codec.decode record_bytes in
      let edit = decoded.1 in
      let s = and_then ks dbl codec comparator_name decoded.0 (comparator_status edit.comparator) in
      (
        s,
        record {
          log_number = newest edit.log_number r.log_number;
          prev_log_number = newest edit.prev_log_number r.prev_log_number;
          next_file = newest edit.next_file_number r.next_file;
          last_sequence = newest edit.last_sequence r.last_sequence;
          builder = if is_ok s then apply ks r.builder edit.changes else r.builder;
        },
      )

  -- `while (reader.ReadRecord(&record, &scratch) && s.ok())`, entered with an OK status.
  unfoldable pub read_records : List (Status × R) → Status → Read I → Status × Read I
  unfolding read_record
  read_records [] end_status r = (end_status, r)
  read_records ((reported, record_bytes) ∷ records) end_status r =
      let body = read_record record_bytes r in
      let rest = read_records records end_status body.1 in
      if is_ok reported then if is_ok body.0 then rest else body else (reported, r)

  -- ReuseManifest, with whether it succeeds.
  unfoldable pub reuse_manifest : Reuse → Bytes → VersionSet I D → Bool × VersionSet I D
  reuse_manifest u dscbase vs =
      if not u.reuse_logs then (false, vs) else elim (u.parse_file_name dscbase) [
        | none ↦ (false, vs)
        | some file ↦
            if not file.1
              || not (is_ok u.file_size_status)
              || leb u.target_file_size u.manifest_size
            then (false, vs)
            else if not (is_ok u.new_appendable_file)
            then (false, vs)
            else (true, record vs { has_descriptor = true; manifest_file_number = file.0 })
      ]

  -- The meta entries that are missing.
  abbrev pub missing_entry : Read I → Status
  missing_entry r = elim r.next_file [
    | none ↦ Status.corruption
    | some n ↦ elim r.log_number [
      | none ↦ Status.corruption
      | some m ↦ elim r.last_sequence [ none ↦ Status.corruption | some l ↦ Status.ok ]
    ]
  ]

  -- The version set with the recovered version and numbers.
  unfoldable pub recovered : Read I → VersionSet I D → VersionSet I D
  recovered r vs =
      let zero_of = or_zero ks dbl codec comparator_name in
      record vs {
        compact_pointer = r.builder.compact_pointer;
        allowed_seeks = r.builder.allowed_seeks;
        current = finalize dbl (save_to ks r.builder vs.current.files);
        manifest_file_number = zero_of r.next_file;
        next_file_number = zero_of r.next_file + 1;
        last_sequence = zero_of r.last_sequence;
        log_number = zero_of r.log_number;
        prev_log_number = zero_of r.prev_log_number;
      }

  -- Recover from the end of its loop on: the status, the version set and `*save_manifest`.
  unfoldable pub install :
      Reuse → Bytes → Status → Read I → VersionSet I D → Status × VersionSet I D × Bool
  install u dscbase s0 r vs0 =
      let zero_of = or_zero ks dbl codec comparator_name in
      let s = and_then ks dbl codec comparator_name s0 (missing_entry r) in
      let marked =
        mark_file_number_used ks dbl codec comparator_name (zero_of r.log_number)
          (mark_file_number_used ks dbl codec comparator_name (zero_of r.prev_log_number) vs0) in
      let vs = if is_ok s0 then marked else vs0 in
      let reused = reuse_manifest u dscbase (recovered r vs) in
      if is_ok s then (s, reused.1, not reused.0) else (
        s,
        record vs {
          compact_pointer = r.builder.compact_pointer;
          allowed_seeks = r.builder.allowed_seeks;
        },
        false,
      )

  unfoldable pub recover : Descriptor R → Reuse → VersionSet I D → Status × VersionSet I D × Bool
  recover d u vs =
      let start : Read I = record {
        log_number = none;
        prev_log_number = none;
        next_file = none;
        last_sequence = none;
        builder = builder_of ks dbl codec comparator_name vs;
      } in
      let read = read_records d.records d.end_status start in
      if not (is_ok d.read_current)
      then (d.read_current, vs, false)
      else elim (manifest_name d.current) [
        | none ↦ (Status.corruption, vs, false)
        | some dscbase ↦
            if is_ok d.new_sequential_file then install u dscbase read.0 read.1 vs else (
              if is_not_found d.new_sequential_file
                  then Status.corruption
                  else d.new_sequential_file,
              vs,
              false,
            )
      ]
