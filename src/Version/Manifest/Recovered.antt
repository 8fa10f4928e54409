-- ===== src/Version/Manifest/Recovered.antt =====
-- project/version_set.cc: VersionSet::Recover after VersionSet::LogAndApply.
use leveldb_surf.Base.{
  ℕ, ◌≡◌, refl, ap, ap₂, sym, ◌∙◌, Bool, true, false, not, ◌||◌, Option, none, some, List, [], ◌∷◌,
  IsSorted, ◌==◌, ==_iff, if◌then◌else◌, if_lem, leb,
}
use leveldb_surf.Base.Status.{Status, is_ok}
use leveldb_surf.Filter.Policy.{Bytes}
use leveldb_surf.Version.Keys.{KeySpace, IsKeySpace}
use leveldb_surf.Version.Builder.{
  Builder, apply, apply_pointers, apply_deletions, apply_additions, save_to,
}
use leveldb_surf.Version.Manifest.{
  Edit, Codec, Doubles, Version, VersionSet, Disk, Answers, empty_edit, builder_of, or_zero,
  mark_file_number_used, finalize, write_snapshot, complete_edit, write_status, written_records,
  log_and_apply,
}
use leveldb_surf.Version.Builder.Strict.{Precedes}
use leveldb_surf.Version.Manifest.Snapshot.{save_base}
use leveldb_surf.Version.Manifest.Recover.{
  Descriptor, Reuse, Read, manifest_name, read_records, reuse_manifest, recovered, install, recover,
}
use leveldb_surf.Version.Manifest.Reread.{
  IsFresh, Restores, replayed, replayed_files, replayed_pointers, numbers_edit, undamaged, start,
  complete, both_read,
}

module _ {U I D R : Type 0} (ks : KeySpace U I) (dbl : Doubles D) (codec : Codec R I)
    (name : Bytes) where
  pub reuse_any :
      (P : VersionSet I D → Type 0) (u : Reuse) (dscbase : Bytes) (vs : VersionSet I D)
      → P vs
      → ((n : ℕ) → P (record vs { has_descriptor = true; manifest_file_number = n }))
      → P (reuse_manifest ks dbl codec name u dscbase vs).1
  unfolding reuse_manifest
  reuse_any P u dscbase vs h g =
      if_lem (λ (z : Bool × VersionSet I D). P z.1) (not u.reuse_logs) (λ e. h)
        (λ e.
          elim (u.parse_file_name dscbase)
            as (λ (o : Option (ℕ × Bool)).
              P
                (elim o as (λ x. Bool × VersionSet I D) [
                  | none ↦ (false, vs)
                  | some file ↦
                      if not file.1
                        || not (is_ok u.file_size_status)
                        || leb u.target_file_size u.manifest_size
                      then (false, vs)
                      else if not (is_ok u.new_appendable_file)
                      then (false, vs)
                      else (
                        true,
                        record vs { has_descriptor = true; manifest_file_number = file.0 },
                      )
                ]).1) [
                  | none ↦ h
                  | some file ↦
                      if_lem (λ (z : Bool × VersionSet I D). P z.1)
                        (not file.1
                          || not (is_ok u.file_size_status)
                          || leb u.target_file_size u.manifest_size)
                        (λ e. h)
                        (λ e.
                          if_lem (λ (z : Bool × VersionSet I D). P z.1)
                            (not (is_ok u.new_appendable_file)) (λ e. h) (λ e. g file.0))
                ])

  -- What LogAndApply leaves of a version set, its descriptor aside.
  abbrev applied : Option ℕ → Option ℕ → VersionSet I D → VersionSet I D
  applied log prev_log vs = record vs {
    current = finalize dbl (save_to ks (builder_of ks dbl codec name vs) vs.current.files);
    log_number = or_zero ks dbl codec name (complete ks dbl codec name log prev_log vs).log_number;
    prev_log_number =
        or_zero ks dbl codec name (complete ks dbl codec name log prev_log vs).prev_log_number;
    has_descriptor = true;
  }

  pub mark-current :
      (n : ℕ) (vs : VersionSet I D)
      → (mark_file_number_used ks dbl codec name n vs).current ≡ vs.current
  unfolding mark_file_number_used
  mark-current n vs =
      if_lem (λ (z : VersionSet I D). z.current ≡ vs.current) (leb vs.next_file_number n)
        (λ e. refl) (λ e. refl)

  -- What the loop has read of the two records.
  abbrev read_of : Option ℕ → Option ℕ → VersionSet I D → VersionSet I D → Read I
  read_of log prev_log vs fresh = record {
    log_number =
        some (or_zero ks dbl codec name (complete ks dbl codec name log prev_log vs).log_number);
    prev_log_number =
        some
          (or_zero ks dbl codec name (complete ks dbl codec name log prev_log vs).prev_log_number);
    next_file = some vs.next_file_number;
    last_sequence = some vs.last_sequence;
    builder = replayed ks dbl codec name vs fresh;
  }

  recovered-Restores :
      (k : IsKeySpace ks) (log prev_log : Option ℕ) (vs fresh marked : VersionSet I D)
      → ((l : ℕ) → IsSorted (Precedes ks) (vs.current.files l))
      → IsFresh ks dbl codec name fresh
      → marked.current ≡ fresh.current
      → (has_descriptor : Bool) (n : ℕ)
      → Restores ks dbl codec name
          (applied log prev_log vs)
          (record (recovered ks dbl codec name (read_of log prev_log vs fresh) marked) {
            has_descriptor = has_descriptor;
            manifest_file_number = n;
          })
  unfolding recovered finalize
  recovered-Restores k log prev_log vs fresh marked s f m h n = (
    (λ l b.
        let saved : save_to ks (builder_of ks dbl codec name vs) vs.current.files l
            ≡ vs.current.files l =
          unfold save_to in save_base ks (vs.current.files l) in
        ap (λ (v : Version I D). save_to ks (replayed ks dbl codec name vs fresh) v.files l) m
        ∙ replayed_files ks dbl codec name k vs fresh s f l b
        ∙ sym saved),
    replayed_pointers ks dbl codec name vs fresh f,
    refl,
    refl,
    refl,
    refl,
  )

  pub new_records :
      (a : Answers) (edit : Edit I) (vs : VersionSet I D) (records : List R)
      → vs.has_descriptor ≡ false
      → is_ok (write_status ks dbl codec name a vs) ≡ true
      → written_records ks dbl codec name a edit vs records
        ≡ codec.encode (write_snapshot ks dbl codec name vs) ∷ codec.encode edit ∷ []
  new_records a edit vs records h ok =
      let Goal = λ (z : List R).
        z ≡ codec.encode (write_snapshot ks dbl codec name vs) ∷ codec.encode edit ∷ [] in
      if_lem Goal vs.has_descriptor (λ t. let c : false ≡ true = sym h ∙ t in absurd cc)
        (λ n.
          if_lem Goal (is_ok (write_status ks dbl codec name a vs)) (λ t. refl)
            (λ n. let c : false ≡ true = sym n ∙ ok in absurd cc))

  apply_nothing : (b : Builder I) → apply ks b empty_edit.changes ≡ b
  unfolding apply apply_pointers apply_deletions apply_additions
  apply_nothing b = refl

  log_and_apply-applied :
      (a : Answers) (log prev_log : Option ℕ) (vs : VersionSet I D) (disk : Disk R)
      → vs.has_descriptor ≡ false
      → is_ok
          (log_and_apply ks dbl codec name a
            (numbers_edit ks dbl codec name log prev_log)
            vs
            disk).0
        ≡ true
      → ((log_and_apply ks dbl codec name a (numbers_edit ks dbl codec name log prev_log) vs disk).1
          ≡ applied log prev_log vs)
        × ((log_and_apply ks dbl codec name a
                (numbers_edit ks dbl codec name log prev_log)
                vs
                disk).2.manifests
              vs.manifest_file_number
            ≡ codec.encode (write_snapshot ks dbl codec name vs)
              ∷ codec.encode (complete ks dbl codec name log prev_log vs)
              ∷ [])
  unfolding log_and_apply complete_edit
  log_and_apply-applied a log prev_log vs disk h =
      let n = vs.manifest_file_number in
      let same : (n == n) ≡ true = (==_iff n n).1 refl in
      rw (apply_nothing (builder_of ks dbl codec name vs)) (
        if_lem
          (λ (z : Status × VersionSet I D × Disk R).
            is_ok z.0 ≡ true
            → (z.1 ≡ applied log prev_log vs)
              × (z.2.manifests n
                  ≡ codec.encode (write_snapshot ks dbl codec name vs)
                    ∷ codec.encode (complete ks dbl codec name log prev_log vs)
                    ∷ []))
          (is_ok (write_status ks dbl codec name a vs))
          (λ t ok. (
            refl,
            rw same (
                new_records a (complete ks dbl codec name log prev_log vs) vs (disk.manifests n) h
                  t),
          ))
          (λ f ok. let c : false ≡ true = sym f ∙ ok in absurd cc))

  install-Restores :
      (k : IsKeySpace ks) (log prev_log : Option ℕ) (vs fresh : VersionSet I D) (u : Reuse)
      (dscbase : Bytes)
      → ((l : ℕ) → IsSorted (Precedes ks) (vs.current.files l))
      → IsFresh ks dbl codec name fresh
      → (is_ok
            (install ks dbl codec name u dscbase Status.ok (read_of log prev_log vs fresh) fresh).0
          ≡ true)
        × Restores ks dbl codec name
            (applied log prev_log vs)
            (install ks dbl codec name u dscbase Status.ok (read_of log prev_log vs fresh) fresh).1
  unfolding install
  install-Restores k log prev_log vs fresh u dscbase s f =
      let m = or_zero ks dbl codec name (complete ks dbl codec name log prev_log vs).log_number in
      let n =
        or_zero ks dbl codec name (complete ks dbl codec name log prev_log vs).prev_log_number in
      let once = mark_file_number_used ks dbl codec name n fresh in
      let marked = mark_file_number_used ks dbl codec name m once in
      let same = mark-current m once ∙ mark-current n fresh in
      let r = recovered ks dbl codec name (read_of log prev_log vs fresh) marked in
      (
        refl,
        reuse_any (Restores ks dbl codec name (applied log prev_log vs)) u dscbase r
            (recovered-Restores k log prev_log vs fresh marked s f same r.has_descriptor
              r.manifest_file_number)
            (λ n. recovered-Restores k log prev_log vs fresh marked s f same true n),
      )

  -- Recover, in a version set that is new, after LogAndApply in one that had no descriptor yet (so
  -- that it writes a snapshot and the edit) and an edit that only sets log numbers: the status is
  -- OK and the recovered set has the files and compaction pointers of all levels, the log numbers
  -- and the last sequence number that LogAndApply left, and the next file number plus one. It holds
  -- where LogAndApply succeeded, the files of every level are in BySmallestKey's strict order, the
  -- records are read back undamaged, and DecodeFrom gives back what EncodeTo
  -- wrote; the manifest may be reused or not.
  pub recover-log_and_apply :
      (k : IsKeySpace ks)
      → ((e : Edit I) → codec.decode (codec.encode e) ≡ (Status.ok, e))
      → (a : Answers) (log prev_log : Option ℕ) (vs fresh : VersionSet I D) (disk : Disk R)
        (d : Descriptor R) (u : Reuse) (dscbase : Bytes)
      → vs.has_descriptor ≡ false
      → ((l : ℕ) → IsSorted (Precedes ks) (vs.current.files l))
      → IsFresh ks dbl codec name fresh
      → is_ok
          (log_and_apply ks dbl codec name a
            (numbers_edit ks dbl codec name log prev_log)
            vs
            disk).0
        ≡ true
      → d.read_current ≡ Status.ok
      → manifest_name d.current ≡ some dscbase
      → d.new_sequential_file ≡ Status.ok
      → d.end_status ≡ Status.ok
      → d.records
        ≡ undamaged ks dbl codec name (
            (log_and_apply ks dbl codec name a
                (numbers_edit ks dbl codec name log prev_log)
                vs
                disk).2.manifests
              vs.manifest_file_number)
      → (is_ok (recover ks dbl codec name d u fresh).0 ≡ true)
        × Restores ks dbl codec name
            (log_and_apply ks dbl codec name a
              (numbers_edit ks dbl codec name log prev_log)
              vs
              disk).1
            (recover ks dbl codec name d u fresh).1
  unfolding recover install
  recover-log_and_apply k codec_ok a log prev_log vs fresh disk d u dscbase no_log s f ok rc mn nf
        es rs =
      let (after, written) = log_and_apply-applied a log prev_log vs disk no_log ok in
      let read =
        read_records ks dbl codec name d.records d.end_status (start ks dbl codec name fresh) in
      let path : read ≡ (Status.ok, read_of log prev_log vs fresh) =
        ap₂
          (λ (xs : List (Status × R)) (e : Status).
            read_records ks dbl codec name xs e (start ks dbl codec name fresh))
          (rs ∙ ap (undamaged ks dbl codec name) written) es
        ∙ both_read ks dbl codec name codec_ok log prev_log vs fresh in
      let installs : recover ks dbl codec name d u fresh
          ≡ install ks dbl codec name u dscbase Status.ok (read_of log prev_log vs fresh) fresh =
        rw (rc, mn, nf, path) refl in
      rw (installs, after) (install-Restores k log prev_log vs fresh u dscbase s f)
