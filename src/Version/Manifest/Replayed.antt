-- ===== src/Version/Manifest/Replayed.antt =====
-- project/version_set.cc: VersionSet::Recover from the descriptor of any history.
use leveldb_surf.Base.{ℕ, ◌<◌, ◌≡◌, refl, ap, ap₂, ◌∙◌, Bool, true, none, some, List, [], ◌∷◌, All}
use leveldb_surf.Base.Status.{Status, is_ok}
use leveldb_surf.Filter.Policy.{Bytes}
use leveldb_surf.Version.Keys.{KeySpace, IsKeySpace}
use leveldb_surf.Version.Levels.{num_levels}
use leveldb_surf.Version.Builder.{save_to}
use leveldb_surf.Version.Manifest.{
  Edit, Codec, Doubles, Version, VersionSet, builder_of, mark_file_number_used, finalize,
}
use leveldb_surf.Version.Manifest.Reread.{IsFresh, undamaged}
use leveldb_surf.Version.Manifest.Recovered.{reuse_any, mark-current}
use leveldb_surf.Version.Manifest.Recover.{
  Descriptor, Reuse, Read, newest, manifest_name, comparator_status, read_records, recovered,
  install, recover,
}
use leveldb_surf.Version.Manifest.Logged.{replay, last_set, Logs, builder}
use leveldb_surf.Version.Manifest.History.{Logged, Logged-Logs, encoded}

module _ {U I D R : Type 0} (ks : KeySpace U I) (dbl : Doubles D) (codec : Codec R I)
    (name : Bytes) where
  -- `got` has the files of all levels and the log numbers of `vs`.
  abbrev pub SameFiles : VersionSet I D → VersionSet I D → Type 0
  SameFiles vs got =
      ((l : ℕ) → l < num_levels → got.current.files l ≡ vs.current.files l)
      × (got.log_number ≡ vs.log_number)
      × (got.prev_log_number ≡ vs.prev_log_number)

  abbrev after_edits : List (Edit I) → Read I → Read I
  after_edits es r = record {
    log_number = last_set ks dbl codec name (λ e. e.log_number) es r.log_number;
    prev_log_number = last_set ks dbl codec name (λ e. e.prev_log_number) es r.prev_log_number;
    next_file = last_set ks dbl codec name (λ e. e.next_file_number) es r.next_file;
    last_sequence = last_set ks dbl codec name (λ e. e.last_sequence) es r.last_sequence;
    builder = replay ks dbl codec name r.builder es;
  }

  records_read :
      (codec_ok : (e : Edit I) → codec.decode (codec.encode e) ≡ (Status.ok, e))
      → (es : List (Edit I)) (r : Read I)
      → All (λ e. comparator_status ks dbl codec name e.comparator ≡ Status.ok) es
      → read_records ks dbl codec name
          (undamaged ks dbl codec name (encoded ks dbl codec name es))
          Status.ok
          r
        ≡ (Status.ok, after_edits es r)
  unfolding read_records
  records_read codec_ok [] r n = refl
  records_read codec_ok (e ∷ es) r n =
      rw (codec_ok e, n.0)
        (records_read codec_ok es
          (record {
            log_number = newest e.log_number r.log_number;
            prev_log_number = newest e.prev_log_number r.prev_log_number;
            next_file = newest e.next_file_number r.next_file;
            last_sequence = newest e.last_sequence r.last_sequence;
            builder = _;
          })
          n.1)

  abbrev start : VersionSet I D → Read I
  start fresh = record {
    log_number = none;
    prev_log_number = none;
    next_file = none;
    last_sequence = none;
    builder = builder_of ks dbl codec name fresh;
  }

  recovered-SameFiles :
      (fresh vs marked : VersionSet I D) (es : List (Edit I)) (next sequence : ℕ)
      → Logs ks dbl codec name fresh es vs
      → marked.current ≡ fresh.current
      → (has_descriptor : Bool) (n : ℕ)
      → SameFiles vs
          (record (recovered ks dbl codec name
            (record {
              log_number = some vs.log_number;
              prev_log_number = some vs.prev_log_number;
              next_file = some next;
              last_sequence = some sequence;
              builder = builder ks dbl codec name fresh es;
            })
            marked) { has_descriptor = has_descriptor; manifest_file_number = n })
  unfolding recovered finalize
  recovered-SameFiles fresh vs marked es next sequence logs m h n = (
    (λ l b.
        ap (λ (v : Version I D). save_to ks (builder ks dbl codec name fresh es) v.files l) m
        ∙ logs.replays.files l b),
    refl,
    refl,
  )

  install-SameFiles :
      (fresh vs : VersionSet I D) (es : List (Edit I)) (u : Reuse) (dscbase : Bytes)
      → Logs ks dbl codec name fresh es vs
      → (is_ok
            (install ks dbl codec name u dscbase Status.ok (after_edits es (start fresh)) fresh).0
          ≡ true)
        × SameFiles vs
            (install ks dbl codec name u dscbase Status.ok (after_edits es (start fresh)) fresh).1
  unfolding install
  install-SameFiles fresh vs es u dscbase logs =
      let (next, next_set) = logs.next_set in
      let (sequence, sequence_set) = logs.sequence_set in
      let once = mark_file_number_used ks dbl codec name vs.prev_log_number fresh in
      let marked = mark_file_number_used ks dbl codec name vs.log_number once in
      let same =
        mark-current ks dbl codec name vs.log_number once
        ∙ mark-current ks dbl codec name vs.prev_log_number fresh in
      let r : Read I = record {
        log_number = some vs.log_number;
        prev_log_number = some vs.prev_log_number;
        next_file = some next;
        last_sequence = some sequence;
        builder = builder ks dbl codec name fresh es;
      } in
      let v = recovered ks dbl codec name r marked in
      rw (logs.log_set, logs.prev_set, next_set, sequence_set)
        (
          refl,
          reuse_any ks dbl codec name (SameFiles vs) u dscbase v
              (recovered-SameFiles fresh vs marked es next sequence logs same v.has_descriptor
                v.manifest_file_number)
              (λ n. recovered-SameFiles fresh vs marked es next sequence logs same true n),
        )

  -- After any history of successful calls of LogAndApply on a descriptor, the first of which writes
  -- the snapshot, Recover from its records in a new version set is OK and gives the files of every
  -- level and the log numbers of the version set in memory. Each edit adds to a level only files of
  -- numbers that the descriptor has not added to that level before, the snapshot's files are in
  -- BySmallestKey's strict order, the records are read back undamaged, and DecodeFrom gives back
  -- what EncodeTo wrote.
  pub recover-Logged :
      (k : IsKeySpace ks)
      → ((e : Edit I) → codec.decode (codec.encode e) ≡ (Status.ok, e))
      → (fresh vs : VersionSet I D) (es : List (Edit I)) (rs : List R) (d : Descriptor R)
        (u : Reuse) (dscbase : Bytes)
      → IsFresh ks dbl codec name fresh
      → Logged ks dbl codec name fresh vs es rs
      → d.read_current ≡ Status.ok
      → manifest_name d.current ≡ some dscbase
      → d.new_sequential_file ≡ Status.ok
      → d.end_status ≡ Status.ok
      → d.records ≡ undamaged ks dbl codec name rs
      → (is_ok (recover ks dbl codec name d u fresh).0 ≡ true)
        × SameFiles vs (recover ks dbl codec name d u fresh).1
  unfolding recover
  recover-Logged k codec_ok fresh vs es rs d u dscbase f l rc mn nf es_ok recs =
      let (logs, path) = Logged-Logs ks dbl codec name k fresh f vs es rs l in
      let read : read_records ks dbl codec name d.records d.end_status (start fresh)
          ≡ (Status.ok, after_edits es (start fresh)) =
        ap₂
          (λ (xs : List (Status × R)) (e : Status).
            read_records ks dbl codec name xs e (start fresh))
          (recs ∙ ap (undamaged ks dbl codec name) path) es_ok
        ∙ records_read codec_ok es (start fresh) logs.replays.named in
      let installs : recover ks dbl codec name d u fresh
          ≡ install ks dbl codec name u dscbase Status.ok (after_edits es (start fresh)) fresh =
        rw (rc, mn, nf, read) refl in
      rw installs (install-SameFiles fresh vs es u dscbase logs)
