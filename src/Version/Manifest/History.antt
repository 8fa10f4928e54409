-- ===== src/Version/Manifest/History.antt =====
-- project/version_set.cc: VersionSet::Recover after a history of calls of VersionSet::LogAndApply.
use leveldb_surf.Base.{
  ℕ, ◌<◌, ◌≡◌, refl, ap, sym, ◌∙◌, Bool, true, false, Option, none, List, [], ◌∷◌, ◌++◌, map,
  IsSorted, if◌then◌else◌, if_lem, arith, ◌==◌, ==_iff,
}
use leveldb_surf.Base.Status.{Status, is_ok}
use leveldb_surf.Filter.Policy.{Bytes}
use leveldb_surf.Version.Keys.{KeySpace, IsKeySpace}
use leveldb_surf.Version.Levels.{num_levels}
use leveldb_surf.Version.Builder.{apply, apply_pointers, apply_deletions, save_to}
use leveldb_surf.Version.Builder.Edits.{pointers_levels}
use leveldb_surf.Version.Builder.Strict.{Precedes}
use leveldb_surf.Version.Builder.Replay.{apply-IsStrict}
use leveldb_surf.Version.Manifest.{
  Edit, Codec, Doubles, Version, VersionSet, Disk, Answers, builder_of, write_snapshot,
  complete_edit, write_status, written_records, log_and_apply, snapshot_pointers,
}
use leveldb_surf.Version.Manifest.Snapshot.{state, files_added, save_added}
use leveldb_surf.Version.Manifest.Reread.{IsFresh, bytes_eq-same}
use leveldb_surf.Version.Manifest.Recovered.{new_records}
use leveldb_surf.Version.Manifest.Recover.{comparator_status}
use leveldb_surf.Version.Manifest.Logged.{Replays, Logs, installed, AddsNew, installed-Logs}

first_ok : (a b : Status) → is_ok (if is_ok a then b else a) ≡ true → is_ok a ≡ true
first_ok Status.ok b h = refl
first_ok Status.not_found b h = h
first_ok Status.corruption b h = h
first_ok Status.io_error b h = h
first_ok Status.invalid_argument b h = h

-- With an open descriptor, the record was added if all is well.
added_ok :
    (has_log : Bool) (x y add sync : Status)
    → has_log ≡ true
    → is_ok (
        if has_log
        then if is_ok (
            if is_ok (if has_log then Status.ok else x)
            then add
            else (if has_log then Status.ok else x))
          then sync
          else (if is_ok (if has_log then Status.ok else x)
              then add
              else (if has_log then Status.ok else x))
        else y)
      ≡ true
    → is_ok add ≡ true
added_ok true x y add sync h ok = first_ok add sync ok
added_ok false x y add sync h ok = absurd cc

module _ {U I D R : Type 0} (ks : KeySpace U I) (dbl : Doubles D) (codec : Codec R I)
    (name : Bytes) where
  log_and_apply-installed :
      (a : Answers) (edit : Edit I) (vs : VersionSet I D) (disk : Disk R)
      → is_ok (log_and_apply ks dbl codec name a edit vs disk).0 ≡ true
      → (log_and_apply ks dbl codec name a edit vs disk).1 ≡ installed ks dbl codec name edit vs
  unfolding log_and_apply
  log_and_apply-installed a edit vs disk =
      if_lem
        (λ (z : Status × VersionSet I D × Disk R).
          is_ok z.0 ≡ true → z.1 ≡ installed ks dbl codec name edit vs)
        (is_ok (write_status ks dbl codec name a vs)) (λ t ok. refl)
        (λ f ok. let c : false ≡ true = sym f ∙ ok in absurd cc)

  -- Between two calls of LogAndApply only numbers and compaction pointers change.
  abbrev pub SameVersion : VersionSet I D → VersionSet I D → Type 0
  SameVersion vs vs' =
      (vs'.current ≡ vs.current)
      × (vs'.log_number ≡ vs.log_number)
      × (vs'.prev_log_number ≡ vs.prev_log_number)

  abbrev pub encoded : List (Edit I) → List R
  encoded es = map codec.encode es

  -- The version set whose snapshot LogAndApply writes: Apply has set the edit's pointers in it.
  abbrev pub pointed : Edit I → VersionSet I D → VersionSet I D
  pointed edit0 vs =
      let b =
        apply ks (builder_of ks dbl codec name vs)
          (complete_edit ks dbl codec name edit0 vs).changes in
      record vs { compact_pointer = b.compact_pointer; allowed_seeks = b.allowed_seeks }

  snapshot_level :
      (k : IsKeySpace ks) (fresh vs : VersionSet I D) (l : ℕ)
      → ((l : ℕ) → IsSorted (Precedes ks) (vs.current.files l))
      → l < num_levels
      → (apply ks
            (builder_of ks dbl codec name fresh)
            (write_snapshot ks dbl codec name vs).changes).levels
          l
        ≡ state ks (vs.current.files l)
  unfolding apply write_snapshot apply_deletions
  snapshot_level k fresh vs l s h =
      let b =
        apply_pointers ks (builder_of ks dbl codec name fresh)
          (snapshot_pointers vs.compact_pointer num_levels 0) in
      files_added ks k b vs.current.files num_levels 0 l s
        (pointers_levels ks (builder_of ks dbl codec name fresh)
          (snapshot_pointers vs.compact_pointer num_levels 0) l)
        (omega arith) (omega arith)

  own_name :
      (vs : VersionSet I D)
      → comparator_status ks dbl codec name (write_snapshot ks dbl codec name vs).comparator
        ≡ Status.ok
  unfolding write_snapshot
  own_name vs = rw (bytes_eq-same name) refl

  snapshot-Replays :
      (k : IsKeySpace ks) (fresh vs : VersionSet I D) (pointers : ℕ → Option I) (seeks : ℕ → ℕ)
      → IsFresh ks dbl codec name fresh
      → ((l : ℕ) → IsSorted (Precedes ks) (vs.current.files l))
      → Replays ks dbl codec name fresh
          (write_snapshot ks dbl codec name
              (record vs { compact_pointer = pointers; allowed_seeks = seeks })
            ∷ [])
          vs
  unfolding save_to
  snapshot-Replays k fresh vs pointers seeks f s =
      let vs' = record vs { compact_pointer = pointers; allowed_seeks = seeks } in
      record {
        files = λ l h.
            rw (f.0 l, snapshot_level k fresh vs' l s h) (save_added ks (vs.current.files l));
        strict = λ l.
            apply-IsStrict k (builder_of ks dbl codec name fresh)
              (write_snapshot ks dbl codec name vs').changes l tt;
        named = (own_name vs', tt);
      }

  abbrev complete : Edit I → VersionSet I D → Edit I
  complete edit vs = complete_edit ks dbl codec name edit vs

  abbrev call : Answers → Edit I → VersionSet I D → Disk R → Status × VersionSet I D × Disk R
  call a edit vs disk = log_and_apply ks dbl codec name a edit vs disk

  -- The version sets after calls of LogAndApply that all succeed, with the edits and the records of
  -- the descriptor: the first call, which writes a snapshot, and more, each with an edit that adds
  -- to a level only files of numbers that this descriptor has not added there before. `fresh` is a
  -- new version set.
  pub data Logged (fresh : VersionSet I D) : VersionSet I D → List (Edit I) → List R → Type 0 where
    first :
        (a : Answers) (edit : Edit I) (vs : VersionSet I D) (disk : Disk R)
        → vs.has_descriptor ≡ false
        → ((l : ℕ) → IsSorted (Precedes ks) (vs.current.files l))
        → edit.comparator ≡ none
        → AddsNew ks dbl codec name fresh
            (write_snapshot ks dbl codec name (pointed edit vs) ∷ [])
            edit
        → is_ok (log_and_apply ks dbl codec name a edit vs disk).0 ≡ true
        → Logged fresh
            (log_and_apply ks dbl codec name a edit vs disk).1
            (write_snapshot ks dbl codec name (pointed edit vs)
              ∷ complete_edit ks dbl codec name edit vs
              ∷ [])
            ((log_and_apply ks dbl codec name a edit vs disk).2.manifests vs.manifest_file_number)
    next :
        (a : Answers) (edit : Edit I) (vs vs' : VersionSet I D) (disk : Disk R) (es : List (Edit I))
        (rs : List R)
        → Logged fresh vs es rs
        → SameVersion vs vs'
        → vs'.has_descriptor ≡ true
        → disk.manifests vs'.manifest_file_number ≡ rs
        → edit.comparator ≡ none
        → AddsNew ks dbl codec name fresh es edit
        → is_ok (log_and_apply ks dbl codec name a edit vs' disk).0 ≡ true
        → Logged fresh
            (log_and_apply ks dbl codec name a edit vs' disk).1
            (es ++ complete_edit ks dbl codec name edit vs' ∷ [])
            ((log_and_apply ks dbl codec name a edit vs' disk).2.manifests vs'.manifest_file_number)

  record_added :
      (a : Answers) (edit : Edit I) (vs : VersionSet I D) (records : List R)
      → vs.has_descriptor ≡ true
      → is_ok (write_status ks dbl codec name a vs) ≡ true
      → written_records ks dbl codec name a edit vs records ≡ records ++ codec.encode edit ∷ []
  record_added a edit vs records h ok =
      let Goal = λ (z : List R). z ≡ records ++ codec.encode edit ∷ [] in
      let added : is_ok a.add_record ≡ true =
        added_ok vs.has_descriptor _ _ a.add_record a.sync h ok in
      if_lem Goal vs.has_descriptor
        (λ t.
          if_lem Goal (is_ok a.add_record) (λ t. refl)
            (λ f. let c : false ≡ true = sym f ∙ added in absurd cc))
        (λ f. let c : false ≡ true = sym f ∙ h in absurd cc)

  records_after :
      (a : Answers) (edit : Edit I) (vs : VersionSet I D) (disk : Disk R)
      → is_ok (call a edit vs disk).0 ≡ true
      → (is_ok (write_status ks dbl codec name a vs) ≡ true)
        × ((call a edit vs disk).2.manifests vs.manifest_file_number
            ≡ written_records ks dbl codec name a
                (complete edit vs)
                (pointed edit vs)
                (disk.manifests vs.manifest_file_number))
  unfolding log_and_apply
  records_after a edit vs disk =
      let n = vs.manifest_file_number in
      let same : (n == n) ≡ true = (==_iff n n).1 refl in
      if_lem
        (λ (z : Status × VersionSet I D × Disk R).
          is_ok z.0 ≡ true
          → (is_ok (write_status ks dbl codec name a vs) ≡ true)
            × (z.2.manifests n
                ≡ written_records ks dbl codec name a (complete edit vs) (pointed edit vs)
                    (disk.manifests n)))
        (is_ok (write_status ks dbl codec name a vs)) (λ t ok. (t, rw same refl))
        (λ f ok. let c : false ≡ true = sym f ∙ ok in absurd cc)

  encoded-append :
      (es : List (Edit I)) (e : Edit I) → encoded es ++ codec.encode e ∷ [] ≡ encoded (es ++ e ∷ [])
  encoded-append [] e = refl
  encoded-append (x ∷ es) e = ap (◌∷◌ (codec.encode x)) (encoded-append es e)

  same_version :
      (fresh vs vs' : VersionSet I D) (es : List (Edit I))
      → SameVersion vs vs'
      → Replays ks dbl codec name fresh es vs
      → Replays ks dbl codec name fresh es vs'
  same_version fresh vs vs' es m h = record {
    files = λ l lt. h.files l lt ∙ ap (λ (v : Version I D). v.files l) (sym m.0);
    strict = h.strict;
    named = h.named;
  }

  -- The records of the descriptor are those of the edits, which a new version set replays.
  pub Logged-Logs :
      (k : IsKeySpace ks) (fresh : VersionSet I D)
      → IsFresh ks dbl codec name fresh
      → (vs : VersionSet I D) (es : List (Edit I)) (rs : List R) → Logged fresh vs es rs
      → Logs ks dbl codec name fresh es vs × (rs ≡ encoded es)
  Logged-Logs k fresh f _ _ _ (first a edit vs disk h s c n ok) =
      let (written, path) = records_after a edit vs disk ok in
      let p = pointed edit vs in
      let replays = snapshot-Replays k fresh vs p.compact_pointer p.allowed_seeks f s in
      (
        rw (log_and_apply-installed a edit vs disk ok) (
            installed-Logs ks dbl codec name k fresh (write_snapshot ks dbl codec name p ∷ []) edit
              vs f replays n c),
        path
            ∙ new_records ks dbl codec name a (complete edit vs) p
                (disk.manifests vs.manifest_file_number) h written,
      )
  Logged-Logs k fresh f _ _ _ (next a edit vs vs' disk es rs l m h e c n ok) =
      let (logs, old) = Logged-Logs k fresh f vs es rs l in
      let (written, path) = records_after a edit vs' disk ok in
      (
        rw (log_and_apply-installed a edit vs' disk ok) (
            installed-Logs ks dbl codec name k fresh es edit vs' f
              (same_version fresh vs vs' es m logs.replays) n c),
        path
            ∙ record_added a (complete edit vs') (pointed edit vs')
                (disk.manifests vs'.manifest_file_number) h written
            ∙ ap (λ xs. xs ++ codec.encode (complete edit vs') ∷ []) (e ∙ old)
            ∙ encoded-append es (complete edit vs'),
      )
