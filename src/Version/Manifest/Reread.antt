-- ===== src/Version/Manifest/Reread.antt =====
-- project/version_set.cc: the records of a snapshot and an edit without changes, as
-- VersionSet::Recover reads them.
use leveldb_surf.Base.{
  ℕ, ◌+◌, ◌<◌, ◌≡◌, refl, ap, ap₂, ◌∙◌, true, Option, none, some, List, [], ◌∷◌, IsSorted, ==_iff,
  arith,
}
use leveldb_surf.Base.Status.{Status}
use leveldb_surf.Filter.Policy.{Bytes}
use leveldb_surf.Table.{bytes_eq}
use leveldb_surf.Version.Keys.{KeySpace, IsKeySpace}
use leveldb_surf.Version.Levels.{num_levels}
use leveldb_surf.Version.Builder.{
  Builder, apply, apply_pointers, apply_deletions, apply_additions, save_to,
}
use leveldb_surf.Version.Builder.Edits.{pointers_levels}
use leveldb_surf.Version.Manifest.{
  Edit, Codec, Doubles, VersionSet, empty_edit, builder_of, or_else, or_zero, write_snapshot,
  complete_edit, snapshot_files, snapshot_pointers,
}
use leveldb_surf.Version.Builder.Strict.{Precedes}
use leveldb_surf.Version.Manifest.Snapshot.{
  save_added, state, files_added, pointers_set, additions_pointers,
}
use leveldb_surf.Version.Manifest.Recover.{Read, newest, read_records}

pub bytes_eq-same : (b : Bytes) → bytes_eq b b ≡ true
bytes_eq-same [] = refl
bytes_eq-same (x ∷ xs) = rw ((==_iff x x).1 refl) (bytes_eq-same xs)

module _ {U I D R : Type 0} (ks : KeySpace U I) (dbl : Doubles D) (codec : Codec R I)
    (name : Bytes) where
  -- A version set that has recovered nothing yet, as its constructor makes it.
  abbrev pub IsFresh : VersionSet I D → Type 0
  IsFresh vs = ((l : ℕ) → vs.current.files l ≡ []) × ((l : ℕ) → vs.compact_pointer l ≡ none)

  -- `got` has the files, pointers and numbers of `vs`, and counts the descriptor's number as used.
  abbrev pub Restores : VersionSet I D → VersionSet I D → Type 0
  Restores vs got =
      ((l : ℕ) → l < num_levels → got.current.files l ≡ vs.current.files l)
      × ((l : ℕ) → l < num_levels → got.compact_pointer l ≡ vs.compact_pointer l)
      × (got.log_number ≡ vs.log_number)
      × (got.prev_log_number ≡ vs.prev_log_number)
      × (got.last_sequence ≡ vs.last_sequence)
      × (got.next_file_number ≡ vs.next_file_number + 1)

  -- The builder after the snapshot and an edit without changes.
  abbrev pub replayed : VersionSet I D → VersionSet I D → Builder I
  replayed vs fresh =
      apply ks
        (apply ks (builder_of ks dbl codec name fresh)
          (write_snapshot ks dbl codec name vs).changes)
        empty_edit.changes

  pub replayed_files :
      (k : IsKeySpace ks) (vs fresh : VersionSet I D)
      → ((l : ℕ) → IsSorted (Precedes ks) (vs.current.files l))
      → IsFresh fresh
      → (l : ℕ) → l < num_levels
      → save_to ks (replayed vs fresh) fresh.current.files l ≡ vs.current.files l
  unfolding apply write_snapshot save_to apply_additions apply_pointers apply_deletions
  replayed_files k vs fresh s f l h =
      let b =
        apply_pointers ks (builder_of ks dbl codec name fresh)
          (snapshot_pointers vs.compact_pointer num_levels 0) in
      let e : b.levels l ≡ state ks [] =
        pointers_levels ks (builder_of ks dbl codec name fresh)
          (snapshot_pointers vs.compact_pointer num_levels 0) l in
      rw (f.0 l, files_added ks k b vs.current.files num_levels 0 l s e (omega arith) (omega arith))
        (save_added ks (vs.current.files l))

  pub replayed_pointers :
      (vs fresh : VersionSet I D)
      → IsFresh fresh
      → (l : ℕ) → l < num_levels
      → (replayed vs fresh).compact_pointer l ≡ vs.compact_pointer l
  unfolding apply write_snapshot apply_additions apply_pointers apply_deletions
  replayed_pointers vs fresh f l h =
      let b =
        apply_pointers ks (builder_of ks dbl codec name fresh)
          (snapshot_pointers vs.compact_pointer num_levels 0) in
      ap (λ p. p l) (additions_pointers ks b (snapshot_files vs.current.files num_levels 0))
      ∙ pointers_set ks (builder_of ks dbl codec name fresh) vs.compact_pointer num_levels 0 l
          (f.1 l) (omega arith) (omega arith)

  -- An edit that only carries log numbers, as DBImpl::Open makes it after a clean recovery.
  abbrev pub numbers_edit : Option ℕ → Option ℕ → Edit I
  numbers_edit log prev_log = record empty_edit { log_number = log; prev_log_number = prev_log }

  -- The descriptor's records as the log reader gives them, all undamaged.
  abbrev pub undamaged : List R → List (Status × R)
  undamaged [] = []
  undamaged (r ∷ rs) = (Status.ok, r) ∷ undamaged rs

  abbrev pub start : VersionSet I D → Read I
  start fresh = record {
    log_number = none;
    prev_log_number = none;
    next_file = none;
    last_sequence = none;
    builder = builder_of ks dbl codec name fresh;
  }

  abbrev pub complete : Option ℕ → Option ℕ → VersionSet I D → Edit I
  complete log prev_log vs = complete_edit ks dbl codec name (numbers_edit log prev_log) vs

  number_set :
      (o : Option ℕ) (n : ℕ)
      → newest (or_else ks dbl codec name o n) none
        ≡ some (or_zero ks dbl codec name (or_else ks dbl codec name o n))
  number_set none n = refl
  number_set (some m) n = refl

  pub both_read :
      (codec_ok : (e : Edit I) → codec.decode (codec.encode e) ≡ (Status.ok, e))
      → (log prev_log : Option ℕ) (vs fresh : VersionSet I D)
      → read_records ks dbl codec name
          (undamaged (
            codec.encode (write_snapshot ks dbl codec name vs)
            ∷ codec.encode (complete log prev_log vs)
            ∷ []))
          Status.ok
          (start fresh)
        ≡ (
          Status.ok,
          record {
            log_number = some (or_zero ks dbl codec name (complete log prev_log vs).log_number);
            prev_log_number =
                some (or_zero ks dbl codec name (complete log prev_log vs).prev_log_number);
            next_file = some vs.next_file_number;
            last_sequence = some vs.last_sequence;
            builder = replayed vs fresh;
          },
        )
  unfolding read_records write_snapshot complete_edit
  both_read codec_ok log prev_log vs fresh =
      rw
        (
          codec_ok (write_snapshot ks dbl codec name vs),
          codec_ok (complete log prev_log vs),
          bytes_eq-same name,
        )
        (ap₂
          (λ (m n : Option ℕ). (
            Status.ok,
            record {
              log_number = m;
              prev_log_number = n;
              next_file = some vs.next_file_number;
              last_sequence = some vs.last_sequence;
              builder = replayed vs fresh;
            },
          ))
          (number_set log vs.log_number) (number_set prev_log vs.prev_log_number))
