-- ===== src/Version/Manifest/Logged.antt =====
-- project/version_set.cc: VersionSet::Recover after any number of calls of VersionSet::LogAndApply.
use leveldb_surf.Base.{
  ℕ, ◌<◌, ◌≡◌, refl, ap, ◌∙◌, true, Option, none, some, List, [], ◌∷◌, ◌++◌, All, All-append,
  IsSorted,
}
use leveldb_surf.Base.Status.{Status}
use leveldb_surf.Filter.Policy.{Bytes}
use leveldb_surf.Version.Keys.{KeySpace, IsKeySpace}
use leveldb_surf.Version.Files.{FileMetaData}
use leveldb_surf.Version.Levels.{num_levels}
use leveldb_surf.Version.Builder.{Builder, apply, save_files, save_to}
use leveldb_surf.Version.Builder.Strict.{Precedes}
use leveldb_surf.Version.Builder.Added.{AllNew, files_at}
use leveldb_surf.Version.Builder.Replay.{apply-IsStrict, save_to-apply}
use leveldb_surf.Version.Manifest.{
  Edit, Codec, Doubles, VersionSet, builder_of, or_else, or_zero, finalize, complete_edit,
}
use leveldb_surf.Version.Manifest.Reread.{IsFresh}
use leveldb_surf.Version.Manifest.Recover.{newest, comparator_status}

module _ {U I D R : Type 0} (ks : KeySpace U I) (dbl : Doubles D) (codec : Codec R I)
    (name : Bytes) where
  -- What the records make of a builder, and the last value of a number that they set.
  abbrev pub replay : Builder I → List (Edit I) → Builder I
  replay b [] = b
  replay b (e ∷ es) = replay (apply ks b e.changes) es

  abbrev pub last_set : (Edit I → Option ℕ) → List (Edit I) → Option ℕ → Option ℕ
  last_set field [] o = o
  last_set field (e ∷ es) o = last_set field es (newest (field e) o)

  pub replay-append :
      (b : Builder I) (es : List (Edit I)) (e : Edit I)
      → replay b (es ++ e ∷ []) ≡ apply ks (replay b es) e.changes
  replay-append b [] e = refl
  replay-append b (x ∷ es) e = replay-append (apply ks b x.changes) es e

  pub last_set-append :
      (field : Edit I → Option ℕ) (es : List (Edit I)) (e : Edit I) (o : Option ℕ)
      → last_set field (es ++ e ∷ []) o ≡ newest (field e) (last_set field es o)
  last_set-append field [] e o = refl
  last_set-append field (x ∷ es) e o = last_set-append field es e (newest (field x) o)

  abbrev pub builder : VersionSet I D → List (Edit I) → Builder I
  builder fresh es = replay (builder_of ks dbl codec name fresh) es

  -- A new version set that replays the records has the files; and the log numbers.
  pub record Replays (fresh : VersionSet I D) (es : List (Edit I)) (vs : VersionSet I D)
      : Type 0 where
    pub files :
        (l : ℕ)
        → l < num_levels
        → save_to ks (builder fresh es) fresh.current.files l ≡ vs.current.files l
    pub strict : (l : ℕ) → IsSorted (Precedes ks) ((builder fresh es).levels l).added_files
    pub named : All (λ e. comparator_status ks dbl codec name e.comparator ≡ Status.ok) es

  pub record Logs (fresh : VersionSet I D) (es : List (Edit I)) (vs : VersionSet I D) : Type 0 where
    pub replays : Replays fresh es vs
    pub log_set : last_set (λ e. e.log_number) es none ≡ some vs.log_number
    pub prev_set : last_set (λ e. e.prev_log_number) es none ≡ some vs.prev_log_number
    pub next_set : (n : ℕ) × (last_set (λ e. e.next_file_number) es none ≡ some n)
    pub sequence_set : (n : ℕ) × (last_set (λ e. e.last_sequence) es none ≡ some n)

  number_set :
      (o : Option ℕ) (n : ℕ) (old : Option ℕ)
      → newest (or_else ks dbl codec name o n) old
        ≡ some (or_zero ks dbl codec name (or_else ks dbl codec name o n))
  number_set none n old = refl
  number_set (some m) n old = refl

  -- What LogAndApply leaves of the version set when it succeeds.
  abbrev pub installed : Edit I → VersionSet I D → VersionSet I D
  installed edit0 vs =
      let edit = complete_edit ks dbl codec name edit0 vs in
      let b = apply ks (builder_of ks dbl codec name vs) edit.changes in
      record vs {
        compact_pointer = b.compact_pointer;
        allowed_seeks = b.allowed_seeks;
        current = finalize dbl (save_to ks b vs.current.files);
        log_number = or_zero ks dbl codec name edit.log_number;
        prev_log_number = or_zero ks dbl codec name edit.prev_log_number;
        has_descriptor = true;
      }

  -- The edit adds files of numbers that no record has added to the same level.
  abbrev pub AddsNew : VersionSet I D → List (Edit I) → Edit I → Type 0
  AddsNew fresh es edit =
      (l : ℕ)
      → l < num_levels
      → AllNew ks ((builder fresh es).levels l).added_files (files_at ks l edit.changes.new_files)

  saved_on :
      (b : Builder I) (base base' : ℕ → List (FileMetaData I)) (l : ℕ)
      → base l ≡ base' l
      → save_to ks b base l ≡ save_to ks b base' l
  unfolding save_to
  saved_on b base base' l e =
      ap
        (λ (fs : List (FileMetaData I)).
          save_files ks (b.levels l).deleted_files [] fs (b.levels l).added_files)
        e

  pub installed-Logs :
      (k : IsKeySpace ks) (fresh : VersionSet I D) (es : List (Edit I)) (edit : Edit I)
      (vs : VersionSet I D)
      → IsFresh ks dbl codec name fresh
      → Replays fresh es vs
      → AddsNew fresh es edit
      → edit.comparator ≡ none
      → Logs fresh (es ++ complete_edit ks dbl codec name edit vs ∷ []) (installed edit vs)
  unfolding complete_edit finalize
  installed-Logs k fresh es edit vs f h n c =
      let e = complete_edit ks dbl codec name edit vs in
      let b = builder fresh es in
      let path : builder fresh (es ++ e ∷ []) ≡ apply ks b edit.changes =
        replay-append (builder_of ks dbl codec name fresh) es e in
      record {
        replays = record {
          files = λ l lt.
              let first = builder_of ks dbl codec name vs in
              ap (λ x. save_to ks x fresh.current.files l) path
              ∙ save_to-apply k b edit.changes l first fresh.current.files refl (f.0 l) (h.strict l)
                  (n l lt)
              ∙ saved_on (apply ks first edit.changes) (save_to ks b fresh.current.files)
                  vs.current.files l (h.files l lt);
          strict = λ l. rw path (apply-IsStrict k b edit.changes l (h.strict l));
          named =
              All-append (λ e. comparator_status ks dbl codec name e.comparator ≡ Status.ok) es
                (e ∷ []) h.named (ap (comparator_status ks dbl codec name) c, tt);
        };
        log_set =
            last_set-append (λ e. e.log_number) es e none
            ∙ number_set edit.log_number vs.log_number _;
        prev_set =
            last_set-append (λ e. e.prev_log_number) es e none
            ∙ number_set edit.prev_log_number vs.prev_log_number _;
        next_set = (vs.next_file_number, last_set-append (λ e. e.next_file_number) es e none);
        sequence_set = (vs.last_sequence, last_set-append (λ e. e.last_sequence) es e none);
      }
