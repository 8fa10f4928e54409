-- ===== src/Db/Obsolete.antt =====
-- project/db_impl.cc: DBImpl::RemoveObsoleteFiles, and project/version_set.cc:
-- VersionSet::AddLiveFiles.
use leveldb_surf.Base.{
  ℕ, zero, suc, ◌+◌, Bool, true, false, ◌||◌, Option, none, some, List, [], ◌∷◌, ◌++◌, map, leb,
  ◌==◌, if◌then◌else◌, ◌≡◌, refl, inl, inr, In, In-append_left, In-append_right, ◌≢◌, subst, ◌<◌,
  ◌∙◌, sym, ap, if_lem, arith,
}
use mathlib.Core.Bool.{true≢false}
use mathlib.Core.Option.{some-injective}
use leveldb_surf.Base.Status.{Status, is_ok}
use leveldb_surf.Filter.Policy.{Bytes}
use leveldb_surf.Version.Files.{FileMetaData}
use leveldb_surf.Version.Levels.{num_levels}

-- FileType of db/filename.h.
pub data FileType : Type 0 where
  log_file db_lock_file table_file descriptor_file current_file temp_file info_log_file : FileType

module _ {I : Type 0} where
  -- The numbers of a version's files from `level` on, with the number of levels left.
  unfoldable pub level_numbers : (ℕ → List (FileMetaData I)) → ℕ → ℕ → List ℕ
  level_numbers files zero level = []
  level_numbers files (suc left) level =
      map (λ (f : FileMetaData I). f.number) (files level) ++ level_numbers files left (level + 1)

  -- AddLiveFiles: the set as the list of its members, and the versions in the order of their list.
  unfoldable pub add_live_files : List (ℕ → List (FileMetaData I)) → List ℕ → List ℕ
  unfolding level_numbers
  add_live_files [] live = live
  add_live_files (v ∷ vs) live = level_numbers v num_levels 0 ++ add_live_files vs live

unfoldable pub is_live : List ℕ → ℕ → Bool
is_live [] number = false
is_live (n ∷ ns) number = n == number || is_live ns number

-- The numbers that the version set keeps.
pub record LogNumbers : Type 0 where
  pub log_number : ℕ
  pub prev_log_number : ℕ
  pub manifest_file_number : ℕ

unfoldable pub keep : LogNumbers → List ℕ → ℕ → FileType → Bool
unfolding is_live
keep v live number FileType.log_file = leb v.log_number number || number == v.prev_log_number
keep v live number FileType.descriptor_file = leb v.manifest_file_number number
keep v live number FileType.table_file = is_live live number
keep v live number FileType.temp_file = is_live live number
keep v live number FileType.current_file = true
keep v live number FileType.db_lock_file = true
keep v live number FileType.info_log_file = true

abbrev pub evicted : FileType → ℕ → List ℕ
evicted FileType.table_file number = number ∷ []
evicted _ number = []

-- The loop over the children of the directory: the files to delete, and the numbers that are
-- evicted from the table cache. `parse` is ParseFileName.
unfoldable pub obsolete_files :
    (Bytes → Option (ℕ × FileType)) → LogNumbers → List ℕ → List Bytes → List Bytes × List ℕ
unfolding keep
obsolete_files parse v live [] = ([], [])
obsolete_files parse v live (name ∷ names) =
    let rest = obsolete_files parse v live names in
    elim (parse name) [
      | none ↦ rest
      | some (number, type) ↦
          if keep v live number type then rest else (name ∷ rest.0, evicted type number ++ rest.1)
    ]

-- RemoveObsoleteFiles: the names passed to RemoveFile, and the evicted numbers.
unfoldable pub remove_obsolete_files :
    {I : Type 0}
    → (Bytes → Option (ℕ × FileType))
    → Status
    → LogNumbers
    → List ℕ
    → List (ℕ → List (FileMetaData I))
    → List Bytes
    → List Bytes × List ℕ
unfolding obsolete_files add_live_files
remove_obsolete_files parse bg_error v pending_outputs versions children =
    if is_ok bg_error
    then obsolete_files parse v (add_live_files versions pending_outputs) children
    else ([], [])

module _ (parse : Bytes → Option (ℕ × FileType)) (v : LogNumbers) (live : List ℕ) where
  -- Every name that is deleted is one whose number and type are not kept.
  abbrev pub Unkept : List Bytes × List ℕ → Type 0
  Unkept out =
      (name : Bytes) (n : ℕ) (t : FileType)
      → In name out.0
      → parse name ≡ some (n, t)
      → keep v live n t ≡ false

  obsolete_files-step :
      (head : Bytes) (names : List Bytes) (o : Option (ℕ × FileType))
      → parse head ≡ o
      → Unkept (obsolete_files parse v live names)
      → Unkept (obsolete_files parse v live (head ∷ names))
  unfolding obsolete_files
  obsolete_files-step head names none e ih =
      let rest = obsolete_files parse v live names in
      let q : obsolete_files parse v live (head ∷ names) ≡ rest = rw (obsolete_files, e) refl in
      subst Unkept (sym q) ih
  obsolete_files-step head names (some (number, type)) e ih =
      let rest = obsolete_files parse v live names in
      let out =
        if keep v live number type then rest else (head ∷ rest.0, evicted type number ++ rest.1) in
      let q : obsolete_files parse v live (head ∷ names) ≡ out = rw (obsolete_files, e) refl in
      subst Unkept (sym q) (
        if_lem Unkept (keep v live number type) (λ k. ih)
          (λ k name n t i p. elim i [
            | inl q ↦
                let r : (number, type) ≡ (n, t) =
                  some-injective (number, type) (n, t) (sym e ∙ ap parse (sym q) ∙ p) in
                subst (λ (x : ℕ × FileType). keep v live x.0 x.1 ≡ false) r k
            | inr m ↦ ih name n t m p
          ]))

  obsolete_files-Unkept : (names : List Bytes) → Unkept (obsolete_files parse v live names)
  unfolding obsolete_files
  obsolete_files-Unkept [] = λ name n t i p. elim i [ ]
  obsolete_files-Unkept (head ∷ names) =
      obsolete_files-step head names (parse head) refl (obsolete_files-Unkept names)

is_live-In : (live : List ℕ) (n : ℕ) → In n live → is_live live n ≡ true
unfolding is_live
is_live-In [] n i = elim i [ ]
is_live-In (m ∷ live) n (inl e) = let same : (n == n) ≡ true = ground arith in rw (sym e, same) refl
is_live-In (m ∷ live) n (inr i) = rw (is_live-In live n i) (ground arith)

module _ {I : Type 0} where
  In-map-number :
      (f : FileMetaData I) (fs : List (FileMetaData I))
      → In f fs
      → In f.number (map (λ (g : FileMetaData I). g.number) fs)
  In-map-number f [] i = elim i [ ]
  In-map-number f (g ∷ fs) (inl e) = inl (ap (λ (x : FileMetaData I). x.number) e)
  In-map-number f (g ∷ fs) (inr i) = inr (In-map-number f fs i)

  level_numbers-In :
      (files : ℕ → List (FileMetaData I)) (left level d : ℕ) (f : FileMetaData I)
      → d < left
      → In f (files (level + d))
      → In f.number (level_numbers files left level)
  unfolding level_numbers
  level_numbers-In files zero level d f h i = absurd (omega arith)
  level_numbers-In files (suc left) level zero f h i =
      In-append_left f.number (map (λ (g : FileMetaData I). g.number) (files level))
        (level_numbers files left (level + 1))
        (In-map-number f (files level)
          (let e : level + 0 ≡ level = omega arith in subst (λ l. In f (files l)) e i))
  level_numbers-In files (suc left) level (suc d) f h i =
      In-append_right f.number (map (λ (g : FileMetaData I). g.number) (files level))
        (level_numbers files left (level + 1))
        (level_numbers-In files left (level + 1) d f (omega arith)
          (let e : level + suc d ≡ level + 1 + d = omega arith in subst (λ l. In f (files l)) e i))

  add_live_files-In :
      (versions : List (ℕ → List (FileMetaData I))) (live : List ℕ)
      (files : ℕ → List (FileMetaData I)) (level : ℕ) (f : FileMetaData I)
      → In files versions
      → level < num_levels
      → In f (files level)
      → In f.number (add_live_files versions live)
  unfolding add_live_files
  add_live_files-In [] live files level f m h i = elim m [ ]
  add_live_files-In (v ∷ vs) live files level f (inl e) h i =
      In-append_left f.number (level_numbers v num_levels 0) (add_live_files vs live) (
        level_numbers-In v num_levels 0 level f h (
          let z : level ≡ 0 + level = omega arith in
          subst (λ l. In f (v l)) z
            (subst (λ (w : ℕ → List (FileMetaData I)). In f (w level)) e i)))
  add_live_files-In (v ∷ vs) live files level f (inr m) h i =
      In-append_right f.number (level_numbers v num_levels 0) (add_live_files vs live)
        (add_live_files-In vs live files level f m h i)

  -- RemoveObsoleteFiles never deletes the table file of a live version: a deleted name that parses
  -- as a table file has a number that no file at the levels of a version in the list has.
  pub remove_obsolete_files-live :
      (parse : Bytes → Option (ℕ × FileType)) (bg_error : Status) (v : LogNumbers)
      (pending_outputs : List ℕ) (versions : List (ℕ → List (FileMetaData I)))
      (children : List Bytes) (name : Bytes) (n : ℕ) (files : ℕ → List (FileMetaData I)) (level : ℕ)
      (f : FileMetaData I)
      → In name (remove_obsolete_files parse bg_error v pending_outputs versions children).0
      → parse name ≡ some (n, FileType.table_file)
      → In files versions
      → level < num_levels
      → In f (files level)
      → f.number ≢ n
  unfolding remove_obsolete_files keep
  remove_obsolete_files-live parse bg_error v pending versions children name n files level f i p m h
        j e =
      let live = add_live_files versions pending in
      let all : Unkept parse v live
          (remove_obsolete_files parse bg_error v pending versions children) =
        if_lem (Unkept parse v live) (is_ok bg_error)
          (λ b. obsolete_files-Unkept parse v live children) (λ b name n t i p. elim i [ ]) in
      let kept : is_live live n ≡ true =
        is_live-In live n
          (subst (λ x. In x live) e (add_live_files-In versions pending files level f m h j)) in
      true≢false (sym kept ∙ all name n FileType.table_file i p)
