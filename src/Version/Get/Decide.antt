-- ===== src/Version/Get/Decide.antt =====
-- project/version_set.cc: Version::Get against the files that can hold the key.
use leveldb_surf.Base.{
  ℕ, ◌≡◌, refl, ◌∙◌, ap, false, Option, none, some, List, [], ◌∷◌, if◌then◌else◌,
}
use leveldb_surf.Base.Status.{Status}
use leveldb_surf.Version.Keys.{KeySpace}
use leveldb_surf.Version.Files.{FileMetaData}
use leveldb_surf.Version.Get.{
  Read, fails, misses, finds, deletes, corrupts, State, start_state, handle, match_file, get,
}
use leveldb_surf.Version.Get.Walk.{walk, candidates, AreSearchable, for_each_overlapping-walk}

module _ {I V : Type 0} (read : FileMetaData I → Read V) where
  -- The answer of a lookup that reads the files in order: the first that does not miss decides.
  abbrev pub decided : List (ℕ × FileMetaData I) → Status × Option V
  decided [] = (Status.not_found, none)
  decided ((level, f) ∷ rest) = elim (read f) [
    | fails e ↦ (e, none)
    | misses ↦ decided rest
    | finds v ↦ (Status.ok, some v)
    | deletes ↦ (Status.not_found, none)
    | corrupts ↦ (Status.corruption, none)
  ]

  -- The file to charge a seek to: the first, if it was not the only one to be read.
  abbrev pub charged : List (ℕ × FileMetaData I) → Option (ℕ × FileMetaData I)
  charged ((level, f) ∷ next ∷ rest) = elim (read f) [ misses ↦ some (level, f) | _ ↦ none ]
  charged _ = none

  abbrev result : State I V → Status × Option V × Option (ℕ × FileMetaData I)
  result t = (if t.found then t.s else Status.not_found, t.value, t.seek_file)

  -- A state in which no file has decided yet.
  abbrev open_state : Option (ℕ × FileMetaData I) → Option (ℕ × FileMetaData I) → Status → State I V
  open_state seek last s = record {
    seek_file = seek;
    last_file_read = last;
    value = none;
    s = s;
    found = false;
  }

  -- One file: it decides, or the walk goes on.
  walk_one :
      (r : Read V) (fs : List (ℕ × FileMetaData I)) (seek last after : Option (ℕ × FileMetaData I))
      (s : Status)
      → result (walk (match_file read) fs (open_state seek last Status.ok)).1
        ≡ ((decided fs).0, (decided fs).1, after)
      → result
          (if (handle read r (open_state seek last s)).0
            then walk (match_file read) fs (handle read r (open_state seek last s)).1
            else (false, (handle read r (open_state seek last s)).1)).1
        ≡ (
          (elim r as (λ x. Status × Option V) [
            | fails e ↦ (e, none)
            | misses ↦ decided fs
            | finds v ↦ (Status.ok, some v)
            | deletes ↦ (Status.not_found, none)
            | corrupts ↦ (Status.corruption, none)
          ]).0,
          (elim r as (λ x. Status × Option V) [
            | fails e ↦ (e, none)
            | misses ↦ decided fs
            | finds v ↦ (Status.ok, some v)
            | deletes ↦ (Status.not_found, none)
            | corrupts ↦ (Status.corruption, none)
          ]).1,
          (elim r as (λ x. Option (ℕ × FileMetaData I)) [ misses ↦ after | _ ↦ seek ]),
        )
  walk_one (fails e) fs seek last after s h = refl
  walk_one misses fs seek last after s h = h
  walk_one (finds v) fs seek last after s h = refl
  walk_one deletes fs seek last after s h = refl
  walk_one corrupts fs seek last after s h = refl

  same_either :
      (r : Read V) (c : Option (ℕ × FileMetaData I))
      → (elim r as (λ x. Option (ℕ × FileMetaData I)) [ misses ↦ c | _ ↦ c ]) ≡ c
  same_either misses c = refl
  same_either (fails e) c = refl
  same_either _ c = refl

  -- Once a file is charged, that stays so.
  walk-charged :
      (fs : List (ℕ × FileMetaData I)) (c : ℕ × FileMetaData I) (last : Option (ℕ × FileMetaData I))
      (s : Status)
      → result (walk (match_file read) fs (open_state (some c) last s)).1
        ≡ ((decided fs).0, (decided fs).1, some c)
  unfolding match_file
  walk-charged [] c last s = refl
  walk-charged ((level, g) ∷ fs) c last s =
      walk_one (read g) fs (some c) (some (level, g)) (some c) s
        (walk-charged fs c (some (level, g)) Status.ok)
      ∙ ap (λ x. ((decided ((level, g) ∷ fs)).0, (decided ((level, g) ∷ fs)).1, x))
          (same_either (read g) (some c))

  -- After the first file the second one charges it.
  walk-second :
      (fs : List (ℕ × FileMetaData I)) (c : ℕ × FileMetaData I)
      → result (walk (match_file read) fs (open_state none (some c) Status.ok)).1
        ≡ ((decided fs).0, (decided fs).1, elim fs [ [] ↦ none | _ ∷ _ ↦ some c ])
  unfolding match_file
  walk-second [] c = refl
  walk-second ((level, g) ∷ fs) c =
      walk_one (read g) fs (some c) (some (level, g)) (some c) Status.ok
        (walk-charged fs c (some (level, g)) Status.ok)
      ∙ ap (λ x. ((decided ((level, g) ∷ fs)).0, (decided ((level, g) ∷ fs)).1, x))
          (same_either (read g) (some c))

  charged-eq :
      (level : ℕ) (g : FileMetaData I) (fs : List (ℕ × FileMetaData I))
      → (elim (read g) as (λ x. Option (ℕ × FileMetaData I)) [
        | misses ↦ elim fs [ [] ↦ none | _ ∷ _ ↦ some (level, g) ]
        | _ ↦ none
      ])
        ≡ charged ((level, g) ∷ fs)
  charged-eq level g [] = same_either (read g) none
  charged-eq level g (x ∷ fs) = refl

  walk-start :
      (fs : List (ℕ × FileMetaData I))
      → result (walk (match_file read) fs start_state).1
        ≡ ((decided fs).0, (decided fs).1, charged fs)
  unfolding match_file
  walk-start [] = refl
  walk-start ((level, g) ∷ fs) =
      walk_one (read g) fs none (some (level, g)) _ Status.ok (walk-second fs (level, g))
      ∙ ap (λ x. ((decided ((level, g) ∷ fs)).0, (decided ((level, g) ∷ fs)).1, x))
          (charged-eq level g fs)

-- On a version whose levels above 0 can be searched by halving and have fewer than 2^31 files, Get
-- reads the candidate files (at level 0 those whose range holds the user key, newest first; at each
-- other level the first that ends at or after the internal key, unless it starts after the user
-- key) and ends with the first that does not miss: its error or corruption, its value, or NotFound
-- for a deletion and if all miss. A seek is charged to the first file exactly if a second was read.
pub get-eq :
    {U I V : Type 0} (ks : KeySpace U I) (read : FileMetaData I → Read V)
    (files : ℕ → List (FileMetaData I)) (user_key : U) (internal_key : I)
    → AreSearchable ks user_key internal_key files
    → get ks read files user_key internal_key ≡ (
        let fs = candidates ks user_key internal_key files in
        some ((decided read fs).0, (decided read fs).1, charged read fs))
unfolding get
get-eq ks read files user_key internal_key ok =
    rw (for_each_overlapping-walk ks user_key internal_key (match_file read) files start_state ok)
      (ap some (walk-start read (candidates ks user_key internal_key files)))
