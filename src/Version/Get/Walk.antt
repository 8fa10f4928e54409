-- ===== src/Version/Get/Walk.antt =====
-- A lookup visits the candidate files in order until the callback stops it.
use leveldb_surf.Base.{
  ℕ, zero, suc, ◌-◌, ◌^◌, ◌<◌, ◌≡◌, refl, sym, ap, Bool, true, false, Option, none, some, List, [],
  ◌∷◌, ◌++◌, map, arith, length, get_elem?, filter, leb, if◌then◌else◌, is_lt, Bool-cases, inl, inr,
  get_elem?-none, get_elem?-some, leb→le,
}
use leveldb_surf.Version.Keys.{KeySpace}
use leveldb_surf.Version.Files.{FileMetaData}
use leveldb_surf.Version.Files.Search.{first_false, FailsOn, is_below, find_file-first}
use leveldb_surf.Version.Levels.{num_levels}
use leveldb_surf.Version.Get.{
  Visit, visit_all, newest_first, holds_user_key, visit_level, visit_levels, for_each_overlapping,
}

pair_if : {S : Type 0} (r : Bool × S) → (if r.0 then (true, r.1) else (false, r.1)) ≡ r
pair_if (true, s) = refl
pair_if (false, s) = refl

if_some :
    {S : Type 0} (b : Bool) (x : Bool × S) (y : S)
    → (if b then some x.1 else some y) ≡ some (if b then x else (false, y)).1
if_some true x y = refl
if_some false x y = refl

module _ {I S : Type 0} (visit : Visit I S) where
  -- The visits of a list of files with their levels, until one asks to stop.
  abbrev pub walk : List (ℕ × FileMetaData I) → S → Bool × S
  walk [] s = (true, s)
  walk ((level, f) ∷ fs) s =
      let r = visit level f s in let rest = walk fs r.1 in if r.0 then rest else (false, r.1)

  walk-append :
      (xs ys : List (ℕ × FileMetaData I)) (s : S)
      → walk (xs ++ ys) s
        ≡ (if (walk xs s).0 then walk ys (walk xs s).1 else (false, (walk xs s).1))
  walk-append [] ys s = refl
  walk-append ((level, f) ∷ xs) ys s = elim (Bool-cases (visit level f s).0) [
    | inl on ↦ rw (on, walk) (walk-append xs ys (visit level f s).1)
    | inr stop ↦ rw (stop, walk)
  ]

  visit_all-walk :
      (level : ℕ) (fs : List (FileMetaData I)) (s : S)
      → visit_all visit level fs s ≡ walk (map (λ f. (level, f)) fs) s
  unfolding visit_all
  visit_all-walk level [] s = refl
  visit_all-walk level (f ∷ fs) s =
      ap (λ r. if (visit level f s).0 then r else (false, (visit level f s).1))
        (visit_all-walk level fs (visit level f s).1)

module _ {U I : Type 0} (ks : KeySpace U I) (user_key : U) (internal_key : I) where
  abbrev pub at_index : Option (FileMetaData I) → List (FileMetaData I)
  at_index none = []
  at_index (some f) = if is_lt (ks.user_cmp user_key (ks.user_key f.smallest)) then [] else f ∷ []

  -- The file of a sorted level that can hold the key: the first that ends at or after the internal
  -- key, unless it starts after the user key.
  abbrev pub level_candidate : List (FileMetaData I) → List (FileMetaData I)
  level_candidate files = at_index (get_elem? files (first_false (is_below ks internal_key) files))

  abbrev pub upper_candidates : ℕ → ℕ → (ℕ → List (FileMetaData I)) → List (ℕ × FileMetaData I)
  upper_candidates zero level files = []
  upper_candidates (suc left) level files =
      map (λ f. (level, f)) (level_candidate (files level))
      ++ upper_candidates left (suc level) files

  -- Level 0 from the newest file to the oldest, then the other levels in order.
  abbrev pub candidates : (ℕ → List (FileMetaData I)) → List (ℕ × FileMetaData I)
  candidates files =
      map (λ f. (0, f)) (newest_first (filter (holds_user_key ks user_key) (files 0)))
      ++ upper_candidates (num_levels - 1) 1 files

  -- The levels above 0 can be searched by halving, and have fewer than 2^31 files.
  pub record AreSearchable (files : ℕ → List (FileMetaData I)) : Type 0 where
    pub in_order : (level : ℕ) → FailsOn (is_below ks internal_key) (files (suc level))
    pub few : (level : ℕ) → length (files (suc level)) < 2 ^ 31

  module _ {S : Type 0} (visit : Visit I S) where
    candidate-walk :
        (level : ℕ) (f : FileMetaData I) (s : S)
        → (if is_lt (ks.user_cmp user_key (ks.user_key f.smallest))
            then some (true, s)
            else some (visit level f s))
          ≡ some (walk visit (map (λ g. (level, g)) (at_index (some f))) s)
    candidate-walk level f s =
        elim (Bool-cases (is_lt (ks.user_cmp user_key (ks.user_key f.smallest)))) [
          | inl before ↦ rw (before, at_index) refl
          | inr reaches ↦ rw (reaches, at_index) (ap some (sym (pair_if (visit level f s))))
        ]

    visit_level-walk :
        (level : ℕ) (files : List (FileMetaData I)) (s : S)
        → FailsOn (is_below ks internal_key) files
        → length files < 2 ^ 31
        → visit_level ks visit level files user_key internal_key s
          ≡ some (walk visit (map (λ f. (level, f)) (level_candidate files)) s)
    unfolding visit_level
    visit_level-walk level files s order small =
        let i = first_false (is_below ks internal_key) files in
        elim (Bool-cases (leb (length files) i)) [
          | inl past ↦
              rw
                (
                  find_file-first ks internal_key files order small,
                  get_elem?-none files i (leb→le (length files) i past),
                  past,
                )
                refl
          | inr within ↦
              let (f, e) = get_elem?-some files i (ground arith) in
              rw (find_file-first ks internal_key files order small, e, within)
                (candidate-walk level f s)
        ]

    visit_levels-walk :
        (left level : ℕ) (files : ℕ → List (FileMetaData I)) (s : S)
        → AreSearchable files
        → visit_levels ks left (suc level) visit files user_key internal_key s
          ≡ some (walk visit (upper_candidates left (suc level) files) s).1
    unfolding visit_levels
    visit_levels-walk zero level files s ok = refl
    visit_levels-walk (suc left) level files s ok =
        let here = map (λ f. (suc level, f)) (level_candidate (files (suc level))) in
        let r = walk visit here s in
        rw
          (
            visit_level-walk (suc level) (files (suc level)) s (ok.in_order level) (ok.few level),
            visit_levels-walk left (suc level) files (walk visit here s).1 ok,
            walk-append visit here (upper_candidates left (suc (suc level)) files) s,
          )
          (if_some (walk visit here s).0 _ _)

    -- ForEachOverlapping
    pub for_each_overlapping-walk :
        (files : ℕ → List (FileMetaData I)) (s : S)
        → AreSearchable files
        → for_each_overlapping ks visit files user_key internal_key s
          ≡ some (walk visit (candidates files) s).1
    unfolding for_each_overlapping
    for_each_overlapping-walk files s ok =
        let level0 : List (ℕ × FileMetaData I) =
          map (λ f. (0, f)) (newest_first (filter (holds_user_key ks user_key) (files 0))) in
        rw
          (
            visit_all-walk visit 0 (newest_first (filter (holds_user_key ks user_key) (files 0))) s,
            visit_levels-walk (num_levels - 1) 0 files (walk visit level0 s).1 ok,
            walk-append visit level0 (upper_candidates (num_levels - 1) 1 files) s,
          )
          (if_some (walk visit level0 s).0 _ _)
