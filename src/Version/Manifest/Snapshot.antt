-- ===== src/Version/Manifest/Snapshot.antt =====
-- project/version_set.cc: the builder that applies what VersionSet::WriteSnapshot writes.
use mathlib.Core.List.{append_assoc, append-nil}
use leveldb_surf.Base.{
  ℕ, zero, suc, ◌+◌, ◌<◌, ◌≤◌, ◌≡◌, refl, ap, ◌∙◌, subst, true, false, Option, none, some, List, [],
  ◌∷◌, ◌++◌, map, filter, All, In-All, In-append_right, IsSorted, ◌==◌, ==_iff, Bool-cases, inl,
  inr, arith,
}
use leveldb_surf.Version.Keys.{KeySpace, IsKeySpace}
use leveldb_surf.Version.Files.{FileMetaData}
use leveldb_surf.Version.Builder.{
  LevelState, Builder, update, insert_added, add_file, apply_pointers, apply_additions, save_files,
}
use leveldb_surf.Version.Builder.Merge.{merge, kept, save_files-eq}
use leveldb_surf.Version.Builder.Order.{less_asym}
use leveldb_surf.Version.Builder.Strict.{Precedes}
use leveldb_surf.Version.Manifest.{pointer_of, snapshot_pointers, snapshot_files}

module _ {U I : Type 0} (ks : KeySpace U I) where
  kept_all : (fs : List (FileMetaData I)) → filter (kept ks []) fs ≡ fs
  kept_all [] = refl
  kept_all (f ∷ fs) = ap (◌∷◌ f) (kept_all fs)

  merge_nil : (fs : List (FileMetaData I)) → merge ks [] fs ≡ fs
  merge_nil [] = refl
  merge_nil (f ∷ fs) = ap (◌∷◌ f) (merge_nil fs)

  -- SaveTo of added files alone, and of a base version alone.
  pub save_added : (fs : List (FileMetaData I)) → save_files ks [] [] [] fs ≡ fs
  save_added fs = save_files-eq ks [] [] fs ∙ kept_all (merge ks [] fs) ∙ merge_nil fs

  pub save_base : (fs : List (FileMetaData I)) → save_files ks [] [] fs [] ≡ fs
  save_base fs = save_files-eq ks [] fs [] ∙ kept_all fs

  abbrev pub state : List (FileMetaData I) → LevelState I
  state fs = record { deleted_files = []; added_files = fs }

  insert_end :
      (k : IsKeySpace ks) (f : FileMetaData I) (xs : List (FileMetaData I))
      → All (λ g. Precedes ks g f) xs
      → insert_added ks f xs ≡ xs ++ f ∷ []
  unfolding insert_added
  insert_end k f [] a = refl
  insert_end k f (g ∷ gs) a = rw (less_asym k g f a.0, a.0) (ap (◌∷◌ g) (insert_end k f gs a.1))

  additions_append :
      (b : Builder I) (xs ys : List (ℕ × FileMetaData I))
      → apply_additions ks b (xs ++ ys) ≡ apply_additions ks (apply_additions ks b xs) ys
  unfolding apply_additions
  additions_append b [] ys = refl
  additions_append b ((l, f) ∷ xs) ys = additions_append (add_file ks b l f) xs ys

  -- Files added at one level change no other.
  additions_other :
      (b : Builder I) (level l : ℕ) (fs : List (FileMetaData I))
      → (level == l) ≡ false
      → (apply_additions ks b (map (λ f. (level, f)) fs)).levels l ≡ b.levels l
  unfolding apply_additions add_file
  additions_other b level l [] e = refl
  additions_other b level l (f ∷ fs) e =
      additions_other (add_file ks b level f) level l fs e ∙ (rw e refl)

  split_end :
      (xs fs : List (FileMetaData I)) (f : FileMetaData I)
      → IsSorted (Precedes ks) (xs ++ f ∷ fs)
      → All (λ g. Precedes ks g f) xs
  split_end [] fs f s = tt
  split_end (x ∷ xs) fs f s = (
    In-All (Precedes ks x) f (xs ++ f ∷ fs) s.0 (In-append_right f xs (f ∷ fs) (inl refl)),
    split_end xs fs f s.1,
  )

  additions_same :
      (k : IsKeySpace ks) (b : Builder I) (level : ℕ) (xs fs : List (FileMetaData I))
      → b.levels level ≡ state xs
      → IsSorted (Precedes ks) (xs ++ fs)
      → (apply_additions ks b (map (λ f. (level, f)) fs)).levels level ≡ state (xs ++ fs)
  unfolding apply_additions add_file
  additions_same k b level xs [] e s = rw (append-nil xs) e
  additions_same k b level xs (f ∷ fs) e s =
      let same : (level == level) ≡ true = (==_iff level level).1 refl in
      let next : (add_file ks b level f).levels level ≡ state (xs ++ f ∷ []) =
        rw (same, e, insert_end k f xs (split_end xs fs f s)) refl in
      let ih =
        additions_same k (add_file ks b level f) level (xs ++ f ∷ []) fs next
          (rw (append_assoc xs (f ∷ []) fs) s) in
      subst
        (λ (ys : List (FileMetaData I)).
          (apply_additions ks (add_file ks b level f) (map (λ f. (level, f)) fs)).levels level
          ≡ state ys)
        (append_assoc xs (f ∷ []) fs) ih

  -- Below the level at which it starts, WriteSnapshot's loop leaves the builder alone.
  files_below :
      (b : Builder I) (files : ℕ → List (FileMetaData I)) (left level l : ℕ)
      → l < level
      → (apply_additions ks b (snapshot_files files left level)).levels l ≡ b.levels l
  unfolding snapshot_files apply_additions
  files_below b files zero level l h = refl
  files_below b files (suc left) level l h =
      let e : (level == l) ≡ false = ground arith in
      let b' = apply_additions ks b (map (λ f. (level, f)) (files level)) in
      rw
        (additions_append b (map (λ f. (level, f)) (files level))
          (snapshot_files files left (level + 1)))
        (files_below b' files left (level + 1) l (omega arith)
          ∙ additions_other b level l (files level) e)

  -- The files of the snapshot, added to a builder with none, are the version's.
  pub files_added :
      (k : IsKeySpace ks) (b : Builder I) (files : ℕ → List (FileMetaData I)) (left level l : ℕ)
      → ((i : ℕ) → IsSorted (Precedes ks) (files i))
      → b.levels l ≡ state []
      → level ≤ l
      → l < left + level
      → (apply_additions ks b (snapshot_files files left level)).levels l ≡ state (files l)
  unfolding snapshot_files
  files_added k b files zero level l s e h m = absurd (omega arith)
  files_added k b files (suc left) level l s e h m =
      let b' = apply_additions ks b (map (λ f. (level, f)) (files level)) in
      rw
        (additions_append b (map (λ f. (level, f)) (files level))
          (snapshot_files files left (level + 1)))
        (elim (Bool-cases (level == l)) [
          | inl same ↦
              let p = (==_iff level l).0 same in
              files_below b' files left (level + 1) l (omega arith)
              ∙ subst
                  (λ (i : ℕ).
                    (apply_additions ks b (map (λ f. (level, f)) (files level))).levels i
                    ≡ state (files i))
                  p (additions_same k b level [] (files level) (rw p e) (s level))
          | inr other ↦
              files_added k b' files left (level + 1) l s
                (additions_other b level l (files level) other ∙ e) (ground arith) (omega arith)
        ])

  pointers_append :
      (b : Builder I) (xs ys : List (ℕ × I))
      → apply_pointers ks b (xs ++ ys) ≡ apply_pointers ks (apply_pointers ks b xs) ys
  unfolding apply_pointers
  pointers_append b [] ys = refl
  pointers_append b ((l, key) ∷ xs) ys =
      pointers_append (record b { compact_pointer = update b.compact_pointer l (some key) }) xs ys

  pointer_other :
      (b : Builder I) (level l : ℕ) (o : Option I)
      → (level == l) ≡ false
      → (apply_pointers ks b (pointer_of level o)).compact_pointer l ≡ b.compact_pointer l
  unfolding apply_pointers
  pointer_other b level l none e = refl
  pointer_other b level l (some key) e = rw e refl

  pointer_same :
      (b : Builder I) (level : ℕ) (o : Option I)
      → b.compact_pointer level ≡ none
      → (apply_pointers ks b (pointer_of level o)).compact_pointer level ≡ o
  unfolding apply_pointers
  pointer_same b level none e = e
  pointer_same b level (some key) e =
      let same : (level == level) ≡ true = (==_iff level level).1 refl in rw same refl

  pointers_below :
      (b : Builder I) (pointers : ℕ → Option I) (left level l : ℕ)
      → l < level
      → (apply_pointers ks b (snapshot_pointers pointers left level)).compact_pointer l
        ≡ b.compact_pointer l
  unfolding snapshot_pointers apply_pointers
  pointers_below b pointers zero level l h = refl
  pointers_below b pointers (suc left) level l h =
      let e : (level == l) ≡ false = ground arith in
      let b' = apply_pointers ks b (pointer_of level (pointers level)) in
      rw
        (pointers_append b (pointer_of level (pointers level))
          (snapshot_pointers pointers left (level + 1)))
        (pointers_below b' pointers left (level + 1) l (omega arith)
          ∙ pointer_other b level l (pointers level) e)

  -- The pointers of the snapshot, set in a builder with none, are the version set's.
  pub pointers_set :
      (b : Builder I) (pointers : ℕ → Option I) (left level l : ℕ)
      → b.compact_pointer l ≡ none
      → level ≤ l
      → l < left + level
      → (apply_pointers ks b (snapshot_pointers pointers left level)).compact_pointer l ≡ pointers l
  unfolding snapshot_pointers apply_pointers
  pointers_set b pointers zero level l e h m = absurd (omega arith)
  pointers_set b pointers (suc left) level l e h m =
      let b' = apply_pointers ks b (pointer_of level (pointers level)) in
      rw
        (pointers_append b (pointer_of level (pointers level))
          (snapshot_pointers pointers left (level + 1)))
        (elim (Bool-cases (level == l)) [
          | inl same ↦
              let p = (==_iff level l).0 same in
              pointers_below b' pointers left (level + 1) l (omega arith)
              ∙ subst
                  (λ (i : ℕ).
                    (apply_pointers ks b (pointer_of level (pointers level))).compact_pointer i
                    ≡ pointers i)
                  p (pointer_same b level (pointers level) (rw p e))
          | inr other ↦
              pointers_set b' pointers left (level + 1) l
                (pointer_other b level l (pointers level) other ∙ e) (ground arith) (omega arith)
        ])

  -- Additions do not touch the pointers.
  pub additions_pointers :
      (b : Builder I) (fs : List (ℕ × FileMetaData I))
      → (apply_additions ks b fs).compact_pointer ≡ b.compact_pointer
  unfolding apply_additions add_file
  additions_pointers b [] = refl
  additions_pointers b ((l, f) ∷ fs) = additions_pointers (add_file ks b l f) fs
