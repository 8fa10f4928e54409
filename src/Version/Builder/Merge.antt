-- ===== src/Version/Builder/Merge.antt =====
-- SaveTo at a level is the merge of the base files with the added ones, less the deleted.
use leveldb_surf.Base.{
  ℕ, ◌≡◌, refl, ◌∙◌, sym, ap, subst, Bool, true, false, not, ◌⊎◌, inl, inr, List, [], ◌∷◌, ◌++◌,
  arith, filter, In, In-filter, filter-In, In-append, In-append_left, In-append_right, Bool-cases,
  ◌↔◌,
}
use mathlib.Core.List.{append_assoc, append-nil}
use leveldb_surf.Version.Keys.{KeySpace}
use leveldb_surf.Version.Files.{FileMetaData}
use leveldb_surf.Version.Builder.{
  contains, by_smallest_key, maybe_add_file, add_base_below, add_base, save_files,
}

module _ {U I : Type 0} (ks : KeySpace U I) where
  -- Base files that the added one is not below come first.
  abbrev pub below : FileMetaData I → List (FileMetaData I) → List (FileMetaData I)
  below a [] = []
  below a (f ∷ base) = elim (by_smallest_key ks a f) [ true ↦ [] | false ↦ f ∷ below a base ]

  abbrev pub from : FileMetaData I → List (FileMetaData I) → List (FileMetaData I)
  from a [] = []
  from a (f ∷ base) = elim (by_smallest_key ks a f) [ true ↦ f ∷ base | false ↦ from a base ]

  abbrev pub merge : List (FileMetaData I) → List (FileMetaData I) → List (FileMetaData I)
  merge base [] = base
  merge base (a ∷ added) = below a base ++ a ∷ merge (from a base) added

  below-from :
      (a : FileMetaData I) (base : List (FileMetaData I)) → below a base ++ from a base ≡ base
  below-from a [] = refl
  below-from a (f ∷ base) = ground (arith, below-from a base)

  module _ (deleted : List ℕ) where
    abbrev pub kept : FileMetaData I → Bool
    kept f = not (contains f.number deleted)

    filter-append :
        (xs ys : List (FileMetaData I)) → filter kept (xs ++ ys) ≡ filter kept xs ++ filter kept ys
    filter-append [] ys = refl
    filter-append (x ∷ xs) ys = ground (arith, filter-append xs ys)

    maybe_add-kept :
        (files : List (FileMetaData I)) (f : FileMetaData I)
        → maybe_add_file ks deleted files f ≡ files ++ filter kept (f ∷ [])
    unfolding maybe_add_file
    maybe_add-kept files f = elim (Bool-cases (contains f.number deleted)) [
      | inl d ↦ rw (d, filter) (sym (append-nil files))
      | inr d ↦ rw (d, filter)
    ]

    regroup :
        (files xs : List (FileMetaData I)) (f : FileMetaData I)
        → maybe_add_file ks deleted files f ++ filter kept xs ≡ files ++ filter kept (f ∷ xs)
    regroup files xs f =
        ap (λ t. t ++ filter kept xs) (maybe_add-kept files f)
        ∙ append_assoc files (filter kept (f ∷ [])) (filter kept xs)
        ∙ ap (◌++◌ files) (sym (filter-append (f ∷ []) xs))

    add_base-merge :
        (files base : List (FileMetaData I))
        → add_base ks deleted files base ≡ files ++ filter kept base
    unfolding add_base
    add_base-merge files [] = sym (append-nil files)
    add_base-merge files (f ∷ base) =
        add_base-merge (maybe_add_file ks deleted files f) base ∙ regroup files base f

    add_base_below-merge :
        (a : FileMetaData I) (files base : List (FileMetaData I))
        → add_base_below ks deleted a files base
          ≡ (files ++ filter kept (below a base), from a base)
    unfolding add_base_below
    add_base_below-merge a files [] = ap (λ t. (t, [])) (sym (append-nil files))
    add_base_below-merge a files (f ∷ base) = elim (Bool-cases (by_smallest_key ks a f)) [
      | inl stop ↦ rw (stop, below, from) (ap (λ t. (t, f ∷ base)) (sym (append-nil files)))
      | inr go ↦
          rw (go, below, from)
            (add_base_below-merge a (maybe_add_file ks deleted files f) base
              ∙ ap (λ t. (t, from a base)) (regroup files (below a base) f))
    ]

    save_files-merge :
        (files base added : List (FileMetaData I))
        → save_files ks deleted files base added ≡ files ++ filter kept (merge base added)
    unfolding save_files
    save_files-merge files base [] = add_base-merge files base
    save_files-merge files base (a ∷ added) =
        ap (λ r. save_files ks deleted (maybe_add_file ks deleted r.0 a) r.1 added)
          (add_base_below-merge a files base)
        ∙ save_files-merge (maybe_add_file ks deleted (files ++ filter kept (below a base)) a)
            (from a base) added
        ∙ regroup (files ++ filter kept (below a base)) (merge (from a base) added) a
        ∙ append_assoc files (filter kept (below a base))
            (filter kept (a ∷ merge (from a base) added))
        ∙ ap (◌++◌ files) (sym (filter-append (below a base) (a ∷ merge (from a base) added)))

    -- The files that SaveTo stores at a level are those of the base version merged with the added
    -- ones, each base file before the first added file that it does not come after, less the files
    -- with a deleted number, in that order.
    pub save_files-eq :
        (base added : List (FileMetaData I))
        → save_files ks deleted [] base added ≡ filter kept (merge base added)
    save_files-eq base added = save_files-merge [] base added

    In-merge :
        (f : FileMetaData I) (base added : List (FileMetaData I))
        → In f base ⊎ In f added
        → In f (merge base added)
    In-merge f base [] (inl m) = m
    In-merge f base [] (inr m) = elim m [ ]
    In-merge f base (a ∷ added) (inl m) =
        elim (In-append f (below a base) (from a base) (subst (In f) (sym (below-from a base)) m)) [
          | inl l ↦ In-append_left f (below a base) _ l
          | inr r ↦
              In-append_right f (below a base) _ (inr (In-merge f (from a base) added (inl r)))
        ]
    In-merge f base (a ∷ added) (inr (inl e)) = In-append_right f (below a base) _ (inl e)
    In-merge f base (a ∷ added) (inr (inr m)) =
        In-append_right f (below a base) _ (inr (In-merge f (from a base) added (inr m)))

    merge-In :
        (f : FileMetaData I) (base added : List (FileMetaData I))
        → In f (merge base added)
        → In f base ⊎ In f added
    merge-In f base [] m = inl m
    merge-In f base (a ∷ added) m =
        elim (In-append f (below a base) (a ∷ merge (from a base) added) m) [
          | inl l ↦
              inl
                (subst (In f) (below-from a base) (In-append_left f (below a base) (from a base) l))
          | inr (inl e) ↦ inr (inl e)
          | inr (inr r) ↦ elim (merge-In f (from a base) added r) [
            | inl x ↦ inl (
                subst (In f) (below-from a base) (In-append_right f (below a base) (from a base) x))
            | inr y ↦ inr (inr y)
          ]
        ]

    -- A file is in the new level exactly if it is in the base level or was added, and its number
    -- is not deleted.
    pub save_files-In :
        (f : FileMetaData I) (base added : List (FileMetaData I))
        → In f (save_files ks deleted [] base added)
          ↔ ((In f base ⊎ In f added) × (contains f.number deleted ≡ false))
    save_files-In f base added = rw (save_files-eq base added) (
      (λ m.
          let r = filter-In kept f (merge base added) m in
          (merge-In f base added r.0, ground arith)),
      (λ h. In-filter kept f (merge base added) (In-merge f base added h.0) (ground arith)),
    )
