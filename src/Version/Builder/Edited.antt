-- ===== src/Version/Builder/Edited.antt =====
-- project/version_set.cc: the files of a version after VersionSet::Builder::Apply and SaveTo.
use leveldb_surf.Base.{
  ℕ, ◌≡◌, refl, ◌∙◌, sym, ap, true, false, not, ◌&&◌, ◌||◌, ◌⊎◌, inl, inr, List, [], ◌∷◌, arith, In,
  ◌↔◌, ◌==◌, ==_iff, if_lem, subst, Order-cases, Ordering,
}
use leveldb_surf.Version.Keys.{KeySpace, IsKeySpace}
use leveldb_surf.Version.Files.{FileMetaData}
use leveldb_surf.Version.Builder.{
  VersionEdit, contains, by_smallest_key, insert_added, apply_pointers, apply_deletions, apply,
  save_to,
}
use leveldb_surf.Version.Builder.Merge.{save_files-In}
use leveldb_surf.Version.Builder.Edits.{new_builder, deletes, adds, apply_deleted, apply_added}
use leveldb_surf.Version.Builder.Added.{files_at, insert_all, additions_level, files_at-adds}

module _ {U I : Type 0} (ks : KeySpace U I) where
  -- A file of the same number and smallest key, which std::set takes for the same.
  abbrev pub SameEntry : FileMetaData I → FileMetaData I → Type 0
  SameEntry f g = (g.number ≡ f.number) × (g.smallest ≡ f.smallest)

  abbrev pub HasEntry : FileMetaData I → List (FileMetaData I) → Type 0
  HasEntry f xs = (g : FileMetaData I) × In g xs × SameEntry f g

  In-files_at :
      (level : ℕ) (f : FileMetaData I) (fs : List (ℕ × FileMetaData I))
      → In (level, f) fs
      → In f (files_at ks level fs)
  In-files_at level f [] m = elim m [ ]
  In-files_at level f ((l, g) ∷ fs) (inl e) =
      let same : (l == level) ≡ true = (==_iff l level).1 (ap (λ p. p.0) (sym e)) in
      rw same (inl (ap (λ p. p.1) e))
  In-files_at level f ((l, g) ∷ fs) (inr m) =
      if_lem (In f) (l == level) (λ t. inr (In-files_at level f fs m))
        (λ t. In-files_at level f fs m)

  -- An insertion keeps what is there.
  insert-keeps :
      (f x : FileMetaData I) (xs : List (FileMetaData I)) → In x xs → In x (insert_added ks f xs)
  unfolding insert_added
  insert-keeps f x [] m = elim m [ ]
  insert-keeps f x (g ∷ gs) m =
      if_lem (In x) (by_smallest_key ks f g) (λ t. inr m)
        (λ t.
          if_lem (In x) (by_smallest_key ks g f)
            (λ t'. elim m [ inl e ↦ inl e | inr r ↦ inr (insert-keeps f x gs r) ]) (λ t'. m))

  all-keeps :
      (x : FileMetaData I) (xs fs : List (FileMetaData I)) → In x xs → In x (insert_all ks xs fs)
  all-keeps x xs [] m = m
  all-keeps x xs (f ∷ fs) m = all-keeps x (insert_added ks f xs) fs (insert-keeps f x xs m)

  edit_file_from :
      (base : ℕ → List (FileMetaData I)) (edit : VersionEdit I) (level : ℕ) (f : FileMetaData I)
      → contains f.number ((apply ks new_builder edit).levels level).deleted_files
        ≡ (deletes level f.number edit.deleted_files || false)
          && not (adds level f.number edit.new_files)
      → (In f (base level) ⊎ In f ((apply ks new_builder edit).levels level).added_files)
        × (contains f.number ((apply ks new_builder edit).levels level).deleted_files ≡ false)
      → In (level, f) edit.new_files
        ⊎ (In f (base level)
            × ((deletes level f.number edit.deleted_files ≡ false)
                ⊎ (adds level f.number edit.new_files ≡ true)))
  edit_file_from base edit level f gone (inr m, d) =
      elim (apply_added ks new_builder edit level f m) [
        | inl none_yet ↦ elim none_yet [ ]
        | inr new ↦ inl new
      ]
  edit_file_from base edit level f gone (inl m, d) = inr (m, ground arith)

module _ {U I : Type 0} {ks : KeySpace U I} (k : IsKeySpace ks) where
  -- Files that come neither before the other are the same to std::set.
  neither_first :
      (f g : FileMetaData I)
      → by_smallest_key ks f g ≡ false
      → by_smallest_key ks g f ≡ false
      → SameEntry ks f g
  unfolding by_smallest_key
  neither_first f g a b = elim (Order-cases ks.internal_cmp f.smallest g.smallest) [
    | inl l ↦ absurd (ground (arith, l))
    | inr (inl e) ↦
        let p = k.internal_order.path_of_eq f.smallest g.smallest e in
        let e' : ks.internal_cmp g.smallest f.smallest ≡ Ordering.eq =
          subst (λ x. ks.internal_cmp x f.smallest ≡ Ordering.eq) p
            (k.internal_order.same f.smallest) in
        (ground (arith, e, e'), sym p)
    | inr (inr h) ↦
        let l = k.internal_order.gt_flip f.smallest g.smallest h in absurd (ground (arith, l))
  ]

  -- After an insertion the file, or one that is the same to std::set, is there.
  insert-has :
      (f : FileMetaData I) (xs : List (FileMetaData I)) → HasEntry ks f (insert_added ks f xs)
  unfolding insert_added
  insert-has f [] = (f, inl refl, (refl, refl))
  insert-has f (g ∷ gs) =
      if_lem (HasEntry ks f) (by_smallest_key ks f g) (λ t. (f, inl refl, (refl, refl)))
        (λ t.
          if_lem (HasEntry ks f) (by_smallest_key ks g f)
            (λ t'. let (h, m, e) = insert-has f gs in (h, inr m, e))
            (λ t'. (g, inl refl, neither_first f g t t')))

  all-has :
      (f : FileMetaData I) (xs fs : List (FileMetaData I))
      → In f fs
      → HasEntry ks f (insert_all ks xs fs)
  all-has f xs [] m = elim m [ ]
  all-has f xs (x ∷ fs) (inl e) =
      let (h, m, same) = insert-has x xs in
      (h, all-keeps ks h (insert_added ks x xs) fs m, subst (λ y. SameEntry ks y h) (sym e) same)
  all-has f xs (x ∷ fs) (inr m) = all-has f (insert_added ks x xs) fs m

  apply-has :
      (edit : VersionEdit I) (level : ℕ) (f : FileMetaData I)
      → In (level, f) edit.new_files
      → HasEntry ks f ((apply ks new_builder edit).levels level).added_files
  unfolding apply
  apply-has edit level f m =
      let b1 = apply_pointers ks new_builder edit.compact_pointers in
      let b2 = apply_deletions ks b1 edit.deleted_files in
      subst (HasEntry ks f) (sym (additions_level ks b2 edit.new_files level)) (
        all-has f (b2.levels level).added_files (files_at ks level edit.new_files)
          (In-files_at ks level f edit.new_files m))

  -- Apply and SaveTo of one edit, on any base version. A base file that the edit does not delete at
  -- its level is kept. For a file that the edit adds to a level, the new level has a file of its
  -- number and its smallest key, though the edit may delete that number there as well. And every
  -- file of the new level is one that the edit adds there, or a base file whose number the edit
  -- either does not delete at that level or also adds there.
  pub edit_files :
      (base : ℕ → List (FileMetaData I)) (edit : VersionEdit I) (level : ℕ) (f : FileMetaData I)
      → (In f (base level)
          → deletes level f.number edit.deleted_files ≡ false
          → In f (save_to ks (apply ks new_builder edit) base level))
        × (In (level, f) edit.new_files
            → HasEntry ks f (save_to ks (apply ks new_builder edit) base level))
        × (In f (save_to ks (apply ks new_builder edit) base level)
            → In (level, f) edit.new_files
              ⊎ (In f (base level)
                  × ((deletes level f.number edit.deleted_files ≡ false)
                      ⊎ (adds level f.number edit.new_files ≡ true))))
  edit_files base edit level f =
      let s = (apply ks new_builder edit).levels level in
      let gone = apply_deleted ks new_builder edit level f.number in
      let there : (g : FileMetaData I)
          → In g (save_to ks (apply ks new_builder edit) base level) ↔ (
              (In g (base level) ⊎ In g s.added_files)
              × (contains g.number s.deleted_files ≡ false)) =
        λ g. unfold save_to in save_files-In ks s.deleted_files g (base level) s.added_files in
      (
        (λ m d. (there f).1 (inl m, gone ∙ (rw d refl))),
        (λ m.
            let (g, i, (n, e)) = apply-has edit level f m in
            let added =
              files_at-adds ks level f edit.new_files (In-files_at ks level f edit.new_files m) in
            let kept : contains f.number s.deleted_files ≡ false = gone ∙ (ground (arith, added)) in
            let kept' : contains g.number s.deleted_files ≡ false =
              ap (λ x. contains x s.deleted_files) n ∙ kept in
            (g, (there g).1 (inr i, kept'), (n, e))),
        (λ m. edit_file_from ks base edit level f gone ((there f).0 m)),
      )
