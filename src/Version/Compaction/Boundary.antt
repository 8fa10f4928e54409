-- ===== src/Version/Compaction/Boundary.antt =====
-- project/version_set.cc: AddBoundaryInputs ends and leaves no boundary file out.
use leveldb_surf.Base.{
  ℕ, zero, suc, ◌<◌, ◌≡◌, refl, ◌∙◌, sym, ap, ◌⊎◌, inl, inr, Bool, true, false, Option, none, some,
  List, [], ◌∷◌, ◌++◌, arith, All, In, Bool-cases, Option-cases, count, count-le, count-strict,
  length, is_gt, Le, Ordering, lt_le_trans, gt_trans,
}
use mathlib.Core.List.{append_assoc, append-nil}
use leveldb_surf.Version.Keys.{KeySpace, IsKeySpace}
use leveldb_surf.Version.Files.{FileMetaData}
use leveldb_surf.Version.Compaction.{
  largest_from, find_largest_key, is_boundary, closer, boundary_from, find_smallest_boundary_file,
  boundary_loop, add_boundary_inputs,
}

module _ {U I : Type 0} (ks : KeySpace U I) where
  closer-case :
      (f : FileMetaData I) (best : Option (FileMetaData I)) (g : FileMetaData I)
      → some (closer ks f best) ≡ some g
      → (f ≡ g) ⊎ (best ≡ some g)
  unfolding closer
  closer-case f none g h = inl (grind arith)
  closer-case f (some b) g h = ground arith

  boundary_from-some :
      (key : I) (fs : List (FileMetaData I)) (best : Option (FileMetaData I)) (g : FileMetaData I)
      → boundary_from ks key best fs ≡ some g
      → (best ≡ some g) ⊎ (In g fs × (is_boundary ks key g ≡ true))
  unfolding boundary_from
  boundary_from-some key [] best g h = inl h
  boundary_from-some key (f ∷ fs) best g h = elim (Bool-cases (is_boundary ks key f)) [
    | inr t ↦ elim (boundary_from-some key fs best g (rw (t, boundary_from) at h)) [
      | inl e ↦ inl e
      | inr (m, b) ↦ inr (inr m, b)
    ]
    | inl t ↦
        elim (boundary_from-some key fs (some (closer ks f best)) g (rw (t, boundary_from) at h)) [
          | inr (m, b) ↦ inr (inr m, b)
          | inl e ↦ elim (closer-case f best g e) [
            | inl q ↦ inr (inl (sym q), rw (sym q) t)
            | inr q ↦ inl q
          ]
        ]
  ]

  boundary_from-none :
      (key : I) (fs : List (FileMetaData I)) (best : Option (FileMetaData I))
      → boundary_from ks key best fs ≡ none
      → (best ≡ none) × All (λ f. is_boundary ks key f ≡ false) fs
  unfolding boundary_from
  boundary_from-none key [] best h = (h, tt)
  boundary_from-none key (f ∷ fs) best h = elim (Bool-cases (is_boundary ks key f)) [
    | inl t ↦
        let ih = boundary_from-none key fs (some (closer ks f best)) (rw (t, boundary_from) at h) in
        absurd (grind (arith, ih.0))
    | inr t ↦
        let ih = boundary_from-none key fs best (rw (t, boundary_from) at h) in (ih.0, (t, ih.1))
  ]

  -- The files of the level that start after the key.
  abbrev pub after : I → FileMetaData I → Bool
  after key f = is_gt (ks.internal_cmp f.smallest key)

  abbrev pub AreRanges : List (FileMetaData I) → Type 0
  AreRanges fs = (f : FileMetaData I) → In f fs → Le ks.internal_cmp f.smallest f.largest

  -- The result: the files, then files of the level, and no boundary file of the largest key.
  abbrev pub IsClosed :
      List (FileMetaData I) → List (FileMetaData I) → List (FileMetaData I) → Type 0
  IsClosed level_files files r =
      (added : List (FileMetaData I)) × (key : I) × (r ≡ files ++ added)
      × ((f : FileMetaData I) → In f added → In f level_files)
      × (find_largest_key ks r ≡ some key)
      × All (λ f. is_boundary ks key f ≡ false) level_files

  is_boundary-after :
      (key : I) (f : FileMetaData I) → is_boundary ks key f ≡ true → after key f ≡ true
  unfolding is_boundary
  is_boundary-after key f h = ground arith

  largest_from-snoc :
      (fs : List (FileMetaData I)) (key : I) (f : FileMetaData I)
      → ks.internal_cmp f.largest (largest_from ks key fs) ≡ Ordering.gt
      → largest_from ks key (fs ++ f ∷ []) ≡ f.largest
  unfolding largest_from
  largest_from-snoc [] key f g = rw g refl
  largest_from-snoc (x ∷ xs) key f g = largest_from-snoc xs _ f g

  -- A file that ends after all others gives the largest key.
  find_largest_key-snoc :
      (fs : List (FileMetaData I)) (key : I) (f : FileMetaData I)
      → find_largest_key ks fs ≡ some key
      → ks.internal_cmp f.largest key ≡ Ordering.gt
      → find_largest_key ks (fs ++ f ∷ []) ≡ some f.largest
  unfolding find_largest_key
  find_largest_key-snoc [] key f h g = absurd (grind arith)
  find_largest_key-snoc (x ∷ xs) key f h g =
      let e : largest_from ks x.largest xs ≡ key = grind arith in
      ap some (largest_from-snoc xs x.largest f (rw e g))

module _ {U I : Type 0} {ks : KeySpace U I} (k : IsKeySpace ks) where
  after-gt :
      (key : I) (f : FileMetaData I)
      → after ks key f ≡ true
      → ks.internal_cmp f.smallest key ≡ Ordering.gt
  after-gt key f h = ground arith

  largest_after :
      (key : I) (f : FileMetaData I)
      → after ks key f ≡ true
      → Le ks.internal_cmp f.smallest f.largest
      → ks.internal_cmp f.largest key ≡ Ordering.gt
  largest_after key f h l = k.internal_order.lt_flip key f.largest (
      lt_le_trans k.internal_order key f.smallest f.largest
        (k.internal_order.gt_flip f.smallest key (after-gt key f h)) l)

  after_trans :
      (key : I) (f g : FileMetaData I)
      → after ks key f ≡ true
      → Le ks.internal_cmp f.smallest f.largest
      → after ks f.largest g ≡ true
      → after ks key g ≡ true
  after_trans key f g h l t =
      let e =
        gt_trans k.internal_order g.smallest f.largest key (after-gt f.largest g t)
          (largest_after key f h l) in
      rw e refl

  after_irrefl :
      (f : FileMetaData I) → Le ks.internal_cmp f.smallest f.largest → after ks f.largest f ≡ false
  after_irrefl f l = ground arith

  extend-IsClosed :
      (level_files files r : List (FileMetaData I)) (f : FileMetaData I)
      → In f level_files
      → IsClosed ks level_files (files ++ f ∷ []) r
      → IsClosed ks level_files files r
  extend-IsClosed level_files files r f m (added, key, e, within, largest, closed) = (
    f ∷ added,
    key,
    e ∙ append_assoc files (f ∷ []) added,
    λ g i. elim i [ inl q ↦ rw q m | inr j ↦ within g j ],
    largest,
    closed,
  )

  -- The loop ends: each file that it adds leaves fewer that start after the largest key.
  boundary_loop-IsClosed :
      (fuel : ℕ) (level_files files : List (FileMetaData I)) (key : I)
      → AreRanges ks level_files
      → find_largest_key ks files ≡ some key
      → count (after ks key) level_files < fuel
      → (r : List (FileMetaData I)) × (boundary_loop ks fuel level_files files key ≡ some r)
        × IsClosed ks level_files files r
  unfolding boundary_loop find_smallest_boundary_file
  boundary_loop-IsClosed zero level_files files key a e c = absurd (omega arith)
  boundary_loop-IsClosed (suc fuel) level_files files key a e c =
      elim (Option-cases (boundary_from ks key none level_files)) [
        | inl n ↦ (
          files,
          rw (boundary_loop, find_smallest_boundary_file, n) refl,
          (
            [],
            key,
            sym (append-nil files),
            (λ f m. elim m [ ]),
            e,
            (boundary_from-none ks key level_files none n).1,
          ),
        )
        | inr (f, n) ↦ elim (boundary_from-some ks key level_files none f n) [
          | inl q ↦ absurd (grind (arith, q))
          | inr (m, b) ↦
              let h = is_boundary-after ks key f b in
              let ih =
                boundary_loop-IsClosed fuel level_files (files ++ f ∷ []) f.largest a
                  (find_largest_key-snoc ks files key f e (largest_after key f h (a f m)))
                  (let fewer =
                      count-strict (after ks f.largest) (after ks key)
                        (λ g t. after_trans key f g h (a f m) t) level_files f m
                        (after_irrefl f (a f m)) h in
                    omega arith) in
              (
                ih.0,
                rw (boundary_loop, find_smallest_boundary_file, n) ih.1,
                extend-IsClosed level_files files ih.0 f m ih.2,
              )
        ]
      ]

  -- AddBoundaryInputs ends, over a level of files that end no sooner than they start: it gives the
  -- files of a nonempty input, then files of the level, and no file of the level starts after the
  -- largest key of the result with the same user key.
  pub add_boundary_inputs-IsClosed :
      (level_files : List (FileMetaData I)) (f : FileMetaData I) (fs : List (FileMetaData I))
      → AreRanges ks level_files
      → (r : List (FileMetaData I)) × (add_boundary_inputs ks level_files (f ∷ fs) ≡ some r)
        × IsClosed ks level_files (f ∷ fs) r
  unfolding add_boundary_inputs find_largest_key
  add_boundary_inputs-IsClosed level_files f fs a =
      let key = largest_from ks f.largest fs in
      boundary_loop-IsClosed (suc (length level_files)) level_files (f ∷ fs) key a refl
        (let bound = count-le (after ks key) level_files in omega arith)
