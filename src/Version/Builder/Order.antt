-- ===== src/Version/Builder/Order.antt =====
-- The files of a level stay sorted by BySmallestKey.
use leveldb_surf.Base.{
  ℕ, ◌≡◌, true, false, inl, inr, List, [], ◌∷◌, arith, Bool-cases, All, All-append, All-map,
  IsSorted, filter-IsSorted, append-IsSorted, gt_trans,
}
use leveldb_surf.Version.Keys.{KeySpace, IsKeySpace}
use leveldb_surf.Version.Files.{FileMetaData}
use leveldb_surf.Version.Builder.{by_smallest_key, insert_added, save_files}
use leveldb_surf.Version.Builder.Merge.{below, from, merge, kept, save_files-eq}

module _ {U I : Type 0} (ks : KeySpace U I) where
  -- `g` does not come before `f`.
  abbrev pub InOrder : FileMetaData I → FileMetaData I → Type 0
  InOrder f g = by_smallest_key ks g f ≡ false

module _ {U I : Type 0} {ks : KeySpace U I} (k : IsKeySpace ks) where
  InOrder-trans : (f g h : FileMetaData I) → InOrder ks f g → InOrder ks g h → InOrder ks f h
  unfolding by_smallest_key
  InOrder-trans f g h p q = ground (
    arith,
    gt_trans k.internal_order h.smallest g.smallest f.smallest,
    k.internal_order.path_of_eq g.smallest f.smallest,
    k.internal_order.path_of_eq h.smallest g.smallest,
    k.internal_order.same f.smallest,
  )

  pub less_asym : (f g : FileMetaData I) → by_smallest_key ks f g ≡ true → InOrder ks f g
  unfolding by_smallest_key
  less_asym f g p = ground (
    arith,
    k.internal_order.lt_flip f.smallest g.smallest,
    k.internal_order.path_of_eq f.smallest g.smallest,
    k.internal_order.same f.smallest,
  )

  insert-All :
      (P : FileMetaData I → Type 0) (f : FileMetaData I) (xs : List (FileMetaData I))
      → P f
      → All P xs
      → All P (insert_added ks f xs)
  unfolding insert_added
  insert-All P f [] p h = (p, tt)
  insert-All P f (g ∷ gs) p h = elim (Bool-cases (by_smallest_key ks f g)) [
    | inl before ↦ rw before (p, h)
    | inr no_less ↦ elim (Bool-cases (by_smallest_key ks g f)) [
      | inl after ↦ rw (no_less, after) (h.0, insert-All P f gs p h.1)
      | inr same ↦ rw (no_less, same) h
    ]
  ]

  -- Adding a file keeps the added files sorted.
  pub insert_added-IsSorted :
      (f : FileMetaData I) (xs : List (FileMetaData I))
      → IsSorted (InOrder ks) xs
      → IsSorted (InOrder ks) (insert_added ks f xs)
  unfolding insert_added
  insert_added-IsSorted f [] s = (tt, tt)
  insert_added-IsSorted f (g ∷ gs) s = elim (Bool-cases (by_smallest_key ks f g)) [
    | inl before ↦
        let fg = less_asym f g before in
        rw before
          ((fg, All-map (InOrder ks g) (InOrder ks f) (λ h. InOrder-trans f g h fg) gs s.0), s)
    | inr no_less ↦ elim (Bool-cases (by_smallest_key ks g f)) [
      | inl after ↦
          rw (no_less, after)
            (insert-All (InOrder ks g) f gs no_less s.0, insert_added-IsSorted f gs s.1)
      | inr same ↦ rw (no_less, same) s
    ]
  ]

  below-le :
      (a : FileMetaData I) (base : List (FileMetaData I))
      → All (λ f. InOrder ks f a) (below ks a base)
  below-le a [] = tt
  below-le a (f ∷ base) = elim (Bool-cases (by_smallest_key ks a f)) [
    | inl stop ↦ rw (stop, below) tt
    | inr go ↦ rw (go, below) (go, below-le a base)
  ]

  pub from-All :
      (P : FileMetaData I → Type 0) (a : FileMetaData I) (base : List (FileMetaData I))
      → All P base
      → All P (from ks a base)
  from-All P a [] h = tt
  from-All P a (f ∷ base) h = elim (Bool-cases (by_smallest_key ks a f)) [
    | inl stop ↦ rw (stop, from) h
    | inr go ↦ rw (go, from) (from-All P a base h.1)
  ]

  pub below-All :
      (P : FileMetaData I → Type 0) (a : FileMetaData I) (base : List (FileMetaData I))
      → All P base
      → All P (below ks a base)
  below-All P a [] h = tt
  below-All P a (f ∷ base) h = elim (Bool-cases (by_smallest_key ks a f)) [
    | inl stop ↦ rw (stop, below) tt
    | inr go ↦ rw (go, below) (h.0, below-All P a base h.1)
  ]

  from-ge :
      (a : FileMetaData I) (base : List (FileMetaData I))
      → IsSorted (InOrder ks) base
      → All (InOrder ks a) (from ks a base)
  from-ge a [] s = tt
  from-ge a (f ∷ base) s = elim (Bool-cases (by_smallest_key ks a f)) [
    | inl stop ↦
        rw (stop, from)
          (
            less_asym a f stop,
            All-map (InOrder ks f) (InOrder ks a) (λ g. InOrder-trans a f g (less_asym a f stop))
                base s.0,
          )
    | inr go ↦ rw (go, from) (from-ge a base s.1)
  ]

  from-IsSorted :
      (a : FileMetaData I) (base : List (FileMetaData I))
      → IsSorted (InOrder ks) base
      → IsSorted (InOrder ks) (from ks a base)
  from-IsSorted a [] s = tt
  from-IsSorted a (f ∷ base) s = elim (Bool-cases (by_smallest_key ks a f)) [
    | inl stop ↦ rw (stop, from) s
    | inr go ↦ rw (go, from) (from-IsSorted a base s.1)
  ]

  below-IsSorted :
      (a : FileMetaData I) (base : List (FileMetaData I))
      → IsSorted (InOrder ks) base
      → IsSorted (InOrder ks) (below ks a base)
  below-IsSorted a [] s = tt
  below-IsSorted a (f ∷ base) s = elim (Bool-cases (by_smallest_key ks a f)) [
    | inl stop ↦ rw (stop, below) tt
    | inr go ↦ rw (go, below) (below-All (InOrder ks f) a base s.0, below-IsSorted a base s.1)
  ]

  pub merge-All :
      (P : FileMetaData I → Type 0) (base added : List (FileMetaData I))
      → All P base
      → All P added
      → All P (merge ks base added)
  merge-All P base [] h t = h
  merge-All P base (a ∷ added) h t =
      All-append P (below ks a base) (a ∷ merge ks (from ks a base) added) (below-All P a base h)
        (t.0, merge-All P (from ks a base) added (from-All P a base h) t.1)

  merge-IsSorted :
      (base added : List (FileMetaData I))
      → IsSorted (InOrder ks) base
      → IsSorted (InOrder ks) added
      → IsSorted (InOrder ks) (merge ks base added)
  merge-IsSorted base [] s t = s
  merge-IsSorted base (a ∷ added) s t =
      let rest = merge-All (InOrder ks a) (from ks a base) added (from-ge a base s) t.0 in
      append-IsSorted (InOrder ks) (below ks a base) (a ∷ merge ks (from ks a base) added)
        (below-IsSorted a base s)
        (rest, merge-IsSorted (from ks a base) added (from-IsSorted a base s) t.1)
        (All-map (λ f. InOrder ks f a)
          (λ f. All (InOrder ks f) (a ∷ merge ks (from ks a base) added))
          (λ f h. (h, All-map (InOrder ks a) (InOrder ks f) (λ g. InOrder-trans f a g h) _ rest))
          (below ks a base) (below-le a base))

  -- If the base files and the added files are sorted by smallest key, ties by number, then so are
  -- the files that SaveTo stores, whatever was deleted.
  pub save_files-IsSorted :
      (deleted : List ℕ) (base added : List (FileMetaData I))
      → IsSorted (InOrder ks) base
      → IsSorted (InOrder ks) added
      → IsSorted (InOrder ks) (save_files ks deleted [] base added)
  save_files-IsSorted deleted base added s t = rw (save_files-eq ks deleted base added) (
      filter-IsSorted (InOrder ks) (kept ks deleted) (merge ks base added)
        (merge-IsSorted base added s t))
