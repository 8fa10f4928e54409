-- ===== src/Version/Builder/Strict.antt =====
-- project/version_set.cc: lists in BySmallestKey's strict order, which their members determine.
use leveldb_surf.Base.{
  ◌≡◌, ◌≢◌, refl, sym, ap₂, subst, ◌∙◌, true, false, inl, inr, ◌⊎◌, List, [], ◌∷◌, arith,
  Bool-cases, All, All-map, In, In-All, IsSorted, append-IsSorted,
}
use leveldb_surf.Version.Keys.{KeySpace, IsKeySpace}
use leveldb_surf.Version.Files.{FileMetaData}
use leveldb_surf.Version.Builder.{by_smallest_key, insert_added}
use leveldb_surf.Version.Builder.Merge.{below, from, merge}
use leveldb_surf.Version.Builder.Order.{below-All, from-All, merge-All}

module _ {U I : Type 0} (ks : KeySpace U I) where
  abbrev pub Precedes : FileMetaData I → FileMetaData I → Type 0
  Precedes f g = by_smallest_key ks f g ≡ true

  -- No file of the list has the number.
  abbrev pub IsNew : FileMetaData I → List (FileMetaData I) → Type 0
  IsNew f = All (λ g. g.number ≢ f.number)

module _ {A : Type 0} where
  pub All-of : (P : A → Type 0) (xs : List A) → ((x : A) → In x xs → P x) → All P xs
  All-of P [] h = tt
  All-of P (x ∷ xs) h = (h x (inl refl), All-of P xs (λ y m. h y (inr m)))

module _ {U I : Type 0} {ks : KeySpace U I} (k : IsKeySpace ks) where
  Precedes-trans : (f g h : FileMetaData I) → Precedes ks f g → Precedes ks g h → Precedes ks f h
  unfolding by_smallest_key
  Precedes-trans f g h p q = ground (
    arith,
    k.internal_order.lt_trans f.smallest g.smallest h.smallest,
    k.internal_order.path_of_eq f.smallest g.smallest,
    k.internal_order.path_of_eq g.smallest h.smallest,
    k.internal_order.same f.smallest,
    k.internal_order.same g.smallest,
  )

  Precedes-irrefl : (f : FileMetaData I) → ¬ Precedes ks f f
  unfolding by_smallest_key
  Precedes-irrefl f p = ground (arith, k.internal_order.same f.smallest)

  -- Files of different numbers come one before the other.
  Precedes-total :
      (f g : FileMetaData I)
      → f.number ≢ g.number
      → by_smallest_key ks f g ≡ false
      → Precedes ks g f
  unfolding by_smallest_key
  Precedes-total f g n p = ground (
    arith,
    k.internal_order.gt_flip f.smallest g.smallest,
    k.internal_order.path_of_eq f.smallest g.smallest,
    k.internal_order.same f.smallest,
    k.internal_order.same g.smallest,
  )

  pub In-insert :
      (f x : FileMetaData I) (xs : List (FileMetaData I))
      → IsNew ks f xs
      → (x ≡ f) ⊎ In x xs
      → In x (insert_added ks f xs)
  unfolding insert_added
  In-insert f x [] n m = elim m [ inl e ↦ inl e | inr r ↦ elim r [ ] ]
  In-insert f x (g ∷ gs) n m = elim (Bool-cases (by_smallest_key ks f g)) [
    | inl before ↦ rw before m
    | inr no_less ↦
        let after = Precedes-total f g (λ e. n.0 (sym e)) no_less in
        rw (no_less, after)
          (elim m [
            | inl e ↦ inr (In-insert f x gs n.1 (inl e))
            | inr (inl e) ↦ inl e
            | inr (inr r) ↦ inr (In-insert f x gs n.1 (inr r))
          ])
  ]

  insert-All :
      (P : FileMetaData I → Type 0) (f : FileMetaData I) (xs : List (FileMetaData I))
      → P f
      → All P xs
      → All P (insert_added ks f xs)
  unfolding insert_added
  insert-All P f [] p h = (p, tt)
  insert-All P f (g ∷ gs) p h = elim (Bool-cases (by_smallest_key ks f g)) [
    | inl before ↦ rw before (p, h)
    | inr no_less ↦ elim (Bool-cases (by_smallest_key ks g f)) [
      | inl after ↦ rw (no_less, after) (h.0, insert-All P f gs p h.1)
      | inr same ↦ rw (no_less, same) h
    ]
  ]

  -- A std::set stays strictly ordered.
  pub insert-IsStrict :
      (f : FileMetaData I) (xs : List (FileMetaData I))
      → IsSorted (Precedes ks) xs
      → IsSorted (Precedes ks) (insert_added ks f xs)
  unfolding insert_added
  insert-IsStrict f [] s = (tt, tt)
  insert-IsStrict f (g ∷ gs) s = elim (Bool-cases (by_smallest_key ks f g)) [
    | inl before ↦ rw before (
      (before, All-map (Precedes ks g) (Precedes ks f) (λ h. Precedes-trans f g h before) gs s.0),
      s,
    )
    | inr no_less ↦ elim (Bool-cases (by_smallest_key ks g f)) [
      | inl after ↦
          rw (no_less, after) (insert-All (Precedes ks g) f gs after s.0, insert-IsStrict f gs s.1)
      | inr same ↦ rw (no_less, same) s
    ]
  ]

  below-before :
      (a : FileMetaData I) (base : List (FileMetaData I))
      → IsNew ks a base
      → All (λ f. Precedes ks f a) (below ks a base)
  below-before a [] n = tt
  below-before a (f ∷ base) n = elim (Bool-cases (by_smallest_key ks a f)) [
    | inl stop ↦ rw (stop, below) tt
    | inr go ↦ rw (go, below) (Precedes-total a f (λ e. n.0 (sym e)) go, below-before a base n.1)
  ]

  from-after :
      (a : FileMetaData I) (base : List (FileMetaData I))
      → IsSorted (Precedes ks) base
      → All (Precedes ks a) (from ks a base)
  from-after a [] s = tt
  from-after a (f ∷ base) s = elim (Bool-cases (by_smallest_key ks a f)) [
    | inl stop ↦
        rw (stop, from)
          (stop, All-map (Precedes ks f) (Precedes ks a) (λ g. Precedes-trans a f g stop) base s.0)
    | inr go ↦ rw (go, from) (from-after a base s.1)
  ]

  from-IsStrict :
      (a : FileMetaData I) (base : List (FileMetaData I))
      → IsSorted (Precedes ks) base
      → IsSorted (Precedes ks) (from ks a base)
  from-IsStrict a [] s = tt
  from-IsStrict a (f ∷ base) s = elim (Bool-cases (by_smallest_key ks a f)) [
    | inl stop ↦ rw (stop, from) s
    | inr go ↦ rw (go, from) (from-IsStrict a base s.1)
  ]

  below-IsStrict :
      (a : FileMetaData I) (base : List (FileMetaData I))
      → IsSorted (Precedes ks) base
      → IsSorted (Precedes ks) (below ks a base)
  below-IsStrict a [] s = tt
  below-IsStrict a (f ∷ base) s = elim (Bool-cases (by_smallest_key ks a f)) [
    | inl stop ↦ rw (stop, below) tt
    | inr go ↦ rw (go, below) (below-All k (Precedes ks f) a base s.0, below-IsStrict a base s.1)
  ]

  pub merge-IsStrict :
      (base added : List (FileMetaData I))
      → IsSorted (Precedes ks) base
      → IsSorted (Precedes ks) added
      → All (λ a. IsNew ks a base) added
      → IsSorted (Precedes ks) (merge ks base added)
  merge-IsStrict base [] s t n = s
  merge-IsStrict base (a ∷ added) s t n =
      let rest = merge-All k (Precedes ks a) (from ks a base) added (from-after a base s) t.0 in
      let later =
        All-map (λ b. IsNew ks b base) (λ b. IsNew ks b (from ks a base))
          (λ b h. from-All k (λ g. g.number ≢ b.number) a base h) added n.1 in
      append-IsSorted (Precedes ks) (below ks a base) (a ∷ merge ks (from ks a base) added)
        (below-IsStrict a base s)
        (rest, merge-IsStrict (from ks a base) added (from-IsStrict a base s) t.1 later)
        (All-map (λ f. Precedes ks f a)
          (λ f. All (Precedes ks f) (a ∷ merge ks (from ks a base) added))
          (λ f h. (h, All-map (Precedes ks a) (Precedes ks f) (λ g. Precedes-trans f a g h) _ rest))
          (below ks a base) (below-before a base n.0))

  same_head :
      (x y : FileMetaData I) (xs ys : List (FileMetaData I))
      → All (Precedes ks x) xs
      → All (Precedes ks y) ys
      → In x (y ∷ ys)
      → In y (x ∷ xs)
      → x ≡ y
  same_head x y xs ys s t (inl e) n = e
  same_head x y xs ys s t (inr m) (inl e) = sym e
  same_head x y xs ys s t (inr m) (inr n) = absurd (
      Precedes-irrefl x
        (Precedes-trans x y x (In-All (Precedes ks x) y xs s n) (In-All (Precedes ks y) x ys t m)))

  tail_member :
      (x y z : FileMetaData I) (xs ys : List (FileMetaData I))
      → All (Precedes ks x) xs
      → x ≡ y
      → In z xs
      → In z (y ∷ ys)
      → In z ys
  tail_member x y z xs ys s e m (inl q) =
      let before = In-All (Precedes ks x) z xs s m in
      absurd (Precedes-irrefl x (subst (Precedes ks x) (q ∙ sym e) before))
  tail_member x y z xs ys s e m (inr n) = n

  -- The same members in the same order are the same list.
  pub same_members :
      (xs ys : List (FileMetaData I))
      → IsSorted (Precedes ks) xs
      → IsSorted (Precedes ks) ys
      → ((x : FileMetaData I) → In x xs → In x ys)
      → ((x : FileMetaData I) → In x ys → In x xs)
      → xs ≡ ys
  same_members [] [] s t h g = refl
  same_members [] (y ∷ ys) s t h g = elim (g y (inl refl)) [ ]
  same_members (x ∷ xs) [] s t h g = elim (h x (inl refl)) [ ]
  same_members (x ∷ xs) (y ∷ ys) s t h g =
      let e = same_head x y xs ys s.0 t.0 (h x (inl refl)) (g y (inl refl)) in
      ap₂ (◌∷◌) e (
        same_members xs ys s.1 t.1 (λ z m. tail_member x y z xs ys s.0 e m (h z (inr m)))
          (λ z m. tail_member y x z ys xs t.0 (sym e) m (g z (inr m))))
