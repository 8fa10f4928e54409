-- ===== src/Version/Inputs/Total.antt =====
-- The loop ends: at every restart fewer files reach over the range.
use leveldb_surf.Base.{
  ℕ, zero, suc, ◌+◌, ◌<◌, ◌≡◌, refl, inl, inr, true, false, Option, none, some, List, [], arith,
  filter, All, count, count-le, count-strict, length, gt_trans,
}
use leveldb_surf.Version.Keys.{KeySpace, IsKeySpace}
use leveldb_surf.Version.Files.{FileMetaData}
use leveldb_surf.Version.Inputs.{Walk, finished, restarts, starts_before, ends_after, pass, gather}
use leveldb_surf.Version.Inputs.Step.{inside, Within, Widens, Outcome, pass-level0}

module _ {U I : Type 0} {ks : KeySpace U I} (k : IsKeySpace ks) where
  -- Every file of the one range is a file of the other.
  abbrev pub Covers : Option U → Option U → Option U → Option U → Type 0
  Covers b e b' e' = (g : FileMetaData I) → inside ks b e g ≡ true → inside ks b' e' g ≡ true

  left_trans :
      (b : Option U) (f g : FileMetaData I)
      → starts_before ks b f ≡ true
      → starts_before ks (some (ks.user_key f.smallest)) g ≡ true
      → starts_before ks b g ≡ true
  left_trans none f g h t = cc
  left_trans (some u) f g h t =
      ground (arith, k.user_order.lt_trans (ks.user_key g.smallest) (ks.user_key f.smallest) u)

  right_trans :
      (e : Option U) (f g : FileMetaData I)
      → ends_after ks e f ≡ true
      → ends_after ks (some (ks.user_key f.largest)) g ≡ true
      → ends_after ks e g ≡ true
  right_trans none f g h t = cc
  right_trans (some u) f g h t =
      ground (arith, gt_trans k.user_order (ks.user_key g.largest) (ks.user_key f.largest) u)

  left_irrefl : (f : FileMetaData I) → starts_before ks (some (ks.user_key f.smallest)) f ≡ false
  left_irrefl f = ground (arith, k.user_order.same (ks.user_key f.smallest))

  right_irrefl : (f : FileMetaData I) → ends_after ks (some (ks.user_key f.largest)) f ≡ false
  right_irrefl f = ground (arith, k.user_order.same (ks.user_key f.largest))

  left-Covers :
      (b e : Option U) (f : FileMetaData I)
      → starts_before ks b f ≡ true
      → Covers b e (some (ks.user_key f.smallest)) e
  left-Covers none e f h g t = cc
  left-Covers (some u) e f h g t =
      ground (arith, k.user_order.lt_trans (ks.user_key g.largest) (ks.user_key f.smallest) u)

  right-Covers :
      (b e : Option U) (f : FileMetaData I)
      → ends_after ks e f ≡ true
      → Covers b e b (some (ks.user_key f.largest))
  right-Covers b none f h g t = cc
  right-Covers b (some u) f h g t =
      ground (arith, gt_trans k.user_order (ks.user_key g.smallest) (ks.user_key f.largest) u)

  module _ (files : List (FileMetaData I)) where
    abbrev pub reach : Option U → Option U → ℕ
    reach b e = count (starts_before ks b) files + count (ends_after ks e) files

    Widens-reach : (b e b' e' : Option U) → Widens ks b e files b' e' → reach b' e' < reach b e
    Widens-reach b e b' e' (f, m, inl (h, p, q)) =
        rw (p, q)
          (omega (
            arith,
            count-strict (starts_before ks (some (ks.user_key f.smallest))) (starts_before ks b)
                (λ g t. left_trans b f g h t) files f m (left_irrefl f) h,
          ))
    Widens-reach b e b' e' (f, m, inr (h, p, q)) =
        rw (p, q)
          (omega (
            arith,
            count-strict (ends_after ks (some (ks.user_key f.largest))) (ends_after ks e)
                (λ g t. right_trans e f g h t) files f m (right_irrefl f) h,
          ))

    Widens-Covers : (b e b' e' : Option U) → Widens ks b e files b' e' → Covers b e b' e'
    Widens-Covers b e b' e' (f, m, inl (h, p, q)) = rw (p, q) (left-Covers b e f h)
    Widens-Covers b e b' e' (f, m, inr (h, p, q)) = rw (p, q) (right-Covers b e f h)

    -- The files that the loop returns, and the range at which it stopped.
    abbrev pub Gathered : Option U → Option U → List (FileMetaData I) → Type 0
    Gathered b e xs =
        (b' : Option U) × (e' : Option U) × (xs ≡ filter (inside ks b' e') files)
        × All (Within ks b' e') files
        × Covers b e b' e'

    -- What a run of the loop from a range returns, with that much fuel.
    abbrev pub Returns : ℕ → Option U → Option U → Type 0
    Returns fuel b e =
        (xs : List (FileMetaData I)) × (gather ks fuel true files b e ≡ some xs) × Gathered b e xs

    gather_after :
        (fuel : ℕ) (b e : Option U) (w : Walk U I)
        → reach b e < suc fuel
        → ((b' e' : Option U) → reach b' e' < fuel → Returns fuel b' e')
        → pass ks true b e files [] ≡ w
        → Outcome ks b e files [] w
        → Returns (suc fuel) b e
    unfolding gather
    gather_after fuel b e (finished xs) h ih q o = (xs, rw (q, gather), (b, e, o.0, o.1, λ g t. t))
    gather_after fuel b e (restarts b' e') h ih q o =
        let less = Widens-reach b e b' e' o in
        let (xs, r, (b'', e'', x, w, c)) = ih b' e' (omega arith) in
        let wider = Widens-Covers b e b' e' o in
        (xs, rw (q, gather) r, (b'', e'', x, w, λ g t. c g (wider g t)))

    pub gather-level0 : (fuel : ℕ) (b e : Option U) → reach b e < fuel → Returns fuel b e
    gather-level0 zero b e h = absurd (omega arith)
    gather-level0 (suc fuel) b e h =
        gather_after fuel b e (pass ks true b e files []) h (gather-level0 fuel) refl
          (pass-level0 ks b e files [])

    pub reach-le : (b e : Option U) → reach b e < suc (length files + length files)
    reach-le b e =
        omega (arith, count-le (starts_before ks b) files, count-le (ends_after ks e) files)
