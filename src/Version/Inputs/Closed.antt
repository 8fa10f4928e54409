-- ===== src/Version/Inputs/Closed.antt =====
-- What GetOverlappingInputs returns.
use leveldb_surf.Base.{
  ℕ, suc, ◌+◌, ◌≡◌, refl, ◌∙◌, sym, ap, subst, Bool, true, false, Option, none, some, List, [],
  arith, filter, In, In-All, In-filter, filter-In, Le, length, ◌==◌, le_lt_trans, lt_le_trans,
}
use mathlib.Core.Option
use leveldb_surf.Version.Keys.{KeySpace, IsKeySpace}
use leveldb_surf.Version.Files.{FileMetaData}
use leveldb_surf.Version.Inputs.{
  ends_before, starts_after, starts_before, ends_after, gather, get_overlapping_inputs,
}
use leveldb_surf.Version.Inputs.Step.{inside, Within, pass-sorted}
use leveldb_surf.Version.Inputs.Total.{Gathered, gather-level0, reach-le}

module _ {U I : Type 0} (ks : KeySpace U I) where
  -- The user-key ranges of two files meet.
  abbrev pub Overlaps : FileMetaData I → FileMetaData I → Type 0
  Overlaps f g =
      Le ks.user_cmp (ks.user_key f.smallest) (ks.user_key g.largest)
      × Le ks.user_cmp (ks.user_key g.smallest) (ks.user_key f.largest)

  -- The file is in the range [begin, end] of internal keys, by its user keys.
  abbrev pub in_range : Option I → Option I → FileMetaData I → Bool
  in_range begin end = inside ks (Option.map ks.user_key begin) (Option.map ks.user_key end)

module _ {U I : Type 0} {ks : KeySpace U I} (k : IsKeySpace ks) where
  not_ends_before :
      (b : Option U) (f g : FileMetaData I)
      → starts_before ks b f ≡ false
      → Le ks.user_cmp (ks.user_key f.smallest) (ks.user_key g.largest)
      → ends_before ks b g ≡ false
  not_ends_before none f g s l = refl
  not_ends_before (some b) f g s l =
      ground (arith, le_lt_trans k.user_order (ks.user_key f.smallest) (ks.user_key g.largest) b l)

  not_starts_after :
      (e : Option U) (f g : FileMetaData I)
      → ends_after ks e f ≡ false
      → Le ks.user_cmp (ks.user_key g.smallest) (ks.user_key f.largest)
      → starts_after ks e g ≡ false
  not_starts_after none f g t l = refl
  not_starts_after (some e) f g t l = ground (
    arith,
    lt_le_trans k.user_order e (ks.user_key g.smallest) (ks.user_key f.largest),
    k.user_order.gt_flip (ks.user_key g.smallest) e,
    k.user_order.lt_flip e (ks.user_key f.largest),
  )

  -- A file that meets a file lying within the range is in the range.
  overlap_inside :
      (b e : Option U) (f g : FileMetaData I)
      → starts_before ks b f ≡ false
      → ends_after ks e f ≡ false
      → Overlaps ks f g
      → inside ks b e g ≡ true
  overlap_inside b e f g s t o = rw (not_ends_before b f g s o.0, not_starts_after e f g t o.1)

  Gathered-closed :
      (files : List (FileMetaData I)) (b e : Option U) (xs : List (FileMetaData I))
      (f g : FileMetaData I)
      → Gathered k files b e xs
      → In f xs
      → In g files
      → Overlaps ks f g
      → In g xs
  Gathered-closed files b e xs f g (b', e', x, w, c) m n o =
      let in_files = filter-In (inside ks b' e') f files (subst (In f) x m) in
      let within = In-All (λ h. Within ks b' e' h) f files w in_files.0 in_files.1 in
      subst (In g) (sym x)
        (In-filter (inside ks b' e') g files n (overlap_inside b' e' f g within.0 within.1 o))

  Gathered-covers :
      (files : List (FileMetaData I)) (b e : Option U) (xs : List (FileMetaData I))
      (g : FileMetaData I)
      → Gathered k files b e xs
      → In g files
      → inside ks b e g ≡ true
      → In g xs
  Gathered-covers files b e xs g (b', e', x, w, c) n t =
      subst (In g) (sym x) (In-filter (inside ks b' e') g files n (c g t))

  -- At level 0, where files may overlap, GetOverlappingInputs ends on any files and bounds; it
  -- returns files of the level only, among them every file that meets the range, and with a file
  -- every file of the level whose user-key range meets that file's.
  pub level0_inputs-closed :
      (files : List (FileMetaData I)) (begin end : Option I)
      → (xs : List (FileMetaData I)) × (get_overlapping_inputs ks 0 files begin end ≡ some xs)
        × ((g : FileMetaData I) → In g xs → In g files)
        × ((g : FileMetaData I) → In g files → in_range ks begin end g ≡ true → In g xs)
        × ((f g : FileMetaData I) → In f xs → In g files → Overlaps ks f g → In g xs)
  level0_inputs-closed files begin end =
      let b = Option.map ks.user_key begin in
      let e = Option.map ks.user_key end in
      let (xs, r, d) =
        gather-level0 k files (suc (length files + length files)) b e (reach-le k files b e) in
      (
        xs,
        unfold get_overlapping_inputs in r,
        (λ g m. (filter-In (inside ks d.0 d.1) g files (subst (In g) d.2 m)).0),
        (λ g n t. Gathered-covers files b e xs g d n t),
        (λ f g m n o. Gathered-closed files b e xs f g d m n o),
      )

gather-sorted :
    {U I : Type 0} (ks : KeySpace U I) (files : List (FileMetaData I)) (b e : Option U) (fuel : ℕ)
    → gather ks (suc fuel) false files b e ≡ some (filter (inside ks b e) files)
unfolding gather
gather-sorted ks files b e fuel = rw (pass-sorted ks b e files [], gather)

-- At every other level GetOverlappingInputs ends after one walk and returns, in the order of the
-- level, just the files whose user-key range meets [begin, end], a null end being no bound.
pub sorted_inputs-eq :
    {U I : Type 0} (ks : KeySpace U I) (level : ℕ) (files : List (FileMetaData I))
    (begin end : Option I)
    → get_overlapping_inputs ks (suc level) files begin end
      ≡ some (filter (in_range ks begin end) files)
sorted_inputs-eq ks level files begin end =
    let above : (suc level == 0) ≡ false = ground arith in
    let b = Option.map ks.user_key begin in
    let e = Option.map ks.user_key end in
    unfold get_overlapping_inputs in
    (ap (λ l0. gather ks (suc (length files + length files)) l0 files b e) above
      ∙ gather-sorted ks files b e (length files + length files))
