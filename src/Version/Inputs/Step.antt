-- ===== src/Version/Inputs/Step.antt =====
-- What one walk over the files does.
use leveldb_surf.Base.{
  ◌≡◌, refl, ◌∙◌, sym, ap, subst, ◌⊎◌, inl, inr, Bool, true, false, not, ◌&&◌, Option, some, List,
  [], ◌∷◌, ◌++◌, arith, filter, All, In, Bool-cases,
}
use mathlib.Core.List.{append_assoc, append-nil}
use leveldb_surf.Version.Keys.{KeySpace}
use leveldb_surf.Version.Files.{FileMetaData}
use leveldb_surf.Version.Inputs.{Walk, finished, restarts, outside, starts_before, ends_after, pass}

module _ {U I : Type 0} (ks : KeySpace U I) (b e : Option U) where
  abbrev pub inside : FileMetaData I → Bool
  inside f = not (outside ks b e f)

  -- A file of the range that reaches over neither end.
  abbrev pub Within : FileMetaData I → Type 0
  Within f = inside f ≡ true → (starts_before ks b f ≡ false) × (ends_after ks e f ≡ false)

  -- Why a walk restarts: a file of the range reaches over an end, which moves there.
  abbrev pub Widens : List (FileMetaData I) → Option U → Option U → Type 0
  Widens files b' e' =
      (f : FileMetaData I) × In f files
      × (((starts_before ks b f ≡ true) × (b' ≡ some (ks.user_key f.smallest)) × (e' ≡ e))
          ⊎ ((ends_after ks e f ≡ true) × (b' ≡ b) × (e' ≡ some (ks.user_key f.largest))))

  -- The outcome of a walk over `rest` with the files `inputs` collected before.
  abbrev pub Outcome : List (FileMetaData I) → List (FileMetaData I) → Walk U I → Type 0
  Outcome rest inputs (finished xs) = (xs ≡ inputs ++ filter inside rest) × All Within rest
  Outcome rest inputs (restarts b' e') = Widens rest b' e'

  Outcome-cons :
      (f : FileMetaData I) (rest inputs more : List (FileMetaData I)) (r : Walk U I)
      → inputs ++ filter inside (f ∷ rest) ≡ more ++ filter inside rest
      → Within f
      → Outcome rest more r
      → Outcome (f ∷ rest) inputs r
  Outcome-cons f rest inputs more (finished xs) q w o = (o.0 ∙ sym q, (w, o.1))
  Outcome-cons f rest inputs more (restarts b' e') q w o = (o.0, inr o.1, o.2)

  filter-inside :
      (f : FileMetaData I) (rest : List (FileMetaData I))
      → outside ks b e f ≡ false
      → filter inside (f ∷ rest) ≡ f ∷ filter inside rest
  filter-inside f rest h = rw (h, filter)

  filter-outside :
      (f : FileMetaData I) (rest : List (FileMetaData I))
      → outside ks b e f ≡ true
      → filter inside (f ∷ rest) ≡ filter inside rest
  filter-outside f rest h = rw (h, filter)

  module _ (f : FileMetaData I) (rest inputs : List (FileMetaData I)) where
    pass-outside :
        (l0 : Bool)
        → outside ks b e f ≡ true
        → pass ks l0 b e (f ∷ rest) inputs ≡ pass ks l0 b e rest inputs
    unfolding pass
    pass-outside l0 h = rw h

    pass-keep :
        (l0 : Bool)
        → outside ks b e f ≡ false
        → l0 && starts_before ks b f ≡ false
        → l0 && ends_after ks e f ≡ false
        → pass ks l0 b e (f ∷ rest) inputs ≡ pass ks l0 b e rest (inputs ++ f ∷ [])
    unfolding pass
    pass-keep l0 h s t = rw (h, s, t)

    pass-left :
        outside ks b e f ≡ false
        → starts_before ks b f ≡ true
        → pass ks true b e (f ∷ rest) inputs ≡ restarts (some (ks.user_key f.smallest)) e
    unfolding pass
    pass-left h s = rw (h, s)

    pass-right :
        outside ks b e f ≡ false
        → starts_before ks b f ≡ false
        → ends_after ks e f ≡ true
        → pass ks true b e (f ∷ rest) inputs ≡ restarts b (some (ks.user_key f.largest))
    unfolding pass
    pass-right h s t = rw (h, s, t)

    regroup :
        outside ks b e f ≡ false
        → inputs ++ filter inside (f ∷ rest) ≡ (inputs ++ f ∷ []) ++ filter inside rest
    regroup h =
        ap (◌++◌ inputs) (filter-inside f rest h)
        ∙ sym (append_assoc inputs (f ∷ []) (filter inside rest))

  pub pass-level0 :
      (rest inputs : List (FileMetaData I)) → Outcome rest inputs (pass ks true b e rest inputs)
  pass-level0 [] inputs = unfold pass in (sym (append-nil inputs), tt)
  pass-level0 (f ∷ rest) inputs = elim (Bool-cases (outside ks b e f)) [
    | inl out ↦ subst (Outcome (f ∷ rest) inputs) (sym (pass-outside f rest inputs true out)) (
        Outcome-cons f rest inputs inputs _ (ap (◌++◌ inputs) (filter-outside f rest out))
          (λ h. absurd (ground arith)) (pass-level0 rest inputs))
    | inr in_range ↦ elim (Bool-cases (starts_before ks b f)) [
      | inl left ↦
          subst (Outcome (f ∷ rest) inputs) (sym (pass-left f rest inputs in_range left))
            (f, inl refl, inl (left, refl, refl))
      | inr not_left ↦ elim (Bool-cases (ends_after ks e f)) [
        | inl right ↦
            subst (Outcome (f ∷ rest) inputs)
              (sym (pass-right f rest inputs in_range not_left right))
              (f, inl refl, inr (right, refl, refl))
        | inr not_right ↦
            subst (Outcome (f ∷ rest) inputs)
              (sym (pass-keep f rest inputs true in_range not_left not_right))
              (Outcome-cons f rest inputs (inputs ++ f ∷ []) _ (regroup f rest inputs in_range)
                (λ h. (not_left, not_right)) (pass-level0 rest (inputs ++ f ∷ [])))
      ]
    ]
  ]

  -- Above level 0 a walk collects the files of the range.
  pub pass-sorted :
      (rest inputs : List (FileMetaData I))
      → pass ks false b e rest inputs ≡ finished (inputs ++ filter inside rest)
  pass-sorted [] inputs = unfold pass in ap finished (sym (append-nil inputs))
  pass-sorted (f ∷ rest) inputs = elim (Bool-cases (outside ks b e f)) [
    | inl out ↦
        pass-outside f rest inputs false out
        ∙ pass-sorted rest inputs
        ∙ ap (λ xs. finished (inputs ++ xs)) (sym (filter-outside f rest out))
    | inr in_range ↦
        pass-keep f rest inputs false in_range refl refl
        ∙ pass-sorted rest (inputs ++ f ∷ [])
        ∙ ap finished (sym (regroup f rest inputs in_range))
  ]
