-- ===== src/Version/Manifest/Scores.antt =====
-- project/version_set.cc: the level that VersionSet::Finalize chooses.
use leveldb_surf.Base.{
  ℕ, zero, suc, ◌+◌, ◌<◌, ◌≡◌, refl, sym, ◌∙◌, subst, true, false, Option, some, List, if_lem,
  Bool-cases, inl, inr, ◌⊎◌, arith, ◌==◌, ==_iff, subst,
}
use leveldb_surf.Version.Files.{FileMetaData}
use leveldb_surf.Version.Manifest.{Doubles, level_score, best_score, finalize}

-- No score is a NaN: `>` is a strict order in which any value compares with one of two that differ,
-- and the quotients of counts and sizes are above -1.
pub record IsDoubles {D : Type 0} (dbl : Doubles D) : Type 0 where
  pub gt_irrefl : (a : D) → dbl.gt a a ≡ false
  pub gt_trans : (a b c : D) → dbl.gt a b ≡ true → dbl.gt b c ≡ true → dbl.gt a c ≡ true
  pub gt_between : (a b c : D) → dbl.gt a c ≡ true → (dbl.gt a b ≡ true) ⊎ (dbl.gt b c ≡ true)
  pub files-above : (n : ℕ) → dbl.gt (dbl.files_over_trigger n) dbl.minus_one ≡ true

module _ {I D : Type 0} (dbl : Doubles D) (files : ℕ → List (FileMetaData I)) where
  abbrev score_of : ℕ → D
  score_of level = level_score dbl files level

  -- Of the levels below `level`, the first with the largest score, and that score.
  abbrev pub IsBest : ℕ → Option ℕ × D → Type 0
  IsBest level r =
      (l : ℕ) × (r.0 ≡ some l)
      × (l < level)
      × (r.1 ≡ level_score dbl files l)
      × ((i : ℕ) → i < level → dbl.gt (level_score dbl files i) r.1 ≡ false)
      × ((i : ℕ) → i < l → dbl.gt r.1 (level_score dbl files i) ≡ true)

  module _ (d : IsDoubles dbl) where
    below_next :
        (P : ℕ → Type 0) (level : ℕ)
        → ((i : ℕ) → i < level → P i)
        → P level
        → (i : ℕ) → i < level + 1
        → P i
    below_next P level h p i b = elim (Bool-cases (level == i)) [
      | inl e ↦ subst P ((==_iff level i).0 e) p
      | inr n ↦ h i (ground arith)
    ]

    taken :
        (level : ℕ) (r : Option ℕ × D)
        → IsBest level r
        → dbl.gt (score_of level) r.1 ≡ true
        → IsBest (level + 1) (some level, score_of level)
    taken level r (l, e, b, s, no_more, less) g = (
      level,
      refl,
      omega arith,
      refl,
      below_next (λ i. dbl.gt (score_of i) (score_of level) ≡ false) level
          (λ i h. elim (Bool-cases (dbl.gt (score_of i) (score_of level))) [
            | inl t ↦
                let c : true ≡ false =
                  sym (d.gt_trans (score_of i) (score_of level) r.1 t g) ∙ no_more i h in
                absurd cc
            | inr f ↦ f
          ])
          (d.gt_irrefl (score_of level)),
      λ i h. elim (d.gt_between (score_of level) (score_of i) r.1 g) [
        | inl t ↦ t
        | inr t ↦ let c : true ≡ false = sym t ∙ no_more i h in absurd cc
      ],
    )

    best_score-IsBest :
        (left level : ℕ) (best : Option ℕ) (score : D)
        → IsBest level (best, score)
        → IsBest (left + level) (best_score dbl files left level best score)
    unfolding best_score
    best_score-IsBest zero level best score h =
        let e : level ≡ 0 + level = omega arith in subst (λ n. IsBest n (best, score)) e h
    best_score-IsBest (suc left) level best score h =
        let e : left + (level + 1) ≡ suc left + level = omega arith in
        if_lem (IsBest (suc left + level)) (dbl.gt (score_of level) score)
          (λ g.
            subst
              (λ n. IsBest n (best_score dbl files left (level + 1) (some level) (score_of level)))
              e
              (best_score-IsBest left (level + 1) (some level) (score_of level)
                (taken level (best, score) h g)))
          (λ n.
            let (l, f, b, s, no_more, less) = h in
            subst (λ n. IsBest n (best_score dbl files left (level + 1) best score)) e
              (best_score-IsBest left (level + 1) best score (
                l,
                f,
                omega arith,
                s,
                below_next (λ i. dbl.gt (score_of i) score ≡ false) level no_more n,
                less,
              )))

    -- Finalize always chooses a level, other than the last: the first of those with the largest
    -- score, which it stores as the compaction's score. It holds for scores that are no NaN.
    pub finalize-IsBest :
        IsBest 6 ((finalize dbl files).compaction_level, (finalize dbl files).compaction_score)
    unfolding finalize best_score level_score
    finalize-IsBest =
        let first =
          below_next (λ i. dbl.gt (score_of i) (score_of 0) ≡ false) 0 (λ i h. absurd (omega arith))
            (d.gt_irrefl (score_of 0)) in
        rw (d.files-above _) (
          best_score-IsBest 5 1 (some 0) (score_of 0) (
            0,
            refl,
            omega arith,
            refl,
            (λ i h. first i (omega arith)),
            λ i h. absurd (omega arith),
          ))
