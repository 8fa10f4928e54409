-- ===== src/Version/Builder/Added.antt =====
-- project/version_set.cc: the files that VersionSet::Builder::Apply adds at one level.
use leveldb_surf.Base.{
  ℕ, ◌≡◌, ◌≢◌, refl, sym, ap, ◌∙◌, true, false, inl, inr, List, [], ◌∷◌, arith, Bool-cases, All, In,
  ◌==◌, ==_iff, if◌then◌else◌,
}
use leveldb_surf.Version.Keys.{KeySpace}
use leveldb_surf.Version.Files.{FileMetaData}
use leveldb_surf.Version.Builder.{Builder, insert_added, add_file, apply_additions}
use leveldb_surf.Version.Builder.Edits.{adds}
use leveldb_surf.Version.Builder.Strict.{IsNew}

module _ {U I : Type 0} (ks : KeySpace U I) where
  -- The files that the edit adds at a level, and those inserted one after the other.
  abbrev pub files_at : ℕ → List (ℕ × FileMetaData I) → List (FileMetaData I)
  files_at level [] = []
  files_at level ((l, f) ∷ fs) =
      let rest = files_at level fs in if l == level then f ∷ rest else rest

  abbrev pub insert_all : List (FileMetaData I) → List (FileMetaData I) → List (FileMetaData I)
  insert_all xs [] = xs
  insert_all xs (f ∷ fs) = insert_all (insert_added ks f xs) fs

  -- No number is added twice, or is there already.
  abbrev pub AllNew : List (FileMetaData I) → List (FileMetaData I) → Type 0
  AllNew xs [] = Unit
  AllNew xs (f ∷ fs) = IsNew ks f xs × AllNew (insert_added ks f xs) fs

  pub additions_level :
      (b : Builder I) (fs : List (ℕ × FileMetaData I)) (level : ℕ)
      → ((apply_additions ks b fs).levels level).added_files
        ≡ insert_all (b.levels level).added_files (files_at level fs)
  unfolding apply_additions add_file
  additions_level b [] level = refl
  additions_level b ((l, f) ∷ fs) level =
      additions_level (add_file ks b l f) fs level ∙ (elim (Bool-cases (l == level)) [
        | inl same ↦ rw same (
            ap (λ i. insert_all (insert_added ks f (b.levels i).added_files) (files_at level fs))
              ((==_iff l level).0 same))
        | inr other ↦ rw other refl
      ])

  pub files_at-adds :
      (level : ℕ) (x : FileMetaData I) (fs : List (ℕ × FileMetaData I))
      → In x (files_at level fs)
      → adds level x.number fs ≡ true
  files_at-adds level x [] m = elim m [ ]
  files_at-adds level x ((l, f) ∷ fs) m = elim (Bool-cases (l == level)) [
    | inl same ↦ elim (rw same at m) [
      | inl e ↦
          let n : (f.number == x.number) ≡ true =
            (==_iff f.number x.number).1 (ap (λ g. g.number) (sym e)) in
          rw (same, n) refl
      | inr r ↦ let t = files_at-adds level x fs r in ground (arith, t)
    ]
    | inr other ↦ let t = files_at-adds level x fs (rw other at m) in ground (arith, t)
  ]

  pub not_added :
      (level : ℕ) (x : FileMetaData I) (fs : List (ℕ × FileMetaData I))
      → All (λ f. x.number ≢ f.number) (files_at level fs)
      → adds level x.number fs ≡ false
  not_added level x [] h = refl
  not_added level x ((l, f) ∷ fs) h = elim (Bool-cases (l == level)) [
    | inl same ↦
        let h' : All (λ f. x.number ≢ f.number) (f ∷ files_at level fs) = rw same at h in
        let t = not_added level x fs h'.1 in
        let n : (f.number == x.number) ≡ false = elim (Bool-cases (f.number == x.number)) [
          | inl e ↦ absurd (h'.0 (sym ((==_iff f.number x.number).0 e)))
          | inr e ↦ e
        ] in
        rw (same, n) t
    | inr other ↦ rw other (not_added level x fs (rw other at h))
  ]
