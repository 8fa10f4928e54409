-- ===== src/Version/Builder/Edits.antt =====
-- What the files of a version are after edits.
use leveldb_surf.Base.{
  ℕ, ◌≡◌, refl, ◌∙◌, sym, ap, ap₂, subst, Bool, true, false, not, ◌&&◌, ◌||◌, ◌⊎◌, inl, inr, none,
  List, [], ◌∷◌, arith, In, if◌then◌else◌, Bool-cases, ◌==◌, ==_iff,
}
use leveldb_surf.Version.Keys.{KeySpace}
use leveldb_surf.Version.Files.{FileMetaData}
use leveldb_surf.Version.Builder.{
  VersionEdit, LevelState, Builder, contains, erase, update, by_smallest_key, insert_added,
  add_file, apply_pointers, apply_deletions, apply_additions, apply,
}

-- The builder as its constructor makes it, with the pointers of the version set.
abbrev pub new_builder : {I : Type 0} → Builder I
new_builder = record {
  levels = λ level. record { deleted_files = []; added_files = [] };
  compact_pointer = λ level. none;
  allowed_seeks = λ number. 0;
}

-- The edit deletes, or adds, a file of that number at that level.
abbrev pub deletes : ℕ → ℕ → List (ℕ × ℕ) → Bool
deletes level number [] = false
deletes level number ((l, n) ∷ ds) = (l == level && n == number) || deletes level number ds

abbrev pub adds : {I : Type 0} → ℕ → ℕ → List (ℕ × FileMetaData I) → Bool
adds level number [] = false
adds level number ((l, f) ∷ fs) = (l == level && f.number == number) || adds level number fs

contains-erase : (n m : ℕ) (ms : List ℕ) → contains n (erase m ms) ≡ contains n ms && not (n == m)
contains-erase n m [] = refl
contains-erase n m (x ∷ ms) = ground (arith, contains-erase n m ms)

module _ {U I : Type 0} (ks : KeySpace U I) where
  pub pointers_levels :
      (b : Builder I) (ps : List (ℕ × I)) (level : ℕ)
      → (apply_pointers ks b ps).levels level ≡ b.levels level
  unfolding apply_pointers
  pointers_levels b [] level = refl
  pointers_levels b ((l, key) ∷ ps) level =
      pointers_levels (record b { compact_pointer = _ }) ps level

  deletions_deleted :
      (b : Builder I) (ds : List (ℕ × ℕ)) (level number : ℕ)
      → contains number ((apply_deletions ks b ds).levels level).deleted_files
        ≡ deletes level number ds || contains number (b.levels level).deleted_files
  unfolding apply_deletions
  deletions_deleted b [] level number = refl
  deletions_deleted b ((l, n) ∷ ds) level number =
      let state = record (b.levels l) { deleted_files = n ∷ (b.levels l).deleted_files } in
      let b' = record b { levels = update b.levels l state } in
      deletions_deleted b' ds level number ∙ (elim (Bool-cases (l == level)) [
        | inl same ↦ rw ((==_iff l level).0 same) (ground arith)
        | inr other ↦ rw other (ground arith)
      ])

  pub deletions_added :
      (b : Builder I) (ds : List (ℕ × ℕ)) (level : ℕ)
      → ((apply_deletions ks b ds).levels level).added_files ≡ (b.levels level).added_files
  unfolding apply_deletions
  deletions_added b [] level = refl
  deletions_added b ((l, n) ∷ ds) level =
      let state = record (b.levels l) { deleted_files = n ∷ (b.levels l).deleted_files } in
      let b' = record b { levels = update b.levels l state } in
      deletions_added b' ds level ∙ (elim (Bool-cases (l == level)) [
        | inl same ↦ rw ((==_iff l level).0 same) (ground arith)
        | inr other ↦ rw other (ground arith)
      ])

  additions_deleted :
      (b : Builder I) (fs : List (ℕ × FileMetaData I)) (level number : ℕ)
      → contains number ((apply_additions ks b fs).levels level).deleted_files
        ≡ contains number (b.levels level).deleted_files && not (adds level number fs)
  unfolding apply_additions
  additions_deleted b [] level number = ground arith
  additions_deleted b ((l, f) ∷ fs) level number =
      additions_deleted (add_file ks b l f) fs level number ∙ (elim (Bool-cases (l == level)) [
        | inl same ↦
            rw ((==_iff l level).0 same)
              (ground (arith, contains-erase number f.number (b.levels level).deleted_files))
        | inr other ↦ rw other (ground arith)
      ])

  In-insert_step :
      (f g x : FileMetaData I) (xs ys : List (FileMetaData I)) (p q : Bool)
      → (In f ys → (f ≡ g) ⊎ In f xs)
      → In f (if p then g ∷ x ∷ xs else if q then x ∷ ys else x ∷ xs)
      → (f ≡ g) ⊎ In f (x ∷ xs)
  In-insert_step f g x xs ys true q ih (inl e) = inl e
  In-insert_step f g x xs ys true q ih (inr m) = inr m
  In-insert_step f g x xs ys false true ih (inl e) = inr (inl e)
  In-insert_step f g x xs ys false true ih (inr m) = elim (ih m) [
    | inl e ↦ inl e
    | inr r ↦ inr (inr r)
  ]
  In-insert_step f g x xs ys false false ih m = inr m

  pub In-insert_added :
      (f g : FileMetaData I) (xs : List (FileMetaData I))
      → In f (insert_added ks g xs)
      → (f ≡ g) ⊎ In f xs
  unfolding insert_added
  In-insert_added f g [] (inl e) = inl e
  In-insert_added f g [] (inr m) = elim m [ ]
  In-insert_added f g (x ∷ xs) m =
      In-insert_step f g x xs (insert_added ks g xs) (by_smallest_key ks g x)
        (by_smallest_key ks x g) (In-insert_added f g xs) m

  added_same :
      (b : Builder I) (l level : ℕ) (g f : FileMetaData I)
      → (l == level) ≡ true
      → In f ((add_file ks b l g).levels level).added_files
      → In f (insert_added ks g (b.levels l).added_files)
  unfolding add_file
  added_same b l level g f e m = rw e at m

  added_other :
      (b : Builder I) (l level : ℕ) (g f : FileMetaData I)
      → (l == level) ≡ false
      → In f ((add_file ks b l g).levels level).added_files
      → In f (b.levels level).added_files
  unfolding add_file
  added_other b l level g f e m = rw e at m

  additions_added :
      (b : Builder I) (fs : List (ℕ × FileMetaData I)) (level : ℕ) (f : FileMetaData I)
      → In f ((apply_additions ks b fs).levels level).added_files
      → In f (b.levels level).added_files ⊎ In (level, f) fs
  unfolding apply_additions
  additions_added b [] level f m = inl m
  additions_added b ((l, g) ∷ fs) level f m =
      elim (additions_added (add_file ks b l g) fs level f m) [
        | inr later ↦ inr (inr later)
        | inl here ↦ elim (Bool-cases (l == level)) [
          | inl same ↦
              elim (In-insert_added f g (b.levels l).added_files
                (added_same b l level g f same here)) [
                  | inl e ↦ inr (inl (ap₂ (λ i h. (i, h)) (sym ((==_iff l level).0 same)) e))
                  | inr old ↦
                      inl (subst (λ i. In f (b.levels i).added_files) ((==_iff l level).0 same) old)
                ]
          | inr other ↦ inl (added_other b l level g f other here)
        ]
      ]

  -- The edits leave in a builder just this of the deletions and additions of one edit.
  pub apply_deleted :
      (b : Builder I) (edit : VersionEdit I) (level number : ℕ)
      → contains number ((apply ks b edit).levels level).deleted_files
        ≡ (deletes level number edit.deleted_files
            || contains number (b.levels level).deleted_files)
          && not (adds level number edit.new_files)
  unfolding apply
  apply_deleted b edit level number =
      let b1 = apply_pointers ks b edit.compact_pointers in
      let b2 = apply_deletions ks b1 edit.deleted_files in
      additions_deleted b2 edit.new_files level number
      ∙ ap (λ t. t && not (adds level number edit.new_files))
          (deletions_deleted b1 edit.deleted_files level number)
      ∙ ap
          (λ (s : LevelState I).
            (deletes level number edit.deleted_files || contains number s.deleted_files)
            && not (adds level number edit.new_files))
          (pointers_levels b edit.compact_pointers level)

  pub apply_added :
      (b : Builder I) (edit : VersionEdit I) (level : ℕ) (f : FileMetaData I)
      → In f ((apply ks b edit).levels level).added_files
      → In f (b.levels level).added_files ⊎ In (level, f) edit.new_files
  unfolding apply
  apply_added b edit level f m =
      let b1 = apply_pointers ks b edit.compact_pointers in
      let b2 = apply_deletions ks b1 edit.deleted_files in
      elim (additions_added b2 edit.new_files level f m) [
        | inr new ↦ inr new
        | inl old ↦ inl (
            subst (λ (s : LevelState I). In f s.added_files)
              (pointers_levels b edit.compact_pointers level)
              (subst (In f) (deletions_added b1 edit.deleted_files level) old))
      ]
