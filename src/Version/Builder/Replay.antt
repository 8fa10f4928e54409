-- ===== src/Version/Builder/Replay.antt =====
-- project/version_set.cc: one builder that applies two edits, and two builders that apply one each.
use leveldb_surf.Base.{
  ℕ, ◌≡◌, ◌≢◌, sym, ap, subst, ◌∙◌, Bool, true, false, not, ◌&&◌, ◌||◌, inl, inr, ◌⊎◌, List, [],
  ◌∷◌, arith, All, In, In-All, filter-IsSorted, IsSorted,
}
use leveldb_surf.Version.Keys.{KeySpace, IsKeySpace}
use leveldb_surf.Version.Files.{FileMetaData}
use leveldb_surf.Version.Builder.{
  VersionEdit, LevelState, Builder, contains, insert_added, apply_pointers, apply_deletions, apply,
  save_files, save_to,
}
use leveldb_surf.Version.Builder.Merge.{merge, kept, save_files-eq, save_files-In}
use leveldb_surf.Version.Builder.Edits.{
  deletes, adds, pointers_levels, deletions_added, In-insert_added, apply_deleted,
}
use leveldb_surf.Version.Builder.Strict.{
  Precedes, IsNew, All-of, In-insert, insert-IsStrict, merge-IsStrict, same_members,
}
use leveldb_surf.Version.Builder.Added.{
  files_at, insert_all, AllNew, additions_level, files_at-adds, not_added,
}

module _ {U I : Type 0} {ks : KeySpace U I} (k : IsKeySpace ks) where
  insert_all-IsStrict :
      (xs fs : List (FileMetaData I))
      → IsSorted (Precedes ks) xs
      → IsSorted (Precedes ks) (insert_all ks xs fs)
  insert_all-IsStrict xs [] s = s
  insert_all-IsStrict xs (f ∷ fs) s =
      insert_all-IsStrict (insert_added ks f xs) fs (insert-IsStrict k f xs s)

  -- A file that is there has none of the numbers that are added.
  other_number :
      (x : FileMetaData I) (xs fs : List (FileMetaData I))
      → AllNew ks xs fs
      → In x xs
      → All (λ f. x.number ≢ f.number) fs
  other_number x xs [] n m = tt
  other_number x xs (f ∷ fs) n m = (
    In-All (λ g. g.number ≢ f.number) x xs n.0 m,
    other_number x (insert_added ks f xs) fs n.1 (In-insert k f x xs n.0 (inr m)),
  )

  -- `all` has the members of `old` and of `new`, which has only new numbers.
  abbrev IsUnion : List (FileMetaData I) → List (FileMetaData I) → List (FileMetaData I) → Type 0
  IsUnion old new all =
      ((x : FileMetaData I) → In x all → In x old ⊎ In x new)
      × ((x : FileMetaData I) → In x old → In x all)
      × ((x : FileMetaData I) → In x new → In x all)
      × ((x : FileMetaData I) → In x new → IsNew ks x old)

  smaller-IsNew :
      (f : FileMetaData I) (xs ys : List (FileMetaData I))
      → ((x : FileMetaData I) → In x xs → In x ys)
      → IsNew ks f ys
      → IsNew ks f xs
  smaller-IsNew f xs ys h n =
      All-of (λ g. g.number ≢ f.number) xs (λ x m. In-All (λ g. g.number ≢ f.number) x ys n (h x m))

  insert-IsUnion :
      (f : FileMetaData I) (old new all : List (FileMetaData I))
      → IsNew ks f all
      → IsUnion old new all
      → IsUnion old (insert_added ks f new) (insert_added ks f all)
  insert-IsUnion f old new all n u =
      let n' = smaller-IsNew f new all u.2 n in
      (
        (λ x m. elim (In-insert_added ks x f all m) [
          | inl e ↦ inr (In-insert k f x new n' (inl e))
          | inr r ↦ elim (u.0 x r) [ inl o ↦ inl o | inr w ↦ inr (In-insert k f x new n' (inr w)) ]
        ]),
        (λ x m. In-insert k f x all n (inr (u.1 x m))),
        (λ x m. elim (In-insert_added ks x f new m) [
          | inl e ↦ In-insert k f x all n (inl e)
          | inr r ↦ In-insert k f x all n (inr (u.2 x r))
        ]),
        (λ x m. elim (In-insert_added ks x f new m) [
          | inl e ↦
              subst (λ (g : FileMetaData I). IsNew ks g old) (sym e) (smaller-IsNew f old all u.1 n)
          | inr r ↦ u.3 x r
        ]),
      )

  insert_all-IsUnion :
      (fs old new all : List (FileMetaData I))
      → AllNew ks all fs
      → IsUnion old new all
      → IsUnion old (insert_all ks new fs) (insert_all ks all fs)
  insert_all-IsUnion [] old new all n u = u
  insert_all-IsUnion (f ∷ fs) old new all n u =
      insert_all-IsUnion fs old (insert_added ks f new) (insert_added ks f all) n.1
        (insert-IsUnion f old new all n.0 u)

  insert_all-In :
      (x : FileMetaData I) (xs fs : List (FileMetaData I))
      → In x (insert_all ks xs fs)
      → In x xs ⊎ In x fs
  insert_all-In x xs [] m = inl m
  insert_all-In x xs (f ∷ fs) m = elim (insert_all-In x (insert_added ks f xs) fs m) [
    | inl l ↦ elim (In-insert_added ks x f xs l) [ inl e ↦ inr (inl e) | inr r ↦ inl r ]
    | inr r ↦ inr (inr r)
  ]

  save-IsStrict :
      (deleted : List ℕ) (base added : List (FileMetaData I))
      → IsSorted (Precedes ks) base
      → IsSorted (Precedes ks) added
      → All (λ a. IsNew ks a base) added
      → IsSorted (Precedes ks) (save_files ks deleted [] base added)
  save-IsStrict deleted base added s t n = rw (save_files-eq ks deleted base added) (
      filter-IsSorted (Precedes ks) (kept ks deleted) (merge ks base added)
        (merge-IsStrict k base added s t n))

  -- One level: an edit that deletes the numbers `del` and adds `fs`, whose numbers are those of
  -- `add`, after the deletions `d` and additions `added`; in one builder, or in one on the version
  -- of the earlier ones.
  level_replay :
      (del add : ℕ → Bool) (d d' once : List ℕ) (added fs : List (FileMetaData I))
      → IsSorted (Precedes ks) added
      → AllNew ks added fs
      → ((n : ℕ) → contains n d' ≡ (del n || contains n d) && not (add n))
      → ((n : ℕ) → contains n once ≡ (del n || false) && not (add n))
      → ((x : FileMetaData I) → In x added → add x.number ≡ false)
      → ((x : FileMetaData I) → In x fs → add x.number ≡ true)
      → save_files ks d' [] [] (insert_all ks added fs)
        ≡ save_files ks once [] (save_files ks d [] [] added) (insert_all ks [] fs)
  level_replay del add d d' once added fs s n h' h old new =
      let all = insert_all ks added fs in
      let fresh = insert_all ks [] fs in
      let base = save_files ks d [] [] added in
      let u =
        insert_all-IsUnion fs added [] added n
          ((λ x m. inl m), (λ x m. m), (λ x m. elim m [ ]), (λ x m. elim m [ ])) in
      let base_in : (x : FileMetaData I) → In x base → In x added =
        λ x m. elim ((save_files-In ks d x [] added).0 m).0 [ inl e ↦ elim e [ ] | inr r ↦ r ] in
      let added_new : (x : FileMetaData I) → In x fresh → add x.number ≡ true =
        λ x m. elim (insert_all-In x [] fs m) [ inl e ↦ elim e [ ] | inr r ↦ new x r ] in
      let nothing : All (λ a. IsNew ks a []) added =
        All-of (λ a. IsNew ks a []) added (λ x m. tt) in
      same_members k (save_files ks d' [] [] all) (save_files ks once [] base fresh)
        (save-IsStrict d' [] all tt (insert_all-IsStrict added fs s)
          (All-of (λ a. IsNew ks a []) all (λ x m. tt)))
        (save-IsStrict once base fresh (save-IsStrict d [] added tt s nothing)
          (insert_all-IsStrict [] fs tt)
          (All-of (λ a. IsNew ks a base) fresh
            (λ x m. smaller-IsNew x base added base_in (u.3 x m))))
        (λ x m.
          let (w, free) = (save_files-In ks d' x [] all).0 m in
          let once_eq = h x.number in
          let d_eq = h' x.number in
          elim w [
            | inl e ↦ elim e [ ]
            | inr r ↦ elim (u.0 x r) [
              | inl o ↦
                  let kept_there = old x o in
                  let d_free : contains x.number d ≡ false = ground arith in
                  let once_free : contains x.number once ≡ false = ground arith in
                  (save_files-In ks once x base fresh).1
                    (inl ((save_files-In ks d x [] added).1 (inr o, d_free)), once_free)
              | inr f ↦
                  let put_there = added_new x f in
                  let once_free : contains x.number once ≡ false = ground arith in
                  (save_files-In ks once x base fresh).1 (inr f, once_free)
            ]
          ])
        (λ x m.
          let (w, free) = (save_files-In ks once x base fresh).0 m in
          let once_eq = h x.number in
          let d_eq = h' x.number in
          elim w [
            | inl b ↦
                let d_free = ((save_files-In ks d x [] added).0 b).1 in
                let o = base_in x b in
                let kept_there = old x o in
                let d_free' : contains x.number d' ≡ false = ground arith in
                (save_files-In ks d' x [] all).1 (inr (u.1 x o), d_free')
            | inr f ↦
                let put_there = added_new x f in
                let d_free' : contains x.number d' ≡ false = ground arith in
                (save_files-In ks d' x [] all).1 (inr (u.2 x f), d_free')
          ])

  applied_added :
      (b : Builder I) (edit : VersionEdit I) (level : ℕ)
      → ((apply ks b edit).levels level).added_files
        ≡ insert_all ks (b.levels level).added_files (files_at ks level edit.new_files)
  unfolding apply
  applied_added b edit level =
      let b1 = apply_pointers ks b edit.compact_pointers in
      additions_level ks (apply_deletions ks b1 edit.deleted_files) edit.new_files level
      ∙ ap (λ xs. insert_all ks xs (files_at ks level edit.new_files))
          (deletions_added ks b1 edit.deleted_files level
            ∙ ap (λ (t : LevelState I). t.added_files)
                (pointers_levels ks b edit.compact_pointers level))

  -- A builder's added files stay in strict order.
  pub apply-IsStrict :
      (b : Builder I) (edit : VersionEdit I) (level : ℕ)
      → IsSorted (Precedes ks) (b.levels level).added_files
      → IsSorted (Precedes ks) ((apply ks b edit).levels level).added_files
  apply-IsStrict b edit level s =
      rw (applied_added b edit level)
        (insert_all-IsStrict (b.levels level).added_files (files_at ks level edit.new_files) s)

  -- What one builder makes of an edit after others is what a new builder makes of it on the version
  -- that they gave, at a level where the edit adds only files of new numbers.
  pub save_to-apply :
      (b : Builder I) (edit : VersionEdit I) (level : ℕ) (first : Builder I)
      (none_yet : ℕ → List (FileMetaData I))
      → first.levels level ≡ record { deleted_files = []; added_files = [] }
      → none_yet level ≡ []
      → IsSorted (Precedes ks) (b.levels level).added_files
      → AllNew ks (b.levels level).added_files (files_at ks level edit.new_files)
      → save_to ks (apply ks b edit) none_yet level
        ≡ save_to ks (apply ks first edit) (save_to ks b none_yet) level
  unfolding save_to
  save_to-apply b edit level first none_yet e z s n =
      let fs = files_at ks level edit.new_files in
      let once_added : ((apply ks first edit).levels level).added_files ≡ insert_all ks [] fs =
        applied_added first edit level
        ∙ ap (λ (t : LevelState I). insert_all ks t.added_files fs) e in
      let once : (m : ℕ)
          → contains m ((apply ks first edit).levels level).deleted_files
            ≡ (deletes level m edit.deleted_files || false) && not (adds level m edit.new_files) =
        λ m.
          apply_deleted ks first edit level m
          ∙ ap
              (λ (t : LevelState I).
                (deletes level m edit.deleted_files || contains m t.deleted_files)
                && not (adds level m edit.new_files))
              e in
      rw (z, applied_added b edit level, once_added)
        (level_replay (λ m. deletes level m edit.deleted_files) (λ m. adds level m edit.new_files)
          (b.levels level).deleted_files ((apply ks b edit).levels level).deleted_files
          ((apply ks first edit).levels level).deleted_files (b.levels level).added_files fs s n
          (apply_deleted ks b edit level) once
          (λ x m.
            not_added ks level x edit.new_files
              (other_number x (b.levels level).added_files fs n m))
          (λ x m. files_at-adds ks level x edit.new_files m))
