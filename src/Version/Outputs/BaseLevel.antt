-- ===== src/Version/Outputs/BaseLevel.antt =====
-- project/version_set.cc: the search of Compaction::IsBaseLevelForKey, in one level and over all.
use mathlib.Core.List.{append_assoc}
use leveldb_surf.Base.{
  zero, suc, true, ◌++◌, if◌then◌else◌, length, take, drop, ◌≤◌, ◌==◌, ==_iff, subst, ap, sym, ◌∙◌,
  take-length-append, length-append, All-append, All-map, Ordering, ◌-◌, ℕ, ◌+◌, ◌≡◌, refl, Bool,
  false, not, ◌&&◌, ◌||◌, List, [], ◌∷◌, All, arith, is_lt, is_gt, Lt, Le, if_lem, lt_le_trans,
  le_lt_trans,
}
use leveldb_surf.Version.Keys.{KeySpace, IsKeySpace, user_le}
use leveldb_surf.Version.Files.{FileMetaData}
use leveldb_surf.Version.Files.Overlap.{IsDisjoint}
use leveldb_surf.Version.Levels.{num_levels}
use leveldb_surf.Version.Outputs.{scan_level, set_pointer, scan_levels, is_base_level_for_key}

module _ {U I : Type 0} (ks : KeySpace U I) where
  -- The user key falls in the file's range.
  abbrev pub contains : U → FileMetaData I → Bool
  contains key f =
      not (is_gt (ks.user_cmp key (ks.user_key f.largest)))
      && not (is_lt (ks.user_cmp key (ks.user_key f.smallest)))

  abbrev pub any_contains : U → List (FileMetaData I) → Bool
  any_contains key [] = false
  any_contains key (f ∷ fs) = contains key f || any_contains key fs

module _ {U I : Type 0} {ks : KeySpace U I} (k : IsKeySpace ks) where
  starts_later :
      (key : U) (f g : FileMetaData I)
      → Lt ks.user_cmp key (ks.user_key f.smallest)
      → Le ks.internal_cmp f.smallest f.largest
      → Lt ks.internal_cmp f.largest g.smallest
      → contains ks key g ≡ false
  starts_later key f g h l t =
      let a : Lt ks.internal_cmp f.smallest g.smallest =
        le_lt_trans k.internal_order f.smallest f.largest g.smallest l t in
      let b = user_le k f.smallest g.smallest (λ e. ground arith) in
      let e = lt_le_trans k.user_order key (ks.user_key f.smallest) (ks.user_key g.smallest) h b in
      ground arith

  All-later :
      (key : U) (f : FileMetaData I) (fs : List (FileMetaData I))
      → Lt ks.user_cmp key (ks.user_key f.smallest)
      → Le ks.internal_cmp f.smallest f.largest
      → All (λ g. Lt ks.internal_cmp f.largest g.smallest) fs
      → any_contains ks key fs ≡ false
  All-later key f [] h l a = refl
  All-later key f (g ∷ fs) h l a = rw (starts_later key f g h l a.0) (All-later key f fs h l a.1)

  -- In a level whose files are disjoint and in order, the search that stops at the first file that
  -- ends at or after the key finds out whether any file from the pointer on contains the key.
  scan_level-contains :
      (key : U) (fs : List (FileMetaData I)) (ptr : ℕ)
      → IsDisjoint ks fs
      → (scan_level ks key fs ptr).0 ≡ any_contains ks key fs
  unfolding scan_level
  scan_level-contains key [] ptr d = refl
  scan_level-contains key (f ∷ fs) ptr d =
      if_lem (λ (z : Bool × ℕ). z.0 ≡ any_contains ks key (f ∷ fs))
        (is_gt (ks.user_cmp key (ks.user_key f.largest)))
        (λ e. rw e (scan_level-contains key fs (ptr + 1) d.2))
        (λ e.
          if_lem (λ (b : Bool). b ≡ any_contains ks key (f ∷ fs))
            (is_lt (ks.user_cmp key (ks.user_key f.smallest)))
            (λ t. let later = All-later key f fs (ground arith) d.0 d.1 in ground arith)
            (λ t. ground arith))

module _ {U I : Type 0} (ks : KeySpace U I) where
  abbrev pub is_passed : U → FileMetaData I → Bool
  is_passed key f = is_gt (ks.user_cmp key (ks.user_key f.largest))

  -- The files before the pointer all end before the key.
  abbrev pub Passed : U → List (FileMetaData I) → ℕ → Type 0
  Passed key fs ptr = (ptr ≤ length fs) × All (λ f. is_passed key f ≡ true) (take ptr fs)

  passed_contains :
      (key : U) (xs ys : List (FileMetaData I))
      → All (λ f. is_passed key f ≡ true) xs
      → any_contains ks key (xs ++ ys) ≡ any_contains ks key ys
  passed_contains key [] ys a = refl
  passed_contains key (x ∷ xs) ys a = rw a.0 (passed_contains key xs ys a.1)

  stop-Passed :
      (key : U) (pre ys : List (FileMetaData I)) (ptr : ℕ)
      → length pre ≡ ptr
      → All (λ f. is_passed key f ≡ true) pre
      → Passed key (pre ++ ys) ptr
  stop-Passed key pre ys ptr e a =
      let taken : take ptr (pre ++ ys) ≡ pre =
        ap (λ n. take n (pre ++ ys)) (sym e) ∙ take-length-append pre ys in
      let total = length-append pre ys in
      (omega arith, subst (All (λ f. is_passed key f ≡ true)) (sym taken) a)

  scan_level-Passed :
      (key : U) (fs pre : List (FileMetaData I)) (ptr : ℕ)
      → length pre ≡ ptr
      → All (λ f. is_passed key f ≡ true) pre
      → Passed key (pre ++ fs) (scan_level ks key fs ptr).1
  unfolding scan_level
  scan_level-Passed key [] pre ptr e a = stop-Passed key pre [] ptr e a
  scan_level-Passed key (f ∷ fs) pre ptr e a =
      if_lem (λ (z : Bool × ℕ). Passed key (pre ++ f ∷ fs) z.1) (is_passed key f)
        (λ t.
          let total = length-append pre (f ∷ []) in
          let longer : length (pre ++ f ∷ []) ≡ ptr + 1 = omega arith in
          subst (λ xs. Passed key xs (scan_level ks key fs (ptr + 1)).1)
            (append_assoc pre (f ∷ []) fs)
            (scan_level-Passed key fs (pre ++ f ∷ []) (ptr + 1) longer
              (All-append (λ g. is_passed key g ≡ true) pre (f ∷ []) a (t, tt))))
        (λ t. stop-Passed key pre (f ∷ fs) ptr e a)

  take-drop : (n : ℕ) (fs : List (FileMetaData I)) → take n fs ++ drop n fs ≡ fs
  take-drop zero fs = refl
  take-drop (suc n) [] = refl
  take-drop (suc n) (f ∷ fs) = ap (λ xs. f ∷ xs) (take-drop n fs)

  length-take : (n : ℕ) (fs : List (FileMetaData I)) → n ≤ length fs → length (take n fs) ≡ n
  length-take zero fs h = refl
  length-take (suc n) [] h = absurd (omega arith)
  length-take (suc n) (f ∷ fs) h = let ih = length-take n fs (omega arith) in omega arith

  drop-IsDisjoint :
      (n : ℕ) (fs : List (FileMetaData I)) → IsDisjoint ks fs → IsDisjoint ks (drop n fs)
  drop-IsDisjoint zero fs d = d
  drop-IsDisjoint (suc n) [] d = d
  drop-IsDisjoint (suc n) (f ∷ fs) d = drop-IsDisjoint n fs d.2

  -- Whether no file of the `left` levels from `lvl` on contains the key.
  abbrev pub levels_free : (ℕ → List (FileMetaData I)) → U → ℕ → ℕ → Bool
  levels_free files key zero lvl = true
  levels_free files key (suc left) lvl =
      let rest = levels_free files key left (lvl + 1) in
      if any_contains ks key (files lvl) then false else rest

module _ {U I : Type 0} {ks : KeySpace U I} (k : IsKeySpace ks) where
  search_level :
      (key : U) (fs : List (FileMetaData I)) (ptr : ℕ)
      → IsDisjoint ks fs
      → Passed ks key fs ptr
      → ((scan_level ks key (drop ptr fs) ptr).0 ≡ any_contains ks key fs)
        × Passed ks key fs (scan_level ks key (drop ptr fs) ptr).1
  search_level key fs ptr d p =
      let whole = take-drop ks ptr fs in
      (
        scan_level-contains k key (drop ptr fs) ptr (drop-IsDisjoint ks ptr fs d)
            ∙ sym (passed_contains ks key (take ptr fs) (drop ptr fs) p.1)
            ∙ ap (any_contains ks key) whole,
        subst (λ xs. Passed ks key xs (scan_level ks key (drop ptr fs) ptr).1) whole
            (scan_level-Passed ks key (drop ptr fs) (take ptr fs) ptr (length-take ks ptr fs p.0)
              p.1),
      )

  set_pointer-Passed :
      (files : ℕ → List (FileMetaData I)) (key : U) (ptrs : ℕ → ℕ) (lvl ptr : ℕ)
      → ((l : ℕ) → Passed ks key (files l) (ptrs l))
      → Passed ks key (files lvl) ptr
      → (l : ℕ) → Passed ks key (files l) (set_pointer ks ptrs lvl ptr l)
  set_pointer-Passed files key ptrs lvl ptr p q l =
      if_lem (Passed ks key (files l)) (l == lvl)
        (λ e. subst (λ m. Passed ks key (files m) ptr) (sym ((==_iff l lvl).0 e)) q) (λ e. p l)

  scan_levels-free :
      (files : ℕ → List (FileMetaData I)) (key : U) (left lvl : ℕ) (ptrs : ℕ → ℕ)
      → ((l : ℕ) → lvl ≤ l → IsDisjoint ks (files l))
      → ((l : ℕ) → Passed ks key (files l) (ptrs l))
      → ((scan_levels ks files key left lvl ptrs).0 ≡ levels_free ks files key left lvl)
        × ((l : ℕ) → Passed ks key (files l) ((scan_levels ks files key left lvl ptrs).1 l))
  unfolding scan_levels
  scan_levels-free files key zero lvl ptrs d p = (refl, p)
  scan_levels-free files key (suc left) lvl ptrs d p =
      let s = search_level key (files lvl) (ptrs lvl) (d lvl (omega arith)) (p lvl) in
      let found = scan_level ks key (drop (ptrs lvl) (files lvl)) (ptrs lvl) in
      let ptrs' = set_pointer ks ptrs lvl found.1 in
      let p' = set_pointer-Passed files key ptrs lvl found.1 p s.1 in
      let free = levels_free ks files key left (lvl + 1) in
      let chosen : (b : Bool)
          → found.0 ≡ b
          → (if any_contains ks key (files lvl) then false else free)
            ≡ (if b then false else free) =
        λ b t. ap (λ x. if x then false else free) (sym s.0 ∙ t) in
      let ih = scan_levels-free files key left (lvl + 1) ptrs' (λ l h. d l (omega arith)) p' in
      if_lem
        (λ (z : Bool × (ℕ → ℕ)).
          (z.0 ≡ levels_free ks files key (suc left) lvl)
          × ((l : ℕ) → Passed ks key (files l) (z.1 l)))
        found.0 (λ t. (sym (chosen true t), p')) (λ t. (ih.0 ∙ sym (chosen false t), ih.1))

  passed_later :
      (key key' : U) (f : FileMetaData I)
      → Le ks.user_cmp key key'
      → is_passed ks key f ≡ true
      → is_passed ks key' f ≡ true
  passed_later key key' f h t =
      let g : ks.user_cmp key (ks.user_key f.largest) ≡ Ordering.gt = ground arith in
      let below = k.user_order.gt_flip key (ks.user_key f.largest) g in
      let e =
        k.user_order.lt_flip (ks.user_key f.largest) key'
          (lt_le_trans k.user_order (ks.user_key f.largest) key key' below h) in
      rw e refl

  -- IsBaseLevelForKey, with level + 2 and the deeper levels disjoint and with pointers before which
  -- all files end before the key, says whether no file from level + 2 on contains the key, and
  -- leaves pointers that are fit for the next key, if that is not smaller.
  pub is_base_level_for_key-free :
      (files : ℕ → List (FileMetaData I)) (level : ℕ) (key : U) (ptrs : ℕ → ℕ)
      → ((l : ℕ) → level + 2 ≤ l → IsDisjoint ks (files l))
      → ((l : ℕ) → Passed ks key (files l) (ptrs l))
      → ((is_base_level_for_key ks files level key ptrs).0
          ≡ levels_free ks files key (num_levels - (level + 2)) (level + 2))
        × ((next : U)
            → Le ks.user_cmp key next
            → (l : ℕ)
            → Passed ks next (files l) ((is_base_level_for_key ks files level key ptrs).1 l))
  unfolding is_base_level_for_key
  is_base_level_for_key-free files level key ptrs d p =
      let s = scan_levels-free files key (num_levels - (level + 2)) (level + 2) ptrs d p in
      (
        s.0,
        λ next h l. (
          (s.1 l).0,
          All-map (λ f. is_passed ks key f ≡ true) (λ f. is_passed ks next f ≡ true)
              (λ f t. passed_later key next f h t) (take _ (files l)) (s.1 l).1,
        ),
      )
