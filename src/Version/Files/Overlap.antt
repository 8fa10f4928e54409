-- ===== src/Version/Files/Overlap.antt =====
-- SomeFileOverlapsRange: on disjoint sorted files the binary search decides what the scan decides.
use leveldb_surf.Base.{
  ℕ, suc, ◌^◌, ◌<◌, ◌≡◌, refl, sym, ap, ◌∙◌, inl, inr, Bool, true, false, not, Option, none, some,
  List, [], ◌∷◌, arith, length, get_elem?, All, leb, if◌then◌else◌, Lt, Le, lt_le_trans,
  le_lt_trans, le_of_not_lt, Bool-cases, ◌>>=◌,
}
use leveldb_surf.Version.Keys.{KeySpace, IsKeySpace, user_le, below_seek, not_below_seek}
use leveldb_surf.Version.Files.{
  FileMetaData, after_file, before_file, any_overlaps, first_index, some_file_overlaps_range,
}
use leveldb_surf.Version.Files.Search.{
  first_false, first_false-cong, FailsOn, is_below, find_file-first,
}

module _ {U I : Type 0} (ks : KeySpace U I) where
  -- Each file is a range, and each ends before every later one begins.
  abbrev pub IsDisjoint : List (FileMetaData I) → Type 0
  IsDisjoint [] = Unit
  IsDisjoint (f ∷ fs) =
      Le ks.internal_cmp f.smallest f.largest
      × All (λ g. Lt ks.internal_cmp f.largest g.smallest) fs
      × IsDisjoint fs

module _ {U I : Type 0} {ks : KeySpace U I} (k : IsKeySpace ks) where
  later_not_below :
      (key : I) (f : FileMetaData I) (gs : List (FileMetaData I))
      → is_below ks key f ≡ false
      → All (λ g. Lt ks.internal_cmp f.largest g.smallest) gs
      → IsDisjoint ks gs
      → All (λ g. is_below ks key g ≡ false) gs
  later_not_below key f [] h a d = tt
  later_not_below key f (g ∷ gs) h a d = (
    ground (
      arith,
      lt_le_trans k.internal_order f.largest g.smallest g.largest a.0 d.0,
      k.internal_order.lt_trans f.largest g.largest key,
    ),
    later_not_below key f gs h a.1 d.2,
  )

  IsDisjoint-FailsOn :
      (key : I) (fs : List (FileMetaData I)) → IsDisjoint ks fs → FailsOn (is_below ks key) fs
  IsDisjoint-FailsOn key [] d = tt
  IsDisjoint-FailsOn key (f ∷ fs) d =
      ((λ h. later_not_below key f fs h d.1 d.2), IsDisjoint-FailsOn key fs d.2)

  after_file-below :
      (u : U) (f : FileMetaData I) → after_file ks (some u) f ≡ is_below ks (ks.seek_key u) f
  unfolding after_file
  after_file-below u f = ground (
    arith,
    below_seek k f.largest u,
    not_below_seek k f.largest u,
    le_of_not_lt k.internal_order f.largest (ks.seek_key u),
    k.user_order.lt_flip (ks.user_key f.largest) u,
  )

  later_before :
      (hi : Option U) (f : FileMetaData I) (gs : List (FileMetaData I))
      → before_file ks hi f ≡ true
      → Le ks.internal_cmp f.smallest f.largest
      → All (λ g. Lt ks.internal_cmp f.largest g.smallest) gs
      → All (λ g. before_file ks hi g ≡ true) gs
  unfolding before_file
  later_before hi f [] h l a = tt
  later_before none f (g ∷ gs) h l a = absurd (cc)
  later_before (some u) f (g ∷ gs) h l a = (
    ground (
      arith,
      lt_le_trans k.user_order u (ks.user_key f.smallest) (ks.user_key g.smallest),
      user_le k f.smallest g.smallest,
      le_lt_trans k.internal_order f.smallest f.largest g.smallest l a.0,
    ),
    later_before (some u) f gs h l a.1,
  )

  none_overlaps :
      (lo hi : Option U) (gs : List (FileMetaData I))
      → All (λ g. before_file ks hi g ≡ true) gs
      → any_overlaps ks gs lo hi ≡ false
  unfolding any_overlaps
  none_overlaps lo hi [] h = refl
  none_overlaps lo hi (g ∷ gs) h = ground (arith, none_overlaps lo hi gs h.1)

  -- What the search does with the index of the first file that `lo` is not after.
  abbrev answer_at : List (FileMetaData I) → Option U → ℕ → Option Bool
  answer_at files hi i =
      if leb (length files) i
      then some false
      else (do f ← get_elem? files i; some (not (before_file ks hi f)))

  answer_at-scan :
      (lo hi : Option U) (files : List (FileMetaData I))
      → IsDisjoint ks files
      → answer_at files hi (first_false (after_file ks lo) files)
        ≡ some (any_overlaps ks files lo hi)
  unfolding any_overlaps
  answer_at-scan lo hi [] d = refl
  answer_at-scan lo hi (f ∷ fs) d = elim (Bool-cases (after_file ks lo f)) [
    | inl after ↦
        let e : leb (suc (length fs)) (suc (first_false (after_file ks lo) fs))
            ≡ leb (length fs) (first_false (after_file ks lo) fs) =
          ground arith in
        rw (after, e) (answer_at-scan lo hi fs d.2)
    | inr reaches ↦ elim (Bool-cases (before_file ks hi f)) [
      | inl before ↦
          rw (reaches, before, none_overlaps lo hi fs (later_before hi f fs before d.0 d.1))
            (ground arith)
      | inr overlap ↦ rw (reaches, overlap) (ground arith)
    ]
  ]

  first_index-scan :
      (lo : Option U) (files : List (FileMetaData I))
      → IsDisjoint ks files
      → length files < 2 ^ 31
      → first_index ks files lo ≡ some (first_false (after_file ks lo) files)
  unfolding first_index after_file
  first_index-scan none [] d small = refl
  first_index-scan none (f ∷ fs) d small = refl
  first_index-scan (some u) files d small =
      find_file-first ks (ks.seek_key u) files (IsDisjoint-FailsOn (ks.seek_key u) files d) small
      ∙ ap some (
          sym (
            first_false-cong (after_file ks (some u)) (is_below ks (ks.seek_key u)) files
              (after_file-below u)))

  -- On the files of a sorted level, each of which ends before the next begins, and of which there
  -- are fewer than 2^31, SomeFileOverlapsRange by binary search reads no file out of bounds and
  -- answers, for all bounds, given or null, what it answers by checking every file.
  pub some_file_overlaps_range-agrees :
      (files : List (FileMetaData I)) (lo hi : Option U)
      → IsDisjoint ks files
      → length files < 2 ^ 31
      → some_file_overlaps_range ks true files lo hi ≡ some_file_overlaps_range ks false files lo hi
  unfolding some_file_overlaps_range
  some_file_overlaps_range-agrees files lo hi d small =
      rw (first_index-scan lo files d small) (answer_at-scan lo hi files d)
