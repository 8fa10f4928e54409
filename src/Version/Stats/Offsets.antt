-- ===== src/Version/Stats/Offsets.antt =====
-- project/version_set.cc: the early exit of VersionSet::ApproximateOffsetOf.
use leveldb_surf.Base.{
  ℕ, ◌+◌, ◌≡◌, refl, ◌∙◌, true, false, not, List, [], ◌∷◌, All, arith, is_gt, Lt, Le, if◌then◌else◌,
  gt_trans, lt_le_trans, Ordering,
}
use leveldb_surf.Version.Keys.{KeySpace, IsKeySpace}
use leveldb_surf.Version.Files.{FileMetaData}
use leveldb_surf.Version.Files.Overlap.{IsDisjoint}
use leveldb_surf.Version.Stats.{level_offset}

module _ {U I : Type 0} {ks : KeySpace U I} (k : IsKeySpace ks)
    (table_offset : FileMetaData I → I → ℕ) where
  -- A file that starts after the key adds nothing.
  past_key :
      (ikey : I) (f : FileMetaData I) (n : ℕ)
      → is_gt (ks.internal_cmp f.smallest ikey) ≡ true
      → Le ks.internal_cmp f.smallest f.largest
      → (if not (is_gt (ks.internal_cmp f.largest ikey))
          then f.file_size + n
          else if is_gt (ks.internal_cmp f.smallest ikey)
          then n
          else table_offset f ikey + n)
        ≡ n
  past_key ikey f n h l =
      let s : ks.internal_cmp f.smallest ikey ≡ Ordering.gt = ground arith in
      let t =
        lt_le_trans k.internal_order ikey f.smallest f.largest
          (k.internal_order.gt_flip f.smallest ikey s) l in
      let g = k.internal_order.lt_flip ikey f.largest t in ground arith

  none_left :
      (ikey : I) (x : I) (fs : List (FileMetaData I))
      → ks.internal_cmp x ikey ≡ Ordering.gt
      → All (λ g. Lt ks.internal_cmp x g.smallest) fs
      → IsDisjoint ks fs
      → level_offset ks table_offset false ikey fs ≡ 0
  unfolding level_offset
  none_left ikey x [] h a d = refl
  none_left ikey x (f ∷ fs) h a d =
      let s =
        gt_trans k.internal_order f.smallest x ikey (k.internal_order.lt_flip x f.smallest a.0) h in
      past_key ikey f (level_offset ks table_offset false ikey fs) (ground arith) d.0
      ∙ none_left ikey x fs h a.1 d.2

  -- The early exit changes nothing: over files that are disjoint and in order, the loop with the
  -- `break` for levels above 0 gives the sum that it gives without.
  pub level_offset-sorted :
      (ikey : I) (fs : List (FileMetaData I))
      → IsDisjoint ks fs
      → level_offset ks table_offset true ikey fs ≡ level_offset ks table_offset false ikey fs
  unfolding level_offset
  level_offset-sorted ikey [] d = refl
  level_offset-sorted ikey (f ∷ fs) d =
      let ih = level_offset-sorted ikey fs d.2 in
      let past : ks.internal_cmp f.largest ikey ≡ Ordering.gt
          → level_offset ks table_offset false ikey fs ≡ 0 =
        λ g. none_left ikey f.largest fs g d.1 d.2 in
      ground (arith, ih, past)
