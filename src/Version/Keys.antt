-- ===== src/Version/Keys.antt =====
-- The keys of db/dbformat.h, which is not in this repository: user keys with the user's comparator,
-- internal keys with InternalKeyComparator.
use leveldb_surf.Base.{◌≡◌, Compare, IsOrder, Lt, Le, lt_irrefl, Order-cases, inl, inr}

pub record KeySpace (U I : Type 0) : Type 0 where
  pub user_cmp : Compare U
  pub internal_cmp : Compare I
  pub user_key : I → U
  -- InternalKey(k, kMaxSequenceNumber, kValueTypeForSeek).
  pub seek_key : U → I

-- Internal keys are ordered by user key first, and the seek key of a user key comes before all
-- internal keys of that user key.
pub record IsKeySpace {U I : Type 0} (ks : KeySpace U I) : Type 0 where
  pub user_order : IsOrder ks.user_cmp
  pub internal_order : IsOrder ks.internal_cmp
  pub user_first :
      (a b : I) → Lt ks.user_cmp (ks.user_key a) (ks.user_key b) → Lt ks.internal_cmp a b
  pub user_key-seek_key : (u : U) → ks.user_key (ks.seek_key u) ≡ u
  pub seek_key-least : (a : I) → Le ks.internal_cmp (ks.seek_key (ks.user_key a)) a

module _ {U I : Type 0} {ks : KeySpace U I} (k : IsKeySpace ks) where
  -- An order of internal keys is one of their user keys.
  pub user_le : (a b : I) → Le ks.internal_cmp a b → Le ks.user_cmp (ks.user_key a) (ks.user_key b)
  user_le a b h g = h (
      k.internal_order.lt_flip b a
        (k.user_first b a (k.user_order.gt_flip (ks.user_key a) (ks.user_key b) g)))

  below_seek-gt :
      (a : I) (u : U) → Lt ks.internal_cmp a (ks.seek_key u) → ¬ Lt ks.user_cmp u (ks.user_key a)
  below_seek-gt a u h g =
      let seek_lt = k.user_first (ks.seek_key u) a (rw (k.user_key-seek_key u) g) in
      lt_irrefl k.internal_order a (k.internal_order.lt_trans a (ks.seek_key u) a h seek_lt)

  -- Below the seek key of `u` are just the internal keys of smaller user keys.
  pub below_seek :
      (a : I) (u : U) → Lt ks.internal_cmp a (ks.seek_key u) → Lt ks.user_cmp (ks.user_key a) u
  below_seek a u h = elim (Order-cases ks.user_cmp (ks.user_key a) u) [
    | inl lt ↦ lt
    | inr (inl eq) ↦
        let e : ks.user_key a ≡ u = k.user_order.path_of_eq (ks.user_key a) u eq in
        absurd (rw e at (k.seek_key-least a) (k.internal_order.lt_flip a (ks.seek_key u) h))
    | inr (inr gt) ↦ absurd (below_seek-gt a u h (k.user_order.gt_flip (ks.user_key a) u gt))
  ]

  pub not_below_seek :
      (a : I) (u : U) → Le ks.internal_cmp (ks.seek_key u) a → Le ks.user_cmp u (ks.user_key a)
  not_below_seek a u h = rw (k.user_key-seek_key u) at (user_le (ks.seek_key u) a h)
