-- ===== src/Base/Order.antt =====
-- The comparators of include/leveldb/comparator.h and db/dbformat.h, which are not in this
-- repository: a three-way comparison, and what its documentation promises.
use Prim.Native.Nat.{Ordering}
use mathlib.Core.Path.{◌≡◌}
use mathlib.Core.Logic.{◌≢◌, ◌⊎◌}
use mathlib.Core.Bool.{Bool, true, false}
use native.Mathlib.Omega.{arith}

-- `r < 0`, `r > 0` and `r == 0` of a comparison's result.
abbrev pub is_lt : Ordering → Bool
is_lt r = elim r [ Ordering.lt ↦ true | _ ↦ false ]

abbrev pub is_gt : Ordering → Bool
is_gt r = elim r [ Ordering.gt ↦ true | _ ↦ false ]

abbrev pub is_eq : Ordering → Bool
is_eq r = elim r [ Ordering.eq ↦ true | _ ↦ false ]

abbrev pub Compare : Type 0 → Type 0
Compare K = K → K → Ordering

-- A total order: "< 0 iff a < b, == 0 iff a == b, > 0 iff a > b".
pub record IsOrder {K : Type 0} (cmp : Compare K) : Type 0 where
  pub same : (a : K) → cmp a a ≡ Ordering.eq
  pub path_of_eq : (a b : K) → cmp a b ≡ Ordering.eq → a ≡ b
  pub lt_flip : (a b : K) → cmp a b ≡ Ordering.lt → cmp b a ≡ Ordering.gt
  pub gt_flip : (a b : K) → cmp a b ≡ Ordering.gt → cmp b a ≡ Ordering.lt
  pub lt_trans : (a b c : K) → cmp a b ≡ Ordering.lt → cmp b c ≡ Ordering.lt → cmp a c ≡ Ordering.lt

module _ {K : Type 0} (cmp : Compare K) where
  abbrev pub Lt : K → K → Type 0
  Lt a b = cmp a b ≡ Ordering.lt

  abbrev pub Le : K → K → Type 0
  Le a b = cmp a b ≢ Ordering.gt

module _ {K : Type 0} {cmp : Compare K} (o : IsOrder cmp) where
  pub le_self : (a : K) → Le cmp a a
  le_self a h = ground (arith, o.same a)

  pub lt_irrefl : (a : K) → ¬ Lt cmp a a
  lt_irrefl a h = ground (arith, o.same a)

  pub lt_le_trans : (a b c : K) → Lt cmp a b → Le cmp b c → Lt cmp a c
  lt_le_trans a b c h k = grind (arith, o.lt_trans a b c, o.path_of_eq b c)

  pub le_lt_trans : (a b c : K) → Le cmp a b → Lt cmp b c → Lt cmp a c
  le_lt_trans a b c h k = grind (arith, o.lt_trans a b c, o.path_of_eq a b)

  pub le_trans : (a b c : K) → Le cmp a b → Le cmp b c → Le cmp a c
  le_trans a b c h k g = grind (arith, o.lt_trans a b c, o.path_of_eq a b, o.path_of_eq b c)

  pub gt_trans : (a b c : K) → cmp a b ≡ Ordering.gt → cmp b c ≡ Ordering.gt → cmp a c ≡ Ordering.gt
  gt_trans a b c h g = o.lt_flip c a (o.lt_trans c b a (o.gt_flip b c g) (o.gt_flip a b h))

  pub le_of_not_lt : (a b : K) → ¬ Lt cmp a b → Le cmp b a
  le_of_not_lt a b h k = h (o.gt_flip b a k)

  pub not_le_of_lt : (a b : K) → Lt cmp a b → ¬ Le cmp b a
  not_le_of_lt a b h k = k (o.lt_flip a b h)

module _ {K : Type 0} (cmp : Compare K) where
  pub Order-cases :
      (a b : K) → (cmp a b ≡ Ordering.lt) ⊎ ((cmp a b ≡ Ordering.eq) ⊎ (cmp a b ≡ Ordering.gt))
  Order-cases a b = ground arith
