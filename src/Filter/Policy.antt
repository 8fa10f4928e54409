-- ===== src/Filter/Policy.antt =====
-- project/filter_policy.h, and the fixed32 coding of util/coding.h, which is not in this
-- repository. A slice or a string is the list of its bytes.
use leveldb_surf.Base.{ℕ, ◌<◌, ◌^◌, ◌≡◌, Bool, true, List, ◌++◌, length, In, Compare, Le}

abbrev pub Bytes : Type 0
Bytes = List ℕ

-- `PutFixed32` as the bytes that it appends, and `DecodeFixed32` on the bytes from the pointer on.
pub record Coding : Type 0 where
  pub put_fixed32 : ℕ → Bytes
  pub decode_fixed32 : Bytes → ℕ

-- Four bytes, read back whatever follows them.
pub record IsCoding (c : Coding) : Type 0 where
  pub length_put : (x : ℕ) → length (c.put_fixed32 x) ≡ 4
  pub decode_put :
      (x : ℕ) (rest : Bytes) → x < 2 ^ 32 → c.decode_fixed32 (c.put_fixed32 x ++ rest) ≡ x

-- class FilterPolicy. `create_filter` gives the bytes that are appended to `*dst`.
pub record FilterPolicy : Type 0 where
  pub create_filter : List Bytes → Bytes
  pub key_may_match : Bytes → Bytes → Bool
  pub range_may_match : Bytes → Bytes → Bytes → Bool

-- What the comments of the interface ask of a policy, for keys ordered by `cmp`.
pub record IsSound (cmp : Compare Bytes) (p : FilterPolicy) : Type 0 where
  pub key_sound :
      (keys : List Bytes) (k : Bytes) → In k keys → p.key_may_match k (p.create_filter keys) ≡ true
  pub range_sound :
      (keys : List Bytes) (k lo hi : Bytes)
      → In k keys
      → Le cmp lo k
      → Le cmp k hi
      → p.range_may_match lo hi (p.create_filter keys) ≡ true
