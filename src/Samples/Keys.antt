-- ===== src/Samples/Keys.antt =====
-- Numbers as internal keys, four to each user key, and a few files.
use leveldb_surf.Base.{ℕ, ◌*◌, ◌/◌, arith, IsOrder}
use Prim.Native.Nat.{compare}
use leveldb_surf.Version.Keys.{KeySpace, IsKeySpace}
use leveldb_surf.Version.Files.{FileMetaData}

abbrev pub numbers : KeySpace ℕ ℕ
numbers = record {
  user_cmp = compare;
  internal_cmp = compare;
  user_key = λ i. i / 4;
  seek_key = λ u. u * 4;
}

compare-IsOrder : IsOrder compare
compare-IsOrder = record {
  same = λ a. ground arith;
  path_of_eq = λ a b h. ground arith;
  lt_flip = λ a b h. ground arith;
  gt_flip = λ a b h. ground arith;
  lt_trans = λ a b c h k. ground arith;
}

pub numbers-IsKeySpace : IsKeySpace numbers
numbers-IsKeySpace = record {
  user_order = compare-IsOrder;
  internal_order = compare-IsOrder;
  user_first = λ a b h. ground arith;
  user_key-seek_key = λ u. omega arith;
  seek_key-least = λ a h. ground arith;
}

abbrev pub file : ℕ → ℕ → ℕ → FileMetaData ℕ
file number smallest largest = record {
  number = number;
  file_size = 100;
  smallest = smallest;
  largest = largest;
}
