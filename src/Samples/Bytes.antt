-- ===== src/Samples/Bytes.antt =====
-- Little-endian words, byte strings in their order, and a trie that keeps the first byte of each
-- key.
use leveldb_surf.Base.{
  ℕ, ◌+◌, ◌*◌, ◌/◌, ◌%◌, ◌≡◌, refl, Bool, true, false, ◌||◌, List, [], ◌∷◌, In, inl, inr, Compare,
  Ordering, arith, ◌==◌, Le,
}
use Prim.Native.Nat.{compare}
use leveldb_surf.Filter.Policy.{Bytes, Coding, IsCoding, IsSound}
use leveldb_surf.Filter.Surf.{
  SurfLib, IsSurf, create_filter, key_answer, range_answer, uncached_policy,
}
use leveldb_surf.Filter.Surf.Sound.{key_answer-true, range_answer-true}

abbrev pub little_endian : Coding
little_endian = record {
  put_fixed32 = λ x. x % 256 ∷ x / 256 % 256 ∷ x / 65536 % 256 ∷ x / 16777216 % 256 ∷ [];
  decode_fixed32 = word;
}
  where
    word : Bytes → ℕ
    word (a ∷ b ∷ c ∷ d ∷ rest) = a + b * 256 + c * 65536 + d * 16777216
    word _ = 0

abbrev pub bytewise : Compare Bytes
bytewise [] [] = Ordering.eq
bytewise [] (y ∷ ys) = Ordering.lt
bytewise (x ∷ xs) [] = Ordering.gt
bytewise (x ∷ xs) (y ∷ ys) = elim (compare x y) [
  | Ordering.lt ↦ Ordering.lt
  | Ordering.gt ↦ Ordering.gt
  | Ordering.eq ↦ bytewise xs ys
]

abbrev pub first_byte : Bytes → ℕ
first_byte [] = 0
first_byte (x ∷ xs) = x

abbrev pub first_bytes : List Bytes → Bytes
first_bytes [] = []
first_bytes (k ∷ ks) = first_byte k ∷ first_bytes ks

abbrev pub has_byte : Bytes → ℕ → Bool
has_byte [] b = false
has_byte (x ∷ xs) b = x == b || has_byte xs b

abbrev pub byte_trie : SurfLib Bytes
byte_trie = record {
  build = first_bytes;
  serialize = λ s. s;
  de_serialize = λ s. s;
  lookup_key = λ s k. has_byte s (first_byte k);
  lookup_range = λ s lo li hi ri. true;
}

pub little_endian-IsCoding : IsCoding little_endian
little_endian-IsCoding = record { length_put = λ x. refl; decode_put = λ x rest h. omega arith }

finds_byte :
    (keys : List Bytes) (k : Bytes) → In k keys → has_byte (first_bytes keys) (first_byte k) ≡ true
finds_byte [] k m = elim m [ ]
finds_byte (j ∷ keys) k (inl e) =
    let same : (first_byte j == first_byte j) ≡ true = ground arith in rw (e, same) refl
finds_byte (j ∷ keys) k (inr m) = rw (finds_byte keys k m) (ground arith)

pub byte_trie-IsSurf : IsSurf bytewise byte_trie
byte_trie-IsSurf = record {
  stored = λ keys o. refl;
  finds_key = λ keys k o. finds_byte keys k;
  finds_range = λ keys k lo hi o m l h. refl;
}

byte_key :
    (keys : List Bytes) (k : Bytes)
    → In k keys
    → key_answer byte_trie k (create_filter byte_trie keys) ≡ true
unfolding create_filter
byte_key [] k m = elim m [ ]
byte_key (j ∷ ks) k m = key_answer-true byte_trie _ k (finds_byte (j ∷ ks) k m)

byte_range :
    (keys : List Bytes) (k lo hi : Bytes)
    → In k keys
    → Le bytewise lo k
    → Le bytewise k hi
    → range_answer byte_trie lo hi (create_filter byte_trie keys) ≡ true
unfolding create_filter
byte_range [] k lo hi m l h = elim m [ ]
byte_range (j ∷ ks) k lo hi m l h = range_answer-true byte_trie _ lo hi refl

pub byte_policy-IsSound : IsSound bytewise (uncached_policy byte_trie)
byte_policy-IsSound = record { key_sound = byte_key; range_sound = byte_range }
