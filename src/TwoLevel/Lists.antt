-- ===== src/TwoLevel/Lists.antt =====
-- Iterators that stand at a position of a list of entries, as leveldb/iterator.h documents them.
use leveldb_surf.Base.{
  ℕ, zero, suc, ◌+◌, ◌≡◌, refl, ap₂, true, false, some, List, [], ◌∷◌, ◌++◌, length, get_elem?,
  drop, ltb, ==_iff, arith,
}
use mathlib.Core.Option.{some-injective}
use leveldb_surf.Filter.Policy.{Bytes}
use leveldb_surf.Table.{bytes_eq}
use leveldb_surf.TwoLevel.{Iter}

-- The iterator's states stand at positions of lists; `entries` gives the list of a state, which no
-- operation changes, and the position of an invalid one is past its end.
pub record IsListIter {S K V : Type 0} (it : Iter S K V) (entries : S → List (K × V)) (pos : S → ℕ)
    : Type 0 where
  pub valid_eq : (s : S) → it.valid s ≡ ltb (pos s) (length (entries s))
  pub pos_first : (s : S) → pos (it.seek_to_first s) ≡ 0
  pub entries_first : (s : S) → entries (it.seek_to_first s) ≡ entries s
  pub pos_next : (s : S) → it.valid s ≡ true → pos (it.next s) ≡ pos s + 1
  pub entries_next : (s : S) → entries (it.next s) ≡ entries s
  pub entry_eq :
      (s : S) → it.valid s ≡ true → get_elem? (entries s) (pos s) ≡ some (it.key s, it.value s)

pub bytes_eq-path : (a b : Bytes) → bytes_eq a b ≡ true → a ≡ b
bytes_eq-path [] [] h = refl
bytes_eq-path [] (y ∷ ys) h = cc
bytes_eq-path (x ∷ xs) [] h = cc
bytes_eq-path (x ∷ xs) (y ∷ ys) h =
    let e : x ≡ y = (==_iff x y).0 (ground arith) in
    let h' : bytes_eq xs ys ≡ true = ground arith in ap₂ (◌∷◌) e (bytes_eq-path xs ys h')

module _ {A : Type 0} where
  pub drop-get_elem? :
      (xs : List A) (i : ℕ) (a : A) → get_elem? xs i ≡ some a → drop i xs ≡ a ∷ drop (i + 1) xs
  drop-get_elem? [] i a h = cc
  drop-get_elem? (x ∷ xs) zero a h = rw (some-injective x a h) refl
  drop-get_elem? (x ∷ xs) (suc i) a h =
      let e : suc i + 1 ≡ suc (i + 1) = omega arith in rw e (drop-get_elem? xs i a h)

  pub drop-past : (xs : List A) (i : ℕ) → ltb i (length xs) ≡ false → drop i xs ≡ []
  drop-past [] zero h = refl
  drop-past [] (suc i) h = refl
  drop-past (x ∷ xs) zero h = absurd (ground arith)
  drop-past (x ∷ xs) (suc i) h = drop-past xs i (ground arith)

-- The entries of the blocks that the index entries point to, in order.
abbrev pub blocks : {K V : Type 0} → (Bytes → List (K × V)) → List (K × Bytes) → List (K × V)
blocks contents [] = []
blocks contents ((k, handle) ∷ es) = contents handle ++ blocks contents es
