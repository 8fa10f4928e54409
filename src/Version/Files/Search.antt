-- ===== src/Version/Files/Search.antt =====
-- FindFile finds the first file whose largest key is not below the key.
use leveldb_surf.Base.{
  ℕ, zero, suc, ◌+◌, ◌-◌, ◌/◌, ◌%◌, ◌^◌, ◌≤◌, ◌<◌, ◌≡◌, refl, ap, ◌∙◌, ◌⊎◌, inl, inr, Bool, true,
  false, some, List, [], ◌∷◌, arith, length, get_elem?, All, get_elem?-some, ltb, ltb→lt,
  if◌then◌else◌, is_lt, Bool-cases,
}
use leveldb_surf.Version.Keys.{KeySpace}
use leveldb_surf.Version.Files.{FileMetaData, find_loop, find_file}

module _ {A : Type 0} (p : A → Bool) where
  -- The first position where the test fails, the length if there is none.
  abbrev pub first_false : List A → ℕ
  first_false [] = 0
  first_false (x ∷ xs) = if p x then suc (first_false xs) else 0

  -- Once the test fails it fails on.
  abbrev pub FailsOn : List A → Type 0
  FailsOn [] = Unit
  FailsOn (x ∷ xs) = (p x ≡ false → All (λ y. p y ≡ false) xs) × FailsOn xs

  All-get :
      (xs : List A) (i : ℕ) (y : A)
      → All (λ x. p x ≡ false) xs
      → get_elem? xs i ≡ some y
      → p y ≡ false
  All-get [] i y h e = cc
  All-get (x ∷ xs) zero y h e = ground arith
  All-get (x ∷ xs) (suc i) y h e = All-get xs i y h.1 e

  probe :
      (xs : List A) (i : ℕ) (y : A)
      → FailsOn xs
      → get_elem? xs i ≡ some y
      → ((p y ≡ true) × (i < first_false xs)) ⊎ ((p y ≡ false) × (first_false xs ≤ i))
  probe [] i y h e = cc
  probe (x ∷ xs) zero y h e = ground arith
  probe (x ∷ xs) (suc i) y h e = elim (Bool-cases (p x)) [
    | inl t ↦ rw t (ground (arith, probe xs i y h.1 e))
    | inr f ↦ rw f (inr (All-get xs i y (h.0 f) e, omega arith))
  ]

  first_false-le : (xs : List A) → first_false xs ≤ length xs
  first_false-le [] = omega arith
  first_false-le (x ∷ xs) = ground (arith, first_false-le xs)

pub first_false-cong :
    {A : Type 0} (p q : A → Bool) (xs : List A)
    → ((x : A) → p x ≡ q x)
    → first_false p xs ≡ first_false q xs
first_false-cong p q [] h = refl
first_false-cong p q (x ∷ xs) h = ground (arith, h x, first_false-cong p q xs h)

module _ {U I : Type 0} (ks : KeySpace U I) (key : I) where
  abbrev pub is_below : FileMetaData I → Bool
  is_below f = is_lt (ks.internal_cmp f.largest key)

  find_loop-first :
      (fuel : ℕ) (files : List (FileMetaData I)) (left right : ℕ)
      → FailsOn is_below files
      → length files < 2 ^ 31
      → left ≤ first_false is_below files
      → first_false is_below files ≤ right
      → right ≤ length files
      → right - left < fuel
      → find_loop ks fuel files key left right ≡ some (first_false is_below files)
  unfolding find_loop
  find_loop-first zero files left right mono small a b c h = absurd (omega arith)
  find_loop-first (suc fuel) files left right mono small a b c h =
      elim (Bool-cases (ltb left right)) [
        | inr done ↦ ground arith
        | inl more ↦
            let mid = ((left + right) % 2 ^ 32) / 2 in
            let lt : left < right = ltb→lt left right more in
            let m : mid ≡ (left + right) / 2 = omega arith in
            let (f, e) = get_elem?-some files mid (omega arith) in
            let s : (mid + 1) % 2 ^ 32 ≡ mid + 1 = omega arith in
            elim (probe is_below files mid f mono e) [
              | inl (t, u) ↦
                  rw (more, e, t, s)
                    (find_loop-first fuel files (mid + 1) right mono small (omega arith) b c
                      (omega arith))
              | inr (t, u) ↦
                  rw (more, e, t)
                    (find_loop-first fuel files left mid mono small a u (omega arith) (omega arith))
            ]
      ]

  -- On files whose largest keys do not fall below `key` again once they have reached it, as in
  -- every level above 0, and of which there are fewer than 2^31, the binary search reads no file
  -- out of bounds, ends, and returns the index that a scan from the left would find.
  pub find_file-first :
      (files : List (FileMetaData I))
      → FailsOn is_below files
      → length files < 2 ^ 31
      → find_file ks files key ≡ some (first_false is_below files)
  unfolding find_file
  find_file-first files mono small =
      let s : length files % 2 ^ 32 ≡ length files = omega arith in
      ap (λ right. find_loop ks (suc (length files)) files key 0 right) s
      ∙ find_loop-first (suc (length files)) files 0 (length files) mono small (omega arith)
          (first_false-le is_below files) (omega arith) (omega arith)
