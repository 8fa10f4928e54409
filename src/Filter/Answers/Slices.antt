-- ===== src/Filter/Answers/Slices.antt =====
-- The slices that GenerateFilter cuts are the keys that were added, in their order.
use leveldb_surf.Base.{
  ℕ, suc, ◌+◌, ◌-◌, ◌≡◌, refl, sym, ap, ap₂, List, [], ◌∷◌, ◌++◌, arith, length, take, drop,
  length-append, take-length-append, drop-length-append,
}
use mathlib.Core.List.{append_assoc, append-nil}
use leveldb_surf.Filter.Policy.{Bytes}
use leveldb_surf.Filter.Builder.{
  FilterBlockBuilder, new_builder, start_block, add_key, slices, Call, starts, adds, run,
}

abbrev pub flatten : List Bytes → Bytes
flatten [] = []
flatten (k ∷ ks) = k ++ flatten ks

-- Where each key ends, when the first begins at `n`.
abbrev pub bounds : ℕ → List Bytes → List ℕ
bounds n [] = []
bounds n (k ∷ ks) = (n + length k) ∷ bounds (n + length k) ks

abbrev pub keys_of : List Call → List Bytes
keys_of [] = []
keys_of (starts o ∷ cs) = keys_of cs
keys_of (adds k ∷ cs) = k ∷ keys_of cs

slice_lem :
    (n : ℕ) (pre k rest : Bytes)
    → n ≡ length pre
    → take (n + length k - n) (drop n (pre ++ (k ++ rest))) ≡ k
slice_lem n pre k rest e =
    let w : n + length k - n ≡ length k = omega arith in
    rw (w, e, drop-length-append pre (k ++ rest)) (take-length-append k rest)

slices-bounds :
    (pre : Bytes) (n : ℕ) (ks : List Bytes)
    → n ≡ length pre
    → slices (pre ++ flatten ks) (n ∷ bounds n ks) ≡ ks
unfolding slices
slices-bounds pre n [] e = refl
slices-bounds pre n (k ∷ ks) e =
    let there = slices-bounds (pre ++ k) (n + length k) ks (omega (arith, length-append pre k)) in
    ap₂ ◌∷◌ (slice_lem n pre k (flatten ks) e) (rw (append_assoc pre k (flatten ks)) at there)

length-bounds : (n : ℕ) (ks : List Bytes) → length (bounds n ks) ≡ length ks
length-bounds n [] = refl
length-bounds n (k ∷ ks) = ap suc (length-bounds (n + length k) ks)

bounds-append :
    (n : ℕ) (ks : List Bytes) (k : Bytes)
    → bounds n (ks ++ k ∷ []) ≡ bounds n ks ++ (n + length (flatten ks ++ k)) ∷ []
bounds-append n [] k = refl
bounds-append n (j ∷ ks) k =
    let e : n + length j + length (flatten ks ++ k) ≡ n + length (j ++ (flatten ks ++ k)) =
      omega (arith, length-append j (flatten ks ++ k)) in
    rw (append_assoc j (flatten ks) k, ← e)
      (ap (◌∷◌ (n + length j)) (bounds-append (n + length j) ks k))

flatten-append : (ks : List Bytes) (k : Bytes) → flatten (ks ++ k ∷ []) ≡ flatten ks ++ k
flatten-append [] k = append-nil k
flatten-append (j ∷ ks) k = rw (flatten-append ks k) (sym (append_assoc j (flatten ks) k))

pub record Holds (ks : List Bytes) (b : FilterBlockBuilder) : Type 0 where
  pub flat : b.keys ≡ flatten ks
  pub cuts : b.start ++ length b.keys ∷ [] ≡ 0 ∷ bounds 0 ks
  pub no_result : b.result ≡ []
  pub no_offsets : b.filter_offsets ≡ []

new_builder-Holds : Holds [] new_builder
new_builder-Holds = record { flat = refl; cuts = refl; no_result = refl; no_offsets = refl }

add_key-Holds :
    (ks : List Bytes) (b : FilterBlockBuilder) (k : Bytes)
    → Holds ks b
    → Holds (ks ++ k ∷ []) (add_key b k)
unfolding add_key
add_key-Holds ks b k h = record {
  flat = rw (h.flat) (sym (flatten-append ks k));
  cuts =
      let z : length (flatten ks ++ k) ≡ 0 + length (flatten ks ++ k) = omega arith in
      rw (h.cuts, h.flat, bounds-append 0 ks k) (ap (λ t. 0 ∷ (bounds 0 ks ++ t ∷ [])) z);
  no_result = h.no_result;
  no_offsets = h.no_offsets;
}

run-Holds :
    (ks : List Bytes) (b : FilterBlockBuilder) (cs : List Call)
    → Holds ks b
    → Holds (ks ++ keys_of cs) (run b cs)
unfolding run start_block
run-Holds ks b [] h = rw (append-nil ks) h
run-Holds ks b (starts o ∷ cs) h = run-Holds ks b cs h
run-Holds ks b (adds k ∷ cs) h =
    rw (← append_assoc ks (k ∷ []) (keys_of cs))
      (run-Holds (ks ++ k ∷ []) (add_key b k) cs (add_key-Holds ks b k h))

pub built-Holds : (cs : List Call) → Holds (keys_of cs) (run new_builder cs)
built-Holds cs = run-Holds [] new_builder cs new_builder-Holds

pub Holds-slices :
    (ks : List Bytes) (b : FilterBlockBuilder)
    → Holds ks b
    → slices b.keys (b.start ++ length b.keys ∷ []) ≡ ks
Holds-slices ks b h = rw (h.cuts, h.flat) (slices-bounds [] 0 ks refl)

-- A builder has a start for each key.
pub Holds-start :
    (ks : List Bytes) (b : FilterBlockBuilder) → Holds ks b → length b.start ≡ length ks
Holds-start ks b h =
    omega (arith, ap length h.cuts, length-append b.start (length b.keys ∷ []), length-bounds 0 ks)
