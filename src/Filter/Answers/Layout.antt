-- ===== src/Filter/Answers/Layout.antt =====
-- What the constructor and the entry reads of FilterBlockReader find in the block of Finish.
use leveldb_surf.Base.{
  ℕ, suc, ◌+◌, ◌-◌, ◌*◌, ◌%◌, ◌^◌, ◌<◌, ◌≡◌, ◌∙◌, List, [], ◌∷◌, ◌++◌, arith, length, take, drop,
  get_or, ◌==◌, false, length-append, drop-append, get_or-append, take-length-append,
}
use leveldb_surf.Filter.Policy.{Bytes, Coding, IsCoding, FilterPolicy}
use leveldb_surf.Filter.Builder.{
  FilterBlockBuilder, new_builder, finish_layout, filter_base_lg, finish, Call, run,
}
use leveldb_surf.Filter.Answers.Slices.{Holds, keys_of, built-Holds, Holds-slices, Holds-start}
use leveldb_surf.Filter.Reader.{FilterBlockReader, new_reader, entry_start, entry_limit}

abbrev pub framed : Coding → Bytes → ℕ → Bytes
framed c f n = f ++ (c.put_fixed32 0 ++ (c.put_fixed32 n ++ (c.put_fixed32 n ++ 32 ∷ [])))

abbrev pub framed_reader : Coding → Bytes → ℕ → FilterBlockReader
framed_reader c f n = record { contents = framed c f n; offset = n; num = 2; base_lg = 32 }

module _ {c : Coding} (ic : IsCoding c) (f : Bytes) (n : ℕ) (e : length f ≡ n)
    (small : n < 2 ^ 32) where
  length-framed : length (framed c f n) ≡ n + 13
  length-framed = omega (
    arith,
    e,
    length-append f (c.put_fixed32 0 ++ (c.put_fixed32 n ++ (c.put_fixed32 n ++ 32 ∷ []))),
    length-append (c.put_fixed32 0) (c.put_fixed32 n ++ (c.put_fixed32 n ++ 32 ∷ [])),
    length-append (c.put_fixed32 n) (c.put_fixed32 n ++ 32 ∷ []),
    length-append (c.put_fixed32 n) (32 ∷ []),
    ic.length_put 0,
    ic.length_put n,
  )

  word_first : c.decode_fixed32 (drop (n + 0) (framed c f n)) ≡ 0
  word_first =
      rw (drop-append 0 f (c.put_fixed32 0 ++ (c.put_fixed32 n ++ (c.put_fixed32 n ++ 32 ∷ []))) e)
        (ic.decode_put 0 _ (omega arith))

  word_second : c.decode_fixed32 (drop (n + 4) (framed c f n)) ≡ n
  word_second =
      rw
        (
          drop-append 4 f (c.put_fixed32 0 ++ (c.put_fixed32 n ++ (c.put_fixed32 n ++ 32 ∷ []))) e,
          drop-append 0 (c.put_fixed32 0) (c.put_fixed32 n ++ (c.put_fixed32 n ++ 32 ∷ []))
              (ic.length_put 0),
        )
        (ic.decode_put n _ small)

  word_third : c.decode_fixed32 (drop (n + 8) (framed c f n)) ≡ n
  word_third =
      rw
        (
          drop-append 8 f (c.put_fixed32 0 ++ (c.put_fixed32 n ++ (c.put_fixed32 n ++ 32 ∷ []))) e,
          drop-append 4 (c.put_fixed32 0) (c.put_fixed32 n ++ (c.put_fixed32 n ++ 32 ∷ []))
              (ic.length_put 0),
          drop-append 0 (c.put_fixed32 n) (c.put_fixed32 n ++ 32 ∷ []) (ic.length_put n),
        )
        (ic.decode_put n _ small)

  last_byte : get_or (framed c f n) (n + 12) 0 ≡ 32
  last_byte =
      get_or-append 12 f (c.put_fixed32 0 ++ (c.put_fixed32 n ++ (c.put_fixed32 n ++ 32 ∷ []))) 0 e
      ∙ get_or-append 8 (c.put_fixed32 0) (c.put_fixed32 n ++ (c.put_fixed32 n ++ 32 ∷ [])) 0
          (ic.length_put 0)
      ∙ get_or-append 4 (c.put_fixed32 n) (c.put_fixed32 n ++ 32 ∷ []) 0 (ic.length_put n)
      ∙ get_or-append 0 (c.put_fixed32 n) (32 ∷ []) 0 (ic.length_put n)

  pub new_reader-framed : new_reader c (framed c f n) ≡ framed_reader c f n
  unfolding new_reader
  new_reader-framed =
      let a : n + 13 - 5 ≡ n + 8 = omega arith in
      let b : n + 13 - 1 ≡ n + 12 = omega arith in
      rw (length-framed, a, b, last_byte, word_third) (ground arith)

  pub entry_start-first : entry_start c (framed_reader c f n) 0 ≡ 0
  unfolding entry_start
  entry_start-first = word_first

  pub entry_limit-first : entry_limit c (framed_reader c f n) 0 ≡ n
  unfolding entry_limit
  entry_limit-first = let a : n + 0 * 4 + 4 ≡ n + 4 = omega arith in rw (a, entry_limit) word_second

  pub entry_start-second : entry_start c (framed_reader c f n) 1 ≡ n
  unfolding entry_start
  entry_start-second = word_second

  pub entry_limit-second : entry_limit c (framed_reader c f n) 1 ≡ n
  unfolding entry_limit
  entry_limit-second = let a : n + 1 * 4 + 4 ≡ n + 8 = omega arith in rw (a, entry_limit) word_third

  pub filter-first : take (n - 0) (drop 0 (framed c f n)) ≡ f
  filter-first =
      let a : n - 0 ≡ length f = omega arith in
      rw a (
        take-length-append f (c.put_fixed32 0 ++ (c.put_fixed32 n ++ (c.put_fixed32 n ++ 32 ∷ []))))

  pub filter-second : take (n - n) (drop n (framed c f n)) ≡ []
  filter-second = let a : n - n ≡ 0 = omega arith in rw a

-- The bytes of the one filter over the keys; none are written when there are no keys.
abbrev pub filter_of : FilterPolicy → List Bytes → Bytes
filter_of policy [] = []
filter_of policy (k ∷ ks) = policy.create_filter (k ∷ ks)

-- The block that Finish returns after the calls.
abbrev pub block_of : Coding → FilterPolicy → List Call → Bytes
block_of c policy cs = (finish c policy (run new_builder cs)).1

finish-Holds :
    (c : Coding) (policy : FilterPolicy) (ks : List Bytes) (b : FilterBlockBuilder)
    → Holds ks b
    → (finish c policy b).1 ≡ finish_layout c (filter_of policy ks)
unfolding finish
finish-Holds c policy [] b h = rw (Holds-start [] b h, h.no_result)
finish-Holds c policy (k ∷ ks) b h =
    let kept : (suc (length ks) == 0) ≡ false = ground arith in
    rw (Holds-start (k ∷ ks) b h, h.no_result, kept, Holds-slices (k ∷ ks) b h)

-- The block is the layout of the one filter of all the keys, whatever the block offsets were.
pub block_of-layout :
    (c : Coding) (policy : FilterPolicy) (cs : List Call)
    → block_of c policy cs ≡ finish_layout c (filter_of policy (keys_of cs))
block_of-layout c policy cs =
    finish-Holds c policy (keys_of cs) (run new_builder cs) (built-Holds cs)

-- A filter of at least one byte is framed by its own length.
pub layout-framed :
    (c : Coding) (x : ℕ) (xs : Bytes)
    → length (x ∷ xs) < 2 ^ 32
    → finish_layout c (x ∷ xs) ≡ framed c (x ∷ xs) (length (x ∷ xs))
unfolding finish_layout
layout-framed c x xs small =
    let e : length (x ∷ xs) % 2 ^ 32 ≡ length (x ∷ xs) = omega arith in rw e

-- Without a filter the reader finds no entries.
pub layout-empty : {c : Coding} → IsCoding c → (new_reader c (finish_layout c [])).num ≡ 0
unfolding new_reader finish_layout
layout-empty {c} ic =
    let a : length (c.put_fixed32 0 ++ filter_base_lg ∷ []) ≡ 5 =
      omega (arith, length-append (c.put_fixed32 0) (filter_base_lg ∷ []), ic.length_put 0) in
    rw (a, ic.decode_put 0 (filter_base_lg ∷ []) (omega arith))
