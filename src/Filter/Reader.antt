-- ===== src/Filter/Reader.antt =====
-- project/filter_block.cc: FilterBlockReader.
use leveldb_surf.Base.{
  ℕ, zero, suc, ◌+◌, ◌-◌, ◌*◌, ◌/◌, ◌^◌, Bool, true, false, ◌&&◌, [], length, take, drop, get_or,
  ltb, leb, ◌==◌, if◌then◌else◌,
}
use leveldb_surf.Filter.Policy.{Bytes, Coding, FilterPolicy}

-- `data_` is the bytes from the pointer on (none if it is null), `offset` is `offset_ - data_`.
pub record FilterBlockReader : Type 0 where
  pub contents : Bytes
  pub offset : ℕ
  pub num : ℕ
  pub base_lg : ℕ

-- A `char` widened to `size_t`: `char` is signed.
unfoldable pub widen : ℕ → ℕ
widen b = if ltb b 128 then b else b + (2 ^ 64 - 256)

-- The constructor, past the first length test.
unfoldable pub open_trailer : Coding → Bytes → FilterBlockReader
unfolding widen
open_trailer c contents =
    let n = length contents in
    let base_lg = widen (get_or contents (n - 1) 0) in
    let last_word = c.decode_fixed32 (drop (n - 5) contents) in
    if ltb (n - 5) last_word
    then record { contents = []; offset = 0; num = 0; base_lg = base_lg }
    else record {
      contents = contents;
      offset = last_word;
      num = (n - 5 - last_word) / 4;
      base_lg = base_lg;
    }

unfoldable pub new_reader : Coding → Bytes → FilterBlockReader
unfolding open_trailer
new_reader c contents =
    if ltb (length contents) 5
    then record { contents = []; offset = 0; num = 0; base_lg = 0 }
    else open_trailer c contents

module _ (c : Coding) (r : FilterBlockReader) where
  -- The words `start` and `limit` of entry `index`.
  unfoldable pub entry_start : ℕ → ℕ
  entry_start index = c.decode_fixed32 (drop (r.offset + index * 4) r.contents)

  unfoldable pub entry_limit : ℕ → ℕ
  entry_limit index = c.decode_fixed32 (drop (r.offset + index * 4 + 4) r.contents)

module _ (c : Coding) (policy : FilterPolicy) (r : FilterBlockReader) where
  abbrev pub entry_fits : ℕ → ℕ → Bool
  entry_fits start limit = leb start limit && leb limit r.offset

  abbrev pub entry_filter : ℕ → ℕ → Bytes
  entry_filter start limit = take (limit - start) (drop start r.contents)

  unfoldable pub key_may_match : ℕ → Bytes → Bool
  unfolding entry_start entry_limit
  key_may_match block_offset key =
      let index = block_offset / 2 ^ r.base_lg in
      let start = entry_start c r index in
      let limit = entry_limit c r index in
      if ltb index r.num
      then (if entry_fits start limit
          then policy.key_may_match key (entry_filter start limit)
          else if start == limit
          then false
          else true)
      else true

  -- The loop of RangeMayMatch from entry `i` on, with the number of entries left.
  unfoldable pub range_loop : Bytes → Bytes → ℕ → ℕ → Bool
  unfolding entry_start entry_limit
  range_loop lo hi zero i = false
  range_loop lo hi (suc left) i =
      let start = entry_start c r i in
      let limit = entry_limit c r i in
      let rest = range_loop lo hi left (i + 1) in
      if entry_fits start limit && policy.range_may_match lo hi (entry_filter start limit)
      then true
      else rest

  unfoldable pub range_may_match : Bytes → Bytes → Bool
  unfolding range_loop
  range_may_match lo hi = range_loop lo hi r.num 0
