-- ===== src/Filter/Builder.antt =====
-- project/filter_block.cc: FilterBlockBuilder.
use leveldb_surf.Base.{
  ℕ, ◌-◌, ◌/◌, ◌%◌, ◌^◌, Bool, List, [], ◌∷◌, ◌++◌, length, take, drop, leb, ◌==◌, if◌then◌else◌,
}
use leveldb_surf.Filter.Policy.{Bytes, Coding, FilterPolicy}

-- kFilterBaseLg and kFilterBase.
abbrev pub filter_base_lg : ℕ
filter_base_lg = 11

abbrev pub filter_base : ℕ
filter_base = 2 ^ 11

-- The fields of the class; `tmp_keys_` lives only inside GenerateFilter.
pub record FilterBlockBuilder : Type 0 where
  pub keys : Bytes
  pub start : List ℕ
  pub result : Bytes
  pub filter_offsets : List ℕ

abbrev pub new_builder : FilterBlockBuilder
new_builder = record { keys = []; start = []; result = []; filter_offsets = [] }

-- The condition of the assert in StartBlock.
unfoldable pub start_block_assert : FilterBlockBuilder → ℕ → Bool
start_block_assert b block_offset = leb (length b.filter_offsets) (block_offset / filter_base)

-- StartBlock: no filter is cut, the keys go on accumulating.
unfoldable pub start_block : FilterBlockBuilder → ℕ → FilterBlockBuilder
start_block b block_offset = b

unfoldable pub add_key : FilterBlockBuilder → Bytes → FilterBlockBuilder
add_key b key = record b { start = b.start ++ length b.keys ∷ []; keys = b.keys ++ key }

-- The loop that fills `tmp_keys_`: one slice of `keys_` between each two neighbours of `start_`.
unfoldable pub slices : Bytes → List ℕ → List Bytes
slices keys (s ∷ t ∷ rest) = take (t - s) (drop s keys) ∷ slices keys (t ∷ rest)
slices keys _ = []

-- GenerateFilter after its fast path.
unfoldable pub append_filter : FilterPolicy → FilterBlockBuilder → FilterBlockBuilder
unfolding slices
append_filter policy b = record {
  keys = [];
  start = [];
  result = b.result ++ policy.create_filter (slices b.keys (b.start ++ length b.keys ∷ []));
  filter_offsets = b.filter_offsets ++ (length b.result % 2 ^ 32) ∷ [];
}

unfoldable pub generate_filter : FilterPolicy → FilterBlockBuilder → FilterBlockBuilder
unfolding append_filter
generate_filter policy b =
    if length b.start == 0
    then record b { filter_offsets = b.filter_offsets ++ (length b.result % 2 ^ 32) ∷ [] }
    else append_filter policy b

-- The bytes that Finish puts behind the filter: two offsets, the footer word and `base_lg_`.
unfoldable pub finish_layout : Coding → Bytes → Bytes
finish_layout c [] = c.put_fixed32 0 ++ filter_base_lg ∷ []
finish_layout c (x ∷ xs) =
    let array_offset = length (x ∷ xs) % 2 ^ 32 in
    (x ∷ xs)
    ++ (c.put_fixed32 0 ++ (c.put_fixed32 array_offset ++ (c.put_fixed32 array_offset ++ 32 ∷ [])))

-- Finish returns a slice of `result_`.
unfoldable pub finish : Coding → FilterPolicy → FilterBlockBuilder → FilterBlockBuilder × Bytes
unfolding generate_filter finish_layout
finish c policy b =
    let b' = if length b.start == 0 then b else generate_filter policy b in
    let block = finish_layout c b'.result in (record b' { result = block }, block)

-- The calls that the class comment allows before Finish: (StartBlock AddKey*)*.
pub data Call : Type 0 where
  starts : ℕ → Call
  adds : Bytes → Call

unfoldable pub call : FilterBlockBuilder → Call → FilterBlockBuilder
unfolding start_block add_key
call b (starts block_offset) = start_block b block_offset
call b (adds key) = add_key b key

unfoldable pub run : FilterBlockBuilder → List Call → FilterBlockBuilder
unfolding call
run b [] = b
run b (c ∷ cs) = run (call b c) cs
