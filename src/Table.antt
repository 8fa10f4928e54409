-- ===== src/Table.antt =====
-- project/table.cc: class Table, with the counters of project/options.h.
pub mod Reading
use leveldb_surf.Base.{
  ℕ, suc, ◌+◌, ◌-◌, Bool, true, false, not, ◌&&◌, Option, none, some, List, [], ◌∷◌, ◌++◌, length,
  ltb, ◌==◌, if◌then◌else◌,
}
use leveldb_surf.Base.Status.{Status, is_ok}
use leveldb_surf.Filter.Policy.{Bytes, Coding, FilterPolicy}
use leveldb_surf.Filter.Reader.{FilterBlockReader, new_reader, key_may_match, range_may_match}

-- A status with a value on success.
pub data Result (A : Type 0) : Type 0 where
  ok : A → Result A
  err : Status → Result A

-- BlockHandle.
pub record BlockHandle : Type 0 where
  pub offset : ℕ
  pub size : ℕ

-- struct MetricsCounters.
pub record MetricsCounters : Type 0 where
  pub considered : ℕ
  pub pruned : ℕ
  pub opened : ℕ

abbrev pub count_pruned : MetricsCounters → MetricsCounters
count_pruned m = record m { considered = m.considered + 1; pruned = m.pruned + 1 }

abbrev pub count_opened : MetricsCounters → MetricsCounters
count_opened m = record m { considered = m.considered + 1; opened = m.opened + 1 }

-- `if (options.metrics_counters) …`
abbrev pub on_counters :
    (MetricsCounters → MetricsCounters) → Option MetricsCounters → Option MetricsCounters
on_counters f none = none
on_counters f (some m) = some (f m)

abbrev pub bytes_eq : Bytes → Bytes → Bool
bytes_eq [] [] = true
bytes_eq (x ∷ xs) (y ∷ ys) = x == y && bytes_eq xs ys
bytes_eq _ _ = false

-- Footers, blocks and their iterators (table/format.h, table/block.h) and files, which are not in
-- this repository. `meta_seek` is Seek on the metaindex block, with the key and value found.
pub record Format (F : Type 0) : Type 0 where
  pub encoded_length : ℕ
  pub read_footer : F → ℕ → Result Bytes
  pub decode_footer : Bytes → Result (BlockHandle × BlockHandle)
  pub read_block : F → Bool → BlockHandle → Result Bytes
  pub meta_seek : Bytes → Bytes → Option (Bytes × Bytes)
  pub decode_handle : Bytes → Option BlockHandle

-- The part of Options that a table reads; the policy comes with its name.
pub record Options : Type 0 where
  pub paranoid_checks : Bool
  pub filter_policy : Option (Bytes × FilterPolicy)

-- Table::Rep.
pub record Table (F : Type 0) : Type 0 where
  pub options : Options
  pub file : F
  pub metaindex_handle : BlockHandle
  pub index_block : Bytes
  pub filter : Option FilterBlockReader

module _ {F : Type 0} (c : Coding) (fmt : Format F) where
  -- ReadFilter: any failure leaves the table without a filter.
  unfoldable pub read_filter : F → Bool → Bytes → Option FilterBlockReader
  read_filter file verify value = elim (fmt.decode_handle value) [
    | none ↦ none
    | some handle ↦ elim (fmt.read_block file verify handle) [
      | err e ↦ none
      | ok block ↦ some (new_reader c block)
    ]
  ]

  -- ReadMeta from the metaindex block on; `name` is "filter." with the policy's name.
  unfoldable pub find_filter : F → Bool → Bytes → Bytes → Option FilterBlockReader
  unfolding read_filter
  find_filter file verify name meta = elim (fmt.meta_seek meta name) [
    | none ↦ none
    | some (key, value) ↦ if bytes_eq key name then read_filter file verify value else none
  ]

  unfoldable pub read_meta : Bytes → Options → F → BlockHandle → Option FilterBlockReader
  unfolding find_filter
  read_meta prefix options file metaindex = elim options.filter_policy [
    | none ↦ none
    | some (name, policy) ↦ elim (fmt.read_block file options.paranoid_checks metaindex) [
      | err e ↦ none
      | ok meta ↦ find_filter file options.paranoid_checks (prefix ++ name) meta
    ]
  ]

  -- Open after the footer is decoded.
  unfoldable pub open_index : Bytes → Options → F → BlockHandle × BlockHandle → Result (Table F)
  unfolding read_meta
  open_index prefix options file (metaindex, index) =
      elim (fmt.read_block file options.paranoid_checks index) [
        | err e ↦ err e
        | ok block ↦ ok (record {
          options = options;
          file = file;
          metaindex_handle = metaindex;
          index_block = block;
          filter = read_meta prefix options file metaindex;
        })
      ]

  -- Table::Open; `prefix` is "filter.".
  unfoldable pub open_table : Bytes → Options → F → ℕ → Result (Table F)
  unfolding open_index
  open_table prefix options file size =
      if ltb size fmt.encoded_length
      then err Status.corruption
      else elim (fmt.read_footer file (size - fmt.encoded_length)) [
        | err e ↦ err e
        | ok footer ↦ elim (fmt.decode_footer footer) [
          | err e ↦ err e
          | ok handles ↦ open_index prefix options file handles
        ]
      ]

-- The iterators of one table's blocks: Seek on the index block with the value found, and its
-- status; BlockReader and Seek on the block of an index value, with the entry found and the status.
pub record BlockIterators (V : Type 0) : Type 0 where
  pub index_seek : Bytes → Option Bytes
  pub index_status : Status
  pub block_seek : Bytes → Bytes → Option (Bytes × V)
  pub block_status : Bytes → Status

module _ (c : Coding) (policy : FilterPolicy) (decode_handle : Bytes → Option BlockHandle) where
  -- The condition under which InternalGet does not open the block.
  unfoldable pub skips : Option FilterBlockReader → Bytes → Bytes → Bool
  skips none handle_value k = false
  skips (some r) handle_value k = elim (decode_handle handle_value) [
    | none ↦ false
    | some handle ↦ not (key_may_match c policy r handle.offset k)
  ]

  -- Table::InternalGet: the status, the entry that `handle_result` was called with, the counters.
  unfoldable pub internal_get :
      {V : Type 0}
      → BlockIterators V
      → Option FilterBlockReader
      → Bytes
      → Option MetricsCounters
      → Status × Option (Bytes × V) × Option MetricsCounters
  unfolding skips
  internal_get it filter k counters = elim (it.index_seek k) [
    | none ↦ (it.index_status, none, counters)
    | some handle_value ↦
        if skips filter handle_value k
        then (it.index_status, none, on_counters count_pruned counters)
        else (
          if is_ok (it.block_status handle_value)
              then it.index_status
              else it.block_status handle_value,
          it.block_seek handle_value k,
          on_counters count_opened counters,
        )
  ]

-- Table::RangeMayMatch.
unfoldable pub table_range_may_match :
    Coding → FilterPolicy → Option FilterBlockReader → Bytes → Bytes → Bool
table_range_may_match c policy none lo hi = true
table_range_may_match c policy (some r) lo hi = range_may_match c policy r lo hi

-- Table::ApproximateOffsetOf.
unfoldable pub approximate_offset_of :
    {V : Type 0} → (Bytes → Option BlockHandle) → BlockIterators V → BlockHandle → Bytes → ℕ
approximate_offset_of decode_handle it metaindex key = elim (it.index_seek key) [
  | none ↦ metaindex.offset
  | some value ↦ elim (decode_handle value) [
    | none ↦ metaindex.offset
    | some handle ↦ handle.offset
  ]
]

-- Table::BlockReader: the block of an index value, or the error that its iterator reports, and the
-- block to insert into the block cache. `lookup` is the block cache, none if there is none; a block
-- comes with whether it is cachable.
unfoldable pub block_reader :
    {B : Type 0}
    → (Bytes → Option BlockHandle)
    → Option (ℕ → Option B)
    → (BlockHandle → Result (B × Bool))
    → Bool
    → Bytes
    → Result B × Option (ℕ × B)
block_reader {B} decode_handle cache read fill_cache value = elim (decode_handle value) [
  | none ↦ (err Status.corruption, none)
  | some handle ↦ elim cache [
    | none ↦ elim (read handle) [ err e ↦ (err e, none) | ok (block, cachable) ↦ (ok block, none) ]
    | some lookup ↦ elim (lookup handle.offset) [
      | some block ↦ (ok block, none)
      | none ↦ elim (read handle) [
        | err e ↦ (err e, none)
        | ok (block, cachable) ↦
            (ok block, if cachable && fill_cache then some (handle.offset, block) else none)
      ]
    ]
  ]
]
