-- ===== src/TableCache.antt =====
-- project/table_cache.cc: class TableCache.
pub mod Transparent
pub mod Pruning
pub mod Tests
use leveldb_surf.Base.{
  ℕ, ◌≡◌, Bool, true, false, not, ◌&&◌, ◌⊎◌, Option, none, some, List, [], ◌∷◌, if◌then◌else◌,
}
use leveldb_surf.Base.Status.{Status}
use leveldb_surf.Filter.Policy.{Bytes, Coding, FilterPolicy}
use leveldb_surf.Table.{
  Result, ok, err, BlockHandle, MetricsCounters, on_counters, count_pruned, count_opened, Format,
  Options, Table, open_table, BlockIterators, internal_get, table_range_may_match,
}

-- class Cache (leveldb/cache.h, not in this repository), by file number; a handle is its value.
pub record CacheLib (C T : Type 0) : Type 0 where
  pub lookup : C → ℕ → Option T
  pub insert : C → ℕ → T → C
  pub erase : C → ℕ → C

-- A lookup finds only what was inserted last, and nothing of an erased number; a cache may drop an
-- entry at any time.
pub record IsCache {C T : Type 0} (lib : CacheLib C T) : Type 0 where
  pub lookup-insert :
      (s : C) (n m : ℕ) (x y : T)
      → lib.lookup (lib.insert s n x) m ≡ some y
      → ((n ≡ m) × (x ≡ y)) ⊎ (lib.lookup s m ≡ some y)
  pub lookup-erase :
      (s : C) (n m : ℕ) (y : T) → lib.lookup (lib.erase s n) m ≡ some y → lib.lookup s m ≡ some y
  pub lookup-erased : (s : C) (n : ℕ) → lib.lookup (lib.erase s n) n ≡ none

-- Env and db/filename.h: NewRandomAccessFile, TableFileName and SSTTableFileName of one database.
pub record Files (F : Type 0) : Type 0 where
  pub new_random_access_file : Bytes → Result F
  pub table_file_name : ℕ → Bytes
  pub sst_table_file_name : ℕ → Bytes

-- NewErrorIterator, NewEmptyIterator, or the iterator of a table, which keeps the handle until its
-- cleanup; the others hold none when NewIterator returns.
pub data Iterator (T : Type 0) : Type 0 where
  error_iterator : Status → Iterator T
  empty_iterator : Iterator T
  table_iterator : T → Iterator T

module _ {F : Type 0} (c : Coding) (fmt : Format F) (env : Files F) where
  -- The two attempts of FindTable to open the file; the error is that of the first.
  unfoldable pub new_file : ℕ → Result F
  new_file file_number = elim (env.new_random_access_file (env.table_file_name file_number)) [
    | ok file ↦ ok file
    | err e ↦ elim (env.new_random_access_file (env.sst_table_file_name file_number)) [
      | ok file ↦ ok file
      | err e' ↦ err e
    ]
  ]

  -- A table read from its file, past the cache.
  unfoldable pub read_table : Bytes → Options → ℕ → ℕ → Result (Table F)
  unfolding new_file
  read_table prefix options file_number file_size = elim (new_file file_number) [
    | err e ↦ err e
    | ok file ↦ open_table c fmt prefix options file file_size
  ]

-- What NewIterator stores in `*tableptr`: the table, only if its iterator is returned.
abbrev pub table_of : {T : Type 0} → Iterator T → Option T
table_of (error_iterator e) = none
table_of empty_iterator = none
table_of (table_iterator t) = some t

-- `Slice::empty()`
abbrev pub empty : Bytes → Bool
empty [] = true
empty (x ∷ xs) = false

module _ {F : Type 0} (c : Coding) where
  -- The range check of NewIterator and the iterator over the table.
  unfoldable pub table_or_empty :
      FilterPolicy
      → Option MetricsCounters
      → Bytes
      → Bytes
      → Table F
      → Iterator (Table F) × Option MetricsCounters
  table_or_empty policy counters lo hi table =
      if not (empty lo) && not (empty hi)
      then (if table_range_may_match c policy table.filter lo hi
          then (table_iterator table, on_counters count_opened counters)
          else (empty_iterator, on_counters count_pruned counters))
      else (table_iterator table, counters)

module _ {F C : Type 0} (c : Coding) (fmt : Format F) (env : Files F)
    (lib : CacheLib C (Table F)) where
  -- FindTable: the table, or the error, and the cache. Errors are not cached.
  unfoldable pub find_table : Bytes → Options → C → ℕ → ℕ → Result (Table F) × C
  find_table prefix options cache file_number file_size = elim (lib.lookup cache file_number) [
    | some table ↦ (ok table, cache)
    | none ↦ elim (read_table c fmt env prefix options file_number file_size) [
      | err e ↦ (err e, cache)
      | ok table ↦ (ok table, lib.insert cache file_number table)
    ]
  ]

  -- NewIterator: the iterator, the counters of the read options, `*tableptr`, and the cache.
  unfoldable pub new_iterator :
      FilterPolicy
      → Bytes
      → Options
      → C
      → Option MetricsCounters
      → ℕ
      → ℕ
      → Bytes
      → Bytes
      → Iterator (Table F) × Option MetricsCounters × Option (Table F) × C
  unfolding table_or_empty
  new_iterator policy prefix options cache counters file_number file_size lo hi =
      let found = find_table prefix options cache file_number file_size in
      elim found.0 [
        | err e ↦ (error_iterator e, counters, none, found.1)
        | ok table ↦
            let opened = table_or_empty c policy counters lo hi table in
            (opened.0, opened.1, table_of opened.0, found.1)
      ]

  -- Get: the status, the entry that `handle_result` was called with, the counters and the cache.
  unfoldable pub get :
      {V : Type 0}
      → FilterPolicy
      → (Table F → BlockIterators V)
      → Bytes
      → Options
      → C
      → Option MetricsCounters
      → ℕ
      → ℕ
      → Bytes
      → (Status × Option (Bytes × V) × Option MetricsCounters) × C
  get policy iterators prefix options cache counters file_number file_size k =
      let found = find_table prefix options cache file_number file_size in
      elim found.0 [
        | err e ↦ ((e, none, counters), found.1)
        | ok table ↦ (
          internal_get c policy fmt.decode_handle (iterators table) table.filter k counters,
          found.1,
        )
      ]

-- Evict.
unfoldable pub evict : {C T : Type 0} → CacheLib C T → C → ℕ → C
evict lib cache file_number = lib.erase cache file_number
