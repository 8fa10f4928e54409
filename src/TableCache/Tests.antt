-- ===== src/TableCache/Tests.antt =====
-- The properties of the tables and of the table cache on a small file and a cache of one entry.
use leveldb_surf.Base.{
  ℕ, ◌<◌, ◌^◌, ◌≡◌, ◌≢◌, refl, sym, ap, true, false, List, [], ◌∷◌, Option, some, none, length, inl,
  inr, arith, ◌==◌, if◌then◌else◌, ◌⊎◌, Bool-cases, ==_iff,
}
use mathlib.Core.Option.{some-injective}
use leveldb_surf.Base.Status.{Status}
use leveldb_surf.Samples.Bytes.{
  little_endian, little_endian-IsCoding, byte_trie, byte_policy-IsSound,
}
use leveldb_surf.Filter.Policy.{Bytes, FilterPolicy}
use leveldb_surf.Filter.Builder.{Call, starts, adds}
use leveldb_surf.Filter.Reader.{FilterBlockReader, new_reader}
use leveldb_surf.Filter.Answers.Slices.{keys_of}
use leveldb_surf.Filter.Answers.Layout.{filter_of, block_of}
use leveldb_surf.Filter.Surf.{uncached_policy, create_filter}
use leveldb_surf.Table.{
  ok, err, BlockHandle, MetricsCounters, Format, Options, Table, BlockIterators, internal_get,
}
use leveldb_surf.Table.Reading.{read_all, counted, read_all-counted, internal_get-added}
use leveldb_surf.TableCache.{
  CacheLib, IsCache, Files, table_iterator, find_table, table_or_empty, evict, new_file, read_table,
}
use leveldb_surf.TableCache.Transparent.{Coherent, Found, find_table-Found, evict-find_table}
use leveldb_surf.TableCache.Pruning.{iterator_over_key}

abbrev policy : FilterPolicy
policy = uncached_policy byte_trie

abbrev calls : List Call
calls = starts 0 ∷ adds (98 ∷ []) ∷ adds (99 ∷ []) ∷ []

two_bytes : filter_of policy (keys_of calls) ≡ 98 ∷ 99 ∷ []
unfolding create_filter
two_bytes = refl

is_short : length (filter_of policy (keys_of calls)) < 2 ^ 32
is_short = rw two_bytes (omega arith)

is_full : filter_of policy (keys_of calls) ≢ []
is_full = rw two_bytes (λ e. cc)

abbrev handle_at : Bytes → Option BlockHandle
handle_at value = some (record { offset = 0; size = 10 })

abbrev offset_or_zero : Option BlockHandle → ℕ
offset_or_zero none = 0
offset_or_zero (some h) = h.offset

abbrev iterators : BlockIterators ℕ
iterators = record {
  index_seek = λ k. some (0 ∷ []);
  index_status = Status.ok;
  block_seek = λ value k. some (k, 5);
  block_status = λ value. Status.ok;
}

abbrev three : MetricsCounters
three = record { considered = 3; pruned = 2; opened = 1 }

abbrev counters : Option MetricsCounters
counters = some three

abbrev filter : Option FilterBlockReader
filter = some (new_reader little_endian (block_of little_endian policy calls))

abbrev keys : List Bytes
keys = (98 ∷ []) ∷ (120 ∷ []) ∷ (99 ∷ []) ∷ []

read_all-counted_example :
    read_all little_endian policy handle_at iterators filter keys three
    ≡ some (counted little_endian policy handle_at iterators filter keys three)
read_all-counted_example =
    read_all-counted little_endian policy handle_at iterators filter keys three

internal_get-added_example :
    internal_get little_endian policy handle_at iterators
      (some (new_reader little_endian (block_of little_endian policy calls)))
      (99 ∷ [])
      counters
    ≡ internal_get little_endian policy handle_at iterators none (99 ∷ []) counters
internal_get-added_example =
    internal_get-added little_endian-IsCoding byte_policy-IsSound handle_at iterators calls
      (99 ∷ []) counters (λ v h i e. rw (sym (ap offset_or_zero e)) (omega arith)) is_short
      (inr (inl refl))

-- A format that reads the file's bytes as the footer and as every block; a file is a number.
abbrev format : Format ℕ
format = record {
  encoded_length = 48;
  read_footer = λ file at. ok [];
  decode_footer = λ footer. ok (record { offset = 0; size = 1 }, record { offset = 1; size = 1 });
  read_block = λ file verify handle. ok (file ∷ []);
  meta_seek = λ meta name. none;
  decode_handle = handle_at;
}

abbrev options : Options
options = record { paranoid_checks = true; filter_policy = none }

-- Every file but number 9 exists.
abbrev env : Files ℕ
env = record {
  new_random_access_file = λ name. elim name [ [] ↦ err Status.io_error | x ∷ xs ↦ ok x ];
  table_file_name = λ n. if n == 9 then [] else n ∷ [];
  sst_table_file_name = λ n. [];
}

-- A cache that drops nothing of its own.
abbrev Kept : Type 0
Kept = ℕ → Option (Table ℕ)

abbrev cache : CacheLib Kept (Table ℕ)
cache = record {
  lookup = λ s n. s n;
  insert = λ s n t m. if m == n then some t else s m;
  erase = λ s n m. if m == n then none else s m;
}

none-some : (t : Table ℕ) → none ≢ some t
none-some t e = cc

insert_case :
    (s : Kept) (n m : ℕ) (x y : Table ℕ)
    → (if m == n then some x else s m) ≡ some y
    → ((n ≡ m) × (x ≡ y)) ⊎ (s m ≡ some y)
insert_case s n m x y h = elim (Bool-cases (m == n)) [
  | inl e ↦ inl (sym ((==_iff m n).0 e), some-injective x y (rw e at h))
  | inr e ↦ inr (rw e at h)
]

erase_case :
    (s : Kept) (n m : ℕ) (y : Table ℕ) → (if m == n then none else s m) ≡ some y → s m ≡ some y
erase_case s n m y h = elim (Bool-cases (m == n)) [
  | inl e ↦ absurd (none-some y (rw e at h))
  | inr e ↦ rw e at h
]

erased_case : (s : Kept) (n : ℕ) → (if n == n then none else s n) ≡ none
erased_case s n = let same : (n == n) ≡ true = ground arith in rw same refl

cache-IsCache : IsCache cache
cache-IsCache = record {
  lookup-insert = insert_case;
  lookup-erase = erase_case;
  lookup-erased = erased_case;
}

abbrev nothing : Kept
nothing n = none

nothing-Coherent : Coherent little_endian format env cache [] options (λ n. 100) nothing
nothing-Coherent n t h = absurd (none-some t h)

find_table-Found_example :
    Found little_endian format env cache [] options
      (λ n. 100)
      7
      (find_table little_endian format env cache [] options nothing 7 100)
find_table-Found_example =
    find_table-Found little_endian format env cache cache-IsCache [] options (λ n. 100) nothing 7
      nothing-Coherent

-- The database after file 7 is gone.
abbrev env' : Files ℕ
env' = record env { table_file_name = λ n. if n == 7 then [] else (env.table_file_name n) }

same_elsewhere :
    (m : ℕ)
    → m ≢ 7
    → read_table little_endian format env' [] options m 100
      ≡ read_table little_endian format env [] options m 100
unfolding read_table new_file
same_elsewhere m n =
    let other : (m == 7) ≡ false = ground (arith, n) in rw (read_table, new_file, other) refl

evict-find_table_example :
    Found little_endian format env' cache [] options
      (λ n. 100)
      7
      (find_table little_endian format env' cache [] options (evict cache nothing 7) 7 100)
evict-find_table_example =
    evict-find_table little_endian format env env' cache cache-IsCache [] options (λ n. 100)
      (λ n. 100) nothing 7 nothing-Coherent same_elsewhere 7

abbrev table : Table ℕ
table = record {
  options = options;
  file = 1;
  metaindex_handle = record { offset = 0; size = 1 };
  index_block = [];
  filter = some (new_reader little_endian (block_of little_endian policy calls));
}

iterator_over_key_example :
    (table_or_empty little_endian policy counters (98 ∷ []) (100 ∷ []) table).0
    ≡ table_iterator table
iterator_over_key_example =
    iterator_over_key little_endian-IsCoding byte_policy-IsSound calls counters (99 ∷ []) (98 ∷ [])
      (100 ∷ []) table refl is_short is_full (inr (inl refl)) (λ h. cc) (λ h. cc)
