-- ===== src/TableCache/Pruning.antt =====
-- project/table_cache.cc: the range check of NewIterator, over tables whose filter block is
-- finished by project/filter_block.cc.
use leveldb_surf.Base.{
  ◌<◌, ◌^◌, ◌≡◌, ◌≢◌, true, some, Option, length, In, Compare, Le, List, [], arith, ◌+◌, ◌||◌, ◌⊎◌,
  false, none,
}
use leveldb_surf.Filter.Policy.{Bytes, Coding, IsCoding, FilterPolicy, IsSound}
use leveldb_surf.Filter.Reader.{new_reader}
use leveldb_surf.Filter.Builder.{Call}
use leveldb_surf.Filter.Answers.Slices.{keys_of}
use leveldb_surf.Filter.Answers.Layout.{block_of, filter_of}
use leveldb_surf.Filter.Answers.Range.{added_range_may_match}
use leveldb_surf.Table.{Result, ok, err, Format, MetricsCounters, Table, table_range_may_match}
use leveldb_surf.TableCache.{
  Iterator, error_iterator, empty_iterator, table_iterator, empty, table_or_empty, CacheLib, Files,
}

opened-true :
    {F : Type 0} (c : Coding) (policy : FilterPolicy) (m : Option MetricsCounters) (lo hi : Bytes)
    (t : Table F)
    → table_range_may_match c policy t.filter lo hi ≡ true
    → (table_or_empty c policy m lo hi t).0 ≡ table_iterator t
unfolding table_or_empty
opened-true c policy m lo hi t h = rw h (ground arith)

-- A range read never loses a key: NewIterator gives the iterator over a table whose filter block
-- was finished over keys one of which lies between the bounds, if the policy misses none of its
-- keys and the filter is not empty and shorter than 4 GiB.
pub iterator_over_key :
    {F : Type 0} {c : Coding} {cmp : Compare Bytes} {policy : FilterPolicy} (ic : IsCoding c)
    → IsSound cmp policy
    → (cs : List Call) (m : Option MetricsCounters) (k lo hi : Bytes) (t : Table F)
    → t.filter ≡ some (new_reader c (block_of c policy cs))
    → length (filter_of policy (keys_of cs)) < 2 ^ 32
    → filter_of policy (keys_of cs) ≢ []
    → In k (keys_of cs)
    → Le cmp lo k
    → Le cmp k hi
    → (table_or_empty c policy m lo hi t).0 ≡ table_iterator t
unfolding table_range_may_match
iterator_over_key {c = c} {policy = policy} ic s cs m k lo hi t f small some_bytes i l h =
    opened-true c policy m lo hi t
      (rw f (added_range_may_match ic s cs k lo hi small some_bytes i l h))

-- The counters of one range check that leaves the table closed, or opens it.
abbrev pub pruned_once : MetricsCounters → MetricsCounters
pruned_once m = record { considered = m.considered + 1; pruned = m.pruned + 1; opened = m.opened }

abbrev pub opened_once : MetricsCounters → MetricsCounters
opened_once m = record { considered = m.considered + 1; pruned = m.pruned; opened = m.opened + 1 }

module _ {F C : Type 0} (c : Coding) (fmt : Format F) (env : Files F) (lib : CacheLib C (Table F))
    (policy : FilterPolicy) (lo hi : Bytes) (m : MetricsCounters) where
  -- What NewIterator returns for the table or the error that FindTable gives.
  abbrev pub Answered :
      Result (Table F) → Iterator (Table F) → Option MetricsCounters → Option (Table F) → Type 0
  Answered (err e) it counters tableptr =
      (it ≡ error_iterator e) × (counters ≡ some m) × (tableptr ≡ none)
  Answered (ok t) it counters tableptr =
      (((empty lo || empty hi) ≡ true)
        × (it ≡ table_iterator t)
        × (counters ≡ some m)
        × (tableptr ≡ some t))
      ⊎ (((empty lo || empty hi) ≡ false)
          × (table_range_may_match c policy t.filter lo hi ≡ true)
          × (it ≡ table_iterator t)
          × (counters ≡ some (opened_once m))
          × (tableptr ≡ some t))
      ⊎ (((empty lo || empty hi) ≡ false)
          × (table_range_may_match c policy t.filter lo hi ≡ false)
          × (it ≡ empty_iterator)
          × (counters ≡ some (pruned_once m))
          × (tableptr ≡ none))
