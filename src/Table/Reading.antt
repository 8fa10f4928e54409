-- ===== src/Table/Reading.antt =====
-- project/table.cc: Table::InternalGet, its counters and what a filter changes in its result.
use leveldb_surf.Base.{
  ap₂, sym, ℕ, Bool, true, ◌&&◌, if◌then◌else◌, [], ◌∷◌, ◌∙◌, ◌+◌, ◌<◌, ◌^◌, ◌≡◌, refl, ap, false,
  not, Option, none, some, length, In, List, Compare, arith, Bool-cases, inl, inr, Option-cases,
}
use leveldb_surf.Filter.Policy.{Bytes, Coding, IsCoding, FilterPolicy, IsSound}
use leveldb_surf.Filter.Reader.{FilterBlockReader, new_reader}
use leveldb_surf.Filter.Builder.{Call}
use leveldb_surf.Filter.Answers.Slices.{keys_of}
use leveldb_surf.Filter.Answers.Layout.{block_of, filter_of}
use leveldb_surf.Filter.Answers.Point.{added_key_may_match}
use leveldb_surf.Table.{
  BlockHandle, MetricsCounters, count_pruned, count_opened, BlockIterators, skips, internal_get,
}

module _ {V : Type 0} (c : Coding) (policy : FilterPolicy)
    (decode_handle : Bytes → Option BlockHandle) (it : BlockIterators V)
    (filter : Option FilterBlockReader) where
  -- The counters after one point read of each key, in order.
  unfoldable pub read_all : List Bytes → MetricsCounters → Option MetricsCounters
  read_all [] m = some m
  read_all (k ∷ ks) m = elim (internal_get c policy decode_handle it filter k (some m)).2 [
    | none ↦ none
    | some m' ↦ read_all ks m'
  ]

  -- The keys for which the index has an entry, and those whose block the filter leaves closed.
  abbrev pub finds : Bytes → Bool
  finds k = elim (it.index_seek k) [ none ↦ false | some v ↦ true ]

  abbrev pub is_pruned : Bytes → Bool
  is_pruned k = elim (it.index_seek k) [
    | none ↦ false
    | some v ↦ skips c policy decode_handle filter v k
  ]

  abbrev pub is_opened : Bytes → Bool
  is_opened k = finds k && not (is_pruned k)

  abbrev pub count : (Bytes → Bool) → List Bytes → ℕ
  count p [] = 0
  count p (k ∷ ks) = (if p k then 1 else 0) + count p ks

  abbrev pub counted : List Bytes → MetricsCounters → MetricsCounters
  counted ks m = record {
    considered = m.considered + count finds ks;
    pruned = m.pruned + count is_pruned ks;
    opened = m.opened + count is_opened ks;
  }

  counters-eq :
      (m n : MetricsCounters)
      → m.considered ≡ n.considered
      → m.pruned ≡ n.pruned
      → m.opened ≡ n.opened
      → m ≡ n
  counters-eq m n a b c i = record { considered = a i; pruned = b i; opened = c i }

  -- A sum of counts after the first key.
  counted-cons :
      (k : Bytes) (ks : List Bytes) (m : MetricsCounters)
      → counted ks (counted (k ∷ []) m) ≡ counted (k ∷ ks) m
  counted-cons k ks m = counters-eq _ _ (omega arith) (omega arith) (omega arith)

  -- What one key adds, by whether the index finds it and the filter prunes it.
  abbrev tally : MetricsCounters → Bool → Bool → MetricsCounters
  tally m found shut = record {
    considered = m.considered + ((if found then 1 else 0) + 0);
    pruned = m.pruned + ((if shut then 1 else 0) + 0);
    opened = m.opened + ((if found && not shut then 1 else 0) + 0);
  }

  tallied :
      (k : Bytes) (m : MetricsCounters) (found shut : Bool)
      → finds k ≡ found
      → is_pruned k ≡ shut
      → counted (k ∷ []) m ≡ tally m found shut
  tallied k m found shut e h = ap₂ (tally m) e h

  one_read :
      (k : Bytes) (m : MetricsCounters)
      → (internal_get c policy decode_handle it filter k (some m)).2 ≡ some (counted (k ∷ []) m)
  unfolding internal_get
  one_read k m = elim (Option-cases (it.index_seek k)) [
    | inl e ↦
        let path = tallied k m false false (rw (finds, e) refl) (rw (is_pruned, e) refl) in
        let same = counters-eq m (tally m false false) (omega arith) (omega arith) (omega arith) in
        rw (e, internal_get) (ap some (same ∙ sym path))
    | inr (v, e) ↦
        let found : finds k ≡ true = rw (finds, e) refl in
        elim (Bool-cases (skips c policy decode_handle filter v k)) [
          | inl s ↦
              let path = tallied k m true true found (rw (is_pruned, e) s) in
              let same =
                counters-eq (count_pruned m) (tally m true true) (omega arith) (omega arith)
                  (omega arith) in
              rw (e, internal_get, s) (ap some (same ∙ sym path))
          | inr s ↦
              let path = tallied k m true false found (rw (is_pruned, e) s) in
              let same =
                counters-eq (count_opened m) (tally m true false) (omega arith) (omega arith)
                  (omega arith) in
              rw (e, internal_get, s) (ap some (same ∙ sym path))
        ]
  ]

  -- After a point read of each of any keys, `considered` has grown by the number of keys for which
  -- the index has an entry, `pruned` by the number of these whose block the filter leaves closed,
  -- and `opened` by that of the others.
  pub read_all-counted :
      (ks : List Bytes) (m : MetricsCounters) → read_all ks m ≡ some (counted ks m)
  unfolding read_all
  read_all-counted [] m = ap some (counters-eq m _ (omega arith) (omega arith) (omega arith))
  read_all-counted (k ∷ ks) m =
      rw (read_all, one_read k m)
        (read_all-counted ks (counted (k ∷ []) m) ∙ ap some (counted-cons k ks m))

module _ {V : Type 0} (c : Coding) (policy : FilterPolicy) where
  internal_get-skipless :
      (decode_handle : Bytes → Option BlockHandle) (it : BlockIterators V) (r : FilterBlockReader)
      (k v : Bytes) (m : Option MetricsCounters)
      → it.index_seek k ≡ some v
      → skips c policy decode_handle (some r) v k ≡ false
      → internal_get c policy decode_handle it (some r) k m
        ≡ internal_get c policy decode_handle it none k m
  unfolding internal_get skips
  internal_get-skipless decode_handle it r k v m e h = rw (e, internal_get, h) refl

module _ {c : Coding} {cmp : Compare Bytes} {policy : FilterPolicy} (ic : IsCoding c)
    (s : IsSound cmp policy) where
  skips-added :
      (decode_handle : Bytes → Option BlockHandle) (cs : List Call) (v k : Bytes)
      → ((h : BlockHandle) → decode_handle v ≡ some h → h.offset < 2 ^ 32)
      → length (filter_of policy (keys_of cs)) < 2 ^ 32
      → In k (keys_of cs)
      → skips c policy decode_handle (some (new_reader c (block_of c policy cs))) v k ≡ false
  unfolding skips
  skips-added decode_handle cs v k small short i = elim (Option-cases (decode_handle v)) [
    | inl e ↦ rw (e, skips) refl
    | inr (h, e) ↦
        rw (e, skips) (ap not (added_key_may_match ic s cs h.offset k short (small h e) i))
  ]

  -- A point read of an added key is the read without a filter: the same status, the same entry and
  -- the same counters, where the block that the index gives for the key starts below 4 GiB and the
  -- filter is shorter than that, in a table whose filter block was finished over keys with this one
  -- among them, if the policy misses none of its keys.
  pub internal_get-added :
      {V : Type 0} (decode_handle : Bytes → Option BlockHandle) (it : BlockIterators V)
      (cs : List Call) (k : Bytes) (m : Option MetricsCounters)
      → ((v : Bytes) (h : BlockHandle)
          → it.index_seek k ≡ some v
          → decode_handle v ≡ some h
          → h.offset < 2 ^ 32)
      → length (filter_of policy (keys_of cs)) < 2 ^ 32
      → In k (keys_of cs)
      → internal_get c policy decode_handle it (some (new_reader c (block_of c policy cs))) k m
        ≡ internal_get c policy decode_handle it none k m
  unfolding internal_get
  internal_get-added decode_handle it cs k m small short i = elim (Option-cases (it.index_seek k)) [
    | inl e ↦ rw (e, internal_get) refl
    | inr (v, e) ↦
        internal_get-skipless c policy decode_handle it (new_reader c (block_of c policy cs)) k v m
          e (skips-added decode_handle cs v k (λ h d. small v h e d) short i)
  ]
