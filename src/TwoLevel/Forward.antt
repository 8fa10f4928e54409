-- ===== src/TwoLevel/Forward.antt =====
-- project/two_level_iterator.cc: a scan from SeekToFirst by Next.
use leveldb_surf.Base.{
  ℕ, zero, suc, ◌+◌, ◌<◌, ◌≡◌, refl, ap, sym, ◌∙◌, Bool, true, false, not, [], ◌∷◌, ◌++◌, Option,
  none, some, List, length, get_elem?, drop, arith, if_lem, ltb→lt,
}
use mathlib.Core.Option
use mathlib.Core.Option.{some-injective}
use leveldb_surf.Base.Status.{Status}
use leveldb_surf.Filter.Policy.{Bytes}
use leveldb_surf.Table.{bytes_eq}
use leveldb_surf.TwoLevel.{
  Iter, TwoLevelIterator, set_data_iterator, holds_block, init_data_block, on_data, valid,
  skip_empty_data_blocks_forward, seek_to_first, next, current,
}
use leveldb_surf.TwoLevel.Lists.{IsListIter, bytes_eq-path, drop-get_elem?, drop-past, blocks}
use leveldb_surf.TwoLevel.Scan.{scan, scan_all}

-- An index and data iterators on lists, and blocks that the callback opens at their first entry or
-- anywhere.
module _ {S D K V : Type 0} (index : Iter S K Bytes) (block : Iter D K V)
    (block_function : Bytes → D) (index_entries : S → List (K × Bytes)) (index_pos : S → ℕ)
    (entries : D → List (K × V)) (pos : D → ℕ) (contents : Bytes → List (K × V)) where
  -- The data iterator reads the block of the handle.
  abbrev pub Holds : Bytes → Option D → Type 0
  Holds handle none = Unit
  Holds handle (some d) = entries d ≡ contents handle

  -- What is left to read: the rest of the block, and the blocks of the later index entries.
  abbrev pub Rest : List (K × Bytes) → ℕ → List (K × V) → Bool → Option D → Type 0
  Rest es p rem index_valid none = (index_valid ≡ false) × (rem ≡ [])
  Rest es p rem index_valid (some d) =
      (index_valid ≡ true) × (rem ≡ drop (pos d) (entries d) ++ blocks contents (drop (p + 1) es))

  -- `t` stands in the blocks of `es`, with the entries `rem` to read from its position on.
  record IsAt (es : List (K × Bytes)) (rem : List (K × V)) (p : ℕ) (t : TwoLevelIterator S D)
      : Type 0 where
    index_eq : index_entries t.index_iter ≡ es
    pos_eq : index_pos t.index_iter ≡ p
    holds : Holds t.data_block_handle t.data_iter
    rest : Rest es p rem (index.valid t.index_iter) t.data_iter

  module _ (il : IsListIter index index_entries index_pos) (bl : IsListIter block entries pos)
      (opens : (h : Bytes) → entries (block_function h) ≡ contents h) where
    -- A block that is opened at its first entry has all its entries left.
    opened :
        (es : List (K × Bytes)) (s : S) (d : D)
        → index_entries s ≡ es
        → index.valid s ≡ true
        → entries d ≡ contents (index.value s)
        → Rest es
            (index_pos s)
            (blocks contents (drop (index_pos s) es))
            (index.valid s)
            (some (block.seek_to_first d))
    opened es s d e v h =
        let g : get_elem? es (index_pos s) ≡ some (index.key s, index.value s) =
          rw (sym e) (il.entry_eq s v) in
        rw
          (
            drop-get_elem? es (index_pos s) (index.key s, index.value s) g,
            bl.pos_first d,
            bl.entries_first d,
            h,
          )
          (v, refl)

    held :
        (es : List (K × Bytes)) (s : S) (o : Option D) (handle : Bytes) (st : Status)
        → index_entries s ≡ es
        → Holds handle o
        → index.valid s ≡ true
        → (elim o [ none ↦ false | some d ↦ bytes_eq (index.value s) handle ]) ≡ true
        → IsAt es (blocks contents (drop (index_pos s) es)) (index_pos s) (record {
          index_iter = s;
          data_iter = Option.map block.seek_to_first o;
          data_block_handle = handle;
          own_status = st;
        })
    held es s none handle st e h v b = cc
    held es s (some d) handle st e h v b =
        let same : index.value s ≡ handle = bytes_eq-path (index.value s) handle b in
        record {
          index_eq = e;
          pos_eq = refl;
          holds = bl.entries_first d ∙ h;
          rest = opened es s d e v (h ∙ ap contents (sym same));
        }

    enter :
        (es : List (K × Bytes)) (t : TwoLevelIterator S D)
        → index_entries t.index_iter ≡ es
        → Holds t.data_block_handle t.data_iter
        → IsAt es (blocks contents (drop (index_pos t.index_iter) es)) (index_pos t.index_iter) (
            on_data index block block_function block.seek_to_first
              (init_data_block index block block_function t))
    unfolding init_data_block set_data_iterator
    enter es t e h =
        let At = λ (u : TwoLevelIterator S D).
          IsAt es (blocks contents (drop (index_pos t.index_iter) es)) (index_pos t.index_iter)
            (on_data index block block_function block.seek_to_first u) in
        if_lem At (not (index.valid t.index_iter))
          (λ v.
            let i : index.valid t.index_iter ≡ false = ground arith in
            let past : drop (index_pos t.index_iter) es ≡ [] = rw (sym e) (
              drop-past (index_entries t.index_iter) (index_pos t.index_iter)
                (sym (il.valid_eq t.index_iter) ∙ i)) in
            record {
              index_eq = e;
              pos_eq = refl;
              holds = tt;
              rest = (i, ap (blocks contents) past);
            })
          (λ v.
            let i : index.valid t.index_iter ≡ true = ground arith in
            if_lem At (holds_block index block block_function (index.value t.index_iter) t)
              (λ b. held es t.index_iter t.data_iter t.data_block_handle t.own_status e h i b)
              (λ b.
                let d = block_function (index.value t.index_iter) in
                record {
                  index_eq = e;
                  pos_eq = refl;
                  holds = bl.entries_first d ∙ opens (index.value t.index_iter);
                  rest = opened es t.index_iter d e i (opens (index.value t.index_iter));
                }))

    abbrev T : Type 0
    T = TwoLevelIterator S D

    abbrev is_valid : T → Bool
    is_valid t = valid index block block_function t

    block_end :
        (es : List (K × Bytes)) (rem : List (K × V)) (p : ℕ) (iv : Bool) (o : Option D)
        → Rest es p rem iv o
        → iv ≡ true
        → (elim o [ none ↦ false | some d ↦ block.valid d ]) ≡ false
        → rem ≡ blocks contents (drop (p + 1) es)
    block_end es rem p iv none r i v = let c : false ≡ true = sym r.0 ∙ i in absurd cc
    block_end es rem p iv (some d) r i v =
        let past : drop (pos d) (entries d) ≡ [] =
          drop-past (entries d) (pos d) (sym (bl.valid_eq d) ∙ v) in
        r.1 ∙ ap (λ xs. xs ++ blocks contents (drop (p + 1) es)) past

    index_end :
        (es : List (K × Bytes)) (rem : List (K × V)) (p : ℕ) (iv : Bool) (o : Option D)
        → Rest es p rem iv o
        → iv ≡ false
        → rem ≡ []
    index_end es rem p iv none r i = r.1
    index_end es rem p iv (some d) r i = let c : false ≡ true = sym i ∙ r.0 in absurd cc

    -- A skip ends at an entry or with nothing left to read.
    abbrev Skipped : List (K × Bytes) → List (K × V) → Option T → Type 0
    Skipped es rem o =
        (t : T) × (p : ℕ) × (o ≡ some t) × IsAt es rem p t × (is_valid t ≡ false → rem ≡ [])

    skip_lem :
        (fuel : ℕ) (es : List (K × Bytes)) (rem : List (K × V)) (p : ℕ) (t : T)
        → IsAt es rem p t
        → 0 < fuel
        → length es < fuel + p
        → Skipped es rem (skip_empty_data_blocks_forward index block block_function fuel t)
    unfolding skip_empty_data_blocks_forward set_data_iterator
    skip_lem zero es rem p t a z b = absurd (omega arith)
    skip_lem (suc fuel) es rem p t a z b =
        if_lem (Skipped es rem) (is_valid t)
          (λ v. (t, p, refl, a, λ f. let c : false ≡ true = sym f ∙ v in absurd cc))
          (λ v.
            if_lem (Skipped es rem) (not (index.valid t.index_iter))
              (λ n.
                let i : index.valid t.index_iter ≡ false = ground arith in
                let e = index_end es rem p (index.valid t.index_iter) t.data_iter a.rest i in
                (
                  set_data_iterator index block block_function none t,
                  p,
                  refl,
                  record { index_eq = a.index_eq; pos_eq = a.pos_eq; holds = tt; rest = (i, e) },
                  λ f. e,
                ))
              (λ n.
                let i : index.valid t.index_iter ≡ true = ground arith in
                let e = block_end es rem p (index.valid t.index_iter) t.data_iter a.rest i v in
                let t' : T = record t { index_iter = index.next t.index_iter } in
                let q : index_pos (index.next t.index_iter) ≡ p + 1 =
                  il.pos_next t.index_iter i ∙ ap (λ k. k + 1) a.pos_eq in
                let at = enter es t' (il.entries_next t.index_iter ∙ a.index_eq) a.holds in
                let lt =
                  ltb→lt (index_pos t.index_iter) (length (index_entries t.index_iter))
                    (sym (il.valid_eq t.index_iter) ∙ i) in
                let le : p < length es = rw (sym a.pos_eq, sym a.index_eq) lt in
                skip_lem fuel es rem (p + 1)
                  (on_data index block block_function block.seek_to_first
                    (init_data_block index block block_function t'))
                  (rw (e, sym q) at) (omega arith) (omega arith)))

    -- What `next` does before it skips: the current entry is the first of what was left.
    abbrev Stepped : List (K × Bytes) → List (K × V) → ℕ → T → Type 0
    Stepped es rem p t =
        (e : K × V) × (rem' : List (K × V)) × (current index block block_function t ≡ some e)
        × (rem ≡ e ∷ rem')
        × IsAt es rem' p (on_data index block block_function block.next t)

    step :
        (es : List (K × Bytes)) (rem : List (K × V)) (p : ℕ) (s : S) (o : Option D) (handle : Bytes)
        (st : Status)
        → IsAt es rem p
            (record { index_iter = s; data_iter = o; data_block_handle = handle; own_status = st })
        → (elim o [ none ↦ false | some d ↦ block.valid d ]) ≡ true
        → Stepped es rem p
            (record { index_iter = s; data_iter = o; data_block_handle = handle; own_status = st })
    unfolding current
    step es rem p s none handle st a v = absurd cc
    step es rem p s (some d) handle st a v =
        let e : K × V = (block.key d, block.value d) in
        let cut : drop (pos d) (entries d) ≡ e ∷ drop (pos d + 1) (entries d) =
          drop-get_elem? (entries d) (pos d) e (bl.entry_eq d v) in
        (
          e,
          drop (pos d + 1) (entries d) ++ blocks contents (drop (p + 1) es),
          rw v refl,
          a.rest.1 ∙ ap (λ xs. xs ++ blocks contents (drop (p + 1) es)) cut,
          record {
            index_eq = a.index_eq;
            pos_eq = a.pos_eq;
            holds = bl.entries_next d ∙ a.holds;
            rest = (a.rest.0, rw (bl.pos_next d v, bl.entries_next d) refl);
          },
        )

    scan_rest :
        (rounds fuel : ℕ) (es : List (K × Bytes)) (rem : List (K × V)) (p : ℕ) (t : T)
        → IsAt es rem p t
        → (is_valid t ≡ false → rem ≡ [])
        → length es < fuel
        → length rem < rounds
        → scan index block block_function rounds fuel t ≡ some rem
    unfolding scan next
    scan_rest zero fuel es rem p t a n b r = absurd (omega arith)
    scan_rest (suc rounds) fuel es rem p t a n b r =
        if_lem (λ (x : Option (List (K × V))). x ≡ some rem) (is_valid t)
          (λ v.
            let (e, rem', c, cut, a') =
              step es rem p t.index_iter t.data_iter t.data_block_handle t.own_status a v in
            let t1 : T = on_data index block block_function block.next t in
            let (t', p', f, at, n') = skip_lem fuel es rem' p t1 a' (omega arith) (omega arith) in
            let l : length rem ≡ suc (length rem') = ap length cut in
            let less : length rem' < rounds = omega arith in
            let more = scan_rest rounds fuel es rem' p' t' at n' b less in
            rw (c, v, f, more) (ap some (sym cut)))
          (λ v. rw (n v) refl)

    -- A scan of a two-level iterator, from any state, ends and gives the entries of all blocks in
    -- the index's order, each once, those of empty blocks left out; fuel above the number of index
    -- entries is enough for each call and rounds above the number of entries for the loop. It holds
    -- for an index and blocks that are iterators on lists, and a callback that opens the block of
    -- the handle.
    pub scan-blocks :
        (rounds fuel : ℕ) (t : T)
        → Holds t.data_block_handle t.data_iter
        → length (index_entries t.index_iter) < fuel
        → length (blocks contents (index_entries t.index_iter)) < rounds
        → scan_all index block block_function rounds fuel t
          ≡ some (blocks contents (index_entries t.index_iter))
    unfolding scan_all seek_to_first
    scan-blocks rounds fuel t h b r =
        let es = index_entries t.index_iter in
        let t1 : T = record t { index_iter = index.seek_to_first t.index_iter } in
        let at : IsAt es (blocks contents es) 0 (
            on_data index block block_function block.seek_to_first
              (init_data_block index block block_function t1)) =
          rw (il.pos_first t.index_iter) at (enter es t1 (il.entries_first t.index_iter) h) in
        let (t', p', f, at', n') =
          skip_lem fuel es (blocks contents es) 0
            (on_data index block block_function block.seek_to_first
              (init_data_block index block block_function t1))
            at (omega arith) (omega arith) in
        rw f (scan_rest rounds fuel es (blocks contents es) p' t' at' n' b r)
