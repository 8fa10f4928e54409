-- ===== src/Db/Work/Written.antt =====
-- project/db_impl.cc: the loop of DBImpl::DoCompactionWork as a whole.
use mathlib.Core.List.{append_assoc, append-nil}
use leveldb_surf.Base.{
  ℕ, suc, ◌≡◌, refl, ap, sym, ◌∙◌, subst, Bool, true, false, Option, none, some, List, [], ◌∷◌,
  ◌++◌, length, if◌then◌else◌, if_lem,
}
use leveldb_surf.Base.Status.{Status, is_ok}
use leveldb_surf.Version.Keys.{KeySpace}
use leveldb_surf.Db.Work.{
  Job, Cursor, TableBuilder, World, Work, drop_entry, finish_if_open, stop_before,
  open_compaction_output_file, keep_entry, compact_entry, compact_loop, write_outputs,
}
use leveldb_surf.Db.Work.Visible.{kept, first_cursor}
use leveldb_surf.Db.Work.Outputs.{
  IsTableBuilder, table_entries, Describes, Opened, Written, H, finish_if_open-Holds,
  stop_before-Holds, add_entry-Holds,
}

not_stopped :
    (s : Status) (stop : Bool)
    → is_ok (if is_ok s then if stop then Status.io_error else Status.ok else s) ≡ true
    → (is_ok s ≡ true) × (stop ≡ false)
not_stopped Status.ok true h = absurd cc
not_stopped Status.ok false h = (refl, refl)
not_stopped Status.not_found stop h = absurd cc
not_stopped Status.corruption stop h = absurd cc
not_stopped Status.io_error stop h = absurd cc
not_stopped Status.invalid_argument stop h = absurd cc

first_ok : (a b : Status) → is_ok (if is_ok a then b else a) ≡ true → is_ok a ≡ true
first_ok Status.ok b h = refl
first_ok Status.not_found b h = h
first_ok Status.corruption b h = h
first_ok Status.io_error b h = h
first_ok Status.invalid_argument b h = h

module _ {U I V B : Type 0} (ks : KeySpace U I) (job : Job U I) (tb : TableBuilder B I V)
    (entries : B → List (I × V)) (world : World) (t : IsTableBuilder tb entries) where
  abbrev Done : List (I × V) → Work U I B → Type 0
  Done done w = H ks job tb entries world t done w

  open-Opened :
      (done : List (I × V)) (w : Work U I B)
      → Written ks job tb entries done none w.outputs w.tables
      → is_ok (open_compaction_output_file ks job tb world w).0 ≡ true
      → Opened ks job tb entries done tb.new_table_builder
          (open_compaction_output_file ks job tb world w).1.outputs
          (open_compaction_output_file ks job tb world w).1.tables
        × ((open_compaction_output_file ks job tb world w).1.cursor ≡ w.cursor)
  unfolding open_compaction_output_file
  open-Opened done w h ok =
      let all : table_entries ks job tb entries w.tables ++ [] ≡ done =
        append-nil (table_entries ks job tb entries w.tables) ∙ h.1 in
      rw (ok, t.entries-new) ((refl, refl, h.0, all), refl)

  keep_entry-Done :
      (left : ℕ) (key : I) (value : V) (done : List (I × V)) (w : Work U I B) (o : Option B)
      → Written ks job tb entries done o w.outputs w.tables
      → is_ok (keep_entry ks job tb world left key value o w).0 ≡ true
      → Done (done ++ (key, value) ∷ []) (keep_entry ks job tb world left key value o w).1
        × ((keep_entry ks job tb world left key value o w).1.cursor ≡ w.cursor)
  unfolding keep_entry
  keep_entry-Done left key value done w none h =
      let opened = open_compaction_output_file ks job tb world w in
      if_lem
        (λ (r : Status × Work U I B).
          is_ok r.0 ≡ true → Done (done ++ (key, value) ∷ []) r.1 × (r.1.cursor ≡ w.cursor))
        (is_ok opened.0)
        (λ s ok.
          let (h', c) = open-Opened done w h s in
          let r =
            add_entry-Holds ks job tb entries world t left key value tb.new_table_builder done
              opened.1 h' ok in
          (r.0, r.1 ∙ c))
        (λ f ok. absurd cc)
  keep_entry-Done left key value done w (some b) h =
      λ ok. add_entry-Holds ks job tb entries world t left key value b done w h.1 ok

  -- One pass that does not break.
  compact_entry-Done :
      (left : ℕ) (key : I) (value : V) (done : List (I × V)) (w : Work U I B)
      → Done done w
      → is_ok (compact_entry ks job tb world left key value w).0 ≡ true
      → Done
          (if (drop_entry ks job key w.cursor).0 then done else done ++ (key, value) ∷ [])
          (compact_entry ks job tb world left key value w).1
        × ((compact_entry ks job tb world left key value w).1.cursor
            ≡ (drop_entry ks job key w.cursor).1)
  unfolding compact_entry
  compact_entry-Done left key value done w h =
      let w0 : Work U I B = record w { next_file_number = world.others left w.next_file_number } in
      let stopped = stop_before ks job tb world left key w0 in
      let Goal = λ (c : Cursor U) (r : Status × Work U I B).
        is_ok r.0 ≡ true
        → Done (if (drop_entry ks job key c).0 then done else done ++ (key, value) ∷ []) r.1
          × (r.1.cursor ≡ (drop_entry ks job key c).1) in
      if_lem (Goal w.cursor) (is_ok stopped.0)
        (λ s.
          let (h', c) = stop_before-Holds ks job tb entries world t left key done w0 h s in
          let w' = record stopped.1 { cursor = (drop_entry ks job key stopped.1.cursor).1 } in
          subst
            (λ (c : Cursor U). Goal c (
              if (drop_entry ks job key stopped.1.cursor).0
              then (Status.ok, w')
              else keep_entry ks job tb world left key value w'.builder w'))
            c
            (if_lem
              (λ (r : Status × Work U I B).
                is_ok r.0 ≡ true
                → Done
                    (if (drop_entry ks job key stopped.1.cursor).0
                      then done
                      else done ++ (key, value) ∷ [])
                    r.1
                  × (r.1.cursor ≡ (drop_entry ks job key stopped.1.cursor).1))
              (drop_entry ks job key stopped.1.cursor).0 (λ d ok. rw d (h', refl))
              (λ d ok. rw d (keep_entry-Done left key value done w' w'.builder h' ok))))
        (λ f ok. absurd cc)

  kept_cons :
      (done : List (I × V)) (key : I) (value : V) (input : List (I × V)) (c : Cursor U)
      → (if (drop_entry ks job key c).0 then done else done ++ (key, value) ∷ [])
          ++ kept ks job input (drop_entry ks job key c).1
        ≡ done ++ kept ks job ((key, value) ∷ input) c
  unfolding kept
  kept_cons done key value input c =
      let rest = kept ks job input (drop_entry ks job key c).1 in
      elim (drop_entry ks job key c).0
        as (λ b.
          (if b then done else done ++ (key, value) ∷ []) ++ rest
          ≡ done ++ (if b then rest else (key, value) ∷ rest)) [
            | true ↦ refl
            | false ↦ append_assoc done ((key, value) ∷ []) rest
          ]

  -- The loop that neither fails nor is cut off by a shutdown.
  compact_loop-Done :
      (input : List (I × V)) (done : List (I × V)) (w : Work U I B)
      → Done done w
      → is_ok (compact_loop ks job tb world input w).0 ≡ true
      → world.shutting_down (compact_loop ks job tb world input w).1 ≡ false
      → Done (done ++ kept ks job input w.cursor) (compact_loop ks job tb world input w).2
  unfolding compact_loop kept
  compact_loop-Done [] done w h = λ ok n. rw (append-nil done) h
  compact_loop-Done ((key, value) ∷ input) done w h =
      let left = suc (length input) in
      let r = compact_entry ks job tb world left key value w in
      let Goal = λ (z : Status × ℕ × Work U I B).
        is_ok z.0 ≡ true
        → world.shutting_down z.1 ≡ false
        → Done (done ++ kept ks job ((key, value) ∷ input) w.cursor) z.2 in
      if_lem Goal (world.shutting_down left)
        (λ s ok n. let c : false ≡ true = sym n ∙ s in absurd cc)
        (λ s.
          if_lem Goal (is_ok r.0)
            (λ e ok n.
              let (h', c) = compact_entry-Done left key value done w h e in
              let d = drop_entry ks job key w.cursor in
              let ih =
                compact_loop-Done input (if d.0 then done else done ++ (key, value) ∷ []) r.1 h' ok
                  n in
              let path : (if d.0 then done else done ++ (key, value) ∷ [])
                    ++ kept ks job input r.1.cursor
                  ≡ done ++ kept ks job ((key, value) ∷ input) w.cursor =
                ap
                  (λ cursor.
                    (if d.0 then done else done ++ (key, value) ∷ []) ++ kept ks job input cursor)
                  c
                ∙ kept_cons done key value input w.cursor in
              subst (λ (xs : List (I × V)). Done xs (compact_loop ks job tb world input r.1).2) path
                ih)
            (λ e ok n. let c : false ≡ true = sym e ∙ ok in absurd cc))

  -- Where the work ends with an OK status, the files hold just the entries that are kept, in their
  -- order, each output describes its file (number, size, first and last key), none is empty, and no
  -- builder is left open. It holds for a builder that holds the entries added to it, whatever the
  -- files, the other threads and the sizes at which the outputs are cut.
  pub write_outputs-kept :
      (input : List (I × V)) (w : Work U I B)
      → w.builder ≡ none
      → w.outputs ≡ []
      → w.tables ≡ []
      → w.cursor ≡ first_cursor ks job
      → is_ok (write_outputs ks job tb world input w).0 ≡ true
      → ((write_outputs ks job tb world input w).1.builder ≡ none)
        × Describes ks job tb entries
            (write_outputs ks job tb world input w).1.outputs
            (write_outputs ks job tb world input w).1.tables
        × (table_entries ks job tb entries (write_outputs ks job tb world input w).1.tables
            ≡ kept ks job input (first_cursor ks job))
  unfolding write_outputs
  write_outputs-kept input w e o ta c =
      let (s, left, w') = compact_loop ks job tb world input w in
      let stop = world.shutting_down left in
      let s' = if is_ok s then if stop then Status.io_error else Status.ok else s in
      let start : Done [] w = rw (e, o, ta) (tt, refl) in
      let Goal = λ (r : Status × Work U I B).
        is_ok r.0 ≡ true
        → (r.1.builder ≡ none)
          × Describes ks job tb entries r.1.outputs r.1.tables
          × (table_entries ks job tb entries r.1.tables
              ≡ kept ks job input (first_cursor ks job)) in
      if_lem Goal (is_ok s')
        (λ i ok.
          let (s_ok, going) = not_stopped s stop i in
          let f =
            finish_if_open-Holds ks job tb entries world t left (kept ks job input w.cursor) w'
              w'.builder refl (compact_loop-Done input [] w start s_ok going)
              (first_ok _ (world.input_status left) ok) in
          let r = (finish_if_open ks job tb world left w'.builder w').1 in
          let all : Written ks job tb entries (kept ks job input w.cursor) none r.outputs r.tables =
            subst
              (λ (x : Option B).
                Written ks job tb entries (kept ks job input w.cursor) x r.outputs r.tables)
              f.1 f.0 in
          (f.1, all.0, all.1 ∙ ap (kept ks job input) c))
        (λ i ok. let z : false ≡ true = sym i ∙ ok in absurd cc)
