-- ===== src/Db/Work/Outputs.antt =====
-- project/db_impl.cc: the files that DBImpl::DoCompactionWork writes.
use mathlib.Core.List.{append_assoc}
use leveldb_surf.Base.{
  ℕ, ◌+◌, ◌<◌, ◌≡◌, refl, ap, sym, ◌∙◌, Bool, true, false, ◌&&◌, Option, none, some, List, [], ◌∷◌,
  ◌++◌, length, length-append, ltb, leb, ◌==◌, if◌then◌else◌, arith, if_lem,
}
use leveldb_surf.Base.Status.{Status, is_ok}
use leveldb_surf.Version.Keys.{KeySpace}
use leveldb_surf.Version.Outputs.{should_stop_before}
use leveldb_surf.Db.Work.{
  Job, TableBuilder, World, Output, Work, close_output, change_current, current_number,
  finish_compaction_output_file, finish_if_open, stop_before, add_entry,
}

-- A builder holds the entries that were added, and finishing it keeps them.
pub record IsTableBuilder {B I V : Type 0} (tb : TableBuilder B I V) (entries : B → List (I × V))
    : Type 0 where
  pub entries-new : entries tb.new_table_builder ≡ []
  pub entries-add :
      (key : I) (value : V) (b : B) → entries (tb.add key value b) ≡ entries b ++ (key, value) ∷ []
  pub length-entries : (b : B) → tb.num_entries b ≡ length (entries b)
  pub entries-finish : (b : B) → entries (tb.finish b).1 ≡ entries b

module _ {I V : Type 0} where
  abbrev pub first_key : List (I × V) → Option I
  first_key [] = none
  first_key ((key, value) ∷ es) = some key

  abbrev pub last_key : List (I × V) → Option I
  last_key [] = none
  last_key ((key, value) ∷ []) = some key
  last_key (e ∷ f ∷ es) = last_key (f ∷ es)

  last_key-append :
      (es : List (I × V)) (key : I) (value : V) → last_key (es ++ (key, value) ∷ []) ≡ some key
  last_key-append [] key value = refl
  last_key-append (e ∷ []) key value = refl
  last_key-append (e ∷ f ∷ es) key value = last_key-append (f ∷ es) key value

  first_key-append :
      (es : List (I × V)) (key : I) (value : V) (o : Option I) (n : ℕ)
      → n ≡ length es
      → o ≡ first_key es
      → (if n == 0 then some key else o) ≡ first_key (es ++ (key, value) ∷ [])
  first_key-append [] key value o n e h = rw e refl
  first_key-append (x ∷ es) key value o n e h =
      let z : (n == 0) ≡ false = ground arith in rw (z, h) refl

module _ {U I V B : Type 0} (ks : KeySpace U I) (job : Job U I) (tb : TableBuilder B I V)
    (entries : B → List (I × V)) where
  -- The entries of all files in the order in which they were written.
  abbrev pub table_entries : List (ℕ × B) → List (I × V)
  table_entries [] = []
  table_entries ((number, b) ∷ tables) = table_entries tables ++ entries b

  -- The outputs describe the files: number, size, first and last key, and no file is empty.
  abbrev pub Describes : List (Output I) → List (ℕ × B) → Type 0
  Describes [] [] = Unit
  Describes (o ∷ os) ((number, b) ∷ tables) =
      (o.number ≡ number)
      × (o.file_size ≡ tb.file_size b)
      × (0 < length (entries b))
      × (o.smallest ≡ first_key (entries b))
      × (o.largest ≡ last_key (entries b))
      × Describes os tables
  Describes _ _ = ⊥

  -- The open output, which may have no entries yet.
  abbrev pub Opened : List (I × V) → B → List (Output I) → List (ℕ × B) → Type 0
  Opened done b [] tables = ⊥
  Opened done b (o ∷ os) tables =
      (o.smallest ≡ first_key (entries b))
      × (o.largest ≡ last_key (entries b))
      × Describes os tables
      × (table_entries tables ++ entries b ≡ done)

  -- The entries `done` are in the files and in the builder.
  abbrev pub Written : List (I × V) → Option B → List (Output I) → List (ℕ × B) → Type 0
  Written done none os tables = Describes os tables × (table_entries tables ≡ done)
  Written done (some b) os tables = (0 < length (entries b)) × Opened done b os tables

  abbrev pub Holds : List (I × V) → Work U I B → Type 0
  Holds done w = Written done w.builder w.outputs w.tables

-- The status of a file that is closed and checked is that of each step.
closed_ok :
    (a b c d : Status) (p : Bool)
    → is_ok (
        if is_ok (if is_ok (if is_ok a then b else a) then c else (if is_ok a then b else a)) && p
        then d
        else (if is_ok (if is_ok a then b else a) then c else (if is_ok a then b else a)))
      ≡ true
    → is_ok a ≡ true
closed_ok Status.ok b c d p h = refl
closed_ok Status.not_found b c d p h = h
closed_ok Status.corruption b c d p h = h
closed_ok Status.io_error b c d p h = h
closed_ok Status.invalid_argument b c d p h = h

module _ {U I V B : Type 0} (ks : KeySpace U I) (job : Job U I) (tb : TableBuilder B I V)
    (entries : B → List (I × V)) (world : World) (t : IsTableBuilder tb entries) where
  abbrev pub H : List (I × V) → Work U I B → Type 0
  H done w = Holds ks job tb entries done w

  closes :
      (done : List (I × V)) (b b' : B) (os : List (Output I)) (tables : List (ℕ × B))
      → entries b' ≡ entries b
      → 0 < length (entries b)
      → Opened ks job tb entries done b os tables
      → Written ks job tb entries done none
          (change_current ks job tb world (λ o. record o { file_size = tb.file_size b' }) os)
          ((current_number ks job tb world os, b') ∷ tables)
  closes done b b' [] tables e l h = absurd h
  closes done b b' (o ∷ os) tables e l h = ((refl, refl, rw e l, rw e h.0, rw e h.1, h.2), rw e h.3)

  close_output-Holds :
      (done : List (I × V)) (b : B) (n : ℕ) (d : Status × B) (w : Work U I B)
      → entries d.1 ≡ entries b
      → 0 < length (entries b)
      → Opened ks job tb entries done b w.outputs w.tables
      → is_ok (close_output ks job tb world n d w).0 ≡ true
      → H done (close_output ks job tb world n d w).1
  close_output-Holds done b n d w e l h ok =
      let finished =
        closed_ok d.0 (world.sync (current_number ks job tb world w.outputs))
          (world.close (current_number ks job tb world w.outputs))
          (world.verify (current_number ks job tb world w.outputs) (tb.file_size d.1)) (ltb 0 n)
          ok in
      rw finished (closes done b d.1 w.outputs w.tables e l h)

  finish-Holds :
      (left : ℕ) (done : List (I × V)) (b : B) (w : Work U I B)
      → 0 < length (entries b)
      → Opened ks job tb entries done b w.outputs w.tables
      → is_ok (finish_compaction_output_file ks job tb world left b w).0 ≡ true
      → H done (finish_compaction_output_file ks job tb world left b w).1
  unfolding finish_compaction_output_file
  finish-Holds left done b w l h =
      if_lem
        (λ (d : Status × B).
          is_ok (close_output ks job tb world (tb.num_entries b) d w).0 ≡ true
          → H done (close_output ks job tb world (tb.num_entries b) d w).1)
        (is_ok (world.input_status left))
        (λ i. close_output-Holds done b (tb.num_entries b) (tb.finish b) w (t.entries-finish b) l h)
        (λ i. close_output-Holds done b (tb.num_entries b) (world.input_status left, b) w refl l h)

  pub finish_if_open-Holds :
      (left : ℕ) (done : List (I × V)) (w : Work U I B) (o : Option B)
      → w.builder ≡ o
      → Written ks job tb entries done o w.outputs w.tables
      → is_ok (finish_if_open ks job tb world left o w).0 ≡ true
      → H done (finish_if_open ks job tb world left o w).1
        × ((finish_if_open ks job tb world left o w).1.builder ≡ none)
        × ((finish_if_open ks job tb world left o w).1.cursor ≡ w.cursor)
  unfolding finish_compaction_output_file
  finish_if_open-Holds left done w none e h ok = (rw e h, e, refl)
  finish_if_open-Holds left done w (some b) e h ok =
      (finish-Holds left done b w h.0 h.1 ok, refl, refl)

  pub stop_before-Holds :
      (left : ℕ) (key : I) (done : List (I × V)) (w : Work U I B)
      → H done w
      → is_ok (stop_before ks job tb world left key w).0 ≡ true
      → H done (stop_before ks job tb world left key w).1
        × ((stop_before ks job tb world left key w).1.cursor ≡ w.cursor)
  unfolding stop_before
  stop_before-Holds left key done w h =
      let stop = should_stop_before ks job.target job.grandparents key w.progress in
      let w' = record w { progress = stop.1 } in
      if_lem (λ (r : Status × Work U I B). is_ok r.0 ≡ true → H done r.1 × (r.1.cursor ≡ w.cursor))
        stop.0 (λ s ok. let f = finish_if_open-Holds left done w' w.builder refl h ok in (f.0, f.2))
        (λ s ok. (h, refl))

  added :
      (done : List (I × V)) (key : I) (value : V) (b : B) (os : List (Output I))
      (tables : List (ℕ × B))
      → Opened ks job tb entries done b os tables
      → Opened ks job tb entries
          (done ++ (key, value) ∷ [])
          (tb.add key value b)
          (change_current ks job tb world
            (λ o. record o {
              smallest = if tb.num_entries b == 0 then some key else o.smallest;
              largest = some key;
            })
            os)
          tables
  added done key value b [] tables h = absurd h
  added done key value b (o ∷ os) tables h = rw (t.entries-add key value b) (
    first_key-append (entries b) key value o.smallest (tb.num_entries b) (t.length-entries b) h.0,
    sym (last_key-append (entries b) key value),
    h.2,
    sym (append_assoc (table_entries ks job tb entries tables) (entries b) ((key, value) ∷ []))
        ∙ ap (λ xs. xs ++ (key, value) ∷ []) h.3,
  )

  pub add_entry-Holds :
      (left : ℕ) (key : I) (value : V) (b : B) (done : List (I × V)) (w : Work U I B)
      → Opened ks job tb entries done b w.outputs w.tables
      → is_ok (add_entry ks job tb world left key value b w).0 ≡ true
      → H (done ++ (key, value) ∷ []) (add_entry ks job tb world left key value b w).1
        × ((add_entry ks job tb world left key value b w).1.cursor ≡ w.cursor)
  unfolding add_entry finish_compaction_output_file
  add_entry-Holds left key value b done w h =
      let b' = tb.add key value b in
      let outputs =
        change_current ks job tb world
          (λ o. record o {
            smallest = if tb.num_entries b == 0 then some key else o.smallest;
            largest = some key;
          })
          w.outputs in
      let w' = record w { outputs = outputs; builder = some b' } in
      let h' = added done key value b w.outputs w.tables h in
      let l : length (entries b') ≡ length (entries b) + 1 =
        ap length (t.entries-add key value b) ∙ length-append (entries b) ((key, value) ∷ []) in
      let l' : 0 < length (entries b') = omega arith in
      if_lem
        (λ (r : Status × Work U I B).
          is_ok r.0 ≡ true → H (done ++ (key, value) ∷ []) r.1 × (r.1.cursor ≡ w.cursor))
        (leb job.max_output_file_size (tb.file_size b'))
        (λ s ok. (finish-Holds left (done ++ (key, value) ∷ []) b' w' l' h' ok, refl))
        (λ s ok. ((l', h'), refl))
