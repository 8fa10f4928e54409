-- ===== src/Db/Writes/Front.antt =====
-- project/db_impl.cc: the writers that one call of DBImpl::Write completes.
use leveldb_surf.Base.{
  ℕ, ◌+◌, ◌≡◌, refl, ◌∙◌, sym, ap, ap₂, Bool, false, some, List, [], ◌∷◌, ◌++◌, length, ◌==◌, arith,
  All, if_lem, subst,
}
use mathlib.Core.Bool.{true≢false}
use mathlib.Core.List.{append_assoc}
use leveldb_surf.Base.Status.{Status, is_ok}
use leveldb_surf.Db.Writes.{
  Batches, Writer, Group, Answers, Db, build_batch_group, pop_group, apply_group, sync_error,
  write_front,
}
use leveldb_surf.Db.Writes.Grouping.{IsBatches, all_updates, last_of, build_batch_group-eq}

module _ {B : Type 0} where
  -- The writers of a queue are different objects.
  abbrev pub IsDistinct : List (Writer B) → Type 0
  IsDistinct [] = Unit
  IsDistinct (w ∷ ws) = All (λ x. (w.id == x.id) ≡ false) ws × IsDistinct ws

  All-last_of :
      (P : Writer B → Type 0) (x : Writer B) (xs rest : List (Writer B))
      → All P (x ∷ xs ++ rest)
      → P (last_of x xs)
  All-last_of P x [] rest a = a.0
  All-last_of P x (y ∷ ys) rest a = All-last_of P y ys rest a.1

  -- Popping up to the last writer of a group takes the group and no more.
  pop_group-last_of :
      (w : Writer B) (members rest : List (Writer B))
      → IsDistinct (w ∷ members ++ rest)
      → pop_group (last_of w members).id (w ∷ members ++ rest) ≡ (w ∷ members, rest)
  unfolding pop_group
  pop_group-last_of w [] rest d =
      if_lem (λ (z : List (Writer B) × List (Writer B)). z ≡ (w ∷ [], rest)) (w.id == w.id)
        (λ e. refl) (λ e. absurd (ground arith))
  pop_group-last_of w (x ∷ xs) rest d =
      let differs = All-last_of (λ y. (w.id == y.id) ≡ false) x xs rest d.0 in
      let ih = pop_group-last_of x xs rest d.1 in
      if_lem (λ (z : List (Writer B) × List (Writer B)). z ≡ (w ∷ x ∷ xs, rest))
        (w.id == (last_of x xs).id) (λ e. absurd (true≢false (sym e ∙ differs)))
        (λ e. ap (λ (r : List (Writer B) × List (Writer B)). (w ∷ r.0, r.1)) ih)

abbrev pub writer_of : {B : Type 0} → ℕ → B → Bool → Writer B
writer_of id batch sync = record { id = id; batch = some batch; sync = sync }

module _ {B E : Type 0} {lib : Batches B} {entries : B → List E} (law : IsBatches lib entries)
    (io : Answers B) where
  count_group :
      (w : Writer B) (batch : B) (ws members : List (Writer B))
      → entries (build_batch_group lib w batch ws).result
        ≡ entries batch ++ all_updates entries members
      → lib.count (build_batch_group lib w batch ws).result
        ≡ length (entries batch ++ all_updates entries members)
  count_group w batch ws members e =
      law.count-eq (build_batch_group lib w batch ws).result ∙ ap length e

  apply_group-last_sequence :
      (sync : Bool) (g : Group B) (db : Db B)
      → (apply_group lib io sync g db).1.last_sequence ≡ db.last_sequence + lib.count g.result
  unfolding apply_group
  apply_group-last_sequence sync g db =
      let P : Db B → Type 0 = λ x. x.last_sequence ≡ db.last_sequence + lib.count g.result in
      if_lem P (sync_error lib io sync g.result)
        (λ e. if_lem P (is_ok db.bg_error) (λ b. refl) (λ b. refl)) (λ e. refl)

  -- A writer at the front, with a batch and room for it, completes itself and the writers whose
  -- batches are in its group, which are the next ones in the queue; they leave the queue, in which
  -- no writer is twice and which keeps those that arrive while the lock is released, and the last
  -- sequence number grows by the number of their updates, whatever the log, its file and the
  -- memtable answer.
  pub write_front-group :
      (id : ℕ) (batch : B) (sync : Bool) (ws arrived : List (Writer B)) (db : Db B)
      → IsDistinct (writer_of id batch sync ∷ ws ++ arrived)
      → (members : List (Writer B)) × (rest : List (Writer B)) × (ws ≡ members ++ rest)
        × ((write_front lib io Status.ok (writer_of id batch sync) ws arrived db).1
            ≡ writer_of id batch sync ∷ members)
        × ((write_front lib io Status.ok (writer_of id batch sync) ws arrived db).2.writers
            ≡ rest ++ arrived)
        × ((write_front lib io Status.ok (writer_of id batch sync) ws arrived db).2.last_sequence
            ≡ db.last_sequence + length (entries batch ++ all_updates entries members))
  unfolding write_front
  write_front-group id batch sync ws arrived db d =
      let w = writer_of id batch sync in
      let (members, rest, queue, result, last, more, bound) =
        build_batch_group-eq lib entries law w batch ws in
      let popped : pop_group (build_batch_group lib w batch ws).last_writer.id (w ∷ ws ++ arrived)
          ≡ (w ∷ members, rest ++ arrived) =
        let whole : ws ++ arrived ≡ members ++ (rest ++ arrived) =
          ap (λ q. q ++ arrived) queue ∙ append_assoc members rest arrived in
        ap₂ (λ l q. pop_group l (w ∷ q)) (ap (λ x. x.id) last) whole
        ∙ pop_group-last_of w members (rest ++ arrived) (subst (λ q. IsDistinct (w ∷ q)) whole d) in
      (
        members,
        rest,
        queue,
        ap (λ p. p.0) popped,
        ap (λ p. p.1) popped,
        apply_group-last_sequence sync (build_batch_group lib w batch ws) db
            ∙ ap (λ n. db.last_sequence + n) (count_group w batch ws members result),
      )
