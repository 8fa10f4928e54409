-- ===== src/Db/Writes/Grouping.antt =====
-- project/db_impl.cc: what DBImpl::BuildBatchGroup puts together.
use leveldb_surf.Base.{
  ℕ, ◌+◌, ◌^◌, ◌≤◌, ◌≡◌, refl, ◌∙◌, sym, ap, Bool, true, false, not, ◌&&◌, Option, none, some, List,
  [], ◌∷◌, ◌++◌, length, ltb, arith, All, if_lem,
}
use mathlib.Core.List.{append_assoc, append-nil}
use leveldb_surf.Db.Writes.{
  Batches, Writer, Group, add_batch, group_loop, build_batch_group, max_size,
}

-- What write_batch.h documents: a batch is a list of updates, to which Append adds those of
-- another.
pub record IsBatches {B E : Type 0} (lib : Batches B) (entries : B → List E) : Type 0 where
  pub entries-empty : entries lib.empty ≡ []
  pub entries-append : (a b : B) → entries (lib.append a b) ≡ entries a ++ entries b
  pub count-eq : (b : B) → lib.count b ≡ length (entries b)

module _ {B E : Type 0} (entries : B → List E) where
  abbrev pub updates : Option B → List E
  updates none = []
  updates (some b) = entries b

  -- The updates of a queue of writers, in their order.
  abbrev pub all_updates : List (Writer B) → List E
  all_updates [] = []
  all_updates (w ∷ ws) = updates w.batch ++ all_updates ws

abbrev pub last_of : {B : Type 0} → Writer B → List (Writer B) → Writer B
last_of w [] = w
last_of w (x ∷ xs) = last_of x xs

module _ {B E : Type 0} (lib : Batches B) (entries : B → List E) where
  -- A group of the writers `members` at the front of the queue `ws`, put onto the group `g`.
  pub record IsGroup (limit : ℕ) (first_sync : Bool) (ws : List (Writer B)) (g out : Group B)
      : Type 0 where
    pub members : List (Writer B)
    pub rest : List (Writer B)
    pub queue : ws ≡ members ++ rest
    pub result_eq : entries out.result ≡ entries g.result ++ all_updates entries members
    pub last_eq : out.last_writer ≡ last_of g.last_writer members
    pub no_sync : first_sync ≡ false → All (λ w. w.sync ≡ false) members
    pub bounded : g.size ≤ limit → out.size ≤ limit

  IsGroup-stop :
      (limit : ℕ) (first_sync : Bool) (ws : List (Writer B)) (g : Group B)
      → IsGroup limit first_sync ws g g
  IsGroup-stop limit first_sync ws g = record {
    members = [];
    rest = ws;
    queue = refl;
    result_eq = sym (append-nil (entries g.result));
    last_eq = refl;
    no_sync = λ h. tt;
    bounded = λ h. h;
  }

  -- One writer more, with its updates added to the group before the rest of the queue is.
  IsGroup-more :
      (limit : ℕ) (first_sync : Bool) (w : Writer B) (ws : List (Writer B)) (g h out : Group B)
      → IsGroup limit first_sync ws h out
      → h.last_writer ≡ w
      → entries h.result ≡ entries g.result ++ updates entries w.batch
      → (first_sync ≡ false → w.sync ≡ false)
      → (g.size ≤ limit → h.size ≤ limit)
      → IsGroup limit first_sync (w ∷ ws) g out
  IsGroup-more limit first_sync w ws g h out i l e s b = record {
    members = w ∷ i.members;
    rest = i.rest;
    queue = ap (λ q. w ∷ q) i.queue;
    result_eq =
        i.result_eq
        ∙ ap (λ x. x ++ all_updates entries i.members) e
        ∙ append_assoc (entries g.result) (updates entries w.batch) (all_updates entries i.members);
    last_eq = i.last_eq ∙ ap (λ x. last_of x i.members) l;
    no_sync = λ f. (s f, i.no_sync f);
    bounded = λ f. i.bounded (b f);
  }

  module _ (law : IsBatches lib entries) where
    add_batch-entries :
        (g : Group B) (w : Writer B) (batch : B) (tmp : Bool)
        → g.is_tmp ≡ tmp
        → entries (add_batch lib g w batch).result ≡ entries g.result ++ entries batch
    unfolding add_batch
    add_batch-entries g w batch true t = rw (add_batch, t) (law.entries-append g.result batch)
    add_batch-entries g w batch false t =
        rw (add_batch, t)
          (law.entries-append (lib.append lib.empty g.result) batch
            ∙ ap (λ x. x ++ entries batch)
                (law.entries-append lib.empty g.result
                  ∙ ap (λ x. x ++ entries g.result) law.entries-empty))

    group_loop-step :
        (limit : ℕ) (first_sync : Bool) (id : ℕ) (batch : Option B) (sync : Bool)
        (ws : List (Writer B)) (g : Group B)
        → ((h : Group B) → IsGroup limit first_sync ws h (group_loop lib limit first_sync ws h))
        → IsGroup limit first_sync (record { id = id; batch = batch; sync = sync } ∷ ws) g (
            group_loop lib limit first_sync (record { id = id; batch = batch; sync = sync } ∷ ws) g)
    unfolding group_loop add_batch
    group_loop-step limit first_sync id none sync ws g ih =
        let w : Writer B = record { id = id; batch = none; sync = sync } in
        if_lem (IsGroup limit first_sync (w ∷ ws) g) (sync && not first_sync)
          (λ e. IsGroup-stop limit first_sync (w ∷ ws) g)
          (λ e.
            IsGroup-more limit first_sync w ws g (record g { last_writer = w }) _
              (ih (record g { last_writer = w })) refl (sym (append-nil (entries g.result)))
              (λ f. ground arith) (λ b. b))
    group_loop-step limit first_sync id (some batch) sync ws g ih =
        let w : Writer B = record { id = id; batch = some batch; sync = sync } in
        if_lem (IsGroup limit first_sync (w ∷ ws) g) (sync && not first_sync)
          (λ e. IsGroup-stop limit first_sync (w ∷ ws) g)
          (λ e.
            if_lem (IsGroup limit first_sync (w ∷ ws) g) (ltb limit (g.size + lib.byte_size batch))
              (λ t. IsGroup-stop limit first_sync (w ∷ ws) g)
              (λ t.
                IsGroup-more limit first_sync w ws g (add_batch lib g w batch) _
                  (ih (add_batch lib g w batch)) refl (add_batch-entries g w batch g.is_tmp refl)
                  (λ f. ground arith) (λ b. ground arith)))

    group_loop-IsGroup :
        (limit : ℕ) (first_sync : Bool) (ws : List (Writer B)) (g : Group B)
        → IsGroup limit first_sync ws g (group_loop lib limit first_sync ws g)
    unfolding group_loop
    group_loop-IsGroup limit first_sync [] g = IsGroup-stop limit first_sync [] g
    group_loop-IsGroup limit first_sync (w ∷ ws) g =
        group_loop-step limit first_sync w.id w.batch w.sync ws g
          (group_loop-IsGroup limit first_sync ws)

    max_size-le :
        (size : ℕ) → size ≤ 2 ^ 20 → (size ≤ max_size lib size) × (max_size lib size ≤ 2 ^ 20)
    max_size-le size h = ground arith

    build_batch_group-IsGroup :
        (first : Writer B) (batch : B) (ws : List (Writer B))
        → IsGroup
            (max_size lib (lib.byte_size batch))
            first.sync
            ws
            (record {
              size = lib.byte_size batch;
              is_tmp = false;
              result = batch;
              last_writer = first;
            })
            (build_batch_group lib first batch ws)
    unfolding build_batch_group
    build_batch_group-IsGroup first batch ws =
        group_loop-IsGroup (max_size lib (lib.byte_size batch)) first.sync ws _

    -- BuildBatchGroup puts the updates of the writers at the front of the queue together, in their
    -- order, the first one's before them; none of them asks for a sync that the first does not; if
    -- the first batch has at most 1 MiB, so has the whole group, by the sizes of its batches.
    pub build_batch_group-eq :
        (first : Writer B) (batch : B) (ws : List (Writer B))
        → (members : List (Writer B)) × (rest : List (Writer B)) × (ws ≡ members ++ rest)
          × (entries (build_batch_group lib first batch ws).result
              ≡ entries batch ++ all_updates entries members)
          × ((build_batch_group lib first batch ws).last_writer ≡ last_of first members)
          × (first.sync ≡ false → All (λ w. w.sync ≡ false) members)
          × (lib.byte_size batch ≤ 2 ^ 20 → (build_batch_group lib first batch ws).size ≤ 2 ^ 20)
    build_batch_group-eq first batch ws =
        let i = build_batch_group-IsGroup first batch ws in
        (
          i.members,
          i.rest,
          i.queue,
          i.result_eq,
          i.last_eq,
          i.no_sync,
          λ h.
              let m = max_size-le (lib.byte_size batch) h in
              let b = i.bounded m.0 in omega (arith, b, m.1),
        )
