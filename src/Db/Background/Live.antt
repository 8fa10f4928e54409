-- ===== src/Db/Background/Live.antt =====
-- project/db_impl.cc: no background work is forgotten.
use leveldb_surf.Base.{
  ℕ, suc, ◌+◌, ◌≡◌, refl, ◌∙◌, Bool, true, false, not, ◌&&◌, Option, none, some, if◌then◌else◌,
  if_lem, arith,
}
use leveldb_surf.Base.Status.{Status, is_ok}
use leveldb_surf.Db.Background.{
  ManualCompaction, Background, Calls, is_some, has_work, record_background_error, record_failure,
  flush_memtable, commit_flush, maybe_schedule_compaction, compact_mem_table, run_compaction,
  compact_chosen, background_compaction, work_unless_stopped, background_call,
}

module _ {I V C : Type 0} (calls : Calls I V C) where
  -- What the threads do to the state, each under the mutex: DBImpl::Open ends by scheduling, a
  -- writer switches to a new memtable, TEST_CompactRange enters a request or cancels its own, a
  -- read changes what the versions need, a write fails, the destructor begins, and the background
  -- thread runs a call.
  pub data Step : Background I V → Background I V → Type 0 where
    switch_memtable :
        (b : Background I V)
        → b.has_imm ≡ false
        → Step b (maybe_schedule_compaction calls (record b { has_imm = true }))
    request :
        (b : Background I V) (m : ManualCompaction I)
        → b.manual_compaction ≡ none
        → Step b (maybe_schedule_compaction calls (record b { manual_compaction = some m }))
    cancel :
        (b : Background I V)
        → b.background_compaction_scheduled ≡ false
        → Step b (record b { manual_compaction = none })
    read :
        (b : Background I V) (v : V)
        → Step b (maybe_schedule_compaction calls (record b { versions = v }))
    fail : (b : Background I V) (s : Status) → Step b (record_background_error calls s b)
    shut_down : (b : Background I V) → Step b (record b { shutting_down = true })
    run :
        (b : Background I V) (n : ℕ)
        → b.queued ≡ suc n
        → Step b (background_call calls (record b { queued = n }))

  pub data Reachable : Background I V → Type 0 where
    opened :
        (b : Background I V)
        → b.background_compaction_scheduled ≡ false
        → b.queued ≡ 0
        → Reachable (maybe_schedule_compaction calls b)
    step : (b b' : Background I V) → Reachable b → Step b b' → Reachable b'

  -- Work can be done: there is some, no error, and no shutdown.
  abbrev pub can_work : Background I V → Bool
  can_work b = has_work calls b && not b.shutting_down && is_ok b.bg_error

  -- Just the scheduled call is in the environment's queue.
  abbrev pub IsQueued : Background I V → Type 0
  IsQueued b = b.queued ≡ (if b.background_compaction_scheduled then 1 else 0)

  abbrev pub IsLive : Background I V → Type 0
  IsLive b = IsQueued b × (can_work b ≡ true → b.background_compaction_scheduled ≡ true)

  maybe_schedule-IsLive :
      (b : Background I V) → IsQueued b → IsLive (maybe_schedule_compaction calls b)
  unfolding maybe_schedule_compaction
  maybe_schedule-IsLive b q =
      if_lem IsLive b.background_compaction_scheduled (λ s. (q, λ w. s))
        (λ s.
          if_lem IsLive b.shutting_down (λ d. (q, λ w. ground arith))
            (λ d.
              if_lem IsLive (not (is_ok b.bg_error)) (λ e. (q, λ w. ground arith))
                (λ e.
                  if_lem IsLive
                    (not b.has_imm
                      && not (is_some b.manual_compaction)
                      && not (calls.needs_compaction b.versions))
                    (λ n. (q, λ w. ground arith))
                    (λ n.
                      let z : b.queued ≡ 0 = ground arith in
                      let q' : b.queued + 1 ≡ 1 = omega arith in (q', λ w. refl)))))

  record_error-queued :
      (s : Status) (b : Background I V) → (record_background_error calls s b).queued ≡ b.queued
  unfolding record_background_error
  record_error-queued s b =
      if_lem (λ (z : Background I V). z.queued ≡ b.queued) (is_ok b.bg_error) (λ t. refl)
        (λ f. refl)

  record_failure-queued :
      (s : Status) (b : Background I V) → (record_failure calls s b).queued ≡ b.queued
  record_failure-queued s b =
      if_lem (λ (z : Background I V). z.queued ≡ b.queued) (is_ok s) (λ t. refl)
        (λ f. record_error-queued s b)

  fail-IsLive :
      (s : Status) (b : Background I V) → IsLive b → IsLive (record_background_error calls s b)
  unfolding record_background_error
  fail-IsLive s b h =
      if_lem IsLive (is_ok b.bg_error) (λ t. (h.0, λ w. h.1 (ground arith))) (λ f. h)

  commit_flush-queued :
      (s : Status) (b : Background I V) → (commit_flush calls s b).queued ≡ b.queued
  commit_flush-queued s b =
      if_lem (λ (z : Background I V). z.queued ≡ b.queued) (is_ok s) (λ t. refl)
        (λ f. record_error-queued s b)

  compact_mem_table-queued : (b : Background I V) → (compact_mem_table calls b).queued ≡ b.queued
  unfolding compact_mem_table
  compact_mem_table-queued b =
      commit_flush-queued (flush_memtable calls b).0 (flush_memtable calls b).1

  -- DoCompactionWork, and the threads that run meanwhile, do not change the queue while a call is
  -- scheduled.
  abbrev pub KeepsQueue : Type 0
  KeepsQueue =
      (c : C) (b : Background I V)
      → b.background_compaction_scheduled ≡ true
      → (calls.work c b).1.queued ≡ b.queued

  module _ (keeps : KeepsQueue) where
    run_compaction-queued :
        (is_manual : Bool) (o : Option C) (b : Background I V)
        → b.background_compaction_scheduled ≡ true
        → (run_compaction calls is_manual o b).1.queued ≡ b.queued
    unfolding run_compaction
    run_compaction-queued is_manual none b s = refl
    run_compaction-queued is_manual (some c) b s =
        if_lem (λ (z : Status × Background I V). z.1.queued ≡ b.queued)
          (not is_manual && calls.is_trivial_move c)
          (λ t.
            record_failure-queued (calls.move_file c b.versions).0
              (record b { versions = (calls.move_file c b.versions).1 }))
          (λ f. record_failure-queued (calls.work c b).0 (calls.work c b).1 ∙ keeps c b s)

    compact_chosen-queued :
        (o : Option (ManualCompaction I)) (b : Background I V)
        → b.background_compaction_scheduled ≡ true
        → (compact_chosen calls o b).queued ≡ b.queued
    unfolding compact_chosen
    compact_chosen-queued none b s =
        let chosen = calls.pick_compaction b.versions in
        run_compaction-queued false chosen.0 (record b { versions = chosen.1 }) s
    compact_chosen-queued (some m) b s =
        let chosen = calls.compact_range m b.versions in
        run_compaction-queued true chosen.0 (record b { versions = chosen.1 }) s

    background_compaction-queued :
        (b : Background I V)
        → b.background_compaction_scheduled ≡ true
        → (background_compaction calls b).queued ≡ b.queued
    unfolding background_compaction
    background_compaction-queued b s =
        if_lem (λ (z : Background I V). z.queued ≡ b.queued) b.has_imm
          (λ t. compact_mem_table-queued b) (λ f. compact_chosen-queued b.manual_compaction b s)

    work-queued :
        (b : Background I V)
        → b.background_compaction_scheduled ≡ true
        → (work_unless_stopped calls b).queued ≡ b.queued
    work-queued b s =
        let P = λ (z : Background I V). z.queued ≡ b.queued in
        if_lem P b.shutting_down (λ t. refl)
          (λ f.
            if_lem P (not (is_ok b.bg_error)) (λ t. refl) (λ f. background_compaction-queued b s))

    background_call-IsLive :
        (b : Background I V)
        → b.background_compaction_scheduled ≡ true
        → b.queued ≡ 0
        → IsLive (background_call calls b)
    unfolding background_call
    background_call-IsLive b s q =
        maybe_schedule-IsLive
          (record (work_unless_stopped calls b) { background_compaction_scheduled = false })
          (work-queued b s ∙ q)

    step-IsLive : (b b' : Background I V) → Step b b' → IsLive b → IsLive b'
    step-IsLive _ _ (switch_memtable b e) h =
        maybe_schedule-IsLive (record b { has_imm = true }) h.0
    step-IsLive _ _ (request b m e) h =
        maybe_schedule-IsLive (record b { manual_compaction = some m }) h.0
    step-IsLive _ _ (cancel b e) h = (h.0, λ w. h.1 (ground arith))
    step-IsLive _ _ (read b v) h = maybe_schedule-IsLive (record b { versions = v }) h.0
    step-IsLive _ _ (fail b s) h = fail-IsLive s b h
    step-IsLive _ _ (shut_down b) h = (h.0, λ w. h.1 (ground arith))
    step-IsLive _ _ (run b n e) h =
        let s : b.background_compaction_scheduled ≡ true = ground arith in
        background_call-IsLive (record b { queued = n }) s (ground arith)

    -- In every state that the threads can reach from the end of Open, whenever there is work (a
    -- memtable to write, a request, or a version that needs a compaction), no error and no
    -- shutdown, a background call is scheduled; and the environment's queue holds one call if one
    -- is scheduled, else none, so that no two run at once and BackgroundCall's assert holds. It
    -- holds if the work of a compaction, with what runs meanwhile, leaves the queue alone.
    pub Reachable-IsLive : (b : Background I V) → Reachable b → IsLive b
    Reachable-IsLive _ (opened b s q) = maybe_schedule-IsLive b (rw (s, q) refl)
    Reachable-IsLive _ (step b b' r s) = step-IsLive b b' s (Reachable-IsLive b r)
