-- ===== src/Db/Work/Visible.antt =====
-- project/db_impl.cc: what the loop of DBImpl::DoCompactionWork keeps, and what a reader sees of
-- it.
use leveldb_surf.Base.{
  ℕ, ◌+◌, ◌-◌, ◌<◌, ◌≤◌, ◌≡◌, refl, ap, sym, Bool, true, false, not, ◌&&◌, Option, none, some, List,
  [], ◌∷◌, leb, leb→le, if◌then◌else◌, is_eq, arith, if_lem, ◌⊎◌, Lt, Le,
}
use leveldb_surf.Version.Keys.{KeySpace, IsKeySpace}
use leveldb_surf.Version.Files.Overlap.{IsDisjoint}
use leveldb_surf.Version.Levels.{num_levels}
use leveldb_surf.Version.Outputs.{is_base_level_for_key}
use leveldb_surf.Version.Outputs.BaseLevel.{Passed, levels_free, is_base_level_for_key-free}
use leveldb_surf.Db.Work.{ParsedInternalKey, Job, Cursor, is_first, drop_parsed, drop_entry}

module _ {U I : Type 0} (ks : KeySpace U I) (job : Job U I) where
  -- The entries that the loop does not drop.
  unfoldable pub kept : {V : Type 0} → List (I × V) → Cursor U → List (I × V)
  unfolding drop_entry
  kept [] c = []
  kept ((key, value) ∷ input) c =
      let rest = kept input (drop_entry ks job key c).1 in
      if (drop_entry ks job key c).0 then rest else (key, value) ∷ rest

  -- The cursor before the first entry.
  abbrev pub first_cursor : Cursor U
  first_cursor = record {
    current_user_key = none;
    last_sequence_for_key = job.max_sequence;
    level_ptrs = λ level. 0;
  }

-- Keys that all parse, to `parsed`.
module _ {U I : Type 0} (ks : KeySpace U I) (parsed : I → ParsedInternalKey U) where
  abbrev pub is_visible : ℕ → U → I → Bool
  is_visible s u key = is_eq (ks.user_cmp (parsed key).user_key u) && leb (parsed key).sequence s

module _ {U I V : Type 0} (ks : KeySpace U I) (parsed : I → ParsedInternalKey U) where
  -- What a read of the user key at the sequence number finds in a sorted list of entries.
  abbrev pub visible : ℕ → U → List (I × V) → Option (I × V)
  visible s u [] = none
  visible s u ((key, value) ∷ es) =
      let rest = visible s u es in if is_visible ks parsed s u key then some (key, value) else rest

  -- InternalKeyComparator's order: by user key, and newer entries first.
  abbrev pub Before : I × V → I × V → Type 0
  Before a b =
      Lt ks.user_cmp (parsed a.0).user_key (parsed b.0).user_key
      ⊎ ((parsed a.0).user_key ≡ (parsed b.0).user_key)
        × ((parsed b.0).sequence < (parsed a.0).sequence)

  -- The read at `s` finds the same in what is kept, or finds nothing for a deletion of a key that
  -- no deeper level has.
  abbrev pub SeesSame : Job U I → ℕ → U → List (I × V) → List (I × V) → Type 0
  SeesSame job s u input output =
      (visible s u output ≡ visible s u input)
      ⊎ (visible s u output ≡ none)
        × ((e : I × V) × (visible s u input ≡ some e) × ((parsed e.0).is_deletion ≡ true))
        × (levels_free ks job.files u (num_levels - (job.level + 2)) (job.level + 2) ≡ true)

module _ {U I : Type 0} {ks : KeySpace U I} (k : IsKeySpace ks) (job : Job U I) where
  first-false : (key u : U) (o : Option U) → o ≡ some u → key ≡ u → is_first ks job key o ≡ false
  first-false key u o e h = rw (e, h, k.user_order.same u) refl

  moved_key : (key : U) (o : Option U) → (if is_first ks job key o then some key else o) ≡ some key
  moved_key key none = refl
  moved_key key (some u) =
      if_lem (λ (x : Option U). x ≡ some key) (not (is_eq (ks.user_cmp key u))) (λ t. refl)
        (λ f. ap some (sym (k.user_order.path_of_eq key u (ground arith))))

  -- The cursor after an entry that parses.
  abbrev pub MovesTo : ParsedInternalKey U → Cursor U → Cursor U → Type 0
  MovesTo p c d =
      (d.current_user_key ≡ some p.user_key)
      × (d.last_sequence_for_key ≡ p.sequence)
      × ((next : U)
          → Le ks.user_cmp p.user_key next
          → ((l : ℕ) → Passed ks p.user_key (job.files l) (c.level_ptrs l))
          → ((l : ℕ) → Passed ks next (job.files l) (c.level_ptrs l))
          → (l : ℕ) → Passed ks next (job.files l) (d.level_ptrs l))

  pub drop_parsed-MovesTo :
      (p : ParsedInternalKey U) (c : Cursor U)
      → ((l : ℕ) → job.level + 2 ≤ l → IsDisjoint ks (job.files l))
      → MovesTo p c (drop_parsed ks job p c).1
  unfolding drop_parsed
  drop_parsed-MovesTo p c d =
      let key = moved_key p.user_key c.current_user_key in
      if_lem (λ (z : Bool × Cursor U). MovesTo p c z.1)
        (leb
          (if is_first ks job p.user_key c.current_user_key
            then job.max_sequence
            else c.last_sequence_for_key)
          job.smallest_snapshot)
        (λ t. (key, refl, λ next h q r. r))
        (λ t.
          if_lem (λ (z : Bool × Cursor U). MovesTo p c z.1)
            (p.is_deletion && leb p.sequence job.smallest_snapshot)
            (λ b. (
              key,
              refl,
              λ next h q r.
                  (is_base_level_for_key-free k job.files job.level p.user_key c.level_ptrs d q).1
                    next h,
            ))
            (λ b. (key, refl, λ next h q r. r)))

  -- Rule (A).
  pub drop_parsed-hidden :
      (p : ParsedInternalKey U) (c : Cursor U)
      → c.current_user_key ≡ some p.user_key
      → c.last_sequence_for_key ≤ job.smallest_snapshot
      → (drop_parsed ks job p c).0 ≡ true
  unfolding drop_parsed
  drop_parsed-hidden p c e h =
      let f = first-false p.user_key p.user_key c.current_user_key e refl in
      let l : leb c.last_sequence_for_key job.smallest_snapshot ≡ true = ground arith in
      rw (f, l) refl

  -- No newer entry of the key is old enough for all snapshots.
  abbrev pub NotHidden : U → Cursor U → Type 0
  NotHidden u c = c.current_user_key ≡ some u → job.smallest_snapshot < c.last_sequence_for_key

  last_sequence :
      (u : U) (c : Cursor U) (o : Option U)
      → (o ≡ some u → job.smallest_snapshot < c.last_sequence_for_key)
      → job.smallest_snapshot < job.max_sequence
      → leb
          (if is_first ks job u o then job.max_sequence else c.last_sequence_for_key)
          job.smallest_snapshot
        ≡ false
  last_sequence u c none n m = ground arith
  last_sequence u c (some v) n m =
      if_lem (λ (x : ℕ). leb x job.smallest_snapshot ≡ false) (not (is_eq (ks.user_cmp u v)))
        (λ t. ground arith)
        (λ f.
          let lt = n (ap some (sym (k.user_order.path_of_eq u v (ground arith)))) in ground arith)

  -- The first entry that all snapshots see is dropped only by the second rule, the newer ones
  -- never.
  pub drop_parsed-shown :
      (p : ParsedInternalKey U) (c : Cursor U)
      → NotHidden p.user_key c
      → job.smallest_snapshot < job.max_sequence
      → (drop_parsed ks job p c).0 ≡ true
      → (p.is_deletion ≡ true)
        × (p.sequence ≤ job.smallest_snapshot)
        × ((is_base_level_for_key ks job.files job.level p.user_key c.level_ptrs).0 ≡ true)
  unfolding drop_parsed
  drop_parsed-shown p c n m =
      let Goal = λ (z : Bool × Cursor U).
        z.0 ≡ true
        → (p.is_deletion ≡ true)
          × (p.sequence ≤ job.smallest_snapshot)
          × ((is_base_level_for_key ks job.files job.level p.user_key c.level_ptrs).0 ≡ true) in
      rw (last_sequence p.user_key c c.current_user_key n m) (
        if_lem Goal (p.is_deletion && leb p.sequence job.smallest_snapshot)
          (λ b t. (ground arith, leb→le p.sequence job.smallest_snapshot (ground arith), t))
          (λ b t. absurd cc))
