-- ===== src/Db/Work/Reads.antt =====
-- project/db_impl.cc: reads before and after the entries that DBImpl::DoCompactionWork drops.
use leveldb_surf.Base.{
  ℕ, ◌+◌, ◌-◌, ◌<◌, ◌≤◌, ◌≡◌, refl, ap, sym, ◌∙◌, Bool, true, false, none, some, List, [], ◌∷◌, All,
  All-map, leb, leb→le, if◌then◌else◌, is_eq, arith, if_lem, Bool-cases, inl, inr, Lt, Le, Ordering,
  IsSorted, lt_irrefl, lt_le_trans, Order-cases, le_self,
}
use mathlib.Core.Option.{some-injective}
use leveldb_surf.Version.Keys.{KeySpace, IsKeySpace}
use leveldb_surf.Version.Files.Overlap.{IsDisjoint}
use leveldb_surf.Version.Levels.{num_levels}
use leveldb_surf.Version.Outputs.BaseLevel.{Passed, levels_free, is_base_level_for_key-free}
use leveldb_surf.Db.Work.{ParsedInternalKey, Job, Cursor, drop_parsed, drop_entry}
use leveldb_surf.Db.Work.Visible.{
  kept, first_cursor, is_visible, visible, Before, SeesSame, NotHidden, drop_parsed-MovesTo,
  drop_parsed-hidden, drop_parsed-shown,
}

module _ {U I : Type 0} (ks : KeySpace U I) (job : Job U I) where
  drop_entry-parsed :
      (parsed : I → ParsedInternalKey U) (key : I) (c : Cursor U)
      → job.parse key ≡ some (parsed key)
      → drop_entry ks job key c ≡ drop_parsed ks job (parsed key) c
  unfolding drop_entry
  drop_entry-parsed parsed key c h = rw (h, drop_entry) refl

module _ {U I V : Type 0} {ks : KeySpace U I} (k : IsKeySpace ks) (job : Job U I)
    (parsed : I → ParsedInternalKey U)
    (disjoint : (l : ℕ) → job.level + 2 ≤ l → IsDisjoint ks (job.files l)) where
  abbrev user : I × V → U
  user e = (parsed e.0).user_key

  abbrev pub Parses : I × V → Type 0
  Parses e = job.parse e.0 ≡ some (parsed e.0)

  abbrev Away : U → List (I × V) → Type 0
  Away u = All (λ e. is_eq (ks.user_cmp (user e) u) ≡ false)

  le_of_order : (a b : I × V) → Before ks parsed a b → Le ks.user_cmp (user a) (user b)
  le_of_order a b (inl lt) g = ground arith
  le_of_order a b (inr e) g = le_self k.user_order (user a) (ap (ks.user_cmp (user a)) e.0 ∙ g)

  kept-Away :
      (s : ℕ) (u : U) (xs : List (I × V)) (c : Cursor U)
      → Away u xs
      → visible ks parsed s u (kept ks job xs c) ≡ none
  unfolding kept
  kept-Away s u [] c a = refl
  kept-Away s u ((key, value) ∷ xs) c a =
      let ih = kept-Away s u xs (drop_entry ks job key c).1 a.1 in
      if_lem (λ (z : List (I × V)). visible ks parsed s u z ≡ none) (drop_entry ks job key c).0
        (λ t. ih) (λ f. rw a.0 ih)

  greater-Away :
      (u : U) (e : I × V) (xs : List (I × V))
      → Le ks.user_cmp u (user e)
      → is_eq (ks.user_cmp (user e) u) ≡ false
      → All (Before ks parsed e) xs
      → Away u (e ∷ xs)
  greater-Away u e xs h n b =
      let lt : Lt ks.user_cmp u (user e) = elim (Order-cases ks.user_cmp u (user e)) [
        | inl l ↦ l
        | inr (inl q) ↦
            let p = k.user_order.path_of_eq u (user e) q in
            let same = k.user_order.same (user e) in
            let r : ks.user_cmp (user e) u ≡ Ordering.eq = ap (ks.user_cmp (user e)) p ∙ same in
            absurd (ground arith)
        | inr (inr g) ↦ absurd (h g)
      ] in
      (
        n,
        All-map (Before ks parsed e) (λ y. is_eq (ks.user_cmp (user y) u) ≡ false)
            (λ y q.
              let g =
                k.user_order.lt_flip u (user y)
                  (lt_le_trans k.user_order u (user e) (user y) lt (le_of_order e y q)) in
              ground arith)
            xs b,
      )

  older :
      (e : I × V) (n : ℕ) (xs : List (I × V))
      → (parsed e.0).sequence ≤ n
      → All (Before ks parsed e) xs
      → All (λ y. user y ≡ user e → (parsed y.0).sequence ≤ n) xs
  older e n xs h b =
      All-map (Before ks parsed e) (λ y. user y ≡ user e → (parsed y.0).sequence ≤ n)
        (λ y q p. elim q [
          | inl lt ↦
              absurd (lt_irrefl k.user_order (user e) (ap (ks.user_cmp (user e)) (sym p) ∙ lt))
          | inr r ↦ let l = r.1 in omega arith
        ])
        xs b

  -- After an entry that all snapshots see, the older ones of its user key are all dropped.
  kept_hidden :
      (s : ℕ) (u : U) (xs : List (I × V)) (c : Cursor U)
      → c.current_user_key ≡ some u
      → c.last_sequence_for_key ≤ job.smallest_snapshot
      → All (λ e. Le ks.user_cmp u (user e)) xs
      → All (λ e. user e ≡ u → (parsed e.0).sequence ≤ job.smallest_snapshot) xs
      → IsSorted (Before ks parsed) xs
      → All Parses xs
      → visible ks parsed s u (kept ks job xs c) ≡ none
  unfolding kept
  kept_hidden s u [] c e l g o so p = refl
  kept_hidden s u ((key, value) ∷ xs) c e l g o so p =
      elim (Bool-cases (is_eq (ks.user_cmp (user (key, value)) u))) [
        | inl t ↦
            let same : user (key, value) ≡ u =
              k.user_order.path_of_eq (user (key, value)) u (ground arith) in
            let c' = (drop_parsed ks job (parsed key) c).1 in
            let moved = drop_parsed-MovesTo k job (parsed key) c disjoint in
            let hidden = drop_parsed-hidden k job (parsed key) c (e ∙ ap some (sym same)) l in
            let ih =
              kept_hidden s u xs c' (moved.0 ∙ ap some same)
                (let q = o.0 same in let m = moved.1 in omega arith) g.1 o.1 so.1 p.1 in
            rw (drop_entry-parsed ks job parsed key c p.0, hidden) ih
        | inr f ↦ kept-Away s u ((key, value) ∷ xs) c (greater-Away u (key, value) xs g.0 f so.0)
      ]

  abbrev Ready : Cursor U → List (I × V) → Type 0
  Ready c = All (λ e. (l : ℕ) → Passed ks (user e) (job.files l) (c.level_ptrs l))

  pointers_next :
      (e : I × V) (xs : List (I × V)) (c : Cursor U)
      → Ready c (e ∷ xs)
      → All (Before ks parsed e) xs
      → Ready (drop_parsed ks job (parsed e.0) c).1 xs
  pointers_next e [] c r b = tt
  pointers_next e (y ∷ xs) c r b =
      let moved = drop_parsed-MovesTo k job (parsed e.0) c disjoint in
      (moved.2 (user y) (le_of_order e y b.0) r.0 r.1.0, pointers_next e xs c (r.0, r.1.1) b.1)

  -- What the reader of the rest sees, where the first entry is of another key.
  other_key :
      (s : ℕ) (u : U) (key : I) (value : V) (xs ys : List (I × V)) (b : Bool)
      → is_visible ks parsed s u key ≡ false
      → SeesSame ks parsed job s u xs ys
      → SeesSame ks parsed job s u ((key, value) ∷ xs) (if b then ys else (key, value) ∷ ys)
  other_key s u key value xs ys true f h = rw f h
  other_key s u key value xs ys false f h = rw f h

  old_key :
      (s : ℕ) (u : U) (key : I) (value : V) (xs ys : List (I × V)) (b : Bool)
      → is_visible ks parsed s u key ≡ true
      → visible ks parsed s u ys ≡ none
      → (b ≡ true
          → ((parsed key).is_deletion ≡ true)
            × (levels_free ks job.files u (num_levels - (job.level + 2)) (job.level + 2) ≡ true))
      → SeesSame ks parsed job s u ((key, value) ∷ xs) (if b then ys else (key, value) ∷ ys)
  old_key s u key value xs ys true t n g =
      let (del, free) = g refl in inr (n, ((key, value), rw t refl, del), free)
  old_key s u key value xs ys false t n g = inl (rw t refl)

  new_key :
      (s : ℕ) (u : U) (key : I) (value : V) (xs ys : List (I × V))
      → SeesSame ks parsed job s u xs ys
      → SeesSame ks parsed job s u ((key, value) ∷ xs) ((key, value) ∷ ys)
  new_key s u key value xs ys h = elim (Bool-cases (is_visible ks parsed s u key)) [
    | inl t ↦ inl (rw t refl)
    | inr f ↦ other_key s u key value xs ys false f h
  ]

  kept_old :
      (s : ℕ) (u : U) (key : I) (value : V) (xs : List (I × V)) (c : Cursor U)
      → job.smallest_snapshot ≤ s
      → job.smallest_snapshot < job.max_sequence
      → NotHidden k job u c
      → Ready c ((key, value) ∷ xs)
      → IsSorted (Before ks parsed) ((key, value) ∷ xs)
      → All Parses ((key, value) ∷ xs)
      → (parsed key).user_key ≡ u
      → (parsed key).sequence ≤ job.smallest_snapshot
      → SeesSame ks parsed job s u ((key, value) ∷ xs) (kept ks job ((key, value) ∷ xs) c)
  unfolding kept
  kept_old s u key value xs c h m n r so p same old =
      let d = drop_parsed ks job (parsed key) c in
      let moved = drop_parsed-MovesTo k job (parsed key) c disjoint in
      let seen : is_visible ks parsed s u key ≡ true =
        rw (same, k.user_order.same u)
          (let l : (parsed key).sequence ≤ s = omega arith in ground arith) in
      let le =
        All-map (Before ks parsed (key, value)) (λ e. Le ks.user_cmp u (user e))
          (λ e b. rw (sym same) (le_of_order (key, value) e b)) xs so.0 in
      let o : All (λ e. user e ≡ u → (parsed e.0).sequence ≤ job.smallest_snapshot) xs =
        rw (sym same) (older (key, value) job.smallest_snapshot xs old so.0) in
      let hidden =
        kept_hidden s u xs d.1 (moved.0 ∙ ap some same) (let e = moved.1 in omega arith) le o so.1
          p.1 in
      rw (drop_entry-parsed ks job parsed key c p.0) (
        old_key s u key value xs (kept ks job xs d.1) d.0 seen hidden (λ t.
          let shown = drop_parsed-shown k job (parsed key) c (rw same n) m t in
          let free =
            is_base_level_for_key-free k job.files job.level (parsed key).user_key c.level_ptrs
              disjoint r.0 in
          (shown.0, rw (sym same) (sym free.0 ∙ shown.2))))

  kept_sees :
      (s : ℕ) (u : U) (xs : List (I × V)) (c : Cursor U)
      → job.smallest_snapshot ≤ s
      → job.smallest_snapshot < job.max_sequence
      → NotHidden k job u c
      → Ready c xs
      → IsSorted (Before ks parsed) xs
      → All Parses xs
      → SeesSame ks parsed job s u xs (kept ks job xs c)
  unfolding kept
  kept_sees s u [] c h m n r so p = inl refl
  kept_sees s u ((key, value) ∷ xs) c h m n r so p =
      let d = drop_parsed ks job (parsed key) c in
      let moved = drop_parsed-MovesTo k job (parsed key) c disjoint in
      let ready = pointers_next (key, value) xs c r so.0 in
      let ih = λ (n' : NotHidden k job u d.1). kept_sees s u xs d.1 h m n' ready so.1 p.1 in
      elim (Bool-cases (is_eq (ks.user_cmp (user (key, value)) u))) [
        | inr f ↦
            let n' : NotHidden k job u d.1 = λ e.
              let same : user (key, value) ≡ u =
                some-injective (user (key, value)) u (sym moved.0 ∙ e) in
              let q = k.user_order.same u in
              let f' : is_eq (ks.user_cmp u u) ≡ false =
                ap (λ (v : U). is_eq (ks.user_cmp v u)) (sym same) ∙ f in
              absurd (ground arith) in
            rw (drop_entry-parsed ks job parsed key c p.0)
              (other_key s u key value xs (kept ks job xs d.1) d.0 (rw f refl) (ih n'))
        | inl t ↦
            let same : user (key, value) ≡ u =
              k.user_order.path_of_eq (user (key, value)) u (ground arith) in
            elim (Bool-cases (leb (parsed key).sequence job.smallest_snapshot)) [
              | inl old ↦
                  kept_old s u key value xs c h m n r so p same
                    (leb→le (parsed key).sequence job.smallest_snapshot old)
              | inr new ↦
                  let lt : job.smallest_snapshot < (parsed key).sequence = ground arith in
                  let n' : NotHidden k job u d.1 = λ e. let q = moved.1 in omega arith in
                  let stays : d.0 ≡ false = elim (Bool-cases d.0) [
                    | inl b ↦
                        let shown = drop_parsed-shown k job (parsed key) c (rw same n) m b in
                        let l = shown.1 in absurd (omega arith)
                    | inr b ↦ b
                  ] in
                  rw (drop_entry-parsed ks job parsed key c p.0, stays)
                    (new_key s u key value xs (kept ks job xs d.1) (ih n'))
            ]
      ]

  pointers_first : (xs : List (I × V)) → Ready (first_cursor ks job) xs
  pointers_first [] = tt
  pointers_first (e ∷ xs) = ((λ l. (omega arith, tt)), pointers_first xs)

  -- Of a sorted input whose keys all parse, the entries that a compaction keeps give a read at any
  -- sequence number from the smallest snapshot on what the whole input gives it, or nothing where
  -- it gives a deletion and no file below the compaction's output level contains the user key. The
  -- levels from two below the compaction's on are disjoint (level 0 need not be) and the smallest
  -- snapshot is below the largest sequence number.
  pub kept-visible :
      (s : ℕ) (u : U) (xs : List (I × V))
      → job.smallest_snapshot ≤ s
      → job.smallest_snapshot < job.max_sequence
      → IsSorted (Before ks parsed) xs
      → All Parses xs
      → SeesSame ks parsed job s u xs (kept ks job xs (first_cursor ks job))
  kept-visible s u xs h m so p =
      kept_sees s u xs (first_cursor ks job) h m (λ e. absurd cc) (pointers_first xs) so p
