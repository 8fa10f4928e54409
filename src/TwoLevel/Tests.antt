-- ===== src/TwoLevel/Tests.antt =====
-- Runs of the two-level iterator on blocks held in lists.
use leveldb_surf.Base.{
  ℕ, ◌+◌, ◌-◌, ◌≡◌, refl, true, Option, none, some, List, [], ◌∷◌, length, get_elem?,
  get_elem?-some, ltb, ltb→lt, ◌==◌, if◌then◌else◌, count, ◌>>=◌, arith,
}
use leveldb_surf.Base.Status.{Status}
use leveldb_surf.Filter.Policy.{Bytes}
use leveldb_surf.Table.{bytes_eq}
use leveldb_surf.TwoLevel.{
  Iter, TwoLevelIterator, new_two_level_iterator, seek, seek_to_last, prev, current,
}
use leveldb_surf.TwoLevel.Lists.{IsListIter}
use leveldb_surf.TwoLevel.Scan.{scan_all}
use leveldb_surf.TwoLevel.Forward.{scan-blocks}

-- A list and a position.
abbrev ListState : Type 0 → Type 0
ListState V = List (ℕ × V) × ℕ

module _ {V : Type 0} (default : V) where
  abbrev entry : ListState V → ℕ × V
  entry s = elim (get_elem? s.0 s.1) [ none ↦ (0, default) | some e ↦ e ]

  abbrev list_iter : Iter (ListState V) ℕ V
  list_iter = record {
    valid = λ s. ltb s.1 (length s.0);
    seek = λ k s. (s.0, count (λ e. ltb e.0 k) s.0);
    seek_to_first = λ s. (s.0, 0);
    seek_to_last = λ s. (s.0, length s.0 - 1);
    next = λ s. (s.0, s.1 + 1);
    prev = λ s. (s.0, if s.1 == 0 then length s.0 else s.1 - 1);
    key = λ s. (entry s).0;
    value = λ s. (entry s).1;
    status = λ s. Status.ok;
  }

  entry_of :
      (o : Option (ℕ × V)) (e : ℕ × V)
      → o ≡ some e
      → o ≡ some (elim o [ none ↦ (0, default) | some e ↦ e ])
  entry_of none e h = cc
  entry_of (some a) e h = refl

  entry_lem : (s : ListState V) → ltb s.1 (length s.0) ≡ true → get_elem? s.0 s.1 ≡ some (entry s)
  entry_lem s v =
      let (e, h) = get_elem?-some s.0 s.1 (ltb→lt s.1 (length s.0) v) in
      entry_of (get_elem? s.0 s.1) e h

  list_iter-IsListIter : IsListIter list_iter (λ s. s.0) (λ s. s.1)
  list_iter-IsListIter = record {
    valid_eq = λ s. refl;
    pos_first = λ s. refl;
    entries_first = λ s. refl;
    pos_next = λ s v. refl;
    entries_next = λ s. refl;
    entry_eq = entry_lem;
  }

-- Three blocks, the second of which is empty.
abbrev index_entries : List (ℕ × Bytes)
index_entries = (2, 1 ∷ []) ∷ (5, 2 ∷ []) ∷ (9, 3 ∷ []) ∷ []

abbrev contents : Bytes → List (ℕ × ℕ)
contents handle =
    if bytes_eq handle (1 ∷ [])
    then (1, 10) ∷ (2, 20) ∷ []
    else if bytes_eq handle (3 ∷ [])
    then (9, 90) ∷ []
    else []

abbrev open_block : Bytes → ListState ℕ
open_block handle = (contents handle, 0)

abbrev start : TwoLevelIterator (ListState Bytes) (ListState ℕ)
start = new_two_level_iterator (index_entries, 7)

scan-blocks_example :
    scan_all (list_iter []) (list_iter 0) open_block 4 4 start
    ≡ some ((1, 10) ∷ (2, 20) ∷ (9, 90) ∷ [])
unfolding new_two_level_iterator
scan-blocks_example =
    scan-blocks (list_iter []) (list_iter 0) open_block (λ s. s.0) (λ s. s.1) (λ s. s.0) (λ s. s.1)
      contents (list_iter-IsListIter []) (list_iter-IsListIter 0) (λ h. refl) 4 4 start tt
      (omega arith) (omega arith)

-- The same walk backwards, and a seek between two blocks.
last_then_prev :
    (do
      t ← seek_to_last (list_iter []) (list_iter 0) open_block 4 start
      u ← prev (list_iter []) (list_iter 0) open_block 4 t
      current (list_iter []) (list_iter 0) open_block u)
    ≡ some (2, 20)
unfolding seek_to_last prev current new_two_level_iterator
last_then_prev = refl

seek_past_empty :
    (do
      t ← seek (list_iter []) (list_iter 0) open_block 4 3 start
      current (list_iter []) (list_iter 0) open_block t)
    ≡ some (9, 90)
unfolding seek current new_two_level_iterator
seek_past_empty = refl
