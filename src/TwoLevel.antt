-- ===== src/TwoLevel.antt =====
-- project/two_level_iterator.cc: class TwoLevelIterator.
pub mod Lists
pub mod Scan
pub mod Forward
mod Tests
use leveldb_surf.Base.{
  ℕ, zero, suc, Bool, true, false, not, ◌&&◌, [], Option, none, some, if◌then◌else◌,
}
use mathlib.Core.Option
use leveldb_surf.Base.Status.{Status, is_ok}
use leveldb_surf.Filter.Policy.{Bytes}
use leveldb_surf.Table.{bytes_eq}

-- The interface Iterator (leveldb/iterator.h, not in this repository), as the operations on its
-- state.
pub record Iter (S K V : Type 0) : Type 0 where
  pub valid : S → Bool
  pub seek : K → S → S
  pub seek_to_first : S → S
  pub seek_to_last : S → S
  pub next : S → S
  pub prev : S → S
  pub key : S → K
  pub value : S → V
  pub status : S → Status

-- The fields of TwoLevelIterator that change; `data_iter` is none for the null pointer.
pub record TwoLevelIterator (S D : Type 0) : Type 0 where
  pub index_iter : S
  pub data_iter : Option D
  pub data_block_handle : Bytes
  pub own_status : Status

-- NewTwoLevelIterator: the constructor.
unfoldable pub new_two_level_iterator : {S D : Type 0} → S → TwoLevelIterator S D
new_two_level_iterator index_iter = record {
  index_iter = index_iter;
  data_iter = none;
  data_block_handle = [];
  own_status = Status.ok;
}

-- `block_function` is the callback on its argument and the read options.
module _ {S D K V : Type 0} (index : Iter S K Bytes) (block : Iter D K V)
    (block_function : Bytes → D) where
  abbrev pub save_error : Status → Status → Status
  save_error s status = if is_ok status && not (is_ok s) then s else status

  unfoldable pub set_data_iterator : Option D → TwoLevelIterator S D → TwoLevelIterator S D
  set_data_iterator data_iter t = record t {
    data_iter = data_iter;
    own_status = elim t.data_iter [
      | none ↦ t.own_status
      | some d ↦ save_error (block.status d) t.own_status
    ];
  }

  -- `data_iter_` is made from this handle already.
  abbrev pub holds_block : Bytes → TwoLevelIterator S D → Bool
  holds_block handle t = elim t.data_iter [
    | none ↦ false
    | some d ↦ bytes_eq handle t.data_block_handle
  ]

  unfoldable pub init_data_block : TwoLevelIterator S D → TwoLevelIterator S D
  unfolding set_data_iterator
  init_data_block t =
      let handle = index.value t.index_iter in
      if not (index.valid t.index_iter)
      then set_data_iterator none t
      else if holds_block handle t
      then t
      else record (set_data_iterator (some (block_function handle)) t) {
        data_block_handle = handle;
      }

  -- `if (data_iter_.iter() != nullptr) data_iter_.…`
  abbrev pub on_data : (D → D) → TwoLevelIterator S D → TwoLevelIterator S D
  on_data f t = record t { data_iter = Option.map f t.data_iter }

  abbrev pub valid : TwoLevelIterator S D → Bool
  valid t = elim t.data_iter [ none ↦ false | some d ↦ block.valid d ]

  -- The loops of the two skips. `none`: the fuel is used up.
  unfoldable pub skip_empty_data_blocks_forward :
      ℕ → TwoLevelIterator S D → Option (TwoLevelIterator S D)
  unfolding init_data_block
  skip_empty_data_blocks_forward zero t = none
  skip_empty_data_blocks_forward (suc fuel) t =
      let t' = record t { index_iter = index.next t.index_iter } in
      let rest =
        skip_empty_data_blocks_forward fuel (on_data block.seek_to_first (init_data_block t')) in
      if valid t
      then some t
      else if not (index.valid t.index_iter)
      then some (set_data_iterator none t)
      else rest

  unfoldable pub skip_empty_data_blocks_backward :
      ℕ → TwoLevelIterator S D → Option (TwoLevelIterator S D)
  unfolding init_data_block
  skip_empty_data_blocks_backward zero t = none
  skip_empty_data_blocks_backward (suc fuel) t =
      let t' = record t { index_iter = index.prev t.index_iter } in
      let rest =
        skip_empty_data_blocks_backward fuel (on_data block.seek_to_last (init_data_block t')) in
      if valid t
      then some t
      else if not (index.valid t.index_iter)
      then some (set_data_iterator none t)
      else rest

  unfoldable pub seek : ℕ → K → TwoLevelIterator S D → Option (TwoLevelIterator S D)
  unfolding skip_empty_data_blocks_forward
  seek fuel target t =
      let t' = init_data_block (record t { index_iter = index.seek target t.index_iter }) in
      skip_empty_data_blocks_forward fuel (on_data (block.seek target) t')

  unfoldable pub seek_to_first : ℕ → TwoLevelIterator S D → Option (TwoLevelIterator S D)
  unfolding skip_empty_data_blocks_forward
  seek_to_first fuel t =
      let t' = init_data_block (record t { index_iter = index.seek_to_first t.index_iter }) in
      skip_empty_data_blocks_forward fuel (on_data block.seek_to_first t')

  unfoldable pub seek_to_last : ℕ → TwoLevelIterator S D → Option (TwoLevelIterator S D)
  unfolding skip_empty_data_blocks_backward
  seek_to_last fuel t =
      let t' = init_data_block (record t { index_iter = index.seek_to_last t.index_iter }) in
      skip_empty_data_blocks_backward fuel (on_data block.seek_to_last t')

  -- `none` also where the assert that the iterator is valid fails.
  unfoldable pub next : ℕ → TwoLevelIterator S D → Option (TwoLevelIterator S D)
  unfolding skip_empty_data_blocks_forward
  next fuel t = if valid t then skip_empty_data_blocks_forward fuel (on_data block.next t) else none

  unfoldable pub prev : ℕ → TwoLevelIterator S D → Option (TwoLevelIterator S D)
  unfolding skip_empty_data_blocks_backward
  prev fuel t =
      if valid t then skip_empty_data_blocks_backward fuel (on_data block.prev t) else none

  -- key() and value().
  unfoldable pub current : TwoLevelIterator S D → Option (K × V)
  current t = elim t.data_iter [
    | none ↦ none
    | some d ↦ if block.valid d then some (block.key d, block.value d) else none
  ]

  unfoldable pub status : TwoLevelIterator S D → Status
  status t =
      if not (is_ok (index.status t.index_iter))
      then index.status t.index_iter
      else elim t.data_iter [
        | none ↦ t.own_status
        | some d ↦ if is_ok (block.status d) then t.own_status else block.status d
      ]
