-- ===== src/Version/Get.antt =====
-- project/version_set.cc: SaveValue, Version::ForEachOverlapping and Version::Get.
pub mod Walk
pub mod Decide
use leveldb_surf.Base.{
  ℕ, zero, suc, ◌+◌, ◌-◌, Bool, true, false, not, ◌&&◌, ◌||◌, Option, none, some, List, [], ◌∷◌,
  length, get_elem?, filter, ltb, leb, ◌==◌, if◌then◌else◌, is_lt, is_gt, is_eq, ◌>>=◌, Ordering,
}
use leveldb_surf.Base.Status.{Status, is_ok}
use leveldb_surf.Version.Keys.{KeySpace}
use leveldb_surf.Version.Files.{FileMetaData, find_file}
use leveldb_surf.Version.Levels.{num_levels}

-- The callback of ForEachOverlapping: it gets the level and the file, and says whether to go on.
abbrev pub Visit : Type 0 → Type 0 → Type 0
Visit I S = ℕ → FileMetaData I → S → Bool × S

module _ {I S : Type 0} where
  -- The loop over `tmp`; the flag is false when the callback has asked to stop.
  unfoldable pub visit_all : Visit I S → ℕ → List (FileMetaData I) → S → Bool × S
  visit_all visit level [] s = (true, s)
  visit_all visit level (f ∷ fs) s =
      let r = visit level f s in
      let rest = visit_all visit level fs r.1 in if r.0 then rest else (false, r.1)

module _ {I : Type 0} where
  -- std::sort with NewestFirst, by insertion; file numbers are distinct.
  unfoldable pub insert_newest : FileMetaData I → List (FileMetaData I) → List (FileMetaData I)
  insert_newest f [] = f ∷ []
  insert_newest f (g ∷ gs) = if ltb g.number f.number then f ∷ g ∷ gs else g ∷ insert_newest f gs

  unfoldable pub newest_first : List (FileMetaData I) → List (FileMetaData I)
  unfolding insert_newest
  newest_first [] = []
  newest_first (f ∷ fs) = insert_newest f (newest_first fs)

module _ {U I : Type 0} (ks : KeySpace U I) where
  -- The user key lies in the file's range.
  unfoldable pub holds_user_key : U → FileMetaData I → Bool
  holds_user_key user_key f =
      not (is_lt (ks.user_cmp user_key (ks.user_key f.smallest)))
      && not (is_gt (ks.user_cmp user_key (ks.user_key f.largest)))

module _ {U I S : Type 0} (ks : KeySpace U I) where
  -- One round of the loop over the other levels.
  unfoldable pub visit_level : Visit I S → ℕ → List (FileMetaData I) → U → I → S → Option (Bool × S)
  visit_level visit level files user_key internal_key s = do
    index ← find_file ks files internal_key
    if leb (length files) index then some (true, s) else (do
      f ← get_elem? files index
      if is_lt (ks.user_cmp user_key (ks.user_key f.smallest))
          then some (true, s)
          else some (visit level f s))

  -- The levels from `level` on, with the number of levels left.
  unfoldable pub visit_levels :
      ℕ → ℕ → Visit I S → (ℕ → List (FileMetaData I)) → U → I → S → Option S
  unfolding visit_level
  visit_levels zero level visit files user_key internal_key s = some s
  visit_levels (suc left) level visit files user_key internal_key s = do
    (go_on, s') ← visit_level visit level (files level) user_key internal_key s
    let rest = visit_levels left (suc level) visit files user_key internal_key s'
    if go_on then rest else some s'

  unfoldable pub for_each_overlapping :
      Visit I S → (ℕ → List (FileMetaData I)) → U → I → S → Option S
  for_each_overlapping visit files user_key internal_key s =
      let r = visit_all visit 0 (newest_first (filter (holds_user_key ks user_key) (files 0))) s in
      if r.0
      then visit_levels (num_levels - 1) 1 visit files user_key internal_key r.1
      else some r.1

-- What TableCache::Get with SaveValue does to the saver for a file and the lookup key: nothing, one
-- of the states of SaverState with the value found, or an error.
pub data Read (V : Type 0) : Type 0 where
  fails : Status → Read V
  misses : Read V
  finds : V → Read V
  deletes : Read V
  corrupts : Read V

-- A parsed internal key (none if ParseInternalKey fails) and whether its type is kTypeValue.
unfoldable pub save_value : {U V : Type 0} → (U → U → Ordering) → U → Option (U × Bool) → V → Read V
save_value ucmp user_key none v = corrupts
save_value ucmp user_key (some (key, is_value)) v =
    if is_eq (ucmp key user_key) then (if is_value then finds v else deletes) else misses

-- struct State of Version::Get, the saver's value and state included, and GetStats.
pub record State (I V : Type 0) : Type 0 where
  pub seek_file : Option (ℕ × FileMetaData I)
  pub last_file_read : Option (ℕ × FileMetaData I)
  pub value : Option V
  pub s : Status
  pub found : Bool

abbrev pub start_state : {I V : Type 0} → State I V
start_state = record {
  seek_file = none;
  last_file_read = none;
  value = none;
  s = Status.ok;
  found = false;
}

-- The more than one seek is charged to the file that was read first.
abbrev pub charge : {A : Type 0} → Option A → Option A → Option A
charge none last = last
charge (some f) last = some f

module _ {I V : Type 0} (read : FileMetaData I → Read V) where
  abbrev pub handle : Read V → State I V → Bool × State I V
  handle (fails e) t = (false, record t { s = e; found = true })
  handle misses t = (true, record t { s = Status.ok })
  handle (finds v) t = (false, record t { s = Status.ok; found = true; value = some v })
  handle deletes t = (false, record t { s = Status.ok })
  handle corrupts t = (false, record t { s = Status.corruption; found = true })

  -- State::Match.
  unfoldable pub match_file : Visit I (State I V)
  match_file level f t = handle (read f) (record t {
    seek_file = charge t.seek_file t.last_file_read;
    last_file_read = some (level, f);
  })

-- Version::Get: the status, the value if one was assigned, and the file to charge with its level.
unfoldable pub get :
    {U I V : Type 0}
    → KeySpace U I
    → (FileMetaData I → Read V)
    → (ℕ → List (FileMetaData I))
    → U
    → I
    → Option (Status × Option V × Option (ℕ × FileMetaData I))
get ks read files user_key internal_key = do
  t ← for_each_overlapping ks (match_file read) files user_key internal_key start_state
  some (if t.found then t.s else Status.not_found, t.value, t.seek_file)
