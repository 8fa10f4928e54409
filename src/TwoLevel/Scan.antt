-- ===== src/TwoLevel/Scan.antt =====
-- project/two_level_iterator.cc: the loop over all entries.
use leveldb_surf.Base.{ℕ, zero, suc, [], ◌∷◌, Option, none, some, if◌then◌else◌, List, ◌>>=◌}
use leveldb_surf.Filter.Policy.{Bytes}
use leveldb_surf.TwoLevel.{Iter, TwoLevelIterator, valid, seek_to_first, next, current}

module _ {S D K V : Type 0} (index : Iter S K Bytes) (block : Iter D K V)
    (block_function : Bytes → D) where
  -- The loop `for (SeekToFirst(); Valid(); Next())` after its first step, with what it reads.
  -- `none`: the fuel of the loop or of a skip is used up.
  unfoldable pub scan : ℕ → ℕ → TwoLevelIterator S D → Option (List (K × V))
  unfolding current next
  scan zero fuel t = none
  scan (suc rounds) fuel t =
      let rest = next index block block_function fuel t >>= scan rounds fuel in
      if valid index block block_function t
      then (current index block block_function t >>= λ e. rest >>= λ es. some (e ∷ es))
      else some []

  unfoldable pub scan_all : ℕ → ℕ → TwoLevelIterator S D → Option (List (K × V))
  unfolding seek_to_first scan
  scan_all rounds fuel t = seek_to_first index block block_function fuel t >>= scan rounds fuel
