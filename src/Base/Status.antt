-- ===== src/Base/Status.antt =====
-- Status of leveldb/status.h, which is not in this repository, by the kinds that the code makes or
-- tests.
use mathlib.Core.Bool.{Bool, true, false}

pub data Status : Type 0 where
  ok not_found corruption io_error invalid_argument : Status

-- `s.ok()`
abbrev pub is_ok : Status → Bool
is_ok Status.ok = true
is_ok _ = false
