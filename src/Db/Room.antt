-- ===== src/Db/Room.antt =====
-- project/db_impl.cc: DBImpl::MakeRoomForWrite.
pub mod Passes
use leveldb_surf.Base.{
  ℕ, zero, suc, ◌+◌, Bool, true, false, not, ◌&&◌, Option, none, some, leb, ◌==◌, if◌then◌else◌,
  List, [], ◌∷◌,
}
use leveldb_surf.Base.Status.{Status, is_ok}

-- What the loop tests and changes; the triggers are those of db/dbformat.h.
pub record Limits : Type 0 where
  pub slowdown_trigger : ℕ
  pub stop_trigger : ℕ
  pub write_buffer_size : ℕ

pub record Room : Type 0 where
  pub bg_error : Status
  pub level0_files : ℕ
  pub mem_usage : ℕ
  pub has_imm : Bool
  pub next_file_number : ℕ
  pub logfile_number : ℕ

-- VersionSet::NewFileNumber and ReuseFileNumber.
unfoldable pub new_file_number : ℕ → ℕ × ℕ
new_file_number next = (next, next + 1)

unfoldable pub reuse_file_number : ℕ → ℕ → ℕ
reuse_file_number number next = if next == number + 1 then number else next

-- One pass of the loop: it breaks with the value of `s` (still OK where there is room, since a
-- failed Close is a background error) and the state; it sleeps, waits for the background work, or
-- switches to a new memtable.
pub data Pass : Type 0 where
  breaks : Status → Room → Pass
  sleeps : Pass
  waits : Pass
  switches : Room → Pass

-- Room for the new log file: the file's status and that of closing the old one, and the usage of a
-- new memtable. The assert that there is no previous log number is left out.
unfoldable pub switch_log : Status → Status → ℕ → Room → Pass
unfolding new_file_number reuse_file_number
switch_log new_status close_status empty_usage r =
    let number = (new_file_number r.next_file_number).0 in
    let next = (new_file_number r.next_file_number).1 in
    let error = if is_ok r.bg_error && not (is_ok close_status) then close_status else r.bg_error in
    if is_ok new_status
    then switches (record r {
      bg_error = error;
      mem_usage = empty_usage;
      has_imm = true;
      next_file_number = next;
      logfile_number = number;
    })
    else breaks new_status (record r { next_file_number = reuse_file_number number next })

unfoldable pub room_pass : Limits → Bool → Bool → Status → Status → ℕ → Room → Pass
unfolding switch_log
room_pass l force allow_delay new_status close_status empty_usage r =
    if not (is_ok r.bg_error)
    then breaks r.bg_error r
    else if allow_delay && leb l.slowdown_trigger r.level0_files
    then sleeps
    else if not force && leb r.mem_usage l.write_buffer_size
    then breaks Status.ok r
    else if r.has_imm
    then waits
    else if leb l.stop_trigger r.level0_files
    then waits
    else switch_log new_status close_status empty_usage r

-- What happens at one pass: the file operations of a switch, the usage of a new memtable, and what
-- the other threads make of the state while the lock is free.
pub record Event : Type 0 where
  pub new_status : Status
  pub close_status : Status
  pub empty_usage : ℕ
  pub others : Room → Room

-- The loop along a sequence of events. `none`: the writer still waits when they are over.
unfoldable pub make_room_for_write :
    Limits → List Event → Bool → Bool → Room → Option (Status × Room)
unfolding room_pass
make_room_for_write l [] force allow_delay r = none
make_room_for_write l (e ∷ es) force allow_delay r =
    elim (room_pass l force allow_delay e.new_status e.close_status e.empty_usage r) [
      | breaks s r' ↦ some (s, r')
      | sleeps ↦ make_room_for_write l es force false (e.others r)
      | waits ↦ make_room_for_write l es force allow_delay (e.others r)
      | switches r' ↦ make_room_for_write l es false allow_delay r'
    ]
