-- ===== src/Db/Room/Passes.antt =====
-- project/db_impl.cc: what MakeRoomForWrite promises when it returns.
use leveldb_surf.Base.{
  ℕ, ◌+◌, ◌≤◌, ◌<◌, ◌≡◌, refl, ◌⊎◌, inl, inr, Bool, true, false, not, ◌&&◌, some, List, [], ◌∷◌,
  leb, arith, Bool-cases, if_lem, sym, subst, ◌∙◌,
}
use mathlib.Core.Option.{some-injective}
use mathlib.Core.Bool.{true≢false}
use leveldb_surf.Base.Status.{Status, is_ok}
use leveldb_surf.Db.Room.{
  Limits, Room, Pass, breaks, sleeps, waits, switches, reuse_file_number, switch_log, room_pass,
  Event, make_room_for_write,
}

-- There is room: nothing forces a switch and the memtable is within its size. Else it is full.
abbrev pub HasRoom : Limits → Bool → Room → Type 0
HasRoom l force r = (force ≡ false) × (r.mem_usage ≤ l.write_buffer_size)

abbrev pub IsFull : Limits → Bool → Room → Type 0
IsFull l force r = (force ≡ true) ⊎ (l.write_buffer_size < r.mem_usage)

-- No background error, and the writer is not put to sleep for the level-0 files.
abbrev pub GoesOn : Limits → Bool → Room → Type 0
GoesOn l allow_delay r =
    (r.bg_error ≡ Status.ok) × ((allow_delay ≡ false) ⊎ (r.level0_files < l.slowdown_trigger))

-- When a pass has each of its outcomes, and with which state.
abbrev pub PassIsRight : Limits → Bool → Bool → Room → Status → Pass → Type 0
PassIsRight l force delay r new_status (breaks s r') =
    ((s ≡ Status.ok) × (r' ≡ r) × GoesOn l delay r × HasRoom l force r)
    ⊎ ((is_ok s ≡ false) × (s ≡ r.bg_error) × (r' ≡ r))
    ⊎ ((is_ok s ≡ false)
        × (s ≡ new_status)
        × GoesOn l delay r
        × IsFull l force r
        × (r.has_imm ≡ false)
        × (r'.next_file_number ≡ r.next_file_number))
PassIsRight l force delay r new_status sleeps =
    (r.bg_error ≡ Status.ok) × (delay ≡ true) × (l.slowdown_trigger ≤ r.level0_files)
PassIsRight l force delay r new_status waits =
    GoesOn l delay r × IsFull l force r × ((r.has_imm ≡ true) ⊎ (l.stop_trigger ≤ r.level0_files))
PassIsRight l force delay r new_status (switches r') =
    GoesOn l delay r
    × IsFull l force r
    × (is_ok new_status ≡ true)
    × (r.has_imm ≡ false)
    × (r.level0_files < l.stop_trigger)
    × (r'.has_imm ≡ true)
    × (r'.logfile_number ≡ r.next_file_number)
    × (r'.next_file_number ≡ r.next_file_number + 1)

is_ok-eq : (s : Status) → is_ok s ≡ true → s ≡ Status.ok
is_ok-eq s h = ground arith

reused : (n : ℕ) → reuse_file_number n (n + 1) ≡ n
unfolding reuse_file_number
reused n = ground arith

switch_log-right :
    (l : Limits) (force delay : Bool) (n c : Status) (u : ℕ) (r : Room)
    → GoesOn l delay r
    → IsFull l force r
    → r.has_imm ≡ false
    → r.level0_files < l.stop_trigger
    → PassIsRight l force delay r n (switch_log n c u r)
unfolding switch_log
switch_log-right l force delay n c u r g b i f = elim (Bool-cases (is_ok n)) [
  | inl e ↦ rw (switch_log, e) (g, b, e, i, f, refl, refl, refl)
  | inr e ↦ rw (switch_log, e) (inr (inr (e, refl, g, b, i, reused r.next_file_number)))
]

leb-lt : (a b : ℕ) → leb a b ≡ false → b < a
leb-lt a b h = ground arith

goes_on :
    (l : Limits) (delay : Bool) (r : Room)
    → r.bg_error ≡ Status.ok
    → delay && leb l.slowdown_trigger r.level0_files ≡ false
    → GoesOn l delay r
goes_on l true r b h = (b, inr (leb-lt l.slowdown_trigger r.level0_files h))
goes_on l false r b h = (b, inl refl)

is_full :
    (l : Limits) (force : Bool) (r : Room)
    → not force && leb r.mem_usage l.write_buffer_size ≡ false
    → IsFull l force r
is_full l true r h = inl refl
is_full l false r h = inr (leb-lt r.mem_usage l.write_buffer_size h)

-- Each pass of MakeRoomForWrite, whatever the state and the answers of the file system, breaks with
-- success only if the memtable has room and nothing forces a switch, and with a failure only on the
-- background error or on a log file that cannot be made, whose number it gives back; it sleeps only
-- if it may delay and level 0 has reached the slowdown trigger; where the memtable is full or a
-- switch is forced, it waits only for a memtable that is being compacted or for level 0 at the stop
-- trigger, and switches only without those, to a log file with the next number.
pub room_pass-PassIsRight :
    (l : Limits) (force allow_delay : Bool) (n c : Status) (u : ℕ) (r : Room)
    → PassIsRight l force allow_delay r n (room_pass l force allow_delay n c u r)
unfolding room_pass
room_pass-PassIsRight l force allow_delay n c u r =
    let P = PassIsRight l force allow_delay r n in
    if_lem P (not (is_ok r.bg_error)) (λ e. inr (inl (ground arith, refl, refl)))
      (λ e.
        let no_error = is_ok-eq r.bg_error (ground arith) in
        if_lem P (allow_delay && leb l.slowdown_trigger r.level0_files)
          (λ d. (no_error, ground arith, ground arith))
          (λ d.
            let g = goes_on l allow_delay r no_error d in
            if_lem P (not force && leb r.mem_usage l.write_buffer_size)
              (λ m. inl (refl, refl, g, (ground arith, ground arith)))
              (λ m.
                let b = is_full l force r m in
                if_lem P r.has_imm (λ i. (g, b, inl i))
                  (λ i.
                    if_lem P (leb l.stop_trigger r.level0_files) (λ t. (g, b, inr (ground arith)))
                      (λ t.
                        switch_log-right l force allow_delay n c u r g b i
                          (leb-lt l.stop_trigger r.level0_files t))))))

-- What holds of a result of the loop.
abbrev pub Returned : Limits → Status × Room → Type 0
Returned l out =
    is_ok out.0 ≡ true → (out.1.bg_error ≡ Status.ok) × (out.1.mem_usage ≤ l.write_buffer_size)

breaks-Returned :
    (l : Limits) (force delay : Bool) (r : Room) (n s : Status) (r' : Room)
    → PassIsRight l force delay r n (breaks s r')
    → Returned l (s, r')
breaks-Returned l force delay r n s r' (inl (t, q, (b, d), (f, m))) h =
    subst (λ (x : Room). (x.bg_error ≡ Status.ok) × (x.mem_usage ≤ l.write_buffer_size)) (sym q)
      (b, m)
breaks-Returned l force delay r n s r' (inr (inl (t, q, e))) h = absurd (true≢false (sym h ∙ t))
breaks-Returned l force delay r n s r' (inr (inr (t, q, g, b, i, e))) h =
    absurd (true≢false (sym h ∙ t))

make_room-case :
    (l : Limits) (e : Event) (es : List Event) (force allow_delay : Bool) (r : Room) (p : Pass)
    → room_pass l force allow_delay e.new_status e.close_status e.empty_usage r ≡ p
    → ((force allow_delay : Bool) (r : Room) (out : Status × Room)
        → make_room_for_write l es force allow_delay r ≡ some out
        → Returned l out)
    → (out : Status × Room) → make_room_for_write l (e ∷ es) force allow_delay r ≡ some out
    → Returned l out
unfolding make_room_for_write
make_room-case l e es force d r (breaks s r') h ih out o =
    let q : (s, r') ≡ out = some-injective (s, r') out (rw (make_room_for_write, h) at o) in
    subst (Returned l) q (
      breaks-Returned l force d r e.new_status s r' (
        subst (PassIsRight l force d r e.new_status) h
          (room_pass-PassIsRight l force d e.new_status e.close_status e.empty_usage r)))
make_room-case l e es force d r sleeps h ih out o =
    ih force false (e.others r) out (rw (make_room_for_write, h) at o)
make_room-case l e es force d r waits h ih out o =
    ih force d (e.others r) out (rw (make_room_for_write, h) at o)
make_room-case l e es force d r (switches r') h ih out o =
    ih false d r' out (rw (make_room_for_write, h) at o)

-- MakeRoomForWrite returns success only with no background error and a memtable within
-- write_buffer_size, along any sequence of events and whatever the other threads do meanwhile.
pub make_room_for_write-ok :
    (l : Limits) (es : List Event) (force allow_delay : Bool) (r : Room) (out : Status × Room)
    → make_room_for_write l es force allow_delay r ≡ some out
    → is_ok out.0 ≡ true
    → (out.1.bg_error ≡ Status.ok) × (out.1.mem_usage ≤ l.write_buffer_size)
unfolding make_room_for_write
make_room_for_write-ok l [] force d r out o = absurd (grind (arith, o))
make_room_for_write-ok l (e ∷ es) force d r out o =
    make_room-case l e es force d r
      (room_pass l force d e.new_status e.close_status e.empty_usage r) refl
      (make_room_for_write-ok l es) out o
