-- ===== src/Runtime/Ownership.antt =====
-- Who owns what an attempt has acquired, once Start has answered.
use dobby_vpn.Common.{
  ℕ, ◌+◌, Bool, true, false, List, [], ◌∷◌, Option, none, some, ◌≡◌, ◌⊎◌, refl, arith, is_some,
  if◌then◌else◌,
}
use dobby_vpn.Failure.{GoError, is_cleanup_failure}
use dobby_vpn.Runtime.Lease.{Lease, new_lease, push, order, stop, undo_loop, undo_one}
use dobby_vpn.Runtime.Start.{
  Runtime, Attempt, Started, Device, start, start_locked, admit, roll_back, fail, open_device,
  device_answer, with_device, settled, stop_lease, scope_close,
}
use dobby_vpn.Runtime.Acquisition.{acquisitions, start-order}

abbrev pub is_failure : Option GoError → Bool
is_failure none = false
is_failure (some e) = is_cleanup_failure e

-- How a Stop of a running lease ends: everything is undone and onDone called, or the lease is
-- still running.
abbrev pub Ends : Lease → Option GoError × Lease → Type 0
Ends l r =
    ((r.0 ≡ none)
      × (r.1.undo ≡ [])
      × (r.1.stopped ≡ true)
      × (r.1.done ≡ (if l.watched then l.done + 1 else l.done)))
    ⊎ ((is_some r.0 ≡ true)
        × (r.1.stopped ≡ false)
        × (r.1.done ≡ l.done)
        × (r.1.watched ≡ l.watched))

undo_loop-Ends :
    (close : ℕ → Option GoError) (l : Lease) (todo : List ℕ)
    → l.stopped ≡ false
    → Ends l (undo_loop close l todo)
unfolding undo_loop
undo_loop-Ends close l [] h = ground arith
undo_loop-Ends close l (f ∷ rest) h = ground (arith, undo_loop-Ends close (undo_one l f rest) rest)

pub stop-Ends :
    (close : ℕ → Option GoError) (late : Option GoError) (l : Lease)
    → l.stopped ≡ false
    → Ends l (stop close late l)
unfolding stop
stop-Ends close late l h =
    ground (arith, undo_loop-Ends close (record l { canceled = l.monitored }) l.undo)

-- What a Start has left: a running lease with its caller, which the runtime waits for, or nothing
-- but an error.
abbrev pub IsAccounted : Runtime × Started → Type 0
IsAccounted s =
    ((s.1.handed ≡ true)
      × (s.0.active ≡ true)
      × (s.1.lease.stopped ≡ false)
      × (s.1.lease.watched ≡ true))
    ⊎ ((s.1.handed ≡ false)
        × (is_some s.1.error ≡ true)
        × (s.1.lease.undo ≡ [])
        × ((s.0.active ≡ false) ⊎ (is_failure s.1.error ≡ true)))

-- What startLocked has left, in the same way.
abbrev IsOpened : Started → Type 0
IsOpened s =
    ((s.handed ≡ true) × (s.lease.stopped ≡ false))
    ⊎ ((s.handed ≡ false) × (is_some s.error ≡ true) × (s.lease.undo ≡ []))

open_device-IsOpened :
    (a : Attempt) (l : Lease) (d : Device) → l.stopped ≡ false → IsOpened (open_device a l d)
unfolding open_device fail
open_device-IsOpened a l d h = ground (arith, stop-Ends a.close none l)

device_answer-IsOpened :
    (a : Attempt) (l : Lease) (d : Option Device) (e : Option GoError)
    → l.stopped ≡ false
    → IsOpened (device_answer a l d e)
unfolding fail
device_answer-IsOpened a l d (some e) h = ground (arith, stop-Ends a.close none l)
device_answer-IsOpened a l none none h = ground (arith, stop-Ends a.close none l)
device_answer-IsOpened a l (some d) none h = open_device-IsOpened a l d h

with_device-running :
    (d : Option Device) (l : Lease) → l.stopped ≡ false → (with_device d l).stopped ≡ false
unfolding push
with_device-running none l h = h
with_device-running (some d) l h = h

start_locked-IsOpened : (a : Attempt) → IsOpened (start_locked a)
unfolding start_locked fail
start_locked-IsOpened a =
    let l = with_device a.device.0 (push new_lease scope_close) in
    ground (
      arith,
      stop-Ends a.close none new_lease,
      device_answer-IsOpened a l a.device.0 a.device.1
          (with_device-running a.device.0 (push new_lease scope_close) (unfold push in refl)),
    )

admit-IsAccounted :
    (a : Attempt) (r : Runtime) (l : Lease)
    → l.stopped ≡ false
    → r.active ≡ true
    → IsAccounted (admit a r l)
unfolding admit roll_back push
admit-IsAccounted a r l h v = ground (arith, stop-Ends a.close none l)

settled-IsAccounted :
    (a : Attempt) (r : Runtime) (s : Started) (e : Option GoError)
    → r.active ≡ true
    → s.error ≡ e
    → IsOpened s
    → IsAccounted (settled a r s e)
settled-IsAccounted a r s none v q o =
    let running : s.lease.stopped ≡ false = ground arith in admit-IsAccounted a r s.lease running v
settled-IsAccounted a r s (some e) v q o = ground arith

-- A Start that finds no active lease leaves nothing without an owner: it hands over a running lease,
-- for which the runtime stays active until that is stopped, or its lease has nothing left to undo and
-- it fails, and the runtime is free again unless the failure is one of cleanup. What has been undone,
-- in its order, and what the lease still has, are what was acquired: the attachment to the core, if
-- the device was open and its tunnel ready, the device, if there was one, and the socket scope, if
-- there was a policy.
pub start-IsAccounted :
    (r : Runtime) (a : Attempt)
    → r.active ≡ false
    → IsAccounted (start r a) × (order (start r a).1.lease ≡ acquisitions r a)
unfolding start
start-IsAccounted r a h = (
  ground (
    arith,
    settled-IsAccounted a (record r { active = true }) (start_locked a) (start_locked a).error refl
        refl (start_locked-IsOpened a),
  ),
  start-order r a h,
)

-- The Stop of a lease that Start has handed over: either it fails, the lease is still running and
-- the runtime waits for it, or the lease is empty and the runtime free.
pub stop_lease_lem :
    (r : Runtime) (close : ℕ → Option GoError) (late : Option GoError) (l : Lease)
    → l.stopped ≡ false
    → l.watched ≡ true
    → let s = stop_lease r close late l in
      ((s.2 ≡ none) × (s.1.undo ≡ []) × (s.0.active ≡ false))
      ⊎ ((is_some s.2 ≡ true) × (s.1.stopped ≡ false) × (s.0 ≡ r))
unfolding stop_lease
stop_lease_lem r close late l h w = ground (arith, stop-Ends close late l)
