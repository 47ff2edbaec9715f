-- ===== src/Runtime/Acquisition.antt =====
-- What a Start acquires, and that its lease has it.
use dobby_vpn.Common.{
  ℕ, Bool, true, false, not, ◌&&◌, List, [], ◌∷◌, ◌++◌, ◌∙◌, ap, Option, none, some, ◌≡◌, refl,
  arith, is_some, if◌then◌else◌,
}
use dobby_vpn.Failure.{GoError}
use dobby_vpn.Runtime.Lease.{Lease, new_lease, push, order, stop-order}
use text.Mathlib.Text.{◌==◌ as str_eq}
use dobby_vpn.Runtime.Readiness.{wait_for_readiness}
use dobby_vpn.Runtime.Start.{
  Runtime, Attempt, Device, start, start_locked, admit, roll_back, fail, open_device, device_answer,
  with_device, settled, scope_close, device_close, core_detach, same_session,
}

-- What a Start acquires, by what happens in it: a scope once there is a policy, a device, and the
-- attachment to the core once the device is open and its tunnel ready.
abbrev has_policy : Attempt → Bool
has_policy a =
    not a.config_empty && not (is_some a.context) && a.policy.0 && not (is_some a.policy.1)

abbrev is_open : Option Device → Bool
is_open none = false
is_open (some d) = not (is_some d.upstreams) && not (str_eq d.endpoint "") && not (is_some d.opened)

abbrev has_open_device : Attempt → Bool
has_open_device a =
    has_policy a && is_open a.device.0 && not (is_some a.device.1) && not (is_some a.late_context)

abbrev is_admitted : Attempt → Bool
is_admitted a = not (is_some (wait_for_readiness a.probes a.attempts)) && not (is_some a.attached)

-- The undo functions of what startLocked acquires, the newest first.
abbrev resources : Attempt → List ℕ
resources a =
    (if has_policy a && is_some a.device.0 then device_close ∷ [] else [])
    ++ (if has_policy a then scope_close ∷ [] else [])

abbrev pub acquisitions : Runtime → Attempt → List ℕ
acquisitions r a =
    if same_session r.network a.session_id
    then (if has_open_device a && is_admitted a then core_detach ∷ [] else []) ++ resources a
    else []

open_device-order :
    (a : Attempt) (l : Lease) (d : Device) → order (open_device a l d).lease ≡ order l
unfolding open_device fail
open_device-order a l d = ground (arith, stop-order a.close none l)

device_answer-order :
    (a : Attempt) (l : Lease) (d : Option Device) (e : Option GoError)
    → order (device_answer a l d e).lease ≡ order l
unfolding fail
device_answer-order a l d (some e) = stop-order a.close none l
device_answer-order a l none none = stop-order a.close none l
device_answer-order a l (some d) none = open_device-order a l d

device_answer-none :
    (a : Attempt) (l : Lease) (d : Option Device) (e : Option GoError)
    → (device_answer a l d e).error ≡ none
    → ((device_answer a l d e).lease ≡ l)
      × ((is_open d && not (is_some e) && not (is_some a.late_context)) ≡ true)
unfolding fail open_device
device_answer-none a l d (some e) h = absurd (ground (arith, h))
device_answer-none a l none none h = absurd (ground (arith, h))
device_answer-none a l (some d) none h = (ground (arith, h), ground (arith, h))

with_device-order :
    (d : Option Device)
    → (order (with_device d (push new_lease scope_close))
        ≡ (if is_some d then device_close ∷ [] else []) ++ (scope_close ∷ []))
      × ((with_device d (push new_lease scope_close)).undone ≡ [])
unfolding push
with_device-order none = (refl, refl)
with_device-order (some d) = (refl, refl)

-- What startLocked acquires is in its lease, whether undone or not.
start_locked-order : (a : Attempt) → order (start_locked a).lease ≡ resources a
unfolding start_locked fail
start_locked-order a =
    let l = with_device a.device.0 (push new_lease scope_close) in
    ground (
      arith,
      stop-order a.close none new_lease,
      device_answer-order a l a.device.0 a.device.1 ∙ (with_device-order a.device.0).0,
    )

-- Without an error, nothing of it is undone.
start_locked-none :
    (a : Attempt)
    → (start_locked a).error ≡ none
    → ((start_locked a).lease.undone ≡ []) × (has_open_device a ≡ true)
unfolding start_locked fail
start_locked-none a h =
    let l = with_device a.device.0 (push new_lease scope_close) in
    let w = (with_device-order a.device.0).1 in
    let n = device_answer-none a l a.device.0 a.device.1 in
    (ground (arith, h, n, w), ground (arith, h, n))

start_locked-some :
    (a : Attempt) (e : GoError) → (start_locked a).error ≡ some e → has_open_device a ≡ false
unfolding start_locked open_device
start_locked-some a e h = ground (arith, h)

admit-order :
    (a : Attempt) (r : Runtime) (l : Lease)
    → l.undone ≡ []
    → order (admit a r l).1.lease ≡ (if is_admitted a then core_detach ∷ [] else []) ++ order l
unfolding admit roll_back push
admit-order a r l h = ground (arith, h, stop-order a.close none l)

settled-order :
    (a : Attempt) (r : Runtime) (e : Option GoError)
    → (start_locked a).error ≡ e
    → order (settled a r (start_locked a) e).1.lease
      ≡ (if has_open_device a && is_admitted a then core_detach ∷ [] else []) ++ resources a
settled-order a r none q =
    let n = start_locked-none a q in
    admit-order a r (start_locked a).lease n.0
    ∙ rw n.1
        (ap (λ l. (if is_admitted a then core_detach ∷ [] else []) ++ l) (start_locked-order a))
settled-order a r (some e) q = ground (arith, start_locked-some a e q, start_locked-order a)

pub start-order :
    (r : Runtime) (a : Attempt) → r.active ≡ false → order (start r a).1.lease ≡ acquisitions r a
unfolding start
start-order r a h =
    ground (arith, h, settled-order a (record r { active = true }) (start_locked a).error refl)
