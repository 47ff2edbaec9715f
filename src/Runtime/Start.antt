-- ===== src/Runtime/Start.antt =====
-- core/sessionapi/runtime/lifecycle.go: Start, which opens the protocol of an attempt on the
-- network that is there, and takes everything back where it fails.
use dobby_vpn.Common.{
  ℕ, Bool, true, false, not, Option, none, some, String, is_some, if◌then◌else◌, ◌==◌,
}
use text.Mathlib.Text.{◌==◌ as str_eq}
use dobby_vpn.Failure.{GoError, join, foreign, formatted, cleanup_failure, is_cleanup_failure}
use dobby_vpn.Runtime.Lease.{Lease, new_lease, watch, push, stop}
use dobby_vpn.Runtime.Readiness.{Probes, wait_for_readiness}

-- The undo functions of an attempt.
abbrev pub scope_close : ℕ
scope_close = 0

abbrev pub device_close : ℕ
device_close = 1

abbrev pub core_detach : ℕ
core_detach = 2

-- The runtime: whether a lease is active, and the session of its network owner, if there is one.
pub record Runtime : Type 0 where
  pub active : Bool
  pub network : Option String

-- What a device answers: WithNumericIPs on its upstreams (nil where it names none), its SOCKS
-- endpoint, and Open.
pub record Device : Type 0 where
  pub upstreams : Option GoError
  pub endpoint : String
  pub opened : Option GoError

-- What happens in a Start. `context` is ctx.Err() at the call and `late_context` once the device is
-- open; `policy` and `device` are what the resolver and the factory return.
pub record Attempt : Type 0 where
  pub session_id : String
  pub config_empty : Bool
  pub context : Option GoError
  pub policy : Bool × Option GoError
  pub device : Option Device × Option GoError
  pub late_context : Option GoError
  pub probes : Probes
  pub attempts : ℕ
  pub attached : Option GoError
  pub close : ℕ → Option GoError

-- The lease, whether it is handed to the caller, and the error.
pub record Started : Type 0 where
  pub lease : Lease
  pub handed : Bool
  pub error : Option GoError

-- markCleanupFailure.
abbrev pub mark_cleanup_failure : Option GoError → Option GoError
mark_cleanup_failure none = none
mark_cleanup_failure (some e) = some (cleanup_failure e)

-- The closure `fail`: the lease is stopped, and handed over where that fails.
unfoldable pub fail : (ℕ → Option GoError) → Lease → GoError → Started
fail close owned cause =
    let r = stop close none owned in
    record {
      lease = r.1;
      handed = is_some r.0;
      error = join (some cause) (mark_cleanup_failure r.0);
    }

abbrev pub refused : GoError → Started
refused e = record { lease = new_lease; handed = false; error = some e }

-- From the device on; the lease has the scope and the device.
unfoldable pub open_device : Attempt → Lease → Device → Started
open_device a owned d = elim d.upstreams [
  | some e ↦ fail a.close owned (formatted "extend bypass policy with numeric protocol upstreams" e)
  | none ↦
      if str_eq d.endpoint ""
      then fail a.close owned (foreign "protocol device returned an empty SOCKS endpoint")
      else elim d.opened [
        | some e ↦ fail a.close owned (formatted "open protocol" e)
        | none ↦ elim a.late_context [
          | some e ↦ fail a.close owned e
          | none ↦ record { lease = owned; handed = true; error = none }
        ]
      ]
]

abbrev pub with_device : Option Device → Lease → Lease
with_device none l = l
with_device (some d) l = push l device_close

abbrev pub device_answer : Attempt → Lease → Option Device → Option GoError → Started
device_answer a owned d (some e) = fail a.close owned (formatted "create protocol device" e)
device_answer a owned none none = fail a.close owned (foreign "protocol device unavailable")
device_answer a owned (some d) none = open_device a owned d

-- startLocked.
unfoldable pub start_locked : Attempt → Started
start_locked a =
    if a.config_empty
    then refused (foreign "runtime profile has no normalized config")
    else elim a.context [
      | some e ↦ refused e
      | none ↦ elim a.policy.1 [
        | some e ↦ fail a.close new_lease (formatted "resolve bypass policy" e)
        | none ↦
            if not a.policy.0
            then fail a.close new_lease (foreign "bypass policy unavailable")
            else device_answer a (with_device a.device.0 (push new_lease scope_close)) a.device.0
                a.device.1
      ]
    ]

-- A Start that has failed: where its lease could not be stopped it goes to the caller with the
-- runtime still active, and stopping it will end that.
unfoldable pub roll_back : (ℕ → Option GoError) → Runtime → Lease → GoError → Runtime × Started
roll_back close r l cause =
    let s = stop close none l in
    elim s.0 [
      | none ↦
          (record r { active = false }, record { lease = s.1; handed = false; error = some cause })
      | some e ↦ (
        r,
        record {
          lease = watch s.1;
          handed = true;
          error = join (some cause) (some (cleanup_failure e));
        },
      )
    ]

-- Start once its lease is open: the readiness of the tunnel, and the attachment to the core.
unfoldable pub admit : Attempt → Runtime → Lease → Runtime × Started
admit a r l = elim (wait_for_readiness a.probes a.attempts) [
  | some e ↦ roll_back a.close r l (formatted "wait for initial tunnel readiness" e)
  | none ↦ elim a.attached [
    | some e ↦ roll_back a.close r l e
    | none ↦ (
      r,
      record {
        lease = record (watch (push l core_detach)) { monitored = true };
        handed = true;
        error = none;
      },
    )
  ]
]

abbrev pub same_session : Option String → String → Bool
same_session none id = false
same_session (some s) id = str_eq s id

-- What Start does with the answer of startLocked.
abbrev pub settled : Attempt → Runtime → Started → Option GoError → Runtime × Started
settled a r s none = admit a r s.lease
settled a r s (some e) =
    if s.handed
    then (r, record s { lease = watch s.lease })
    else (record r { active = is_cleanup_failure e }, s)

unfoldable pub start : Runtime → Attempt → Runtime × Started
start r a = elim a.context [
  | some e ↦ (r, refused e)
  | none ↦
      if r.active
      then (r, refused (foreign "another runtime lease is active"))
      else if not (same_session r.network a.session_id)
      then (r, refused (foreign "VPN network must be acquired before a protocol attempt"))
      else (let s = start_locked a in settled a (record r { active = true }) s s.error)
]

-- The Stop of a lease that the runtime has handed out, with releaseActive.
unfoldable pub stop_lease :
    Runtime → (ℕ → Option GoError) → Option GoError → Lease → Runtime × Lease × Option GoError
stop_lease r close late l =
    let s = stop close late l in
    (if s.1.done == l.done then r else record r { active = false }, s.1, s.0)
