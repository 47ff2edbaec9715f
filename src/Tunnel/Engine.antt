-- ===== src/Tunnel/Engine.antt =====
-- core/tunnel/tunnel.go: the process-global engine, its stable router, and the proxy of the attempt
-- that is attached to it.
pub mod Ownership
pub mod Attachment
use dobby_vpn.Common.{
  ℕ, ◌+◌, Bool, true, false, not, ◌&&◌, ◌||◌, List, [], ◌∷◌, Option, none, some, String, ◌==◌, ltb,
  is_some, if◌then◌else◌,
}
use dobby_vpn.Failure.{GoError, join, foreign}
use dobby_vpn.Tunnel.FlowOwner.{FlowOwner, new_owner, closed_error, seal_and_close, wait}
use dobby_vpn.Tunnel.FlowOwner
use dobby_vpn.Tunnel.SwitchingProxy.{SwitchingProxy, new_switching_proxy, set, close}

-- DobbyProxy, as far as the engine owns it; `id` is its identity as a target of the router.
pub record Proxy : Type 0 where
  pub id : ℕ
  pub flows : FlowOwner
  pub generation : ℕ

pub record Engine : Type 0 where
  pub stopped : Bool
  pub stop_error : Option GoError
  pub router : SwitchingProxy
  pub proxy : Option Proxy
  pub attempt : ℕ

-- The engines that were handed out, by their handle, and the variable activeEngine. A number below
-- `fresh` is taken, as a handle or as a proxy's identity.
pub record World : Type 0 where
  pub engines : ℕ → Engine
  pub handles : ℕ
  pub active : Option ℕ
  pub fresh : ℕ

-- What attachLocked needs: ctx.Err(), whether the cache and the policy are there, and what the
-- SOCKS client answers to the address.
pub record Transport : Type 0 where
  pub context : Option GoError
  pub resources : Bool
  pub endpoint : Option GoError

unfoldable pub attach_locked : Engine → ℕ → ℕ → Transport → Engine × Option GoError
unfolding set new_owner
attach_locked e id generation t = elim t.context [
  | some x ↦ (e, some x)
  | none ↦
      if not t.resources
      then (e, some (foreign "attempt resolver and bypass policy are required"))
      else elim t.endpoint [
        | some x ↦ (e, some x)
        | none ↦ (
          record e {
            proxy = some (record { id = id; flows = new_owner; generation = generation });
            attempt = generation;
            router = set e.router (some id);
          },
          none,
        )
      ]
]

unfoldable pub attach : Engine → ℕ → ℕ → Transport → Engine × Option GoError
attach e id generation t =
    if e.stopped
    then (e, some closed_error)
    else if is_some e.proxy
    then (e, some (foreign "previous attempt still owns flows"))
    else attach_locked e id generation t

-- What the connections answer to Close, what the flows see until the wait is over, and ctx.Err()
-- where the context ends first.
pub record Closing : Type 0 where
  pub answer : ℕ → Option GoError × Bool
  pub meanwhile : List FlowOwner.Call
  pub expired : Option GoError

-- The flows of a proxy that is sealed, when the wait for them is over.
abbrev pub drained : Proxy → Closing → FlowOwner
drained p c = FlowOwner.run (seal_and_close c.answer p.flows) c.meanwhile

abbrev detached : Engine → Option (Option GoError) → Option (Engine × Option GoError)
detached e none = none
detached e (some none) = some (record e { proxy = none }, none)
detached e (some (some x)) = some (e, some x)

-- detachLocked; none where the wait goes on.
unfoldable pub detach_locked : Engine → Closing → Option (Engine × Option GoError)
unfolding set
detach_locked e c =
    let fenced = record e { router = set e.router none } in
    elim e.proxy [
      | none ↦ some (fenced, none)
      | some p ↦
          detached (record fenced { proxy = some (record p { flows = drained p c }) })
            (wait (drained p c) c.expired)
    ]

unfoldable pub detach : Engine → ℕ → Closing → Option (Engine × Option GoError)
detach e generation c =
    if not (e.attempt == generation) || not (is_some e.proxy)
    then some (e, none)
    else detach_locked e c

-- The proxy's flows when Stop waits for them, and its answer.
abbrev closed_flows : Option Proxy → Closing → Option Proxy
closed_flows none c = none
closed_flows (some p) c = some (record p { flows = drained p c })

abbrev flow_error : Option Proxy → Closing → Option (Option GoError)
flow_error none c = some none
flow_error (some p) c = wait (drained p c) c.expired

abbrev settle : Engine → Option GoError → Engine × Option GoError
settle e x = (record e { stop_error = x; stopped = not (is_some x) }, x)

-- Stop of the active handle that is not stopped yet.
unfoldable pub stop_engine : Engine → Closing → Option GoError → Option (Engine × Option GoError)
unfolding close
stop_engine e c platform = elim (flow_error e.proxy c) [
  | none ↦ none
  | some x ↦ some (
      settle (record e { router = close e.router; proxy = closed_flows e.proxy c })
        (join platform x))
]

abbrev new_engine : Engine
new_engine = record {
  stopped = false;
  stop_error = none;
  router = new_switching_proxy;
  proxy = none;
  attempt = 0;
}

unfoldable pub put : World → ℕ → Engine → World
put w i e = record w { engines = λ j. if j == i then e else w.engines j }

-- The configuration of a start: whether the cache and the policy are there, the transport that a
-- proxy address asks for, and what StartPlatformEngine answers (whether it accepted, and its error).
pub record Config : Type 0 where
  pub cache : Bool
  pub bypass : Bool
  pub transport : Option Transport
  pub accepted : Bool
  pub started : Option GoError

abbrev first_attached : World → Config → Engine × Option GoError
first_attached w c = elim c.transport [
  | none ↦ (new_engine, none)
  | some t ↦ attach_locked new_engine w.fresh 0 t
]

-- The engine goes to the caller under a new handle.
abbrev hand_out : World → Engine → World
hand_out w e = record (put w w.handles e) {
  handles = w.handles + 1;
  active = some w.handles;
  fresh = w.fresh + 1;
}

-- StartOwnedEngine: the handle, if one is returned, and the error. An engine that is not accepted is
-- dropped, with the flows of its proxy, which nothing has used yet.
unfoldable pub start : World → Config → World × Option ℕ × Option GoError
unfolding attach_locked put
start w c =
    if is_some w.active
    then (w, none, some (foreign "tun2socks engine is busy"))
    else if not c.cache
    then (w, none, some (foreign "DNS cache is required for tunnel start"))
    else if not c.bypass
    then (w, none, some (foreign "bypass policy is required for tunnel start"))
    else (let (e, x) = first_attached w c in
        elim x [
          | some y ↦ (w, none, some y)
          | none ↦ elim c.started [
            | none ↦ (hand_out w e, some w.handles, none)
            | some y ↦
                if c.accepted then (hand_out w e, some w.handles, some y) else (w, none, some y)
          ]
        ])

abbrev is_active : Option ℕ → ℕ → Bool
is_active none i = false
is_active (some j) i = j == i

abbrev stopped_world : World → ℕ → Option (Engine × Option GoError) → World
stopped_world w i none = w
stopped_world w i (some (e, none)) = record (put w i e) { active = none }
stopped_world w i (some (e, some x)) = put w i e

-- Stop of a handle.
unfoldable pub stop : World → ℕ → Closing → Option GoError → World
unfolding stop_engine put
stop w i c platform =
    if (w.engines i).stopped || not (is_active w.active i)
    then w
    else stopped_world w i (stop_engine (w.engines i) c platform)
