-- ===== src/Runtime/Network.antt =====
-- core/sessionapi/runtime/lifecycle.go: PrepareNetwork, which acquires the network of a session, and
-- the Stop of its owner.
use dobby_vpn.Common.{
  ℕ, Bool, true, false, not, ◌||◌, ◌&&◌, List, [], ◌∷◌, ◌++◌, ◌∙◌, ap, sym, Option, none, some,
  String, ◌≡◌, ◌⊎◌, is_some, if◌then◌else◌, ◌==◌, arith,
}
use dobby_vpn.Failure.{GoError, join, foreign, formatted}
use dobby_vpn.Runtime.Lease.{Lease, new_lease, watch, push, stop, order, stop-order}
use dobby_vpn.Runtime.Start.{Runtime}
use dobby_vpn.Runtime.Ownership.{stop-Ends}

-- The undo functions of a network.
abbrev pub tunnel_release : ℕ
tunnel_release = 3

abbrev pub core_disconnect : ℕ
core_disconnect = 4

-- What happens in a PrepareNetwork. `tunnel` is what Acquire returns, where there is a provider,
-- with what ConfigureResolver answers, where it is one; `connect` is what Connect answers, `expired`
-- ctx.Err() where the context ends first, and `disconnect` what Disconnect answers then, if the core
-- cannot be canceled.
pub record Setup : Type 0 where
  pub session_id : String
  pub bypass : Bool × Option GoError
  pub mobile : Bool
  pub tunnel : Option ((Bool × Option GoError) × Option (Option GoError))
  pub core : Bool
  pub connect : Option GoError
  pub expired : Option GoError
  pub cancelable : Bool
  pub disconnect : Option GoError
  pub late_context : Option GoError

-- connectContext.
unfoldable pub connect_context : Setup → Option GoError
connect_context u = elim u.expired [
  | none ↦ u.connect
  | some e ↦
      if u.cancelable
      then join (some e) (some (foreign "native session connect cancellation pending"))
      else join (some e) (join u.disconnect u.connect)
]

abbrev missing_tunnel : Bool → Option GoError
missing_tunnel true = none
missing_tunnel false = some (foreign "platform returned no network interface")

abbrev resolver_error : Option (Option GoError) → Option GoError
resolver_error none = some (foreign "platform underlying resolver is unavailable")
resolver_error (some e) = e

abbrev first_error : Option GoError → Option GoError → Option GoError
first_error none b = b
first_error (some a) b = some a

-- acquireNetworkTunnel: the lease with the tunnel, where there is one, and the error.
unfoldable pub acquire_network_tunnel : Setup → Lease → Lease × Option GoError
acquire_network_tunnel u l = elim u.tunnel [
  | none ↦ (l, some (foreign "mobile network requires a TunnelProvider"))
  | some (t, r) ↦ (
    if t.0 then push l tunnel_release else l,
    first_error t.1 (first_error (missing_tunnel t.0) (resolver_error r)),
  )
]

-- From the core on.
unfoldable pub start_core : Setup → Lease → Lease × Option GoError
start_core u l =
    if not u.core
    then (l, some (foreign "network core is unavailable"))
    else (push l core_disconnect, first_error (connect_context u) u.late_context)

abbrev pub after_tunnel : Setup → Lease × Option GoError → Lease × Option GoError
after_tunnel u (l, some e) = (l, some e)
after_tunnel u (l, none) = start_core u l

abbrev acquired : Setup → Lease → Lease × Option GoError
acquired u l = after_tunnel u (if u.mobile then acquire_network_tunnel u l else (l, none))

-- What happens to the lease of the owner.
unfoldable pub acquire_network : Setup → Lease → Lease × Option GoError
acquire_network u l = elim u.bypass.1 [
  | some e ↦ (l, some (formatted "resolve network bypass" e))
  | none ↦
      if not u.bypass.0 then (l, some (foreign "network bypass is unavailable")) else acquired u l
]

-- PrepareNetwork: the runtime, the lease of the network owner that it returns, and the error.
unfoldable pub prepare_network : Runtime → Setup → Runtime × Option Lease × Option GoError
prepare_network r u =
    if is_some r.network || r.active
    then (r, none, some (foreign "previous network is still owned"))
    else (let a = acquire_network u (watch new_lease) in
        (record r { network = some u.session_id }, some a.0, a.1))

-- The owner's Stop, whose onDone forgets the network.
unfoldable pub stop_network :
    Runtime → (ℕ → Option GoError) → Option GoError → Lease → Runtime × Lease × Option GoError
stop_network r close late l =
    let s = stop close late l in
    (if s.1.done == l.done then r else record r { network = none }, s.1, s.0)

-- What a PrepareNetwork acquires, by what happens in it: a bypass policy, the tunnel, and a tunnel with
-- a resolver, without an error.
abbrev has_bypass : Setup → Bool
has_bypass u = u.bypass.0 && not (is_some u.bypass.1)

abbrev has_tunnel : Setup → Bool
has_tunnel u = elim u.tunnel [ none ↦ false | some (t, r) ↦ t.0 ]

abbrev is_configured : Option (Option GoError) → Bool
is_configured none = false
is_configured (some e) = not (is_some e)

abbrev has_resolver : Setup → Bool
has_resolver u = elim u.tunnel [
  | none ↦ false
  | some (t, r) ↦ t.0 && not (is_some t.1) && is_configured r
]

-- The undo functions of what is acquired, the newest first: the core that is to connect, and the
-- tunnel.
abbrev pub acquisitions : Setup → List ℕ
acquisitions u =
    (if has_bypass u && u.core && (not u.mobile || has_resolver u)
      then core_disconnect ∷ []
      else [])
    ++ (if has_bypass u && u.mobile && has_tunnel u then tunnel_release ∷ [] else [])

-- What a lease needs to give the network back.
abbrev IsHeld : Setup → Lease → Type 0
IsHeld u l = (l.stopped ≡ false) × (l.watched ≡ true) × (order l ≡ acquisitions u)

acquire_network-IsHeld : (u : Setup) → IsHeld u (acquire_network u (watch new_lease)).0
unfolding acquire_network acquire_network_tunnel start_core push
acquire_network-IsHeld u = (ground arith, ground arith, ground arith)

-- A network that PrepareNetwork has begun to acquire, and whose acquisition may have failed, belongs
-- to the lease that is returned: until a Stop of it succeeds no other network and no second attempt
-- at it is accepted. What has been given back, in its order, and what the lease still has, are what
-- was acquired: the core, if it was told to connect, before the tunnel, if there was one. After a Stop
-- that succeeds all of it has been given back, and the runtime is as before.
pub prepare_network-owned :
    (r : Runtime) (u v : Setup) (close : ℕ → Option GoError) (late : Option GoError) (l : Lease)
    → r.network ≡ none
    → r.active ≡ false
    → (prepare_network r u).1 ≡ some l
    → let r' = (prepare_network r u).0 in
      let s = stop_network r' close late l in
      ((prepare_network r' v).0 ≡ r')
      × (is_some (prepare_network r' v).2 ≡ true)
      × (order s.1 ≡ acquisitions u)
      × (((s.2 ≡ none) × (s.1.undo ≡ []) × (s.0 ≡ r))
          ⊎ ((is_some s.2 ≡ true) × (s.1.stopped ≡ false) × (s.0 ≡ r')))
unfolding prepare_network stop_network
prepare_network-owned r u v close late l n a e =
    let h = acquire_network-IsHeld u in
    let k : (acquire_network u (watch new_lease)).0 ≡ l = ground (arith, n, a, e) in
    (
      ground (arith, h),
      ground (arith, h),
      stop-order close late l ∙ ap order (sym k) ∙ h.2,
      ground (arith, h, stop-Ends close late (acquire_network u (watch new_lease)).0 h.0),
    )
