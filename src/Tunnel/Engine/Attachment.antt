-- ===== src/Tunnel/Engine/Attachment.antt =====
-- An attempt's proxy on the engine: how it is attached, and what is left of it when it is detached.
use dobby_vpn.Common.{
  ℕ, Bool, true, false, Option, none, some, [], ◌≡◌, ◌⊎◌, inl, inr, arith, is_some, Option-cases,
  ◌==◌,
}
use dobby_vpn.Failure.{GoError}
use dobby_vpn.Tunnel.FlowOwner.{FlowOwner}
use dobby_vpn.Tunnel.FlowOwner.Laws.{wait_clean}
use dobby_vpn.Tunnel.Engine.{
  Engine, Proxy, Transport, Closing, attach_locked, attach, detach_locked, detach, drained,
  stop_engine,
}

-- A proxy has nothing left: no dial, no connection.
abbrev pub IsIdle : FlowOwner → Type 0
IsIdle o = (o.pending ≡ 0) × (o.connections ≡ [])

abbrev leads_home : Option ℕ → Option Proxy → Bool
leads_home none p = true
leads_home (some t) none = false
leads_home (some t) (some p) = p.id == t

abbrev pub HasIdle : Option Proxy → Type 0
HasIdle none = Unit {0}
HasIdle (some p) = IsIdle p.flows

-- The router leads nowhere, or to the proxy that the engine owns; a closed router leads nowhere.
pub record IsRouted (e : Engine) : Type 0 where
  pub home : leads_home e.router.target e.proxy ≡ true
  pub shut : e.router.closed ≡ true → e.router.target ≡ none

pub attach-IsRouted :
    (e : Engine) (id generation : ℕ) (t : Transport)
    → IsRouted e
    → IsRouted (attach e id generation t).0
unfolding attach attach_locked
attach-IsRouted e id generation t r = record { home = ground arith; shut = ground arith }

pub detach-IsRouted :
    (e : Engine) (generation : ℕ) (c : Closing) (r : Engine × Option GoError)
    → IsRouted e
    → detach e generation c ≡ some r
    → IsRouted r.0
unfolding detach detach_locked
detach-IsRouted e generation c r v h = record { home = ground arith; shut = ground arith }

pub stop_engine-IsRouted :
    (e : Engine) (c : Closing) (platform : Option GoError) (r : Engine × Option GoError)
    → IsRouted e
    → stop_engine e c platform ≡ some r
    → IsRouted r.0
unfolding stop_engine
stop_engine-IsRouted e c platform r v h = record { home = ground arith; shut = ground arith }

-- A Detach of the attached generation that succeeds leaves no proxy and a router that leads nowhere,
-- and the flows of the attempt, closed to every dial since the Detach began, had come to rest; a
-- Detach that fails leaves the proxy, and then no other attempt can be attached.
pub detach_lem :
    (e : Engine) (p : Proxy) (c : Closing) (e' : Engine) (x : Option GoError) (id generation : ℕ)
    (t : Transport)
    → IsRouted e
    → e.proxy ≡ some p
    → detach e e.attempt c ≡ some (e', x)
    → (e'.router.target ≡ none)
      × (((x ≡ none) × (e'.proxy ≡ none) × IsIdle (drained p c))
          ⊎ ((is_some x ≡ true)
              × (is_some e'.proxy ≡ true)
              × ((attach e' id generation t).0 ≡ e')
              × (is_some (attach e' id generation t).1 ≡ true)))
unfolding detach detach_locked attach
detach_lem e p c e' x id generation t v q h =
    (ground arith, ground (arith, (wait_clean (drained p c) c.expired).0))

-- A Stop that succeeds leaves a router that is closed for good, and the flows of the attempt at
-- rest; one that fails can be asked for again.
pub stop_engine_lem :
    (e : Engine) (c : Closing) (platform : Option GoError) (e' : Engine) (x : Option GoError)
    → IsRouted e
    → e.stopped ≡ false
    → stop_engine e c platform ≡ some (e', x)
    → (e'.router.closed ≡ true)
      × (e'.router.target ≡ none)
      × (((x ≡ none) × (platform ≡ none) × (e'.stopped ≡ true) × HasIdle e'.proxy)
          ⊎ ((is_some x ≡ true) × (e'.stopped ≡ false)))
unfolding stop_engine
stop_engine_lem e c platform e' x v s h = elim (Option-cases e.proxy) [
  | inl q ↦ (ground arith, ground arith, ground (arith, q))
  | inr (p, q) ↦
      (ground arith, ground arith, ground (arith, q, (wait_clean (drained p c) c.expired).0))
]
