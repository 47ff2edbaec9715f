-- ===== src/Tunnel/SwitchingProxy.antt =====
-- core/tunnel/switching_proxy.go: the proxy of the packet stack, whose target attempts replace.
use dobby_vpn.Common.{
  ℕ, ◌+◌, ◌≤◌, Bool, true, false, List, [], ◌∷◌, Option, none, some, ◌≡◌, ◌⊎◌, refl, arith,
  if◌then◌else◌, inl,
}
use dobby_vpn.Failure.{GoError}
use dobby_vpn.Tunnel.FlowOwner.{closed_error}

-- A target is its number. `changed` counts the channels that have been closed: a waiter holds the
-- count that it saw, and is woken once it has moved.
pub record SwitchingProxy : Type 0 where
  pub target : Option ℕ
  pub changed : ℕ
  pub closed : Bool

unfoldable pub new_switching_proxy : SwitchingProxy
new_switching_proxy = record { target = none; changed = 0; closed = false }

unfoldable pub set : SwitchingProxy → Option ℕ → SwitchingProxy
set p target = if p.closed then p else record p { target = target; changed = p.changed + 1 }

unfoldable pub close : SwitchingProxy → SwitchingProxy
close p = if p.closed then p else record p { closed = true; target = none; changed = p.changed + 1 }

-- What one turn of DialContext's loop comes to.
pub data Turn : Type 0 where
  fails : GoError → Turn
  dials waits : ℕ → Turn

abbrev pub target_turn : Option ℕ → ℕ → Turn
target_turn none n = waits n
target_turn (some t) n = dials t

abbrev pub open_turn : Option GoError → SwitchingProxy → Turn
open_turn (some e) p = fails e
open_turn none p = target_turn p.target p.changed

unfoldable pub dial_turn : SwitchingProxy → Option GoError → Turn
dial_turn p context = if p.closed then fails closed_error else open_turn context p

unfoldable pub dial_udp : SwitchingProxy → Turn
dial_udp p = elim p.target [ none ↦ fails closed_error | some t ↦ dials t ]

-- What the engine does to the proxy while a dial waits.
pub data Call : Type 0 where
  sets : Option ℕ → Call
  closes : Call

unfoldable pub step : SwitchingProxy → Call → SwitchingProxy
unfolding set close
step p (sets t) = set p t
step p closes = close p

unfoldable pub run : SwitchingProxy → List Call → SwitchingProxy
run p [] = p
run p (c ∷ cs) = run (step p c) cs

-- A closed proxy holds no target.
abbrev pub IsSettled : SwitchingProxy → Type 0
IsSettled p = (p.closed ≡ true) → (p.target ≡ none)

step_changed :
    (p : SwitchingProxy) (c : Call) → (step p c ≡ p) ⊎ ((step p c).changed ≡ p.changed + 1)
unfolding step
step_changed p (sets t) = ground arith
step_changed p closes = ground arith

run_changed :
    (p : SwitchingProxy) (cs : List Call) → (run p cs ≡ p) ⊎ (p.changed + 1 ≤ (run p cs).changed)
unfolding run
run_changed p [] = inl refl
run_changed p (c ∷ cs) = ground (arith, step_changed p c, run_changed (step p c) cs)

-- No wake-up is lost: whatever was set or closed while a dial waited, if the channel that it waits
-- on is still open then the proxy is as the dial saw it.
pub run_wakes :
    (p : SwitchingProxy) (cs : List Call) → (run p cs).changed ≡ p.changed → run p cs ≡ p
run_wakes p cs h = ground (arith, run_changed p cs)

close-closed :
    (p : SwitchingProxy) → IsSettled p → ((close p).closed ≡ true) × ((close p).target ≡ none)
unfolding close
close-closed p h = (ground arith, ground arith)

step_closed :
    (p : SwitchingProxy) (c : Call)
    → (p.closed ≡ true) × (p.target ≡ none)
    → ((step p c).closed ≡ true) × ((step p c).target ≡ none)
unfolding step
step_closed p (sets t) h = (ground arith, ground arith)
step_closed p closes h = (ground arith, ground arith)

closed_run :
    (p : SwitchingProxy) (cs : List Call) (context : Option GoError)
    → (p.closed ≡ true) × (p.target ≡ none)
    → ((run p cs).closed ≡ true)
      × ((run p cs).target ≡ none)
      × (dial_turn (run p cs) context ≡ fails closed_error)
      × (dial_udp (run p cs) ≡ fails closed_error)
unfolding run dial_turn dial_udp
closed_run p [] context h = (h.0, h.1, ground arith, ground arith)
closed_run p (c ∷ cs) context h = closed_run (step p c) cs context (step_closed p c h)

-- Once a proxy is closed, it never has a target again: whatever is called, TCP and UDP dials fail,
-- and none is left waiting. A proxy that was closed before holds no target.
pub run_closed :
    (p : SwitchingProxy) (cs : List Call) (context : Option GoError)
    → IsSettled p
    → let t = run (close p) cs in
      (t.closed ≡ true)
      × (t.target ≡ none)
      × (dial_turn t context ≡ fails closed_error)
      × (dial_udp t ≡ fails closed_error)
run_closed p cs context h = closed_run (close p) cs context (close-closed p h)
