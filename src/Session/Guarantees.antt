-- ===== src/Session/Guarantees.antt =====
-- What the invariant means to those who use the manager.
use dobby_vpn.Common.{
  ℕ, ◌+◌, ◌<◌, Bool, true, false, List, [], ◌∷◌, Option, none, ◌≡◌, ◌⊎◌, String, arith, ◌≢◌, u64,
  u64_mod, some,
}
use dobby_vpn.Failure.{Result, is_ok, GoError}
use dobby_vpn.Session.Types.{Session, Worker, State, StartTarget}
use dobby_vpn.Session.Guards.{
  is_auto_select, attempt_active, can_retry, configuration_blocked, can_switch,
}
use dobby_vpn.Session.Control.{
  start_request, start, retry_locked, replace_locked, fresh_start, fresh_session, retry_session,
  replace_session, admit_start,
}
use dobby_vpn.Session.Stop.{
  stop, stop_requested_session, request_stop, stop_dormant, stop_running, acknowledge_stopped,
}
use dobby_vpn.Session.Invariant.Defs.{SessionInv, Inv, owns}
use dobby_vpn.Session.Invariant.Owners.{owners-nil}

-- After a failed cleanup no Start is accepted, whatever it asks for: the session stays as it is.
pub start_after_failed_cleanup :
    (s : Session) (id : String) (expected : ℕ) (target : StartTarget) (supplied : Bool)
    (activation : Option GoError)
    → s.cleanup_failed ≡ true
    → ((start s id expected target supplied activation).0 ≡ s)
      × ((start s id expected target supplied activation).2 ≡ [])
      × (is_ok (start s id expected target supplied activation).1 ≡ false)
unfolding start admit_start replace_locked can_retry can_switch configuration_blocked
start_after_failed_cleanup s id expected target supplied activation h =
    (ground arith, ground arith, ground arith)

-- A Start that names another revision than the session's is refused and changes nothing.
pub start_stale :
    (s : Session) (id : String) (expected : ℕ) (target : StartTarget) (supplied : Bool)
    (activation : Option GoError)
    → s.sequence ≢ expected
    → ((start s id expected target supplied activation).0 ≡ s)
      × (is_ok (start s id expected target supplied activation).1 ≡ false)
unfolding start
start_stale s id expected target supplied activation h = (ground arith, ground arith)

-- So of two Starts that name one revision at most one is accepted.
start_moves :
    (s : Session) (id : String) (expected : ℕ) (target : StartTarget) (supplied : Bool)
    (activation : Option GoError)
    → is_ok (start s id expected target supplied activation).1 ≡ true
    → (s.sequence ≡ expected)
      × ((start s id expected target supplied activation).0.sequence ≡ u64 (s.sequence + 1))
unfolding start admit_start replace_locked retry_locked retry_session fresh_start fresh_session
    replace_session
start_moves s id expected target supplied activation h = (ground arith, ground arith)

-- Of two Starts that name the same revision, one right after the other, the second is refused and
-- changes nothing once the first is accepted, the revision being a 64-bit number.
pub start_once :
    (s : Session) (id id' : String) (expected : ℕ) (target target' : StartTarget)
    (supplied supplied' : Bool) (activation activation' : Option GoError)
    → s.sequence < u64_mod
    → is_ok (start s id expected target supplied activation).1 ≡ true
    → let t = (start s id expected target supplied activation).0 in
      ((start t id' expected target' supplied' activation').0 ≡ t)
      × (is_ok (start t id' expected target' supplied' activation').1 ≡ false)
start_once s id id' expected target target' supplied supplied' activation activation' b h =
    let m = start_moves s id expected target supplied activation h in
    start_stale _ id' expected target' supplied' activation' (λ e. omega (arith, m.0, m.1, e))

-- How a Start comes to begin an attempt.
abbrev Ways : Session → Type 0
Ways s = (can_retry s ≡ true) ⊎ (configuration_blocked s ≡ false)

start_spawns :
    (s : Session) (id : String) (expected : ℕ) (target : StartTarget) (supplied : Bool)
    (activation : Option GoError) (k : Worker) (ks : List Worker)
    → (start s id expected target supplied activation).2 ≡ k ∷ ks
    → Ways s × (ks ≡ [])
unfolding start admit_start replace_locked retry_locked fresh_start
start_spawns s id expected target supplied activation k ks h = (ground arith, ground arith)

Ways-quiet : (s : Session) → SessionInv s → Ways s → attempt_active s.state ≡ false
unfolding can_retry configuration_blocked
Ways-quiet s v w = ground arith

Ways-clean : (s : Session) → SessionInv s → Ways s → s.cleanup_failed ≡ false
unfolding can_retry configuration_blocked
Ways-clean s v w = ground arith

Ways-unowned : (s : Session) → SessionInv s → Ways s → s.ledger ≡ none
unfolding can_retry configuration_blocked
Ways-unowned s v w = ground arith

Ways-network :
    (s : Session) → SessionInv s → Ways s → (s.network_ledger ≡ none) ⊎ (can_retry s ≡ true)
unfolding configuration_blocked
Ways-network s v w = ground arith

-- In a session that satisfies the invariant with its goroutines, a Start begins an attempt, which
-- is one goroutine, only where nothing of an earlier one is left: no goroutine, no failed cleanup,
-- no attempt ledger, and no network but the one that a retry keeps.
pub start_exclusive :
    (s : Session) (ws : List Worker) (id : String) (expected : ℕ) (target : StartTarget)
    (supplied : Bool) (activation : Option GoError) (k : Worker) (ks : List Worker)
    → Inv s ws
    → (start s id expected target supplied activation).2 ≡ k ∷ ks
    → (ws ≡ [])
      × (ks ≡ [])
      × (s.cleanup_failed ≡ false)
      × (s.ledger ≡ none)
      × ((s.network_ledger ≡ none) ⊎ (can_retry s ≡ true))
start_exclusive s ws id expected target supplied activation k ks v h =
    let (way, last) = start_spawns s id expected target supplied activation k ks h in
    let quiet : attempt_active s.state ≡ false = Ways-quiet s v.session_ok way in
    (
      owners-nil (owns s) (attempt_active s.state) ws quiet v.owned,
      last,
      Ways-clean s v.session_ok way,
      Ways-unowned s v.session_ok way,
      Ways-network s v.session_ok way,
    )

-- In a session that satisfies the invariant, a Stop that is accepted, and whose intent was saved,
-- is recorded, drops a pending switch, and leaves the session either stopping or at rest with
-- every resource released.
pub stop_progress :
    (s : Session) (ws : List Worker) (id : String) (generation : ℕ)
    → Inv s ws
    → is_ok (stop s id generation none).1 ≡ true
    → let t = (stop s id generation none).0 in
      (t.stop_requested ≡ true)
      × (t.pending ≡ none)
      × ((t.state ≡ State.stopping)
          ⊎ ((t.cleanup_done ≡ true)
              × (t.vpn_active ≡ false)
              × (t.network_ledger ≡ none)
              × (t.ledger ≡ none)))
unfolding stop stop_requested_session request_stop stop_dormant acknowledge_stopped stop_running
stop_progress s ws id generation v h = (ground arith, ground arith, ground (arith, v.session_ok))

-- A Start whose source was not accepted, or which names a source with another mode than
-- AUTO_SELECT, is refused, starts no goroutine, and leaves the session as it was or as the
-- Configure of its source has left it.
pub start_request_unaccepted :
    (s t : Session) (id : String) (expected : ℕ) (target : StartTarget)
    (context activation : Option GoError) (configured : Result ℕ)
    → (is_ok configured ≡ false) ⊎ (is_auto_select target.mode ≡ false)
    → let r = start_request s id expected target context (some (t, configured)) activation in
      (is_ok r.1 ≡ false) × (r.2 ≡ []) × ((r.0 ≡ s) ⊎ (r.0 ≡ t))
unfolding start_request
start_request_unaccepted s t id expected target context activation configured h =
    (ground arith, ground arith, ground arith)
