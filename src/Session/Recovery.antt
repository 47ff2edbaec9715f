-- ===== src/Session/Recovery.antt =====
-- Health recovery and socket protection: what a late or repeated callback can and cannot do.
use dobby_vpn.Common.{
  ℕ, ◌+◌, ◌<◌, ◌≤◌, Bool, true, false, Option, none, some, ◌≡◌, ◌⊎◌, String, ℤ, pos, negsuc, arith,
  ◌≢◌, List, is_some, refl,
}
use dobby_vpn.Failure.{FailureCode, GoError, Result, ok, err, is_ok}
use dobby_vpn.Session.Types.{Session, Worker, State}
use dobby_vpn.Session.Stop.{stop, check_protection, ask_platform}
use dobby_vpn.Session.Invariant.Defs.{Inv}
use dobby_vpn.Session.Guarantees.{stop_progress}
use dobby_vpn.Session.Health.{report_health_failure, is_stable}
use dobby_vpn.Session.Attempt.{auto_recovery_limit}

-- A health failure of another generation, or of a session that is not connected, changes nothing.
pub report_stale :
    (s : Session) (generation : ℕ) (cause : GoError) (now : ℕ)
    → (generation ≢ s.generation) ⊎ (s.state ≢ State.connected)
    → report_health_failure s generation cause now ≡ s
unfolding report_health_failure
report_stale s generation cause now h = ground arith

-- A health failure of the connected generation, with at most three restarts counted and a
-- connection that has not become stable, stops it, and either counts one more restart, which keeps
-- an origin generation for Stop, or, once the three are used up, records the failure that the
-- session will show.
pub report_bounded :
    (s : Session) (cause : GoError) (now : ℕ)
    → 0 < s.generation
    → s.state ≡ State.connected
    → s.recovery_count ≤ auto_recovery_limit
    → is_stable s now ≡ false
    → let t = report_health_failure s s.generation cause now in
      (t.state ≡ State.stopping)
      × (t.last_failure ≡ some FailureCode.runtime)
      × (((s.recovery_count < auto_recovery_limit)
            × (t.restart_after_cleanup ≡ true)
            × (t.recovering ≡ true)
            × (t.recovery_count ≡ s.recovery_count + 1)
            × (0 < t.recovery_origin_generation))
          ⊎ ((s.recovery_count ≡ auto_recovery_limit)
              × (t.restart_after_cleanup ≡ s.restart_after_cleanup)
              × (t.recovering ≡ false)
              × (t.failure_after_cleanup ≡ some FailureCode.runtime)))
unfolding report_health_failure
report_bounded s cause now g c n u = (ground arith, ground arith, ground arith)

-- A connection that has lasted five minutes renews the budget: a health failure of its generation,
-- which is not 0, counts as the first again.
pub report_renewed :
    (s : Session) (cause : GoError) (now : ℕ)
    → 0 < s.generation
    → s.state ≡ State.connected
    → is_stable s now ≡ true
    → let t = report_health_failure s s.generation cause now in
      (t.restart_after_cleanup ≡ true)
      × (t.recovery_count ≡ 1)
      × (t.recovery_origin_generation ≡ s.generation)
unfolding report_health_failure
report_renewed s cause now g c u = (ground arith, ground arith, ground arith)

checked :
    (s : Session) (id : String) (generation : ℕ) (fd : ℤ)
    → s.stop_requested ≡ true
    → is_ok (check_protection s id generation fd) ≡ false
unfolding check_protection
checked s id generation (pos fd) h = ground (arith, h)
checked s id generation (negsuc fd) h = refl

not_asked :
    (platform : String → ℕ → ℤ → Option GoError) (loopback : Bool) (fd : ℤ)
    (r : Result (String × ℕ))
    → is_ok r ≡ false
    → ((ask_platform platform loopback fd r).0 ≡ none)
      × (is_some (ask_platform platform loopback fd r).1 ≡ true)
unfolding ask_platform
not_asked platform loopback fd (err e) h = (refl, refl)
not_asked platform loopback fd (ok n) h = absurd (ground (arith, h))

-- In a session that satisfies the invariant, once a Stop is accepted and its intent saved, every
-- request to protect a socket that comes then is refused, for any generation and descriptor, and
-- loopback ones too, and the platform is not asked.
pub ask_platform-stop :
    (s : Session) (ws : List Worker) (id other : String) (generation of_socket : ℕ) (fd : ℤ)
    (loopback : Bool) (platform : String → ℕ → ℤ → Option GoError)
    → Inv s ws
    → is_ok (stop s id generation none).1 ≡ true
    → let t = (stop s id generation none).0 in
      let r = ask_platform platform loopback fd (check_protection t other of_socket fd) in
      (r.0 ≡ none) × (is_some r.1 ≡ true)
ask_platform-stop s ws id other generation of_socket fd loopback platform v h =
    let t = (stop s id generation none).0 in
    not_asked platform loopback fd (check_protection t other of_socket fd)
      (checked t other of_socket fd (stop_progress s ws id generation v h).0)
