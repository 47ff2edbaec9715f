-- ===== src/Session/Stop.antt =====
-- core/sessionapi/api.go and shutdown.go: Stop, the fence of StopAndWait, Resume and
-- ProtectSocket, each as one critical section.
use dobby_vpn.Common.{
  ℕ, Bool, true, false, not, ◌&&◌, ◌||◌, List, [], ◌∷◌, Option, none, some, String, ℤ, pos, negsuc,
  is_some, if◌then◌else◌, ◌==◌,
}
use dobby_vpn.Failure.{FailureCode, GoError, Result, ok, err, domain, wrap_failure}
use dobby_vpn.Session.Types.{
  Session, State, Worker, Budget, new_budget, append_locked, cancel_list, begin_budget,
}
use dobby_vpn.Session.Guards.{
  get, is_failed, is_stopping, is_configured, acquiring, attempt_active, retryable_cleanup,
  accepts_stop,
}
use dobby_vpn.Session.Control.{Reply, refuse, result_of, cleanup_worker}

-- What a Stop leaves of the fields that it always clears.
unfoldable pub request_stop : Session → Session
unfolding append_locked
request_stop s =
    if is_some s.pending
    then append_locked
        (record s { stop_requested = true; switch_origin_generation = 0; pending = none })
    else record s { stop_requested = true; switch_origin_generation = 0 }

-- Stop of a session that only a cleanup of its own can end: `finish` starts anew.
unfoldable pub stop_dormant : Session → Session
unfolding append_locked
stop_dormant s = append_locked (record s {
  cleanup_budget = begin_budget (some new_budget);
  state = State.stopping;
  cleanup_failed = false;
})

unfoldable pub clear_recovery : Session → Session
clear_recovery s =
    if s.recovering || not (s.recovery_origin_generation == 0)
    then record s {
      recovering = false;
      restart_after_cleanup = false;
      recovery_origin_generation = 0;
    }
    else s

-- acknowledgeStoppedLocked, for the session's own generation.
unfoldable pub acknowledge_stopped : Session → Reply
unfolding append_locked clear_recovery
acknowledge_stopped s =
    if s.cleanup_done && not s.cleanup_failed && not (is_configured s.state)
    then (let t =
          (if s.recovering || not (s.recovery_origin_generation == 0)
            then append_locked (clear_recovery s)
            else s) in
        (t, ok (result_of t), []))
    else refuse s (domain FailureCode.stale_generation "generation is no longer active")

-- Stop of a running attempt: its worker owns the cleanup.
unfoldable pub stop_running : Session → Session
unfolding append_locked clear_recovery
stop_running s =
    if is_stopping (clear_recovery s).state
    then clear_recovery s
    else record (append_locked (record (clear_recovery s) {
      state = State.stopping;
      cleanup_budget = begin_budget s.cleanup_budget;
    })) { canceled = cancel_list s.cancel s.canceled }

-- Stop after `request_stop`.
unfoldable pub stop_requested_session : Session → Reply
stop_requested_session s =
    if retryable_cleanup s || (is_failed s.state && s.vpn_active && not s.cleanup_failed)
    then (stop_dormant s, ok (result_of (stop_dormant s)), cleanup_worker s ∷ [])
    else if not (attempt_active s.state)
    then acknowledge_stopped s
    else (stop_running s, ok (result_of (stop_running s)), [])

abbrev pub add_error : Option GoError → Reply → Reply
add_error none r = r
add_error (some e) (s, ok a, k) = (s, err e, k)
add_error (some e) (s, err d, k) = (s, err (GoError.joined d e), k)

-- Stop; `persisted` is the answer of stopActivationLocked, which is reported and stops nothing.
unfoldable pub stop : Session → String → ℕ → Option GoError → Reply
stop s id generation persisted = elim (get s id) [
  | some e ↦ refuse s e
  | none ↦
      if not (accepts_stop s generation)
      then refuse s
          (domain FailureCode.stale_generation "generation is not active for this session")
      else add_error persisted (stop_requested_session (request_stop s))
]

-- The fence of StopAndWait.
unfoldable pub close_session : Session → Session
close_session s = record s {
  closing = true;
  stop_requested = true;
  pending = none;
  recovering = false;
  restart_after_cleanup = false;
  recovery_origin_generation = 0;
}

abbrev budget_or_new : Bool → Option Budget → Option Budget
budget_or_new false (some b) = some b
budget_or_new _ _ = some new_budget

unfoldable pub fence : Session → Session × List Worker
unfolding close_session append_locked
fence s =
    if not s.cleanup_done && not s.cleanup_failed
    then (
      append_locked (record (close_session s) {
        state = State.stopping;
        cleanup_budget = begin_budget (budget_or_new (is_failed s.state) s.cleanup_budget);
        canceled = cancel_list s.cancel s.canceled;
      }),
      if not (is_some s.cancel) && is_failed s.state then cleanup_worker s ∷ [] else [],
    )
    else (append_locked (close_session s), [])

-- What StopAndWait answers when it looks: nothing yet, or its result.
unfoldable pub stop_and_wait_answer : Session → Option (Result (Unit {0}))
stop_and_wait_answer s =
    if s.cleanup_failed
    then some (err (domain FailureCode.cleanup s.last_failure_message))
    else if s.cleanup_done
    then some (ok tt)
    else none

unfoldable pub resume : Session → Session × Option GoError
unfolding append_locked
resume s =
    if not s.closing
    then (s, none)
    else if not s.cleanup_done || s.cleanup_failed
    then (s, some (domain FailureCode.cleanup "previous service still owns resources"))
    else (append_locked (record s { closing = false }), none)

abbrev platform_answer : Option GoError → Option GoError
platform_answer none = none
platform_answer (some e) = some (wrap_failure FailureCode.platform e)

-- The part of ProtectSocket up to the unlock: the network that the platform is to be asked for.
unfoldable pub check_protection : Session → String → ℕ → ℤ → Result (String × ℕ)
check_protection s id generation (negsuc fd) =
    err (domain FailureCode.invalid_argument "socket descriptor must be non-negative")
check_protection s id generation (pos fd) = elim (get s id) [
  | some e ↦ err e
  | none ↦
      if not (s.generation == generation && not s.stop_requested && acquiring s.state)
      then err
          (domain FailureCode.stale_generation "socket protection belongs to a stale generation")
      else ok (s.id, s.network_generation)
]

-- The rest of ProtectSocket, without the lock, at whatever the session has come to: the network that the
-- platform is asked to protect the socket for, if it is asked, and the error.
unfoldable pub ask_platform :
    (String → ℕ → ℤ → Option GoError)
    → Bool
    → ℤ
    → Result (String × ℕ)
    → Option (String × ℕ) × Option GoError
ask_platform platform loopback fd (err e) = (none, some e)
ask_platform platform true fd (ok n) = (none, none)
ask_platform platform false fd (ok n) = (some n, platform_answer (platform n.0 n.1 fd))

-- cleanupContext: the budget of the cleanup begins, at the latest, where it is first used.
unfoldable pub cleanup_context : Session → Session
cleanup_context s = record s {
  cleanup_budget = begin_budget (budget_or_new false s.cleanup_budget);
}
