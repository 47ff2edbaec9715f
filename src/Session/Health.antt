-- ===== src/Session/Health.antt =====
-- core/sessionapi/api.go: waitForAttemptEnd, reportHealthFailure and prepareHealthRecoveryLocked.
use dobby_vpn.Common.{
  ℕ, ◌+◌, ◌-◌, Bool, true, false, not, ◌&&◌, ◌||◌, List, [], ◌∷◌, none, some, String, ◌==◌, ltb,
  leb, is_some, if◌then◌else◌,
}
use Prim.Native.String.{◌++◌ as text_append}
use dobby_vpn.Failure.{FailureCode, GoError, error_text}
use dobby_vpn.Session.Types.{
  Session, State, Worker, Stage, append_locked, cancel_list, context_error,
}
use dobby_vpn.Session.Guards.{is_empty, is_connected}
use dobby_vpn.Session.Attempt.{
  Environment, at_stage, auto_recovery_limit, auto_recovery_stable, auto_recovery_message,
}

abbrev health_text : Session → GoError → String
health_text s cause =
    let text = text_append "connected health check failed: " (error_text cause) in
    if s.recovering && not (is_empty s.last_failure_message)
    then text_append s.last_failure_message (text_append "; " text)
    else text

abbrev pub is_stable : Session → ℕ → Bool
is_stable s now = s.has_connected_at && leb auto_recovery_stable (now - s.last_connected_at)

-- prepareHealthRecoveryLocked, once the budget of a stable connection is renewed.
unfoldable pub plan_recovery : Session → ℕ → String → Session
plan_recovery s generation text =
    if ltb s.recovery_count auto_recovery_limit
    then record s {
      last_failure = some FailureCode.runtime;
      last_failure_message = text;
      recovery_count = s.recovery_count + 1;
      restart_after_cleanup = true;
      recovering = true;
      recovery_origin_generation =
          if s.recovery_origin_generation == 0 then generation else s.recovery_origin_generation;
    }
    else record s {
      last_failure = some FailureCode.runtime;
      last_failure_message = text;
      failure_after_cleanup = some FailureCode.runtime;
      failure_message_after_cleanup = text_append auto_recovery_message (text_append ": " text);
      recovering = false;
      recovery_origin_generation = 0;
    }

unfoldable pub renew_recovery : Session → ℕ → Session
renew_recovery s now =
    if is_stable s now then record s { recovery_count = 0; recovery_origin_generation = 0 } else s

-- reportHealthFailure, with prepareHealthRecoveryLocked.
unfoldable pub report_health_failure : Session → ℕ → GoError → ℕ → Session
unfolding append_locked plan_recovery renew_recovery
report_health_failure s generation cause now =
    if generation == 0 || not (generation == s.generation) || not (is_connected s.state)
    then s
    else record (append_locked
        (record (plan_recovery (renew_recovery s now) generation (health_text s cause)) {
          state = State.stopping;
        })) { canceled = cancel_list s.cancel s.canceled }

-- One turn of waitForAttemptEnd: the context is done, or the channel has something to tell. A nil
-- cause, or a closed channel, is waited past.
unfoldable pub wait_for_end : Session → Worker → Environment → Session × List Worker
wait_for_end s k env =
    if is_some (context_error s k.context)
    then (s, at_stage k (Stage.finishing none) ∷ [])
    else elim env.health [
      | none ↦ (s, k ∷ [])
      | some cause ↦ (
        report_health_failure s k.generation cause env.now,
        at_stage k (Stage.finishing none) ∷ [],
      )
    ]
