-- ===== src/Session/Control.antt =====
-- core/sessionapi/api.go: Start, and the attempt, retry or switch that it comes to, as one
-- critical section. A reply is the new session, the result, and the goroutines that the call
-- starts.
use dobby_vpn.Common.{
  ℕ, ◌+◌, Bool, true, false, not, ◌&&◌, ◌||◌, List, [], ◌∷◌, Option, none, some, String, u64,
  int_eq, if◌then◌else◌, ◌==◌,
}
use dobby_vpn.Failure.{FailureCode, GoError, Result, ok, err, domain, domain_with}
use text.Mathlib.Text.{◌==◌ as str_eq}
use dobby_vpn.Session.Types.{
  Session, State, StartTarget, StartResult, Worker, Stage, mode_eq, new_budget, append_locked,
  cancel_list, begin_budget,
}
use dobby_vpn.Session.Guards.{
  get, is_profile_index, is_auto_select, is_empty, can_retry, can_switch, configuration_blocked,
  validate_start_target,
}

abbrev pub Reply : Type 0
Reply = Session × Result StartResult × List Worker

abbrev pub refuse : Session → GoError → Reply
refuse s e = (s, err e, [])

abbrev pub result_of : Session → StartResult
result_of s = record { generation = s.generation; sequence = s.sequence }

abbrev pub start_worker : ℕ → ℕ → StartTarget → Worker
start_worker context generation target = record {
  context = context;
  generation = generation;
  target = target;
  errors = none;
  stage = Stage.preparing_network;
}

-- The goroutine `finish(s, generation, nil)`.
abbrev pub finish_worker : Worker → ℕ → Worker
finish_worker k generation = record k { generation = generation; stage = Stage.finishing none }

abbrev pub cleanup_worker : Session → Worker
cleanup_worker s =
    finish_worker (start_worker s.next_context s.generation s.active_target) s.generation

-- beginAttemptLocked.
unfoldable pub begin_attempt : Session → StartTarget → Session
unfolding append_locked
begin_attempt s target = append_locked (record s {
  generation = u64 (s.generation + 1);
  cleanup_budget = some new_budget;
  cancel = some s.next_context;
  next_context = s.next_context + 1;
  ledger = some [];
  cleanup_done = false;
  cleanup_failed = false;
  stop_requested = false;
  active = none;
  active_target = target;
  restart_after_cleanup = false;
  failure_after_cleanup = none;
  failure_message_after_cleanup = "";
  state = State.probing;
})

-- What retryLocked refuses: anything but the saved selection.
unfoldable pub retry_mismatch : Session → StartTarget → Bool → Bool
retry_mismatch s target supplied =
    supplied
    || target.replace_current
    || not (mode_eq target.mode s.active_target.mode)
    || (is_profile_index target.mode && not (int_eq target.index s.active_target.index))
    || (not (is_empty target.digest) && not (str_eq target.digest s.active_digest))

unfoldable pub retry_session : Session → Session
unfolding begin_attempt
retry_session s =
    record (begin_attempt (record s { recovery_count = 0; recovery_origin_generation = 0 })
      s.active_target) { start_origin_generation = u64 (s.generation + 1) }

unfoldable pub retry_locked : Session → StartTarget → Bool → Reply
retry_locked s target supplied =
    if retry_mismatch s target supplied
    then refuse s (domain FailureCode.conflict "retry requires the saved active selection")
    else (
      retry_session s,
      ok (result_of (retry_session s)),
      start_worker s.next_context (retry_session s).generation target ∷ [],
    )

unfoldable pub replace_session : Session → StartTarget → Session
unfolding append_locked
replace_session s target = append_locked (record s {
  pending = some (record { target = target; profiles = s.profiles; digest = s.digest });
  switch_origin_generation = s.generation;
  state = State.stopping;
  cleanup_budget = begin_budget s.cleanup_budget;
  canceled = cancel_list s.cancel s.canceled;
})

abbrev pub replace_accepted : Session → StartTarget → Option GoError → Reply
replace_accepted s target (some e) = refuse s e
replace_accepted s target none =
    (replace_session s target, ok (result_of (replace_session s target)), [])

-- `activation` is the answer of saveActivationLocked.
unfoldable pub replace_locked : Session → StartTarget → Option GoError → Reply
replace_locked s target activation =
    if not target.replace_current || not (can_switch s)
    then refuse s (domain FailureCode.conflict "previous generation has not completed cleanup")
    else replace_accepted s target activation

-- A direct Start: a new network generation and a new attempt.
unfoldable pub fresh_session : Session → StartTarget → Session
unfolding append_locked
fresh_session s target = append_locked (record s {
  active_profiles = s.profiles;
  active_digest = s.digest;
  switch_origin_generation = 0;
  network_generation = u64 (s.network_generation + 1);
  network_ledger = some [];
  vpn_active = false;
  stop_requested = false;
  generation = u64 (s.generation + 1);
  start_origin_generation = u64 (s.generation + 1);
  cleanup_budget = some new_budget;
  cancel = some s.next_context;
  next_context = s.next_context + 1;
  ledger = some [];
  cleanup_done = false;
  cleanup_failed = false;
  active = none;
  last_failure = none;
  last_failure_message = "";
  active_target = target;
  restart_after_cleanup = false;
  failure_after_cleanup = none;
  failure_message_after_cleanup = "";
  recovering = false;
  recovery_origin_generation = 0;
  recovery_count = 0;
  last_connected_at = 0;
  has_connected_at = false;
  state = State.probing;
})

unfoldable pub fresh_start : Session → StartTarget → Option GoError → Reply
fresh_start s target activation = elim activation [
  | some e ↦ refuse s e
  | none ↦ (
    fresh_session s target,
    ok (result_of (fresh_session s target)),
    start_worker s.next_context (fresh_session s target).generation target ∷ [],
  )
]

unfoldable pub admit_start : Session → StartTarget → Option GoError → Reply
admit_start s target activation = elim (validate_start_target s target) [
  | some e ↦ refuse s e
  | none ↦
      if configuration_blocked s
      then replace_locked s target activation
      else fresh_start s target activation
]

-- Start after its context check and, with a source (`supplied`), after its Configure.
unfoldable pub start : Session → String → ℕ → StartTarget → Bool → Option GoError → Reply
start s id expected target supplied activation = elim (get s id) [
  | some e ↦ refuse s e
  | none ↦
      if not (s.sequence == expected)
      then refuse s
          (domain FailureCode.conflict "session changed; refresh its snapshot before starting")
      else if not s.configured
      then refuse s (domain FailureCode.not_configured "configure a session before starting it")
      else if can_retry s
      then retry_locked s target supplied
      else admit_start s target activation
]

-- What Configure has left, and the Start that follows an accepted source.
abbrev pub configured_start : Session × Result ℕ → String → StartTarget → Option GoError → Reply
configured_start (t, err e) id target activation = refuse t e
configured_start (t, ok sequence) id target activation = start t id sequence target true activation

-- Start, `context` being requestCtx.Err(). With a source, `source` is the Configure of it: the
-- session that it leaves, and the sequence that it answers.
unfoldable pub start_request :
    Session
    → String
    → ℕ
    → StartTarget
    → Option GoError
    → Option (Session × Result ℕ)
    → Option GoError
    → Reply
start_request s id expected target context source activation = elim (get s id) [
  | some e ↦ refuse s e
  | none ↦ elim context [
    | some e ↦
        refuse s (domain_with FailureCode.canceled "start was canceled before it was accepted" e)
    | none ↦ elim source [
      | none ↦ start s id expected target false activation
      | some configured ↦
          if not (is_auto_select target.mode)
          then refuse s
              (domain FailureCode.invalid_argument "a source can only be started with AUTO_SELECT")
          else configured_start configured id target activation
    ]
  ]
]
