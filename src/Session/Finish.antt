-- ===== src/Session/Finish.antt =====
-- core/sessionapi/api.go: the end of an attempt, `finish` with retireFinishedResources, one stage
-- at a time.
use dobby_vpn.Common.{
  Bool, true, false, not, ◌&&◌, ◌||◌, List, [], ◌∷◌, Option, none, some, String, ◌==◌, is_some,
  if◌then◌else◌,
}
use Prim.Native.String.{◌++◌ as text_append}
use dobby_vpn.Failure.{FailureCode, GoError, join, code_of, is_cleanup, error_message}
use dobby_vpn.Session.Types.{
  Session, State, StartTarget, PendingStart, Worker, Stage, Closer, append_locked, finish_budget,
}
use dobby_vpn.Session.Guards.{is_empty, attempt_active}
use dobby_vpn.Session.Stop.{cleanup_context}
use dobby_vpn.Session.Control.{begin_attempt, start_worker, finish_worker}
use dobby_vpn.Session.Ledger.{release}
use dobby_vpn.Session.Attempt.{Environment, at_stage}

-- The first lock of finish: another generation, or a session at rest, is left alone.
unfoldable pub enter_finish : Session → Worker → Option GoError → Session × List Worker
enter_finish s k cause =
    if s.generation == k.generation && attempt_active s.state
    then (s, at_stage k (Stage.retiring cause) ∷ [])
    else (s, [])

-- A ledger that is not nil is released; what is left stays in it.
unfoldable pub release_ledger :
    (Closer → Option GoError) → Option (List Closer) → Option GoError × Option (List Closer)
unfolding release
release_ledger close none = (none, none)
release_ledger close (some l) = ((release close l).0, some (release close l).1)

-- retireFinishedResources: the attempt's ledger, unless the cause is a failed cleanup.
unfoldable pub retire : Session → Worker → Environment → Option GoError → Session × List Worker
unfolding cleanup_context
retire s k env cause =
    if is_cleanup (code_of cause) || not (is_some s.ledger)
    then (s, at_stage k (Stage.retired cause none) ∷ [])
    else (
      record (cleanup_context s) { ledger = (release_ledger env.close s.ledger).1 },
      at_stage k (Stage.retired cause (release_ledger env.close s.ledger).0) ∷ [],
    )

-- The lock at which it is decided whether the network goes too.
unfoldable pub decide_network :
    Session → Worker → Option GoError → Option GoError → Session × List Worker
decide_network s k cause failed = (
  s,
  at_stage k (Stage.releasing (s.stop_requested || s.closing || not s.vpn_active) cause failed)
      ∷ [],
)

unfoldable pub release_network :
    Session → Worker → Environment → Bool → Option GoError → Option GoError → Session × List Worker
unfolding cleanup_context
release_network s k env all cause failed =
    if not (is_some failed) && not (is_cleanup (code_of cause)) && all && is_some s.network_ledger
    then (
      record (cleanup_context s) { network_ledger = (release_ledger env.close s.network_ledger).1 },
      at_stage k (Stage.committing all cause (release_ledger env.close s.network_ledger).0) ∷ [],
    )
    else (s, at_stage k (Stage.committing all cause failed) ∷ [])

-- The last lock, by its outcomes. A cleanup that failed keeps both ledgers.
unfoldable pub fail_cleanup : Session → Option GoError → Session
unfolding append_locked
fail_cleanup s e = append_locked (record s {
  cancel = none;
  cleanup_failed = true;
  pending = none;
  restart_after_cleanup = false;
  recovering = false;
  failure_after_cleanup = none;
  failure_message_after_cleanup = "";
  state = State.failed;
  active = none;
  last_failure = some FailureCode.cleanup;
  last_failure_message = error_message e;
  cleanup_done = false;
})

-- The attempt is retired, with the network if `all`.
unfoldable pub retire_attempt : Session → Bool → Session
retire_attempt s all =
    if all
    then record s {
      cancel = none;
      cleanup_failed = false;
      ledger = none;
      network_ledger = none;
      vpn_active = false;
    }
    else record s { cancel = none; cleanup_failed = false; ledger = none }

-- A Stop that arrived during the attempt's cleanup: another `finish` releases the network.
unfoldable pub hand_off : Session → Session
unfolding retire_attempt
hand_off s = record (retire_attempt s false) { state = State.stopping }

unfoldable pub settle_budget : Session → Session
settle_budget s = record s {
  cleanup_budget = finish_budget s.cleanup_budget;
  cleanup_done = not s.vpn_active;
}

unfoldable pub come_to_rest : Session → Session
unfolding append_locked
come_to_rest s = append_locked (record s {
  state = State.idle;
  active = none;
  pending = none;
  recovering = false;
  restart_after_cleanup = false;
  recovery_origin_generation = 0;
  start_origin_generation = 0;
})

-- The target of the next attempt, and the session that begins it.
unfoldable pub take_pending : Session → PendingStart → Session
take_pending s p = record s {
  active_profiles = p.profiles;
  active_digest = p.digest;
  pending = none;
  recovery_count = 0;
}

abbrev next_target : Session → Option PendingStart → StartTarget
next_target s none = s.active_target
next_target s (some p) = p.target

abbrev pub pending_taken : Session → Option PendingStart → Session
pending_taken s none = s
pending_taken s (some p) = take_pending s p

unfoldable pub next_attempt : Session → Session × List Worker
unfolding take_pending begin_attempt
next_attempt s =
    let target = next_target s s.pending in
    let t = begin_attempt (pending_taken s s.pending) target in
    (t, start_worker s.next_context t.generation target ∷ [])

abbrev failure_code : Session → Option GoError → FailureCode
failure_code s cause = elim s.failure_after_cleanup [ none ↦ code_of cause | some c ↦ c ]

abbrev failure_text : Session → Option GoError → String
failure_text s cause = elim s.failure_after_cleanup [
  | some c ↦ s.failure_message_after_cleanup
  | none ↦
      if s.recovering && not (is_empty s.last_failure_message)
      then text_append s.last_failure_message
          (text_append "; automatic recovery failed: " (error_message cause))
      else error_message cause
]

unfoldable pub finish_protected_failure : Session → Option GoError → Session
unfolding append_locked
finish_protected_failure s cause = append_locked (record s {
  state = State.failed;
  active = none;
  last_failure = some (failure_code s cause);
  last_failure_message = failure_text s cause;
  recovering = false;
  recovery_origin_generation = 0;
  failure_after_cleanup = none;
  failure_message_after_cleanup = "";
})

-- The rest of the last lock, once the attempt is retired and its budget settled.
abbrev pub restarts : Session → Bool
restarts s = s.vpn_active && (s.restart_after_cleanup || is_some s.pending)

unfoldable pub settle : Session → Option GoError → Session × List Worker
settle s cause =
    if s.stop_requested || s.closing
    then (come_to_rest s, [])
    else if restarts s
    then next_attempt s
    else (finish_protected_failure s cause, [])

unfoldable pub commit :
    Session → Worker → Bool → Option GoError → Option GoError → Session × List Worker
commit s k all cause failed =
    if not (s.generation == k.generation)
    then (s, [])
    else if is_some failed || is_cleanup (code_of cause)
    then (fail_cleanup s (join cause failed), [])
    else if not all && (s.stop_requested || s.closing)
    then (hand_off s, finish_worker k s.generation ∷ [])
    else settle (settle_budget (retire_attempt s all)) cause
