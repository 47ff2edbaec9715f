-- ===== src/Session/Candidate.antt =====
-- core/sessionapi/api.go: the loop of `runStart` over the candidate profiles, one stage at a time.
use dobby_vpn.Common.{
  ℕ, ◌+◌, Bool, true, false, not, ◌&&◌, ◌||◌, List, [], ◌∷◌, Option, none, some, String, u64, ◌==◌,
  is_some, if◌then◌else◌,
}
use dobby_vpn.Failure.{
  FailureCode, GoError, formatted, domain, wrap_failure, join, code_of, is_cleanup,
}
use dobby_vpn.Session.Types.{
  Session, State, StartMode, RuntimeProfile, ProfileSummary, Worker, Stage, Closer, new_budget,
  append_locked, context_error,
}
use mathlib.Core.Option
use dobby_vpn.Session.Guards.{is_profile_index, is_auto_select, is_stopping, is_connected}
use dobby_vpn.Session.Stop.{cleanup_context}
use dobby_vpn.Session.Ledger.{push, release}
use dobby_vpn.Session.Attempt.{Environment, caused, at_stage, push_lease}

-- The top of the loop over the profiles, with prepareCandidate.
unfoldable pub next_candidate : Session → Worker → ℕ → List RuntimeProfile → Session × List Worker
next_candidate s k index [] =
    let cause = caused FailureCode.probe "no configured profile became ready" k.errors in
    (s, at_stage k (Stage.finishing (some cause)) ∷ [])
next_candidate s k index (p ∷ rest) =
    if index == 0
    then (s, at_stage k (Stage.advancing index p rest) ∷ [])
    else if s.stop_requested || is_some (context_error s k.context)
    then (
      s,
      at_stage k (Stage.finishing (some (domain FailureCode.canceled "attempt stopped"))) ∷ [],
    )
    else (
      record s { generation = u64 (s.generation + 1); cleanup_budget = some new_budget },
      record k { generation = u64 (s.generation + 1); stage = Stage.advancing index p rest } ∷ [],
    )

-- advance: whether it moved, and to what.
unfoldable pub can_advance : Session → ℕ → Bool
can_advance s generation = s.generation == generation && not (is_stopping s.state)

unfoldable pub advance_session : Session → State → ProfileSummary → ℕ → Session
unfolding append_locked
advance_session s state profile now =
    if is_connected state
    then append_locked (record s {
      state = state;
      active = some profile;
      start_origin_generation = 0;
      last_connected_at = now;
      has_connected_at = true;
      last_failure = none;
      last_failure_message = "";
      recovering = false;
      recovery_origin_generation = 0;
    })
    else append_locked (record s { state = state; active = some profile })

abbrev attempt_state : StartMode → State
attempt_state m = if is_profile_index m then State.preparing else State.probing

unfoldable pub advance_attempt :
    Session
    → Worker
    → Environment
    → ℕ
    → RuntimeProfile
    → List RuntimeProfile
    → Session × List Worker
unfolding can_advance advance_session
advance_attempt s k env index p rest =
    if can_advance s k.generation
    then (
      advance_session s (attempt_state k.target.mode) p.summary env.now,
      at_stage k (Stage.starting index p rest) ∷ [],
    )
    else (
      s,
      at_stage k (Stage.finishing (some (domain FailureCode.canceled "attempt stopped"))) ∷ [],
    )

-- runtime.Start returns: its lease is owned at once.
unfoldable pub start_runtime :
    Session
    → Worker
    → Environment
    → ℕ
    → RuntimeProfile
    → List RuntimeProfile
    → Session × List Worker
unfolding push
start_runtime s k env index p rest = (
  record s { ledger = push_lease Closer.runtime_lease env.started.0 s.ledger },
  at_stage k (Stage.judging index p rest env.started.0 env.started.1) ∷ [],
)

abbrev pub is_invalid_lease : Option ℕ → Option GoError → Bool
is_invalid_lease none none = true
is_invalid_lease _ _ = false

abbrev start_error : Option ℕ → Option GoError → Option GoError
start_error none none = some (domain FailureCode.runtime "runtime returned an empty lease")
start_error l e = e

abbrev stamped : Bool → String → Option GoError → Option GoError
stamped true text (some e) = some (formatted text e)
stamped _ text e = e

-- The verdict on a candidate, up to the classification of its error.
unfoldable pub judge :
    Session
    → Worker
    → Environment
    → ℕ
    → RuntimeProfile
    → List RuntimeProfile
    → Option ℕ
    → Option GoError
    → Session × List Worker
judge s k env index p rest lease e =
    let invalid = is_invalid_lease lease e in
    let failed = start_error lease e in
    let canceled = context_error s k.context in
    let candidate_error =
      stamped (is_auto_select k.target.mode && not invalid) (env.stamp p.summary)
        (join failed canceled) in
    let errors = join k.errors candidate_error in
    if not (is_some failed) && not (is_some canceled)
    then (s, at_stage k (Stage.connecting p) ∷ [])
    else if is_cleanup (code_of failed)
    then (
      s,
      at_stage k (Stage.finishing (Option.map (wrap_failure FailureCode.cleanup) errors)) ∷ [],
    )
    else (
      s,
      record k { errors = errors; stage = Stage.rolling_back index rest invalid errors } ∷ [],
    )

abbrev closers_of : Option (List Closer) → List Closer
closers_of none = []
closers_of (some l) = l

-- The ledger of the failed candidate is released.
unfoldable pub roll_back :
    Session
    → Worker
    → Environment
    → ℕ
    → List RuntimeProfile
    → Bool
    → Option GoError
    → Session × List Worker
unfolding release cleanup_context
roll_back s k env index rest invalid errors =
    let r = release env.close (closers_of s.ledger) in
    let s' = record (cleanup_context s) { ledger = some r.1 } in
    elim r.0 [
      | some e ↦ (
        s',
        at_stage k (
              Stage.finishing
                (Option.map (wrap_failure FailureCode.cleanup) (join errors (some e))))
            ∷ [],
      )
      | none ↦ (s', at_stage k (Stage.rolled_back index rest invalid errors) ∷ [])
    ]

-- After the rollback: stop, or the next candidate.
unfoldable pub after_roll_back :
    Session → Worker → ℕ → List RuntimeProfile → Bool → Option GoError → Session × List Worker
after_roll_back s k index rest invalid errors =
    if is_some (context_error s k.context)
    then (
      s,
      at_stage k (Stage.finishing (some (caused FailureCode.canceled "start was canceled" errors)))
          ∷ [],
    )
    else if invalid || is_profile_index k.target.mode
    then (
      s,
      at_stage k (Stage.finishing (Option.map (wrap_failure FailureCode.runtime) errors)) ∷ [],
    )
    else (s, at_stage k (Stage.candidate (index + 1) rest) ∷ [])

unfoldable pub connect : Session → Worker → Environment → RuntimeProfile → Session × List Worker
unfolding can_advance advance_session
connect s k env p =
    if can_advance s k.generation
    then (advance_session s State.connected p.summary env.now, at_stage k Stage.waiting ∷ [])
    else (s, at_stage k (Stage.finishing none) ∷ [])
