-- ===== src/Session/Invariant/Stages.antt =====
-- Every stage of the goroutine that owns the attempt keeps the invariant.
use dobby_vpn.Common.{
  ℕ, Bool, true, not, ◌||◌, List, [], ◌∷◌, Option, none, ◌==◌, ◌≡◌, Option-cases, if_cases, inl,
  inr, is_some, String, arith,
}
use dobby_vpn.Failure.{GoError}
use dobby_vpn.Session.Types.{
  Session, Worker, Stage, RuntimeProfile, State, context_error, append_locked,
}
use dobby_vpn.Session.Guards.{is_connected, attempt_active}
use dobby_vpn.Session.Invariant.Owners.{keeps}
use dobby_vpn.Session.Attempt.{at_stage, Environment, prepare_network, activate, begin_candidates}
use dobby_vpn.Session.Health.{plan_recovery, renew_recovery, wait_for_end, report_health_failure}
use dobby_vpn.Session.Candidate.{
  next_candidate, advance_attempt, start_runtime, judge, roll_back, after_roll_back, connect,
}
use dobby_vpn.Session.Invariant.Defs.{SessionInv, Inv, owns, worker_ok}

-- A stage, from the session of the goroutine that makes it.
abbrev pub StageInv : Session × List Worker → Type 0
StageInv r = Inv r.0 r.1

pub prepare_network-Inv :
    (s : Session) (k : Worker) (env : Environment)
    → k.stage ≡ Stage.preparing_network
    → Inv s (k ∷ [])
    → StageInv (prepare_network s k env)
unfolding prepare_network worker_ok
prepare_network-Inv s k env e v = record {
  session_ok = ground (arith, v.session_ok);
  owned = ground (arith, v.session_ok);
}

pub activate-Inv :
    (s : Session) (k : Worker)
    → k.stage ≡ Stage.activating
    → Inv s (k ∷ [])
    → StageInv (activate s k)
unfolding activate worker_ok
activate-Inv s k e v = record {
  session_ok = ground (arith, v.session_ok);
  owned = ground (arith, v.session_ok);
}

pub begin_candidates-Inv :
    (s : Session) (k : Worker)
    → k.stage ≡ Stage.activated
    → Inv s (k ∷ [])
    → StageInv (begin_candidates s k)
unfolding worker_ok
begin_candidates-Inv s k e v = record {
  session_ok = v.session_ok;
  owned = ground (arith, v.session_ok);
}

pub next_candidate-Inv :
    (s : Session) (k : Worker) (index : ℕ) (rest : List RuntimeProfile)
    → k.stage ≡ Stage.candidate index rest
    → Inv s (k ∷ [])
    → StageInv (next_candidate s k index rest)
unfolding next_candidate worker_ok
next_candidate-Inv s k index [] e v = record {
  session_ok = v.session_ok;
  owned = ground (arith, v.session_ok);
}
next_candidate-Inv s k index (p ∷ rest) e v = record {
  session_ok = ground (arith, v.session_ok);
  owned = ground (arith, v.session_ok);
}

pub advance_attempt-Inv :
    (s : Session) (k : Worker) (env : Environment) (index : ℕ) (p : RuntimeProfile)
    (rest : List RuntimeProfile)
    → k.stage ≡ Stage.advancing index p rest
    → Inv s (k ∷ [])
    → StageInv (advance_attempt s k env index p rest)
unfolding advance_attempt worker_ok
advance_attempt-Inv s k env index p rest e v = record {
  session_ok = ground (arith, v.session_ok);
  owned = ground (arith, v.session_ok);
}

pub start_runtime-Inv :
    (s : Session) (k : Worker) (env : Environment) (index : ℕ) (p : RuntimeProfile)
    (rest : List RuntimeProfile)
    → k.stage ≡ Stage.starting index p rest
    → Inv s (k ∷ [])
    → StageInv (start_runtime s k env index p rest)
unfolding start_runtime worker_ok
start_runtime-Inv s k env index p rest e v = record {
  session_ok = ground (arith, v.session_ok);
  owned = ground (arith, v.session_ok);
}

pub judge-Inv :
    (s : Session) (k : Worker) (env : Environment) (index : ℕ) (p : RuntimeProfile)
    (rest : List RuntimeProfile) (lease : Option ℕ) (x : Option GoError)
    → k.stage ≡ Stage.judging index p rest lease x
    → Inv s (k ∷ [])
    → StageInv (judge s k env index p rest lease x)
unfolding judge worker_ok
judge-Inv s k env index p rest lease x e v = record {
  session_ok = ground (arith, v.session_ok);
  owned = ground (arith, v.session_ok);
}

pub roll_back-Inv :
    (s : Session) (k : Worker) (env : Environment) (index : ℕ) (rest : List RuntimeProfile)
    (invalid : Bool) (x : Option GoError)
    → k.stage ≡ Stage.rolling_back index rest invalid x
    → Inv s (k ∷ [])
    → StageInv (roll_back s k env index rest invalid x)
unfolding roll_back worker_ok
roll_back-Inv s k env index rest invalid x e v = record {
  session_ok = ground (arith, v.session_ok);
  owned = ground (arith, v.session_ok);
}

pub after_roll_back-Inv :
    (s : Session) (k : Worker) (index : ℕ) (rest : List RuntimeProfile) (invalid : Bool)
    (x : Option GoError)
    → k.stage ≡ Stage.rolled_back index rest invalid x
    → Inv s (k ∷ [])
    → StageInv (after_roll_back s k index rest invalid x)
unfolding after_roll_back worker_ok
after_roll_back-Inv s k index rest invalid x e v = record {
  session_ok = ground (arith, v.session_ok);
  owned = ground (arith, v.session_ok);
}

pub connect-Inv :
    (s : Session) (k : Worker) (env : Environment) (p : RuntimeProfile)
    → k.stage ≡ Stage.connecting p
    → Inv s (k ∷ [])
    → StageInv (connect s k env p)
unfolding connect worker_ok
connect-Inv s k env p e v = record {
  session_ok = ground (arith, v.session_ok);
  owned = ground (arith, v.session_ok);
}

-- A goroutine may always go on to finish.
finishing-Inv :
    (s : Session) (k : Worker) (cause : Option GoError)
    → Inv s (k ∷ [])
    → Inv s (at_stage k (Stage.finishing cause) ∷ [])
unfolding worker_ok
finishing-Inv s k cause v = record { session_ok = v.session_ok; owned = ground (arith, v.owned) }

plan_recovery-SessionInv :
    (s : Session) (generation : ℕ) (text : String)
    → attempt_active s.state ≡ true
    → SessionInv s
    → SessionInv (plan_recovery s generation text)
unfolding plan_recovery
plan_recovery-SessionInv s generation text a v = ground arith

renew_recovery-active :
    (s : Session) (now : ℕ)
    → is_connected s.state ≡ true
    → attempt_active (renew_recovery s now).state ≡ true
unfolding renew_recovery
renew_recovery-active s now c = ground arith

renew_recovery-SessionInv :
    (s : Session) (now : ℕ) → SessionInv s → SessionInv (renew_recovery s now)
unfolding renew_recovery
renew_recovery-SessionInv s now v = ground arith

-- What planning a recovery leaves alone.
plan_recovery_frame :
    (s : Session) (generation now : ℕ) (text : String)
    → let t = plan_recovery (renew_recovery s now) generation text in
      (t.state ≡ s.state) × (owns t ≡ owns s)
unfolding plan_recovery renew_recovery
plan_recovery_frame s generation now text = (ground arith, ground arith)

-- A connected session that is told to stop for its health.
fall_back-Inv :
    (s t : Session) (canceled : List ℕ) (ws : List Worker)
    → Inv s ws
    → is_connected s.state ≡ true
    → SessionInv t
    → (t.state ≡ s.state) × (owns t ≡ owns s)
    → Inv (record (append_locked (record t { state = State.stopping })) { canceled = canceled }) ws
unfolding append_locked
fall_back-Inv s t canceled ws v c w f = keeps ws v (ground (arith, w)) (ground arith) (λ k a o. cc)

report-Inv :
    (s : Session) (generation : ℕ) (cause : GoError) (now : ℕ) (ws : List Worker)
    → Inv s ws
    → Inv (report_health_failure s generation cause now) ws
unfolding report_health_failure
report-Inv s generation cause now ws v =
    if_cases (λ t. Inv t ws)
      (generation == 0 || not (generation == s.generation) || not (is_connected s.state)) (λ _. v)
      (λ e.
        fall_back-Inv s _ _ ws v (ground arith)
          (plan_recovery-SessionInv _ generation _ (renew_recovery-active s now (ground arith))
            (renew_recovery-SessionInv s now v.session_ok))
          (plan_recovery_frame s generation now _))

pub wait_for_end-Inv :
    (s : Session) (k : Worker) (env : Environment)
    → k.stage ≡ Stage.waiting
    → Inv s (k ∷ [])
    → StageInv (wait_for_end s k env)
unfolding wait_for_end
wait_for_end-Inv s k env e v =
    if_cases StageInv (is_some (context_error s k.context)) (λ _. finishing-Inv s k none v)
      (λ _. elim (Option-cases env.health) [
        | inl h ↦ rw (h, wait_for_end) v
        | inr (cause, h) ↦
            rw (h, wait_for_end)
              (finishing-Inv _ k none (report-Inv s k.generation cause env.now (k ∷ []) v))
      ])
