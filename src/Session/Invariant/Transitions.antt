-- ===== src/Session/Invariant/Transitions.antt =====
-- Each change of state that the commands make keeps the invariant.
use dobby_vpn.Common.{
  Bool, true, false, not, ◌&&◌, ◌||◌, List, [], ◌∷◌, ◌++◌, Option, none, ◌≡◌, Bool-cases, refl, inl,
  inr, String, arith,
}
use dobby_vpn.Failure.{Result}
use dobby_vpn.Session.Types.{Session, Worker, StartTarget}
use dobby_vpn.Session.Guards.{
  is_failed, attempt_active, can_switch, can_retry, configuration_blocked, retryable_cleanup,
  validate_start_target,
}
use dobby_vpn.Session.Configure.{accept_locked, Loaded, attach_source_store}
use dobby_vpn.Session.Control.{
  cleanup_worker, start_worker, retry_mismatch, replace_session, fresh_session, retry_session,
}
use dobby_vpn.Session.Stop.{
  request_stop, fence, resume, cleanup_context, stop_dormant, stop_running, acknowledge_stopped,
}
use dobby_vpn.Session.Invariant.Owners.{keeps, launches, owners-nil}
use dobby_vpn.Session.Invariant.Defs.{
  SessionInv, Inv, is_nil, target_fits, owners_ok, owns, worker_ok,
}

abbrev pub dormant : Session → Bool
dormant s = retryable_cleanup s || (is_failed s.state && s.vpn_active && not s.cleanup_failed)

pub accept_locked-Inv :
    (s : Session) (l : Loaded) (ws : List Worker)
    → is_nil l.profiles ≡ false
    → Inv s ws
    → Inv (accept_locked s l) ws
unfolding accept_locked worker_ok
accept_locked-Inv s l ws h v =
    keeps ws v (ground (arith, v.session_ok)) (ground (arith, v.session_ok))
      (λ k a o. ground (arith, v.session_ok))

pub resume-Inv : (s : Session) (ws : List Worker) → Inv s ws → Inv (resume s).0 ws
unfolding resume worker_ok
resume-Inv s ws v =
    keeps ws v (ground (arith, v.session_ok)) (ground arith) (λ k a o. ground (arith, v.session_ok))

pub cleanup_context-Inv : (s : Session) (ws : List Worker) → Inv s ws → Inv (cleanup_context s) ws
unfolding cleanup_context
cleanup_context-Inv s ws v = keeps ws v (ground (arith, v.session_ok)) refl (λ k a o. o)

pub attach-Inv :
    (s : Session) (r : Result (Option String)) (ws : List Worker)
    → Inv s ws
    → Inv (attach_source_store s r) ws
unfolding attach_source_store worker_ok
attach-Inv s r ws v =
    keeps ws v (ground (arith, v.session_ok)) (ground arith) (λ k a o. ground (arith, v.session_ok))

pub acknowledge_quiet : (s : Session) → (acknowledge_stopped s).2 ≡ []
unfolding acknowledge_stopped worker_ok
acknowledge_quiet s = ground arith

pub replace_session-Inv :
    (s : Session) (target : StartTarget) (ws : List Worker)
    → Inv s ws
    → s.configured ≡ true
    → can_switch s ≡ true
    → validate_start_target s target ≡ none
    → Inv (replace_session s target) ws
unfolding replace_session worker_ok can_switch validate_start_target target_fits
replace_session-Inv s target ws v h a b =
    keeps ws v (ground (arith, v.session_ok)) (ground arith) (λ k a o. ground (arith, v.session_ok))

pub stop_running-Inv :
    (s : Session) (ws : List Worker)
    → attempt_active s.state ≡ true
    → Inv s ws
    → Inv (stop_running (request_stop s)) ws
unfolding stop_running request_stop worker_ok
stop_running-Inv s ws h v =
    keeps ws v (ground (arith, v.session_ok)) (ground arith) (λ k a o. ground arith)

pub acknowledge-Inv :
    (s : Session) (ws : List Worker)
    → attempt_active s.state ≡ false
    → Inv s ws
    → Inv (acknowledge_stopped (request_stop s)).0 ws
unfolding acknowledge_stopped request_stop
acknowledge-Inv s ws h v =
    keeps ws v (ground (arith, v.session_ok)) (ground arith) (λ k a o. ground arith)

pub stop_dormant-Inv :
    (s : Session) (ws : List Worker)
    → Inv s ws
    → dormant (request_stop s) ≡ true
    → Inv (stop_dormant (request_stop s)) (cleanup_worker (request_stop s) ∷ ws)
unfolding stop_dormant retryable_cleanup worker_ok request_stop
stop_dormant-Inv s ws v h =
    launches (cleanup_worker (request_stop s)) v (ground (arith, v.session_ok)) (ground arith) refl
      (ground arith)

pub retry_session-Inv :
    (s : Session) (target : StartTarget) (supplied : Bool) (ws : List Worker)
    → Inv s ws
    → can_retry s ≡ true
    → retry_mismatch s target supplied ≡ false
    → Inv (retry_session s) (start_worker s.next_context (retry_session s).generation target ∷ ws)
unfolding retry_session can_retry worker_ok target_fits retry_mismatch
retry_session-Inv s target supplied ws v h m =
    launches _ v (ground (arith, v.session_ok)) (ground arith) refl (ground (arith, v.session_ok))

pub fresh_session-Inv :
    (s : Session) (target : StartTarget) (ws : List Worker)
    → Inv s ws
    → s.configured ≡ true
    → configuration_blocked s ≡ false
    → validate_start_target s target ≡ none
    → Inv
        (fresh_session s target)
        (start_worker s.next_context (fresh_session s target).generation target ∷ ws)
unfolding fresh_session configuration_blocked validate_start_target target_fits worker_ok
fresh_session-Inv s target ws v h a b =
    launches _ v (ground (arith, v.session_ok)) (ground arith) refl (ground (arith, v.session_ok))

fence-SessionInv : (s : Session) → SessionInv s → SessionInv (fence s).0
unfolding fence
fence-SessionInv s v = ground arith

fence-owned_active :
    (s : Session) (ws : List Worker)
    → SessionInv s
    → attempt_active s.state ≡ true
    → owners_ok (attempt_active s.state) (owns s) ws ≡ true
    → owners_ok (attempt_active (fence s).0.state) (owns (fence s).0) ((fence s).1 ++ ws) ≡ true
unfolding fence worker_ok
fence-owned_active s ws v a h = ground arith

fence-owned_rest :
    (s : Session)
    → SessionInv s
    → attempt_active s.state ≡ false
    → owners_ok (attempt_active (fence s).0.state) (owns (fence s).0) ((fence s).1 ++ []) ≡ true
unfolding fence worker_ok
fence-owned_rest s v a = ground arith

-- A session at rest that still owns something is woken by the fence, and only such a one.
pub fence-Inv : (s : Session) (ws : List Worker) → Inv s ws → Inv (fence s).0 ((fence s).1 ++ ws)
fence-Inv s ws v = record {
  session_ok = fence-SessionInv s v.session_ok;
  owned = elim (Bool-cases (attempt_active s.state)) [
    | inl a ↦ fence-owned_active s ws v.session_ok a v.owned
    | inr a ↦
        rw (owners-nil (owns s) (attempt_active s.state) ws a v.owned)
          (fence-owned_rest s v.session_ok a)
  ];
}
