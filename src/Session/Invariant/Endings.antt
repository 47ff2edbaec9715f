-- ===== src/Session/Invariant/Endings.antt =====
-- Every stage of `finish` keeps the invariant.
use dobby_vpn.Common.{
  ◌≤◌, Bool, true, false, not, ◌&&◌, ◌||◌, [], ◌∷◌, Option, none, ◌==◌, ◌≡◌, if_cases, refl,
  is_some, arith,
}
use dobby_vpn.Failure.{GoError, code_of, is_cleanup, join}
use dobby_vpn.Session.Types.{Session, Worker, Stage}
use dobby_vpn.Session.Control.{finish_worker}
use dobby_vpn.Session.Attempt.{Environment}
use dobby_vpn.Session.Finish.{
  release_ledger, enter_finish, retire, decide_network, release_network, commit, hand_off, restarts,
  settle, settle_budget, retire_attempt, fail_cleanup, next_attempt, finish_protected_failure,
  come_to_rest,
}
use dobby_vpn.Session.Invariant.Defs.{halted, pending_fits, Inv, is_nil, target_fits, worker_ok}
use dobby_vpn.Session.Invariant.Stages.{StageInv}

pub enter_finish-Inv :
    (s : Session) (k : Worker) (cause : Option GoError)
    → k.stage ≡ Stage.finishing cause
    → Inv s (k ∷ [])
    → StageInv (enter_finish s k cause)
unfolding enter_finish worker_ok
enter_finish-Inv s k cause e v = record {
  session_ok = ground (arith, v.session_ok);
  owned = ground (arith, v.session_ok);
}

pub retire-Inv :
    (s : Session) (k : Worker) (env : Environment) (cause : Option GoError)
    → k.stage ≡ Stage.retiring cause
    → Inv s (k ∷ [])
    → StageInv (retire s k env cause)
unfolding retire release_ledger worker_ok
retire-Inv s k env cause e v = record {
  session_ok = ground (arith, v.session_ok);
  owned = ground (arith, v.session_ok);
}

pub decide_network-Inv :
    (s : Session) (k : Worker) (cause failed : Option GoError)
    → k.stage ≡ Stage.retired cause failed
    → Inv s (k ∷ [])
    → StageInv (decide_network s k cause failed)
unfolding decide_network worker_ok
decide_network-Inv s k cause failed e v = record {
  session_ok = v.session_ok;
  owned = ground (arith, v.session_ok);
}

pub release_network-Inv :
    (s : Session) (k : Worker) (env : Environment) (all : Bool) (cause failed : Option GoError)
    → k.stage ≡ Stage.releasing all cause failed
    → Inv s (k ∷ [])
    → StageInv (release_network s k env all cause failed)
unfolding release_network release_ledger worker_ok
release_network-Inv s k env all cause failed e v = record {
  session_ok = ground (arith, v.session_ok);
  owned = ground (arith, v.session_ok);
}

fail_cleanup-Inv :
    (s : Session) (k : Worker) (e : Option GoError) → Inv s (k ∷ []) → Inv (fail_cleanup s e) []
unfolding fail_cleanup
fail_cleanup-Inv s k e v = record { session_ok = ground (arith, v.session_ok); owned = refl }

hand_off-Inv :
    (s : Session) (k : Worker) (cause failed : Option GoError)
    → k.stage ≡ Stage.committing false cause failed
    → (s.stop_requested || s.closing) ≡ true
    → Inv s (k ∷ [])
    → Inv (hand_off s) (finish_worker k s.generation ∷ [])
unfolding hand_off worker_ok
hand_off-Inv s k cause failed e h v = record {
  session_ok = ground (arith, v.session_ok);
  owned = ground (arith, v.session_ok);
}

-- What the last lock knows of the session once the attempt is retired and its budget settled.
record Retired (s : Session) : Type 0 where
  failed_clear : s.cleanup_failed ≡ false
  uncanceled : s.cancel ≡ none
  unowned : s.ledger ≡ none
  done : s.cleanup_done ≡ not s.vpn_active
  network_clear : s.vpn_active ≡ false → s.network_ledger ≡ none
  network_held : s.vpn_active ≡ true → is_some s.network_ledger ≡ true
  counted : s.recovery_count ≤ 3
  inventory : s.configured ≡ true → is_nil s.profiles ≡ false
  target_held : target_fits s.active_target s.active_profiles ≡ true
  pending_held : pending_fits s.pending ≡ true
  pending_network : is_some s.pending ≡ true → s.vpn_active ≡ true

settle_budget-Retired :
    (s : Session) (k : Worker) (all : Bool) (cause failed : Option GoError)
    → k.stage ≡ Stage.committing all cause failed
    → Inv s (k ∷ [])
    → Retired (settle_budget (retire_attempt s all))
unfolding settle_budget retire_attempt worker_ok
settle_budget-Retired s k all cause failed e v = ground (arith, v.session_ok)

come_to_rest-Inv : (s : Session) → s.vpn_active ≡ false → Retired s → Inv (come_to_rest s) []
unfolding come_to_rest
come_to_rest-Inv s a r = record { session_ok = ground (arith, r); owned = refl }

next_attempt-Inv :
    (s : Session) → halted s ≡ false → restarts s ≡ true → Retired s → StageInv (next_attempt s)
unfolding next_attempt worker_ok
next_attempt-Inv s h a r = record { session_ok = ground (arith, r); owned = ground (arith, r) }

finish_protected_failure-Inv :
    (s : Session) (cause : Option GoError)
    → restarts s ≡ false
    → Retired s
    → Inv (finish_protected_failure s cause) []
unfolding finish_protected_failure
finish_protected_failure-Inv s cause a r = record { session_ok = ground (arith, r); owned = refl }

settle-Inv :
    (s : Session) (cause : Option GoError)
    → (halted s ≡ true → s.vpn_active ≡ false)
    → Retired s
    → StageInv (settle s cause)
unfolding settle
settle-Inv s cause h r =
    if_cases StageInv (halted s) (λ a. come_to_rest-Inv s (h a) r)
      (λ a.
        if_cases StageInv (restarts s) (λ b. next_attempt-Inv s a b r)
          (λ b. finish_protected_failure-Inv s cause b r))

-- Unless the attempt is handed to another `finish`, a stopped session has lost its network.
stopped_network :
    (s : Session) (all : Bool)
    → (not all && (s.stop_requested || s.closing)) ≡ false
    → halted (settle_budget (retire_attempt s all)) ≡ true
    → (settle_budget (retire_attempt s all)).vpn_active ≡ false
unfolding settle_budget retire_attempt
stopped_network s all h a = ground arith

own_generation :
    (s : Session) (k : Worker) → not (s.generation == k.generation) ≡ true → Inv s (k ∷ []) → ⊥
unfolding worker_ok
own_generation s k a v = ground (arith, v.owned)

pub commit-Inv :
    (s : Session) (k : Worker) (all : Bool) (cause failed : Option GoError)
    → k.stage ≡ Stage.committing all cause failed
    → Inv s (k ∷ [])
    → StageInv (commit s k all cause failed)
unfolding commit
commit-Inv s k all cause failed e v =
    if_cases StageInv (not (s.generation == k.generation)) (λ a. absurd (own_generation s k a v))
      (λ _.
        if_cases StageInv (is_some failed || is_cleanup (code_of cause))
          (λ _. fail_cleanup-Inv s k (join cause failed) v)
          (λ _.
            if_cases StageInv (not all && (s.stop_requested || s.closing))
              (λ h. hand_off-Inv s k cause failed (ground arith) (ground arith) v)
              (λ h.
                settle-Inv _ cause (stopped_network s all h)
                  (settle_budget-Retired s k all cause failed e v))))
