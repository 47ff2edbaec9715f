-- ===== src/Session/Safety.antt =====
-- What holds of every state that the manager reaches, whatever the clients, the runtime and the
-- platform do and in whatever order the goroutines run.
use dobby_vpn.Common.{Bool, true, false, List, [], ◌∷◌, ◌++◌, ◌≡◌, refl, String, arith}
use dobby_vpn.Session.Types.{Session, Worker, Stage, ConfigSourceKind}
use dobby_vpn.Session.Guards.{attempt_active}
use dobby_vpn.Session.Attempt.{Environment}
use dobby_vpn.Session.System.{
  World, Step, command, work, Reach, here, next, run_stage, after_stage, new_world,
}
use dobby_vpn.Session.Invariant.Defs.{Inv, owners_ok, owns}
use dobby_vpn.Session.Invariant.Commands.{run_command-Inv}
use dobby_vpn.Session.Invariant.Stages.{
  StageInv, prepare_network-Inv, activate-Inv, begin_candidates-Inv, next_candidate-Inv,
  advance_attempt-Inv, start_runtime-Inv, judge-Inv, roll_back-Inv, after_roll_back-Inv,
  connect-Inv, wait_for_end-Inv,
}
use dobby_vpn.Session.Invariant.Endings.{
  enter_finish-Inv, retire-Inv, decide_network-Inv, release_network-Inv, commit-Inv,
}

run_stage-Inv :
    (g : Stage) (s : Session) (k : Worker) (env : Environment)
    → k.stage ≡ g
    → Inv s (k ∷ [])
    → StageInv (run_stage g s k env)
unfolding run_stage
run_stage-Inv Stage.preparing_network s k env e v = prepare_network-Inv s k env e v
run_stage-Inv Stage.activating s k env e v = activate-Inv s k e v
run_stage-Inv Stage.activated s k env e v = begin_candidates-Inv s k e v
run_stage-Inv (Stage.candidate index rest) s k env e v = next_candidate-Inv s k index rest e v
run_stage-Inv (Stage.advancing index p rest) s k env e v =
    advance_attempt-Inv s k env index p rest e v
run_stage-Inv (Stage.starting index p rest) s k env e v = start_runtime-Inv s k env index p rest e v
run_stage-Inv (Stage.judging index p rest lease x) s k env e v =
    judge-Inv s k env index p rest lease x e v
run_stage-Inv (Stage.connecting p) s k env e v = connect-Inv s k env p e v
run_stage-Inv Stage.waiting s k env e v = wait_for_end-Inv s k env e v
run_stage-Inv (Stage.rolling_back index rest invalid x) s k env e v =
    roll_back-Inv s k env index rest invalid x e v
run_stage-Inv (Stage.rolled_back index rest invalid x) s k env e v =
    after_roll_back-Inv s k index rest invalid x e v
run_stage-Inv (Stage.finishing cause) s k env e v = enter_finish-Inv s k cause e v
run_stage-Inv (Stage.retiring cause) s k env e v = retire-Inv s k env cause e v
run_stage-Inv (Stage.retired cause failed) s k env e v = decide_network-Inv s k cause failed e v
run_stage-Inv (Stage.releasing all cause failed) s k env e v =
    release_network-Inv s k env all cause failed e v
run_stage-Inv (Stage.committing all cause failed) s k env e v = commit-Inv s k all cause failed e v

-- The goroutine that moves is the only one.
alone :
    (owner : Worker → Bool) (b : Bool) (before later : List Worker) (k : Worker)
    → owners_ok b owner (before ++ (k ∷ later)) ≡ true
    → (before ≡ []) × (later ≡ []) × (b ≡ true)
alone owner true [] [] k h = (refl, refl, refl)
alone owner false [] [] k h = cc
alone owner true [] (x ∷ later) k h = cc
alone owner false [] (x ∷ later) k h = cc
alone owner true (x ∷ []) later k h = cc
alone owner false (x ∷ []) later k h = cc
alone owner true (x ∷ y ∷ before) later k h = cc
alone owner false (x ∷ y ∷ before) later k h = cc

append-nil : (ws : List Worker) → ws ++ [] ≡ ws
append-nil [] = refl
append-nil (k ∷ ws) = rw (append-nil ws)

work-Inv :
    (s : Session) (ws before later : List Worker) (k : Worker) (env : Environment)
    → ws ≡ before ++ (k ∷ later)
    → Inv s ws
    → Inv (after_stage s before k later env).session (after_stage s before k later env).workers
work-Inv s ws before later k env e v =
    let h = alone (owns s) (attempt_active s.state) before later k (rw e at v.owned) in
    let single : ws ≡ k ∷ [] = rw (e, h.0, h.1) refl in
    rw (h.0, h.1, append-nil (run_stage k.stage s k env).1)
      (run_stage-Inv k.stage s k env refl (rw single at v))

-- Every step, of a client, of the platform or of a goroutine, keeps the invariant.
pub Step-Inv : {u w : World} → Step u w → Inv u.session u.workers → Inv w.session w.workers
Step-Inv {u} (command c h) v = run_command-Inv c u.session u.workers h v
Step-Inv (work {s} {ws} before later k env e) v = work-Inv s ws before later k env e v

pub new_world-Inv :
    (id url : String) (kind : ConfigSourceKind) (source_error : String)
    → Inv (new_world id url kind source_error).session (new_world id url kind source_error).workers
unfolding new_world
new_world-Inv id url kind source_error = record { session_ok = ground arith; owned = refl }

Reach-from-Inv : {u w : World} → Reach u w → Inv u.session u.workers → Inv w.session w.workers
Reach-from-Inv here v = v
Reach-from-Inv (next r st) v = Step-Inv st (Reach-from-Inv r v)

-- Every state that a new manager reaches satisfies the invariant.
pub Reach-Inv :
    (id url : String) (kind : ConfigSourceKind) (source_error : String) {w : World}
    → Reach (new_world id url kind source_error) w
    → Inv w.session w.workers
Reach-Inv id url kind source_error r = Reach-from-Inv r (new_world-Inv id url kind source_error)
