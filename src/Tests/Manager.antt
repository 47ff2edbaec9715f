-- ===== src/Tests/Manager.antt =====
-- The manager on a session with two profiles: it is configured, started, stopped and closed.
use dobby_vpn.Common.{true, false, List, [], ◌∷◌, none, some, pos, ◌≡◌, refl, arith, ◌⊎◌, is_some}
use dobby_vpn.Failure.{is_ok}
use dobby_vpn.Session.Types.{
  Session, State, StartMode, StartTarget, ConfigSourceKind, Protocol, RuntimeProfile, Worker,
  new_budget,
}
use dobby_vpn.Session.Guards.{
  can_retry, get, validate_start_target, configuration_blocked, accepts_stop, retryable_cleanup,
  primary_action, can_switch,
}
use dobby_vpn.Session.Control.{start, start_worker, fresh_session, admit_start, fresh_start}
use dobby_vpn.Session.Stop.{
  stop, check_protection, ask_platform, stop_requested_session, request_stop,
}
use dobby_vpn.Session.Configure.{Loaded}
use dobby_vpn.Session.System.{
  World, Reach, here, next, command, configure_begins, configure_accepts, starts, closes,
  new_session, new_world, after_command,
}
use dobby_vpn.Session.Invariant.Defs.{SessionInv, Inv, target_fits, worker_ok}
use dobby_vpn.Session.Safety.{Reach-Inv}
use dobby_vpn.Session.Guarantees.{
  start_after_failed_cleanup, start_exclusive, start_once, stop_progress,
}
use dobby_vpn.Session.Recovery.{ask_platform-stop}
use dobby_vpn.Session.Actions.{snapshot, auto_target, snapshot-start}

abbrev pub profile : RuntimeProfile
profile = record {
  summary = record { index = 0; protocol = Protocol.outline; description = "home" };
  payload = 7;
  exclude_cidrs = [];
}

abbrev pub loaded : Loaded
loaded = record {
  kind = ConfigSourceKind.source_raw;
  source_url = "";
  digest = "d1";
  profiles = profile ∷ profile ∷ [];
  logs_endpoint = "";
}

abbrev pub auto : StartTarget
auto = record {
  mode = StartMode.auto_select;
  index = pos 0;
  replace_current = false;
  digest = "d1";
}

abbrev pub fresh : World
fresh = new_world "s" "" ConfigSourceKind.no_source ""

abbrev after_configure : World
after_configure =
    after_command (after_command fresh (configure_begins "s" 1 none))
      (configure_accepts 1 loaded none none)

abbrev after_start : World
after_start = after_command after_configure (starts "s" 2 auto false none)

Reach-after_start : Reach fresh after_start
Reach-after_start =
    next
      (next (next here (command (configure_begins "s" 1 none) tt))
        (command (configure_accepts 1 loaded none none) (λ e. cc)))
      (command (starts "s" 2 auto false none) tt)

-- Configured and started, and then closed by StopAndWait.
Reach-Inv_example :
    Inv (after_command after_start closes).session (after_command after_start closes).workers
Reach-Inv_example =
    Reach-Inv "s" "" ConfigSourceKind.no_source "" (next Reach-after_start (command closes tt))

-- A session at rest with an accepted configuration.
abbrev pub ready : Session
ready = record (new_session "s" "" ConfigSourceKind.no_source "") {
  state = State.configured;
  configured = true;
  digest = "d1";
  source_kind = ConfigSourceKind.source_raw;
  profiles = profile ∷ profile ∷ [];
  sequence = 2;
  published =
      record {
        session_id = "s";
        generation = 0;
        network_generation = 0;
        state = State.configured;
        failure = none;
      }
      ∷ [];
}

pub ready-SessionInv : SessionInv ready
unfolding new_session
ready-SessionInv = ground arith

-- Its attempt.
abbrev pub running : Session
running = record ready {
  state = State.probing;
  generation = 1;
  network_generation = 1;
  start_origin_generation = 1;
  sequence = 3;
  cleanup_done = false;
  cancel = some 0;
  next_context = 1;
  cleanup_budget = some new_budget;
  ledger = some [];
  network_ledger = some [];
  active_profiles = profile ∷ profile ∷ [];
  active_digest = "d1";
  active_target = auto;
  published =
      record {
        session_id = "s";
        generation = 1;
        network_generation = 1;
        state = State.probing;
        failure = none;
      }
      ∷ [];
}

abbrev pub runner : Worker
runner = start_worker 0 1 auto

pub running-Inv : Inv running (runner ∷ [])
unfolding new_session worker_ok target_fits
running-Inv = record { session_ok = ground arith; owned = refl }

abbrev stuck : Session
stuck = record running { state = State.failed; cleanup_failed = true; cancel = none }

start_after_failed_cleanup_example :
    ((start stuck "s" 3 auto false none).0 ≡ stuck)
    × ((start stuck "s" 3 auto false none).2 ≡ [])
    × (is_ok (start stuck "s" 3 auto false none).1 ≡ false)
start_after_failed_cleanup_example = start_after_failed_cleanup stuck "s" 3 auto false none refl

ready-Inv : Inv ready []
unfolding new_session
ready-Inv = record { session_ok = ready-SessionInv; owned = refl }

started :
    (start ready "s" 2 auto false none).2
    ≡ start_worker 0 (fresh_session ready auto).generation auto ∷ []
unfolding new_session start get can_retry admit_start validate_start_target configuration_blocked
    fresh_start
started = refl

start_exclusive_example :
    (Path (List Worker) [] [])
    × (Path (List Worker) [] [])
    × (ready.cleanup_failed ≡ false)
    × (ready.ledger ≡ none)
    × ((ready.network_ledger ≡ none) ⊎ (can_retry ready ≡ true))
start_exclusive_example =
    start_exclusive ready [] "s" 2 auto false none
      (start_worker 0 (fresh_session ready auto).generation auto) [] ready-Inv started

accepted : is_ok (start ready "s" 2 auto false none).1 ≡ true
unfolding new_session start get can_retry admit_start validate_start_target configuration_blocked
    fresh_start
accepted = refl

start_once_example :
    let t = (start ready "s" 2 auto false none).0 in
    ((start t "" 2 auto true none).0 ≡ t) × (is_ok (start t "" 2 auto true none).1 ≡ false)
start_once_example =
    start_once ready "s" "" 2 auto auto false true none none (unfold new_session in omega arith)
      accepted

stop_accepted : is_ok (stop running "s" 1 none).1 ≡ true
unfolding new_session stop get accepts_stop stop_requested_session retryable_cleanup request_stop
stop_accepted = refl

stop_progress_example :
    let t = (stop running "s" 1 none).0 in
    (t.stop_requested ≡ true)
    × (t.pending ≡ none)
    × ((t.state ≡ State.stopping)
        ⊎ ((t.cleanup_done ≡ true)
            × (t.vpn_active ≡ false)
            × (t.network_ledger ≡ none)
            × (t.ledger ≡ none)))
stop_progress_example = stop_progress running (runner ∷ []) "s" 1 running-Inv stop_accepted

ask_platform-stop_example :
    let t = (stop running "s" 1 none).0 in
    let r =
      ask_platform (λ id generation fd. none) false (pos 7) (check_protection t "s" 1 (pos 7)) in
    (r.0 ≡ none) × (is_some r.1 ≡ true)
ask_platform-stop_example =
    ask_platform-stop running (runner ∷ []) "s" "s" 1 1 (pos 7) false (λ id generation fd. none)
      running-Inv stop_accepted

snapshot-start_example :
    is_ok (start ready "" (snapshot ready).sequence (auto_target (snapshot ready)) false none).1
    ≡ true
snapshot-start_example =
    snapshot-start ready ready-SessionInv
      (unfold new_session snapshot primary_action can_switch can_retry retryable_cleanup
          configuration_blocked in
        refl)
      refl (unfold new_session in refl) (unfold new_session get in refl)
