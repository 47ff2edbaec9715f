-- ===== src/Session/System.antt =====
-- core/sessionapi: the manager as a transition system. A step is a command, which holds the
-- session's lock throughout, or one stage of one of the goroutines that are running.
use dobby_vpn.Common.{ℕ, Bool, List, [], ◌∷◌, ◌++◌, Option, none, String, ◌≡◌, true, false}
use dobby_vpn.Failure.{GoError, Result}
use dobby_vpn.Session.Types.{
  Session, State, StartTarget, ConfigSourceKind, Worker, Stage, empty_target,
}
use dobby_vpn.Session.Configure.{Loaded, begin_configure, accept_configure, attach_source_store}
use dobby_vpn.Session.Control.{start}
use dobby_vpn.Session.Stop.{stop, fence, resume, cleanup_context}
use dobby_vpn.Session.Attempt.{Environment, prepare_network, activate, begin_candidates}
use dobby_vpn.Session.Candidate.{
  next_candidate, advance_attempt, start_runtime, judge, roll_back, after_roll_back, connect,
}
use dobby_vpn.Session.Health.{wait_for_end}
use dobby_vpn.Session.Finish.{enter_finish, retire, decide_network, release_network, commit}

-- NewManager, for a session ID and the URL that the source store held.
unfoldable pub new_session : String → String → ConfigSourceKind → String → Session
new_session id url kind source_error = record {
  closing = false;
  cleanup_budget = none;
  network_generation = 0;
  network_ledger = none;
  vpn_active = false;
  stop_requested = false;
  start_origin_generation = 0;
  id = id;
  state = State.idle;
  generation = 0;
  configured = false;
  logs_endpoint = "";
  digest = "";
  source_kind = kind;
  source_url = url;
  source_error = source_error;
  profiles = [];
  switch_origin_generation = 0;
  configure_request = 0;
  active_profiles = [];
  active_digest = "";
  pending = none;
  active = none;
  last_failure = none;
  last_failure_message = "";
  cleanup_done = true;
  cleanup_failed = false;
  cancel = none;
  ledger = none;
  active_target = empty_target;
  restart_after_cleanup = false;
  failure_after_cleanup = none;
  failure_message_after_cleanup = "";
  recovering = false;
  recovery_origin_generation = 0;
  recovery_count = 0;
  last_connected_at = 0;
  has_connected_at = false;
  sequence = 1;
  canceled = [];
  next_context = 0;
  published = [];
}

-- One stage of a goroutine: the session, and the goroutines that go on in its place.
unfoldable pub run_stage : Stage → Session → Worker → Environment → Session × List Worker
run_stage Stage.preparing_network s k env = prepare_network s k env
run_stage Stage.activating s k env = activate s k
run_stage Stage.activated s k env = begin_candidates s k
run_stage (Stage.candidate index rest) s k env = next_candidate s k index rest
run_stage (Stage.advancing index p rest) s k env = advance_attempt s k env index p rest
run_stage (Stage.starting index p rest) s k env = start_runtime s k env index p rest
run_stage (Stage.judging index p rest lease e) s k env = judge s k env index p rest lease e
run_stage (Stage.connecting p) s k env = connect s k env p
run_stage Stage.waiting s k env = wait_for_end s k env
run_stage (Stage.rolling_back index rest invalid e) s k env = roll_back s k env index rest invalid e
run_stage (Stage.rolled_back index rest invalid e) s k env =
    after_roll_back s k index rest invalid e
run_stage (Stage.finishing cause) s k env = enter_finish s k cause
run_stage (Stage.retiring cause) s k env = retire s k env cause
run_stage (Stage.retired cause failed) s k env = decide_network s k cause failed
run_stage (Stage.releasing all cause failed) s k env = release_network s k env all cause failed
run_stage (Stage.committing all cause failed) s k env = commit s k all cause failed

pub data Command : Type 0 where
  configure_begins : String → ℕ → Option GoError → Command
  configure_accepts : ℕ → Loaded → Option GoError → Option GoError → Command
  source_store_attached : Result (Option String) → Command
  starts : String → ℕ → StartTarget → Bool → Option GoError → Command
  stops : String → ℕ → Option GoError → Command
  closes cleanup_waits resumes : Command

unfoldable pub run_command : Command → Session → Session × List Worker
run_command (configure_begins id expected context) s =
    ((begin_configure s id expected context).0, [])
run_command (configure_accepts request l context saved) s =
    ((accept_configure s request l context saved).0, [])
run_command (source_store_attached r) s = (attach_source_store s r, [])
run_command (starts id expected target supplied activation) s =
    let r = start s id expected target supplied activation in (r.0, r.2)
run_command (stops id generation persisted) s = let r = stop s id generation persisted in (r.0, r.2)
run_command closes s = fence s
run_command cleanup_waits s = (cleanup_context s, [])
run_command resumes s = ((resume s).0, [])

pub record World : Type 0 where
  pub session : Session
  pub workers : List Worker

abbrev pub after_command : World → Command → World
after_command w c =
    let r = run_command c w.session in record { session = r.0; workers = r.1 ++ w.workers }

abbrev pub after_stage : Session → List Worker → Worker → List Worker → Environment → World
after_stage s before k later env =
    let r = run_stage k.stage s k env in
    record { session = r.0; workers = before ++ (r.1 ++ later) }

-- A loader never hands out an empty inventory (parseConfig refuses it).
abbrev pub IsLoadable : Command → Type 0
IsLoadable (configure_accepts request l context saved) = (l.profiles ≡ [] → ⊥)
IsLoadable _ = Unit {0}

pub data Step : World → World → Type 0 where
  command : {w : World} (c : Command) → IsLoadable c → Step w (after_command w c)
  work :
      {s : Session} {ws : List Worker} (before later : List Worker) (k : Worker) (env : Environment)
      → ws ≡ before ++ (k ∷ later)
      → Step (record { session = s; workers = ws }) (after_stage s before k later env)

pub data Reach (w : World) : World → Type 0 where
  here : Reach w w
  next : {u v : World} → Reach w u → Step u v → Reach w v

-- A backend with nothing running.
unfoldable pub new_world : String → String → ConfigSourceKind → String → World
unfolding new_session
new_world id url kind source_error = record {
  session = new_session id url kind source_error;
  workers = [];
}
