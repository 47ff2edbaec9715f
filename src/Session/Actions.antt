-- ===== src/Session/Actions.antt =====
-- core/sessionapi/api.go: Snapshot, and whether the action that it offers is one that the manager
-- accepts.
use dobby_vpn.Common.{
  ℕ, Bool, true, false, List, Option, none, some, ◌≡◌, refl, String, ℤ, pos, negsuc, int_eq, arith,
  not, ◌≢◌,
}
use dobby_vpn.Failure.{FailureCode, is_ok}
use text.Mathlib.TextEquality.{eq_iff}
use text.Mathlib.TextPositions.{eq_refl}
use dobby_vpn.Session.Types.{
  Session, State, StartMode, StartTarget, ProfileSummary, PendingStart, ConfigSourceKind, summaries,
  mode_eq,
}
use dobby_vpn.Session.Guards.{
  PrimaryAction, primary_action, can_retry, can_switch, configuration_blocked, get, is_empty,
  accepts_stop, validate_start_target, retryable_cleanup,
}
use dobby_vpn.Session.Control.{start, admit_start, fresh_start, retry_locked, retry_mismatch}
use dobby_vpn.Session.Stop.{stop, stop_requested_session, acknowledge_stopped, request_stop}
use dobby_vpn.Session.Invariant.Defs.{SessionInv}

pub record Selection : Type 0 where
  pub digest : String
  pub mode : StartMode
  pub index : ℤ

pub record Snapshot : Type 0 where
  pub session_id : String
  pub sequence : ℕ
  pub generation : ℕ
  pub network_generation : ℕ
  pub vpn_active : Bool
  pub can_retry : Bool
  pub state : State
  pub configured : Bool
  pub logs_upload_available : Bool
  pub digest : String
  pub source_kind : ConfigSourceKind
  pub source_url : String
  pub source_error : String
  pub profiles : List ProfileSummary
  pub active_digest : String
  pub active_mode : StartMode
  pub active_index : ℤ
  pub pending_target : Option Selection
  pub can_switch : Bool
  pub active_profile : Option ProfileSummary
  pub last_failure : Option FailureCode
  pub last_failure_message : String
  pub cleanup_complete : Bool
  pub recovering : Bool
  pub primary_action : PrimaryAction

abbrev selection_of : Option PendingStart → Option Selection
selection_of none = none
selection_of (some p) =
    some (record { digest = p.digest; mode = p.target.mode; index = p.target.index })

-- snapshotLocked.
unfoldable pub snapshot : Session → Snapshot
snapshot s = record {
  session_id = s.id;
  sequence = s.sequence;
  generation = s.generation;
  network_generation = s.network_generation;
  vpn_active = s.vpn_active;
  can_retry = can_retry s;
  state = s.state;
  configured = s.configured;
  logs_upload_available = not (is_empty s.logs_endpoint);
  digest = s.digest;
  source_kind = s.source_kind;
  source_url = s.source_url;
  source_error = s.source_error;
  profiles = summaries s.profiles;
  active_digest = s.active_digest;
  active_mode = s.active_target.mode;
  active_index = s.active_target.index;
  pending_target = selection_of s.pending;
  can_switch = can_switch s;
  active_profile = s.active;
  last_failure = s.last_failure;
  last_failure_message = s.last_failure_message;
  cleanup_complete = s.cleanup_done;
  recovering = s.recovering;
  primary_action = primary_action s;
}

-- The Start of everything that a snapshot lists, and the Start of the selection that it shows.
abbrev pub auto_target : Snapshot → StartTarget
auto_target n = record {
  mode = StartMode.auto_select;
  index = pos 0;
  replace_current = false;
  digest = n.digest;
}

abbrev pub shown_target : Snapshot → StartTarget
shown_target n = record {
  mode = n.active_mode;
  index = n.active_index;
  replace_current = false;
  digest = n.active_digest;
}

-- In a session that satisfies the invariant, is configured, is not shutting down and has an ID:
-- where its snapshot offers START, an AUTO_SELECT Start with the snapshot's revision and digest is
-- accepted, if the selection can be saved.
pub snapshot-start :
    (s : Session)
    → SessionInv s
    → (snapshot s).primary_action ≡ PrimaryAction.start
    → s.configured ≡ true
    → s.closing ≡ false
    → get s "" ≡ none
    → is_ok (start s "" (snapshot s).sequence (auto_target (snapshot s)) false none).1 ≡ true
unfolding snapshot primary_action start admit_start fresh_start configuration_blocked
    validate_start_target
snapshot-start s v a c o g = ground (arith, v, eq_iff s.digest s.digest)

mode_eq_refl : (m : StartMode) → mode_eq m m ≡ true
mode_eq_refl StartMode.auto_select = refl
mode_eq_refl StartMode.profile_index = refl
mode_eq_refl (StartMode.other_mode t) = eq_refl t

int_eq_refl : (i : ℤ) → int_eq i i ≡ true
int_eq_refl (pos n) = ground arith
int_eq_refl (negsuc n) = ground arith

shown-match : (s : Session) → retry_mismatch s (shown_target (snapshot s)) false ≡ false
unfolding retry_mismatch snapshot
shown-match s = ground (
  arith,
  mode_eq_refl s.active_target.mode,
  int_eq_refl s.active_target.index,
  eq_iff s.active_digest s.active_digest,
)

-- In a session that satisfies the invariant, is configured and has an ID: where its snapshot
-- offers RETRY, a Start of the selection that it shows, with its revision, is accepted.
pub snapshot-retry :
    (s : Session)
    → SessionInv s
    → (snapshot s).primary_action ≡ PrimaryAction.retry
    → s.configured ≡ true
    → get s "" ≡ none
    → is_ok (start s "" (snapshot s).sequence (shown_target (snapshot s)) false none).1 ≡ true
unfolding snapshot primary_action start retry_locked
snapshot-retry s v a c g = ground (arith, v, shown-match s)

-- In a session that satisfies the invariant, has an ID and a generation that is not 0: where its
-- snapshot offers STOP, a Stop of its generation is accepted, if the store saves the intent.
pub snapshot-stop :
    (s : Session)
    → SessionInv s
    → (snapshot s).primary_action ≡ PrimaryAction.stop
    → s.generation ≢ 0
    → get s "" ≡ none
    → is_ok (stop s "" (snapshot s).generation none).1 ≡ true
unfolding snapshot primary_action stop stop_requested_session acknowledge_stopped request_stop
    accepts_stop retryable_cleanup
snapshot-stop s v a g e = ground (arith, v)
