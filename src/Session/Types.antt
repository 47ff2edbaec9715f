-- ===== src/Session/Types.antt =====
-- core/sessionapi/api.go: the session's data. What a goroutine or a context is to the Go runtime
-- is a value here: a `Worker` with the stage it has reached, and the number of a context.
use dobby_vpn.Common.{
  ℕ, ◌+◌, Bool, true, false, List, [], ◌∷◌, Option, none, some, String, ℤ, pos, u64, contains,
}
use dobby_vpn.Failure.{FailureCode, GoError, context_canceled}
use text.Mathlib.Text.{◌==◌ as str_eq}

pub data Protocol : Type 0 where
  outline xray trust_tunnel : Protocol

pub data State : Type 0 where
  idle configured probing preparing connected stopping failed : State

-- `other_mode ""` is the zero StartMode.
pub data StartMode : Type 0 where
  auto_select profile_index : StartMode
  other_mode : String → StartMode

abbrev pub mode_eq : StartMode → StartMode → Bool
mode_eq StartMode.auto_select StartMode.auto_select = true
mode_eq StartMode.profile_index StartMode.profile_index = true
mode_eq (StartMode.other_mode a) (StartMode.other_mode b) = str_eq a b
mode_eq _ _ = false

pub data ConfigSourceKind : Type 0 where
  no_source source_url source_file source_raw : ConfigSourceKind

pub record ProfileSummary : Type 0 where
  pub index : ℕ
  pub protocol : Protocol
  pub description : String

-- The accepted protocol payload is opaque to the session; `payload` numbers it.
pub record RuntimeProfile : Type 0 where
  pub summary : ProfileSummary
  pub payload : ℕ
  pub exclude_cidrs : List String

pub record StartTarget : Type 0 where
  pub mode : StartMode
  pub index : ℤ
  pub replace_current : Bool
  pub digest : String

abbrev pub empty_target : StartTarget
empty_target = record {
  mode = StartMode.other_mode "";
  index = pos 0;
  replace_current = false;
  digest = "";
}

pub record PendingStart : Type 0 where
  pub target : StartTarget
  pub profiles : List RuntimeProfile
  pub digest : String

-- The result of Start and of Stop.
pub record StartResult : Type 0 where
  pub generation : ℕ
  pub sequence : ℕ

pub record StateChange : Type 0 where
  pub session_id : String
  pub generation : ℕ
  pub network_generation : ℕ
  pub state : State
  pub failure : Option FailureCode

-- The functions that a ledger owes a call.
pub data Closer : Type 0 where
  platform_lease network_lease runtime_lease : ℕ → Closer

-- Whether the one deadline of a cleanup budget has begun, and whether it was canceled.
pub record Budget : Type 0 where
  pub begun : Bool
  pub finished : Bool

abbrev pub new_budget : Budget
new_budget = record { begun = false; finished = false }

-- How far a goroutine of `runStart` or `finish` has come. Between two stages the session's lock is
-- free and any other step may happen.
pub data Stage : Type 0 where
  preparing_network activating activated : Stage
  candidate : ℕ → List RuntimeProfile → Stage
  advancing starting : ℕ → RuntimeProfile → List RuntimeProfile → Stage
  judging : ℕ → RuntimeProfile → List RuntimeProfile → Option ℕ → Option GoError → Stage
  connecting : RuntimeProfile → Stage
  waiting : Stage
  rolling_back rolled_back : ℕ → List RuntimeProfile → Bool → Option GoError → Stage
  finishing retiring : Option GoError → Stage
  retired : Option GoError → Option GoError → Stage
  releasing committing : Bool → Option GoError → Option GoError → Stage

pub record Worker : Type 0 where
  pub context : ℕ
  pub generation : ℕ
  pub target : StartTarget
  pub errors : Option GoError
  pub stage : Stage

-- The struct `session`. A ledger is its closers, the newest first. `cancel` names the context that
-- the CancelFunc cancels. `canceled` and `next_context` stand for the contexts created so far, and
-- `published` (the newest first) for the calls of PublishState. The channel `changed` is closed
-- exactly where `sequence` moves, and `lastTransitionAt` is read by a log line only.
pub record Session : Type 0 where
  pub closing : Bool
  pub cleanup_budget : Option Budget
  pub network_generation : ℕ
  pub network_ledger : Option (List Closer)
  pub vpn_active : Bool
  pub stop_requested : Bool
  pub start_origin_generation : ℕ
  pub id : String
  pub state : State
  pub generation : ℕ
  pub configured : Bool
  pub logs_endpoint : String
  pub digest : String
  pub source_kind : ConfigSourceKind
  pub source_url : String
  pub source_error : String
  pub profiles : List RuntimeProfile
  pub switch_origin_generation : ℕ
  pub configure_request : ℕ
  pub active_profiles : List RuntimeProfile
  pub active_digest : String
  pub pending : Option PendingStart
  pub active : Option ProfileSummary
  pub last_failure : Option FailureCode
  pub last_failure_message : String
  pub cleanup_done : Bool
  pub cleanup_failed : Bool
  pub cancel : Option ℕ
  pub ledger : Option (List Closer)
  pub active_target : StartTarget
  pub restart_after_cleanup : Bool
  pub failure_after_cleanup : Option FailureCode
  pub failure_message_after_cleanup : String
  pub recovering : Bool
  pub recovery_origin_generation : ℕ
  pub recovery_count : ℕ
  pub last_connected_at : ℕ
  pub has_connected_at : Bool
  pub sequence : ℕ
  pub canceled : List ℕ
  pub next_context : ℕ
  pub published : List StateChange

-- ctx.Err() of an attempt's context.
abbrev pub context_error : Session → ℕ → Option GoError
context_error s c = elim (contains c s.canceled) [ true ↦ some context_canceled | false ↦ none ]

abbrev pub change_of : Session → StateChange
change_of s = record {
  session_id = s.id;
  generation = s.generation;
  network_generation = s.network_generation;
  state = s.state;
  failure = s.last_failure;
}

-- appendLocked: a new revision, published.
unfoldable pub append_locked : Session → Session
append_locked s = record s {
  sequence = u64 (s.sequence + 1);
  published = change_of s ∷ s.published;
}

abbrev pub summaries : List RuntimeProfile → List ProfileSummary
summaries [] = []
summaries (p ∷ ps) = p.summary ∷ summaries ps

-- cancel(), if it is not nil.
abbrev pub cancel_list : Option ℕ → List ℕ → List ℕ
cancel_list none l = l
cancel_list (some c) l = c ∷ l

-- cleanupBudget.begin() and .finish(); both leave a nil budget nil.
abbrev pub begin_budget : Option Budget → Option Budget
begin_budget none = none
begin_budget (some b) = some (record b { begun = true })

abbrev pub finish_budget : Option Budget → Option Budget
finish_budget none = none
finish_budget (some b) = some (record b { finished = b.begun })
