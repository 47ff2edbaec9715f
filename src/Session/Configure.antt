-- ===== src/Session/Configure.antt =====
-- core/sessionapi/api.go: Configure, in the two parts that hold the session's lock, and
-- AttachSourceStore. What stands between them, loading and parsing, is an argument.
use dobby_vpn.Common.{
  ℕ, ◌+◌, true, not, ◌&&◌, List, [], Option, none, some, String, u64, is_some, if◌then◌else◌,
}
use dobby_vpn.Failure.{FailureCode, GoError, Result, ok, err, domain_with}
use dobby_vpn.Session.Types.{
  Session, State, ConfigSourceKind, RuntimeProfile, ProfileSummary, append_locked, summaries,
  empty_target,
}
use dobby_vpn.Session.Guards.{
  get, is_empty, validate_configure_before_load, validate_configure_before_accept,
}

-- LoadedConfig and parsedConfig, as loadConfig returns them.
pub record Loaded : Type 0 where
  pub kind : ConfigSourceKind
  pub source_url : String
  pub digest : String
  pub profiles : List RuntimeProfile
  pub logs_endpoint : String

pub record ConfigureResult : Type 0 where
  pub digest : String
  pub sequence : ℕ
  pub profiles : List ProfileSummary
  pub source_kind : ConfigSourceKind

-- The first part: the checks, and the number of the request.
unfoldable pub begin_configure : Session → String → ℕ → Option GoError → Session × Result ℕ
begin_configure s id expected context = elim (get s id) [
  | some e ↦ (s, err e)
  | none ↦ elim (validate_configure_before_load context s expected) [
    | some e ↦ (s, err e)
    | none ↦ (
      record s { configure_request = u64 (s.configure_request + 1) },
      ok (u64 (s.configure_request + 1)),
    )
  ]
]

abbrev save_message : ConfigSourceKind → String
save_message ConfigSourceKind.source_url = "accepted configuration URL could not be saved"
save_message _ = "saved configuration URL could not be cleared"

-- The accepted configuration takes the place of the loaded one.
unfoldable pub store_configuration : Session → Loaded → Session
store_configuration s l = record s {
  profiles = l.profiles;
  digest = l.digest;
  source_kind = l.kind;
  source_url = l.source_url;
  configured = true;
  logs_endpoint = l.logs_endpoint;
  source_error = "";
}

-- An inactive session forgets its last attempt.
unfoldable pub reset_attempt : Session → Session
reset_attempt s =
    if s.cleanup_done && not s.cleanup_failed && not s.recovering && not (is_some s.pending)
    then record s {
      active = none;
      last_failure = none;
      last_failure_message = "";
      state = State.configured;
      active_digest = "";
      active_profiles = [];
      active_target = empty_target;
      recovery_origin_generation = 0;
      recovery_count = 0;
    }
    else s

abbrev pub configure_result : Session → ConfigureResult
configure_result s = record {
  digest = s.digest;
  sequence = s.sequence;
  profiles = summaries s.profiles;
  source_kind = s.source_kind;
}

unfoldable pub accept_locked : Session → Loaded → Session
unfolding store_configuration reset_attempt append_locked
accept_locked s l = append_locked (reset_attempt (store_configuration s l))

abbrev pub store_accepted : Session → Loaded → Option GoError → Session × Result ConfigureResult
store_accepted s l (some e) = (s, err (domain_with FailureCode.platform (save_message l.kind) e))
store_accepted s l none = (accept_locked s l, ok (configure_result (accept_locked s l)))

-- The second part. `saved` is the answer of the source store, if there is one: of Save for a URL
-- and of Clear otherwise. retainPolicy only logs.
unfoldable pub accept_configure :
    Session → ℕ → Loaded → Option GoError → Option GoError → Session × Result ConfigureResult
accept_configure s request l context saved =
    elim (validate_configure_before_accept context s request) [
      | some e ↦ (s, err e)
      | none ↦ store_accepted s l saved
    ]

abbrev kind_of_url : String → ConfigSourceKind → ConfigSourceKind
kind_of_url url k = if is_empty url then k else ConfigSourceKind.source_url

-- AttachSourceStore once the store has answered; `saved` is the trimmed text that it holds.
unfoldable pub attach_source_store : Session → Result (Option String) → Session
unfolding append_locked
attach_source_store s (err e) =
    append_locked (record s { source_error = "saved configuration URL could not be read" })
attach_source_store s (ok none) = append_locked s
attach_source_store s (ok (some saved)) = append_locked (
    if not s.configured && is_empty s.source_url
    then record s {
      source_url = saved;
      source_kind = kind_of_url saved s.source_kind;
      source_error = "";
    }
    else s)
