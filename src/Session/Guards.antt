-- ===== src/Session/Guards.antt =====
-- core/sessionapi/api.go: the tests by which the session's commands are admitted.
use dobby_vpn.Common.{
  ℕ, Bool, true, false, not, ◌&&◌, ◌||◌, Option, none, some, String, ℤ, pos, negsuc, ◌==◌, ltb,
  length, is_some, if◌then◌else◌,
}
use dobby_vpn.Failure.{FailureCode, GoError, domain, domain_with}
use text.Mathlib.Text.{◌==◌ as str_eq}
use dobby_vpn.Session.Types.{Session, State, StartMode, StartTarget}

abbrev pub is_connected : State → Bool
is_connected State.connected = true
is_connected _ = false

abbrev pub is_failed : State → Bool
is_failed State.failed = true
is_failed _ = false

abbrev pub is_stopping : State → Bool
is_stopping State.stopping = true
is_stopping _ = false

abbrev pub is_configured : State → Bool
is_configured State.configured = true
is_configured _ = false

-- attemptActive.
abbrev pub attempt_active : State → Bool
attempt_active State.idle = false
attempt_active State.configured = false
attempt_active State.failed = false
attempt_active _ = true

-- An attempt that no stop has reached yet.
abbrev pub acquiring : State → Bool
acquiring State.probing = true
acquiring State.preparing = true
acquiring State.connected = true
acquiring _ = false

abbrev pub is_profile_index : StartMode → Bool
is_profile_index StartMode.profile_index = true
is_profile_index _ = false

abbrev pub is_auto_select : StartMode → Bool
is_auto_select StartMode.auto_select = true
is_auto_select _ = false

abbrev pub is_empty : String → Bool
is_empty t = str_eq t ""

unfoldable pub can_switch : Session → Bool
can_switch s =
    not s.closing
    && is_connected s.state
    && not s.recovering
    && not (is_some s.pending)
    && not s.cleanup_failed

unfoldable pub can_retry : Session → Bool
can_retry s =
    not s.closing
    && is_failed s.state
    && s.vpn_active
    && not s.cleanup_failed
    && not (is_some s.ledger)

unfoldable pub configuration_blocked : Session → Bool
configuration_blocked s =
    s.closing
    || is_some s.pending
    || attempt_active s.state
    || s.recovering
    || not s.cleanup_done
    || s.cleanup_failed

unfoldable pub retryable_cleanup : Session → Bool
retryable_cleanup s =
    is_failed s.state && s.cleanup_failed && (is_some s.ledger || is_some s.network_ledger)

unfoldable pub accepts_stop : Session → ℕ → Bool
accepts_stop s generation =
    not (generation == 0)
    && (generation == s.generation
        || (s.recovering && generation == s.recovery_origin_generation)
        || generation == s.switch_origin_generation
        || generation == s.start_origin_generation)

-- 0 ≤ index < n, on a Go int.
abbrev pub in_range : ℤ → ℕ → Bool
in_range (pos i) n = ltb i n
in_range (negsuc i) n = false

abbrev check_digest : Session → StartTarget → Option GoError
check_digest s target =
    if not (is_empty target.digest) && not (str_eq target.digest s.digest)
    then some (domain FailureCode.conflict "profile inventory changed; refresh its snapshot")
    else none

abbrev check_mode : StartMode → Session → StartTarget → Option GoError
check_mode (StartMode.other_mode m) s target =
    some (domain FailureCode.invalid_argument "start mode must be AUTO_SELECT or PROFILE_INDEX")
check_mode StartMode.auto_select s target = check_digest s target
check_mode StartMode.profile_index s target =
    if not (in_range target.index (length s.profiles))
    then some (domain FailureCode.invalid_argument "profile index is out of range")
    else check_digest s target

unfoldable pub validate_start_target : Session → StartTarget → Option GoError
validate_start_target s target = check_mode target.mode s target

unfoldable pub validate_configure_before_load : Option GoError → Session → ℕ → Option GoError
validate_configure_before_load context s expected =
    if not (s.sequence == expected)
    then some
        (domain FailureCode.conflict "session changed; refresh its snapshot before configuring")
    else if s.cleanup_failed || (s.closing && not s.cleanup_done)
    then some (domain FailureCode.conflict "session is shutting down or cleanup has failed")
    else elim context [
      | none ↦ none
      | some e ↦
          some (domain_with FailureCode.canceled "configuration was canceled before loading" e)
    ]

abbrev closed_to_configure : Session → Option GoError
closed_to_configure s =
    if s.cleanup_failed || (s.closing && not s.cleanup_done)
    then some (domain FailureCode.conflict "session is shutting down or cleanup has failed")
    else none

unfoldable pub validate_configure_before_accept : Option GoError → Session → ℕ → Option GoError
validate_configure_before_accept context s request =
    if not (s.configure_request == request)
    then some (domain FailureCode.conflict "configuration request was superseded")
    else elim context [
      | none ↦ closed_to_configure s
      | some e ↦
          some
            (domain_with FailureCode.canceled "configuration was canceled before it was accepted" e)
    ]

-- Manager.get; the cause of the first error, Manager.initErr, is left off.
unfoldable pub get : Session → String → Option GoError
get s id =
    if is_empty s.id
    then some (domain FailureCode.internal "could not allocate a session ID")
    else if not (is_empty id) && not (str_eq id s.id)
    then some (domain FailureCode.not_found "session owner has restarted")
    else none

pub data PrimaryAction : Type 0 where
  retry stop start no_action : PrimaryAction

unfoldable pub primary_action : Session → PrimaryAction
unfolding can_retry
primary_action s =
    if can_retry s
    then PrimaryAction.retry
    else if is_failed s.state && s.cleanup_failed
    then PrimaryAction.stop
    else if is_some s.pending
    then PrimaryAction.stop
    else if acquiring s.state || s.recovering
    then PrimaryAction.stop
    else if not (is_stopping s.state) && s.cleanup_done && not s.cleanup_failed
    then PrimaryAction.start
    else PrimaryAction.no_action
