-- ===== src/Failure.antt =====
-- core/sessionapi/api.go: failure codes, the error values of the session API, and how a caller
-- classifies an error chain (CodeOf, wrapFailure, safeConfigError).
pub mod Classification
use Prim.Native.String.{◌++◌ as text_append}
use dobby_vpn.Common.{
  ℕ, String, Bool, true, false, ◌||◌, List, [], ◌∷◌, Option, none, some, if◌then◌else◌, ◌≡◌, ◌⊎◌,
  inl, inr, refl,
}

pub data FailureCode : Type 0 where
  invalid_argument not_found conflict not_configured stale_generation : FailureCode
  unsupported malformed_config probe platform runtime canceled internal cleanup : FailureCode

-- An `error` value. `errors.Join` nests to the right: its depth-first walk is that of the flat
-- list. `foreign` is an error of other code, and `formatted` an `fmt.Errorf` with `%w` at its end.
pub data GoError : Type 0 where
  context_canceled context_deadline : GoError
  foreign : String → GoError
  domain : FailureCode → String → GoError
  domain_with : FailureCode → String → GoError → GoError
  cleanup_failure : GoError → GoError
  formatted : String → GoError → GoError
  joined : GoError → GoError → GoError

pub data Result {ℓ} (A : Type ℓ) : Type ℓ where
  ok : A → Result A
  err : GoError → Result A

infixr 65 ◌+++◌
abbrev ◌+++◌ : String → String → String
s +++ t = text_append s t

pub Result-cases {ℓ} :
    {A : Type ℓ} (r : Result A) → ((e : GoError) × (r ≡ err e)) ⊎ ((a : A) × (r ≡ ok a))
Result-cases (err e) = inl (e, refl)
Result-cases (ok a) = inr (a, refl)

pub code_text : FailureCode → String
code_text FailureCode.invalid_argument = "INVALID_ARGUMENT"
code_text FailureCode.not_found = "NOT_FOUND"
code_text FailureCode.conflict = "CONFLICT"
code_text FailureCode.not_configured = "NOT_CONFIGURED"
code_text FailureCode.stale_generation = "STALE_GENERATION"
code_text FailureCode.unsupported = "UNSUPPORTED"
code_text FailureCode.malformed_config = "MALFORMED_CONFIG"
code_text FailureCode.probe = "PROBE_FAILED"
code_text FailureCode.platform = "PLATFORM_FAILED"
code_text FailureCode.runtime = "RUNTIME_FAILED"
code_text FailureCode.canceled = "CANCELED"
code_text FailureCode.internal = "INTERNAL"
code_text FailureCode.cleanup = "CLEANUP_FAILED"

-- The `Error` methods.
unfoldable pub error_text : GoError → String
unfolding code_text
error_text context_canceled = "context canceled"
error_text context_deadline = "context deadline exceeded"
error_text (foreign text) = text
error_text (domain code text) = code_text code +++ ": " +++ text
error_text (domain_with code text cause) =
    code_text code +++ ": " +++ text +++ ": " +++ error_text cause
error_text (cleanup_failure e) = "cleanup failed: " +++ error_text e
error_text (formatted text e) = text +++ ": " +++ error_text e
error_text (joined a b) = error_text a +++ "\n" +++ error_text b

unfoldable pub error_message : Option GoError → String
error_message none = ""
error_message (some e) = error_text e

-- errors.As for a *CleanupFailure.
unfoldable pub is_cleanup_failure : GoError → Bool
is_cleanup_failure (domain_with code text cause) = is_cleanup_failure cause
is_cleanup_failure (cleanup_failure e) = true
is_cleanup_failure (formatted text e) = is_cleanup_failure e
is_cleanup_failure (joined a b) = is_cleanup_failure a || is_cleanup_failure b
is_cleanup_failure _ = false

abbrev pub or_else : Option FailureCode → Option FailureCode → Option FailureCode
or_else (some c) o = some c
or_else none o = o

-- errors.As for an *Error: the code of the first one on the depth-first walk.
unfoldable pub domain_code : GoError → Option FailureCode
domain_code (domain code text) = some code
domain_code (domain_with code text cause) = some code
domain_code (cleanup_failure e) = domain_code e
domain_code (formatted text e) = domain_code e
domain_code (joined a b) = or_else (domain_code a) (domain_code b)
domain_code _ = none

-- errors.Is for one of the two context errors.
unfoldable pub is_canceled : GoError → Bool
is_canceled context_canceled = true
is_canceled (domain_with code text cause) = is_canceled cause
is_canceled (cleanup_failure e) = is_canceled e
is_canceled (formatted text e) = is_canceled e
is_canceled (joined a b) = is_canceled a || is_canceled b
is_canceled _ = false

unfoldable pub is_deadline : GoError → Bool
is_deadline context_deadline = true
is_deadline (domain_with code text cause) = is_deadline cause
is_deadline (cleanup_failure e) = is_deadline e
is_deadline (formatted text e) = is_deadline e
is_deadline (joined a b) = is_deadline a || is_deadline b
is_deadline _ = false

abbrev pub or_internal : Option FailureCode → FailureCode
or_internal none = FailureCode.internal
or_internal (some c) = c

unfoldable pub code_of : Option GoError → FailureCode
code_of none = FailureCode.internal
code_of (some e) = if is_cleanup_failure e then FailureCode.cleanup else or_internal (domain_code e)

abbrev pub is_cleanup : FailureCode → Bool
is_cleanup FailureCode.cleanup = true
is_cleanup _ = false

-- errors.Join of two errors, either of which may be nil.
abbrev pub join : Option GoError → Option GoError → Option GoError
join none b = b
join (some a) none = some a
join (some a) (some b) = some (joined a b)

-- errors.Join of a list.
unfoldable pub join_all : List GoError → Option GoError
join_all [] = none
join_all (e ∷ es) = join (some e) (join_all es)

abbrev wrap_domain : Option FailureCode → FailureCode → GoError → GoError
wrap_domain none code e = domain_with code "operation failed" e
wrap_domain (some c) code e = e

unfoldable pub wrap_failure : FailureCode → GoError → GoError
wrap_failure code e =
    if is_cleanup code || is_cleanup_failure e
    then domain_with FailureCode.cleanup "cleanup failed" e
    else wrap_domain (domain_code e) code e

abbrev load_failure : Bool → GoError → GoError
load_failure true e =
    domain_with FailureCode.invalid_argument "configuration URL could not be fetched" e
load_failure false e =
    domain_with FailureCode.invalid_argument "configuration could not be loaded" e

abbrev keep_domain : Option FailureCode → Bool → GoError → GoError
keep_domain none is_url e = load_failure is_url e
keep_domain (some c) is_url e = e

-- `is_url` is sourceSchemeRE on the trimmed raw configuration.
unfoldable pub safe_config_error : Bool → GoError → GoError
safe_config_error is_url e =
    if is_canceled e
    then domain_with FailureCode.canceled "configuration loading was canceled" e
    else if is_deadline e
    then domain_with FailureCode.canceled "configuration loading timed out" e
    else keep_domain (domain_code e) is_url e

abbrev pub is_ok {ℓ} : {A : Type ℓ} → Result A → Bool
is_ok (ok a) = true
is_ok (err e) = false
