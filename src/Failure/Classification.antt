-- ===== src/Failure/Classification.antt =====
-- How errors are classified across wrapping and joining.
use dobby_vpn.Common.{◌≡◌, some, arith}
use dobby_vpn.Failure.{FailureCode, GoError, is_cleanup_failure, domain_code, code_of, wrap_failure}

-- Wrapping keeps a cleanup classification, whatever code the caller wraps with.
pub wrap_failure-cleanup :
    (code : FailureCode) (e : GoError)
    → code_of (some e) ≡ FailureCode.cleanup
    → code_of (some (wrap_failure code e)) ≡ FailureCode.cleanup
unfolding wrap_failure code_of is_cleanup_failure domain_code
wrap_failure-cleanup code e h = ground arith
