-- ===== src/Session/Attempt.antt =====
-- core/sessionapi/api.go: the goroutine `runStart`, from prepareNetwork to waitForAttemptEnd, one
-- stage at a time, and reportHealthFailure.
use dobby_vpn.Common.{
  ℕ, ◌*◌, true, List, [], ◌∷◌, Option, none, some, String, ℤ, pos, negsuc, get_elem?, if◌then◌else◌,
}
use dobby_vpn.Failure.{FailureCode, GoError, domain, domain_with, wrap_failure}
use dobby_vpn.Session.Types.{
  Session, StartTarget, RuntimeProfile, ProfileSummary, Worker, Stage, Closer, append_locked,
  context_error,
}
use dobby_vpn.Session.Guards.{is_profile_index}
use dobby_vpn.Session.Ledger.{push}

-- What the platform, the runtime and the clock answer while a goroutine makes one stage. A lease
-- is its number; `network` is none for a runtime that is no NetworkRuntime; `health` is what the
-- lease's channel gives, `stamp` the text "profile %d (%s)", and `cause_text` an error's `%v`.
pub record Environment : Type 0 where
  pub platform : Option ℕ × Option GoError
  pub network : Option (Option ℕ × Option GoError)
  pub started : Option ℕ × Option GoError
  pub health : Option GoError
  pub close : Closer → Option GoError
  pub stamp : ProfileSummary → String
  pub now : ℕ

abbrev pub auto_recovery_limit : ℕ
auto_recovery_limit = 3

-- Five minutes, in the clock's milliseconds.
abbrev pub auto_recovery_stable : ℕ
auto_recovery_stable = 5 * 60 * 1000

abbrev pub auto_recovery_message : String
auto_recovery_message =
    "Automatic reconnect limit reached. Check your connection and connect again."

-- failureWithCause, where the joined causes may be nil.
abbrev pub caused : FailureCode → String → Option GoError → GoError
caused code text none = domain code text
caused code text (some e) = domain_with code text e

abbrev pub at_stage : Worker → Stage → Worker
at_stage k g = record k { stage = g }

abbrev pub push_lease : (ℕ → Closer) → Option ℕ → Option (List Closer) → Option (List Closer)
push_lease c none l = l
push_lease c (some n) none = none
push_lease c (some n) (some l) = some (push (c n) l)

abbrev wrap_platform : GoError → GoError
wrap_platform e = wrap_failure FailureCode.platform e

-- The error of an acquisition that returned a lease or an error.
abbrev lease_error : String → Option ℕ × Option GoError → Option GoError
lease_error text (l, some e) = some (wrap_platform e)
lease_error text (none, none) = some (domain FailureCode.platform text)
lease_error text (some n, none) = none

abbrev network_answer : Option (Option ℕ × Option GoError) → Option GoError
network_answer none = none
network_answer (some r) = lease_error "runtime returned an empty network lease" r

abbrev network_lease_of : Option (Option ℕ × Option GoError) → Option ℕ
network_lease_of none = none
network_lease_of (some r) = r.0

abbrev after_network : Session → Worker → Environment → Session × List Worker
after_network s k env =
    let s' = record s {
      network_ledger =
          push_lease Closer.network_lease (network_lease_of env.network) s.network_ledger;
    } in
    elim (network_answer env.network) [
      | none ↦ (s', at_stage k Stage.activating ∷ [])
      | some e ↦ (s', at_stage k (Stage.finishing (some e)) ∷ [])
    ]

-- prepareNetwork up to the lock that marks the VPN active.
unfoldable pub prepare_network : Session → Worker → Environment → Session × List Worker
unfolding push
prepare_network s k env =
    if s.vpn_active
    then (s, at_stage k Stage.activated ∷ [])
    else (let s' = record s {
      network_ledger = push_lease Closer.platform_lease env.platform.0 s.network_ledger;
    } in
        elim (lease_error "platform returned an empty network lease" env.platform) [
          | some e ↦ (s', at_stage k (Stage.finishing (some e)) ∷ [])
          | none ↦ after_network s' k env
        ])

-- `profiles[target.Index : target.Index+1]`, where the index is in range.
abbrev pub slice_one : ℤ → List RuntimeProfile → List RuntimeProfile
slice_one (negsuc i) ps = []
slice_one (pos i) ps = elim (get_elem? ps i) [ none ↦ [] | some p ↦ p ∷ [] ]

abbrev pub candidates : StartTarget → List RuntimeProfile → List RuntimeProfile
candidates target ps = if is_profile_index target.mode then slice_one target.index ps else ps

abbrev pub begin_candidates : Session → Worker → Session × List Worker
begin_candidates s k =
    (s, at_stage k (Stage.candidate 0 (candidates k.target s.active_profiles)) ∷ [])

-- prepareNetwork's lock, `s.vpnActive = true`, and the context's error that it returns.
unfoldable pub activate : Session → Worker → Session × List Worker
unfolding append_locked
activate s k =
    let s' = append_locked (record s { vpn_active = true }) in
    elim (context_error s k.context) [
      | some e ↦ (s', at_stage k (Stage.finishing (some e)) ∷ [])
      | none ↦ (s', at_stage k Stage.activated ∷ [])
    ]
