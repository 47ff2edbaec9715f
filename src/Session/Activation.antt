-- ===== src/Session/Activation.antt =====
-- core/sessionapi/restore.go: the selection that an operating system's start restores. The JSON
-- package is a parameter: how it prints a saved activation, and how it reads one back.
use dobby_vpn.Common.{
  ℕ, Bool, true, false, not, ◌&&◌, ◌||◌, Option, none, some, String, ℤ, pos, negsuc, ◌≡◌, ◌==◌,
  if◌then◌else◌,
}
use dobby_vpn.Failure.{FailureCode, GoError, Result, ok, err, domain, domain_with, foreign}
use text.Mathlib.Text.{◌==◌ as str_eq}
use dobby_vpn.Session.Types.{Session, StartMode, StartTarget, StartResult, ConfigSourceKind}
use dobby_vpn.Session.Guards.{is_empty, is_failed}
use dobby_vpn.Session.Control.{result_of}

pub record SavedActivation : Type 0 where
  pub version : ℤ
  pub enabled : Bool
  pub mode : StartMode
  pub index : ℤ
  pub digest : String

-- encoding/json on a savedActivation: what Marshal prints, Unmarshal reads back.
pub record Json : Type 0 where
  pub marshal : SavedActivation → String
  pub unmarshal : String → Result SavedActivation
  pub round_trip : (a : SavedActivation) → unmarshal (marshal a) ≡ ok a
  pub not_empty : (a : SavedActivation) → is_empty (marshal a) ≡ false

abbrev is_negative : ℤ → Bool
is_negative (pos n) = false
is_negative (negsuc n) = true

abbrev is_one : ℤ → Bool
is_one (pos n) = n == 1
is_one (negsuc n) = false

-- The mode, and with PROFILE_INDEX the index, of a usable selection.
abbrev usable_mode : StartMode → ℤ → Bool
usable_mode StartMode.auto_select i = true
usable_mode StartMode.profile_index i = not (is_negative i)
usable_mode (StartMode.other_mode m) i = false

unfoldable pub check_activation : SavedActivation → Result SavedActivation
check_activation a =
    if not (is_one a.version) || is_empty a.digest || not (usable_mode a.mode a.index)
    then err (domain FailureCode.malformed_config "saved activation selection is invalid")
    else ok a

abbrev checked : Result SavedActivation → Result SavedActivation
checked (ok a) = check_activation a
checked (err e) = err (domain_with FailureCode.malformed_config "saved activation is invalid" e)

-- What an ActivationStore holds, and whether its next save fails.
pub record Store : Type 0 where
  pub raw : String
  pub load_error : Option GoError
  pub save_error : Option GoError

unfoldable pub save : Store → String → Option GoError × Store
save st raw = elim st.save_error [ none ↦ (none, record st { raw = raw }) | some e ↦ (some e, st) ]

abbrev platform_error : String → Option GoError → Option GoError
platform_error text none = none
platform_error text (some e) = some (domain_with FailureCode.platform text e)

abbrev is_url : ConfigSourceKind → Bool
is_url ConfigSourceKind.source_url = true
is_url _ = false

abbrev pub activation_of : Session → StartTarget → SavedActivation
activation_of s target = record {
  version = pos 1;
  enabled = true;
  mode = target.mode;
  index = target.index;
  digest = s.digest;
}

-- What Restore does next: answer at once, or configure the saved source and start a selection.
pub data RestorePlan : Type 0 where
  answer : Result StartResult → RestorePlan
  proceed : SavedActivation → RestorePlan

module _ (j : Json) where
  unfoldable pub decode_activation : String → Result SavedActivation
  unfolding check_activation
  decode_activation raw =
      if is_empty raw
      then err (
          domain FailureCode.not_configured
            "connect a saved configuration before automatic startup")
      else checked (j.unmarshal raw)

  -- saveActivationLocked, where the source store is an ActivationStore.
  unfoldable pub save_activation : Session → StartTarget → Store → Option GoError × Store
  unfolding save
  save_activation s target st =
      if is_url s.source_kind
      then (
        platform_error "automatic startup selection could not be saved"
            (save st (j.marshal (activation_of s target))).0,
        (save st (j.marshal (activation_of s target))).1,
      )
      else (none, st)

  abbrev disabled : Result SavedActivation → Store → Option GoError × Store
  disabled (err e) st = (some e, st)
  disabled (ok a) st = (
    platform_error "automatic restart could not be disabled"
        (save st (j.marshal (record a { enabled = false }))).0,
    (save st (j.marshal (record a { enabled = false }))).1,
  )

  -- stopActivationLocked.
  unfoldable pub stop_activation : Store → Option GoError × Store
  unfolding save decode_activation
  stop_activation st = elim st.load_error [
    | some e ↦ (some e, st)
    | none ↦ if is_empty st.raw then (none, st) else disabled (decode_activation st.raw) st
  ]

  abbrev restore_saved : Result SavedActivation → Bool → String → RestorePlan
  restore_saved (err e) only source = answer (err e)
  restore_saved (ok a) only source =
      if only && not a.enabled
      then answer (ok (record { generation = 0; sequence = 0 }))
      else if is_empty source
      then answer (
          err (
            domain FailureCode.not_configured
              "automatic startup requires a saved configuration URL"))
      else proceed a

  -- Restore up to its Configure; `st` is none for a store that keeps no activation.
  unfoldable pub restore : Session → Option Store → Bool → RestorePlan
  unfolding decode_activation
  restore s st only =
      if s.vpn_active && not s.stop_requested && not s.closing
      then answer (ok (result_of s))
      else if s.closing || not s.cleanup_done
      then answer (err (domain FailureCode.conflict "previous VPN owner has not completed cleanup"))
      else elim st [
        | none ↦
            answer
              (err (domain FailureCode.not_configured "automatic startup storage is unavailable"))
        | some t ↦ elim t.load_error [
          | some e ↦
              answer (err (domain_with FailureCode.platform "saved activation could not be read" e))
          | none ↦ restore_saved (decode_activation t.raw) only s.source_url
        ]
      ]

-- The target that Restore starts, once its Configure has answered with a digest.
unfoldable pub restore_target : SavedActivation → String → Result StartTarget
restore_target a digest = elim a.mode [
  | StartMode.profile_index ↦
      if not (str_eq digest a.digest)
      then err
          (domain FailureCode.conflict "saved profile inventory changed; select the profile again")
      else ok (record { mode = a.mode; index = a.index; replace_current = false; digest = digest })
  | _ ↦ ok (record { mode = a.mode; index = a.index; replace_current = false; digest = digest })
]

-- One look of waitForRestoredNetwork; none is to wait for the next change.
unfoldable pub restored_answer : Session → ℕ → Option (Result (Unit {0}))
restored_answer s expected =
    if s.vpn_active && not s.closing && not (s.stop_requested || s.cleanup_done)
    then some (ok tt)
    else if is_failed s.state || s.closing || s.stop_requested || s.cleanup_done
    then some (err (foreign s.last_failure_message))
    else if not (s.generation == expected)
    then some (err (domain FailureCode.stale_generation "automatic activation was replaced"))
    else none
