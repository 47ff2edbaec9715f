-- ===== src/Session/Invariant/Defs.antt =====
-- The invariant of a session and of its goroutines.
use dobby_vpn.Common.{
  ℕ, ◌≤◌, Bool, true, false, not, ◌&&◌, ◌||◌, List, [], ◌∷◌, Option, none, some, ◌==◌, ◌≡◌, ◌⊎◌,
  is_some, length, if◌then◌else◌,
}
use dobby_vpn.Session.Types.{
  Session, State, StartTarget, RuntimeProfile, Worker, Stage, StateChange, PendingStart,
}
use dobby_vpn.Session.Guards.{attempt_active, acquiring, is_connected, in_range, is_profile_index}

abbrev pub is_nil {ℓ} : {A : Type ℓ} → List A → Bool
is_nil [] = true
is_nil (x ∷ xs) = false

-- The profiles that a target names are there: `profiles[0]`, or `profiles[target.Index]`.
unfoldable pub target_fits : StartTarget → List RuntimeProfile → Bool
target_fits target ps =
    not (is_nil ps)
    && (if is_profile_index target.mode then in_range target.index (length ps) else true)

abbrev pub pending_fits : Option PendingStart → Bool
pending_fits none = true
pending_fits (some p) = target_fits p.target p.profiles

-- The state and the failure that PublishState was last told.
abbrev pub last_state : List StateChange → State
last_state [] = State.idle
last_state (c ∷ cs) = c.state

-- Stop or StopAndWait has been asked for.
abbrev pub halted : Session → Bool
halted s = s.stop_requested || s.closing

-- What a goroutine relies on at a stage: the ledgers it pushes to, the network it uses, and, once
-- it is decided whether the network goes too, the reason for it.
abbrev pub stage_ok : Bool → Bool → Bool → Bool → Bool → Stage → Bool
stage_ok ledger network vpn halt fits Stage.preparing_network = ledger && network && fits
stage_ok ledger network vpn halt fits Stage.activating = ledger && network && fits
stage_ok ledger network vpn halt fits Stage.activated = ledger && vpn && fits
stage_ok ledger network vpn halt fits (Stage.finishing cause) = true
stage_ok ledger network vpn halt fits (Stage.retiring cause) = true
stage_ok ledger network vpn halt fits (Stage.retired cause failed) = true
stage_ok ledger network vpn halt fits (Stage.releasing all cause failed) =
    if all then halt || not vpn else vpn
stage_ok ledger network vpn halt fits (Stage.committing all cause failed) =
    if all then halt || not vpn else vpn
stage_ok ledger network vpn halt fits _ = ledger && vpn

unfoldable pub worker_ok : ℕ → Bool → Bool → Bool → Bool → List RuntimeProfile → Worker → Bool
worker_ok generation ledger network vpn halt ps k =
    k.generation == generation && stage_ok ledger network vpn halt (target_fits k.target ps) k.stage

abbrev pub owns : Session → Worker → Bool
owns s =
    worker_ok s.generation (is_some s.ledger) (is_some s.network_ledger) s.vpn_active (halted s)
      s.active_profiles

-- An active attempt has exactly one goroutine, and a session at rest has none.
abbrev pub owners_ok : Bool → (Worker → Bool) → List Worker → Bool
owners_ok false ok [] = true
owners_ok true ok (k ∷ []) = ok k
owners_ok _ _ _ = false

pub record SessionInv (s : Session) : Type 0 where
  pub done_clean :
      s.cleanup_done ≡ true
      → (s.vpn_active ≡ false)
        × (s.network_ledger ≡ none)
        × (s.ledger ≡ none)
        × (attempt_active s.state ≡ false)
        × (s.cleanup_failed ≡ false)
  pub at_rest :
      attempt_active s.state ≡ false
      → s.cleanup_done ≡ false
      → (s.state ≡ State.failed)
        × ((s.cleanup_failed ≡ true) ⊎ ((s.vpn_active ≡ true) × (s.ledger ≡ none)))
  pub failed_kept : s.cleanup_failed ≡ true → (s.state ≡ State.failed) × (s.cleanup_done ≡ false)
  pub armed :
      acquiring s.state ≡ true → (is_some s.cancel ≡ true) × (is_some s.cleanup_budget ≡ true)
  pub disarmed : attempt_active s.state ≡ false → s.cancel ≡ none
  pub pending_stops :
      is_some s.pending ≡ true
      → (s.state ≡ State.stopping) × (s.vpn_active ≡ true) × (halted s ≡ false)
  pub halt_stops : attempt_active s.state ≡ true → halted s ≡ true → s.state ≡ State.stopping
  pub connected_network : is_connected s.state ≡ true → s.vpn_active ≡ true
  pub counted : s.recovery_count ≤ 3
  pub network_owned : s.cleanup_done ≡ false → is_some s.network_ledger ≡ true
  pub recovering_active : s.recovering ≡ true → attempt_active s.state ≡ true
  pub inventory : s.configured ≡ true → is_nil s.profiles ≡ false
  pub target_held : s.cleanup_done ≡ false → target_fits s.active_target s.active_profiles ≡ true
  pub pending_held : pending_fits s.pending ≡ true
  pub announced : last_state s.published ≡ s.state

pub record Inv (s : Session) (ws : List Worker) : Type 0 where
  pub session_ok : SessionInv s
  pub owned : owners_ok (attempt_active s.state) (owns s) ws ≡ true
