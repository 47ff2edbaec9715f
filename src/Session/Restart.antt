-- ===== src/Session/Restart.antt =====
-- What a saved selection survives: a Start, a Stop and a restart of the service.
use dobby_vpn.Common.{true, false, none, some, String, ◌≡◌, arith}
use dobby_vpn.Failure.{ok}
use text.Mathlib.TextEquality.{eq_iff}
use dobby_vpn.Session.Types.{Session, StartMode, StartTarget}
use dobby_vpn.Session.Activation.{
  SavedActivation, Json, Store, answer, decode_activation, stop_activation, restore, restore_target,
}

module _ (j : Json) where
  stop_activation-decode :
      (st : Store) (a : SavedActivation)
      → st.load_error ≡ none
      → st.save_error ≡ none
      → decode_activation j st.raw ≡ ok a
      → decode_activation j (stop_activation j st).1.raw ≡ ok (record a { enabled = false })
  unfolding stop_activation decode_activation
  stop_activation-decode st a l f d = ground (
    arith,
    j.round_trip (record a { enabled = false }),
    j.not_empty (record a { enabled = false }),
  )

  stop_activation-load : (st : Store) → (stop_activation j st).1.load_error ≡ st.load_error
  unfolding stop_activation
  stop_activation-load st = ground arith

  -- After an explicit Stop whose store works and holds a valid selection, a service restart starts
  -- nothing: in a session at rest that is not shutting down, Restore of what was enabled answers
  -- with the empty result, whatever selection had been saved.
  pub restore_after_stop :
      (s : Session) (st : Store) (a : SavedActivation)
      → st.load_error ≡ none
      → st.save_error ≡ none
      → decode_activation j st.raw ≡ ok a
      → s.vpn_active ≡ false
      → s.closing ≡ false
      → s.cleanup_done ≡ true
      → restore j s (some (stop_activation j st).1) true
        ≡ answer (ok (record { generation = 0; sequence = 0 }))
  unfolding restore
  restore_after_stop s st a l f d v c r =
      ground (arith, stop_activation-decode st a l f d, stop_activation-load st)

-- A profile that was chosen by its index is restored only under the inventory that it was chosen
-- in, with the same index.
pub restore_target-pinned :
    (a : SavedActivation) (digest : String) (t : StartTarget)
    → a.mode ≡ StartMode.profile_index
    → restore_target a digest ≡ ok t
    → (digest ≡ a.digest) × (t.index ≡ a.index) × (t.mode ≡ a.mode) × (t.digest ≡ digest)
unfolding restore_target
restore_target-pinned a digest t m e =
    (ground (arith, eq_iff digest a.digest), ground arith, ground arith, ground arith)
