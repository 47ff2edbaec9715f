-- ===== src/Session/Invariant/Owners.antt =====
-- The goroutines of a session across a step that leaves them alone, or that starts one.
use dobby_vpn.Common.{Bool, true, false, List, [], ◌∷◌, ◌≡◌, refl, arith}
use dobby_vpn.Session.Types.{Session, Worker}
use dobby_vpn.Session.Guards.{attempt_active}
use dobby_vpn.Session.Invariant.Defs.{SessionInv, Inv, owners_ok, owns}

pub owners-nil :
    (owner : Worker → Bool) (b : Bool) (ws : List Worker)
    → b ≡ false
    → owners_ok b owner ws ≡ true
    → ws ≡ []
owners-nil owner false [] a h = refl
owners-nil owner true [] a h = refl
owners-nil owner false (k ∷ ws) a h = cc
owners-nil owner true (k ∷ ws) a h = cc

-- A command that leaves the goroutines alone, and what they rely on.
pub keeps :
    {s t : Session} (ws : List Worker)
    → Inv s ws
    → SessionInv t
    → attempt_active t.state ≡ attempt_active s.state
    → ((k : Worker) → attempt_active s.state ≡ true → owns s k ≡ true → owns t k ≡ true)
    → Inv t ws
keeps [] v w a o = record { session_ok = w; owned = ground (arith, v.owned) }
keeps (k ∷ []) v w a o = record { session_ok = w; owned = ground (arith, v.owned, o k) }
keeps (k ∷ j ∷ ws) v w a o = record { session_ok = w; owned = ground (arith, v.owned) }

-- A command that starts the goroutine of a session at rest.
pub launches :
    {s t : Session} {ws : List Worker} (k : Worker)
    → Inv s ws
    → SessionInv t
    → attempt_active s.state ≡ false
    → attempt_active t.state ≡ true
    → owns t k ≡ true
    → Inv t (k ∷ ws)
launches {s} {ws = ws} k v w a b o =
    let e = owners-nil (owns s) (attempt_active s.state) ws a v.owned in
    record { session_ok = w; owned = rw (e, b) o }
