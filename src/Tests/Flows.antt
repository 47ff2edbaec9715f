-- ===== src/Tests/Flows.antt =====
-- A switching proxy that is closed, and the sockets of a stream that is set up.
use dobby_vpn.Common.{List, ◌+◌, true, [], ◌∷◌, none, some, ◌≡◌, refl, arith, count}
use dobby_vpn.Tunnel.SwitchingProxy.{
  SwitchingProxy, sets, closes, run as run_proxy, step as step_proxy, set, close, run_wakes,
}
use dobby_vpn.Outline.StreamScope.{
  Call as ScopeCall, new_scope, registers, hands_off, run as run_scope, registered, held, run-held,
}

abbrev shut : SwitchingProxy
shut = record { target = none; changed = 4; closed = true }

run_wakes_example : run_proxy shut (sets (some 6) ∷ closes ∷ []) ≡ shut
run_wakes_example =
    run_wakes shut (sets (some 6) ∷ closes ∷ []) (unfold run_proxy step_proxy set close in refl)

abbrev dials_twice : List ScopeCall
dials_twice = registers 7 ∷ registers 8 ∷ hands_off ∷ registers 9 ∷ []

run-held_example :
    held 7 (run_scope (new_scope none) dials_twice)
    ≡ held 7 (new_scope none) + count 7 (registered dials_twice)
run-held_example =
    run-held 7 (new_scope none) dials_twice (unfold new_scope count registered in omega arith)
