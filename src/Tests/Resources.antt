-- ===== src/Tests/Resources.antt =====
-- A routing plan with two leases.
use dobby_vpn.Common.{ℕ, true, false, [], ◌∷◌, none, Option, ◌≡◌, refl, arith}
use dobby_vpn.Failure.{GoError}
use dobby_vpn.Routing.Plan.{
  World, new_plan, acquires, closes_lease, closes_plan, acquire, close_plan, run, step, update,
  close_loop, close_lease, mark_closed,
}
use dobby_vpn.Routing.Plan.Ownership.{Inv, run-Inv}
use dobby_vpn.Routing.Plan.Release.{open_of, onto, close_plan-released}

abbrev nothing_held : World
nothing_held =
    new_plan (λ i. record { name = ""; closed = true; repairable = false; releases = 0 }) "s"

nothing_held-Inv : Inv nothing_held
unfolding new_plan
nothing_held-Inv = record { distinct = tt; once = λ i h. absurd (omega (arith, h)) }

abbrev granted : ℕ → Option GoError
granted i = none

abbrev two_leases : World
two_leases = run nothing_held (acquires "route" true none ∷ acquires "dns" false none ∷ [])

-- One of the two leases is closed by its holder before the plan is.
run-Inv_example : Inv (
    run nothing_held (
      acquires "route" true none
      ∷ acquires "dns" false none
      ∷ closes_lease granted 0
      ∷ closes_plan granted
      ∷ []))
run-Inv_example =
    run-Inv nothing_held
      (acquires "route" true none
        ∷ acquires "dns" false none
        ∷ closes_lease granted 0
        ∷ closes_plan granted
        ∷ [])
      nothing_held-Inv

two_leases-Inv : Inv two_leases
two_leases-Inv = run-Inv nothing_held _ nothing_held-Inv

release_all : (close_plan granted two_leases).0 ≡ none
unfolding new_plan run step acquire update close_plan close_loop close_lease mark_closed
release_all = refl

close_plan-released_example :
    let t = (close_plan granted two_leases).1 in
    (t.plan.leases ≡ [])
    × (t.plan.closed ≡ true)
    × (t.released ≡ onto (open_of two_leases.heap two_leases.plan.leases) two_leases.released)
close_plan-released_example = close_plan-released granted two_leases two_leases-Inv release_all
