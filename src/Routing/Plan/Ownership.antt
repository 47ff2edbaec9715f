-- ===== src/Routing/Plan/Ownership.antt =====
-- Who owns a lease, and how often it is released.
use dobby_vpn.Common.{
  ℕ, ◌<◌, ◌≤◌, Bool, List, [], ◌∷◌, Option, String, ◌≡◌, if◌then◌else◌, arith, Option-cases, inl,
  inr, if_cases, ltb→lt, ltb,
}
use dobby_vpn.Failure.{GoError}
use dobby_vpn.Routing.Plan.{
  Call, acquires, closes_lease, closes_plan, step, run, Lease, World, new_plan, acquire,
  close_lease, keep_leases, close_loop, close_plan,
}

-- The addresses fall along the list and lie below a bound.
abbrev pub Below : ℕ → List ℕ → Type 0
Below n [] = Unit {0}
Below n (i ∷ l) = (i < n) × Below i l

-- A lease has been released once if it is closed, and never if it is not; the plan's leases are
-- distinct.
pub record Inv (w : World) : Type 0 where
  pub distinct : Below w.fresh w.plan.leases
  pub once : (i : ℕ) → i < w.fresh → (w.heap i).releases ≡ (if (w.heap i).closed then 1 else 0)

new_plan-Inv : (heap : ℕ → Lease) (session_id : String) → Inv (new_plan heap session_id)
unfolding new_plan
new_plan-Inv heap session_id = record { distinct = tt; once = λ i h. absurd (omega arith) }

acquire-Inv :
    (w : World) (name : String) (repairable : Bool) (applied : Option GoError)
    → Inv w
    → Inv (acquire w name repairable applied).0
unfolding acquire
acquire-Inv w name repairable applied v = record {
  distinct = ground (arith, v.distinct);
  once = λ i h. ground (arith, v.once i);
}

close_lease-Inv :
    (answer : ℕ → Option GoError) (w : World) (i : ℕ)
    → Inv w
    → i < w.fresh
    → Inv (close_lease answer w i).1
unfolding close_lease
close_lease-Inv answer w i v b = record {
  distinct = ground (arith, v.distinct);
  once = λ j h. ground (arith, v.once j, v.once i);
}

close_lease-fresh :
    (answer : ℕ → Option GoError) (w : World) (i : ℕ)
    → ((close_lease answer w i).1.fresh ≡ w.fresh) × ((close_lease answer w i).1.plan ≡ w.plan)
unfolding close_lease
close_lease-fresh answer w i = (ground arith, ground arith)

keep_leases-Inv : (w : World) (l : List ℕ) → Below w.fresh l → Inv w → Inv (keep_leases w l)
unfolding keep_leases
keep_leases-Inv w l b v = record { distinct = b; once = v.once }

Below-mono : (m n : ℕ) (l : List ℕ) → m ≤ n → Below m l → Below n l
Below-mono m n [] h b = tt
Below-mono m n (i ∷ l) h b = (omega arith, b.1)

close_loop-Inv :
    (answer : ℕ → Option GoError) (w : World) (l : List ℕ)
    → Below w.fresh l
    → Inv w
    → Inv (close_loop answer w l).1
unfolding close_loop
close_loop-Inv answer w [] b v = keep_leases-Inv w [] tt v
close_loop-Inv answer w (i ∷ l) b v =
    let c = close_lease-Inv answer w i v b.0 in
    let f = (close_lease-fresh answer w i).0 in
    elim (Option-cases (close_lease answer w i).0) [
      | inr (e, h) ↦ rw (h, close_loop) (keep_leases-Inv _ (i ∷ l) (rw f b) c)
      | inl h ↦
          rw (h, close_loop)
            (close_loop-Inv answer (close_lease answer w i).1 l
              (rw f (Below-mono i w.fresh l (omega (arith, b.0)) b.1)) c)
    ]

step-Inv : (w : World) (c : Call) → Inv w → Inv (step w c)
unfolding step close_plan
step-Inv w (acquires name repairable applied) v = acquire-Inv w name repairable applied v
step-Inv w (closes_lease answer i) v =
    if_cases Inv (ltb i w.fresh) (λ h. close_lease-Inv answer w i v (ltb→lt i w.fresh h)) (λ _. v)
step-Inv w (closes_plan answer) v =
    close_loop-Inv answer _ w.plan.leases v.distinct
      (record { distinct = v.distinct; once = v.once })

-- In every history from a state where it holds, as it does for a new plan, whoever closes the plan
-- or its leases: each lease that was acquired has been released once if it is closed and never if
-- it is open, and the plan's leases are distinct.
pub run-Inv : (w : World) (cs : List Call) → Inv w → Inv (run w cs)
unfolding run
run-Inv w [] v = v
run-Inv w (c ∷ cs) v = run-Inv (step w c) cs (step-Inv w c v)
