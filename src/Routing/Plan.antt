-- ===== src/Routing/Plan.antt =====
-- core/routing/plan.go: Plan and Lease. A *Lease is shared by the plan and by the caller of
-- Acquire, so leases live on a heap and the plan holds their addresses.
pub mod Ownership
pub mod Release
pub mod Repair
use mathlib.Core.List.{reverse}
use dobby_vpn.Common.{
  ℕ, ◌+◌, Bool, true, false, not, ◌&&◌, ◌||◌, List, [], ◌∷◌, Option, none, some, String, ◌==◌, ltb,
  if◌then◌else◌,
}
use dobby_vpn.Failure.{GoError, Result, ok, err, foreign, formatted}

-- `releases` counts how often the release function has succeeded.
pub record Lease : Type 0 where
  pub name : String
  pub closed : Bool
  pub repairable : Bool
  pub releases : ℕ

pub record Plan : Type 0 where
  pub session_id : String
  pub closed : Bool
  pub leases : List ℕ

-- The heap of leases, the plan, the next address, and the addresses whose release has succeeded,
-- the newest first. The plan's leases stand with the newest first.
pub record World : Type 0 where
  pub heap : ℕ → Lease
  pub plan : Plan
  pub fresh : ℕ
  pub released : List ℕ

unfoldable pub update : (ℕ → Lease) → ℕ → Lease → ℕ → Lease
update heap i l j = if j == i then l else heap j

unfoldable pub new_plan : (ℕ → Lease) → String → World
new_plan heap session_id = record {
  heap = heap;
  plan = record { session_id = session_id; closed = false; leases = [] };
  fresh = 0;
  released = [];
}

-- Acquire of functions that are there; `applied` is the answer of apply.
unfoldable pub acquire : World → String → Bool → Option GoError → World × Result ℕ
unfolding update
acquire w name repairable applied =
    if w.plan.closed then (w, err (foreign "routing plan is already closed")) else elim applied [
      | some e ↦ (w, err (formatted "routing plan acquire" e))
      | none ↦ (
        record w {
          heap =
              update w.heap w.fresh
                (record { name = name; closed = false; repairable = repairable; releases = 0 });
          plan = record (w.plan) { leases = w.fresh ∷ w.plan.leases };
          fresh = w.fresh + 1;
        },
        ok w.fresh,
      )
    ]

unfoldable pub mark_closed : World → ℕ → World
unfolding update
mark_closed w i = record w {
  heap = update w.heap i (record (w.heap i) { closed = true; releases = (w.heap i).releases + 1 });
  released = i ∷ w.released;
}

-- Lease.Close; `answer` gives what the release functions answer.
unfoldable pub close_lease : (ℕ → Option GoError) → World → ℕ → Option GoError × World
unfolding mark_closed
close_lease answer w i =
    if (w.heap i).closed
    then (none, w)
    else elim (answer i) [ some e ↦ (some e, w) | none ↦ (none, mark_closed w i) ]

unfoldable pub keep_leases : World → List ℕ → World
keep_leases w l = record w { plan = record (w.plan) { leases = l } }

-- The loop of Plan.Close over what is left of the leases.
unfoldable pub close_loop : (ℕ → Option GoError) → World → List ℕ → Option GoError × World
close_loop answer w [] = (none, keep_leases w [])
close_loop answer w (i ∷ l) =
    let rest = close_loop answer (close_lease answer w i).1 l in
    elim (close_lease answer w i).0 [
      | some e ↦
          (some (formatted ((w.heap i).name) e), keep_leases (close_lease answer w i).1 (i ∷ l))
      | none ↦ rest
    ]

unfoldable pub close_plan : (ℕ → Option GoError) → World → Option GoError × World
unfolding close_loop
close_plan answer w =
    close_loop answer (record w { plan = record (w.plan) { closed = true } }) w.plan.leases

-- The loop of Repair, the oldest lease first; `answer` gives what the repair functions answer.
unfoldable pub repair_loop :
    (ℕ → Bool × Option GoError) → World → Bool → List ℕ → Bool × Option GoError
repair_loop answer w repaired [] = (repaired, none)
repair_loop answer w repaired (i ∷ l) =
    let r = if (w.heap i).repairable then answer i else (false, none) in
    let rest = repair_loop answer w (repaired || r.0) l in
    elim r.1 [ some e ↦ (repaired, some e) | none ↦ rest ]

unfoldable pub repair : (ℕ → Bool × Option GoError) → World → Bool × Option GoError
unfolding repair_loop
repair answer w =
    if w.plan.closed then (false, none) else repair_loop answer w false (reverse w.plan.leases)

-- What the callers of a plan and of its leases may ask for; a lease is closed by its address.
pub data Call : Type 0 where
  acquires : String → Bool → Option GoError → Call
  closes_lease : (ℕ → Option GoError) → ℕ → Call
  closes_plan : (ℕ → Option GoError) → Call

unfoldable pub step : World → Call → World
step w (acquires name repairable applied) = (acquire w name repairable applied).0
step w (closes_lease answer i) = if ltb i w.fresh then (close_lease answer w i).1 else w
step w (closes_plan answer) = (close_plan answer w).1

unfoldable pub run : World → List Call → World
run w [] = w
run w (c ∷ cs) = run (step w c) cs
