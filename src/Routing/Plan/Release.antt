-- ===== src/Routing/Plan/Release.antt =====
-- The order in which Plan.Close releases, and what a release that fails leaves.
use dobby_vpn.Common.{
  ℕ, ◌≤◌, Bool, true, false, List, [], ◌∷◌, Option, none, some, String, ◌≡◌, refl, ◌∙◌, ap,
  if◌then◌else◌, arith, Option-cases, inl, inr,
}
use dobby_vpn.Failure.{formatted, GoError, is_ok}
use dobby_vpn.Routing.Plan.{Lease, World, acquire, close_lease, keep_leases, close_loop, close_plan}
use dobby_vpn.Routing.Plan.Ownership.{Below, Inv}

-- The leases of a list that are still open, in its order.
pub open_of : (ℕ → Lease) → List ℕ → List ℕ
open_of heap [] = []
open_of heap (i ∷ l) = if (heap i).closed then open_of heap l else i ∷ open_of heap l

-- One list put in front of another, its first element deepest.
pub onto : List ℕ → List ℕ → List ℕ
onto [] acc = acc
onto (i ∷ l) acc = onto l (i ∷ acc)

close_lease-open :
    (answer : ℕ → Option GoError) (w : World) (i n : ℕ) (l : List ℕ)
    → n ≤ i
    → Below n l
    → open_of (close_lease answer w i).1.heap l ≡ open_of w.heap l
unfolding open_of close_lease
close_lease-open answer w i n [] h b = refl
close_lease-open answer w i n (j ∷ l) h b =
    ground (arith, close_lease-open answer w i j l (omega (arith, b.0)) b.1)

close_lease-released :
    (answer : ℕ → Option GoError) (w : World) (i : ℕ)
    → (close_lease answer w i).0 ≡ none
    → (close_lease answer w i).1.released
      ≡ (if (w.heap i).closed then w.released else i ∷ w.released)
unfolding close_lease
close_lease-released answer w i h = ground arith

close_loop-order :
    (answer : ℕ → Option GoError) (w : World) (n : ℕ) (l : List ℕ)
    → Below n l
    → (close_loop answer w l).0 ≡ none
    → ((close_loop answer w l).1.plan.leases ≡ [])
      × ((close_loop answer w l).1.released ≡ onto (open_of w.heap l) w.released)
unfolding close_loop open_of onto keep_leases
close_loop-order answer w n [] b h = (refl, refl)
close_loop-order answer w n (i ∷ l) b h = elim (Option-cases (close_lease answer w i).0) [
  | inr (e, c) ↦
      let h' : some (formatted ((w.heap i).name) e) ≡ none = rw (c, close_loop) at h in cc
  | inl c ↦
      let r =
        close_loop-order answer (close_lease answer w i).1 i l b.1 (rw (c, close_loop) at h) in
      rw (c, close_loop)
        (
          r.0,
          r.1
              ∙ ground (
                arith,
                close_lease-open answer w i i l (omega arith) b.1,
                close_lease-released answer w i c,
              ),
        )
]

close_lease-failed :
    (answer : ℕ → Option GoError) (w : World) (i : ℕ) {e : GoError}
    → (close_lease answer w i).0 ≡ some e
    → ((close_lease answer w i).1 ≡ w) × ((w.heap i).closed ≡ false)
unfolding close_lease
close_lease-failed answer w i h = (ground arith, ground arith)

-- A release that fails stops the loop: its lease, which is open, is the plan's newest.
close_loop-failed :
    (answer : ℕ → Option GoError) (w : World) (l : List ℕ) {e : GoError}
    → (close_loop answer w l).0 ≡ some e
    → let t = (close_loop answer w l).1 in
      (i : ℕ) × (rest : List ℕ) × (t.plan.leases ≡ i ∷ rest) × ((t.heap i).closed ≡ false)
unfolding close_loop keep_leases
close_loop-failed answer w [] h = absurd (cc h)
close_loop-failed answer w (i ∷ l) h = elim (Option-cases (close_lease answer w i).0) [
  | inr (e, c) ↦
      let f = close_lease-failed answer w i c in rw (c, close_loop) (i, l, refl, rw f.0 f.1)
  | inl c ↦
      rw (c, close_loop)
        (close_loop-failed answer (close_lease answer w i).1 l (rw (c, close_loop) at h))
]

close_lease-plan :
    (answer : ℕ → Option GoError) (w : World) (i : ℕ) → (close_lease answer w i).1.plan ≡ w.plan
unfolding close_lease
close_lease-plan answer w i = ground arith

close_loop-closed :
    (answer : ℕ → Option GoError) (w : World) (l : List ℕ)
    → (close_loop answer w l).1.plan.closed ≡ w.plan.closed
unfolding close_loop keep_leases
close_loop-closed answer w [] = refl
close_loop-closed answer w (i ∷ l) = elim (Option-cases (close_lease answer w i).0) [
  | inr (e, c) ↦ rw (c, close_loop) (ap (λ p. p.closed) (close_lease-plan answer w i))
  | inl c ↦
      rw (c, close_loop)
        (close_loop-closed answer (close_lease answer w i).1 l
          ∙ ap (λ p. p.closed) (close_lease-plan answer w i))
]

-- A Plan.Close that succeeds, in a state that satisfies the invariant, leaves a closed plan that
-- owns nothing, and has released the leases that were still open, each once and the newest first.
pub close_plan-released :
    (answer : ℕ → Option GoError) (w : World)
    → Inv w
    → (close_plan answer w).0 ≡ none
    → let t = (close_plan answer w).1 in
      (t.plan.leases ≡ [])
      × (t.plan.closed ≡ true)
      × (t.released ≡ onto (open_of w.heap w.plan.leases) w.released)
unfolding close_plan
close_plan-released answer w v h =
    let r =
      close_loop-order answer (record w { plan = record (w.plan) { closed = true } }) w.fresh
        w.plan.leases v.distinct h in
    (
      r.0,
      close_loop-closed answer (record w { plan = record (w.plan) { closed = true } })
          w.plan.leases,
      r.1,
    )

-- A Plan.Close that fails leaves the plan closed, and owning as its newest a lease that is still
-- open, for the next Close to try again.
pub close_plan-failed :
    (answer : ℕ → Option GoError) (w : World) {e : GoError}
    → (close_plan answer w).0 ≡ some e
    → let t = (close_plan answer w).1 in
      (t.plan.closed ≡ true)
      × ((i : ℕ) × (rest : List ℕ) × (t.plan.leases ≡ i ∷ rest) × ((t.heap i).closed ≡ false))
unfolding close_plan
close_plan-failed answer w h = (
  close_loop-closed answer (record w { plan = record (w.plan) { closed = true } }) w.plan.leases,
  close_loop-failed answer (record w { plan = record (w.plan) { closed = true } }) w.plan.leases h,
)

acquire_closed :
    (t : World) (name : String) (repairable : Bool) (applied : Option GoError)
    → t.plan.closed ≡ true
    → ((acquire t name repairable applied).0 ≡ t)
      × (is_ok (acquire t name repairable applied).1 ≡ false)
unfolding acquire
acquire_closed t name repairable applied h = (ground arith, ground arith)

-- Once a Plan.Close was made, whatever it answered, no lease is acquired: nothing is applied and
-- the world stays as it is.
pub acquire_after_close :
    (answer : ℕ → Option GoError) (w : World) (name : String) (repairable : Bool)
    (applied : Option GoError)
    → let t = (close_plan answer w).1 in
      ((acquire t name repairable applied).0 ≡ t)
      × (is_ok (acquire t name repairable applied).1 ≡ false)
acquire_after_close answer w name repairable applied =
    acquire_closed (close_plan answer w).1 name repairable applied (
      unfold close_plan in
      close_loop-closed answer (record w { plan = record (w.plan) { closed = true } })
        w.plan.leases)
