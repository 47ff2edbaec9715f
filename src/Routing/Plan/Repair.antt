-- ===== src/Routing/Plan/Repair.antt =====
-- What a Repair of a plan restores and answers.
use mathlib.Core.List.{reverse}
use dobby_vpn.Common.{
  ℕ, Bool, true, false, ◌||◌, List, [], ◌∷◌, ◌++◌, Option, none, some, ◌≡◌, ◌⊎◌, inl, inr, refl,
  arith, All, if◌then◌else◌, Option-cases, Bool-cases, ap,
}
use dobby_vpn.Failure.{GoError}
use dobby_vpn.Routing.Plan.{World, repair_loop, repair}

-- What the repair of one lease does: nothing where the lease has no repair function.
abbrev pub effect : (ℕ → Bool × Option GoError) → World → ℕ → Bool × Option GoError
effect answer w i = if (w.heap i).repairable then answer i else (false, none)

abbrev pub any_changed : (ℕ → Bool × Option GoError) → World → List ℕ → Bool
any_changed answer w [] = false
any_changed answer w (i ∷ l) = (effect answer w i).0 || any_changed answer w l

abbrev pub AllRepaired : (ℕ → Bool × Option GoError) → World → List ℕ → Type 0
AllRepaired answer w = All (λ i. (effect answer w i).1 ≡ none)

-- How a loop over some leases ends.
abbrev pub Repaired : (ℕ → Bool × Option GoError) → World → List ℕ → Bool × Option GoError → Type 0
Repaired answer w l r =
    (AllRepaired answer w l × (r.0 ≡ any_changed answer w l) × (r.1 ≡ none))
    ⊎ ((before : List ℕ) × (i : ℕ) × (after : List ℕ) × (e : GoError) × (l ≡ before ++ (i ∷ after))
        × AllRepaired answer w before
        × ((effect answer w i).1 ≡ some e)
        × (r.0 ≡ any_changed answer w before)
        × (r.1 ≡ some e))

-- The loop, where `repaired` has been seen before.
repair_loop_lem :
    (answer : ℕ → Bool × Option GoError) (w : World) (repaired : Bool) (l : List ℕ)
    → let r = repair_loop answer w repaired l in
      (AllRepaired answer w l × (r.0 ≡ (repaired || any_changed answer w l)) × (r.1 ≡ none))
      ⊎ ((before : List ℕ) × (i : ℕ) × (after : List ℕ) × (e : GoError) × (l
            ≡ before ++ (i ∷ after))
          × AllRepaired answer w before
          × ((effect answer w i).1 ≡ some e)
          × (r.0 ≡ (repaired || any_changed answer w before))
          × (r.1 ≡ some e))
unfolding repair_loop
repair_loop_lem answer w repaired [] = inl (tt, ground arith, refl)
repair_loop_lem answer w repaired (i ∷ l) =
    let x = effect answer w i in
    let t = repair_loop_lem answer w (repaired || x.0) l in
    elim (Option-cases x.1) [
      | inr (e, q) ↦ inr ([], i, l, e, refl, tt, q, ground (arith, q), ground (arith, q))
      | inl q ↦ elim t [
        | inl (a, b, c) ↦ inl ((q, a), ground (arith, q, b), ground (arith, q, c))
        | inr (before, j, after, e, s, a, f, b, c) ↦ inr (
          i ∷ before,
          j,
          after,
          e,
          ap (λ l. i ∷ l) s,
          (q, a),
          f,
          ground (arith, q, b),
          ground (arith, q, c),
        )
      ]
    ]

-- A Repair of an open plan goes through the leases from the oldest on: it tells whether one of them
-- was restored, and stops at the first whose repair fails, with that error. A closed plan restores
-- nothing.
pub repair_lem :
    (answer : ℕ → Bool × Option GoError) (w : World)
    → ((w.plan.closed ≡ true) × (repair answer w ≡ (false, none)))
      ⊎ ((w.plan.closed ≡ false) × Repaired answer w (reverse w.plan.leases) (repair answer w))
unfolding repair
repair_lem answer w = elim (Bool-cases w.plan.closed) [
  | inl h ↦ inl (h, ground (arith, h))
  | inr h ↦
      let same : repair answer w ≡ repair_loop answer w false (reverse w.plan.leases) =
        rw (repair, h) refl in
      inr (h, rw same (repair_loop_lem answer w false (reverse w.plan.leases)))
]
