-- ===== src/Runtime/Readiness.antt =====
-- core/sessionapi/runtime/lifecycle.go: waitForInitialReadiness, and onlyCanceledLeaves, by which a
-- failed wait is logged.
use dobby_vpn.Common.{
  ℕ, zero, suc, ◌+◌, ◌≤◌, ◌<◌, Bool, true, false, ◌&&◌, List, [], ◌∷◌, ◌==◌, ◌⊎◌, ◌++◌, Option,
  none, some, String, ◌≡◌, ◌↔◌, refl, arith, is_some, if◌then◌else◌, inl, inr,
}
use dobby_vpn.Failure.{
  GoError, join_all, foreign, formatted, joined, context_canceled, context_deadline, domain,
  domain_with, cleanup_failure, is_canceled, is_deadline,
}
use native.Mathlib.Decide.{ℕ_discrete}

-- What happens in an attempt, by its number: ctx.Err() before the check, the check, ctx.Err() after
-- it, and the end of the context during the pause. `stamp` is the text "attempt %d/%d".
pub record Probes : Type 0 where
  pub before : ℕ → Option GoError
  pub check : ℕ → Option GoError
  pub after : ℕ → Option GoError
  pub pause : ℕ → Option GoError
  pub stamp : ℕ → String

-- errors.Join of an error with what may be nil.
abbrev onto : GoError → Option GoError → GoError
onto e none = e
onto e (some d) = joined e d

abbrev ended : GoError → List GoError → Option GoError
ended e errors = some (onto e (join_all errors))

-- fmt.Errorf with a nil error would still be an error; it is not reached with no errors.
abbrev exhausted : List GoError → Option GoError
exhausted errors = some (elim (join_all errors) [
  | none ↦ foreign "readiness failed"
  | some e ↦ formatted "readiness failed" e
])

-- The errors of the attempts so far, with the failure of one more.
abbrev pub noted : String → Option GoError → List GoError → List GoError
noted stamp none errors = errors
noted stamp (some e) errors = errors ++ (formatted stamp e ∷ [])

-- The loop, with the rounds that are left, the attempt's number and the errors so far.
unfoldable pub readiness_loop : Probes → ℕ → ℕ → List GoError → Option GoError
unfolding join_all
readiness_loop p zero i errors = exhausted errors
readiness_loop p (suc n) i errors =
    let later = readiness_loop p n (i + 1) in
    elim (p.before i) [
      | some e ↦ ended e errors
      | none ↦ elim (p.check i) [
        | none ↦ none
        | some e ↦
            let more = noted (p.stamp i) (p.check i) errors in
            elim (p.after i) [
              | some d ↦ ended d more
              | none ↦
                  if n == 0
                  then exhausted more
                  else elim (p.pause i) [ some d ↦ ended d more | none ↦ later more ]
            ]
      ]
    ]

unfoldable pub wait_for_readiness : Probes → ℕ → Option GoError
unfolding readiness_loop
wait_for_readiness p zero = some (foreign "initial readiness has no attempts configured")
wait_for_readiness p (suc n) = readiness_loop p (suc n) 1 []

-- An attempt that failed and after which the wait went on.
abbrev pub Missed : Probes → ℕ → Type 0
Missed p i =
    (p.before i ≡ none) × (is_some (p.check i) ≡ true) × (p.after i ≡ none) × (p.pause i ≡ none)

-- The attempt that succeeded, and the ones before it.
abbrev pub IsReadyAt : Probes → ℕ → ℕ → Type 0
IsReadyAt p from at =
    (p.before at ≡ none) × (p.check at ≡ none) × ((i : ℕ) → from ≤ i → i < at → Missed p i)

-- How one round comes to succeed in the end.
readiness-step :
    (p : Probes) (n i : ℕ) (errors : List GoError)
    → readiness_loop p (suc n) i errors ≡ none
    → ((p.before i ≡ none) × (p.check i ≡ none))
      ⊎ (Missed p i × (readiness_loop p n (i + 1) (noted (p.stamp i) (p.check i) errors) ≡ none))
unfolding readiness_loop
readiness-step p zero i errors h = ground arith
readiness-step p (suc n) i errors h = ground arith

readiness_loop-ready :
    (p : Probes) (n i : ℕ) (errors : List GoError)
    → readiness_loop p n i errors ≡ none
    → (at : ℕ) × (i ≤ at) × (at < i + n) × IsReadyAt p i at
readiness_loop-ready p zero i errors h = unfold readiness_loop in cc
readiness_loop-ready p (suc n) i errors h = elim (readiness-step p n i errors h) [
  | inl (b, c) ↦ (i, omega arith, omega arith, (b, c, λ j l u. absurd (omega arith)))
  | inr (m, r) ↦
      let (at, l, u, (b, c, before)) = readiness_loop-ready p n (i + 1) _ r in
      (
        at,
        omega arith,
        omega arith,
        (
          b,
          c,
          λ j k v. elim (ℕ_discrete i j) [
            | yes e ↦ rw e at m
            | no d ↦ before j (omega (arith, k, d)) v
          ],
        ),
      )
]

ready-readiness_loop :
    (p : Probes) (n i at : ℕ) (errors : List GoError)
    → i ≤ at
    → at < i + n
    → IsReadyAt p i at
    → readiness_loop p n i errors ≡ none
unfolding readiness_loop
ready-readiness_loop p zero i at errors l u (b, c, before) = absurd (omega arith)
ready-readiness_loop p (suc n) i at errors l u (b, c, before) = elim (ℕ_discrete i at) [
  | yes e ↦ ground (arith, e, b, c)
  | no d ↦
      let m = before i (omega arith) (omega (arith, d)) in
      let later =
        ready-readiness_loop p n (i + 1) at (noted (p.stamp i) (p.check i) errors)
          (omega (arith, d)) (omega arith) (b, c, λ j k v. before j (omega arith) v) in
      ground (arith, m, later, d)
]

-- The wait succeeds exactly where one of the attempts succeeds while the context lives, and every
-- attempt before it failed in a living context that outlived the pause too.
pub wait_for_readiness_iff :
    (p : Probes) (attempts : ℕ)
    → (wait_for_readiness p attempts ≡ none)
      ↔ ((at : ℕ) × (1 ≤ at) × (at ≤ attempts) × IsReadyAt p 1 at)
unfolding wait_for_readiness
wait_for_readiness_iff p zero = ((λ h. cc), (λ (at, l, u, r). absurd (omega arith)))
wait_for_readiness_iff p (suc n) = (
  (λ h. let (at, l, u, r) = readiness_loop-ready p (suc n) 1 [] h in (at, l, omega (arith, u), r)),
  (λ (at, l, u, r). ready-readiness_loop p (suc n) 1 at [] l (omega (arith, u)) r),
)

-- onlyCanceledLeaves, of an error that is not nil.
unfoldable pub only_canceled_leaves : GoError → Bool
only_canceled_leaves context_canceled = true
only_canceled_leaves context_deadline = false
only_canceled_leaves (foreign text) = false
only_canceled_leaves (domain code text) = false
only_canceled_leaves (domain_with code text cause) = only_canceled_leaves cause
only_canceled_leaves (cleanup_failure e) = only_canceled_leaves e
only_canceled_leaves (formatted text e) = only_canceled_leaves e
only_canceled_leaves (joined a b) = only_canceled_leaves a && only_canceled_leaves b

-- What has only canceled leaves is a cancellation, and has no deadline in it.
pub only_canceled_leaves-canceled :
    (e : GoError) → only_canceled_leaves e ≡ true → (is_canceled e ≡ true) × (is_deadline e ≡ false)
unfolding only_canceled_leaves is_canceled is_deadline
only_canceled_leaves-canceled context_canceled h = (refl, refl)
only_canceled_leaves-canceled context_deadline h = cc
only_canceled_leaves-canceled (foreign text) h = cc
only_canceled_leaves-canceled (domain code text) h = cc
only_canceled_leaves-canceled (domain_with code text cause) h =
    only_canceled_leaves-canceled cause h
only_canceled_leaves-canceled (cleanup_failure e) h = only_canceled_leaves-canceled e h
only_canceled_leaves-canceled (formatted text e) h = only_canceled_leaves-canceled e h
only_canceled_leaves-canceled (joined a b) h =
    ground (arith, only_canceled_leaves-canceled a, only_canceled_leaves-canceled b)
