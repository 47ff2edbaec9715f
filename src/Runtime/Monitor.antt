-- ===== src/Runtime/Monitor.antt =====
-- core/sessionapi/runtime/lifecycle.go: the loop of startHealthMonitor over the results of its
-- checks, where its context does not end.
use dobby_vpn.Common.{
  ℕ, ◌+◌, ◌≤◌, ◌<◌, true, List, [], ◌∷◌, ◌++◌, Option, none, some, ◌≡◌, refl, sym, ◌∙◌, ap,
  if◌then◌else◌, arith, length, leb, is_some, Bool-cases, inl, inr, length-append,
}
use dobby_vpn.Failure.{GoError, join_all}

-- `failures` are the failures since the last success, in order. The answer is what is sent on
-- healthFailed; none where the results come to an end first.
unfoldable pub monitor : ℕ → List GoError → List (Option GoError) → Option (Option GoError)
unfolding join_all
monitor threshold failures [] = none
monitor threshold failures (none ∷ rest) = monitor threshold [] rest
monitor threshold failures (some e ∷ rest) =
    let later = monitor threshold (failures ++ (e ∷ [])) rest in
    if leb threshold (length (failures ++ (e ∷ [])))
    then some (join_all (failures ++ (e ∷ [])))
    else later

-- Checks that have failed.
pub failed : List GoError → List (Option GoError)
failed [] = []
failed (e ∷ es) = some e ∷ failed es

append_assoc : (a b c : List (Option GoError)) → (a ++ b) ++ c ≡ a ++ (b ++ c)
append_assoc [] b c = refl
append_assoc (x ∷ a) b c = ap (λ l. x ∷ l) (append_assoc a b c)

failed-append :
    (f : List GoError) (e : GoError) (rest : List (Option GoError))
    → failed (f ++ (e ∷ [])) ++ rest ≡ failed f ++ (some e ∷ rest)
unfolding failed
failed-append [] e rest = refl
failed-append (x ∷ f) e rest = ap (λ l. some x ∷ l) (failed-append f e rest)

-- Where the results hold a run of so many failures, which have the cause.
abbrev pub Run : ℕ → List (Option GoError) → Option GoError → Type 0
Run threshold results cause =
    (before : List (Option GoError)) × (run : List GoError) × (rest : List (Option GoError))
    × (results ≡ before ++ (failed run ++ rest))
    × (length run ≡ threshold)
    × (cause ≡ join_all run)

monitor-Run :
    (threshold : ℕ) (f : List GoError) (rs : List (Option GoError)) (cause : Option GoError)
    → length f < threshold
    → monitor threshold f rs ≡ some cause
    → Run threshold (failed f ++ rs) cause
unfolding monitor failed
monitor-Run threshold f [] cause b h = cc
monitor-Run threshold f (none ∷ rs) cause b h =
    let (before, run, rest, e, l, c) = monitor-Run threshold [] rs cause (omega (arith, b)) h in
    (
      failed f ++ (none ∷ before),
      run,
      rest,
      ap (λ t. failed f ++ (none ∷ t)) e
          ∙ sym (append_assoc (failed f) (none ∷ before) (failed run ++ rest)),
      l,
      c,
    )
monitor-Run threshold f (some e ∷ rs) cause b h =
    let longer = length-append f (e ∷ []) in
    elim (Bool-cases (leb threshold (length (f ++ (e ∷ []))))) [
      | inl t ↦
          let h' : some (join_all (f ++ (e ∷ []))) ≡ some cause = rw (t, monitor) at h in
          ([], f ++ (e ∷ []), rs, sym (failed-append f e rs), ground (arith, b, t, longer), cc)
      | inr n ↦
          let (before, run, rest, q, l, c) =
            monitor-Run threshold (f ++ (e ∷ [])) rs cause (ground (arith, n))
              (rw (n, monitor) at h) in
          (before, run, rest, sym (failed-append f e rs) ∙ q, l, c)
    ]

-- A run that completes the threshold is reported, if nothing was before it.
monitor_ends :
    (threshold : ℕ) (f run : List GoError) (rest : List (Option GoError))
    → length f < threshold
    → threshold ≤ length f + length run
    → is_some (monitor threshold f (failed run ++ rest)) ≡ true
unfolding monitor failed
monitor_ends threshold f [] rest b l = absurd (omega (arith, b, l))
monitor_ends threshold f (e ∷ run) rest b l =
    ground (arith, length-append f (e ∷ []), monitor_ends threshold (f ++ (e ∷ [])) run rest)

monitor_finds :
    (threshold : ℕ) (f run : List GoError) (before rest : List (Option GoError))
    → length f < threshold
    → threshold ≤ length run
    → is_some (monitor threshold f (before ++ (failed run ++ rest))) ≡ true
unfolding monitor
monitor_finds threshold f run [] rest b l = monitor_ends threshold f run rest b (omega (arith, l))
monitor_finds threshold f run (none ∷ before) rest b l =
    monitor_finds threshold [] run before rest (omega (arith, b)) l
monitor_finds threshold f run (some e ∷ before) rest b l =
    ground (arith, monitor_finds threshold (f ++ (e ∷ [])) run before rest)

-- With a threshold above 0 the monitor reports a failure exactly where as many checks in a row as
-- the threshold says have failed: what it reports are the failures of such a run, joined, and
-- wherever the results hold such a run it reports something.
pub monitor-reports :
    (threshold : ℕ) (rs : List (Option GoError))
    → 0 < threshold
    → ((cause : Option GoError) → monitor threshold [] rs ≡ some cause → Run threshold rs cause)
      × ((before rest : List (Option GoError)) (run : List GoError)
          → rs ≡ before ++ (failed run ++ rest)
          → length run ≡ threshold
          → is_some (monitor threshold [] rs) ≡ true)
monitor-reports threshold rs b = (
  (λ cause h. unfold failed in monitor-Run threshold [] rs cause b h),
  (λ before rest run e l. rw e (monitor_finds threshold [] run before rest b (omega (arith, l)))),
)
