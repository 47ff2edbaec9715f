-- ===== src/Outline/Device/Shutdown.antt =====
-- What a Close of a device that succeeds leaves.
use dobby_vpn.Common.{
  ℕ, ◌⊎◌, ◌+◌, ◌≤◌, true, false, List, [], ◌∷◌, Option, none, some, ◌≡◌, ◌==◌, refl, arith, count,
  not-contains-count, no_count, if◌then◌else◌, Option-cases, inl, inr, is_some, ap, sym, ◌∙◌,
}
use dobby_vpn.Failure.{GoError, join}
use dobby_vpn.Outline.Device.{
  OutlineDevice, without, track, close_conn, submit, end_worker, Call, tracks, submits, ends,
  closes, step, run, Closing, close_each, begin_close, finish_close, close, listener_error,
}

count-without : (c d : ℕ) (l : List ℕ) → count d (without c l) ≡ (if c == d then 0 else count d l)
unfolding count without
count-without c d [] = ground arith
count-without c d (x ∷ xs) = ground (arith, count-without c d xs)

-- A device that is closing and has no worker.
pub record IsQuiet (d : OutlineDevice) : Type 0 where
  pub closing : d.closing ≡ true
  pub idle : d.workers ≡ 0

step_quiet : (d : OutlineDevice) (c : Call) → IsQuiet d → step d c ≡ d
unfolding step
step_quiet d tracks q = ground (arith, q.idle)
step_quiet d submits q = ground (arith, q.idle)
step_quiet d ends q = ground (arith, q.idle)
step_quiet d (closes c answer) q = ground (arith, q.idle)

run_quiet : (d : OutlineDevice) (cs : List Call) → IsQuiet d → run d cs ≡ d
unfolding run
run_quiet d [] q = refl
run_quiet d (c ∷ cs) q = rw (step_quiet d c q) (run_quiet d cs q)

close_conn_lem :
    (d : OutlineDevice) (c : ℕ) (answer : Option GoError) (x : ℕ)
    → let r = close_conn d c answer in
      (r.0.closing ≡ d.closing)
      × (r.0.workers ≡ d.workers)
      × (count x r.0.connections ≤ count x d.connections)
      × ((is_some r.1 ≡ true) ⊎ (count c r.0.connections ≡ 0))
unfolding close_conn
close_conn_lem d c none x = (
  ground arith,
  ground arith,
  ground (arith, count-without c x d.connections),
  ground (arith, count-without c c d.connections, not-contains-count c d.connections),
)
close_conn_lem d c (some e) x =
    (ground arith, ground arith, ground arith, ground (arith, not-contains-count c d.connections))

join-none : (a b : Option GoError) → join a b ≡ none → (a ≡ none) × (b ≡ none)
join-none a b h = (ground arith, ground arith)

-- Closing every connection of a list without an error leaves none of them.
close_each_quiet :
    (answer : ℕ → Option GoError) (d : OutlineDevice) (n : ℕ) (cs : List ℕ)
    (result : Option GoError) (x : ℕ)
    → IsQuiet d
    → let r = close_each answer (λ n. []) d n cs result in
      r.1 ≡ none
      → (r.0.closing ≡ true)
        × (r.0.workers ≡ 0)
        × (result ≡ none)
        × (count x r.0.connections ≤ count x d.connections)
        × ((count x cs ≡ 0) ⊎ (count x r.0.connections ≡ 0))
unfolding close_each run count
close_each_quiet answer d n [] result x q h = (q.closing, q.idle, h, omega arith, inl refl)
close_each_quiet answer d n (c ∷ cs) result x q h =
    let r = close_conn d c (answer c) in
    let k = close_conn_lem d c (answer c) x in
    let own = close_conn_lem d c (answer c) c in
    let quiet : IsQuiet r.0 = record { closing = k.0 ∙ q.closing; idle = k.1 ∙ q.idle } in
    let t = close_each_quiet answer r.0 (n + 1) cs (join result r.1) x quiet h in
    let j = join-none result r.1 t.2 in
    (t.0, t.1, j.0, omega (arith, t.3, k.2), ground (arith, t.3, t.4, own.3, j.1))

step_closing : (d : OutlineDevice) (c : Call) → d.closing ≡ true → (step d c).closing ≡ true
unfolding step track submit end_worker
step_closing d tracks h = ground arith
step_closing d submits h = ground arith
step_closing d ends h = ground arith
step_closing d (closes c answer) h = ground (arith, close_conn_lem d c answer 0)

run_closing : (d : OutlineDevice) (cs : List Call) → d.closing ≡ true → (run d cs).closing ≡ true
unfolding run
run_closing d [] h = h
run_closing d (c ∷ cs) h = run_closing (step d c) cs (step_closing d c h)

close_each_closing :
    (answer : ℕ → Option GoError) (meanwhile : ℕ → List Call) (d : OutlineDevice) (n : ℕ)
    (cs : List ℕ) (result : Option GoError)
    → d.closing ≡ true
    → (close_each answer meanwhile d n cs result).0.closing ≡ true
unfolding close_each
close_each_closing answer meanwhile d n [] result h = h
close_each_closing answer meanwhile d n (c ∷ cs) result h =
    let e = run d (meanwhile n) in
    let r = close_conn e c (answer c) in
    close_each_closing answer meanwhile r.0 (n + 1) cs (join result r.1)
      ((close_conn_lem e c (answer c) 0).0 ∙ run_closing d (meanwhile n) h)

-- The second half of a Close that succeeds.
finish_close_lem :
    (d : OutlineDevice) (c : Closing) (e : OutlineDevice)
    → d.closing ≡ true
    → finish_close d c ≡ some (e, none)
    → (e.closing ≡ true) × (e.workers ≡ 0) × (e.connections ≡ [])
unfolding finish_close
finish_close_lem d c e h q =
    let t = run d c.drain in
    let idle : t.workers ≡ 0 = ground arith in
    let quiet : IsQuiet t = record { closing = run_closing d c.drain h; idle = idle } in
    let r = close_each c.late (λ n. []) t 0 t.connections none in
    let same : (r.0 ≡ e) × (r.1 ≡ none) = (ground (arith, idle), ground (arith, idle)) in
    let each = λ (x : ℕ). close_each_quiet c.late t 0 t.connections none x quiet same.1 in
    let left : r.0.connections ≡ [] =
      no_count r.0.connections (λ x. ground (arith, (each x).3, (each x).4)) in
    (
      ground (arith, (each 0).0, same.0),
      ground (arith, (each 0).1, same.0),
      ap (λ z. z.connections) (sym same.0) ∙ left,
    )

-- A Close that answers without an error, whatever the workers did meanwhile, leaves a device without a
-- worker and without a connection, the late ones included, and nothing that is called afterwards
-- changes that.
pub close-run :
    (d : OutlineDevice) (c : Closing) (e : OutlineDevice) (cs : List Call)
    → close d c ≡ some (e, none)
    → (e.closing ≡ true) × (e.workers ≡ 0) × (e.connections ≡ []) × (run e cs ≡ e)
unfolding close
close-run d c e cs h =
    let begun = record (begin_close d) { listening = false } in
    let first = close_each c.answer c.meanwhile begun 0 d.connections (listener_error c.listener) in
    let started : begun.closing ≡ true = unfold begin_close in refl in
    let shut =
      close_each_closing c.answer c.meanwhile begun 0 d.connections (listener_error c.listener)
        started in
    elim (Option-cases first.1) [
      | inr (x, q) ↦ absurd (ground (arith, q))
      | inl q ↦
          let last : finish_close first.0 c ≡ some (e, none) = ground (arith, q) in
          let f = finish_close_lem first.0 c e shut last in
          (f.0, f.1, f.2, run_quiet e cs (record { closing = f.0; idle = f.1 }))
    ]
