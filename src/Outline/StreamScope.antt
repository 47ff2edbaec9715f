-- ===== src/Outline/StreamScope.antt =====
-- core/outline/ownership.go: pendingStreamConnScope, which owns raw sockets until a transport's
-- handshakes have finished. The method bodies hold the lock up to their Close calls, which are
-- part of the step.
use dobby_vpn.Common.{
  ◌<◌, ◌≤◌, ℕ, ◌+◌, Bool, true, false, not, ◌||◌, List, [], ◌∷◌, ◌++◌, Option, none, some, ◌≡◌,
  refl, arith, if◌then◌else◌, is_some, contains, ◌∙◌, count, count-append,
}
use dobby_vpn.Failure.{GoError}
use dobby_vpn.Tunnel.FlowOwner.{closed_error}

-- `context` is ctx.Err(). `closed` collects the sockets that the scope has closed, and `owned`
-- those that a handoff has left to the transport.
pub record Scope : Type 0 where
  pub context : Option GoError
  pub pending : List ℕ
  pub aborted : Bool
  pub handed_off : Bool
  pub closed : List ℕ
  pub owned : List ℕ

unfoldable pub new_scope : Option GoError → Scope
new_scope context = record {
  context = context;
  pending = [];
  aborted = false;
  handed_off = false;
  closed = [];
  owned = [];
}

-- takePendingLocked and closeStreamConns.
unfoldable pub close_pending : Scope → Scope
close_pending s = record s { pending = []; closed = s.pending ++ s.closed }

abbrev register_error : Option GoError → GoError
register_error (some e) = e
register_error none = closed_error

unfoldable pub register : Scope → ℕ → Scope × Option GoError
unfolding close_pending
register s conn =
    if s.aborted || s.handed_off || is_some s.context
    then (
      let t = close_pending (record s { aborted = s.aborted || not s.handed_off }) in
          record t { closed = conn ∷ t.closed },
      some (register_error s.context),
    )
    else (
      record s { pending = if contains conn s.pending then s.pending else conn ∷ s.pending },
      none,
    )

unfoldable pub handoff : Scope → Scope × Bool
unfolding close_pending
handoff s =
    if s.aborted || is_some s.context
    then (close_pending (record s { aborted = true }), false)
    else (record s { handed_off = true; pending = []; owned = s.pending ++ s.owned }, true)

unfoldable pub abort : Scope → Scope
unfolding close_pending
abort s = if s.handed_off then s else close_pending (record s { aborted = true })

-- The context ends, for good.
unfoldable pub expire : Scope → GoError → Scope
expire s e = record s { context = elim s.context [ none ↦ some e | some d ↦ some d ] }

pub data Call : Type 0 where
  registers : ℕ → Call
  hands_off aborts : Call
  expires : GoError → Call

unfoldable pub step : Scope → Call → Scope
unfolding register handoff abort expire
step s (registers conn) = (register s conn).0
step s hands_off = (handoff s).0
step s aborts = abort s
step s (expires e) = expire s e

unfoldable pub run : Scope → List Call → Scope
run s [] = s
run s (c ∷ cs) = run (step s c) cs

-- The sockets that a history registers.
unfoldable pub registered : List Call → List ℕ
registered [] = []
registered (registers conn ∷ cs) = conn ∷ registered cs
registered (hands_off ∷ cs) = registered cs
registered (aborts ∷ cs) = registered cs
registered (expires e ∷ cs) = registered cs

abbrev pub held : ℕ → Scope → ℕ
held a s = count a s.pending + count a s.closed + count a s.owned

contains-count : (a : ℕ) (xs : List ℕ) → contains a xs ≡ true → 0 < count a xs
unfolding count
contains-count a [] h = cc
contains-count a (x ∷ xs) h = ground (arith, contains-count a xs)

step-held :
    (a : ℕ) (s : Scope) (c : Call) (cs : List Call)
    → held a s + count a (registered (c ∷ cs)) ≤ 1
    → held a (step s c) + count a (registered cs) ≡ held a s + count a (registered (c ∷ cs))
unfolding step registered count
step-held a s (registers conn) cs h =
    ground (arith, count-append a s.pending s.closed, contains-count a s.pending)
step-held a s hands_off cs h =
    ground (arith, count-append a s.pending s.closed, count-append a s.pending s.owned)
step-held a s aborts cs h = ground (arith, count-append a s.pending s.closed)
step-held a s (expires e) cs h = ground arith

-- No socket is lost or owned twice: whatever is called in a history that registers the socket at
-- most once, it is at any time, from its registration on, either pending, closed by the scope, or
-- handed over, and only one of these.
pub run-held :
    (a : ℕ) (s : Scope) (cs : List Call)
    → held a s + count a (registered cs) ≤ 1
    → held a (run s cs) ≡ held a s + count a (registered cs)
unfolding run registered
run-held a s [] h = unfold count in omega arith
run-held a s (c ∷ cs) h =
    let e = step-held a s c cs h in run-held a (step s c) cs (omega (arith, h, e)) ∙ e

-- A scope that has come to an end, by a handoff or an abort, holds nothing.
pub record Inv (s : Scope) : Type 0 where
  pub ended : (s.aborted || s.handed_off) ≡ true → s.pending ≡ []
  pub unowned : s.handed_off ≡ false → s.owned ≡ []

step-Inv : (s : Scope) (c : Call) → Inv s → Inv (step s c)
unfolding step
step-Inv s (registers conn) v = ground arith
step-Inv s hands_off v = ground arith
step-Inv s aborts v = ground arith
step-Inv s (expires e) v = ground arith

run-Inv : (s : Scope) (cs : List Call) → Inv s → Inv (run s cs)
unfolding run
run-Inv s [] v = v
run-Inv s (c ∷ cs) v = run-Inv (step s c) cs (step-Inv s c v)

abort-ended : (s : Scope) → Inv s → ((abort s).aborted || (abort s).handed_off) ≡ true
unfolding abort
abort-ended s v = ground arith

-- What an ended scope does with all that follows.
step_ended :
    (s : Scope) (c : Call)
    → (s.aborted || s.handed_off) ≡ true
    → Inv s
    → (((step s c).aborted || (step s c).handed_off) ≡ true) × ((step s c).owned ≡ s.owned)
unfolding step
step_ended s (registers conn) h v = (ground arith, ground arith)
step_ended s hands_off h v = (ground arith, ground (arith, v.ended h))
step_ended s aborts h v = (ground arith, ground arith)
step_ended s (expires e) h v = (ground arith, ground arith)

ended_run :
    (s : Scope) (cs : List Call) (conn : ℕ)
    → (s.aborted || s.handed_off) ≡ true
    → Inv s
    → ((run s cs).owned ≡ s.owned)
      × ((run s cs).pending ≡ [])
      × (is_some (register (run s cs) conn).1 ≡ true)
      × ((register (run s cs) conn).0.closed ≡ conn ∷ (run s cs).closed)
unfolding run register
ended_run s [] conn h v = (refl, v.ended h, ground arith, ground (arith, v.ended h))
ended_run s (c ∷ cs) conn h v =
    let e = step_ended s c h v in
    let r = ended_run (step s c) cs conn e.0 (step-Inv s c v) in (r.0 ∙ e.1, r.1, r.2, r.3)

abort-owned : (s : Scope) → (abort s).owned ≡ s.owned
unfolding abort
abort-owned s = ground arith

-- After an abort of a scope that satisfies the invariant, whatever was handed over before, nothing
-- more is handed over in any history, and every later socket is refused and closed at once.
pub run_aborted :
    (s : Scope) (cs : List Call) (conn : ℕ)
    → Inv s
    → let t = run (abort s) cs in
      (t.owned ≡ s.owned)
      × (t.pending ≡ [])
      × (is_some (register t conn).1 ≡ true)
      × ((register t conn).0.closed ≡ conn ∷ t.closed)
run_aborted s cs conn v =
    let w : Inv (abort s) = unfold step in step-Inv s aborts v in
    let r = ended_run (abort s) cs conn (abort-ended s v) w in (r.0 ∙ abort-owned s, r.1, r.2, r.3)
