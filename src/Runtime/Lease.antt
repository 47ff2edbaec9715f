-- ===== src/Runtime/Lease.antt =====
-- core/sessionapi/runtime/lifecycle.go: the type lease, whose Stop undoes what Start has acquired.
use dobby_vpn.Common.{
  ℕ, ◌+◌, Bool, true, false, List, [], ◌∷◌, ◌++◌, Option, none, some, ◌≡◌, refl, ◌∙◌, ap,
  if◌then◌else◌, arith, Option-cases, inl, inr,
}
use dobby_vpn.Failure.{GoError}

-- An undo function is its number, the newest first. `undone` collects those that have succeeded,
-- the first of them first. `watched` is whether onDone is set, and `done` counts its calls.
-- `monitored` is whether a health monitor was started, and `canceled` whether it was told to end.
pub record Lease : Type 0 where
  pub stopped : Bool
  pub undo : List ℕ
  pub undone : List ℕ
  pub monitored : Bool
  pub canceled : Bool
  pub watched : Bool
  pub done : ℕ

abbrev pub new_lease : Lease
new_lease = record {
  stopped = false;
  undo = [];
  undone = [];
  monitored = false;
  canceled = false;
  watched = false;
  done = 0;
}

-- setOnDone.
abbrev pub watch : Lease → Lease
watch l = record l { watched = true }

unfoldable pub push : Lease → ℕ → Lease
push l f = record l { undo = f ∷ l.undo }

unfoldable pub finish : Lease → Lease
finish l = record l { stopped = true; done = if l.watched then l.done + 1 else l.done }

unfoldable pub undo_one : Lease → ℕ → List ℕ → Lease
undo_one l f rest = record l { undo = rest; undone = l.undone ++ (f ∷ []) }

-- The loop over the undo functions; `answer` gives what they answer.
unfoldable pub undo_loop : (ℕ → Option GoError) → Lease → List ℕ → Option GoError × Lease
unfolding finish undo_one
undo_loop answer l [] = (none, finish (record l { undo = [] }))
undo_loop answer l (f ∷ rest) =
    let later = undo_loop answer (undo_one l f rest) rest in
    elim (answer f) [ none ↦ later | some e ↦ (some e, record l { undo = f ∷ rest }) ]

-- Stop. `late` is ctx.Err() where the context ends before the health monitor does.
unfoldable pub stop : (ℕ → Option GoError) → Option GoError → Lease → Option GoError × Lease
unfolding undo_loop
stop answer late l = if l.stopped then (none, l) else elim (if l.monitored then late else none) [
  | some e ↦ (some e, record l { canceled = l.monitored })
  | none ↦ undo_loop answer (record l { canceled = l.monitored }) l.undo
]

-- Stops in a row, each with its own answers.
unfoldable pub stops : List ((ℕ → Option GoError) × Option GoError) → Lease → Lease
stops [] l = l
stops ((answer, late) ∷ rest) l = stops rest (stop answer late l).1

append_assoc : (a b c : List ℕ) → (a ++ b) ++ c ≡ a ++ (b ++ c)
append_assoc [] b c = refl
append_assoc (x ∷ a) b c = ap (λ l. x ∷ l) (append_assoc a b c)

-- The undo functions that have run and those that are left, in the order in which they run.
abbrev pub order : Lease → List ℕ
order l = l.undone ++ l.undo

undo_loop-order :
    (answer : ℕ → Option GoError) (l : Lease) (todo : List ℕ)
    → order (undo_loop answer l todo).1 ≡ l.undone ++ todo
unfolding undo_loop
undo_loop-order answer l [] = refl
undo_loop-order answer l (f ∷ rest) = elim (Option-cases (answer f)) [
  | inl e ↦
      rw (e, undo_loop)
        (undo_loop-order answer (undo_one l f rest) rest ∙ append_assoc l.undone (f ∷ []) rest)
  | inr (x, e) ↦ rw (e, undo_loop) refl
]

pub stop-order :
    (answer : ℕ → Option GoError) (late : Option GoError) (l : Lease)
    → order (stop answer late l).1 ≡ order l
unfolding stop
stop-order answer late l =
    ground (arith, undo_loop-order answer (record l { canceled = l.monitored }) l.undo)

-- Whatever Stops fail, and wherever, each undo function succeeds at most once and none before one
-- that was pushed later: those that have succeeded, followed by those that are left, stay the
-- functions that the lease was started with, the newest first.
pub stops-order :
    (rest : List ((ℕ → Option GoError) × Option GoError)) (l : Lease)
    → order (stops rest l) ≡ order l
unfolding stops
stops-order [] l = refl
stops-order ((answer, late) ∷ rest) l =
    stops-order rest (stop answer late l).1 ∙ stop-order answer late l
