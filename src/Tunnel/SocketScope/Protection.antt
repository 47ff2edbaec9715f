-- ===== src/Tunnel/SocketScope/Protection.antt =====
-- What a closed scope refuses, and what a native socket may reach.
use dobby_vpn.Common.{
  ℕ, Bool, true, false, List, [], ◌∷◌, Option, none, some, String, ◌≡◌, ◌⊎◌, inl, inr, refl, arith,
  is_some, ◌∙◌, Option-cases, Bool-cases,
}
use dobby_vpn.Failure.{GoError, Result}
use dobby_vpn.Tunnel.SocketScope.{
  Network, Event, retires, SocketScope, new_socket_scope, Outside, close, protect_fd,
  protect_context_fd, protect_each, protect_socket_destinations, Call, ends, closes, guards,
  guards_native, step, run,
}

protect_context_fd-closed :
    (w : Outside) (s : SocketScope) (i fd : ℕ) (n : Network) (a : String) (log : List Event)
    → s.closed ≡ true
    → let r = protect_context_fd w (some s) i fd n a log in (r.0 ≡ log) × (is_some r.1 ≡ true)
unfolding protect_context_fd protect_fd
protect_context_fd-closed w s i fd n a log h = (ground arith, ground arith)

protect_each-closed :
    (w : Outside) (s : SocketScope) (i fd : ℕ) (n : Network) (a : String) (rest : List String)
    (log : List Event)
    → s.closed ≡ true
    → let r = protect_each w (some s) i fd n (a ∷ rest) log in (r.0 ≡ log) × (is_some r.1 ≡ true)
unfolding protect_each
protect_each-closed w s i fd n a rest log h =
    let c = protect_context_fd-closed w s i fd n a log h in
    (ground (arith, c.0, c.1), ground (arith, c.0, c.1))

protect_socket_destinations-closed :
    (w : Outside) (s : SocketScope) (fd : ℕ) (network : Result Network) (addresses : List String)
    (log : List Event)
    → s.closed ≡ true
    → let r = protect_socket_destinations w (some s) fd network addresses log in
      (r.0 ≡ log) × (is_some r.1 ≡ true)
unfolding protect_socket_destinations
protect_socket_destinations-closed w s fd network addresses log h =
    (ground (arith, protect_each-closed w s 1 fd), ground (arith, protect_each-closed w s 1 fd))

-- A call on a closed scope leaves it closed and does nothing to the outside.
step_closed :
    (s : SocketScope) (log : List Event) (c : Call)
    → s.closed ≡ true
    → let t = step (s, log) c in (t.0.closed ≡ true) × (t.1 ≡ log)
unfolding step close
step_closed s log (ends e) h = (h, refl)
step_closed s log (closes w) h = (ground arith, ground arith)
step_closed s log (guards w fd n a) h = (h, (protect_context_fd-closed w s 0 fd n a log h).0)
step_closed s log (guards_native w fd n addresses) h =
    (h, (protect_socket_destinations-closed w s fd n addresses log h).0)

run_closed :
    (s : SocketScope) (log : List Event) (cs : List Call)
    → s.closed ≡ true
    → let t = run (s, log) cs in (t.0.closed ≡ true) × (t.1 ≡ log)
unfolding run
run_closed s log [] h = (h, refl)
run_closed s log (c ∷ cs) h =
    let a = step_closed s log c h in
    let t = step (s, log) c in let b = run_closed t.0 t.1 cs a.0 in (b.0, b.1 ∙ a.1)

-- A scope that is closed has retired its permissions last, without an error.
abbrev IsRetired : ℕ → SocketScope × List Event → Type 0
IsRetired g t =
    (t.0.generation ≡ g)
    × (t.0.has_permissions ≡ true)
    × ((t.0.closed ≡ false) ⊎ ((rest : List Event) × (t.1 ≡ retires g none ∷ rest)))

step_open :
    (g : ℕ) (s : SocketScope) (log : List Event) (c : Call)
    → s.closed ≡ false
    → IsRetired g (s, log)
    → IsRetired g (step (s, log) c)
unfolding step close
step_open g s log (ends e) h v = (v.0, v.1, inl h)
step_open g s log (guards w fd n a) h v = (v.0, v.1, inl h)
step_open g s log (guards_native w fd n addresses) h v = (v.0, v.1, inl h)
step_open g s log (closes w) h v = elim (Option-cases w.retire) [
  | inl q ↦ (ground arith, ground arith, inr (log, ground arith))
  | inr (e, q) ↦ (ground arith, ground arith, inl (ground arith))
]

step_kept :
    (s : SocketScope) (log : List Event) (c : Call)
    → let t = step (s, log) c in
      (t.0.generation ≡ s.generation) × (t.0.has_permissions ≡ s.has_permissions)
unfolding step close
step_kept s log (ends e) = (refl, refl)
step_kept s log (guards w fd n a) = (refl, refl)
step_kept s log (guards_native w fd n addresses) = (refl, refl)
step_kept s log (closes w) = (ground arith, ground arith)

step-IsRetired :
    (g : ℕ) (t : SocketScope × List Event) (c : Call) → IsRetired g t → IsRetired g (step t c)
step-IsRetired g (s, log) c v = elim (Bool-cases s.closed) [
  | inr h ↦ step_open g s log c h v
  | inl h ↦
      let k = step_kept s log c in
      let same = step_closed s log c h in
      (
        k.0 ∙ v.0,
        k.1 ∙ v.1,
        elim v.2 [ inl f ↦ absurd (cc) | inr (rest, q) ↦ inr (rest, same.1 ∙ q) ],
      )
]

run-IsRetired :
    (g : ℕ) (t : SocketScope × List Event) (cs : List Call) → IsRetired g t → IsRetired g (run t cs)
unfolding run
run-IsRetired g t [] v = v
run-IsRetired g t (c ∷ cs) v = run-IsRetired g (step t c) cs (step-IsRetired g t c v)

-- Once the scope of an attempt with permissions is closed, in any history of it, the last thing that it
-- asked of the outside was to retire them, and that succeeded: whatever is called then, nothing is
-- asked to be authorized or protected any more, and every socket is refused.
pub run_retired :
    (parent : Option GoError) (g : ℕ) (protector : Bool) (cs ds : List Call) (w : Outside) (fd : ℕ)
    (n : Network) (a : String)
    → let t = run (new_socket_scope parent g protector true, []) cs in
      t.0.closed ≡ true
      → let u = run t ds in
        (u.1 ≡ t.1)
        × (u.0.closed ≡ true)
        × (is_some (protect_context_fd w (some u.0) 0 fd n a u.1).1 ≡ true)
        × (rest : List Event) × (t.1 ≡ retires g none ∷ rest)
run_retired parent g protector cs ds w fd n a h =
    let s = new_socket_scope parent g protector true in
    let start : IsRetired g (s, []) = unfold new_socket_scope in (refl, refl, inl refl) in
    let t = run (s, []) cs in
    let r = run-IsRetired g (s, []) cs start in
    let u = run_closed t.0 t.1 ds h in
    let last : (rest : List Event) × (t.1 ≡ retires g none ∷ rest) = elim r.2 [
      | inl f ↦ absurd (cc)
      | inr l ↦ l
    ] in
    (
      u.1,
      u.0,
      (protect_context_fd-closed w (run t ds).0 0 fd n a (run t ds).1 u.0).1,
      last.0,
      last.1,
    )
