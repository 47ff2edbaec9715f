-- ===== src/Tunnel/FlowOwner/Laws.antt =====
-- A sealed generation takes no new dial or connection, and its wait tells what it still owns.
use dobby_vpn.Common.{
  ℕ, ◌<◌, ◌≤◌, Bool, true, false, List, [], ◌∷◌, Option, none, some, ◌==◌, ◌≡◌, ◌≢◌, ◌⊎◌, ◌↔◌, ◌∙◌,
  refl, is_some, if◌then◌else◌, arith,
}
use dobby_vpn.Failure.{GoError}
use dobby_vpn.Tunnel.FlowOwner.{
  Call, watches, begins, links, ends, tracks, releases, seals, step, run, FlowOwner, delete, insert,
  lookup, done, begin_dial, pending_tcp_context, end_dial, track, release, residual_error, seal,
  close_all, seal_and_close, wait,
}

pub lookup-delete {ℓ} :
    {V : Type ℓ} (c d : ℕ) (m : List (ℕ × V))
    → lookup d (delete c m) ≡ (if c == d then none else lookup d m)
unfolding lookup delete
lookup-delete c d [] = ground arith
lookup-delete c d ((x, v) ∷ m) = ground (arith, lookup-delete c d m)

pub lookup-insert {ℓ} :
    {V : Type ℓ} (c d : ℕ) (v : V) (m : List (ℕ × V))
    → lookup d (insert c v m) ≡ (if c == d then some v else lookup d m)
unfolding lookup insert
lookup-insert c d v m = ground (arith, lookup-delete c d m)

-- The channels tell the truth: `settled` is open exactly while dials are pending, and the other
-- two are closed exactly when the owner is sealed, once they are made.
pub record Inv (o : FlowOwner) : Type 0 where
  pub settled_open : 0 < o.pending → o.settled ≡ some false
  pub settled_closed : o.pending ≡ 0 → o.settled ≢ some false
  pub retired_sealed : (o.retired ≡ none) ⊎ (o.retired ≡ some o.closed)
  pub canceled_sealed : (o.canceled ≡ none) ⊎ (o.canceled ≡ some o.closed)

-- What a release leaves alone.
abbrev SameChannels : FlowOwner → FlowOwner → Type 0
SameChannels o t =
    (t.closed ≡ o.closed)
    × (t.pending ≡ o.pending)
    × (t.settled ≡ o.settled)
    × (t.retired ≡ o.retired)
    × (t.canceled ≡ o.canceled)

release_frame :
    (o : FlowOwner) (c : ℕ) (e : Option GoError) (is_closed : Bool)
    → SameChannels o (release o c e is_closed)
unfolding release
release_frame o c none is_closed = (refl, refl, refl, refl, refl)
release_frame o c (some e) is_closed =
    (ground arith, ground arith, ground arith, ground arith, ground arith)

close_all_frame :
    (answer : ℕ → Option GoError × Bool) (o : FlowOwner) (m : List (ℕ × Option GoError))
    → SameChannels o (close_all answer o m)
unfolding close_all
close_all_frame answer o [] = (refl, refl, refl, refl, refl)
close_all_frame answer o ((c, e) ∷ m) =
    let a = release_frame o c (answer c).0 (answer c).1 in
    let b = close_all_frame answer (release o c (answer c).0 (answer c).1) m in
    (b.0 ∙ a.0, b.1 ∙ a.1, b.2 ∙ a.2, b.3 ∙ a.3, b.4 ∙ a.4)

same-Inv : (o t : FlowOwner) → SameChannels o t → Inv o → Inv t
same-Inv o t s v = ground (arith, v.settled_closed)

seal-Inv : (o : FlowOwner) → Inv o → Inv (seal o)
unfolding seal
seal-Inv o v = ground (arith, v.settled_closed)

-- An `endDial` follows a `beginDial`.
abbrev pub IsMatched : FlowOwner → Call → Type 0
IsMatched o ends = 0 < o.pending
IsMatched o _ = Unit {0}

-- Every call keeps the channels true, where each endDial follows a beginDial: so no channel is
-- closed twice, and a wait never sleeps on a channel that stays open with no dial pending.
pub step-Inv : (o : FlowOwner) (c : Call) → IsMatched o c → Inv o → Inv (step o c)
unfolding step done begin_dial pending_tcp_context end_dial track seal_and_close seal
step-Inv o watches h v = ground (arith, v.settled_closed)
step-Inv o begins h v = ground (arith, v.settled_closed)
step-Inv o links h v = ground (arith, v.settled_closed)
step-Inv o ends h v = ground (arith, v.settled_closed)
step-Inv o (tracks c) h v = ground (arith, v.settled_closed)
step-Inv o (releases c e is_closed) h v = same-Inv o _ (release_frame o c e is_closed) v
step-Inv o (seals answer) h v = same-Inv _ _ (close_all_frame answer _ o.connections) (seal-Inv o v)

step_sealed :
    (o : FlowOwner) (c : Call)
    → o.closed ≡ true
    → ((step o c).closed ≡ true) × ((step o c).pending ≤ o.pending)
unfolding step done begin_dial pending_tcp_context end_dial track seal_and_close seal
step_sealed o watches h = (ground arith, ground arith)
step_sealed o begins h = (ground arith, ground arith)
step_sealed o links h = (ground arith, ground arith)
step_sealed o ends h = (ground arith, ground arith)
step_sealed o (tracks c) h = (ground arith, ground arith)
step_sealed o (releases c e is_closed) h =
    let f = release_frame o c e is_closed in (f.0 ∙ h, omega (arith, f.1))
step_sealed o (seals answer) h =
    let f = close_all_frame answer (seal o) o.connections in (f.0, omega (arith, f.1))

-- A sealed owner stays sealed, and refuses every dial and every connection, whatever is called.
pub run_sealed :
    (o : FlowOwner) (cs : List Call) (c : ℕ)
    → o.closed ≡ true
    → let t = run o cs in
      (t.closed ≡ true)
      × (t.pending ≤ o.pending)
      × (is_some (begin_dial t).1 ≡ true)
      × ((begin_dial t).0 ≡ t)
      × (track t c ≡ (t, false))
unfolding run begin_dial track
run_sealed o [] c h = (h, omega arith, ground arith, ground arith, ground arith)
run_sealed o (x ∷ cs) c h =
    let s = step_sealed o x h in
    let r = run_sealed (step o x) cs c s.0 in (r.0, omega (arith, r.1, s.1), r.2, r.3, r.4)

residual_error-nil : (m : List (ℕ × Option GoError)) → residual_error m ≡ none → m ≡ []
unfolding residual_error
residual_error-nil [] h = refl
residual_error-nil ((c, e) ∷ m) h = ground arith

residual_error-empty : (m : List (ℕ × Option GoError)) → m ≡ [] → residual_error m ≡ none
unfolding residual_error
residual_error-empty [] h = refl
residual_error-empty (x ∷ m) h = cc

-- `wait` answers without an error exactly where no dial is pending and no connection is left.
pub wait_clean :
    (o : FlowOwner) (expired : Option GoError)
    → (wait o expired ≡ some none) ↔ ((o.pending ≡ 0) × (o.connections ≡ []))
unfolding wait
wait_clean o expired = (
  (λ h. (ground arith, residual_error-nil o.connections (ground arith))),
  (λ h. ground (arith, residual_error-empty o.connections h.1)),
)

-- What closing a connection leaves in the map: nothing, or its error.
abbrev pub kept : Option GoError → Bool → Option (Option GoError)
kept none is_closed = none
kept (some e) is_closed = if is_closed then none else some (some e)

pub release-lookup :
    (o : FlowOwner) (d c : ℕ) (e : Option GoError) (is_closed : Bool)
    → lookup c (release o d e is_closed).connections
      ≡ (if d == c then kept e is_closed else lookup c o.connections)
unfolding release
release-lookup o d c none is_closed = lookup-delete d c o.connections
release-lookup o d c (some e) is_closed =
    ground (arith, lookup-delete d c o.connections, lookup-insert d c (some e) o.connections)

abbrev pub outcome : (ℕ → Option GoError × Bool) → ℕ → Option (Option GoError)
outcome answer c = kept (answer c).0 (answer c).1

close_all-lookup :
    (answer : ℕ → Option GoError × Bool) (o : FlowOwner) (m : List (ℕ × Option GoError)) (c : ℕ)
    → lookup c (close_all answer o m).connections
      ≡ (if is_some (lookup c m) then outcome answer c else lookup c o.connections)
unfolding close_all lookup
close_all-lookup answer o [] c = refl
close_all-lookup answer o ((d, e) ∷ m) c = ground (
  arith,
  close_all-lookup answer (release o d (answer d).0 (answer d).1) m c,
  release-lookup o d c (answer d).0 (answer d).1,
)

-- After sealAndClose exactly the connections that were tracked and whose Close failed are left,
-- each with its error.
pub seal_and_close-lookup :
    (answer : ℕ → Option GoError × Bool) (o : FlowOwner) (c : ℕ)
    → lookup c (seal_and_close answer o).connections
      ≡ (if is_some (lookup c o.connections) then outcome answer c else none)
unfolding seal_and_close seal
seal_and_close-lookup answer o c = ground (arith, close_all-lookup answer (seal o) o.connections c)
