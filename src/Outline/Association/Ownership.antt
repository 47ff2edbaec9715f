-- ===== src/Outline/Association/Ownership.antt =====
-- What an association does with the connections that it dials.
use dobby_vpn.Common.{
  ℕ, ◌+◌, ◌-◌, ◌<◌, ◌≤◌, Bool, true, false, List, [], ◌∷◌, Option, none, some, ◌==◌, ◌≡◌, refl,
  arith, ap, ◌∙◌, sym, ltb, length, count, count-append, if_cases, if◌then◌else◌,
}
use dobby_vpn.Tunnel.FlowOwner.{delete, lookup}
use dobby_vpn.Outline.Association.{
  UdpAssociation, open_association, drop_upstream, dial, register, start, end_reply, connections,
  close_upstreams, end_relay, at, Call, dials, registers, starts, drops, ends_reply, ends_relay,
  closes, step_call, run_calls, end_association,
}

abbrev pub keys : List (ℕ × ℕ) → List ℕ
keys [] = []
keys ((k, v) ∷ m) = k ∷ keys m

abbrev one : Bool → ℕ
one true = 1
one false = 0

keys-delete :
    (c k : ℕ) (m : List (ℕ × ℕ))
    → count c (keys (delete k m)) ≡ (if c == k then 0 else count c (keys m))
unfolding count delete
keys-delete c k [] = ground arith
keys-delete c k ((d, v) ∷ m) = ground (arith, keys-delete c k m)

delete-absent : (k : ℕ) (m : List (ℕ × ℕ)) → count k (keys m) ≡ 0 → delete k m ≡ m
unfolding count delete
delete-absent k [] h = refl
delete-absent k ((d, v) ∷ m) h = ground (arith, delete-absent k m)

delete-nil : (k : ℕ) (m : List (ℕ × ℕ)) → m ≡ [] → delete k m ≡ []
unfolding delete
delete-nil k [] h = refl
delete-nil k (p ∷ m) h = absurd (ground arith)

lookup-count : (k v : ℕ) (m : List (ℕ × ℕ)) → lookup k m ≡ some v → 0 < count k (keys m)
unfolding count lookup
lookup-count k v [] h = ground arith
lookup-count k v ((d, w) ∷ m) h = ground (arith, lookup-count k v m)

absent-count : (k : ℕ) (m : List (ℕ × ℕ)) → lookup k m ≡ none → count k (keys m) ≡ 0
unfolding count lookup
absent-count k [] h = refl
absent-count k ((d, w) ∷ m) h = ground (arith, absent-count k m)

length-delete : (k : ℕ) (m : List (ℕ × ℕ)) → length (delete k m) + count k (keys m) ≡ length m
unfolding count delete
length-delete k [] = refl
length-delete k ((d, v) ∷ m) = ground (arith, length-delete k m)

-- The map loses one connection with its key.
connections-delete :
    (c k v : ℕ) (m : List (ℕ × ℕ))
    → count k (keys m) ≤ 1
    → lookup k m ≡ some v
    → count c (connections (delete k m)) + one (v == c) ≡ count c (connections m)
unfolding count delete lookup
connections-delete c k v [] h f = ground arith
connections-delete c k v ((d, w) ∷ m) h f =
    ground (arith, connections-delete c k v m, delete-absent k m)

-- Of every connection: it is dialed and unregistered, in the map, or closed, and that once; and it is
-- at most at one place of its way to a reply worker.
pub record Inv (a : UdpAssociation) : Type 0 where
  pub once : (k : ℕ) → count k (keys a.upstream) ≤ 1
  pub held :
      (c : ℕ)
      → count c (connections a.upstream) + count c (keys a.dialed) + count c a.shut
        ≡ one (ltb c a.fresh)
  pub placed :
      (c : ℕ)
      → count c (keys a.dialed) + count c (keys a.starting) + count c (keys a.running)
        ≤ one (ltb c a.fresh)
  pub counted : a.workers ≡ length a.starting + length a.running + one a.relaying
  pub sealed : a.closed ≡ true → a.upstream ≡ []
  pub idle : a.relaying ≡ false → (a.dialed ≡ []) × (a.starting ≡ [])

drop_upstream-Inv : (a : UdpAssociation) (key c : ℕ) → Inv a → Inv (drop_upstream a key c)
unfolding drop_upstream count
drop_upstream-Inv a key c v = record {
  once = λ k. ground (arith, v.once k, keys-delete k key a.upstream);
  held = λ d. ground (arith, v.held d, v.once key, connections-delete d key c a.upstream);
  placed = λ d. ground (arith, v.placed d);
  counted = ground (arith, v.counted);
  sealed = λ h. ground (arith, v.sealed, delete-nil key a.upstream, h);
  idle = ground (arith, v.idle);
}

dial-Inv :
    (a : UdpAssociation) (key : ℕ) (d : Bool) → a.relaying ≡ true → Inv a → Inv (dial a key d)
unfolding dial count
dial-Inv a key d r v = record {
  once = λ k. ground (arith, v.once k);
  held = λ c. ground (arith, v.held c);
  placed = λ c. ground (arith, v.placed c);
  counted = ground (arith, v.counted);
  sealed = ground (arith, v.sealed);
  idle = ground (arith, v.idle);
}

register-Inv :
    (a : UdpAssociation) (key c : ℕ)
    → a.relaying ≡ true
    → lookup c a.dialed ≡ some key
    → Inv a
    → Inv (register a key c).0
unfolding register count
register-Inv a key c r h v = record {
  once = λ k. ground (arith, v.once k, absent-count k a.upstream);
  held = λ d.
      ground (arith, v.held d, v.held c, lookup-count c key a.dialed h, keys-delete d c a.dialed);
  placed = λ d.
      ground
        (arith, v.placed d, v.placed c, lookup-count c key a.dialed h, keys-delete d c a.dialed);
  counted = ground (arith, v.counted);
  sealed = ground (arith, v.sealed);
  idle = ground (arith, v.idle);
}

-- The connection leaves the list of those that wait for a reply worker, or have one.
started-Inv :
    (a : UdpAssociation) (key c : ℕ)
    → lookup c a.starting ≡ some key
    → Inv a
    → Inv (record a { starting = delete c a.starting; workers = a.workers - 1 })
started-Inv a key c h v = record {
  once = v.once;
  held = v.held;
  placed = λ d. ground (arith, v.placed d, keys-delete d c a.starting);
  counted =
      ground
        (arith, v.counted, v.placed c, lookup-count c key a.starting h, length-delete c a.starting);
  sealed = v.sealed;
  idle = λ r. ((v.idle r).0, delete-nil c a.starting (v.idle r).1);
}

running-Inv :
    (a : UdpAssociation) (key c : ℕ)
    → lookup c a.starting ≡ some key
    → Inv a
    → Inv (record a { starting = delete c a.starting; running = (c, key) ∷ a.running })
unfolding count
running-Inv a key c h v = record {
  once = v.once;
  held = v.held;
  placed = λ d.
      ground (
        arith,
        v.placed d,
        v.placed c,
        lookup-count c key a.starting h,
        keys-delete d c a.starting,
      );
  counted =
      ground
        (arith, v.counted, v.placed c, lookup-count c key a.starting h, length-delete c a.starting);
  sealed = v.sealed;
  idle = λ r. ((v.idle r).0, delete-nil c a.starting (v.idle r).1);
}

start-Inv :
    (a : UdpAssociation) (key c : ℕ) (s : Bool)
    → lookup c a.starting ≡ some key
    → Inv a
    → Inv (start a key c s)
unfolding start
start-Inv a key c true h v = running-Inv a key c h v
start-Inv a key c false h v = drop_upstream-Inv _ key c (started-Inv a key c h v)

ended-Inv :
    (a : UdpAssociation) (key c : ℕ)
    → lookup c a.running ≡ some key
    → Inv a
    → Inv (record a { running = delete c a.running; workers = a.workers - 1 })
ended-Inv a key c h v = record {
  once = v.once;
  held = v.held;
  placed = λ d. ground (arith, v.placed d, keys-delete d c a.running);
  counted =
      ground
        (arith, v.counted, v.placed c, lookup-count c key a.running h, length-delete c a.running);
  sealed = v.sealed;
  idle = v.idle;
}

drop_upstream-running :
    (a : UdpAssociation) (key c : ℕ) → (drop_upstream a key c).running ≡ a.running
unfolding drop_upstream
drop_upstream-running a key c = ground arith

end_reply-Inv :
    (a : UdpAssociation) (key c : ℕ)
    → lookup c a.running ≡ some key
    → Inv a
    → Inv (end_reply a key c)
unfolding end_reply
end_reply-Inv a key c h v =
    ended-Inv (drop_upstream a key c) key c (ap (lookup c) (drop_upstream-running a key c) ∙ h)
      (drop_upstream-Inv a key c v)

close_upstreams-Inv : (a : UdpAssociation) → Inv a → Inv (close_upstreams a)
unfolding close_upstreams count
close_upstreams-Inv a v = record {
  once = λ k. omega arith;
  held = λ c. omega (arith, v.held c, count-append c (connections a.upstream) a.shut);
  placed = v.placed;
  counted = v.counted;
  sealed = λ h. refl;
  idle = v.idle;
}

end_relay-Inv : (a : UdpAssociation) → a.relaying ≡ true → Inv a → Inv (end_relay a)
unfolding end_relay count
end_relay-Inv a r v = record {
  once = ground (arith, v.once);
  held = λ c. ground (arith, v.held c);
  placed = λ c. ground (arith, v.placed c);
  counted = ground (arith, v.counted);
  sealed = ground (arith, v.sealed);
  idle = ground (arith, v.idle);
}

at-Inv :
    (a : UdpAssociation) (o : Option ℕ) (next : ℕ → UdpAssociation)
    → Inv a
    → ((key : ℕ) → o ≡ some key → Inv (next key))
    → Inv (at a o next)
at-Inv a none next v f = v
at-Inv a (some key) next v f = f key refl

-- Every step keeps the invariant.
step_call-Inv : (a : UdpAssociation) (c : Call) → Inv a → Inv (step_call a c)
unfolding step_call
step_call-Inv a (dials key d) v = if_cases Inv a.relaying (λ r. dial-Inv a key d r v) (λ r. v)
step_call-Inv a (registers c) v =
    if_cases Inv a.relaying (λ r. at-Inv a _ _ v (λ key e. register-Inv a key c r e v)) (λ r. v)
step_call-Inv a (starts c s) v =
    if_cases Inv a.relaying (λ r. at-Inv a _ _ v (λ key e. start-Inv a key c s e v)) (λ r. v)
step_call-Inv a (drops key c) v =
    if_cases Inv a.relaying (λ r. drop_upstream-Inv a key c v) (λ r. v)
step_call-Inv a (ends_reply c) v = at-Inv a _ _ v (λ key e. end_reply-Inv a key c e v)
step_call-Inv a ends_relay v = if_cases Inv a.relaying (λ r. end_relay-Inv a r v) (λ r. v)
step_call-Inv a closes v = close_upstreams-Inv a v

-- Whatever its goroutines do, and in whatever order, an association keeps its invariant: every
-- connection that it has dialed is unregistered, in the map or closed, and exactly one of these, once;
-- a key leads to at most one connection; the workers are the relay and one for each connection that
-- waits for its reply worker or has it; and a closed association has an empty map.
pub run_calls-Inv : (a : UdpAssociation) (cs : List Call) → Inv a → Inv (run_calls a cs)
unfolding run_calls
run_calls-Inv a [] v = v
run_calls-Inv a (c ∷ cs) v = run_calls-Inv (step_call a c) cs (step_call-Inv a c v)

pub open_association-Inv : (submitted : Bool) → Inv (open_association submitted)
unfolding open_association count
open_association-Inv true = record {
  once = λ k. omega arith;
  held = λ c. ground arith;
  placed = λ c. ground arith;
  counted = refl;
  sealed = λ h. refl;
  idle = λ h. (refl, refl);
}
open_association-Inv false = record {
  once = λ k. omega arith;
  held = λ c. ground arith;
  placed = λ c. ground arith;
  counted = refl;
  sealed = λ h. refl;
  idle = λ h. (refl, refl);
}

step_call-closed : (a : UdpAssociation) (c : Call) → a.closed ≡ true → (step_call a c).closed ≡ true
unfolding step_call
step_call-closed a (dials key d) h = ground arith
step_call-closed a (registers c) h = ground arith
step_call-closed a (starts c s) h = ground arith
step_call-closed a (drops key c) h = ground arith
step_call-closed a (ends_reply c) h = ground arith
step_call-closed a ends_relay h = ground arith
step_call-closed a closes h = ground arith

run_calls-closed :
    (a : UdpAssociation) (cs : List Call) → a.closed ≡ true → (run_calls a cs).closed ≡ true
unfolding run_calls
run_calls-closed a [] h = h
run_calls-closed a (c ∷ cs) h = run_calls-closed (step_call a c) cs (step_call-closed a c h)

no_workers :
    (a : UdpAssociation)
    → a.workers ≡ 0
    → Inv a
    → (a.relaying ≡ false) × (a.running ≡ []) × (a.dialed ≡ [])
no_workers a h v =
    let r : a.relaying ≡ false = ground (arith, v.counted) in
    (r, ground (arith, v.counted), (v.idle r).0)

-- An association that has ended, from a state with the invariant and whatever its goroutines did
-- until the wait for them was over: neither the relay nor a reply worker runs, the map is empty, and
-- every connection that was ever dialed has been closed exactly once.
pub end_association-shut :
    (a t : UdpAssociation) (drain : List Call)
    → Inv a
    → end_association a drain ≡ some t
    → (t.relaying ≡ false)
      × (t.running ≡ [])
      × (t.upstream ≡ [])
      × ((c : ℕ) → c < t.fresh → count c t.shut ≡ 1)
unfolding end_association close_upstreams count
end_association-shut a t drain v h =
    let b = run_calls (close_upstreams a) drain in
    let w = run_calls-Inv (close_upstreams a) drain (close_upstreams-Inv a v) in
    let idle : b.workers ≡ 0 = ground arith in
    let e : b ≡ t = ground arith in
    let n = no_workers b idle w in
    let s = w.sealed (run_calls-closed (close_upstreams a) drain refl) in
    rw (sym e) (n.0, n.1, s, λ c l. ground (arith, w.held c, s, n.2, l))
