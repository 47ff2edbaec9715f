-- ===== src/Outline/Association/Independence.antt =====
-- What one datagram leaves alone.
use dobby_vpn.Common.{
  ◌≢◌, ℕ, ◌-◌, Bool, true, false, ◌&&◌, List, Option, none, some, ◌==◌, ◌≡◌, refl, arith,
  Bool-cases, Option-cases, ap, if_cases, ◌∙◌, if◌then◌else◌, ◌⊎◌, inl, inr,
}
use dobby_vpn.Tunnel.FlowOwner.{delete, lookup}
use dobby_vpn.Tunnel.FlowOwner.Laws.{lookup-delete}
use dobby_vpn.Outline.Association.{UdpAssociation, drop_upstream, dial, register, start}
use dobby_vpn.Outline.Association.Relaying.{
  Address, Luck, settle, connect, or_connect, upstream_for, write, forward, is_client, is_whole,
  sent, relay_datagram,
}

-- What a datagram does to the map: the keys of other destinations lead where they led, and the
-- association is as open as it was.
record Local (key : ℕ) (a t : UdpAssociation) : Type 0 where
  others : (k : ℕ) → k ≢ key → lookup k t.upstream ≡ lookup k a.upstream
  open_still : t.closed ≡ a.closed

then-Local : (key : ℕ) (a b c : UdpAssociation) → Local key a b → Local key b c → Local key a c
then-Local key a b c v w = record {
  others = λ k n. w.others k n ∙ v.others k n;
  open_still = w.open_still ∙ v.open_still;
}

same-Local : (key : ℕ) (a : UdpAssociation) → Local key a a
same-Local key a = record { others = λ k n. refl; open_still = refl }

drop_upstream-Local : (a : UdpAssociation) (key c : ℕ) → Local key a (drop_upstream a key c)
unfolding drop_upstream
drop_upstream-Local a key c = record {
  others = λ k n. ground (arith, lookup-delete key k a.upstream, n);
  open_still = ground arith;
}

dial-Local : (a : UdpAssociation) (key : ℕ) (d : Bool) → Local key a (dial a key d)
unfolding dial
dial-Local a key d = record { others = λ k n. ground arith; open_still = ground arith }

register-Local : (a : UdpAssociation) (key c : ℕ) → Local key a (register a key c).0
unfolding register lookup
register-Local a key c = record { others = λ k n. ground (arith, n); open_still = ground arith }

start-Local : (a : UdpAssociation) (key c : ℕ) (s : Bool) → Local key a (start a key c s)
unfolding start
start-Local a key c true = record { others = λ k n. refl; open_still = refl }
start-Local a key c false =
    let t =
      drop_upstream-Local (record a { starting = delete c a.starting; workers = a.workers - 1 }) key
        c in
    record { others = t.others; open_still = t.open_still }

settle-Local :
    (a : UdpAssociation) (key c : ℕ) (s : Bool) (o : Option ℕ) → Local key a (settle a key c s o).0
unfolding settle
settle-Local a key c s none = same-Local key a
settle-Local a key c s (some u) =
    if_cases (λ (t : UdpAssociation × Option ℕ). Local key a t.0) (u == c)
      (λ _. start-Local a key c s) (λ _. same-Local key a)

connect-Local : (a : UdpAssociation) (key : ℕ) (l : Luck) → Local key a (connect a key l).0
unfolding connect
connect-Local a key l =
    let r = register (dial a key true) key a.fresh in
    if_cases (λ (t : UdpAssociation × Option ℕ). Local key a t.0) l.dials
      (λ _.
        then-Local key a _ _
          (then-Local key a _ _ (dial-Local a key true)
            (register-Local (dial a key true) key a.fresh))
          (settle-Local r.0 key a.fresh l.submits r.1))
      (λ _. same-Local key a)

or_connect-Local :
    (a : UdpAssociation) (key : ℕ) (l : Luck) (o : Option ℕ) → Local key a (or_connect a key l o).0
or_connect-Local a key l none = connect-Local a key l
or_connect-Local a key l (some existing) = same-Local key a

write-Local :
    (a : UdpAssociation) (key : ℕ) (b : Bool) (o : Option ℕ) → Local key a (write a key b o)
write-Local a key b none = same-Local key a
write-Local a key true (some u) = same-Local key a
write-Local a key false (some u) = drop_upstream-Local a key u

forward-Local : (a : UdpAssociation) (key : ℕ) (l : Luck) → Local key a (forward a key l)
unfolding forward upstream_for
forward-Local a key l =
    let r = upstream_for a key l in
    then-Local key a _ _ (or_connect-Local a key l (lookup key a.upstream))
      (write-Local r.0 key l.writes r.1)

-- A write that fails leaves no connection for the key.
dropped :
    (a : UdpAssociation) (key u : ℕ)
    → lookup key a.upstream ≡ some u
    → lookup key (drop_upstream a key u).upstream ≡ none
unfolding drop_upstream
dropped a key u h = ground (arith, lookup-delete key key a.upstream, h)

-- Either there is no connection and the key leads nowhere, or the key leads to the connection.
abbrev Leads : ℕ → UdpAssociation × Option ℕ → Type 0
Leads key t =
    ((t.1 ≡ none) × (lookup key t.0.upstream ≡ none))
    ⊎ ((u : ℕ) × (t.1 ≡ some u) × (lookup key t.0.upstream ≡ some u))

register-Leads :
    (a : UdpAssociation) (key c : ℕ) → lookup key a.upstream ≡ none → Leads key (register a key c)
unfolding register lookup
register-Leads a key c h = ground (arith, h)

start-Leads :
    (a : UdpAssociation) (key c : ℕ) (s : Bool)
    → lookup key a.upstream ≡ some c
    → Leads key (start a key c s, if s then some c else none)
unfolding start
start-Leads a key c true h = inr (c, refl, h)
start-Leads a key c false h = inl (refl, dropped _ key c h)

settle-Leads :
    (a : UdpAssociation) (key c : ℕ) (s : Bool) (o : Option ℕ)
    → Leads key (a, o)
    → Leads key (settle a key c s o)
unfolding settle
settle-Leads a key c s none h = h
settle-Leads a key c s (some u) (inl p) = absurd (ground (arith, p.0))
settle-Leads a key c s (some u) (inr (v, e, l)) =
    if_cases (λ t. Leads key t) (u == c) (λ q. start-Leads a key c s (ground (arith, q, e, l)))
      (λ _. inr (u, refl, ground (arith, e, l)))

dial_upstream : (a : UdpAssociation) (key : ℕ) (d : Bool) → (dial a key d).upstream ≡ a.upstream
unfolding dial
dial_upstream a key d = ground arith

connect-Leads :
    (a : UdpAssociation) (key : ℕ) (l : Luck)
    → lookup key a.upstream ≡ none
    → Leads key (connect a key l)
unfolding connect
connect-Leads a key l h =
    if_cases (λ t. Leads key t) l.dials
      (λ _. settle-Leads _ key a.fresh l.submits _ (
        register-Leads (dial a key true) key a.fresh
          (ap (lookup key) (dial_upstream a key true) ∙ h)))
      (λ _. inl (refl, h))

upstream_for-Leads : (a : UdpAssociation) (key : ℕ) (l : Luck) → Leads key (upstream_for a key l)
unfolding upstream_for
upstream_for-Leads a key l = elim (Option-cases (lookup key a.upstream)) [
  | inl h ↦ rw h (connect-Leads a key l h)
  | inr (u, h) ↦ rw h (inr (u, refl, h))
]

write_failed :
    (a : UdpAssociation) (key : ℕ) (o : Option ℕ)
    → Leads key (a, o)
    → lookup key (write a key false o).upstream ≡ none
write_failed a key none (inl p) = p.1
write_failed a key none (inr (v, e, l)) = absurd (ground (arith, e))
write_failed a key (some u) (inl p) = absurd (ground (arith, p.0))
write_failed a key (some u) (inr (v, e, l)) = dropped a key u (ground (arith, e, l))

forward_failed :
    (a : UdpAssociation) (key : ℕ) (l : Luck)
    → l.writes ≡ false
    → lookup key (forward a key l).upstream ≡ none
unfolding forward
forward_failed a key l w =
    let r = upstream_for a key l in rw w (write_failed r.0 key r.1 (upstream_for-Leads a key l))

module _ (is_unspecified : ℕ → Bool) (equal_ip : ℕ → ℕ → Bool) (parse_datagram : List ℕ → Option ℕ)
    (key_of : Address → ℕ → ℕ) where
  -- What a datagram to a destination does: the association stays open, or closed, every other key
  -- leads where it led, and after a write that fails the key leads nowhere, for the next one to dial.
  abbrev pub Effect : UdpAssociation → UdpAssociation → ℕ → Luck → Type 0
  Effect a t key l =
      (t.closed ≡ a.closed)
      × ((k : ℕ) → k ≢ key → lookup k t.upstream ≡ lookup k a.upstream)
      × (l.writes ≡ false → lookup key t.upstream ≡ none)

  sent-Effect :
      (a : UdpAssociation) (sender : Address) (l : Luck) (o : Option ℕ)
      → let t = sent is_unspecified equal_ip parse_datagram key_of a sender l o in
        ((o ≡ none) × (t ≡ a))
        ⊎ ((destination : ℕ) × (o ≡ some destination) × Effect a t (key_of sender destination) l)
  sent-Effect a sender l none = inl (refl, refl)
  sent-Effect a sender l (some destination) =
      let key = key_of sender destination in
      let f = forward-Local a key l in
      inr (destination, refl, (f.open_still, f.others, forward_failed a key l))

  -- A destination that fails costs only its own datagrams: a datagram that is not the client's, that is
  -- not whole or that cannot be parsed changes nothing; any other, whatever the dial, the Submit and
  -- the write do, leaves the association as open as it was and every key of another client or
  -- destination at the connection it led to, and where the write fails its own key leads nowhere.
  pub relay_datagram-others :
      (client : Option Address) (a : UdpAssociation) (sender : Address) (bytes : List ℕ) (l : Luck)
      → let t =
          relay_datagram is_unspecified equal_ip parse_datagram key_of client a sender bytes l in
        (((is_client is_unspecified equal_ip parse_datagram key_of client sender
              && is_whole is_unspecified equal_ip parse_datagram key_of bytes)
            ≡ false)
          × (t ≡ a))
        ⊎ ((parse_datagram bytes ≡ none) × (t ≡ a))
        ⊎ ((destination : ℕ) × (parse_datagram bytes ≡ some destination)
            × Effect a t (key_of sender destination) l)
  unfolding relay_datagram
  relay_datagram-others client a sender bytes l =
      elim (Bool-cases (
        is_client is_unspecified equal_ip parse_datagram key_of client sender
        && is_whole is_unspecified equal_ip parse_datagram key_of bytes)) [
          | inl h ↦ rw h (inr (sent-Effect a sender l (parse_datagram bytes)))
          | inr h ↦ rw h (inl (refl, refl))
        ]
