-- ===== src/Runtime/Platform/Descriptors.antt =====
-- Who has a tunnel descriptor.
use dobby_vpn.Common.{
  ℕ, ◌<◌, Bool, true, false, List, [], ◌∷◌, Option, none, some, ◌==◌, ◌≡◌, ◌≢◌, ltb, refl, arith,
  ap, sym, ◌∙◌, if_cases, Bool-cases, ◌⊎◌, inl, inr, if◌then◌else◌,
}
use dobby_vpn.Failure.{GoError, cleanup_failure, foreign}
use dobby_vpn.Tunnel.FlowOwner.{lookup}
use dobby_vpn.Tunnel.FlowOwner.Laws.{lookup-delete}
use dobby_vpn.Runtime.Platform.{
  SessionRef, TunnelLease, PlatformAdapter, prepare_tunnel, release_platform, Answer, Acquired,
  descriptor, failed, accept_answer, reserve, release_fd, put, own, finish_acquire, acquire,
  close_lease, release_error, settle, new_lease, free, release_lease, publish_state, Call, prepares,
  releases_platform, acquires, closes, releases, publishes, step, run_adapter,
}

-- A lease that has a descriptor, and has not released it.
abbrev pub Holds : PlatformAdapter → ℕ → ℕ → Type 0
Holds a i fd = ((a.leases i).fd ≡ some fd) × ((a.leases i).released ≡ false)

-- Every such descriptor is reserved for the lease's session, and no two leases have the same one.
pub record Inv (a : PlatformAdapter) : Type 0 where
  pub reserved :
      (i fd : ℕ) → i < a.fresh → Holds a i fd → lookup fd a.tunnels ≡ some ((a.leases i).ref)
  pub apart : (i j fd : ℕ) → i < a.fresh → j < a.fresh → Holds a i fd → Holds a j fd → i ≡ j

-- What leaves the descriptors and who has them alone.
same_leases :
    (a b : PlatformAdapter)
    → b.tunnels ≡ a.tunnels
    → b.fresh ≡ a.fresh
    → ((i : ℕ)
        → ((b.leases i).fd ≡ (a.leases i).fd)
          × ((b.leases i).ref ≡ (a.leases i).ref)
          × ((b.leases i).released ≡ (a.leases i).released))
    → Inv a
    → Inv b
same_leases a b t f l v = record {
  reserved = λ i fd n h.
      ap (lookup fd) t
      ∙ v.reserved i fd (rw (sym f) n) (sym (l i).0 ∙ h.0, sym (l i).2 ∙ h.1)
      ∙ ap some (sym (l i).1);
  apart = λ i j fd n m h k.
      v.apart i j fd (rw (sym f) n) (rw (sym f) m) (sym (l i).0 ∙ h.0, sym (l i).2 ∙ h.1)
        (sym (l j).0 ∙ k.0, sym (l j).2 ∙ k.1);
}

prepare_tunnel-Inv : (a : PlatformAdapter) (ref : SessionRef) → Inv a → Inv (prepare_tunnel a ref).0
unfolding prepare_tunnel
prepare_tunnel-Inv a ref v =
    same_leases a (prepare_tunnel a ref).0 (ground arith) (ground arith)
      (λ i. (ground arith, ground arith, ground arith)) v

release_platform-Inv :
    (a : PlatformAdapter) (ref : SessionRef) → Inv a → Inv (release_platform a ref)
unfolding release_platform
release_platform-Inv a ref v =
    same_leases a (release_platform a ref) (ground arith) (ground arith)
      (λ i. (ground arith, ground arith, ground arith)) v

publish_state-Inv : (a : PlatformAdapter) (event : ℕ) → Inv a → Inv (publish_state a event)
unfolding publish_state
publish_state-Inv a event v =
    same_leases a (publish_state a event) (ground arith) (ground arith)
      (λ i. (ground arith, ground arith, ground arith)) v

close-Inv :
    (a : PlatformAdapter) (i : ℕ) (answer : Option GoError)
    → Inv a
    → Inv (record a { leases = put a.leases i (close_lease (a.leases i) answer) })
unfolding close_lease
close-Inv a i answer v =
    same_leases a (record a { leases = put a.leases i (close_lease (a.leases i) answer) }) refl refl
      (λ j. (ground arith, ground arith, ground arith)) v

unowned-Inv :
    (a : PlatformAdapter) (ref : SessionRef) (e : GoError)
    → Inv a
    → Inv (finish_acquire a ref (failed e true)).0
unowned-Inv a ref e v = record {
  reserved = λ i fd n h. ground (arith, n, h.0, h.1, v.reserved i fd);
  apart = λ i j fd n m h k. ground (arith, n, m, h.0, h.1, k.0, k.1, v.apart i j fd);
}

reserve-some :
    (m : List (ℕ × SessionRef)) (fd : ℕ) (ref : SessionRef) (o : List (ℕ × SessionRef))
    → reserve m fd ref ≡ some o
    → (lookup fd m ≡ none) × ((d : ℕ) → lookup d o ≡ (if d == fd then some ref else lookup d m))
unfolding reserve lookup
reserve-some m fd ref o e = (ground (arith, e), λ d. ground (arith, e))

-- A lease that holds a descriptor now has held it, or is the new one.
owned :
    (a : PlatformAdapter) (ref : SessionRef) (fd i d : ℕ)
    → Holds (record a { leases = put a.leases a.fresh (new_lease (some fd) ref) }) i d
    → ((i ≡ a.fresh) × (d ≡ fd)) ⊎ ((i ≢ a.fresh) × Holds a i d)
owned a ref fd i d h = elim (Bool-cases (a.fresh == i)) [
  | inl e ↦ inl (ground (arith, e), ground (arith, e, h.0))
  | inr e ↦ inr (ground (arith, e), (ground (arith, e, h.0), ground (arith, e, h.1)))
]

-- A descriptor that was free is nobody's.
unheld :
    (a : PlatformAdapter) (fd i : ℕ)
    → Inv a
    → lookup fd a.tunnels ≡ none
    → i < a.fresh
    → Holds a i fd
    → ⊥
unheld a fd i v f n h = ground (arith, f, v.reserved i fd n h)

own-Inv :
    (a : PlatformAdapter) (ref : SessionRef) (fd : ℕ) (o : Option (List (ℕ × SessionRef)))
    → reserve a.tunnels fd ref ≡ o
    → Inv a
    → Inv (own a ref fd o).0
own-Inv a ref fd none e v = v
own-Inv a ref fd (some open_fds) e v =
    let r = reserve-some a.tunnels fd ref open_fds e in
    record {
      reserved = λ i d n h. elim (owned a ref fd i d h) [
        | inl p ↦ r.1 d ∙ ground (arith, p.0, p.1)
        | inr p ↦
            let m : i < a.fresh = ground (arith, p.0, n) in
            let w : d ≢ fd = λ q. unheld a d i v (ap (λ t. lookup t a.tunnels) q ∙ r.0) m p.1 in
            r.1 d ∙ ground (arith, w, p.0, v.reserved i d m p.1)
      ];
      apart = λ i j d n m h k. elim (owned a ref fd i d h) [
        | inl p ↦ elim (owned a ref fd j d k) [
          | inl q ↦ p.0 ∙ sym q.0
          | inr q ↦
              absurd (
                unheld a d j v (ap (λ t. lookup t a.tunnels) p.1 ∙ r.0) (ground (arith, q.0, m))
                  q.1)
        ]
        | inr p ↦ elim (owned a ref fd j d k) [
          | inl q ↦
              absurd (
                unheld a d i v (ap (λ t. lookup t a.tunnels) q.1 ∙ r.0) (ground (arith, p.0, n))
                  p.1)
          | inr q ↦ v.apart i j d (ground (arith, p.0, n)) (ground (arith, q.0, m)) p.1 q.1
        ]
      ];
    }

finish_acquire-Inv :
    (a : PlatformAdapter) (ref : SessionRef) (x : Acquired) → Inv a → Inv (finish_acquire a ref x).0
finish_acquire-Inv a ref (descriptor fd) v = own-Inv a ref fd (reserve a.tunnels fd ref) refl v
finish_acquire-Inv a ref (failed e true) v = unowned-Inv a ref e v
finish_acquire-Inv a ref (failed e false) v = v

lookup-release_fd :
    (d fd : ℕ) (m : List (ℕ × SessionRef)) (owner : SessionRef)
    → d ≢ fd
    → lookup d (release_fd m fd owner) ≡ lookup d m
unfolding release_fd
lookup-release_fd d fd m owner n = ground (arith, lookup-delete fd d m, n)

-- The i-th lease is released.
released_lease : PlatformAdapter → ℕ → TunnelLease → PlatformAdapter
released_lease a i l = record a { leases = put a.leases i (record l { released = true }) }

others_hold :
    (a : PlatformAdapter) (i j d : ℕ) (l : TunnelLease)
    → Holds (released_lease a i l) j d
    → (i ≢ j) × Holds a j d
unfolding released_lease
others_hold a i j d l h = elim (Bool-cases (i == j)) [
  | inl e ↦ absurd (ground (arith, e, h.1))
  | inr e ↦ (ground (arith, e), (ground (arith, e, h.0), ground (arith, e, h.1)))
]

free-Inv :
    (a : PlatformAdapter) (i : ℕ) (l : TunnelLease) (o : Option ℕ)
    → i < a.fresh
    → (a.leases i).fd ≡ o
    → (a.leases i).released ≡ false
    → Inv a
    → Inv (free (released_lease a i l) o l.ref)
unfolding released_lease
free-Inv a i l none n f r v = record {
  reserved = λ j d m h.
      let k = others_hold a i j d l (unfold released_lease in h) in
      ground (arith, k.0, v.reserved j d m k.1);
  apart = λ j k d m o h g.
      v.apart j k d m o (others_hold a i j d l (unfold released_lease in h)).1
        (others_hold a i k d l (unfold released_lease in g)).1;
}
free-Inv a i l (some fd) n f r v = record {
  reserved = λ j d m h.
      let k = others_hold a i j d l (unfold released_lease in h) in
      let w : d ≢ fd = λ q. k.0 (v.apart i j d n m (f ∙ ap some (sym q), r) k.1) in
      lookup-release_fd d fd a.tunnels l.ref w ∙ ground (arith, k.0, v.reserved j d m k.1);
  apart = λ j k d m o h g.
      v.apart j k d m o (others_hold a i j d l (unfold released_lease in h)).1
        (others_hold a i k d l (unfold released_lease in g)).1;
}

-- A Release that does not succeed keeps what the lease holds.
kept_lease :
    (a : PlatformAdapter) (i : ℕ) (answer : Option GoError)
    → ((close_lease (a.leases i) answer).fd ≡ (a.leases i).fd)
      × ((close_lease (a.leases i) answer).ref ≡ (a.leases i).ref)
unfolding close_lease
kept_lease a i answer = (ground arith, ground arith)

settle-Inv :
    (a : PlatformAdapter) (i : ℕ) (closing e : Option GoError)
    → i < a.fresh
    → (a.leases i).released ≡ false
    → Inv a
    → Inv (settle a i (close_lease (a.leases i) closing) e).0
settle-Inv a i closing (some e) n r v = close-Inv a i closing v
settle-Inv a i closing none n r v =
    let l = close_lease (a.leases i) closing in
    unfold released_lease in free-Inv a i l l.fd n (sym (kept_lease a i closing).0) r v

release_lease-Inv :
    (a : PlatformAdapter) (i : ℕ) (closing : Option GoError) (late : Bool) (answer : Answer)
    → i < a.fresh
    → Inv a
    → Inv (release_lease a i closing late answer).0
unfolding release_lease
release_lease-Inv a i closing late answer n v =
    if_cases (λ (t : PlatformAdapter × Option GoError). Inv t.0) (a.leases i).released
      {x = (a, (a.leases i).close_error)}
      {y = settle a i (close_lease (a.leases i) closing)
        (release_error (a.leases i).ref late answer)}
      (λ _. v) (λ e. settle-Inv a i closing (release_error (a.leases i).ref late answer) n e v)

step-Inv : (a : PlatformAdapter) (c : Call) → Inv a → Inv (step a c)
unfolding step
step-Inv a (prepares ref) v = prepare_tunnel-Inv a ref v
step-Inv a (releases_platform ref) v = release_platform-Inv a ref v
step-Inv a (acquires ref answer) v =
    unfold acquire in finish_acquire-Inv a ref (accept_answer a ref answer) v
step-Inv a (closes i answer) v = close-Inv a i answer v
step-Inv a (releases i closing late answer) v =
    if_cases Inv (ltb i a.fresh)
      (λ h. release_lease-Inv a i closing late answer (ground (arith, h)) v) (λ h. v)
step-Inv a (publishes event) v = publish_state-Inv a event v

run_adapter-Inv : (a : PlatformAdapter) (cs : List Call) → Inv a → Inv (run_adapter a cs)
unfolding run_adapter
run_adapter-Inv a [] v = v
run_adapter-Inv a (c ∷ cs) v = run_adapter-Inv (step a c) cs (step-Inv a c v)

reserve-busy :
    (m : List (ℕ × SessionRef)) (fd : ℕ) (ref o : SessionRef)
    → lookup fd m ≡ some o
    → reserve m fd ref ≡ none
unfolding reserve
reserve-busy m fd ref o h = ground (arith, h)

own_busy :
    (a : PlatformAdapter) (fd : ℕ) (ref : SessionRef) (o : Option (List (ℕ × SessionRef)))
    → o ≡ none
    → ((own a ref fd o).0 ≡ a)
      × ((own a ref fd o).2
          ≡ some (cleanup_failure (foreign "platform reused an active tunnel descriptor")))
own_busy a fd ref none h = (refl, refl)
own_busy a fd ref (some l) h = absurd (ground (arith, h))

-- No descriptor is used twice: in every history that starts with the invariant, whatever the platform
-- answers, two leases that have not released the same descriptor are one lease, and as long as a lease
-- has not released its descriptor, an acquisition to which the platform answers with it again is
-- refused with a cleanup failure and changes nothing.
pub run_adapter-apart :
    (a : PlatformAdapter) (cs : List Call)
    → Inv a
    → let t = run_adapter a cs in
      ((i j fd : ℕ) → i < t.fresh → j < t.fresh → Holds t i fd → Holds t j fd → i ≡ j)
      × ((i fd : ℕ) (ref : SessionRef) (answer : Answer)
          → i < t.fresh
          → Holds t i fd
          → accept_answer t ref answer ≡ descriptor fd
          → ((acquire t ref answer).0 ≡ t)
            × ((acquire t ref answer).2
                ≡ some (cleanup_failure (foreign "platform reused an active tunnel descriptor"))))
unfolding acquire
run_adapter-apart a cs v =
    let w = run_adapter-Inv a cs v in
    let t = run_adapter a cs in
    (
      w.apart,
      λ i fd ref answer n h e. rw e (
          own_busy t fd ref (reserve t.tunnels fd ref)
            (reserve-busy t.tunnels fd ref ((t.leases i).ref) (w.reserved i fd n h))),
    )
