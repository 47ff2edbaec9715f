-- ===== src/Tunnel/Dialing/Side.antt =====
-- One protocol's part of an attempt: its counter against the connections that the owner holds.
use dobby_vpn.Common.{
  ℕ, ◌+◌, ◌-◌, ◌<◌, ◌≤◌, false, List, [], ◌∷◌, Option, none, some, ◌==◌, ◌≡◌, ◌⊎◌, inl, arith,
  is_some, if◌then◌else◌, length, count, contains-count, not-contains-count, if_cases,
}
use dobby_vpn.Failure.{GoError}
use dobby_vpn.Tunnel.FlowOwner.{FlowOwner, lookup, insert, begin_dial, end_dial, track, release}
use dobby_vpn.Tunnel.FlowOwner.Laws.{lookup-insert, release-lookup}
use dobby_vpn.Tunnel.Dialing.{
  Counters, remove, count_begin, count_failed, count_opened, count_closed, Closed, gone, remains,
  close_tracked, begin_flow, end_opened, end_tracked, end_flow, end_expired,
}

-- A protocol's counter is right: the dials under way and the open connections.
abbrev pub IsExact : Counters → Type 0
IsExact k = k.active ≡ k.dialing + length k.open_handles

count-remove :
    (c d : ℕ) (l : List ℕ) → count d (remove c l) ≡ (if c == d then count d l - 1 else count d l)
unfolding count remove
count-remove c d [] = ground arith
count-remove c d (x ∷ xs) = ground (arith, count-remove c d xs)

length-remove : (c : ℕ) (l : List ℕ) → 0 < count c l → length (remove c l) + 1 ≡ length l
unfolding count remove
length-remove c [] h = absurd (omega arith)
length-remove c (x ∷ xs) h = ground (arith, length-remove c xs)

-- How often the owner holds a handle.
abbrev pub holds : FlowOwner → ℕ → ℕ
holds o d = if is_some (lookup d o.connections) then 1 else 0

-- The owner holds each handle of a protocol, beside `m` of the other's.
abbrev pub Covers : FlowOwner → Counters → ℕ → ℕ → Type 0
Covers o k m d = count d k.open_handles + m ≤ holds o d

close_tracked-IsExact :
    (o : FlowOwner) (k : Counters) (c : ℕ) (x : Closed)
    → IsExact k
    → IsExact (close_tracked o k c x).1
unfolding close_tracked count_closed
close_tracked-IsExact o k c x h =
    ground (arith, contains-count c k.open_handles, length-remove c k.open_handles)

close_tracked-pending :
    (o : FlowOwner) (k : Counters) (c : ℕ) (x : Closed)
    → let t = close_tracked o k c x in
      (t.0.pending ≡ o.pending) × (t.1.dialing ≡ k.dialing) × (t.0.closed ≡ o.closed)
unfolding close_tracked count_closed release
close_tracked-pending o k c x = (ground arith, ground arith, ground arith)

-- Closing a connection leaves what is open covered; a connection that is not yet tracked may be the
-- one that is closed.
close_tracked-Covers :
    (o : FlowOwner) (k : Counters) (c : ℕ) (x : Closed) (m d : ℕ)
    → Covers o k m d ⊎ ((c ≡ d) × (m ≡ 0) × (count d k.open_handles ≤ 1))
    → let t = close_tracked o k c x in
      Covers t.0 t.1 m d × (count d t.1.open_handles ≤ count d k.open_handles)
unfolding close_tracked count_closed
close_tracked-Covers o k c gone m d h = ground (
  arith,
  contains-count c k.open_handles,
  not-contains-count c k.open_handles,
  count-remove c d k.open_handles,
  release-lookup o c d none false,
)
close_tracked-Covers o k c (remains e) m d h = ground (
  arith,
  contains-count c k.open_handles,
  not-contains-count c k.open_handles,
  release-lookup o c d (some e) false,
)

close_tracked-holds :
    (o : FlowOwner) (k : Counters) (c : ℕ) (x : Closed) (d : ℕ)
    → (holds (close_tracked o k c x).0 d ≤ holds o d) ⊎ ((c ≡ d) × (0 < count c k.open_handles))
unfolding close_tracked
close_tracked-holds o k c gone d =
    ground (arith, contains-count c k.open_handles, release-lookup o c d none false)
close_tracked-holds o k c (remains e) d =
    ground (arith, contains-count c k.open_handles, release-lookup o c d (some e) false)

-- One protocol's side of an attempt, beside the other's counters: the counter is right, the owner
-- counts the dials of both, holds the open connections, and no handle from `n` on.
pub record Side (o : FlowOwner) (k u : Counters) (n : ℕ) : Type 0 where
  pub exact : IsExact k
  pub pending : o.pending ≡ k.dialing + u.dialing
  pub covered : (d : ℕ) → Covers o k (count d u.open_handles) d
  pub below : (d : ℕ) → n ≤ d → holds o d ≡ 0

pub close_tracked-Side :
    (o : FlowOwner) (k u : Counters) (n c : ℕ) (x : Closed)
    → Side o k u n
    → let t = close_tracked o k c x in Side t.0 t.1 u n
close_tracked-Side o k u n c x v =
    let p = close_tracked-pending o k c x in
    record {
      exact = close_tracked-IsExact o k c x v.exact;
      pending = omega (arith, p.0, p.1, v.pending);
      covered =
          λ d. (close_tracked-Covers o k c x (count d u.open_handles) d (inl (v.covered d))).0;
      below = λ d b. ground (arith, close_tracked-holds o k c x d, v.below d b, v.covered d);
    }

pub begin_flow-Side :
    (o : FlowOwner) (k u : Counters) (n : ℕ)
    → Side o k u n
    → let f = begin_flow o k in Side f.0 f.1 u n
unfolding begin_flow begin_dial count_begin
begin_flow-Side o k u n v = record {
  exact = ground (arith, v.exact);
  pending = ground (arith, v.pending);
  covered = λ d. ground (arith, v.covered d);
  below = λ d b. ground (arith, v.below d b);
}

-- A connection has been opened: it counts in place of its dial, and no one holds it yet.
pub record IsOpened (o : FlowOwner) (k u : Counters) (n : ℕ) : Type 0 where
  pub exact : IsExact k
  pub pending : o.pending ≡ k.dialing + u.dialing + 1
  pub covered :
      (d : ℕ)
      → Covers o k (count d u.open_handles) d
        ⊎ ((n ≡ d) × (count d u.open_handles ≡ 0) × (count d k.open_handles ≤ 1))
  pub below : (d : ℕ) → n < d → holds o d ≡ 0

count_opened-IsOpened :
    (o : FlowOwner) (k u : Counters) (n : ℕ)
    → 0 < k.dialing
    → Side o k u n
    → IsOpened o (count_opened k n) u n
unfolding count_opened count
count_opened-IsOpened o k u n h v = record {
  exact = omega (arith, v.exact);
  pending = omega (arith, v.pending);
  covered = λ d. ground (arith, v.covered d, v.below d);
  below = λ d b. v.below d (omega arith);
}

-- It is tracked, and the dial ends.
tracked-Side :
    (o : FlowOwner) (k u : Counters) (n : ℕ)
    → IsOpened o k u n
    → Side (end_dial (record o { connections = insert n none o.connections })) k u (n + 1)
unfolding end_dial
tracked-Side o k u n v = record {
  exact = v.exact;
  pending = ground (arith, v.pending);
  covered = λ d. ground (arith, v.covered d, lookup-insert n d none o.connections);
  below = λ d b. ground (arith, v.below d, lookup-insert n d none o.connections);
}

-- It is closed at once, and the dial ends.
untracked-IsOpened :
    (o : FlowOwner) (k u : Counters) (n : ℕ) (x : Closed)
    → IsOpened o k u n
    → let t = close_tracked o k n x in Side (end_dial t.0) t.1 u (n + 1)
unfolding end_dial
untracked-IsOpened o k u n x v =
    let p = close_tracked-pending o k n x in
    record {
      exact = close_tracked-IsExact o k n x v.exact;
      pending = omega (arith, p.0, p.1, v.pending);
      covered = λ d. (close_tracked-Covers o k n x (count d u.open_handles) d (v.covered d)).0;
      below = λ d b. ground (arith, close_tracked-holds o k n x d, v.below d);
    }

close_tracked-IsOpened :
    (o : FlowOwner) (k u : Counters) (n : ℕ) (x : Closed)
    → IsOpened o k u n
    → let t = close_tracked o k n x in IsOpened t.0 t.1 u n
close_tracked-IsOpened o k u n x v =
    let p = close_tracked-pending o k n x in
    record {
      exact = close_tracked-IsExact o k n x v.exact;
      pending = omega (arith, p.0, p.1, v.pending);
      covered = λ d. inl (close_tracked-Covers o k n x (count d u.open_handles) d (v.covered d)).0;
      below = λ d b. ground (arith, close_tracked-holds o k n x d, v.below d);
    }

end_opened-Side :
    (o : FlowOwner) (k u : Counters) (n : ℕ) (x : Closed)
    → IsOpened o (count_opened k n) u n
    → let f = end_opened o k n x in Side f.0 f.1 u (n + 1)
unfolding end_tracked track
end_opened-Side o k u n x v =
    if_cases (λ t. let f = end_tracked t (count_opened k n) n x in Side f.0 f.1 u (n + 1)) o.closed
      (λ h. untracked-IsOpened o (count_opened k n) u n x v)
      (λ h. tracked-Side o (count_opened k n) u n v)

pub failed-Side :
    (o : FlowOwner) (k u : Counters) (n : ℕ)
    → 0 < k.dialing
    → Side o k u n
    → Side (end_dial o) (count_failed k) u n
unfolding end_dial count_failed
failed-Side o k u n h v = record {
  exact = omega (arith, v.exact);
  pending = omega (arith, v.pending);
  covered = λ d. v.covered d;
  below = v.below;
}

later-Side : (o : FlowOwner) (k u : Counters) (n : ℕ) → Side o k u n → Side o k u (n + 1)
later-Side o k u n v = record {
  exact = v.exact;
  pending = v.pending;
  covered = v.covered;
  below = λ d b. v.below d (omega arith);
}

pub end_flow-Side :
    (o : FlowOwner) (k u : Counters) (n : ℕ) (dialed : Option GoError) (x : Closed)
    → 0 < k.dialing
    → Side o k u n
    → let f = end_flow o k n dialed x in Side f.0 f.1 u (n + 1)
unfolding end_flow
end_flow-Side o k u n (some e) x h v = later-Side _ _ u n (failed-Side o k u n h v)
end_flow-Side o k u n none x h v = end_opened-Side o k u n x (count_opened-IsOpened o k u n h v)

pub end_expired-Side :
    (o : FlowOwner) (k u : Counters) (n : ℕ) (timer x : Closed)
    → 0 < k.dialing
    → Side o k u n
    → let f = end_expired o k n timer x in Side f.0 f.1 u (n + 1)
unfolding end_expired
end_expired-Side o k u n timer x h v =
    let c =
      close_tracked-IsOpened o (count_opened k n) u n timer (count_opened-IsOpened o k u n h v) in
    untracked-IsOpened _ _ u n x c
