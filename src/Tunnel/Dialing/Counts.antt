-- ===== src/Tunnel/Dialing/Counts.antt =====
-- The counters of an attempt's dials, and what its owner holds of their connections.
use dobby_vpn.Common.{
  no_count, ℕ, ◌+◌, ◌<◌, ◌≤◌, false, List, [], ◌∷◌, Option, none, some, ◌==◌, ◌≡◌, refl, arith,
  length, count, contains, if_cases, ◌∙◌,
}
use dobby_vpn.Failure.{GoError}
use dobby_vpn.Tunnel.FlowOwner.{FlowOwner, new_owner, lookup, seal, wait, pending_tcp_context}
use dobby_vpn.Tunnel.FlowOwner.Laws.{wait_clean}
use dobby_vpn.Tunnel.Dialing.{
  Router, new_counters, new_router, Closed, begin_flow, Call, begin_tcp, begin_udp, end_tcp,
  end_udp_opened, end_udp, close_tcp, close_udp, idle_out, close_handle, close_handles, seal_flows,
  step, run, begins_tcp, begins_udp, ends_tcp, ends_udp, closes_tcp, closes_udp, idles, seals,
}
use dobby_vpn.Tunnel.Dialing.Side.{
  IsExact, holds, Side, close_tracked-Side, begin_flow-Side, end_flow-Side, end_expired-Side,
  failed-Side,
}

-- Both protocols of an attempt.
pub record Inv (r : Router) : Type 0 where
  pub side : Side r.flows r.tcp r.udp r.fresh
  pub exact : IsExact r.udp

swapped : (r : Router) → Inv r → Side r.flows r.udp r.tcp r.fresh
swapped r v = record {
  exact = v.exact;
  pending = omega (arith, v.side.pending);
  covered = λ d. omega (arith, v.side.covered d);
  below = v.side.below;
}

-- The TCP side has moved, or the UDP side.
by_tcp : (r t : Router) → Inv r → t.udp ≡ r.udp → Side t.flows t.tcp r.udp t.fresh → Inv t
by_tcp r t v h s = record {
  side = record {
    exact = s.exact;
    pending = ground (arith, s.pending);
    covered = λ d. ground (arith, s.covered d, h);
    below = s.below;
  };
  exact = ground (arith, v.exact);
}

by_udp : (r t : Router) → Inv r → t.tcp ≡ r.tcp → Side t.flows t.udp r.tcp t.fresh → Inv t
by_udp r t v h s = record {
  side = record {
    exact = ground (arith, v.side.exact);
    pending = ground (arith, s.pending);
    covered = λ d. ground (arith, s.covered d, h);
    below = s.below;
  };
  exact = s.exact;
}

-- What a change of the owner that leaves connections and dials alone keeps.
flows-Inv :
    (r : Router) (o : FlowOwner)
    → o.connections ≡ r.flows.connections
    → o.pending ≡ r.flows.pending
    → Inv r
    → Inv (record r { flows = o })
flows-Inv r o c p v = record {
  side = record {
    exact = v.side.exact;
    pending = p ∙ v.side.pending;
    covered = λ d. ground (arith, v.side.covered d, c);
    below = λ d b. ground (arith, v.side.below d b, c);
  };
  exact = v.exact;
}

begin_tcp-Inv : (r : Router) → Inv r → Inv (begin_tcp r)
unfolding begin_tcp pending_tcp_context
begin_tcp-Inv r v =
    let f = begin_flow r.flows r.tcp in
    let begun = record r { flows = f.0; tcp = f.1 } in
    flows-Inv begun _ (ground arith) (ground arith)
      (by_tcp r begun v refl (begin_flow-Side r.flows r.tcp r.udp r.fresh v.side))

begin_udp-Inv : (r : Router) → Inv r → Inv (begin_udp r)
unfolding begin_udp
begin_udp-Inv r v = by_udp r _ v refl (begin_flow-Side r.flows r.udp r.tcp r.fresh (swapped r v))

dialing_positive : (n : ℕ) → (n == 0) ≡ false → 0 < n
dialing_positive n h = ground arith

end_tcp-Inv : (r : Router) (dialed : Option GoError) (x : Closed) → Inv r → Inv (end_tcp r dialed x)
unfolding end_tcp
end_tcp-Inv r dialed x v =
    if_cases Inv (r.tcp.dialing == 0) (λ _. v)
      (λ h. by_tcp r _ v refl (
        end_flow-Side r.flows r.tcp r.udp r.fresh dialed x (dialing_positive r.tcp.dialing h)
          v.side))

end_udp_opened-Inv :
    (r : Router) (timer : Option Closed) (x : Closed)
    → 0 < r.udp.dialing
    → Inv r
    → Inv (end_udp_opened r timer x)
end_udp_opened-Inv r none x h v =
    by_udp r _ v refl (end_flow-Side r.flows r.udp r.tcp r.fresh none x h (swapped r v))
end_udp_opened-Inv r (some timer) x h v =
    by_udp r _ v refl (end_expired-Side r.flows r.udp r.tcp r.fresh timer x h (swapped r v))

end_udp-Inv :
    (r : Router) (dialed : Option GoError) (timer : Option Closed) (x : Closed)
    → Inv r
    → Inv (end_udp r dialed timer x)
unfolding end_udp
end_udp-Inv r (some e) timer x v =
    if_cases Inv (r.udp.dialing == 0) (λ _. v)
      (λ h.
        by_udp r _ v refl (
          failed-Side r.flows r.udp r.tcp r.fresh (dialing_positive r.udp.dialing h) (swapped r v)))
end_udp-Inv r none timer x v =
    if_cases Inv (r.udp.dialing == 0) (λ _. v)
      (λ h. end_udp_opened-Inv r timer x (dialing_positive r.udp.dialing h) v)

close_tcp-Inv : (r : Router) (c : ℕ) (x : Closed) → Inv r → Inv (close_tcp r c x)
unfolding close_tcp
close_tcp-Inv r c x v =
    by_tcp r _ v refl (close_tracked-Side r.flows r.tcp r.udp r.fresh c x v.side)

close_udp-Inv : (r : Router) (c : ℕ) (x : Closed) → Inv r → Inv (close_udp r c x)
unfolding close_udp
close_udp-Inv r c x v =
    by_udp r _ v refl (close_tracked-Side r.flows r.udp r.tcp r.fresh c x (swapped r v))

idle_out-Inv : (r : Router) (c : ℕ) (x : Closed) → Inv r → Inv (idle_out r c x)
unfolding idle_out
idle_out-Inv r c x v =
    if_cases Inv (contains c r.idle_closed) (λ _. v)
      (λ _.
        close_udp-Inv (record r { idle_timeouts = r.idle_timeouts + 1 }) c x
          (record { side = v.side; exact = v.exact }))

close_handles-Inv :
    (answer : ℕ → Closed) (r : Router) (m : List (ℕ × Option GoError))
    → Inv r
    → Inv (close_handles answer r m)
unfolding close_handles close_handle
close_handles-Inv answer r [] v = v
close_handles-Inv answer r ((c, e) ∷ m) v =
    close_handles-Inv answer (close_handle r c (answer c)) m (
      if_cases Inv (contains c r.tcp.open_handles) (λ _. close_tcp-Inv r c (answer c) v)
        (λ _. close_udp-Inv r c (answer c) v))

step-Inv : (r : Router) (c : Call) → Inv r → Inv (step r c)
unfolding step seal_flows
step-Inv r begins_tcp v = begin_tcp-Inv r v
step-Inv r begins_udp v = begin_udp-Inv r v
step-Inv r (ends_tcp dialed x) v = end_tcp-Inv r dialed x v
step-Inv r (ends_udp dialed timer x) v = end_udp-Inv r dialed timer x v
step-Inv r (closes_tcp c x) v = close_tcp-Inv r c x v
step-Inv r (closes_udp c x) v = close_udp-Inv r c x v
step-Inv r (idles c x) v = idle_out-Inv r c x v
step-Inv r (seals answer) v =
    close_handles-Inv answer _ r.flows.connections
      (flows-Inv r (seal r.flows) (unfold seal in refl) (unfold seal in refl) v)

run-Inv : (r : Router) (cs : List Call) → Inv r → Inv (run r cs)
unfolding run
run-Inv r [] v = v
run-Inv r (c ∷ cs) v = run-Inv (step r c) cs (step-Inv r c v)

new_router-Inv : Inv new_router
unfolding new_router new_counters new_owner count lookup
new_router-Inv = record {
  side = record { exact = refl; pending = refl; covered = λ d. omega arith; below = λ d b. refl };
  exact = refl;
}

-- In every history of an attempt, each protocol's counter is the number of its dials under way and
-- of its open connections, and the owner counts the dials of both and holds each open connection.
pub run_exact :
    (cs : List Call) (d : ℕ)
    → let r = run new_router cs in
      (r.tcp.active ≡ r.tcp.dialing + length r.tcp.open_handles)
      × (r.udp.active ≡ r.udp.dialing + length r.udp.open_handles)
      × (r.flows.pending ≡ r.tcp.dialing + r.udp.dialing)
      × (count d r.tcp.open_handles + count d r.udp.open_handles ≤ holds r.flows d)
run_exact cs d =
    let v = run-Inv new_router cs new_router-Inv in
    (v.side.exact, v.exact, v.side.pending, v.side.covered d)

-- When the wait for the flows of an attempt answers without an error, in any history of it, no
-- connection of either protocol is open and both counters are zero.
pub wait-run :
    (cs : List Call) (expired : Option GoError)
    → let r = run new_router cs in
      wait r.flows expired ≡ some none
      → (r.tcp.active ≡ 0)
        × (r.udp.active ≡ 0)
        × (r.tcp.open_handles ≡ [])
        × (r.udp.open_handles ≡ [])
wait-run cs expired h =
    let r = run new_router cs in
    let v = run-Inv new_router cs new_router-Inv in
    let idle = (wait_clean r.flows expired).0 h in
    let unheld : (d : ℕ) → holds r.flows d ≡ 0 = λ d. unfold lookup in ground (arith, idle.1) in
    let tcp = no_count r.tcp.open_handles (λ d. omega (arith, v.side.covered d, unheld d)) in
    let udp = no_count r.udp.open_handles (λ d. omega (arith, v.side.covered d, unheld d)) in
    (
      ground (arith, v.side.exact, v.side.pending, idle.0, tcp),
      ground (arith, v.exact, v.side.pending, idle.0, udp),
      tcp,
      udp,
    )
