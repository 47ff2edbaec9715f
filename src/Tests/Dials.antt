-- ===== src/Tests/Dials.antt =====
-- The dials of an attempt, whose flows come to rest.
use dobby_vpn.Common.{List, [], ◌∷◌, none, some, ◌≡◌, refl}
use dobby_vpn.Failure.{foreign}
use dobby_vpn.Tunnel.FlowOwner.{
  new_owner, wait, delete, insert, end_dial, release, residual_error, seal, track, begin_dial,
  pending_tcp_context,
}
use dobby_vpn.Tunnel.Dialing.{
  Call, begins_tcp, begins_udp, ends_tcp, ends_udp, closes_tcp, seals, gone, remains, new_router,
  new_counters, run, step, seal_flows, close_handles, close_handle, close_tcp, close_udp,
  close_tracked, end_udp, end_tcp, begin_udp, begin_tcp, begin_flow, count_begin, end_flow,
  end_tracked, count_closed, count_failed, count_opened, remove,
}
use dobby_vpn.Tunnel.Dialing.Counts.{wait-run}

-- A TCP connection that is closed, and a UDP dial that fails.
abbrev dials : List Call
dials =
    begins_tcp
    ∷ begins_udp
    ∷ ends_tcp none gone
    ∷ ends_udp (some (foreign "refused")) none gone
    ∷ closes_tcp 0 (remains (foreign "reset"))
    ∷ seals (λ c. gone)
    ∷ []

settled : wait (run new_router dials).flows none ≡ some none
unfolding wait residual_error run step new_router new_counters begin_tcp begin_udp begin_flow
    begin_dial pending_tcp_context count_begin end_tcp end_udp end_flow end_tracked count_opened
    count_failed track insert delete end_dial seal_flows seal close_handles close_handle close_tcp
    close_udp close_tracked count_closed remove release new_owner
settled = refl

wait-run_example :
    let r = run new_router dials in
    (r.tcp.active ≡ 0) × (r.udp.active ≡ 0) × (r.tcp.open_handles ≡ []) × (r.udp.open_handles ≡ [])
wait-run_example = wait-run dials none settled
