-- ===== src/Tests/Runtimes.antt =====
-- A start that opens its device, a network whose tunnel is acquired, and a wait that succeeds at the
-- second attempt.
use dobby_vpn.Common.{
  ℕ, true, false, [], ◌∷◌, Option, none, some, ◌≡◌, ◌⊎◌, ◌↔◌, ◌≤◌, refl, is_some, ◌==◌,
  if◌then◌else◌,
}
use dobby_vpn.Failure.{GoError, foreign}
use dobby_vpn.Runtime.Lease.{Lease, push, order}
use dobby_vpn.Runtime.Readiness.{Probes, wait_for_readiness, IsReadyAt, wait_for_readiness_iff}
use dobby_vpn.Runtime.Start.{Runtime, Device, Attempt, start}
use dobby_vpn.Runtime.Acquisition.{acquisitions as start_acquisitions}
use dobby_vpn.Runtime.Ownership.{IsAccounted, start-IsAccounted}
use dobby_vpn.Runtime.Network.{
  Setup, prepare_network, acquire_network, acquire_network_tunnel, start_core, connect_context,
  stop_network, acquisitions, prepare_network-owned,
}

abbrev late : Probes
late = record {
  before = λ i. none;
  check = λ i. if i == 1 then some (foreign "refused") else none;
  after = λ i. none;
  pause = λ i. none;
  stamp = λ i. "attempt";
}

wait_for_readiness_iff_example :
    (wait_for_readiness late 3 ≡ none) ↔ ((at : ℕ) × (1 ≤ at) × (at ≤ 3) × IsReadyAt late 1 at)
wait_for_readiness_iff_example = wait_for_readiness_iff late 3

abbrev idle : Runtime
idle = record { active = false; network = none }

abbrev device : Device
device = record { upstreams = none; endpoint = "127.0.0.1:1080"; opened = none }

abbrev attempt : Attempt
attempt = record {
  session_id = "session";
  config_empty = false;
  context = none;
  policy = (true, none);
  device = (some device, none);
  late_context = none;
  probes = late;
  attempts = 3;
  attached = some (foreign "previous attempt still owns flows");
  close = λ f. if f == 1 then some (foreign "busy") else none;
}

start-IsAccounted_example :
    IsAccounted (start idle attempt)
    × (order (start idle attempt).1.lease ≡ start_acquisitions idle attempt)
start-IsAccounted_example = start-IsAccounted idle attempt refl

abbrev setup : Setup
setup = record {
  session_id = "session";
  bypass = (true, none);
  mobile = true;
  tunnel = some ((true, none), some none);
  core = true;
  connect = some (foreign "core did not connect");
  expired = none;
  cancelable = true;
  disconnect = none;
  late_context = none;
}

abbrev network_lease : Lease
network_lease = record {
  stopped = false;
  undo = 4 ∷ 3 ∷ [];
  undone = [];
  monitored = false;
  canceled = false;
  watched = true;
  done = 0;
}

abbrev network_close : ℕ → Option GoError
network_close f = if f == 3 then some (foreign "tunnel is busy") else none

abbrev prepared : Runtime
prepared = (prepare_network idle setup).0

prepare_network-owned_example :
    let s = stop_network prepared network_close none network_lease in
    ((prepare_network prepared setup).0 ≡ prepared)
    × (is_some (prepare_network prepared setup).2 ≡ true)
    × (order s.1 ≡ acquisitions setup)
    × (((s.2 ≡ none) × (s.1.undo ≡ []) × (s.0 ≡ idle))
        ⊎ ((is_some s.2 ≡ true) × (s.1.stopped ≡ false) × (s.0 ≡ prepared)))
prepare_network-owned_example =
    prepare_network-owned idle setup setup network_close none network_lease refl refl (
      unfold prepare_network acquire_network acquire_network_tunnel start_core push
        connect_context in
      refl)
