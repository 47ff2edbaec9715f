-- ===== src/Tests/Engines.antt =====
-- An engine with an attached attempt, and the dials of one.
use dobby_vpn.Common.{ℕ, ◌<◌, true, false, List, [], ◌∷◌, none, some, ◌≡◌, refl, arith}
use dobby_vpn.Tunnel.FlowOwner
use dobby_vpn.Tunnel.FlowOwner.{new_owner, wait}
use dobby_vpn.Tunnel.SwitchingProxy.{SwitchingProxy, new_switching_proxy, set, close}
use dobby_vpn.Tunnel.Engine.{
  Engine, Proxy, World, Transport, Closing, Config, attach_locked, put, stop_engine, detach_locked,
  detach, start, stop,
}
use dobby_vpn.Tunnel.Engine.Ownership.{
  Call, starts, detaches, stops, run, step, no_engine, run_exclusive,
}

abbrev transport : Transport
transport = record { context = none; resources = true; endpoint = none }

abbrev config : Config
config = record {
  cache = true;
  bypass = true;
  transport = some transport;
  accepted = true;
  started = none;
}

abbrev closing : Closing
closing = record { answer = λ c. (none, true); meanwhile = []; expired = none }

abbrev unused : ℕ → Engine
unused i = record {
  stopped = true;
  stop_error = none;
  router = new_switching_proxy;
  proxy = none;
  attempt = 0;
}

-- The first engine is stopped before the second one starts.
abbrev history : List Call
history = starts config ∷ detaches 0 0 closing ∷ stops 0 closing none ∷ starts config ∷ []

abbrev world : World
world = run (no_engine unused) history

world_running : (1 < world.handles) × ((world.engines 1).stopped ≡ false)
unfolding run step start attach_locked put stop stop_engine detach detach_locked set close
    FlowOwner.run FlowOwner.step FlowOwner.release FlowOwner.insert FlowOwner.delete
    FlowOwner.seal_and_close FlowOwner.seal FlowOwner.close_all FlowOwner.residual_error wait
    new_owner new_switching_proxy
world_running = (omega arith, refl)

run_exclusive_example :
    (◌≡◌ {A = ℕ} 1 1)
    × ((start world config).0 ≡ world)
    × ((start world config).1 ≡ none)
    × ((stop world 0 closing none).engines 1 ≡ world.engines 1)
run_exclusive_example =
    run_exclusive unused history 1 1 0 config closing none world_running.0 world_running.1
      world_running.0 world_running.1 (omega arith)

abbrev routed : SwitchingProxy
routed = set new_switching_proxy (some 7)

abbrev proxy : Proxy
proxy = record { id = 7; flows = new_owner; generation = 3 }

abbrev engine : Engine
engine = record {
  stopped = false;
  stop_error = none;
  router = routed;
  proxy = some proxy;
  attempt = 3;
}
