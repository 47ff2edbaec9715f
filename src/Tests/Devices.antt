-- ===== src/Tests/Devices.antt =====
-- An Outline device with two connections, one of them opened while it closes.
use dobby_vpn.Common.{[], ◌∷◌, none, some, ◌≡◌, refl, true, false}
use dobby_vpn.Outline.Device.{
  OutlineDevice, tracks, submits, ends, Closing, begin_close, close_each, close_conn, without,
  finish_close, close, run, step, track, end_worker,
}
use dobby_vpn.Outline.Device.Shutdown.{close-run}

abbrev serving : OutlineDevice
serving = record {
  canceled = false;
  closing = false;
  listening = true;
  connections = 0 ∷ [];
  workers = 1;
  fresh = 1;
}

abbrev closing : Closing
closing = record {
  listener = none;
  answer = λ c. none;
  meanwhile = λ n. tracks ∷ [];
  drain = ends ∷ [];
  late = λ c. none;
}

abbrev closed : OutlineDevice
closed = record {
  canceled = true;
  closing = true;
  listening = false;
  connections = [];
  workers = 0;
  fresh = 2;
}

device_closed : close serving closing ≡ some (closed, none)
unfolding close begin_close close_each close_conn without finish_close run step track end_worker
device_closed = refl

close-run_example :
    (closed.closing ≡ true)
    × (closed.workers ≡ 0)
    × (closed.connections ≡ [])
    × (run closed (tracks ∷ submits ∷ []) ≡ closed)
close-run_example = close-run serving closing closed (tracks ∷ submits ∷ []) device_closed
