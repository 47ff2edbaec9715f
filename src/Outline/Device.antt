-- ===== src/Outline/Device.antt =====
-- core/outline/ownership.go: the connections and the workers that a device owns, and its Close.
pub mod Shutdown
use dobby_vpn.Common.{
  ℕ, zero, suc, ◌+◌, ◌-◌, Bool, true, false, List, [], ◌∷◌, Option, none, some, ◌==◌, contains,
  is_some, if◌then◌else◌,
}
use dobby_vpn.Failure.{GoError, join, formatted}
use dobby_vpn.Tunnel.FlowOwner.{closed_error}

-- OutlineDevice, as far as it owns: its connections by handle, the next handle, and the workers that
-- run.
pub record OutlineDevice : Type 0 where
  pub canceled : Bool
  pub closing : Bool
  pub listening : Bool
  pub connections : List ℕ
  pub workers : ℕ
  pub fresh : ℕ

unfoldable pub without : ℕ → List ℕ → List ℕ
without c [] = []
without c (d ∷ l) = let rest = without c l in if c == d then rest else d ∷ rest

-- track: the connection is owned in any case, and handed to the caller where no Close has begun.
unfoldable pub track : OutlineDevice → OutlineDevice × Option ℕ × Option GoError
track d =
    let owned = record d { connections = d.fresh ∷ d.connections; fresh = d.fresh + 1 } in
    if d.closing then (owned, none, some closed_error) else (owned, some d.fresh, none)

-- ownedConn.Close; `answer` is what the connection's own Close answers, none also for net.ErrClosed.
-- A connection that is closed is not in the map any more.
unfoldable pub close_conn : OutlineDevice → ℕ → Option GoError → OutlineDevice × Option GoError
unfolding without
close_conn d c answer =
    if contains c d.connections
    then elim answer [
      | none ↦ (record d { connections = without c d.connections }, none)
      | some e ↦ (d, some e)
    ]
    else (d, none)

-- Submit, and the end of the work.
unfoldable pub submit : OutlineDevice → OutlineDevice
submit d = record d { workers = d.workers + 1 }

unfoldable pub end_worker : OutlineDevice → OutlineDevice
end_worker d = record d { workers = d.workers - 1 }

-- What the workers do: the accept loop and every dial run in one of them, and so does a Submit.
pub data Call : Type 0 where
  tracks submits ends : Call
  closes : ℕ → Option GoError → Call

-- Without a worker there is none that could do it.
unfoldable pub step : OutlineDevice → Call → OutlineDevice
unfolding track close_conn submit end_worker
step d tracks = if d.workers == 0 then d else (track d).0
step d submits = if d.workers == 0 then d else submit d
step d ends = if d.workers == 0 then d else end_worker d
step d (closes c answer) = if d.workers == 0 then d else (close_conn d c answer).0

unfoldable pub run : OutlineDevice → List Call → OutlineDevice
unfolding step
run d [] = d
run d (c ∷ cs) = run (step d c) cs

-- What happens in a Close: what the listener and the connections answer, what the workers do before
-- the n-th connection is closed, and what they do until the wait for them is over.
pub record Closing : Type 0 where
  pub listener : Option GoError
  pub answer : ℕ → Option GoError
  pub meanwhile : ℕ → List Call
  pub drain : List Call
  pub late : ℕ → Option GoError

-- A loop over a snapshot of the connections, from the n-th on, with the errors so far.
unfoldable pub close_each :
    (ℕ → Option GoError)
    → (ℕ → List Call)
    → OutlineDevice
    → ℕ
    → List ℕ
    → Option GoError
    → OutlineDevice × Option GoError
unfolding close_conn run
close_each answer meanwhile d n [] result = (d, result)
close_each answer meanwhile d n (c ∷ cs) result =
    let r = close_conn (run d (meanwhile n)) c (answer c) in
    close_each answer meanwhile r.0 (n + 1) cs (join result r.1)

abbrev pub listener_error : Option GoError → Option GoError
listener_error none = none
listener_error (some e) = some (formatted "close Outline SOCKS listener" e)

-- The lock in which a Close begins.
unfoldable pub begin_close : OutlineDevice → OutlineDevice
begin_close d = record d { canceled = true; closing = true }

-- The wait for the workers and the late connections; none while a worker runs.
unfoldable pub finish_close : OutlineDevice → Closing → Option (OutlineDevice × Option GoError)
unfolding close_each run
finish_close d c =
    let drained = run d c.drain in
    if drained.workers == 0
    then some (close_each c.late (λ n. []) drained 0 drained.connections none)
    else none

-- Close.
unfoldable pub close : OutlineDevice → Closing → Option (OutlineDevice × Option GoError)
unfolding begin_close close_each finish_close
close d c =
    let first =
      close_each c.answer c.meanwhile (record (begin_close d) { listening = false }) 0 d.connections
        (listener_error c.listener) in
    elim first.1 [ some e ↦ some (first.0, some e) | none ↦ finish_close first.0 c ]
