-- ===== src/Tunnel/Dialing.antt =====
-- core/tunnel/tunnel.go: the TCP and UDP dials of an attempt, the connections that they track, and
-- the counters of those.
pub mod Side
pub mod Counts
use dobby_vpn.Common.{
  ℕ, ◌+◌, ◌-◌, Bool, true, false, not, ◌&&◌, ◌||◌, List, [], ◌∷◌, Option, none, some, ◌==◌, ltb,
  contains, if◌then◌else◌,
}
use dobby_vpn.Failure.{GoError, join}
use dobby_vpn.Tunnel.FlowOwner.{
  FlowOwner, new_owner, begin_dial, end_dial, pending_tcp_context, track, release, seal,
  closed_error,
}

-- The counters of one protocol. `open` holds the tracked connections whose `closed` is not set, by
-- handle, and `dialing` counts the dials that have begun and not ended.
pub record Counters : Type 0 where
  pub active : ℕ
  pub peak : ℕ
  pub dialing : ℕ
  pub open_handles : List ℕ

-- DobbyProxy, with the associations that the idle timer or a Close has closed, and the next handle.
pub record Router : Type 0 where
  pub flows : FlowOwner
  pub tcp : Counters
  pub udp : Counters
  pub idle_closed : List ℕ
  pub idle_timeouts : ℕ
  pub fresh : ℕ

unfoldable pub new_counters : Counters
new_counters = record { active = 0; peak = 0; dialing = 0; open_handles = [] }

unfoldable pub new_router : Router
unfolding new_counters new_owner
new_router = record {
  flows = new_owner;
  tcp = new_counters;
  udp = new_counters;
  idle_closed = [];
  idle_timeouts = 0;
  fresh = 0;
}

unfoldable pub remove : ℕ → List ℕ → List ℕ
remove c [] = []
remove c (d ∷ l) = let rest = remove c l in if c == d then l else d ∷ rest

-- A dial that begins, with updatePeakInt64.
unfoldable pub count_begin : Counters → Counters
count_begin k = record k {
  active = k.active + 1;
  peak = if ltb k.peak (k.active + 1) then k.active + 1 else k.peak;
  dialing = k.dialing + 1;
}

-- The dial failed, and the closure `release` is called.
unfoldable pub count_failed : Counters → Counters
count_failed k = record k { active = k.active - 1; dialing = k.dialing - 1 }

unfoldable pub count_opened : Counters → ℕ → Counters
count_opened k c = record k { dialing = k.dialing - 1; open_handles = c ∷ k.open_handles }

unfoldable pub count_closed : Counters → ℕ → Counters
count_closed k c = record k { active = k.active - 1; open_handles = remove c k.open_handles }

-- What a connection's own Close answers: nil or net.ErrClosed, or another error.
pub data Closed : Type 0 where
  gone : Closed
  remains : GoError → Closed

-- Close of a tracked connection, with what it tells the owner.
unfoldable pub close_tracked : FlowOwner → Counters → ℕ → Closed → FlowOwner × Counters
close_tracked o k c answer = if not (contains c k.open_handles) then (o, k) else elim answer [
  | gone ↦ (release o c none false, count_closed k c)
  | remains e ↦ (release o c (some e) false, k)
]

abbrev close_error : Closed → Option GoError
close_error gone = none
close_error (remains e) = some e

-- The beginning of a dial, TCP or UDP.
unfoldable pub begin_flow : FlowOwner → Counters → FlowOwner × Counters × Option GoError
begin_flow o k = elim (begin_dial o).1 [
  | some e ↦ (o, k, some e)
  | none ↦ ((begin_dial o).0, count_begin k, none)
]

-- The end of a dial that opened a connection: it is tracked, or, where the owner has been sealed
-- meanwhile, closed.
unfoldable pub end_tracked :
    FlowOwner × Bool → Counters → ℕ → Closed → FlowOwner × Counters × Option GoError
end_tracked (o, true) k c answer = (end_dial o, k, none)
end_tracked (o, false) k c answer =
    let r = close_tracked o k c answer in
    (end_dial r.0, r.1, join (some closed_error) (close_error answer))

abbrev pub end_opened : FlowOwner → Counters → ℕ → Closed → FlowOwner × Counters × Option GoError
end_opened o k c answer = end_tracked (track o c) (count_opened k c) c answer

-- The end of a dial: its error, or the handle of its connection and what its Close would answer.
unfoldable pub end_flow :
    FlowOwner → Counters → ℕ → Option GoError → Closed → FlowOwner × Counters × Option GoError
end_flow o k c dialed answer = elim dialed [
  | some e ↦ (end_dial o, count_failed k, some e)
  | none ↦ end_opened o k c answer
]

-- What the packet stack, the transports and the timers do to an attempt.
pub data Call : Type 0 where
  begins_tcp begins_udp : Call
  ends_tcp : Option GoError → Closed → Call
  ends_udp : Option GoError → Option Closed → Closed → Call
  closes_tcp : ℕ → Closed → Call
  closes_udp : ℕ → Closed → Call
  idles : ℕ → Closed → Call
  seals : (ℕ → Closed) → Call

unfoldable pub begin_tcp : Router → Router
begin_tcp r =
    let f = begin_flow r.flows r.tcp in
    record r { flows = elim f.2 [ none ↦ pending_tcp_context f.0 | some e ↦ f.0 ]; tcp = f.1 }

unfoldable pub begin_udp : Router → Router
begin_udp r = let f = begin_flow r.flows r.udp in record r { flows = f.0; udp = f.1 }

-- A call without a dial that has begun does not occur in the code; it changes nothing here.
unfoldable pub end_tcp : Router → Option GoError → Closed → Router
end_tcp r dialed answer =
    if r.tcp.dialing == 0
    then r
    else (let f = end_flow r.flows r.tcp r.fresh dialed answer in
        record r { flows = f.0; tcp = f.1; fresh = r.fresh + 1 })

-- A UDP association whose idle timer has fired before it could be tracked was closed by the timer,
-- and is closed once more by the dial.
unfoldable pub end_expired : FlowOwner → Counters → ℕ → Closed → Closed → FlowOwner × Counters
end_expired o k c timer answer =
    let t = close_tracked o (count_opened k c) c timer in
    let r = close_tracked t.0 t.1 c answer in (end_dial r.0, r.1)

abbrev was_closed : Option GoError → List ℕ → ℕ → List ℕ
was_closed none l c = l
was_closed (some e) l c = c ∷ l

abbrev pub end_udp_opened : Router → Option Closed → Closed → Router
end_udp_opened r none answer =
    let f = end_flow r.flows r.udp r.fresh none answer in
    record r {
      flows = f.0;
      udp = f.1;
      fresh = r.fresh + 1;
      idle_closed = was_closed f.2 r.idle_closed r.fresh;
    }
end_udp_opened r (some timer) answer =
    let f = end_expired r.flows r.udp r.fresh timer answer in
    record r {
      flows = f.0;
      udp = f.1;
      fresh = r.fresh + 1;
      idle_closed = r.fresh ∷ r.idle_closed;
      idle_timeouts = r.idle_timeouts + 1;
    }

unfoldable pub end_udp : Router → Option GoError → Option Closed → Closed → Router
end_udp r dialed timer answer = if r.udp.dialing == 0 then r else elim dialed [
  | some e ↦ record r { flows = end_dial r.flows; udp = count_failed r.udp }
  | none ↦ end_udp_opened r timer answer
]

unfoldable pub close_tcp : Router → ℕ → Closed → Router
close_tcp r c answer =
    let f = close_tracked r.flows r.tcp c answer in record r { flows = f.0; tcp = f.1 }

unfoldable pub close_udp : Router → ℕ → Closed → Router
close_udp r c answer =
    let f = close_tracked r.flows r.udp c answer in
    record r { flows = f.0; udp = f.1; idle_closed = c ∷ r.idle_closed }

-- closeAfterIdleTimeout.
unfoldable pub idle_out : Router → ℕ → Closed → Router
idle_out r c answer =
    if contains c r.idle_closed
    then r
    else close_udp (record r { idle_timeouts = r.idle_timeouts + 1 }) c answer

-- sealAndClose, with the Close of each connection that the owner holds.
unfoldable pub close_handle : Router → ℕ → Closed → Router
close_handle r c answer =
    if contains c r.tcp.open_handles then close_tcp r c answer else close_udp r c answer

unfoldable pub close_handles : (ℕ → Closed) → Router → List (ℕ × Option GoError) → Router
close_handles answer r [] = r
close_handles answer r ((c, e) ∷ m) = close_handles answer (close_handle r c (answer c)) m

unfoldable pub seal_flows : Router → (ℕ → Closed) → Router
unfolding seal
seal_flows r answer = close_handles answer (record r { flows = seal r.flows }) r.flows.connections

unfoldable pub step : Router → Call → Router
step r begins_tcp = begin_tcp r
step r begins_udp = begin_udp r
step r (ends_tcp dialed answer) = end_tcp r dialed answer
step r (ends_udp dialed timer answer) = end_udp r dialed timer answer
step r (closes_tcp c answer) = close_tcp r c answer
step r (closes_udp c answer) = close_udp r c answer
step r (idles c answer) = idle_out r c answer
step r (seals answer) = seal_flows r answer

unfoldable pub run : Router → List Call → Router
run r [] = r
run r (c ∷ cs) = run (step r c) cs
