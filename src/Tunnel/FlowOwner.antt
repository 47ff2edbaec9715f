-- ===== src/Tunnel/FlowOwner.antt =====
-- core/tunnel/flow_owner.go: the connections and the pending dials of one engine generation.
pub mod Laws
use dobby_vpn.Common.{
  ℕ, ◌+◌, ◌-◌, Bool, true, false, not, ◌&&◌, ◌||◌, List, [], ◌∷◌, Option, none, some, String, ◌==◌,
  is_some, if◌then◌else◌,
}
use dobby_vpn.Failure.{GoError, Result, ok, err, foreign, joined, join, formatted, context_canceled}

-- The map of connections, by handle, to the error of their last Close. A channel is its state:
-- `settled` is none before the first dial and then whether it is closed, and so is `retired`.
pub record FlowOwner : Type 0 where
  pub closed : Bool
  pub connections : List (ℕ × Option GoError)
  pub pending : ℕ
  pub settled : Option Bool
  pub retired : Option Bool
  pub canceled : Option Bool

unfoldable pub new_owner : FlowOwner
new_owner = record {
  closed = false;
  connections = [];
  pending = 0;
  settled = none;
  retired = none;
  canceled = none;
}

module _ {ℓ} {V : Type ℓ} where
  unfoldable pub delete : ℕ → List (ℕ × V) → List (ℕ × V)
  delete c [] = []
  delete c ((d, v) ∷ m) = if c == d then delete c m else (d, v) ∷ delete c m

  unfoldable pub insert : ℕ → V → List (ℕ × V) → List (ℕ × V)
  unfolding delete
  insert c v m = (c, v) ∷ delete c m

  unfoldable pub lookup : ℕ → List (ℕ × V) → Option V
  lookup c [] = none
  lookup c ((d, v) ∷ m) = if c == d then some v else lookup c m

-- `net.ErrClosed`.
abbrev pub closed_error : GoError
closed_error = foreign "use of closed network connection"

-- done(): the channel, made on the first call.
unfoldable pub done : FlowOwner → FlowOwner
done o = elim o.retired [ some b ↦ o | none ↦ record o { retired = some o.closed } ]

unfoldable pub begin_dial : FlowOwner → FlowOwner × Option GoError
begin_dial o = if o.closed then (o, some closed_error) else (
  record o { settled = if o.pending == 0 then some false else o.settled; pending = o.pending + 1 },
  none,
)

-- The lock of pendingTCPContext, with the cancellation that follows for a sealed owner.
unfoldable pub pending_tcp_context : FlowOwner → FlowOwner
pending_tcp_context o = record o {
  canceled = elim o.canceled [ none ↦ some o.closed | some b ↦ some (b || o.closed) ];
}

-- `o.pending--`; a call that no beginDial precedes would make it negative and close no channel.
unfoldable pub end_dial : FlowOwner → FlowOwner
end_dial o = record o {
  pending = o.pending - 1;
  settled = if o.pending == 1 then some true else o.settled;
}

unfoldable pub track : FlowOwner → ℕ → FlowOwner × Bool
unfolding insert
track o c =
    if o.closed then (o, false) else (record o { connections = insert c none o.connections }, true)

-- release, with the answer of the connection's Close; `is_closed` is errors.Is for net.ErrClosed.
unfoldable pub release : FlowOwner → ℕ → Option GoError → Bool → FlowOwner
unfolding insert delete
release o c none is_closed = record o { connections = delete c o.connections }
release o c (some e) is_closed =
    if is_closed
    then record o { connections = delete c o.connections }
    else record o { connections = insert c (some e) o.connections }

abbrev residual : Option GoError → GoError
residual none = foreign "route connection remains open"
residual (some e) = e

unfoldable pub residual_error : List (ℕ × Option GoError) → Option GoError
residual_error [] = none
residual_error ((c, e) ∷ m) = join (some (residual e)) (residual_error m)

-- sealAndClose: the lock, and then the Close of each connection, which calls release; `answer` is
-- what a connection answers, with whether that is net.ErrClosed.
unfoldable pub seal : FlowOwner → FlowOwner
seal o = record o {
  closed = true;
  retired = elim o.retired [ none ↦ none | some b ↦ some true ];
  canceled = elim o.canceled [ none ↦ none | some b ↦ some true ];
}

unfoldable pub close_all :
    (ℕ → Option GoError × Bool) → FlowOwner → List (ℕ × Option GoError) → FlowOwner
unfolding release
close_all answer o [] = o
close_all answer o ((c, e) ∷ m) = close_all answer (release o c (answer c).0 (answer c).1) m

unfoldable pub seal_and_close : (ℕ → Option GoError × Bool) → FlowOwner → FlowOwner
unfolding seal close_all
seal_and_close answer o = close_all answer (seal o) o.connections

-- wait: what it answers once the dials have settled, or once its context is done (`expired`); none
-- while it waits.
unfoldable pub wait : FlowOwner → Option GoError → Option (Option GoError)
unfolding residual_error
wait o expired = if o.pending == 0 then some (residual_error o.connections) else elim expired [
  | none ↦ none
  | some e ↦ some (
      join (residual_error o.connections) (some (formatted "route cleanup has unresolved dials" e)))
]

-- What the engine, the dials and the connections ask of an owner.
pub data Call : Type 0 where
  watches begins links ends : Call
  tracks : ℕ → Call
  releases : ℕ → Option GoError → Bool → Call
  seals : (ℕ → Option GoError × Bool) → Call

unfoldable pub step : FlowOwner → Call → FlowOwner
step o watches = done o
step o begins = (begin_dial o).0
step o links = pending_tcp_context o
step o ends = end_dial o
step o (tracks c) = (track o c).0
step o (releases c e is_closed) = release o c e is_closed
step o (seals answer) = seal_and_close answer o

unfoldable pub run : FlowOwner → List Call → FlowOwner
run o [] = o
run o (c ∷ cs) = run (step o c) cs
