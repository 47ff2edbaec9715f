-- ===== src/Outline/Association.antt =====
-- core/outline/udp_association.go: a SOCKS5 UDP association, which relays the datagrams of one
-- client to a connection for each destination. The steps are those that its goroutines take: each
-- lock is one.
pub mod Ownership
pub mod Relaying
pub mod Independence
use dobby_vpn.Common.{
  ℕ, ◌+◌, ◌-◌, Bool, true, false, not, ◌&&◌, ◌||◌, List, [], ◌∷◌, ◌++◌, Option, none, some, ◌==◌,
  ltb, length, get_elem?, if◌then◌else◌,
}
use dobby_vpn.Tunnel.FlowOwner.{delete, lookup}

-- `upstream` is the map from keys to connections. `dialed` are the connections, with their keys, that
-- handleDial has returned and no lock has registered, `starting` those that are registered without
-- a reply worker, `running` those with one, and `shut` has a connection once for each Close.
-- `relaying` is whether relayFromClient runs, and `workers` the WaitGroup.
pub record UdpAssociation : Type 0 where
  pub upstream : List (ℕ × ℕ)
  pub closed : Bool
  pub relaying : Bool
  pub dialed : List (ℕ × ℕ)
  pub starting : List (ℕ × ℕ)
  pub running : List (ℕ × ℕ)
  pub shut : List ℕ
  pub workers : ℕ
  pub fresh : ℕ

-- The association that handleAssociate makes; `submitted` is whether the device takes its relay.
unfoldable pub open_association : Bool → UdpAssociation
open_association submitted = record {
  upstream = [];
  closed = false;
  relaying = submitted;
  dialed = [];
  starting = [];
  running = [];
  shut = [];
  workers = if submitted then 1 else 0;
  fresh = 0;
}

-- dropUpstream.
unfoldable pub drop_upstream : UdpAssociation → ℕ → ℕ → UdpAssociation
drop_upstream a key c = elim (lookup key a.upstream) [
  | none ↦ a
  | some current ↦
      if current == c then record a { upstream = delete key a.upstream; shut = c ∷ a.shut } else a
]

-- The first lock of upstreamFor and the dial that follows it where the key is not in the map;
-- `dials` is whether handleDial succeeds.
unfoldable pub dial : UdpAssociation → ℕ → Bool → UdpAssociation
dial a key dials = elim (lookup key a.upstream) [
  | some existing ↦ a
  | none ↦ if dials then record a { dialed = (a.fresh, key) ∷ a.dialed; fresh = a.fresh + 1 } else a
]

-- The second lock of upstreamFor, and the connection that it leads to.
unfoldable pub register : UdpAssociation → ℕ → ℕ → UdpAssociation × Option ℕ
register a key c =
    let dialed = delete c a.dialed in
    if a.closed
    then (record a { dialed = dialed; shut = c ∷ a.shut }, none)
    else elim (lookup key a.upstream) [
      | some existing ↦ (record a { dialed = dialed; shut = c ∷ a.shut }, some existing)
      | none ↦ (
        record a {
          dialed = dialed;
          upstream = (key, c) ∷ a.upstream;
          starting = (c, key) ∷ a.starting;
          workers = a.workers + 1;
        },
        some c,
      )
    ]

-- The Submit of the reply worker; a device that is closing refuses it.
unfoldable pub start : UdpAssociation → ℕ → ℕ → Bool → UdpAssociation
unfolding drop_upstream
start a key c submitted =
    let starting = delete c a.starting in
    if submitted
    then record a { starting = starting; running = (c, key) ∷ a.running }
    else drop_upstream (record a { starting = starting; workers = a.workers - 1 }) key c

-- The end of relayToClient, after a read or a write that failed.
unfoldable pub end_reply : UdpAssociation → ℕ → ℕ → UdpAssociation
unfolding drop_upstream
end_reply a key c =
    let t = drop_upstream a key c in
    record t { running = delete c t.running; workers = t.workers - 1 }

abbrev pub connections : List (ℕ × ℕ) → List ℕ
connections [] = []
connections ((key, c) ∷ m) = c ∷ connections m

-- closeUpstreams.
unfoldable pub close_upstreams : UdpAssociation → UdpAssociation
close_upstreams a = record a {
  closed = true;
  upstream = [];
  shut = connections a.upstream ++ a.shut;
}

abbrev is_empty : List (ℕ × ℕ) → Bool
is_empty [] = true
is_empty (p ∷ m) = false

-- The end of relayFromClient, which is at no connection then.
unfoldable pub end_relay : UdpAssociation → UdpAssociation
end_relay a =
    if is_empty a.dialed && is_empty a.starting
    then record a { relaying = false; workers = a.workers - 1 }
    else a

-- A step of relayFromClient, of a reply worker or of the handler. A connection is named by its
-- number.
pub data Call : Type 0 where
  dials : ℕ → Bool → Call
  registers : ℕ → Call
  starts : ℕ → Bool → Call
  drops : ℕ → ℕ → Call
  ends_reply : ℕ → Call
  ends_relay closes : Call

abbrev pub at : UdpAssociation → Option ℕ → (ℕ → UdpAssociation) → UdpAssociation
at a none next = a
at a (some key) next = next key

unfoldable pub step_call : UdpAssociation → Call → UdpAssociation
unfolding dial register start drop_upstream end_reply end_relay close_upstreams
step_call a (dials key d) = if a.relaying then dial a key d else a
step_call a (registers c) =
    if a.relaying then at a (lookup c a.dialed) (λ key. (register a key c).0) else a
step_call a (starts c s) =
    if a.relaying then at a (lookup c a.starting) (λ key. start a key c s) else a
step_call a (drops key c) = if a.relaying then drop_upstream a key c else a
step_call a (ends_reply c) = at a (lookup c a.running) (λ key. end_reply a key c)
step_call a ends_relay = if a.relaying then end_relay a else a
step_call a closes = close_upstreams a

unfoldable pub run_calls : UdpAssociation → List Call → UdpAssociation
unfolding step_call
run_calls a [] = a
run_calls a (c ∷ cs) = run_calls (step_call a c) cs

-- What handleAssociate defers: closeUpstreams and the wait for the workers, which is over after
-- `drain`; none while a worker runs.
unfoldable pub end_association : UdpAssociation → List Call → Option UdpAssociation
unfolding run_calls close_upstreams
end_association a drain =
    let t = run_calls (close_upstreams a) drain in if t.workers == 0 then some t else none
