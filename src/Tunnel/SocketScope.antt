-- ===== src/Tunnel/SocketScope.antt =====
-- core/tunnel/protected_dialer/scope.go: the sockets of an attempt, which the scope protects until it
-- is closed, and the destinations that a native library's socket is allowed to reach.
pub mod Protection
pub mod Destinations
use dobby_vpn.Common.{
  ℕ, ◌+◌, ◌^◌, ◌-◌, Bool, true, false, not, ◌&&◌, ◌||◌, List, [], ◌∷◌, Option, none, some, String,
  ltb, leb, if◌then◌else◌,
}
use dobby_vpn.Failure.{GoError, Result, ok, err, foreign, join, formatted, context_canceled}

-- The network of a socket, by protocol and family.
pub data Network : Type 0 where
  tcp4 tcp6 udp4 udp6 : Network

unfoldable pub is_ipv4 : Network → Bool
is_ipv4 tcp4 = true
is_ipv4 tcp6 = false
is_ipv4 udp4 = true
is_ipv4 udp6 = false

-- What the outside is asked for, newest first, each with its answer, which is none where it is done: to
-- authorize a destination for a generation, to retire the generation's permissions, and to protect a
-- descriptor, by the scope or by the platform.
pub data Event : Type 0 where
  authorizes : ℕ → Network → String → Option GoError → Event
  retires : ℕ → Option GoError → Event
  protects : ℕ → Option GoError → Event
  protects_platform : ℕ → Network → Option GoError → Event

-- SocketScope: `ended` is the error of its context, and two fields tell whether there are
-- permissions and a protector.
pub record SocketScope : Type 0 where
  pub ended : Option GoError
  pub generation : ℕ
  pub has_protector : Bool
  pub has_permissions : Bool
  pub closed : Bool

unfoldable pub new_socket_scope : Option GoError → ℕ → Bool → Bool → SocketScope
new_socket_scope parent generation protector permissions = record {
  ended = parent;
  generation = generation;
  has_protector = protector;
  has_permissions = permissions;
  closed = false;
}

-- What the outside answers: the permissions, the protectors, the context of the call at its n-th
-- reading, and how an address reads: whether it is a loopback one, and whether it is of IPv4 where it
-- is a bare address or one with a port.
pub record Outside : Type 0 where
  pub retire : Option GoError
  pub authorize : Network → String → Option GoError
  pub protect : ℕ → Option GoError
  pub protect_platform : ℕ → Network → Option GoError
  pub context : ℕ → Option GoError
  pub is_loopback : String → Bool
  pub parse_addr : String → Option Bool
  pub parse_addr_port : String → Result Bool

abbrev canceled : Option GoError → Option GoError
canceled none = some context_canceled
canceled (some e) = some e

-- Close.
unfoldable pub close :
    Outside → SocketScope → List Event → SocketScope × List Event × Option GoError
close w s log =
    let ended = record s { ended = canceled s.ended } in
    if s.closed
    then (ended, log, none)
    else if s.has_permissions
    then (let asked = retires s.generation w.retire ∷ log in
        elim w.retire [
          | some e ↦ (ended, asked, some e)
          | none ↦ (record ended { closed = true }, asked, none)
        ])
    else (record ended { closed = true }, log, none)

-- The largest int of a 64-bit target.
abbrev max_int : ℕ
max_int = 2 ^ 63 - 1

-- The end of protectFD, behind the permissions.
unfoldable pub protect_descriptor :
    Outside → SocketScope → ℕ → Network → List Event → List Event × Option GoError
protect_descriptor w s fd network log =
    if s.has_protector
    then (if ltb max_int fd
        then (log, some (foreign "socket descriptor overflows int"))
        else (protects fd (w.protect fd) ∷ log, w.protect fd))
    else (
      protects_platform fd network (w.protect_platform fd network) ∷ log,
      w.protect_platform fd network,
    )

-- protectFD; `i` is the reading of the context.
unfoldable pub protect_fd :
    Outside → SocketScope → ℕ → ℕ → Network → String → List Event → List Event × Option GoError
unfolding protect_descriptor
protect_fd w s i fd network address log =
    if s.closed
    then (log, some (foreign "socket attempt is retired"))
    else elim (join (w.context i) s.ended) [
      | some e ↦ (log, some e)
      | none ↦
          if w.is_loopback address
          then (log, none)
          else if s.has_permissions
          then (let asked =
                authorizes s.generation network address (w.authorize network address) ∷ log in
              elim (w.authorize network address) [
                | some e ↦ (asked, some e)
                | none ↦ protect_descriptor w s fd network asked
              ])
          else protect_descriptor w s fd network log
    ]

-- protectContextFD, of a context with a scope or without one.
unfoldable pub protect_context_fd :
    Outside
    → Option SocketScope
    → ℕ
    → ℕ
    → Network
    → String
    → List Event
    → List Event × Option GoError
unfolding protect_fd
protect_context_fd w scope i fd network address log = elim (w.context i) [
  | some e ↦ (log, some e)
  | none ↦ elim scope [
    | some s ↦ protect_fd w s (i + 1) fd network address log
    | none ↦ (
      protects_platform fd network (w.protect_platform fd network) ∷ log,
      w.protect_platform fd network,
    )
  ]
]

abbrev pub read_family : Outside → String → Result Bool
read_family w address = elim (w.parse_addr address) [
  | some b ↦ ok b
  | none ↦ elim (w.parse_addr_port address) [
    | ok b ↦ ok b
    | err e ↦ err (formatted "native socket destination is not numeric" e)
  ]
]

abbrev pub same_family : Bool → Bool → Bool
same_family true b = b
same_family false b = not b

-- The addresses of the socket's family.
unfoldable pub matching : Outside → Network → List String → Result (List String)
unfolding is_ipv4
matching w network [] = ok []
matching w network (a ∷ rest) = elim (read_family w a) [
  | err e ↦ err e
  | ok b ↦ elim (matching w network rest) [
    | err e ↦ err e
    | ok l ↦ ok (if same_family b (is_ipv4 network) then a ∷ l else l)
  ]
]

unfoldable pub protect_each :
    Outside
    → Option SocketScope
    → ℕ
    → ℕ
    → Network
    → List String
    → List Event
    → List Event × Option GoError
unfolding protect_context_fd
protect_each w scope i fd network [] log = (log, none)
protect_each w scope i fd network (a ∷ rest) log =
    let r = protect_context_fd w scope i fd network a log in
    elim r.1 [ some e ↦ r | none ↦ protect_each w scope (i + 2) fd network rest r.0 ]

-- ProtectSocketDestinations, with the network that the descriptor tells.
unfoldable pub protect_socket_destinations :
    Outside
    → Option SocketScope
    → ℕ
    → Result Network
    → List String
    → List Event
    → List Event × Option GoError
unfolding matching protect_each
protect_socket_destinations w scope fd network addresses log = elim (w.context 0) [
  | some e ↦ (log, some e)
  | none ↦ elim network [
    | err e ↦ (log, some e)
    | ok n ↦ elim addresses [
      | [] ↦ (log, some (foreign "native socket has no authorized destinations"))
      | a ∷ rest ↦ elim (matching w n (a ∷ rest)) [
        | err e ↦ (log, some e)
        | ok [] ↦ (log, some (foreign "native socket has no destination"))
        | ok (m ∷ ms) ↦ protect_each w scope 1 fd n (m ∷ ms) log
      ]
    ]
  ]
]

-- What is asked of a scope.
pub data Call : Type 0 where
  ends : GoError → Call
  closes : Outside → Call
  guards : Outside → ℕ → Network → String → Call
  guards_native : Outside → ℕ → Result Network → List String → Call

unfoldable pub step : SocketScope × List Event → Call → SocketScope × List Event
unfolding close protect_context_fd protect_socket_destinations
step (s, log) (ends e) =
    (record s { ended = elim s.ended [ none ↦ some e | some x ↦ some x ] }, log)
step (s, log) (closes w) = let r = close w s log in (r.0, r.1)
step (s, log) (guards w fd network address) =
    (s, (protect_context_fd w (some s) 0 fd network address log).0)
step (s, log) (guards_native w fd network addresses) =
    (s, (protect_socket_destinations w (some s) fd network addresses log).0)

unfoldable pub run : SocketScope × List Event → List Call → SocketScope × List Event
unfolding step
run t [] = t
run t (c ∷ cs) = run (step t c) cs
