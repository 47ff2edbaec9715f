-- ===== src/Tests/Policies.antt =====
-- A bypass policy with one entry of each kind, and a socket scope that is closed.
use dobby_vpn.Common.{
  ℕ, Text, codes, same, true, false, ◌||◌, List, [], ◌∷◌, Option, none, some, String, ◌≡◌, ◌↔◌, inl,
  inr, refl, arith, is_some, Within, if◌then◌else◌,
}
use text.Mathlib.Text.{◌==◌ as str_eq}
use dobby_vpn.Failure.{ok, err, foreign}
use dobby_vpn.Tunnel.Bypass.{
  BypassPolicy, Network, Resolver, with_numeric_ips, is_bypass, resolve_entries, ones4,
}
use dobby_vpn.Tunnel.Bypass.Addresses.{IsBytes, listed, is_bypass-with_numeric_ips}
use dobby_vpn.Tunnel.Bypass.Resolution.{Resolves, resolve_entries_iff}
use dobby_vpn.Tunnel.SocketScope.{
  SocketScope, Event, authorizes, retires, Outside, Call, closes, guards, guards_native,
  new_socket_scope, run, step, close, protect_context_fd, protect_fd, protect_descriptor,
  protect_socket_destinations, protect_each, matching, is_ipv4, tcp4,
}
use dobby_vpn.Tunnel.SocketScope.Protection.{run_retired}
use dobby_vpn.Tunnel.SocketScope.Destinations.{protect_socket_destinations_authorized}

abbrev lan : Network
lan = record { address = 10 ∷ 0 ∷ 0 ∷ 0 ∷ []; mask = 255 ∷ 0 ∷ 0 ∷ 0 ∷ [] }

abbrev policy : BypassPolicy
policy = record { cidrs = lan ∷ []; entry_count = 1 }

abbrev server : List ℕ
server = 203 ∷ 0 ∷ 113 ∷ 7 ∷ []

-- The server's address as IPv6 writes it.
abbrev mapped_server : List ℕ
mapped_server = 0 ∷ 0 ∷ 0 ∷ 0 ∷ 0 ∷ 0 ∷ 0 ∷ 0 ∷ 0 ∷ 0 ∷ 255 ∷ 255 ∷ server

server-IsBytes : IsBytes server
server-IsBytes = ground arith

mapped_server-IsBytes : IsBytes mapped_server
mapped_server-IsBytes = ground arith

is_bypass-with_numeric_ips_example :
    (q : BypassPolicy) × (with_numeric_ips (some policy) (server ∷ []) ≡ ok q)
    × (is_bypass (some q) (some mapped_server)
        ≡ (is_bypass (some policy) (some mapped_server) || listed (server ∷ []) mapped_server))
is_bypass-with_numeric_ips_example =
    is_bypass-with_numeric_ips policy (server ∷ []) mapped_server ((inl refl, server-IsBytes), tt)
      mapped_server-IsBytes

abbrev parse : List ℕ → Option Network
parse t = if same t (codes "10.0.0.0/8") then some lan else none

abbrev lookup : Resolver
lookup =
    some
      (λ t. if same t (codes "vpn.example") then ok (server ∷ []) else err (foreign "no such host"))

abbrev entries : List Text
entries = codes " 10.0.0.0/8 " ∷ codes "" ∷ codes "vpn.example" ∷ []

abbrev networks : List Network
networks = lan ∷ record { address = server; mask = ones4 } ∷ []

resolve_entries_iff_example :
    (resolve_entries parse lookup entries ≡ ok networks) ↔ Resolves parse lookup entries networks
resolve_entries_iff_example = resolve_entries_iff parse lookup entries networks

abbrev outside : Outside
outside = record {
  retire = none;
  authorize = λ n a. none;
  protect = λ fd. none;
  protect_platform = λ fd n. none;
  context = λ i. none;
  is_loopback = λ a. false;
  parse_addr = λ a. some (str_eq a "203.0.113.7");
  parse_addr_port = λ a. err (foreign "no port");
}

abbrev calls : List Call
calls = guards outside 5 tcp4 "203.0.113.7" ∷ closes outside ∷ []

abbrev later : List Call
later = guards_native outside 6 (ok tcp4) ("203.0.113.7" ∷ []) ∷ closes outside ∷ []

abbrev attempt_scope : SocketScope
attempt_scope = new_socket_scope none 4 true true

abbrev closed_scope : SocketScope × List Event
closed_scope = run (attempt_scope, []) calls

scope_closed : closed_scope.0.closed ≡ true
unfolding run step protect_context_fd close new_socket_scope
scope_closed = refl

run_retired_example :
    let u = run closed_scope later in
    (u.1 ≡ closed_scope.1)
    × (u.0.closed ≡ true)
    × (is_some (protect_context_fd outside (some u.0) 0 7 tcp4 "203.0.113.7" u.1).1 ≡ true)
    × (rest : List Event) × (closed_scope.1 ≡ retires 4 none ∷ rest)
run_retired_example = run_retired none 4 true calls later outside 7 tcp4 "203.0.113.7" scope_closed

abbrev peers : List String
peers = "2001:db8::7" ∷ "203.0.113.7" ∷ []

socket_protected :
    (protect_socket_destinations outside (some attempt_scope) 6 (ok tcp4) peers []).1 ≡ none
unfolding protect_socket_destinations matching protect_each protect_context_fd protect_fd
    protect_descriptor is_ipv4 new_socket_scope
socket_protected = refl

protect_socket_destinations_authorized_example :
    Within
      (authorizes attempt_scope.generation tcp4 "203.0.113.7" none)
      (protect_socket_destinations outside (some attempt_scope) 6 (ok tcp4) peers []).0
protect_socket_destinations_authorized_example =
    protect_socket_destinations_authorized outside attempt_scope 6 (ok tcp4) peers [] tcp4
      "203.0.113.7" true (unfold new_socket_scope in refl) refl socket_protected (inr (inl refl))
      refl (unfold is_ipv4 in refl) refl
