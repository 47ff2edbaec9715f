-- ===== src/Tests/Associations.antt =====
-- A UDP association with two connections.
use dobby_vpn.Common.{
  ℕ, Bool, true, false, ◌&&◌, ◌⊎◌, ◌<◌, List, [], ◌∷◌, Option, none, some, ◌≡◌, ◌==◌, refl, count,
  get_elem?,
}
use dobby_vpn.Tunnel.FlowOwner.{lookup, delete}
use dobby_vpn.Outline.Association.{
  UdpAssociation, dials, registers, starts, ends_reply, ends_relay, open_association,
  end_association, close_upstreams, run_calls, step_call, dial, register, start, drop_upstream,
  end_reply, end_relay,
}
use dobby_vpn.Outline.Association.Ownership.{
  Inv, run_calls-Inv, open_association-Inv, end_association-shut,
}
use dobby_vpn.Outline.Association.Relaying.{Address, Luck, relay_datagram, is_client, is_whole}
use dobby_vpn.Outline.Association.Independence.{Effect, relay_datagram-others}

-- A connection whose dial has ended when the association is closed.
abbrev in_use : UdpAssociation
in_use =
    run_calls (open_association true)
      (dials 7 true ∷ registers 0 ∷ starts 0 true ∷ dials 8 true ∷ [])

abbrev drained : UdpAssociation
drained = record {
  upstream = [];
  closed = true;
  relaying = false;
  dialed = [];
  starting = [];
  running = [];
  shut = 1 ∷ 0 ∷ [];
  workers = 0;
  fresh = 2;
}

run_calls-Inv_example : Inv in_use
run_calls-Inv_example =
    run_calls-Inv (open_association true)
      (dials 7 true ∷ registers 0 ∷ starts 0 true ∷ dials 8 true ∷ []) (open_association-Inv true)

association_ended :
    end_association in_use (ends_reply 0 ∷ registers 1 ∷ ends_relay ∷ []) ≡ some drained
unfolding open_association end_association close_upstreams run_calls step_call dial register start
    drop_upstream end_reply end_relay lookup delete
association_ended = refl

end_association-shut_example :
    (drained.relaying ≡ false)
    × (drained.running ≡ [])
    × (drained.upstream ≡ [])
    × ((c : ℕ) → c < drained.fresh → count c drained.shut ≡ 1)
end_association-shut_example =
    end_association-shut in_use drained (ends_reply 0 ∷ registers 1 ∷ ends_relay ∷ [])
      run_calls-Inv_example association_ended

-- Addresses are equal when their numbers are, and 0 is the unspecified one; a datagram names its
-- destination in its fourth byte.
abbrev is_zero : ℕ → Bool
is_zero a = a == 0

abbrev same_address : ℕ → ℕ → Bool
same_address a b = a == b

abbrev parse : List ℕ → Option ℕ
parse bytes = get_elem? bytes 3

abbrev key_of : Address → ℕ → ℕ
key_of sender destination = destination

abbrev client : Option Address
client = some (record { ip = 5; port = 0 })

abbrev sender : Address
sender = record { ip = 5; port = 900 }

abbrev failing : Luck
failing = record { dials = true; submits = true; writes = false }

abbrev bytes : List ℕ
bytes = 0 ∷ 0 ∷ 0 ∷ 7 ∷ []

relay_datagram-others_example :
    let t = relay_datagram is_zero same_address parse key_of client in_use sender bytes failing in
    (((is_client is_zero same_address parse key_of client sender
          && is_whole is_zero same_address parse key_of bytes)
        ≡ false)
      × (t ≡ in_use))
    ⊎ ((parse bytes ≡ none) × (t ≡ in_use))
    ⊎ ((destination : ℕ) × (parse bytes ≡ some destination)
        × Effect is_zero same_address parse key_of in_use t (key_of sender destination) failing)
relay_datagram-others_example =
    relay_datagram-others is_zero same_address parse key_of client in_use sender bytes failing
