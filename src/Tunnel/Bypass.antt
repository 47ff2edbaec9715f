-- ===== src/Tunnel/Bypass.antt =====
-- core/tunnel/bypass_policy.go: the destinations that do not go through the tunnel, and how an
-- attempt resolves its entries. An address is its bytes, and a text its code points.
pub mod Addresses
pub mod Resolution
use Prim.Native.Nat.{bit_and}
use dobby_vpn.Common.{
  ℕ, zero, suc, ◌+◌, Bool, true, false, not, ◌&&◌, ◌||◌, List, [], ◌∷◌, ◌++◌, Option, none, some,
  ◌==◌, leb, is_some, length, contains, drop, same, starts_with, trim_space, if◌then◌else◌,
}
use dobby_vpn.Failure.{GoError, Result, ok, err, foreign, joined, formatted}

-- v4InV6Prefix.
abbrev pub mapped : List ℕ
mapped = 0 ∷ 0 ∷ 0 ∷ 0 ∷ 0 ∷ 0 ∷ 0 ∷ 0 ∷ 0 ∷ 0 ∷ 255 ∷ 255 ∷ []

-- net.IP.To4 and To16.
unfoldable pub to4 : List ℕ → Option (List ℕ)
unfolding starts_with
to4 ip =
    if length ip == 4
    then some ip
    else if length ip == 16 && starts_with mapped ip
    then some (drop 12 ip)
    else none

unfoldable pub to16 : List ℕ → Option (List ℕ)
to16 ip = if length ip == 4 then some (mapped ++ ip) else if length ip == 16 then some ip else none

-- net.IPNet.
pub record Network : Type 0 where
  pub address : List ℕ
  pub mask : List ℕ

unfoldable pub fitting : List ℕ → List ℕ → Option (List ℕ × List ℕ)
fitting ip mask =
    if length mask == 4
    then (if length ip == 4 then some (ip, mask) else none)
    else if length mask == 16
    then some (ip, if length ip == 4 then drop 12 mask else mask)
    else none

-- networkNumberAndMask of package net.
unfoldable pub number_and_mask : Network → Option (List ℕ × List ℕ)
unfolding to4 fitting
number_and_mask n = elim (to4 n.address) [
  | some ip ↦ fitting ip n.mask
  | none ↦ if length n.address == 16 then fitting n.address n.mask else none
]

unfoldable pub masked_equal : List ℕ → List ℕ → List ℕ → Bool
masked_equal (n ∷ ns) (m ∷ ms) (x ∷ xs) =
    let rest = masked_equal ns ms xs in if bit_and n m == bit_and x m then rest else false
masked_equal _ _ _ = true

-- An address as four bytes where it has that form.
unfoldable pub normal : List ℕ → List ℕ
unfolding to4
normal ip = elim (to4 ip) [ some v ↦ v | none ↦ ip ]

-- net.IPNet.Contains.
unfoldable pub covers : Network → List ℕ → Bool
unfolding number_and_mask normal masked_equal
covers n ip = elim (number_and_mask n) [
  | none ↦ length (normal ip) == 0
  | some (nn, m) ↦ if length (normal ip) == length nn then masked_equal nn m (normal ip) else false
]

pub record BypassPolicy : Type 0 where
  pub cidrs : List Network
  pub entry_count : ℕ

unfoldable pub any_covers : List Network → List ℕ → Bool
unfolding covers
any_covers [] ip = false
any_covers (n ∷ ns) ip = let rest = any_covers ns ip in if covers n ip then true else rest

-- IsBypass; the destination is none where there is no metadata or no valid address.
unfoldable pub is_bypass : Option BypassPolicy → Option (List ℕ) → Bool
unfolding any_covers
is_bypass none destination = false
is_bypass (some p) none = false
is_bypass (some p) (some ip) = any_covers p.cidrs ip

abbrev pub ones4 : List ℕ
ones4 = 255 ∷ 255 ∷ 255 ∷ 255 ∷ []

abbrev pub ones16 : List ℕ
ones16 = ones4 ++ ones4 ++ ones4 ++ ones4

-- The single address as a network.
unfoldable pub host_network : List ℕ → Option Network
unfolding to4 to16
host_network ip = elim (to4 ip) [
  | some v4 ↦ some (record { address = v4; mask = ones4 })
  | none ↦ elim (to16 ip) [ some v6 ↦ some (record { address = v6; mask = ones16 }) | none ↦ none ]
]

-- The loop of WithNumericIPs.
unfoldable pub append_hosts : List Network → List (List ℕ) → Result (List Network)
unfolding host_network
append_hosts cidrs [] = ok cidrs
append_hosts cidrs (ip ∷ ips) = elim (host_network ip) [
  | some n ↦ append_hosts (cidrs ++ (n ∷ [])) ips
  | none ↦ err (foreign "numeric bypass address is invalid")
]

unfoldable pub with_numeric_ips : Option BypassPolicy → List (List ℕ) → Result BypassPolicy
unfolding append_hosts
with_numeric_ips none ips = err (foreign "cannot copy a nil bypass policy")
with_numeric_ips (some p) ips = elim (append_hosts p.cidrs ips) [
  | ok cidrs ↦ ok (record { cidrs = cidrs; entry_count = p.entry_count })
  | err e ↦ err e
]

-- What the attempt looks names up with, if it has it.
abbrev pub Resolver : Type 0
Resolver = Option (List ℕ → Result (List (List ℕ)))

unfoldable pub to_networks : List Network → List (List ℕ) → Result (List Network)
unfolding host_network
to_networks result [] = ok result
to_networks result (ip ∷ ips) = elim (host_network ip) [
  | some n ↦ to_networks (result ++ (n ∷ [])) ips
  | none ↦ err (foreign "resolver returned invalid address")
]

abbrev not_empty : Result (List Network) → Result (List Network)
not_empty (err e) = err e
not_empty (ok []) = err (foreign "resolver returned no IP addresses")
not_empty (ok (n ∷ ns)) = ok (n ∷ ns)

-- resolveHostToCIDRsWithResolver.
unfoldable pub resolve_host : Resolver → List ℕ → Result (List Network)
unfolding to_networks
resolve_host none host = err (foreign "underlying bypass resolver is required")
resolve_host (some resolve) host = elim (resolve host) [
  | err e ↦ err e
  | ok ips ↦ not_empty (to_networks [] ips)
]

abbrev join_nonempty : List GoError → Option GoError
join_nonempty [] = none
join_nonempty (e ∷ es) = elim (join_nonempty es) [ none ↦ some e | some f ↦ some (joined e f) ]

module _ (parse_cidr : List ℕ → Option Network) (resolver : Resolver) where
  -- The loop over the entries; `net.ParseCIDR` reads the text of an entry.
  unfoldable pub resolve_loop :
      List Network → List GoError → List (List ℕ) → List Network × List GoError
  unfolding trim_space resolve_host
  resolve_loop result errs [] = (result, errs)
  resolve_loop result errs (entry ∷ entries) = elim (trim_space entry) [
    | [] ↦ resolve_loop result errs entries
    | c ∷ cs ↦ elim (parse_cidr (c ∷ cs)) [
      | some n ↦ resolve_loop (result ++ (n ∷ [])) errs entries
      | none ↦ elim (resolve_host resolver (c ∷ cs)) [
        | err e ↦ resolve_loop result (errs ++ (formatted "resolve bypass host" e ∷ [])) entries
        | ok ns ↦ resolve_loop (result ++ ns) errs entries
      ]
    ]
  ]

  -- resolveRoutingEntriesWithResolver.
  unfoldable pub resolve_entries : List (List ℕ) → Result (List Network)
  unfolding resolve_loop
  resolve_entries entries =
      let r = resolve_loop [] [] entries in
      elim (join_nonempty r.1) [ some e ↦ err e | none ↦ ok r.0 ]

  unfoldable pub resolve_bypass_policy : List (List ℕ) → Result BypassPolicy
  unfolding resolve_entries
  resolve_bypass_policy entries = elim (resolve_entries entries) [
    | err e ↦ err e
    | ok cidrs ↦ ok (record { cidrs = cidrs; entry_count = length entries })
  ]
