-- ===== src/Tunnel/Bypass/Addresses.antt =====
-- Which destinations a policy with added numeric addresses leaves out of the tunnel.
use Prim.Native.Nat.{bit_and}
use dobby_vpn.Common.{
  drop, same, starts_with, ℕ, zero, suc, ◌-◌, ◌<◌, Bool, true, false, ◌||◌, List, [], ◌∷◌, ◌++◌,
  Option, none, some, ◌==◌, ◌≡◌, ◌⊎◌, inl, inr, refl, arith, length, ◌&&◌, if_cases, if◌then◌else◌,
  All, Option-cases,
}
use dobby_vpn.Failure.{ok}
use dobby_vpn.Tunnel.Bypass.{
  mapped, to4, to16, Network, fitting, number_and_mask, masked_equal, normal, covers, BypassPolicy,
  any_covers, is_bypass, ones4, ones16, host_network, append_hosts, with_numeric_ips,
}

-- Two functions that agree on every byte, by evaluation.
module _ (f g : ℕ → ℕ) where
  agree_below : ℕ → Bool
  agree_below zero = true
  agree_below (suc n) = let rest = agree_below n in if f n == g n then rest else false

  agree_below→eq : (n : ℕ) → agree_below n ≡ true → (i : ℕ) → i < n → f i ≡ g i
  unfolding agree_below
  agree_below→eq zero e i h = absurd (omega arith)
  agree_below→eq (suc n) e i h = ground (arith, agree_below→eq n (ground arith) i)

full_mask : (b : ℕ) → b < 256 → bit_and b 255 ≡ b
unfolding agree_below
full_mask = agree_below→eq (λ b. bit_and b 255) (λ b. b) 256 refl

abbrev pub IsBytes : List ℕ → Type 0
IsBytes = All (λ b. b < 256)

abbrev IsFull : List ℕ → Type 0
IsFull = All (λ b. b ≡ 255)

-- Under a full mask two addresses of one length are compared byte by byte.
masked_equal-IsFull :
    (ns ms xs : List ℕ)
    → IsFull ms
    → length ms ≡ length ns
    → length xs ≡ length ns
    → IsBytes ns
    → IsBytes xs
    → masked_equal ns ms xs ≡ same ns xs
unfolding masked_equal same
masked_equal-IsFull [] [] [] f l k b c = refl
masked_equal-IsFull [] [] (x ∷ xs) f l k b c = absurd (omega (arith, k))
masked_equal-IsFull [] (m ∷ ms) xs f l k b c = absurd (omega (arith, l))
masked_equal-IsFull (n ∷ ns) [] xs f l k b c = absurd (omega (arith, l))
masked_equal-IsFull (n ∷ ns) (m ∷ ms) [] f l k b c = absurd (omega (arith, k))
masked_equal-IsFull (n ∷ ns) (m ∷ ms) (x ∷ xs) f l k b c =
    let rest = masked_equal-IsFull ns ms xs f.1 (omega arith) (omega arith) b.1 c.1 in
    ground (arith, full_mask n b.0, full_mask x c.0)

same-length : (xs ys : List ℕ) → same xs ys ≡ true → length xs ≡ length ys
unfolding same
same-length [] [] h = refl
same-length [] (y ∷ ys) h = cc
same-length (x ∷ xs) [] h = cc
same-length (x ∷ xs) (y ∷ ys) h = ground (arith, same-length xs ys)

length-drop : (n : ℕ) (l : List ℕ) → length (drop n l) ≡ length l - n
length-drop zero l = omega arith
length-drop (suc n) [] = omega arith
length-drop (suc n) (x ∷ l) = omega (arith, length-drop n l)

drop-IsBytes : (n : ℕ) (l : List ℕ) → IsBytes l → IsBytes (drop n l)
drop-IsBytes zero l h = h
drop-IsBytes (suc n) [] h = h
drop-IsBytes (suc n) (x ∷ l) h = drop-IsBytes n l h.1

length-to4 : (ip v : List ℕ) → to4 ip ≡ some v → length v ≡ 4
unfolding to4
length-to4 ip v h = ground (arith, length-drop 12 ip)

normal-IsBytes : (ip : List ℕ) → IsBytes ip → IsBytes (normal ip)
unfolding normal to4
normal-IsBytes ip h =
    if_cases {A = Option (List ℕ)} (λ o. IsBytes (elim o [ some v ↦ v | none ↦ ip ]))
      (length ip == 4) (λ _. h)
      (λ _.
        if_cases {A = Option (List ℕ)} (λ o. IsBytes (elim o [ some v ↦ v | none ↦ ip ]))
          (length ip == 16 && starts_with mapped ip) (λ _. drop-IsBytes 12 ip h) (λ _. h))

abbrev pub IsAddress : List ℕ → Type 0
IsAddress ip = ((length ip ≡ 4) ⊎ (length ip ≡ 16)) × IsBytes ip

append-IsFull : (xs ys : List ℕ) → IsFull xs → IsFull ys → IsFull (xs ++ ys)
append-IsFull [] ys f g = g
append-IsFull (x ∷ xs) ys f g = (f.0, append-IsFull xs ys f.1 g)

ones4-IsFull : IsFull ones4
ones4-IsFull = (refl, (refl, (refl, (refl, tt))))

ones16-IsFull : IsFull ones16
ones16-IsFull =
    let f = ones4-IsFull in
    append-IsFull ones4 (ones4 ++ ones4 ++ ones4) f
      (append-IsFull ones4 (ones4 ++ ones4) f (append-IsFull ones4 ones4 f f))

-- The network of one address, as Contains reads it.
host_network_cases :
    (ip : List ℕ)
    → (length ip ≡ 4) ⊎ (length ip ≡ 16)
    → (n : Network) × (host_network ip ≡ some n)
      × (mask : List ℕ) × (number_and_mask n ≡ some (normal ip, mask))
      × IsFull mask
      × (length mask ≡ length (normal ip))
unfolding host_network number_and_mask fitting normal to16
host_network_cases ip h = elim (Option-cases (to4 ip)) [
  | inl q ↦
      let l : length ip ≡ 16 = unfold to4 in ground arith in
      (
        record { address = ip; mask = ones16 },
        ground arith,
        ones16,
        ground arith,
        ones16-IsFull,
        ground arith,
      )
  | inr (v, q) ↦
      let l = length-to4 ip v q in
      let own : to4 v ≡ some v = unfold to4 in ground arith in
      (
        record { address = v; mask = ones4 },
        ground arith,
        ones4,
        ground arith,
        ones4-IsFull,
        ground arith,
      )
]

-- Addresses of different lengths differ.
same_lengths :
    (xs ys ms : List ℕ)
    → IsFull ms
    → length ms ≡ length xs
    → IsBytes xs
    → IsBytes ys
    → (if length ys == length xs then masked_equal xs ms ys else false) ≡ same xs ys
same_lengths xs ys ms f l b c =
    if_cases (λ r. r ≡ same xs ys) (length ys == length xs)
      (λ h. masked_equal-IsFull xs ms ys f l (ground arith) b c)
      (λ h. ground (arith, same-length xs ys))

-- Such a network covers the one address.
covers-host_network :
    (ip d : List ℕ) (n : Network)
    → IsAddress ip
    → IsBytes d
    → host_network ip ≡ some n
    → covers n d ≡ same (normal ip) (normal d)
unfolding covers
covers-host_network ip d n h b q =
    let c = host_network_cases ip h.0 in
    let number : number_and_mask n ≡ some (normal ip, c.2) = cc in
    rw (covers, number)
      (same_lengths (normal ip) (normal d) c.2 c.4 c.5 (normal-IsBytes ip h.1) (normal-IsBytes d b))

-- Whether an address is one of a list's, in either of its forms.
abbrev pub listed : List (List ℕ) → List ℕ → Bool
listed [] d = false
listed (ip ∷ ips) d = same (normal ip) (normal d) || listed ips d

any_covers-append :
    (ns : List Network) (n : Network) (d : List ℕ)
    → any_covers (ns ++ (n ∷ [])) d ≡ (any_covers ns d || covers n d)
unfolding any_covers
any_covers-append [] n d = ground arith
any_covers-append (x ∷ xs) n d = ground (arith, any_covers-append xs n d)

append_hosts_lem :
    (ns : List Network) (ips : List (List ℕ)) (d : List ℕ)
    → All IsAddress ips
    → IsBytes d
    → (ms : List Network) × (append_hosts ns ips ≡ ok ms)
      × (any_covers ms d ≡ (any_covers ns d || listed ips d))
unfolding append_hosts
append_hosts_lem ns [] d h b = (ns, refl, ground arith)
append_hosts_lem ns (ip ∷ ips) d h b =
    let c = host_network_cases ip h.0.0 in
    let r = append_hosts_lem (ns ++ (c.0 ∷ [])) ips d h.1 b in
    (
      r.0,
      rw (append_hosts, c.1) r.1,
      ground (arith, r.2, any_covers-append ns c.0 d, covers-host_network ip d c.0 h.0 b c.1),
    )

-- A policy takes every list of addresses of four or sixteen bytes, and then leaves a destination out
-- of the tunnel exactly where it did so before or the destination is one of the addresses, an IPv4
-- address being the same in both of its forms.
pub is_bypass-with_numeric_ips :
    (p : BypassPolicy) (ips : List (List ℕ)) (d : List ℕ)
    → All IsAddress ips
    → IsBytes d
    → (q : BypassPolicy) × (with_numeric_ips (some p) ips ≡ ok q)
      × (is_bypass (some q) (some d) ≡ (is_bypass (some p) (some d) || listed ips d))
unfolding with_numeric_ips is_bypass
is_bypass-with_numeric_ips p ips d h b =
    let r = append_hosts_lem p.cidrs ips d h b in
    (record { cidrs = r.0; entry_count = p.entry_count }, rw (with_numeric_ips, r.1) refl, r.2)
