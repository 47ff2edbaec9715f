-- ===== src/Config/Outline/Host.antt =====
-- The host of an address, which an Outline profile's TLS name is taken from.
use dobby_vpn.Common.{
  ℕ, Text, codes, true, false, [], ◌∷◌, ◌++◌, if◌then◌else◌, contains, before, starts_with, count,
  count-append, not-contains-count, ◌≡◌, refl, arith,
}
use dobby_vpn.Config.Outline.{outline_host}

count-before : (c : ℕ) (t : Text) → contains c t ≡ false → before c t ≡ t
unfolding before
count-before c [] h = refl
count-before c (x ∷ xs) h = ground (arith, count-before c xs)

before-append : (c : ℕ) (t u : Text) → contains c t ≡ false → before c (t ++ (c ∷ u)) ≡ t
unfolding before
before-append c [] u h = ground arith
before-append c (x ∷ xs) u h = ground (arith, before-append c xs u)

contains-append :
    (c : ℕ) (t u : Text) → contains c (t ++ u) ≡ (if contains c t then true else contains c u)
contains-append c [] u = refl
contains-append c (x ∷ xs) u = ground (arith, contains-append c xs u)

starts_with-append :
    (t u : Text)
    → starts_with (codes "[") t ≡ false
    → starts_with (codes "[") (t ++ (58 ∷ u)) ≡ false
unfolding starts_with
starts_with-append [] u h = refl
starts_with-append (x ∷ xs) u h = h

-- The host that the TLS name of an Outline address takes from `host:port` is the host, and from
-- `[host]:port` what is between the brackets.
pub outline_host-join :
    (host inner port : Text)
    → contains 63 host ≡ false
    → contains 58 host ≡ false
    → starts_with (codes "[") host ≡ false
    → contains 63 inner ≡ false
    → contains 93 inner ≡ false
    → contains 63 port ≡ false
    → contains 58 port ≡ false
    → (outline_host (host ++ (58 ∷ port)) ≡ host)
      × (outline_host (91 ∷ (inner ++ (93 ∷ 58 ∷ port))) ≡ inner)
unfolding outline_host
outline_host-join host inner port h c s i j q p =
    let plain : before 63 (host ++ (58 ∷ port)) ≡ host ++ (58 ∷ port) =
      count-before 63 _ (ground (arith, contains-append 63 host (58 ∷ port))) in
    let bracketed : before 63 (91 ∷ (inner ++ (93 ∷ 58 ∷ port)))
        ≡ 91 ∷ (inner ++ (93 ∷ 58 ∷ port)) =
      count-before 63 _ (ground (arith, contains-append 63 inner (93 ∷ 58 ∷ port))) in
    let one : count 58 (host ++ (58 ∷ port)) ≡ 1 =
      unfold count in
      ground (
        arith,
        count-append 58 host (58 ∷ port),
        not-contains-count 58 host c,
        not-contains-count 58 port p,
      ) in
    let closed : contains 93 (91 ∷ (inner ++ (93 ∷ 58 ∷ port))) ≡ true =
      ground (arith, contains-append 93 inner (93 ∷ 58 ∷ port)) in
    (
      rw (outline_host, plain, starts_with-append host port s, one) (before-append 58 host port c),
      rw (outline_host, bracketed, closed) (before-append 93 inner (58 ∷ port) j),
    )
