-- ===== src/Dns/Hosts.antt =====
-- core/dnscache/cache.go: NormalizeHost, and what ResolveAddresses answers before it asks a resolver.
-- A text is its code points.
use dobby_vpn.Common.{
  ℕ, Text, Bool, false, List, [], ◌∷◌, ◌++◌, Option, none, some, ◌==◌, ◌≡◌, refl, arith, ap,
  trim_space, trim_right, is_space, is_some, if◌then◌else◌,
}
use dobby_vpn.Failure.{GoError, foreign}

-- strings.TrimPrefix and TrimSuffix of one character.
unfoldable pub trim_prefix : ℕ → Text → Text
trim_prefix c [] = []
trim_prefix c (x ∷ xs) = if x == c then xs else x ∷ xs

unfoldable pub trim_suffix : ℕ → Text → Text
trim_suffix c [] = []
trim_suffix c (x ∷ []) = if x == c then [] else x ∷ []
trim_suffix c (x ∷ y ∷ ys) = x ∷ trim_suffix c (y ∷ ys)

-- What a lookup does first: it fails, it answers an address that the host already is, or it goes on
-- to a resolver with a name.
pub data Front : Type 0 where
  fails : GoError → Front
  literal : List ℕ → Front
  looks_up : Text → Front

-- netip.ParseAddr reads an address to its bytes, and strings.ToLower is of the standard library.
module _ (parse_addr : Text → Option (List ℕ)) (to_lower : Text → Text) where
  unfoldable pub normalize_host : Text → Text
  unfolding trim_space trim_prefix trim_suffix
  normalize_host host =
      let bare = trim_prefix 91 (trim_suffix 93 (trim_space host)) in
      if is_some (parse_addr bare) then bare else trim_suffix 46 (to_lower bare)

  -- ResolveAddresses up to the capture of its resolver.
  unfoldable pub resolve_front : Option GoError → Text → Front
  unfolding normalize_host
  resolve_front context host = elim context [
    | some e ↦ fails e
    | none ↦ elim (normalize_host host) [
      | [] ↦ fails (foreign "empty host")
      | x ∷ xs ↦ elim (parse_addr (x ∷ xs)) [ some ip ↦ literal ip | none ↦ looks_up (x ∷ xs) ]
    ]
  ]

trim_right-kept :
    (p : ℕ → Bool) (xs : Text) (c : ℕ)
    → p c ≡ false
    → trim_right p (xs ++ (c ∷ [])) ≡ xs ++ (c ∷ [])
trim_right-kept p [] c h = ground arith
trim_right-kept p (x ∷ []) c h = ground (arith, trim_right-kept p [] c h)
trim_right-kept p (x ∷ y ∷ ys) c h = rw (trim_right-kept p (y ∷ ys) c h) refl

trim_suffix-end : (c : ℕ) (xs : Text) → trim_suffix c (xs ++ (c ∷ [])) ≡ xs
unfolding trim_suffix
trim_suffix-end c [] = ground arith
trim_suffix-end c (x ∷ []) = ground arith
trim_suffix-end c (x ∷ y ∷ ys) = ap (λ l. x ∷ l) (trim_suffix-end c (y ∷ ys))

-- A host that is an address in brackets is answered with that address, and no resolver is asked.
pub resolve_front-literal :
    (parse_addr : Text → Option (List ℕ)) (to_lower : Text → Text) (x : ℕ) (xs : Text) (ip : List ℕ)
    → parse_addr (x ∷ xs) ≡ some ip
    → resolve_front parse_addr to_lower none (91 ∷ ((x ∷ xs) ++ (93 ∷ []))) ≡ literal ip
unfolding resolve_front normalize_host
resolve_front-literal parse_addr to_lower x xs ip h =
    let a = x ∷ xs in
    let trimmed : trim_space (91 ∷ (a ++ (93 ∷ []))) ≡ 91 ∷ (a ++ (93 ∷ [])) =
      unfold trim_space in trim_right-kept is_space (91 ∷ a) 93 refl in
    let host : normalize_host parse_addr to_lower (91 ∷ (a ++ (93 ∷ []))) ≡ a =
      rw (normalize_host, trimmed, trim_suffix-end 93 a, h) refl in
    rw (resolve_front, host, h) refl
