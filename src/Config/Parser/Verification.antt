-- ===== src/Config/Parser/Verification.antt =====
-- The profiles of an accepted configuration: their order, and that none of them turns certificate
-- verification off.
use mathlib.Core.Option
use dobby_vpn.Common.{
  ℕ, ◌+◌, Text, true, false, List, [], ◌∷◌, Option, none, some, ◌≡◌, ◌≢◌, inl, inr, refl, length,
  arith, get_elem?, Option-cases, ap, sym, ◌∙◌,
}
use dobby_vpn.Failure.{ok, Result-cases}
use dobby_vpn.Session.Types.{Protocol, outline, xray, trust_tunnel}
use dobby_vpn.Config.{
  Value, string, integer, decimal, boolean, other, table, items, tables, texts, Fields, get,
  clone_value, clone_fields,
}
use dobby_vpn.Config.Outline.{normalize_outline_url}
use mathlib.Core.Path.{subst}
use dobby_vpn.Config.Clone.{contents, get-clone_fields, clone_fields_lem}
use dobby_vpn.Config.Decode.{ConfigRoot, eq, count_of, tables_of, decode_config}
use dobby_vpn.Config.Parser.{
  Payload, outline_url, xray_fields, trust_tunnel_fields, RuntimeProfile, ParsedConfig, parsed,
  Libraries, Next, advance, parse_profile, parse_profiles, profile_of, parse_config,
  normalize_profile, validate_verification, description_of, verification_of, check_endpoint,
  check_skip,
}

-- The value of endpoint.skip_verification.
abbrev skip_of : Option Value → Option Value
skip_of (some (table e)) = get "skip_verification" e
skip_of _ = none

-- A TrustTunnel payload in which certificates are verified.
abbrev pub IsVerified : Payload → Type 0
IsVerified (outline_url t) = Unit {0}
IsVerified (xray_fields m) = Unit {0}
IsVerified (trust_tunnel_fields m) =
    (get "skip_verification" m ≡ none) × (skip_of (get "endpoint" m) ≢ some (boolean true))

-- A payload of a protocol with what a section says.
abbrev pub Carries : Libraries → Protocol → Fields → Payload → Type 0
Carries lib outline block (outline_url t) =
    normalize_outline_url lib.base64 lib.query_escape block ≡ ok t
Carries lib xray block (xray_fields m) = contents m ≡ contents block
Carries lib trust_tunnel block (trust_tunnel_fields m) = contents m ≡ contents block
Carries lib p block c = ⊥

abbrev pub Described : Option Value → Text → Type 0
Described none t = t ≡ []
Described (some (string u)) t = t ≡ u
Described (some v) t = ⊥

-- The profile of a section at a position.
abbrev pub IsProfile : Libraries → ConfigRoot → Protocol → Fields → ℕ → RuntimeProfile → Type 0
IsProfile lib root p block i x =
    (x.index ≡ i)
    × (x.protocol ≡ p)
    × (x.exclude_cidrs ≡ root.exclude_ips)
    × Described (get "Description" block) x.description
    × Carries lib p block x.config
    × IsVerified x.config

-- The profiles of a list of sections, after those of `before`: the data of a section stand behind
-- those of the sections of its protocol that come before it.
abbrev pub IsNumbered :
    Libraries → ConfigRoot → List Protocol → List Protocol → List RuntimeProfile → Type 0
IsNumbered lib root before [] [] = Unit {0}
IsNumbered lib root before (p ∷ ps) (x ∷ xs) =
    ((block : Fields) × (get_elem? (tables_of root p) (count_of p before) ≡ some block)
      × IsProfile lib root p block (length before) x)
    × IsNumbered lib root (p ∷ before) ps xs
IsNumbered lib root before _ _ = ⊥

eq_sym : (p q : Protocol) → eq p q ≡ eq q p
eq_sym outline outline = refl
eq_sym outline xray = refl
eq_sym outline trust_tunnel = refl
eq_sym xray outline = refl
eq_sym xray xray = refl
eq_sym xray trust_tunnel = refl
eq_sym trust_tunnel outline = refl
eq_sym trust_tunnel xray = refl
eq_sym trust_tunnel trust_tunnel = refl

-- A flag that is accepted is absent or false, and so is its copy.
copied_flag :
    (v : Option Value) → check_skip v ≡ none → Option.map clone_value v ≢ some (boolean true)
unfolding clone_value
copied_flag none h q = cc
copied_flag (some (boolean true)) h q = cc
copied_flag (some (boolean false)) h q = ground arith
copied_flag (some v) h q = cc

copied_skip :
    (v : Option Value)
    → check_endpoint v ≡ none
    → skip_of (Option.map clone_value v) ≢ some (boolean true)
unfolding clone_value
copied_skip none h q = cc
copied_skip (some (table e)) h q =
    copied_flag (get "skip_verification" e) h (sym (get-clone_fields "skip_verification" e) ∙ q)
copied_skip (some v) h q = cc

-- What the check accepts is verified, and its copy too.
validate_verification-IsVerified :
    (m : Fields)
    → validate_verification m ≡ none
    → IsVerified (trust_tunnel_fields (clone_fields m))
unfolding validate_verification
validate_verification-IsVerified m h =
    let top : get "skip_verification" m ≡ none = ground arith in
    let rest : check_endpoint (get "endpoint" m) ≡ none = ground arith in
    (
      (get-clone_fields "skip_verification" m) ∙ ap (Option.map clone_value) top,
      λ q.
          copied_skip (get "endpoint" m) rest
            (ap skip_of (sym (get-clone_fields "endpoint" m)) ∙ q),
    )

module _ (lib : Libraries) where
  described : (v : Option Value) (t : Text) → description_of v ≡ ok t → Described v t
  described none t h = ground (arith, h)
  described (some (string u)) t h = ground (arith, h)
  described (some (integer n)) t h = ground (arith, h)
  described (some (decimal n)) t h = ground (arith, h)
  described (some (boolean b)) t h = ground (arith, h)
  described (some (other n)) t h = ground (arith, h)
  described (some (table m)) t h = ground (arith, h)
  described (some (items l)) t h = ground (arith, h)
  described (some (tables l)) t h = ground (arith, h)
  described (some (texts l)) t h = ground (arith, h)

  normalize_profile-Carries :
      (p : Protocol) (block : Fields) (c : Payload)
      → verification_of p block ≡ none
      → normalize_profile lib p block ≡ ok c
      → Carries lib p block c × IsVerified c
  unfolding normalize_profile
  normalize_profile-Carries outline block c v h =
      elim (Result-cases (normalize_outline_url lib.base64 lib.query_escape block)) [
        | inl (e, q) ↦ absurd (ground (arith, h, q))
        | inr (t, q) ↦
            let k : outline_url t ≡ c = ground (arith, h, q) in
            subst (λ d. Carries lib outline block d × IsVerified d) k (q, tt)
      ]
  normalize_profile-Carries xray block c v h =
      let k : xray_fields (clone_fields block) ≡ c = ground (arith, h) in
      subst (λ d. Carries lib xray block d × IsVerified d) k ((clone_fields_lem block).2, tt)
  normalize_profile-Carries trust_tunnel block c v h =
      let k : trust_tunnel_fields (clone_fields block) ≡ c = ground (arith, h) in
      subst (λ d. Carries lib trust_tunnel block d × IsVerified d) k
        ((clone_fields_lem block).2, validate_verification-IsVerified block v)

  profile_of-IsProfile :
      (root : ConfigRoot) (p : Protocol) (block : Fields) (index : ℕ) (x : RuntimeProfile)
      → profile_of lib root p block index ≡ ok x
      → IsProfile lib root p block index x
  unfolding profile_of
  profile_of-IsProfile root p block index x h =
      let v : verification_of p block ≡ none = ground (arith, h) in
      let t : description_of (get "Description" block) ≡ ok x.description = ground (arith, h) in
      let c : normalize_profile lib p block ≡ ok x.config = ground (arith, h) in
      let n = normalize_profile-Carries p block x.config v c in
      (
        ground (arith, h),
        ground (arith, h),
        ground (arith, h),
        described (get "Description" block) x.description t,
        n.0,
        n.1,
      )

  parse_profiles-IsNumbered :
      (root : ConfigRoot) (next : Next) (i : ℕ) (before ps : List Protocol)
      (xs : List RuntimeProfile)
      → i ≡ length before
      → ((q : Protocol) → next q ≡ count_of q before)
      → parse_profiles lib root next i ps ≡ parsed xs
      → IsNumbered lib root before ps xs
  unfolding parse_profiles parse_profile count_of
  parse_profiles-IsNumbered root next i before [] [] e n h = tt
  parse_profiles-IsNumbered root next i before [] (x ∷ xs) e n h = absurd (ground (arith, h))
  parse_profiles-IsNumbered root next i before (p ∷ ps) [] e n h = absurd (ground (arith, h))
  parse_profiles-IsNumbered root next i before (p ∷ ps) (x ∷ xs) e n h =
      let rest : parse_profiles lib root (advance next p) (i + 1) ps ≡ parsed xs =
        ground (arith, h) in
      let advanced : (q : Protocol) → advance next p q ≡ count_of q (p ∷ before) =
        λ q. ground (arith, n q, eq_sym p q) in
      elim (Option-cases (get_elem? (tables_of root p) (next p))) [
        | inl q ↦ absurd (ground (arith, h, q))
        | inr (block, q) ↦
            let own : profile_of lib root p block i ≡ ok x = ground (arith, h, q) in
            (
              (
                block,
                ap (get_elem? (tables_of root p)) (sym (n p)) ∙ q,
                subst (λ j. IsProfile lib root p block j x) e
                    (profile_of-IsProfile root p block i x own),
              ),
              parse_profiles-IsNumbered root (advance next p) (i + 1) (p ∷ before) ps xs
                  (ground (arith, e)) advanced rest,
            )
      ]

  -- The profiles of a configuration that is accepted are its sections in their order, at least one. The
  -- k-th section of a protocol has the k-th table of the protocol's data, and its profile has the
  -- section's position, protocol and description, the excluded addresses of the configuration, and a
  -- payload that says what the table says, or the address that an Outline table is normalized to. No
  -- TrustTunnel payload among them turns the verification of certificates off.
  pub parse_config-IsNumbered :
      (raw : Text) (c : ParsedConfig)
      → parse_config lib raw ≡ parsed c
      → (root : ConfigRoot) × (p : Protocol) × (ps : List Protocol) × (decode_config lib.decode raw
          ≡ ok (root, p ∷ ps))
        × IsNumbered lib root [] (p ∷ ps) c.profiles
  unfolding parse_config
  parse_config-IsNumbered raw c h = elim (Result-cases (decode_config lib.decode raw)) [
    | inl (e, d) ↦ absurd (ground (arith, d))
    | inr ((root, []), d) ↦ absurd (unfold decode_config in ground (arith, d))
    | inr ((root, p ∷ ps), d) ↦
        let all : parse_profiles lib root (λ p. 0) 0 (p ∷ ps) ≡ parsed c.profiles =
          ground (arith, d) in
        (
          root,
          p,
          ps,
          d,
          parse_profiles-IsNumbered root (λ p. 0) 0 [] (p ∷ ps) c.profiles refl
              (λ q. unfold count_of in refl) all,
        )
  ]
