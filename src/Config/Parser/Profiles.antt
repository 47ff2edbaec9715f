-- ===== src/Config/Parser/Profiles.antt =====
-- What the profiles of an accepted configuration are, and that parsing never reads past the data.
use dobby_vpn.Common.{
  ℕ, ◌+◌, ◌<◌, ◌≤◌, zero, suc, Text, true, List, [], ◌∷◌, some, ◌≡◌, ◌≢◌, inl, inr, refl, arith,
  length, get_elem?,
}
use dobby_vpn.Failure.{ok, Result-cases}
use dobby_vpn.Session.Types.{Protocol, outline, xray, trust_tunnel}
use dobby_vpn.Config.Decode.{ConfigRoot, eq, tables_of, count_of, decode_config}
use dobby_vpn.Config.Parser.{
  panics, Libraries, Next, advance, parse_profile, parse_profiles, parse_config,
}

eq_refl : (p : Protocol) → eq p p ≡ true
eq_refl outline = refl
eq_refl xray = refl
eq_refl trust_tunnel = refl

get_elem_some {ℓ} :
    {A : Type ℓ} (l : List A) (i : ℕ) → i < length l → (x : A) × (get_elem? l i ≡ some x)
get_elem_some [] i h = absurd (omega arith)
get_elem_some (x ∷ xs) zero h = (x, refl)
get_elem_some (x ∷ xs) (suc i) h = get_elem_some xs i (omega arith)

-- What is left of each protocol's data covers the sections that are left.
abbrev Fits : ConfigRoot → Next → List Protocol → Type 0
Fits root next ps = (p : Protocol) → next p + count_of p ps ≤ length (tables_of root p)

module _ (lib : Libraries) where
  parse_profile-ne-panics :
      (root : ConfigRoot) (next : Next) (p : Protocol) (index : ℕ)
      → next p < length (tables_of root p)
      → parse_profile lib root next p index ≢ panics
  unfolding parse_profile
  parse_profile-ne-panics root next p index h q =
      let e = get_elem_some (tables_of root p) (next p) h in ground (arith, e.1)

  parse_profiles-ne-panics :
      (root : ConfigRoot) (next : Next) (index : ℕ) (ps : List Protocol)
      → Fits root next ps
      → parse_profiles lib root next index ps ≢ panics
  unfolding parse_profiles count_of
  parse_profiles-ne-panics root next index [] f q = cc
  parse_profiles-ne-panics root next index (p ∷ ps) f q =
      let here : next p < length (tables_of root p) = ground (arith, f p, eq_refl p) in
      let later : Fits root (advance next p) ps = λ r. ground (arith, f r) in
      ground (
        arith,
        parse_profile-ne-panics root next p index here,
        parse_profiles-ne-panics root (advance next p) (index + 1) ps later,
      )

  decode_config-Fits :
      (raw : Text) (root : ConfigRoot) (ps : List Protocol)
      → decode_config lib.decode raw ≡ ok (root, ps)
      → Fits root (λ p. 0) ps
  unfolding decode_config
  decode_config-Fits raw root ps h outline = ground arith
  decode_config-Fits raw root ps h xray = ground arith
  decode_config-Fits raw root ps h trust_tunnel = ground arith

  -- Whatever the text, and whatever TOML makes of it, parsing a configuration never reads a section
  -- past the end of its data.
  pub parse_config-ne-panics : (raw : Text) → parse_config lib raw ≢ panics
  unfolding parse_config
  parse_config-ne-panics raw q = elim (Result-cases (decode_config lib.decode raw)) [
    | inl (e, d) ↦ ground (arith, d)
    | inr ((root, ps), d) ↦
        ground
          (arith, d, parse_profiles-ne-panics root (λ p. 0) 0 ps (decode_config-Fits raw root ps d))
  ]
