-- ===== src/Config/Parser.antt =====
-- core/sessionapi/config.go: each section of a decoded configuration becomes a profile, in the order
-- of the file.
pub mod Profiles
pub mod Verification
use text.Mathlib.Text.{◌==◌ as str_eq}
use dobby_vpn.Common.{
  ℕ, ◌+◌, ◌*◌, Text, String, Bool, true, false, not, ◌&&◌, ◌||◌, List, [], ◌∷◌, Option, none, some,
  ltb, leb, length, get_elem?, trim_space, if◌then◌else◌, ◌==◌, codes,
}
use dobby_vpn.Failure.{FailureCode, GoError, Result, ok, err, domain, domain_with}
use dobby_vpn.Session.Types.{Protocol, outline, xray, trust_tunnel, ProfileSummary}
use dobby_vpn.Config.{Value, string, boolean, table, Fields, get, clone_fields}
use dobby_vpn.Config.Outline.{normalize_outline_url}
use dobby_vpn.Config.Decode.{
  malformed, unsupported, ConfigRoot, Decoded, eq, tables_of, decode_config,
}

-- What url.Parse makes of an address, as far as it is asked: the port is none where it is no number,
-- and the user's name tells whether it has a colon.
pub record Url : Type 0 where
  pub is_https : Bool
  pub has_host : Bool
  pub ends_in_slash : Bool
  pub has_query : Bool
  pub has_fragment : Bool
  pub is_opaque : Bool
  pub port : Option (Option ℕ)
  pub colon_in_user : Bool

-- protocol.Config.
pub data Payload : Type 0 where
  outline_url : Text → Payload
  xray_fields : Fields → Payload
  trust_tunnel_fields : Fields → Payload

pub record RuntimeProfile : Type 0 where
  pub index : ℕ
  pub protocol : Protocol
  pub description : Text
  pub config : Payload
  pub exclude_cidrs : List String

pub record ParsedConfig : Type 0 where
  pub digest : String
  pub profiles : List RuntimeProfile
  pub logs_endpoint : String

-- What parsing ends in; an index out of range panics.
pub data Parsed {ℓ} (A : Type ℓ) : Type ℓ where
  parsed : A → Parsed A
  refused : GoError → Parsed A
  panics : Parsed A

-- validateLogsEndpoint.
abbrev is_directory : Url → Bool
is_directory u =
    u.is_https
    && u.has_host
    && u.ends_in_slash
    && not u.has_query
    && not u.has_fragment
    && not u.is_opaque

abbrev has_valid_port : Url → Bool
has_valid_port u = elim u.port [
  | none ↦ true
  | some p ↦ elim p [ none ↦ false | some n ↦ leb 1 n && leb n 65535 ]
]

unfoldable pub validate_logs_endpoint : (String → Option Url) → String → Option GoError
validate_logs_endpoint parse_url endpoint =
    if str_eq endpoint "" then none else elim (parse_url endpoint) [
      | none ↦
          some (malformed "logs_endpoint must be an HTTPS directory URL without query or fragment")
      | some u ↦
          if not (is_directory u)
          then some
              (malformed "logs_endpoint must be an HTTPS directory URL without query or fragment")
          else if not (has_valid_port u)
          then some (malformed "logs_endpoint has an invalid port")
          else if u.colon_in_user
          then some (malformed "logs_endpoint Basic username cannot contain a colon")
          else none
    ]

-- validateTrustTunnelVerification.
abbrev pub check_skip : Option Value → Option GoError
check_skip none = none
check_skip (some (boolean true)) =
    some (malformed "TrustTunnel certificate verification must remain enabled")
check_skip (some (boolean false)) = none
check_skip (some _) = some (malformed "TrustTunnel endpoint.skip_verification must be a boolean")

abbrev pub check_endpoint : Option Value → Option GoError
check_endpoint (some (table e)) = check_skip (get "skip_verification" e)
check_endpoint _ = none

unfoldable pub validate_verification : Fields → Option GoError
validate_verification block = elim (get "skip_verification" block) [
  | some v ↦ some (malformed "TrustTunnel skip_verification is only supported under endpoint")
  | none ↦ check_endpoint (get "endpoint" block)
]

abbrev check_cloak : Option Value → Option GoError
check_cloak none = none
check_cloak (some (boolean true)) =
    some (unsupported "configuration contains a removed Cloak profile")
check_cloak (some (boolean false)) = none
check_cloak (some _) = some (malformed "Cloak must be a boolean")

abbrev pub description_of : Option Value → Result Text
description_of none = ok []
description_of (some (string t)) = ok t
description_of (some _) = err (malformed "Description must be a string")

abbrev pub verification_of : Protocol → Fields → Option GoError
verification_of trust_tunnel block = validate_verification block
verification_of _ block = none

-- The counts of the sections that are taken, by protocol.
abbrev pub Next : Type 0
Next = Protocol → ℕ

abbrev pub advance : Next → Protocol → Next
advance next p q = if eq p q then next q + 1 else next q

abbrev add_profile : RuntimeProfile → Parsed (List RuntimeProfile) → Parsed (List RuntimeProfile)
add_profile x (parsed xs) = parsed (x ∷ xs)
add_profile x (refused e) = refused e
add_profile x panics = panics

-- The libraries' parts: Base64, the escape of a query, TOML, the hash of a text, and url.Parse.
pub record Libraries : Type 0 where
  pub base64 : Text → Text
  pub query_escape : Text → Text
  pub decode : Text → Result Decoded
  pub digest : Text → String
  pub parse_url : String → Option Url

module _ (lib : Libraries) where
  unfoldable pub normalize_profile : Protocol → Fields → Result Payload
  unfolding normalize_outline_url
  normalize_profile xray block = elim (get "outbounds" block) [
    | none ↦ err (malformed "Xray profile requires outbounds")
    | some v ↦ ok (xray_fields (clone_fields block))
  ]
  normalize_profile outline block = elim (normalize_outline_url lib.base64 lib.query_escape block) [
    | ok t ↦ ok (outline_url t)
    | err e ↦ err e
  ]
  normalize_profile trust_tunnel block = ok (trust_tunnel_fields (clone_fields block))

  unfoldable pub profile_of : ConfigRoot → Protocol → Fields → ℕ → Result RuntimeProfile
  unfolding normalize_profile validate_verification
  profile_of root p block index = elim (check_cloak (get "Cloak" block)) [
    | some e ↦ err e
    | none ↦ elim (verification_of p block) [
      | some e ↦ err e
      | none ↦ elim (description_of (get "Description" block)) [
        | err e ↦ err e
        | ok t ↦ elim (normalize_profile p block) [
          | err e ↦ err e
          | ok c ↦ ok (record {
            index = index;
            protocol = p;
            description = t;
            config = c;
            exclude_cidrs = root.exclude_ips;
          })
        ]
      ]
    ]
  ]

  -- parseProfile, whose first step is nextProfile.
  unfoldable pub parse_profile : ConfigRoot → Next → Protocol → ℕ → Parsed RuntimeProfile
  unfolding profile_of
  parse_profile root next p index = elim (get_elem? (tables_of root p) (next p)) [
    | none ↦ panics
    | some block ↦ elim (profile_of root p block index) [ ok x ↦ parsed x | err e ↦ refused e ]
  ]

  -- The loop of parseProfiles, from one index on.
  unfoldable pub parse_profiles :
      ConfigRoot → Next → ℕ → List Protocol → Parsed (List RuntimeProfile)
  unfolding parse_profile
  parse_profiles root next index [] = parsed []
  parse_profiles root next index (p ∷ ps) = elim (parse_profile root next p index) [
    | panics ↦ panics
    | refused e ↦ refused e
    | parsed x ↦ add_profile x (parse_profiles root (advance next p) (index + 1) ps)
  ]

  abbrev finished : Text → ConfigRoot → Parsed (List RuntimeProfile) → Parsed ParsedConfig
  finished raw root panics = panics
  finished raw root (refused e) = refused e
  finished raw root (parsed xs) = elim (validate_logs_endpoint lib.parse_url root.logs_endpoint) [
    | some e ↦ refused e
    | none ↦
        parsed
          (record { digest = lib.digest raw; profiles = xs; logs_endpoint = root.logs_endpoint })
  ]

  unfoldable pub parse_config : Text → Parsed ParsedConfig
  unfolding decode_config parse_profiles validate_logs_endpoint
  parse_config raw = elim (decode_config lib.decode raw) [
    | err e ↦ refused e
    | ok (root, ps) ↦ finished raw root (parse_profiles root (λ p. 0) 0 ps)
  ]
