-- ===== src/Config/Decode.antt =====
-- core/sessionapi/config.go: the text of a configuration is decoded, and its sections are counted
-- against the data.
use text.Mathlib.Text.{◌==◌ as str_eq}
use dobby_vpn.Common.{
  ℕ, ◌+◌, Text, String, Bool, true, false, not, ◌&&◌, ◌||◌, List, [], ◌∷◌, Option, none, some, ltb,
  length, trim_space, if◌then◌else◌, ◌==◌,
}
use dobby_vpn.Failure.{FailureCode, GoError, Result, ok, err, domain, domain_with}
use dobby_vpn.Session.Types.{Protocol, outline, xray, trust_tunnel}
use dobby_vpn.Config.{Fields}

abbrev pub malformed : String → GoError
malformed t = domain FailureCode.malformed_config t

abbrev pub unsupported : String → GoError
unsupported t = domain FailureCode.unsupported t

-- configRoot; `exclude_ips` is ExcludeIPs.IPs.
pub record ConfigRoot : Type 0 where
  pub logs_endpoint : String
  pub exclude_ips : List String
  pub outline_tables : List Fields
  pub xray_tables : List Fields
  pub trust_tunnel_tables : List Fields

-- A key of the TOML metadata: its path, and whether its type is an array of tables.
pub record Key : Type 0 where
  pub path : List String
  pub is_array_of_tables : Bool

abbrev pub eq : Protocol → Protocol → Bool
eq outline outline = true
eq xray xray = true
eq trust_tunnel trust_tunnel = true
eq _ _ = false

abbrev pub tables_of : ConfigRoot → Protocol → List Fields
tables_of r outline = r.outline_tables
tables_of r xray = r.xray_tables
tables_of r trust_tunnel = r.trust_tunnel_tables

abbrev pub section_of : String → Option Protocol
section_of name =
    if str_eq name "Outline"
    then some outline
    else if str_eq name "Xray"
    then some xray
    else if str_eq name "TrustTunnel"
    then some trust_tunnel
    else none

-- validateRootKeys, of one key.
abbrev is_nested : List String → Bool
is_nested (a ∷ b ∷ rest) = true
is_nested _ = false

abbrev is_bad_exclude : List String → Bool
is_bad_exclude (a ∷ b ∷ []) = not (str_eq b "IPs")
is_bad_exclude (a ∷ b ∷ c ∷ rest) = true
is_bad_exclude _ = false

abbrev is_known : String → Bool
is_known name = elim (section_of name) [
  | some p ↦ true
  | none ↦ str_eq name "ExcludeIPs" || str_eq name "logs_endpoint"
]

unfoldable pub validate_key : List String → Option GoError
validate_key [] = none
validate_key (name ∷ rest) =
    if str_eq name "logs_endpoint" && is_nested (name ∷ rest)
    then some (malformed "logs_endpoint must be a URL string")
    else if str_eq name "ExcludeIPs" && is_bad_exclude (name ∷ rest)
    then some (unsupported "configuration contains an unsupported ExcludeIPs setting")
    else if is_known name
    then none
    else some (unsupported "configuration contains an unsupported section")

unfoldable pub validate_root_keys : List Key → Option GoError
unfolding validate_key
validate_root_keys [] = none
validate_root_keys (k ∷ ks) = elim (validate_key k.path) [
  | some e ↦ some e
  | none ↦ validate_root_keys ks
]

-- The protocol of a section's key.
abbrev protocol_of : Key → Option Protocol
protocol_of k = elim k.path [
  | [] ↦ none
  | name ∷ rest ↦ elim rest [
    | [] ↦ if k.is_array_of_tables then section_of name else none
    | x ∷ xs ↦ none
  ]
]

unfoldable pub protocols_of : List Key → List Protocol
protocols_of [] = []
protocols_of (k ∷ ks) =
    let rest = protocols_of ks in elim (protocol_of k) [ none ↦ rest | some p ↦ p ∷ rest ]

unfoldable pub count_of : Protocol → List Protocol → ℕ
count_of p [] = 0
count_of p (q ∷ qs) = let rest = count_of p qs in if eq p q then rest + 1 else rest

abbrev is_defined : String → List Key → Bool
is_defined name [] = false
is_defined name (k ∷ ks) =
    let rest = is_defined name ks in
    elim k.path [ [] ↦ rest | a ∷ more ↦ elim more [ [] ↦ str_eq a name || rest | b ∷ bs ↦ rest ] ]

-- The bytes of a code point in UTF-8, and of a text.
abbrev width : ℕ → ℕ
width c = if ltb c 0x80 then 1 else if ltb c 0x800 then 2 else if ltb c 0x10000 then 3 else 4

abbrev byte_length : Text → ℕ
byte_length [] = 0
byte_length (c ∷ cs) = width c + byte_length cs

abbrev max_config_bytes : ℕ
max_config_bytes = 1048576

abbrev counts_agree : ConfigRoot → List Protocol → Protocol → Bool
counts_agree r ps p = count_of p ps == length (tables_of r p)

abbrev checked_sections : ConfigRoot → List Protocol → Result (ConfigRoot × List Protocol)
checked_sections r [] =
    err (malformed "expected one or more [[Outline]], [[Xray]], or [[TrustTunnel]] sections")
checked_sections r (p ∷ ps) =
    if counts_agree r (p ∷ ps) outline
      && counts_agree r (p ∷ ps) xray
      && counts_agree r (p ∷ ps) trust_tunnel
    then ok (r, p ∷ ps)
    else err (malformed "protocol section count does not match TOML data")

-- What package toml decodes a text to.
pub record Decoded : Type 0 where
  pub root : ConfigRoot
  pub keys : List Key

abbrev decoded_config : Decoded → Result (ConfigRoot × List Protocol)
decoded_config d =
    if is_defined "logs_endpoint" d.keys && str_eq d.root.logs_endpoint ""
    then err (malformed "logs_endpoint must not be empty")
    else elim (validate_root_keys d.keys) [
      | some e ↦ err e
      | none ↦ checked_sections d.root (protocols_of d.keys)
    ]

unfoldable pub decode_config : (Text → Result Decoded) → Text → Result (ConfigRoot × List Protocol)
unfolding validate_root_keys protocols_of count_of
decode_config decode raw =
    if ltb max_config_bytes (byte_length raw)
    then err (malformed "configuration exceeds the 1 MiB size limit")
    else elim (trim_space raw) [
      | [] ↦ err (malformed "configuration is blank")
      | c ∷ cs ↦ elim (decode raw) [
        | err e ↦ err (domain_with FailureCode.malformed_config "TOML could not be parsed" e)
        | ok d ↦ decoded_config d
      ]
    ]
