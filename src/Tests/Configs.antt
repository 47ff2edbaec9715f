-- ===== src/Tests/Configs.antt =====
-- A configuration with a TrustTunnel section and an Xray section.

use dobby_vpn.Common.{
  ℕ, Text, codes, String, true, false, List, [], ◌∷◌, none, ◌≡◌, refl, trim_space,
}
use dobby_vpn.Failure.{ok}
use dobby_vpn.Session.Types.{Protocol, xray, trust_tunnel}
use dobby_vpn.Config.{
  string, boolean, table, tables, texts, Fields, field, no_field, one_table, no_table, get,
  clone_fields,
}
use dobby_vpn.Config.Clone.{contents, is_plain_fields, clone_fields_lem}
use dobby_vpn.Config.Decode.{
  ConfigRoot, Key, decode_config, protocols_of, count_of, validate_root_keys, validate_key,
}
use dobby_vpn.Config.Parser.{
  Libraries, parsed, ParsedConfig, RuntimeProfile, Payload, xray_fields, trust_tunnel_fields,
  parse_config, parse_profiles, parse_profile, profile_of, normalize_profile, validate_verification,
  validate_logs_endpoint,
}
use dobby_vpn.Config.Parser.Verification.{IsNumbered, parse_config-IsNumbered}

abbrev endpoint : Fields
endpoint = field "hostname" (string (codes "vpn.example")) (
    field "skip_verification" (boolean false) (field "addresses" (texts (codes "a" ∷ [])) no_field))

abbrev block : Fields
block =
    field "endpoint" (table endpoint)
      (field "routes" (tables (one_table no_field no_table)) no_field)

clone_fields_lem_example :
    (is_plain_fields (clone_fields block) ≡ true)
    × (clone_fields (clone_fields block) ≡ clone_fields block)
    × (contents (clone_fields block) ≡ contents block)
clone_fields_lem_example = clone_fields_lem block

abbrev xray_block : Fields
xray_block = field "outbounds" (tables no_table) no_field

abbrev root : ConfigRoot
root = record {
  logs_endpoint = "";
  exclude_ips = "10.0.0.0/8" ∷ [];
  outline_tables = [];
  xray_tables = xray_block ∷ [];
  trust_tunnel_tables = block ∷ [];
}

abbrev section : String → Key
section name = record { path = name ∷ []; is_array_of_tables = true }

abbrev libraries : Libraries
libraries = record {
  base64 = λ t. t;
  query_escape = λ t. t;
  decode = λ t. ok (record { root = root; keys = section "TrustTunnel" ∷ section "Xray" ∷ [] });
  digest = λ t. "digest";
  parse_url = λ t. none;
}

abbrev raw : Text
raw = codes "[[TrustTunnel]]"

abbrev profile : ℕ → Protocol → Payload → RuntimeProfile
profile i p c = record {
  index = i;
  protocol = p;
  description = [];
  config = c;
  exclude_cidrs = "10.0.0.0/8" ∷ [];
}

abbrev accepted : ParsedConfig
accepted = record {
  digest = "digest";
  profiles =
      profile 0 trust_tunnel (trust_tunnel_fields (clone_fields block))
      ∷ profile 1 xray (xray_fields (clone_fields xray_block))
      ∷ [];
  logs_endpoint = "";
}

config_accepted : parse_config libraries raw ≡ parsed accepted
unfolding parse_config decode_config protocols_of count_of validate_root_keys validate_key
    trim_space parse_profiles parse_profile profile_of normalize_profile validate_verification
    validate_logs_endpoint get
config_accepted = refl

parse_config-IsNumbered_example :
    (r : ConfigRoot) × (p : Protocol) × (ps : List Protocol) × (decode_config libraries.decode raw
      ≡ ok (r, p ∷ ps))
    × IsNumbered libraries r [] (p ∷ ps) accepted.profiles
parse_config-IsNumbered_example = parse_config-IsNumbered libraries raw accepted config_accepted
