-- ===== src/Config/Outline.antt =====
-- core/sessionapi/config.go: the address of an Outline profile, from its table.
pub mod Host
use dobby_vpn.Common.{
  ℕ, ◌+◌, Text, String, codes, Bool, true, false, not, ◌&&◌, List, [], ◌∷◌, ◌++◌, Option, none,
  some, if◌then◌else◌, ◌==◌, contains, trim_space, trim_right, before, decimal as digits, drop,
  starts_with, count, count-append, contains-count, not-contains-count, ◌≡◌, refl, arith,
}
use dobby_vpn.Failure.{FailureCode, GoError, Result, ok, err, domain}
use dobby_vpn.Config.{Integer, Value, string, integer, decimal, boolean, Fields, get}

abbrev text_of : Option Value → Text
text_of (some (string t)) = t
text_of _ = []

unfoldable pub string_value : Fields → String → Text
string_value block key = trim_space (text_of (get key block))

unfoldable pub raw_string_value : Fields → String → Text
raw_string_value block key = text_of (get key block)

abbrev is_true : Option Value → Bool
is_true (some (boolean b)) = b
is_true _ = false

unfoldable pub bool_value : Fields → String → Bool
bool_value block key = is_true (get key block)

-- An int64 has at most nineteen digits.
abbrev format_int : Integer → Text
format_int n = if n.negative then codes "-" ++ digits 19 n.size else digits 19 n.size

unfoldable pub int_string : Option Value → Text
int_string (some (integer n)) = format_int n
int_string (some (decimal n)) = format_int n
int_string _ = []

-- outlineHost, behind the cut at a '?'.
abbrev unquoted_host : Text → Text
unquoted_host host = if count 58 host == 1 then before 58 host else host

unfoldable pub outline_host : Text → Text
unfolding before starts_with
outline_host server_port =
    let host = before 63 server_port in
    if starts_with (codes "[") host && contains 93 host
    then before 93 (drop 1 host)
    else unquoted_host host

abbrev separator : Text → Text
separator server_port = if contains 63 server_port then codes "&" else codes "?"

abbrev paths : Text → Text
paths [] = []
paths (c ∷ cs) = codes "tcp_path=" ++ (c ∷ cs) ++ codes "/tcp&udp_path=" ++ (c ∷ cs) ++ codes "/udp"

abbrev default_text : Text → Text → Text
default_text [] d = d
default_text (c ∷ cs) d = c ∷ cs

abbrev malformed : String → GoError
malformed t = domain FailureCode.malformed_config t

-- Base64 and the escape of a query are of packages encoding/base64 and net/url.
module _ (base64 query_escape : Text → Text) where
  abbrev prefix_of : Text → Text → Text
  prefix_of [] server_port = []
  prefix_of (c ∷ cs) server_port = separator server_port ++ codes "prefix=" ++ query_escape (c ∷ cs)

  -- The address of the server, with what a WebSocket puts before it.
  unfoldable pub outline_address : Fields → Text → Text → Text → Text
  unfolding outline_host string_value raw_string_value bool_value
  outline_address block method password server_port =
      let ss =
        codes "ss://"
        ++ base64 (method ++ codes ":" ++ password)
        ++ codes "@"
        ++ server_port
        ++ prefix_of (raw_string_value block "DisguisePrefix") server_port in
      if not (bool_value block "WebSocket")
      then ss
      else codes "tls:sni="
        ++ outline_host server_port
        ++ codes "|ws:"
        ++ paths (trim_right (λ c. c == 47) (string_value block "WebSocketPath"))
        ++ codes "|"
        ++ ss

  unfoldable pub normalize_outline_url : Fields → Result Text
  unfolding outline_address int_string string_value bool_value
  normalize_outline_url block =
      let method = default_text (string_value block "Method") (codes "chacha20-ietf-poly1305") in
      let websocket = bool_value block "WebSocket" in
      elim (string_value block "Password") [
        | [] ↦ err (malformed "Outline profile requires a password")
        | p ∷ ps ↦ elim (string_value block "Server") [
          | [] ↦ err (malformed "Outline profile requires a server")
          | s ∷ ss ↦
              elim (default_text (int_string (get "Port" block))
                (if websocket then codes "443" else [])) [
                  | [] ↦ err (malformed "Outline profile requires a port")
                  | d ∷ ds ↦
                      ok (outline_address block method (p ∷ ps) ((s ∷ ss) ++ codes ":" ++ (d ∷ ds)))
                ]
        ]
      ]
