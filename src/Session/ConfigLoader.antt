-- ===== src/Session/ConfigLoader.antt =====
-- core/sessionapi/config_loader.go: where a configuration comes from. The numbers in the texts of
-- errors are left out.
pub mod Sources
use dobby_vpn.Common.{
  ℕ, ◌+◌, Bool, true, false, not, ◌&&◌, ◌||◌, List, [], ◌∷◌, ◌++◌, Option, none, some, String, ◌==◌,
  leb, ltb, length, Text, codes, same, starts_with, trim_space, if◌then◌else◌,
}
use dobby_vpn.Failure.{GoError, Result, ok, err, foreign, domain, domain_with, FailureCode, join}
use dobby_vpn.Diagnostics.Migration.{take}
use dobby_vpn.Session.SourceStore.{byte_length}

abbrev pub max_config_bytes : ℕ
max_config_bytes = 1048576

-- The bytes of a configuration: the text that was given, or those of a response.
pub data Raw : Type 0 where
  inline : Text → Raw
  fetched : List ℕ → Raw

pub record LoadedConfig : Type 0 where
  pub raw : Raw
  pub source_url : Text

abbrev is_letter : ℕ → Bool
is_letter c = leb 65 c && leb c 90 || leb 97 c && leb c 122

abbrev is_scheme_char : ℕ → Bool
is_scheme_char c = is_letter c || leb 48 c && leb c 57 || c == 43 || c == 45 || c == 46

-- The rest of a scheme and `://`.
unfoldable pub ends_scheme : Text → Bool
unfolding starts_with
ends_scheme [] = false
ends_scheme (c ∷ s) =
    let rest = ends_scheme s in
    if is_scheme_char c then rest else c == 58 && starts_with (47 ∷ 47 ∷ []) s

-- sourceSchemeRE.
unfoldable pub has_scheme : Text → Bool
unfolding ends_scheme
has_scheme [] = false
has_scheme (c ∷ s) = is_letter c && ends_scheme s

-- unicode.SimpleFold, where it leads to a letter of ASCII that is no k.
abbrev fold : ℕ → ℕ
fold c = if leb 65 c && leb c 90 then c + 32 else if c == 0x17f then 115 else c

abbrev folded : Text → Text
folded [] = []
folded (c ∷ s) = fold c ∷ folded s

-- strings.EqualFold with "https".
unfoldable pub is_https : Text → Bool
unfolding same
is_https scheme = same (folded scheme) (codes "https")

abbrev pub is_https_url : Option Text → Bool
is_https_url none = false
is_https_url (some scheme) = is_https scheme

-- A redirect: the scheme of the request's URL, none for a nil URL.
abbrev pub Redirect : Type 0
Redirect = Option Text

abbrev insecure : GoError
insecure = foreign "configuration redirect must use HTTPS"

-- What a caller's policy answers, with the request as it leaves it.
unfoldable pub recheck : Redirect × Option GoError → Redirect × Option GoError
unfolding is_https
recheck (after, some e) = (after, some e)
recheck (after, none) = (after, if is_https_url after then none else some insecure)

abbrev consult :
    Option (Redirect → ℕ → Redirect × Option GoError) → Redirect → ℕ → Redirect × Option GoError
consult none request via = (request, none)
consult (some policy) request via = recheck (policy request via)

-- client.CheckRedirect, after `via` requests: the request that is sent if there is no error, and the
-- error.
unfoldable pub check_redirect :
    Option (Redirect → ℕ → Redirect × Option GoError) → Redirect → ℕ → Redirect × Option GoError
unfolding is_https recheck
check_redirect caller request via =
    if not (is_https_url request)
    then (request, some insecure)
    else if leb 10 via
    then (request, some (foreign "configuration URL stopped after 10 redirects"))
    else consult caller request via

unfoldable pub version_or_dev : Text → Text
unfolding trim_space
version_or_dev version = elim (trim_space version) [ [] ↦ codes "dev" | c ∷ s ↦ version ]

-- The User-Agent, of the loader's version and the build's.
unfoldable pub user_agent : Text → Text → Text
unfolding trim_space version_or_dev
user_agent version build =
    codes "DobbyVPN/" ++ version_or_dev (elim (trim_space version) [ [] ↦ build | c ∷ s ↦ version ])

-- A response: its status, the bytes that its body gives, and how the reading and the Close end.
pub record Response : Type 0 where
  pub status : ℕ
  pub body : List ℕ
  pub read_error : Option GoError
  pub close_error : Option GoError

unfoldable pub refuse : String → Option GoError → Result LoadedConfig
refuse message none = err (domain FailureCode.invalid_argument message)
refuse message (some e) = err (domain_with FailureCode.invalid_argument message e)

abbrev pub read_body : Response → List ℕ
read_body r = take (max_config_bytes + 1) r.body

abbrev drain_error : Response → Option GoError
drain_error r =
    if ltb max_config_bytes (length (read_body r))
    then join r.read_error (some (foreign "configuration error response exceeded the drain limit"))
    else r.read_error

abbrev pub is_success : ℕ → Bool
is_success status = leb 200 status && ltb status 300

-- A body that was read with these two errors.
unfoldable pub ended_response :
    Text → List ℕ → Option GoError → Option GoError → Result LoadedConfig
unfolding refuse
ended_response source bytes (some e) close_error =
    refuse "configuration URL response could not be read" (join (some e) close_error)
ended_response source bytes none (some e) =
    refuse "configuration URL response could not be closed" (some e)
ended_response source bytes none none = ok (record { raw = fetched bytes; source_url = source })

-- What comes of the response to the request for `source`.
unfoldable pub load_response : Text → Response → Result LoadedConfig
unfolding refuse ended_response
load_response source r =
    if not (is_success r.status)
    then refuse "configuration URL returned a non-success response" (
        join (some (foreign "configuration URL returned HTTP"))
          (join (drain_error r) r.close_error))
    else if ltb max_config_bytes (length (read_body r))
    then refuse "configuration URL response exceeds the 1 MiB size limit" (
        join (some (foreign "configuration response exceeded the size limit"))
          (join r.read_error r.close_error))
    else ended_response source (read_body r) r.read_error r.close_error

-- net/url and net/http: the scheme and the host of a URL, the error of a request that cannot be made,
-- and the response that the client comes to under a policy for redirects.
module _ (url_parse : Text → Option (Text × Text)) (new_request : Text → Option GoError)
    (fetch : (Redirect → ℕ → Redirect × Option GoError) → Text → Text → Result Response) where
  unfoldable pub fetched_response : Text → Result Response → Result LoadedConfig
  unfolding refuse load_response
  fetched_response source (err e) = refuse "configuration URL could not be fetched" (some e)
  fetched_response source (ok r) = load_response source r

  -- loadURL, with the client's own policy and the error of making the request.
  unfoldable pub request_url :
      Option (Redirect → ℕ → Redirect × Option GoError)
      → Text
      → Text
      → Option GoError
      → Result LoadedConfig
  unfolding check_redirect refuse fetched_response
  request_url caller agent source (some e) = refuse "configuration URL is invalid" (some e)
  request_url caller agent source none =
      fetched_response source (fetch (check_redirect caller) agent source)

  unfoldable pub load_url :
      Option (Redirect → ℕ → Redirect × Option GoError) → Text → Text → Result LoadedConfig
  unfolding request_url
  load_url caller agent source = request_url caller agent source (new_request source)

  -- A URL with a host whose scheme is HTTPS.
  abbrev pub is_https_source : Option (Text × Text) → Bool
  is_https_source none = false
  is_https_source (some (scheme, [])) = false
  is_https_source (some (scheme, c ∷ host)) = is_https scheme

  -- A source with a scheme.
  unfoldable pub load_source_url :
      Option (Redirect → ℕ → Redirect × Option GoError) → Text → Text → Result LoadedConfig
  unfolding is_https load_url refuse
  load_source_url caller agent source =
      if is_https_source (url_parse source)
      then load_url caller agent source
      else refuse "configuration URL must use HTTPS" none

  unfoldable pub load :
      Option (Redirect → ℕ → Redirect × Option GoError) → Text → Text → Result LoadedConfig
  unfolding byte_length trim_space has_scheme load_source_url refuse
  load caller agent source =
      if byte_length source == 0
      then refuse "configuration source is empty" none
      else if ltb max_config_bytes (byte_length source)
      then refuse "configuration exceeds the 1 MiB size limit" none
      else if has_scheme (trim_space source)
      then load_source_url caller agent (trim_space source)
      else ok (record { raw = inline source; source_url = [] })
