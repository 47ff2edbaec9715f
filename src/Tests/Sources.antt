-- ===== src/Tests/Sources.antt =====
-- A saved URL, and a configuration that is fetched from it.
use dobby_vpn.Common.{
  ℕ, true, false, ◌⊎◌, ◌<◌, ◌≤◌, List, [], ◌∷◌, Option, none, some, ◌≡◌, refl, codes, Text, is_some,
  length, trim_space, starts_with, same, All,
}
use dobby_vpn.Failure.{GoError, Result, ok, foreign}
use dobby_vpn.Session.SourceStore.{
  FileSourceStore, SaveCall, replaces, restricts, absent, directory, regular, save, load, prepare,
  replace, run_calls, perform, unless, checks, validate_source_path, validate_no_symlink_ancestors,
  byte_length,
}
use dobby_vpn.Session.SourceStore.Replacement.{IsGranted, save-file, load-save}
use dobby_vpn.Session.ConfigLoader.{
  Redirect, Response, LoadedConfig, fetched, inline, is_https_source, has_scheme, ends_scheme,
  is_https, check_redirect, recheck, max_config_bytes, load_source_url, load_url, request_url,
  fetched_response, load_response, ended_response, load as load_config,
}
use dobby_vpn.Session.ConfigLoader.Sources.{
  Followed, IsSecure, Fetched, check_redirect-Followed, load-ok,
}

abbrev url : Text
url = codes "https://a.b/c"

-- A store in a directory that is yet to be made.
abbrev fresh : FileSourceStore
fresh = record { path = true; ancestors = absent ∷ directory ∷ directory ∷ []; file = absent }

abbrev granted : SaveCall → Option GoError
granted c = none

abbrev busy : SaveCall → Option GoError
busy replaces = some (foreign "busy")
busy _ = none

saved : (save none granted url fresh).1 ≡ none
unfolding save prepare replace run_calls perform unless checks validate_source_path
    validate_no_symlink_ancestors byte_length trim_space
saved = refl

load-save_example : load none (save none granted url fresh).0 ≡ ok (some url)
load-save_example = load-save granted url fresh refl saved

save-file_example :
    let t = save none busy url fresh in
    ((t.1 ≡ none) × (t.0.file ≡ regular url) × IsGranted busy)
    ⊎ ((is_some t.1 ≡ true)
        × ((t.0.file ≡ absent) ⊎ ((t.0.file ≡ regular url) × (is_some (busy restricts) ≡ true))))
save-file_example = save-file none busy url fresh

abbrev parsed : Text → Option (Text × Text)
parsed t = some (codes "https", codes "a.b")

abbrev request : Text → Option GoError
request t = none

abbrev answer : Response
answer = record { status = 200; body = 1 ∷ 2 ∷ []; read_error = none; close_error = none }

abbrev fetch : (Redirect → ℕ → Redirect × Option GoError) → Text → Text → Result Response
fetch policy agent source = ok answer

abbrev config : LoadedConfig
config = record { raw = fetched (1 ∷ 2 ∷ []); source_url = url }

loaded : load_config parsed request fetch none [] url ≡ ok config
unfolding load_config byte_length trim_space has_scheme ends_scheme starts_with load_source_url
    is_https same load_url request_url fetched_response load_response ended_response
loaded = refl

load-ok_example :
    (0 < byte_length url)
    × (byte_length url ≤ max_config_bytes)
    × (((has_scheme (trim_space url) ≡ false)
          × (config ≡ record { raw = inline url; source_url = [] }))
        ⊎ ((is_https_source parsed request fetch (parsed (trim_space url)) ≡ true)
            × Fetched parsed request fetch none [] (trim_space url) config))
load-ok_example = load-ok parsed request fetch none [] url config loaded

-- Two redirects, and a caller who sends all to one URL.
abbrev hops : List (Redirect × Redirect)
hops =
    (some (codes "https"), some (codes "https")) ∷ (some (codes "HTTPS"), some (codes "https")) ∷ []

abbrev mirror : Redirect → ℕ → Redirect × Option GoError
mirror r via = (some (codes "https"), none)

hops-Followed : Followed (some mirror) 1 hops
unfolding check_redirect is_https same recheck
hops-Followed = (refl, (refl, tt))

check_redirect-Followed_example : All IsSecure hops × (length hops ≤ 9)
check_redirect-Followed_example = check_redirect-Followed (some mirror) hops hops-Followed
