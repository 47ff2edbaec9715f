-- ===== src/Session/ConfigLoader/Sources.antt =====
-- What a configuration that is loaded has come from.
use dobby_vpn.Common.{
  ℕ, suc, zero, ◌+◌, ◌≤◌, ◌<◌, Bool, true, false, not, List, [], ◌∷◌, Option, none, some, ltb,
  length, ◌==◌, String, ◌≡◌, ◌⊎◌, inl, inr, refl, arith, ap, sym, Text, trim_space, All,
  if◌then◌else◌,
}
use dobby_vpn.Failure.{GoError, Result, ok, err, join}
use dobby_vpn.Diagnostics.Migration.{take}
use dobby_vpn.Session.SourceStore.{byte_length}
use dobby_vpn.Session.ConfigLoader.{
  inline, fetched, LoadedConfig, Redirect, Response, has_scheme, is_https_url, check_redirect,
  recheck, read_body, is_success, load_response, load_url, load, refuse, max_config_bytes,
  is_https_source, fetched_response, request_url, load_source_url, ended_response,
}

-- What is read within a limit is all.
take_all : (n : ℕ) (l : List ℕ) → length (take (suc n) l) ≤ n → take (suc n) l ≡ l
take_all n [] h = refl
take_all zero (x ∷ l) h = absurd (omega (arith, h))
take_all (suc n) (x ∷ l) h = ap (λ t. x ∷ t) (take_all n l (omega (arith, h)))

-- A response of which the whole body is the configuration.
abbrev pub Complete : Response → List ℕ → Type 0
Complete r bytes =
    (r.body ≡ bytes)
    × (length bytes ≤ max_config_bytes)
    × (is_success r.status ≡ true)
    × (r.read_error ≡ none)
    × (r.close_error ≡ none)

refused : (message : String) (o : Option GoError) (c : LoadedConfig) → refuse message o ≡ ok c → ⊥
unfolding refuse
refused message none c h = ground (arith, h)
refused message (some e) c h = ground (arith, h)

-- A test whose result is known.
if_ok :
    (b : Bool) (x y : Result LoadedConfig) (c : LoadedConfig)
    → (if b then x else y) ≡ ok c
    → ((b ≡ true) × (x ≡ ok c)) ⊎ ((b ≡ false) × (y ≡ ok c))
if_ok true x y c h = inl (refl, h)
if_ok false x y c h = inr (refl, h)

-- A refusal comes first.
unless_refused :
    (b : Bool) (message : String) (o : Option GoError) (y : Result LoadedConfig) (c : LoadedConfig)
    → (if b then refuse message o else y) ≡ ok c
    → (b ≡ false) × (y ≡ ok c)
unless_refused true message o y c h = absurd (refused message o c h)
unless_refused false message o y c h = (refl, h)

ended_response-ok :
    (source : Text) (bytes : List ℕ) (r s : Option GoError) (c : LoadedConfig)
    → ended_response source bytes r s ≡ ok c
    → (c ≡ record { raw = fetched bytes; source_url = source }) × (r ≡ none) × (s ≡ none)
unfolding ended_response
ended_response-ok source bytes (some e) s c h =
    absurd (refused "configuration URL response could not be read" (join (some e) s) c h)
ended_response-ok source bytes none (some e) c h =
    absurd (refused "configuration URL response could not be closed" (some e) c h)
ended_response-ok source bytes none none c h = (ground (arith, h), refl, refl)

within_limit : (a b : ℕ) → ltb a b ≡ false → b ≤ a
within_limit a b h = ground (arith, h)

not_empty : (n : ℕ) → (n == 0) ≡ false → 0 < n
not_empty n h = ground (arith, h)

twice_not : (b : Bool) → not b ≡ false → b ≡ true
twice_not b h = ground (arith, h)

load_response-Complete :
    (source : Text) (r : Response) (c : LoadedConfig)
    → load_response source r ≡ ok c
    → (bytes : List ℕ) × (c ≡ record { raw = fetched bytes; source_url = source })
      × Complete r bytes
unfolding load_response
load_response-Complete source r c h =
    let a = unless_refused (not (is_success r.status)) _ _ _ c h in
    let b = unless_refused (ltb max_config_bytes (length (read_body r))) _ _ _ c a.1 in
    let e = ended_response-ok source (read_body r) r.read_error r.close_error c b.1 in
    let short : length (read_body r) ≤ max_config_bytes =
      within_limit max_config_bytes (length (read_body r)) b.0 in
    let all : r.body ≡ read_body r = sym (take_all max_config_bytes r.body short) in
    (read_body r, e.0, (all, short, twice_not (is_success r.status) a.0, e.1, e.2))

-- A redirect that the policy lets through.
pub check_redirect-none :
    (caller : Option (Redirect → ℕ → Redirect × Option GoError)) (request sent : Redirect) (via : ℕ)
    → check_redirect caller request via ≡ (sent, none)
    → (is_https_url request ≡ true) × (is_https_url sent ≡ true) × (via < 10)
unfolding check_redirect recheck
check_redirect-none caller request sent via h =
    (ground (arith, h), ground (arith, h), ground (arith, h))

-- The redirects of one request that the policy lets through, after `via` requests: each as it is
-- asked for, and as it is sent.
abbrev pub Followed :
    Option (Redirect → ℕ → Redirect × Option GoError) → ℕ → List (Redirect × Redirect) → Type 0
Followed caller via [] = Unit
Followed caller via ((asked, sent) ∷ l) =
    (check_redirect caller asked via ≡ (sent, none)) × Followed caller (via + 1) l

abbrev pub IsSecure : Redirect × Redirect → Type 0
IsSecure (asked, sent) = (is_https_url asked ≡ true) × (is_https_url sent ≡ true)

Followed-below :
    (caller : Option (Redirect → ℕ → Redirect × Option GoError)) (via : ℕ)
    (l : List (Redirect × Redirect))
    → via ≤ 10
    → Followed caller via l
    → All IsSecure l × (via + length l ≤ 10)
Followed-below caller via [] v h = (tt, omega (arith, v))
Followed-below caller via ((asked, sent) ∷ l) v h =
    let c = check_redirect-none caller asked sent via h.0 in
    let rest = Followed-below caller (via + 1) l (omega (arith, c.2)) h.1 in
    (((c.0, c.1), rest.0), omega (arith, rest.1))

-- Whatever the caller's own policy does to the requests, one that has followed redirects has followed
-- nine at most, each of them to an HTTPS URL and, as the policy left it and as it was sent, to an
-- HTTPS URL again.
pub check_redirect-Followed :
    (caller : Option (Redirect → ℕ → Redirect × Option GoError)) (l : List (Redirect × Redirect))
    → Followed caller 1 l
    → All IsSecure l × (length l ≤ 9)
check_redirect-Followed caller l h =
    let f = Followed-below caller 1 l (omega arith) h in (f.0, omega (arith, f.1))

module _ (url_parse : Text → Option (Text × Text)) (new_request : Text → Option GoError)
    (fetch : (Redirect → ℕ → Redirect × Option GoError) → Text → Text → Result Response) where
  -- A configuration fetched from `source`.
  abbrev pub Fetched :
      Option (Redirect → ℕ → Redirect × Option GoError) → Text → Text → LoadedConfig → Type 0
  Fetched caller agent source c =
      (r : Response) × (bytes : List ℕ) × (fetch (check_redirect caller) agent source ≡ ok r)
      × (c ≡ record { raw = fetched bytes; source_url = source })
      × Complete r bytes

  fetched_response-ok :
      (caller : Option (Redirect → ℕ → Redirect × Option GoError)) (agent source : Text)
      (c : LoadedConfig) (o : Result Response)
      → fetch (check_redirect caller) agent source ≡ o
      → fetched_response url_parse new_request fetch source o ≡ ok c
      → Fetched caller agent source c
  unfolding fetched_response
  fetched_response-ok caller agent source c (err e) q h =
      absurd (refused "configuration URL could not be fetched" (some e) c h)
  fetched_response-ok caller agent source c (ok r) q h =
      let t = load_response-Complete source r c h in (r, t.0, q, t.1, t.2)

  request_url-ok :
      (caller : Option (Redirect → ℕ → Redirect × Option GoError)) (agent source : Text)
      (c : LoadedConfig) (o : Option GoError)
      → request_url url_parse new_request fetch caller agent source o ≡ ok c
      → Fetched caller agent source c
  unfolding request_url
  request_url-ok caller agent source c (some e) h =
      absurd (refused "configuration URL is invalid" (some e) c h)
  request_url-ok caller agent source c none h =
      fetched_response-ok caller agent source c (fetch (check_redirect caller) agent source) refl h

  load_source_url-ok :
      (caller : Option (Redirect → ℕ → Redirect × Option GoError)) (agent source : Text)
      (c : LoadedConfig)
      → load_source_url url_parse new_request fetch caller agent source ≡ ok c
      → (is_https_source url_parse new_request fetch (url_parse source) ≡ true)
        × Fetched caller agent source c
  unfolding load_source_url load_url
  load_source_url-ok caller agent source c h =
      let secure = is_https_source url_parse new_request fetch (url_parse source) in
      elim (if_ok secure (load_url url_parse new_request fetch caller agent source)
        (refuse "configuration URL must use HTTPS" none) c h) [
          | inl p ↦ (p.0, request_url-ok caller agent source c (new_request source) p.1)
          | inr p ↦ absurd (refused "configuration URL must use HTTPS" none c p.1)
        ]

  -- A configuration that is loaded is one of two: a source without a scheme, of 1 byte to 1 MiB, that
  -- stands for itself and has no URL; or the whole body, of at most 1 MiB, of a successful response
  -- that was read and closed without an error, for the trimmed source, an HTTPS URL with a host, under
  -- the redirect policy.
  pub load-ok :
      (caller : Option (Redirect → ℕ → Redirect × Option GoError)) (agent source : Text)
      (c : LoadedConfig)
      → load url_parse new_request fetch caller agent source ≡ ok c
      → (0 < byte_length source)
        × (byte_length source ≤ max_config_bytes)
        × (((has_scheme (trim_space source) ≡ false)
              × (c ≡ record { raw = inline source; source_url = [] }))
            ⊎ ((is_https_source url_parse new_request fetch (url_parse (trim_space source)) ≡ true)
                × Fetched caller agent (trim_space source) c))
  unfolding load
  load-ok caller agent source c h =
      let trimmed = trim_space source in
      let rest =
        if has_scheme trimmed
        then load_source_url url_parse new_request fetch caller agent trimmed
        else ok (record { raw = inline source; source_url = [] }) in
      let long = ltb max_config_bytes (byte_length source) in
      let a =
        unless_refused (byte_length source == 0) "configuration source is empty" none
          (if long then refuse "configuration exceeds the 1 MiB size limit" none else rest) c h in
      let b = unless_refused long "configuration exceeds the 1 MiB size limit" none rest c a.1 in
      (
        not_empty (byte_length source) a.0,
        within_limit max_config_bytes (byte_length source) b.0,
        elim (if_ok (has_scheme trimmed)
            (load_source_url url_parse new_request fetch caller agent trimmed)
            (ok (record { raw = inline source; source_url = [] })) c b.1) [
              | inl s ↦ let u = load_source_url-ok caller agent trimmed c s.1 in inr (u.0, u.1)
              | inr s ↦ inl (s.0, ground (arith, s.1))
            ],
      )
