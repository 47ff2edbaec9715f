-- ===== src/Dns/Cache.antt =====
-- core/dnscache/cache.go: which resolver answers a lookup, and when its answer is refused.
use dobby_vpn.Common.{
  ℕ, ◌+◌, ◌<◌, ◌≤◌, Bool, true, false, ◌&&◌, List, [], ◌∷◌, Option, none, some, String, ◌≡◌, ◌≢◌,
  ◌⊎◌, refl, ap, arith, if◌then◌else◌, is_some, ◌==◌, ◌∙◌, inl, inr, u64, u64_mod, length,
}
use text.Mathlib.Text.{◌==◌ as str_eq}
use text.Mathlib.TextEquality.{eq_iff}
use dobby_vpn.Failure.{GoError, Result, ok, err, foreign, formatted, join}

-- A resolver is its number. A source, by its number, captures the current network.
pub record Cache : Type 0 where
  pub resolver : Option ℕ
  pub identity : String
  pub revision : ℕ
  pub source : Option ℕ

unfoldable pub new_cache : Cache
new_cache = record { resolver = none; identity = ""; revision = 1; source = none }

unfoldable pub set_resolver_source : Cache → Option ℕ → Cache
set_resolver_source c source = record c {
  source = source;
  resolver = none;
  revision = u64 (c.revision + 1);
}

unfoldable pub set_resolver : Cache → String → Option ℕ → Cache
set_resolver c identity resolver =
    if str_eq c.identity identity && is_some c.resolver
    then c
    else record c { identity = identity; resolver = resolver; revision = u64 (c.revision + 1) }

-- The capture before a lookup, where a source is set: `captured` is what it answers.
unfoldable pub capture : Cache → Result (String × Option ℕ) → Cache × Option GoError
unfolding set_resolver
capture c captured = elim c.source [
  | none ↦ (c, none)
  | some n ↦ elim captured [
    | err e ↦ (c, some (formatted "capture underlying resolver" e))
    | ok (identity, resolver) ↦ (set_resolver c identity resolver, none)
  ]
]

abbrev changed : Bool → Option GoError
changed true = none
changed false = some (foreign "underlying network changed during resolution")

abbrev is_nil : List ℕ → Bool
is_nil [] = true
is_nil (x ∷ xs) = false

-- The verdict on what a resolver answered: `seen` is the revision that it was asked at, `now` the
-- cache when the answer is there, and `context` ctx.Err() then. An address is its number.
unfoldable pub verdict : ℕ → Cache → Option GoError → List ℕ → Option GoError → Result (List ℕ)
verdict seen now context addresses e =
    let failed = join (join e (changed (now.revision == seen))) context in
    elim failed [
      | some d ↦ err (formatted "resolve endpoint" d)
      | none ↦
          if is_nil addresses
          then err
              (formatted "resolve endpoint" (foreign "underlying resolver returned no addresses"))
          else ok addresses
    ]

pub data Call : Type 0 where
  sets_source : Option ℕ → Call
  sets_resolver : String → Option ℕ → Call

unfoldable pub step : Cache → Call → Cache
unfolding set_resolver_source set_resolver
step c (sets_source s) = set_resolver_source c s
step c (sets_resolver identity r) = set_resolver c identity r

unfoldable pub run : Cache → List Call → Cache
run c [] = c
run c (x ∷ xs) = run (step c x) xs

step_moves : (c : Cache) (x : Call) → (step c x ≡ c) ⊎ ((step c x).revision ≡ u64 (c.revision + 1))
unfolding step
step_moves c (sets_source s) = inr refl
step_moves c (sets_resolver identity r) = ground arith

-- How far a history has moved the revision.
abbrev Moved : Cache → Cache → ℕ → ℕ → Type 0
Moved c d n k = (n ≤ k) × (d.revision ≡ u64 (c.revision + n)) × ((d ≡ c) ⊎ (0 < n))

run_moves :
    (c : Cache) (cs : List Call) → c.revision < u64_mod → (n : ℕ) × Moved c (run c cs) n (length cs)
unfolding run
run_moves c [] b = (0, (omega arith, omega arith, inl refl))
run_moves c (x ∷ cs) b = elim (step_moves c x) [
  | inl e ↦
      let (n, m) = run_moves c cs b in
      let r = ap (λ d. run d cs) e in
      let same : (run (step c x) cs ≡ c) ⊎ (0 < n) = elim m.2 [
        | inl q ↦ inl (r ∙ q)
        | inr q ↦ inr q
      ] in
      (n, (omega (arith, m.0), ap (λ d. d.revision) r ∙ m.1, same))
  | inr e ↦
      let (n, m) = run_moves (step c x) cs (omega (arith, e)) in
      (n + 1, (omega (arith, m.0), omega (arith, m.1, e), inr (omega arith)))
]

-- A late answer is never used on another network: if a lookup succeeds, then whatever was set
-- between the question and the answer, by fewer than 2 ^ 64 calls, the cache is the one that was
-- asked, and the answer is the resolver's own, not empty, without an error and within the context.
pub verdict-current :
    (c : Cache) (cs : List Call) (context : Option GoError) (addresses found : List ℕ)
    (e : Option GoError)
    → c.revision < u64_mod
    → length cs < u64_mod
    → verdict c.revision (run c cs) context addresses e ≡ ok found
    → (run c cs ≡ c) × (found ≡ addresses) × (found ≢ []) × (e ≡ none) × (context ≡ none)
unfolding verdict
verdict-current c cs context addresses found e b l h =
    let (n, m) = run_moves c cs b in
    (ground (arith, m.0, m.1, m.2), ground arith, ground arith, ground arith, ground arith)

-- Where a source is set, a capture of the network that the cache has, with a resolver, keeps the
-- resolver and the revision; a capture of another takes the new resolver, under a new revision.
pub capture-network :
    (c : Cache) (n : ℕ) (identity : String) (resolver : Option ℕ)
    → c.source ≡ some n
    → c.revision < u64_mod
    → let r = capture c (ok (identity, resolver)) in
      (r.1 ≡ none)
      × (((c.identity ≡ identity) × (is_some c.resolver ≡ true) × (r.0 ≡ c))
          ⊎ ((r.0.identity ≡ identity) × (r.0.resolver ≡ resolver) × (r.0.revision ≢ c.revision)))
unfolding capture
capture-network c n identity resolver s b =
    (ground arith, ground (arith, eq_iff c.identity identity))
