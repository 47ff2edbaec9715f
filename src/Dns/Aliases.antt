-- ===== src/Dns/Aliases.antt =====
-- core/dnscache/resolver_wire.go: the walk over CNAME records in queryCapturedDNSServer. Names are
-- numbers, one for all the spellings that EqualFold and Fqdn identify.
use dobby_vpn.Common.{
  ℕ, zero, suc, ◌+◌, ◌<◌, ◌≤◌, Bool, true, false, not, ◌||◌, List, [], ◌∷◌, Option, none, some, ◌≡◌,
  ◌≢◌, arith, if◌then◌else◌, ◌==◌, inl, inr, length, contains, Option-cases,
}
use dobby_vpn.Failure.{Result, ok, err, foreign}

pub data Kind : Type 0 where
  a_record aaaa_record : Kind

-- An answer record: its name and its data. An address is its number.
pub data Content : Type 0 where
  a aaaa cname : ℕ → Content
  other : Content

pub record Record : Type 0 where
  pub name : ℕ
  pub content : Content

-- dns.Msg, as far as it is read.
pub data Code : Type 0 where
  success name_error other_code : Code

pub record Response : Type 0 where
  pub code : Code
  pub answer : List Record

abbrev add_content : Kind → Content → List ℕ × Option ℕ → List ℕ × Option ℕ
add_content Kind.a_record (Content.a n) r = (n ∷ r.0, r.1)
add_content Kind.aaaa_record (Content.aaaa n) r = (n ∷ r.0, r.1)
add_content _ _ r = r

abbrev last_alias : Content → Option ℕ → Option ℕ
last_alias (Content.cname n) none = some n
last_alias _ later = later

-- capturedDNSAnswerRecords: the addresses in order, and the last alias.
unfoldable pub answer_records : List Record → ℕ → Kind → List ℕ × Option ℕ
answer_records [] name kind = ([], none)
answer_records (r ∷ rs) name kind =
    let rest = answer_records rs name kind in
    if r.name == name
    then add_content kind r.content (rest.0, last_alias r.content rest.1)
    else rest

unfoldable pub is_present : List Record → ℕ → Bool
is_present [] name = false
is_present (r ∷ rs) name = r.name == name || is_present rs name

-- How the walk over one response ends: with addresses (perhaps none), in a loop, with an alias
-- that the response does not resolve, or without fuel.
pub data Walk : Type 0 where
  found : List ℕ → Walk
  loops : ℕ → Walk
  asks : List ℕ → ℕ → Walk
  stuck : Walk

abbrev is_nil : List ℕ → Bool
is_nil [] = true
is_nil (x ∷ xs) = false

-- The inner loop: `seen` holds the names walked over.
unfoldable pub walk : ℕ → List Record → Kind → List ℕ → ℕ → Walk
walk zero rs kind seen name = stuck
walk (suc f) rs kind seen name = elim (answer_records rs name kind).1 [
  | none ↦ found (answer_records rs name kind).0
  | some alias ↦ elim (not (is_nil (answer_records rs name kind).0)) [
    | true ↦ found (answer_records rs name kind).0
    | false ↦ elim (contains alias seen) [
      | true ↦ loops alias
      | false ↦ elim (is_present rs alias) [
        | true ↦ walk f rs kind (alias ∷ seen) alias
        | false ↦ asks seen alias
      ]
    ]
  ]
]

-- The records whose name is not among the seen ones: how many rounds may still come.
pub unseen : List Record → List ℕ → ℕ
unseen [] seen = 0
unseen (r ∷ rs) seen = if contains r.name seen then unseen rs seen else unseen rs seen + 1

unseen_mono : (rs : List Record) (n : ℕ) (seen : List ℕ) → unseen rs (n ∷ seen) ≤ unseen rs seen
unfolding unseen
unseen_mono [] n seen = omega arith
unseen_mono (r ∷ rs) n seen = ground (arith, unseen_mono rs n seen)

-- A round to a name of the response that was not seen leaves fewer.
unseen-falls :
    (rs : List Record) (n : ℕ) (seen : List ℕ)
    → is_present rs n ≡ true
    → contains n seen ≡ false
    → unseen rs (n ∷ seen) < unseen rs seen
unfolding unseen is_present
unseen-falls [] n seen p h = cc
unseen-falls (r ∷ rs) n seen p h = ground (arith, unseen_mono rs n seen, unseen-falls rs n seen)

unseen-le : (rs : List Record) (seen : List ℕ) → unseen rs seen ≤ length rs
unfolding unseen
unseen-le [] seen = omega arith
unseen-le (r ∷ rs) seen = ground (arith, unseen-le rs seen)

walk_ends :
    (f : ℕ) (rs : List Record) (kind : Kind) (seen : List ℕ) (name : ℕ)
    → unseen rs seen < f
    → walk f rs kind seen name ≢ stuck
unfolding walk
walk_ends zero rs kind seen name h = absurd (omega arith)
walk_ends (suc f) rs kind seen name h = elim (Option-cases (answer_records rs name kind).1) [
  | inl e ↦ rw (e, walk) (λ p. cc)
  | inr (alias, e) ↦
      rw (e, walk)
        (ground (arith, unseen-falls rs alias seen, walk_ends f rs kind (alias ∷ seen) alias))
]

-- The walk over a response of n records ends within n + 1 rounds: the aliases that it follows are
-- names of the response, each at most once.
pub walk-ne-stuck :
    (rs : List Record) (kind : Kind) (seen : List ℕ) (name : ℕ)
    → walk (length rs + 1) rs kind seen name ≢ stuck
walk-ne-stuck rs kind seen name =
    walk_ends (length rs + 1) rs kind seen name (omega (arith, unseen-le rs seen))

-- The outer loop asks a server for each alias that a response does not resolve; the loop lasts
-- until the query's context ends, which the fuel stands for.
abbrev answer_of : Code → Walk → Result (List ℕ) → (List ℕ → ℕ → Result (List ℕ)) → Result (List ℕ)
answer_of Code.name_error w stop more = err (foreign "no such host")
answer_of Code.other_code w stop more = err (foreign "DNS response code")
answer_of Code.success (found l) stop more = ok l
answer_of Code.success (loops n) stop more = err (foreign "DNS alias loop")
answer_of Code.success (asks seen n) stop more = more seen n
answer_of Code.success stuck stop more = stop

unfoldable pub query : ℕ → (ℕ → Result Response) → Kind → List ℕ → ℕ → Result (List ℕ)
unfolding walk answer_records is_present
query zero exchange kind seen name = err (foreign "context deadline exceeded")
query (suc f) exchange kind seen name = elim (contains name seen) [
  | true ↦ err (foreign "DNS alias loop")
  | false ↦ elim (exchange name) [
    | err e ↦ err e
    | ok r ↦
        answer_of r.code (walk (length r.answer + 1) r.answer kind (name ∷ seen) name)
          (err (foreign "context deadline exceeded")) (query f exchange kind)
  ]
]
