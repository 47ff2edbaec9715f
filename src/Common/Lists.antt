-- ===== src/Common/Lists.antt =====
-- Lists measured and indexed by native numbers, under the library's names.
use Prim.Native.Nat.{ℕ, zero, suc, ◌+◌, ◌<◌, compare, Ordering}
use mathlib.Core.Path.{◌≡◌, refl}
use mathlib.Core.Logic.{◌⊎◌, inl, inr}
use mathlib.Core.Bool.{Bool, true, false}
use mathlib.Core.List.{List, [], ◌∷◌, ◌++◌}
use mathlib.Core.Option.{Option, none, some}
use dobby_vpn.Common.Tests.{◌==◌, if◌then◌else◌}
use native.Mathlib.Omega.{arith}

module _ {ℓ} {A : Type ℓ} where
  abbrev pub length : List A → ℕ
  length [] = 0
  length (x ∷ xs) = suc (length xs)

  abbrev pub get_elem? : List A → ℕ → Option A
  get_elem? [] i = none
  get_elem? (x ∷ xs) zero = some x
  get_elem? (x ∷ xs) (suc i) = get_elem? xs i

  pub length-append : (xs ys : List A) → length (xs ++ ys) ≡ length xs + length ys
  length-append [] ys = omega arith
  length-append (x ∷ xs) ys = omega (arith, length-append xs ys)

  -- A predicate on every element, which computes to a tuple.
  abbrev pub All {κ} : (A → Type κ) → List A → Type κ
  All P [] = Unit
  All P (x ∷ xs) = P x × All P xs

pub List-cases {ℓ} : {A : Type ℓ} (l : List A) → (l ≡ []) ⊎ ((x : A) × (xs : List A) × (l ≡ x ∷ xs))
List-cases [] = inl refl
List-cases (x ∷ xs) = inr (x, xs, refl)

-- Whether a number is in a list.
abbrev pub contains : ℕ → List ℕ → Bool
contains a [] = false
contains a (x ∷ xs) = elim (compare a x) [ Ordering.eq ↦ true | _ ↦ contains a xs ]

-- How often a number stands in a list.
unfoldable pub count : ℕ → List ℕ → ℕ
count a [] = 0
count a (x ∷ xs) = let rest = count a xs in if x == a then rest + 1 else rest

pub count-append : (a : ℕ) (xs ys : List ℕ) → count a (xs ++ ys) ≡ count a xs + count a ys
unfolding count
count-append a [] ys = omega arith
count-append a (x ∷ xs) ys = ground (arith, count-append a xs ys)

pub contains-count : (a : ℕ) (l : List ℕ) → contains a l ≡ true → 0 < count a l
unfolding count
contains-count a [] h = cc
contains-count a (x ∷ xs) h = ground (arith, contains-count a xs)

pub not-contains-count : (a : ℕ) (l : List ℕ) → contains a l ≡ false → count a l ≡ 0
unfolding count
not-contains-count a [] h = refl
not-contains-count a (x ∷ xs) h = ground (arith, not-contains-count a xs)

-- A list in which nothing stands.
pub no_count : (l : List ℕ) → ((d : ℕ) → count d l ≡ 0) → l ≡ []
unfolding count
no_count [] h = refl
no_count (x ∷ xs) h = absurd (ground (arith, h x))

-- Whether a value is in a list, as a sum of equations.
abbrev pub Within : {A : Type 0} → A → List A → Type 0
Within a [] = ⊥
Within a (x ∷ xs) = (x ≡ a) ⊎ Within a xs
