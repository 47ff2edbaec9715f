-- ===== src/Common/Texts.antt =====
-- Texts as lists of code points, where the program walks them.
use Prim.Native.Nat.{ℕ, zero, suc, ◌+◌, ◌/◌, ◌%◌}
use Prim.Native.Char.{code}
use Prim.Native.String.{String}
use mathlib.Core.Bool.{Bool, true, false, ◌&&◌, ◌||◌}
use mathlib.Core.List.{List, [], ◌∷◌, ◌++◌}
use dobby_vpn.Common.Tests.{◌==◌, leb, if◌then◌else◌}
use dobby_vpn.Common.Lists.{contains}

abbrev pub Text : Type 0
Text = List ℕ

-- `String` has its own `[]` and `∷`.
abbrev pub codes : String → Text
codes String.[] = []
codes (String.◌∷◌ c s) = code c ∷ codes s

unfoldable pub same : List ℕ → List ℕ → Bool
same [] [] = true
same (x ∷ xs) (y ∷ ys) = let rest = same xs ys in if x == y then rest else false
same _ _ = false

unfoldable pub starts_with : List ℕ → List ℕ → Bool
starts_with [] l = true
starts_with (x ∷ xs) [] = false
starts_with (x ∷ xs) (y ∷ ys) = let rest = starts_with xs ys in if x == y then rest else false

abbrev pub drop : ℕ → List ℕ → List ℕ
drop zero l = l
drop (suc n) [] = []
drop (suc n) (x ∷ l) = drop n l

-- strings.TrimSpace, with unicode.IsSpace.
abbrev pub is_space : ℕ → Bool
is_space c =
    leb 9 c && leb c 13
    || contains c (32 ∷ 0x85 ∷ 0xa0 ∷ 0x1680 ∷ 0x2028 ∷ 0x2029 ∷ 0x202f ∷ 0x205f ∷ 0x3000 ∷ [])
    || leb 0x2000 c && leb c 0x200a

abbrev pub trim_left : (ℕ → Bool) → List ℕ → List ℕ
trim_left p [] = []
trim_left p (c ∷ cs) = let rest = trim_left p cs in if p c then rest else c ∷ cs

abbrev pub trim_right : (ℕ → Bool) → List ℕ → List ℕ
trim_right p [] = []
trim_right p (c ∷ cs) = elim (trim_right p cs) [
  | [] ↦ if p c then [] else c ∷ []
  | d ∷ ds ↦ c ∷ d ∷ ds
]

unfoldable pub trim_space : List ℕ → List ℕ
trim_space s = trim_right is_space (trim_left is_space s)

-- The text up to the first `c`, and all of it where there is none.
unfoldable pub before : ℕ → Text → Text
before c [] = []
before c (x ∷ xs) = let rest = before c xs in if x == c then [] else x ∷ rest

-- The decimal digits of a number below 10 ^ `places`.
unfoldable pub decimal : ℕ → ℕ → Text
decimal zero n = []
decimal (suc places) n =
    let rest = decimal places (n / 10) in
    if n / 10 == 0 then (n + 48) ∷ [] else rest ++ ((n % 10 + 48) ∷ [])
