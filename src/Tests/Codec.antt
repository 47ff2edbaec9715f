-- ===== src/Tests/Codec.antt =====
-- A codec of saved activations, to show that the JSON package's laws can hold.
use Prim.Native.String.compare
use Prim.Native.String.{[], ◌∷◌}
use text.Mathlib.Text.{is_eq}
use Prim.Native.Char.{Char, code}
use dobby_vpn.Common.{
  ℕ, zero, suc, Bool, true, false, String, ℤ, pos, negsuc, ◌≡◌, refl, ap, ◌==◌, if◌then◌else◌,
}
use dobby_vpn.Failure.{ok}
use dobby_vpn.Session.Types.{StartMode}
use dobby_vpn.Session.Guards.{is_empty}
use dobby_vpn.Session.Activation.{SavedActivation, Json}

-- The letter that marks a case, and the other one.
abbrev mark : Bool → Char
mark true = "1"
mark false = "0"

abbrev is_one : Char → Bool
is_one c = code c == 49

unfoldable put_number : ℕ → String → String
put_number zero s = mark false ∷ s
put_number (suc n) s = mark true ∷ put_number n s

unfoldable get_number : String → ℕ × String
get_number [] = (0, [])
get_number (c ∷ s) = let r = get_number s in if is_one c then (suc r.0, r.1) else (0, s)

get-put_number : (n : ℕ) (s : String) → get_number (put_number n s) ≡ (n, s)
unfolding put_number get_number
get-put_number zero s = refl
get-put_number (suc n) s = rw (get-put_number n s) refl

unfoldable put_text : String → String → String
put_text [] s = mark false ∷ s
put_text (c ∷ t) s = mark true ∷ c ∷ put_text t s

unfoldable get_text : String → String × String
get_text [] = ([], [])
get_text (c ∷ []) = ([], [])
get_text (c ∷ d ∷ s) = let r = get_text s in if is_one c then (d ∷ r.0, r.1) else ([], d ∷ s)

get-put_text : (t s : String) → get_text (put_text t s) ≡ (t, s)
unfolding put_text get_text
get-put_text [] [] = refl
get-put_text [] (c ∷ s) = refl
get-put_text (c ∷ t) s = rw (get-put_text t s) refl

unfoldable put_int : ℤ → String → String
unfolding put_number
put_int (pos n) s = mark true ∷ put_number n s
put_int (negsuc n) s = mark false ∷ put_number n s

unfoldable get_int : String → ℤ × String
unfolding get_number
get_int [] = (pos 0, [])
get_int (c ∷ s) = let r = get_number s in if is_one c then (pos r.0, r.1) else (negsuc r.0, r.1)

get-put_int : (i : ℤ) (s : String) → get_int (put_int i s) ≡ (i, s)
unfolding put_int get_int
get-put_int (pos n) s = rw (get-put_number n s) refl
get-put_int (negsuc n) s = rw (get-put_number n s) refl

unfoldable put_mode : StartMode → String → String
unfolding put_text
put_mode StartMode.auto_select s = mark true ∷ mark true ∷ s
put_mode StartMode.profile_index s = mark true ∷ mark false ∷ s
put_mode (StartMode.other_mode t) s = mark false ∷ mark false ∷ put_text t s

unfoldable get_mode : String → StartMode × String
unfolding get_text
get_mode [] = (StartMode.auto_select, [])
get_mode (c ∷ []) = (StartMode.auto_select, [])
get_mode (c ∷ d ∷ s) =
    let r = get_text s in
    if is_one c
    then (if is_one d then StartMode.auto_select else StartMode.profile_index, s)
    else (StartMode.other_mode r.0, r.1)

get-put_mode : (m : StartMode) (s : String) → get_mode (put_mode m s) ≡ (m, s)
unfolding put_mode get_mode
get-put_mode StartMode.auto_select s = refl
get-put_mode StartMode.profile_index s = refl
get-put_mode (StartMode.other_mode t) s = rw (get-put_text t s) refl

unfoldable get_flag : String → Bool × String
get_flag [] = (false, [])
get_flag (c ∷ s) = (is_one c, s)

get-put_flag : (b : Bool) (s : String) → get_flag (mark b ∷ s) ≡ (b, s)
unfolding get_flag
get-put_flag true s = refl
get-put_flag false s = refl

unfoldable put : SavedActivation → String
put a = mark a.enabled ∷ put_int a.version (put_mode a.mode (put_int a.index a.digest))

unfoldable get : String → SavedActivation
get s =
    let e = get_flag s in
    let v = get_int e.1 in
    let m = get_mode v.1 in
    let i = get_int m.1 in
    record { version = v.0; enabled = e.0; mode = m.0; index = i.0; digest = i.1 }

get-put : (a : SavedActivation) → get (put a) ≡ a
unfolding get put
get-put a =
    rw
      (
        get-put_flag a.enabled (put_int a.version (put_mode a.mode (put_int a.index a.digest))),
        get-put_int a.version (put_mode a.mode (put_int a.index a.digest)),
        get-put_mode a.mode (put_int a.index a.digest),
        get-put_int a.index a.digest,
      )
      refl

put-full : (a : SavedActivation) → is_empty (put a) ≡ false
unfolding put
put-full a = ap is_eq (compare.cons-nil _ _)

pub codec : Json
codec = record {
  marshal = put;
  unmarshal = λ s. ok (get s);
  round_trip = λ a. rw (get-put a) refl;
  not_empty = put-full;
}
