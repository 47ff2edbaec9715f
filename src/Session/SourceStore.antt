-- ===== src/Session/SourceStore.antt =====
-- core/sessionapi/source_store.go: the file that keeps the accepted configuration URL.
pub mod Replacement
use dobby_vpn.Common.{
  String, ℕ, ◌+◌, ◌<◌, ◌≤◌, Bool, true, false, not, ◌&&◌, ◌||◌, List, [], ◌∷◌, ◌++◌, Option, none,
  some, ◌==◌, ltb, ◌≡◌, ◌⊎◌, inl, inr, refl, arith, Text, trim_space, is_some, if◌then◌else◌,
}
use dobby_vpn.Failure.{GoError, Result, ok, err, foreign, formatted}

-- The bytes of a text.
abbrev pub width : ℕ → ℕ
width c = if ltb c 128 then 1 else if ltb c 2048 then 2 else if ltb c 65536 then 3 else 4

unfoldable pub byte_length : Text → ℕ
byte_length [] = 0
byte_length (c ∷ s) = width c + byte_length s

abbrev pub max_stored_source_url : ℕ
max_stored_source_url = 1048576

-- What os.Lstat finds under a name. A regular file that cannot be read is `locked`.
pub data Entry : Type 0 where
  absent directory link special : Entry
  regular : Text → Entry
  locked unreadable : GoError → Entry

-- The store's file, and the directory that it is in with that directory's parents, up to the root. Without
-- a `path`, there is none.
pub record FileSourceStore : Type 0 where
  pub path : Bool
  pub ancestors : List Entry
  pub file : Entry

-- What a validation finds: nothing, an error of os.ErrNotExist, or another one.
pub data Verdict : Type 0 where
  valid not_exist : Verdict
  invalid : GoError → Verdict

unfoldable pub validate_no_symlink_ancestors : List Entry → Verdict
validate_no_symlink_ancestors [] = valid
validate_no_symlink_ancestors (link ∷ l) =
    invalid (foreign "saved configuration path contains a symbolic link")
validate_no_symlink_ancestors (unreadable e ∷ l) = invalid e
validate_no_symlink_ancestors (absent ∷ l) = validate_no_symlink_ancestors l
validate_no_symlink_ancestors (directory ∷ l) = validate_no_symlink_ancestors l
validate_no_symlink_ancestors (special ∷ l) = validate_no_symlink_ancestors l
validate_no_symlink_ancestors (regular t ∷ l) = validate_no_symlink_ancestors l
validate_no_symlink_ancestors (locked e ∷ l) = validate_no_symlink_ancestors l

abbrev pub then_validate : Verdict → Verdict → Verdict
then_validate valid v = v
then_validate not_exist v = not_exist
then_validate (invalid e) v = invalid e

abbrev pub validate_directory : List Entry → Verdict
validate_directory [] = not_exist
validate_directory (directory ∷ l) = valid
validate_directory (absent ∷ l) = not_exist
validate_directory (unreadable e ∷ l) = invalid e
validate_directory _ = invalid (foreign "saved configuration directory is not a real directory")

abbrev pub validate_file : Entry → Verdict
validate_file absent = valid
validate_file (unreadable e) = invalid e
validate_file (regular t) = valid
validate_file (locked e) = valid
validate_file _ = invalid (foreign "saved configuration URL is not a regular file")

unfoldable pub validate_source_path : FileSourceStore → Verdict
unfolding validate_no_symlink_ancestors
validate_source_path s =
    then_validate (validate_no_symlink_ancestors s.ancestors)
      (then_validate (validate_directory s.ancestors) (validate_file s.file))

-- os.ReadFile, and the bound: none where there is no file.
abbrev pub read_file : Entry → Result (Option Text)
read_file absent = ok none
read_file (regular t) =
    if ltb max_stored_source_url (byte_length t)
    then err (foreign "saved configuration URL exceeds 1048576 bytes")
    else ok (some t)
read_file (locked e) = err e
read_file (unreadable e) = err e
read_file _ = err (foreign "is a directory")

abbrev pub read_valid : Verdict → Entry → Result (Option Text)
read_valid valid file = read_file file
read_valid not_exist file = ok none
read_valid (invalid e) file = err e

-- read, and the error that is os.ErrNotExist as none.
unfoldable pub read : FileSourceStore → Result (Option Text)
unfolding byte_length validate_source_path
read s = if s.path then read_valid (validate_source_path s) s.file else ok none

-- Load; `context` is ctx.Err().
unfoldable pub load : Option GoError → FileSourceStore → Result (Option Text)
unfolding read
load none s = read s
load (some e) s = err e

-- The calls of a Save that the system may refuse.
pub data SaveCall : Type 0 where
  creates_directory creates_temporary restricts_temporary writes flushes closes : SaveCall
  replaces restricts : SaveCall

-- MkdirAll.
abbrev pub made : List Entry → List Entry
made [] = []
made (absent ∷ l) = directory ∷ made l
made (directory ∷ l) = directory ∷ made l
made (e ∷ l) = e ∷ made l

abbrev pub with_prefix : String → Option GoError → Option GoError
with_prefix prefix none = none
with_prefix prefix (some e) = some (formatted prefix e)

-- What comes after a call, unless that is refused.
unfoldable pub unless :
    Option GoError
    → FileSourceStore
    → FileSourceStore × Option GoError
    → FileSourceStore × Option GoError
unless (some e) s rest = (s, some e)
unless none s rest = rest

unfoldable pub checks :
    Verdict → FileSourceStore → FileSourceStore × Option GoError → FileSourceStore × Option GoError
checks valid s rest = rest
checks not_exist s rest = (s, some (foreign "file does not exist"))
checks (invalid e) s rest = (s, some e)

-- The store while it is saved, and what the temporary file has, where there is one.
pub record Replacing : Type 0 where
  pub temporary : Option Text
  pub store : FileSourceStore

abbrev append_to : Option Text → Text → Option Text
append_to none raw = none
append_to (some t) raw = some (t ++ raw)

-- os.Rename of the temporary file.
abbrev renamed : Option Text → FileSourceStore → FileSourceStore
renamed none s = s
renamed (some t) s = record s { file = regular t }

-- A call that is not refused. What a Write that fails has written is never read: the temporary file
-- is removed then.
unfoldable pub perform : SaveCall → Text → Replacing → Replacing
perform creates_temporary raw t = record t { temporary = some [] }
perform writes raw t = record t { temporary = append_to t.temporary raw }
perform replaces raw t = record { temporary = none; store = renamed t.temporary t.store }
perform _ raw t = t

-- The calls from the temporary file on, up to the first that is refused.
unfoldable pub run_calls :
    (SaveCall → Option GoError)
    → Text
    → List (SaveCall × String)
    → Replacing
    → Replacing × Option GoError
unfolding perform
run_calls refused raw [] t = (t, none)
run_calls refused raw ((c, prefix) ∷ l) t = elim (refused c) [
  | some e ↦ (t, some (formatted prefix e))
  | none ↦ run_calls refused raw l (perform c raw t)
]

abbrev pub replacing : List (SaveCall × String)
replacing =
    (creates_temporary, "create saved configuration temporary file")
    ∷ (restricts_temporary, "restrict saved configuration permissions")
    ∷ (writes, "write saved configuration URL")
    ∷ (flushes, "flush saved configuration URL")
    ∷ (closes, "close saved configuration URL")
    ∷ (replaces, "replace saved configuration URL")
    ∷ (restricts, "restrict saved configuration permissions")
    ∷ []

unfoldable pub replace :
    (SaveCall → Option GoError) → Text → FileSourceStore → FileSourceStore × Option GoError
unfolding run_calls
replace refused raw s =
    let r = run_calls refused raw replacing (record { temporary = none; store = s }) in
    (r.0.store, r.1)

-- From the first validation on.
unfoldable pub prepare :
    (SaveCall → Option GoError) → Text → FileSourceStore → FileSourceStore × Option GoError
unfolding validate_source_path replace unless checks
prepare refused raw s = checks (validate_no_symlink_ancestors s.ancestors) s (
    unless (with_prefix "create saved configuration directory" (refused creates_directory)) s (
      let d = record s { ancestors = made s.ancestors } in
      checks (validate_source_path d) d (replace refused raw d)))

abbrev pub is_blank : Text → Bool
is_blank [] = true
is_blank (c ∷ t) = false

unfoldable pub save :
    Option GoError
    → (SaveCall → Option GoError)
    → Text
    → FileSourceStore
    → FileSourceStore × Option GoError
unfolding byte_length trim_space prepare
save (some e) refused raw s = (s, some e)
save none refused raw s =
    if byte_length raw == 0 || ltb max_stored_source_url (byte_length raw)
    then (s, some (foreign "saved configuration URL must contain 1 to 1048576 bytes"))
    else if is_blank (trim_space raw)
    then (s, some (foreign "saved configuration URL is empty"))
    else prepare refused raw s

abbrev pub clear_valid :
    Verdict → Option GoError → FileSourceStore → FileSourceStore × Option GoError
clear_valid (invalid e) refused s = (s, some e)
clear_valid not_exist refused s = (s, none)
clear_valid valid refused s =
    unless (with_prefix "remove saved configuration URL" refused) s
      (record s { file = absent }, none)

-- Clear; `refused` is the error of os.Remove, other than os.ErrNotExist.
unfoldable pub clear :
    Option GoError → Option GoError → FileSourceStore → FileSourceStore × Option GoError
unfolding validate_source_path unless
clear (some e) refused s = (s, some e)
clear none refused s = clear_valid (validate_source_path s) refused s
