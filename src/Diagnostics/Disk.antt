-- ===== src/Diagnostics/Disk.antt =====
-- The files that core/diagnostics/legacy.go works on: what the functions of package os that it calls
-- do, each of which the system may refuse.
pub mod Triples
use dobby_vpn.Common.{
  ℕ, Bool, true, false, List, [], ◌∷◌, Option, none, some, ◌==◌, ◌&&◌, if◌then◌else◌, leb, length,
}
use dobby_vpn.Failure.{GoError, Result, ok, err, foreign}
use dobby_vpn.Diagnostics.Migration.{Found, missing, irregular, regular}

-- The names that belong to one history: its two generations, those of its stage, the marker and the
-- file that the marker is written to.
pub data Part : Type 0 where
  current previous stage stage_previous marker marker_temp : Part

abbrev pub part_number : Part → ℕ
part_number current = 0
part_number previous = 1
part_number stage = 2
part_number stage_previous = 3
part_number marker = 4
part_number marker_temp = 5

-- A history is named by a number.
abbrev pub Files : Type 0
Files = ℕ → Part → Found

-- `refusals` tells of each call whether the system refuses it; from where the list ends on, none is.
pub record Disk : Type 0 where
  pub files : Files
  pub refusals : List Bool

abbrev pub put : Files → ℕ → Part → Found → Files
put f h p t k q = if h == k && part_number p == part_number q then t else f k q

abbrev pub M : Type 0 → Type 0
M A = Disk → Disk × Result A

abbrev pub pure : {A : Type 0} → A → M A
pure a d = (d, ok a)

abbrev pub fail : {A : Type 0} → GoError → M A
fail e d = (d, err e)

-- What follows a call that has returned, or not.
unfoldable pub next : {A B : Type 0} → (A → M B) → Disk × Result A → Disk × Result B
next f (d, ok a) = f a d
next f (d, err e) = (d, err e)

infixl 5 ◌>>=◌ ◌>>◌
abbrev pub ◌>>=◌ : {A B : Type 0} → M A → (A → M B) → M B
◌>>=◌ m f d = next f (m d)

abbrev pub ◌>>◌ : {B : Type 0} → M (Unit {0}) → M B → M B
m >> k = m >>= λ _. k

-- One call of the system: what it does to the files, and what it answers, where it is not refused. A
-- refused call does nothing.
unfoldable pub called :
    {A : Type 0} → (Files → Files) → (Files → Result A) → Files → List Bool → Disk × Result A
called change answer f [] = (record { files = change f; refusals = [] }, answer f)
called change answer f (true ∷ rest) =
    (record { files = f; refusals = rest }, err (foreign "refused"))
called change answer f (false ∷ rest) = (record { files = change f; refusals = rest }, answer f)

unfoldable pub call : {A : Type 0} → (Files → Files) → (Files → Result A) → M A
unfolding called
call change answer d = called change answer d.files d.refusals

-- removeIfPresent. The system's refusal to remove what is no regular file is one of its refusals.
unfoldable pub remove_if_present : ℕ → Part → M (Unit {0})
unfolding call
remove_if_present h p = call (λ f. put f h p missing) (λ f. ok tt)

abbrev pub present : Found → Bool
present missing = false
present irregular = true
present (regular b) = true

-- os.Stat: whether there is a file of the name.
unfoldable pub stat : ℕ → Part → M Bool
unfolding call
stat h p = call (λ f. f) (λ f. ok (present (f h p)))

-- publishFile, of a file that is there: what has the destination's name is replaced.
unfoldable pub publish_file : ℕ → Part → Part → M (Unit {0})
unfolding call
publish_file h p q = call (λ f. put (put f h q (f h p)) h p missing) (λ f. ok tt)

-- syncDirectory, or the Chmod, Sync and Close of a file.
unfoldable pub sync : M (Unit {0})
unfolding call
sync = call (λ f. f) (λ f. ok tt)

-- os.MkdirAll, of the directory that the files are in.
unfoldable pub make_directory : M (Unit {0})
unfolding call
make_directory = call (λ f. f) (λ f. ok tt)

-- A file that is opened, found regular and closed; none where there is none.
abbrev pub contents : Found → Result (Option (List ℕ))
contents missing = ok none
contents irregular = err (foreign "not a regular file")
contents (regular b) = ok (some b)

unfoldable pub read_regular : ℕ → Part → M (Option (List ℕ))
unfolding call
read_regular h p = call (λ f. f) (λ f. contents (f h p))

-- A file that is written.
unfoldable pub write_file : ℕ → Part → List ℕ → M (Unit {0})
unfolding call
write_file h p b = call (λ f. put f h p (regular b)) (λ f. ok tt)
