-- ===== src/Session/SourceStore/Replacement.antt =====
-- What a Save, a Clear and a Load of the saved URL have to do with each other.
use dobby_vpn.Common.{
  ◌≤◌, true, ◌||◌, Option, none, some, ◌==◌, ltb, ◌≡◌, ◌⊎◌, inl, inr, refl, ◌∙◌, arith, Text,
  trim_space, is_some, Bool-cases,
}
use dobby_vpn.Failure.{GoError, ok}
use dobby_vpn.Session.SourceStore.{
  creates_temporary, restricts_temporary, writes, flushes, closes, replaces, FileSourceStore, Entry,
  absent, regular, Verdict, valid, not_exist, invalid, SaveCall, restricts, creates_directory,
  validate_source_path, validate_no_symlink_ancestors, then_validate, validate_directory,
  validate_file, byte_length, max_stored_source_url, read, load, made, unless, with_prefix, perform,
  run_calls, checks, clear_valid, replace, prepare, is_blank, save, clear,
}

-- What a Save of `raw` that fails leaves.
abbrev Kept : (SaveCall → Option GoError) → Text → Entry → FileSourceStore → Type 0
Kept refused raw file t =
    (t.file ≡ file) ⊎ ((t.file ≡ regular raw) × (is_some (refused restricts) ≡ true))

abbrev Saved :
    (SaveCall → Option GoError) → Text → FileSourceStore → FileSourceStore × Option GoError → Type 0
Saved refused raw s t =
    ((t.1 ≡ none)
      × (t.0.file ≡ regular raw)
      × (validate_source_path t.0 ≡ valid)
      × (t.0.path ≡ s.path))
    ⊎ ((is_some t.1 ≡ true) × Kept refused raw s.file t.0)

unless_cases :
    (P : FileSourceStore × Option GoError → Type 0) (o : Option GoError) (s : FileSourceStore)
    (rest : FileSourceStore × Option GoError)
    → ((e : GoError) → o ≡ some e → P (s, some e))
    → (o ≡ none → P rest)
    → P (unless o s rest)
unfolding unless
unless_cases P none s rest f r = r refl
unless_cases P (some e) s rest f r = f e refl

checks_cases :
    (P : FileSourceStore × Option GoError → Type 0) (v : Verdict) (s : FileSourceStore)
    (rest : FileSourceStore × Option GoError)
    → ((x : GoError) → P (s, some x))
    → (v ≡ valid → P rest)
    → P (checks v s rest)
unfolding checks
checks_cases P valid s rest f r = r refl
checks_cases P not_exist s rest f r = f _
checks_cases P (invalid e) s rest f r = f e

then_valid : (v w : Verdict) → then_validate v w ≡ valid → (v ≡ valid) × (w ≡ valid)
then_valid valid w h = (refl, h)
then_valid not_exist w h = absurd (ground (arith, h))
then_valid (invalid e) w h = absurd (ground (arith, h))

-- A new URL in the file does not make the path invalid.
replaced-valid :
    (raw : Text) (s : FileSourceStore)
    → validate_source_path s ≡ valid
    → validate_source_path (record s { file = regular raw }) ≡ valid
unfolding validate_source_path
replaced-valid raw s h =
    let a =
      then_valid (validate_no_symlink_ancestors s.ancestors)
        (then_validate (validate_directory s.ancestors) (validate_file s.file)) h in
    let b = then_valid (validate_directory s.ancestors) (validate_file s.file) a.1 in
    rw (a.0, b.0) refl

check-Saved :
    (refused : SaveCall → Option GoError) (raw : Text) (s d : FileSourceStore) (v : Verdict)
    (rest : FileSourceStore × Option GoError)
    → d.file ≡ s.file
    → (v ≡ valid → Saved refused raw s rest)
    → Saved refused raw s (checks v d rest)
check-Saved refused raw s d v rest f h =
    checks_cases (Saved refused raw s) v d rest (λ x. inr (refl, inl f)) h

replace-Saved :
    (refused : SaveCall → Option GoError) (raw : Text) (s d : FileSourceStore)
    → d.file ≡ s.file
    → d.path ≡ s.path
    → validate_source_path d ≡ valid
    → Saved refused raw s (replace refused raw d)
unfolding replace run_calls perform
replace-Saved refused raw s d f p v = ground (arith, f, p, replaced-valid raw d v)

prepare-Saved :
    (refused : SaveCall → Option GoError) (raw : Text) (s : FileSourceStore)
    → Saved refused raw s (prepare refused raw s)
unfolding prepare
prepare-Saved refused raw s =
    let d : FileSourceStore = record s { ancestors = made s.ancestors } in
    let last = checks (validate_source_path d) d (replace refused raw d) in
    let made_directory =
      with_prefix "create saved configuration directory" (refused creates_directory) in
    check-Saved refused raw s s (validate_no_symlink_ancestors s.ancestors)
      (unless made_directory s last) refl
      (λ _.
        unless_cases (Saved refused raw s) made_directory s last (λ e q. inr (refl, inl refl))
          (λ _.
            check-Saved refused raw s d (validate_source_path d) (replace refused raw d) refl
              (λ v. replace-Saved refused raw s d refl refl v)))

save-Saved :
    (context : Option GoError) (refused : SaveCall → Option GoError) (raw : Text)
    (s : FileSourceStore)
    → Saved refused raw s (save context refused raw s)
unfolding save
save-Saved (some e) refused raw s = inr (refl, inl refl)
save-Saved none refused raw s =
    elim (Bool-cases (byte_length raw == 0 || ltb max_stored_source_url (byte_length raw))) [
      | inl a ↦ rw a (inr (refl, inl refl))
      | inr a ↦ elim (Bool-cases (is_blank (trim_space raw))) [
        | inl b ↦ rw (a, b) (inr (refl, inl refl))
        | inr b ↦ rw (a, b) (prepare-Saved refused raw s)
      ]
    ]

-- All calls have succeeded.
abbrev pub IsGranted : (SaveCall → Option GoError) → Type 0
IsGranted refused =
    (refused creates_directory ≡ none)
    × (refused creates_temporary ≡ none)
    × (refused restricts_temporary ≡ none)
    × (refused writes ≡ none)
    × (refused flushes ≡ none)
    × (refused closes ≡ none)
    × (refused replaces ≡ none)
    × (refused restricts ≡ none)

-- A Save that succeeds has made all of them.
abbrev Complete : (SaveCall → Option GoError) → FileSourceStore × Option GoError → Type 0
Complete refused t = t.1 ≡ none → IsGranted refused

replace-Complete :
    (refused : SaveCall → Option GoError) (raw : Text) (s : FileSourceStore)
    → with_prefix "create saved configuration directory" (refused creates_directory) ≡ none
    → Complete refused (replace refused raw s)
unfolding replace run_calls
replace-Complete refused raw s q h = (
  ground (arith, q),
  ground (arith, h),
  ground (arith, h),
  ground (arith, h),
  ground (arith, h),
  ground (arith, h),
  ground (arith, h),
  ground (arith, h),
)

prepare-Complete :
    (refused : SaveCall → Option GoError) (raw : Text) (s : FileSourceStore)
    → Complete refused (prepare refused raw s)
unfolding prepare
prepare-Complete refused raw s =
    let d : FileSourceStore = record s { ancestors = made s.ancestors } in
    let last = checks (validate_source_path d) d (replace refused raw d) in
    let made_directory =
      with_prefix "create saved configuration directory" (refused creates_directory) in
    let P = Complete refused in
    checks_cases P (validate_no_symlink_ancestors s.ancestors) s (unless made_directory s last)
      (λ x h. absurd (ground (arith, h)))
      (λ _.
        unless_cases P made_directory s last (λ e q h. absurd (ground (arith, h)))
          (λ q.
            checks_cases P (validate_source_path d) d (replace refused raw d)
              (λ x h. absurd (ground (arith, h))) (λ _. replace-Complete refused raw d q)))

save-Complete :
    (context : Option GoError) (refused : SaveCall → Option GoError) (raw : Text)
    (s : FileSourceStore)
    → Complete refused (save context refused raw s)
unfolding save
save-Complete (some e) refused raw s h = absurd (ground (arith, h))
save-Complete none refused raw s h =
    elim (Bool-cases (byte_length raw == 0 || ltb max_stored_source_url (byte_length raw))) [
      | inl a ↦ absurd (ground (arith, a, h))
      | inr a ↦ elim (Bool-cases (is_blank (trim_space raw))) [
        | inl b ↦ absurd (ground (arith, a, b, h))
        | inr b ↦
            let p : (prepare refused raw s).1 ≡ none = ground (arith, a, b, h) in
            prepare-Complete refused raw s p
      ]
    ]

-- The saved URL is replaced whole or not at all, though it is written to a temporary file by calls any
-- of which may be refused: a Save that succeeds leaves the new URL, and none of its calls was refused;
-- one that fails leaves the old file, or the new URL where the restriction of the new file's
-- permissions was refused.
pub save-file :
    (context : Option GoError) (refused : SaveCall → Option GoError) (raw : Text)
    (s : FileSourceStore)
    → let t = save context refused raw s in
      ((t.1 ≡ none) × (t.0.file ≡ regular raw) × IsGranted refused)
      ⊎ ((is_some t.1 ≡ true)
          × ((t.0.file ≡ s.file)
              ⊎ ((t.0.file ≡ regular raw) × (is_some (refused restricts) ≡ true))))
save-file context refused raw s = elim (save-Saved context refused raw s) [
  | inl h ↦ inl (h.0, h.1, save-Complete context refused raw s h.0)
  | inr h ↦ inr h
]

save-short :
    (refused : SaveCall → Option GoError) (raw : Text) (s : FileSourceStore)
    → (save none refused raw s).1 ≡ none
    → byte_length raw ≤ max_stored_source_url
unfolding save
save-short refused raw s h =
    elim (Bool-cases (byte_length raw == 0 || ltb max_stored_source_url (byte_length raw))) [
      | inl a ↦ absurd (ground (arith, a, h))
      | inr a ↦ ground (arith, a)
    ]

read_saved :
    (raw : Text) (t : FileSourceStore)
    → t.path ≡ true
    → t.file ≡ regular raw
    → validate_source_path t ≡ valid
    → byte_length raw ≤ max_stored_source_url
    → read t ≡ ok (some raw)
unfolding read
read_saved raw t p f v l = ground (arith, p, f, v, l)

-- What is saved is what is loaded: after a Save that succeeds on a store with a path, Load returns the
-- very URL.
pub load-save :
    (refused : SaveCall → Option GoError) (raw : Text) (s : FileSourceStore)
    → s.path ≡ true
    → (save none refused raw s).1 ≡ none
    → load none (save none refused raw s).0 ≡ ok (some raw)
unfolding load
load-save refused raw s p h = elim (save-Saved none refused raw s) [
  | inr q ↦ absurd (ground (arith, h, q.0))
  | inl q ↦
      read_saved raw (save none refused raw s).0 (q.3 ∙ p) q.1 q.2 (save-short refused raw s h)
]

cleared-valid :
    (s : FileSourceStore)
    → validate_source_path s ≡ valid
    → validate_source_path (record s { file = absent }) ≡ valid
unfolding validate_source_path
cleared-valid s h =
    let a =
      then_valid (validate_no_symlink_ancestors s.ancestors)
        (then_validate (validate_directory s.ancestors) (validate_file s.file)) h in
    let b = then_valid (validate_directory s.ancestors) (validate_file s.file) a.1 in
    rw (a.0, b.0) refl

clear_valid-read :
    (v : Verdict) (refused : Option GoError) (s : FileSourceStore)
    → validate_source_path s ≡ v
    → (clear_valid v refused s).1 ≡ none
    → read (clear_valid v refused s).0 ≡ ok none
unfolding read unless
clear_valid-read (invalid e) refused s v h = absurd (ground (arith, h))
clear_valid-read not_exist refused s v h = ground (arith, v)
clear_valid-read valid (some e) s v h = absurd (ground (arith, h))
clear_valid-read valid none s v h = ground (arith, cleared-valid s v)

-- After a Clear that succeeds Load finds nothing.
pub load-clear :
    (refused : Option GoError) (s : FileSourceStore)
    → (clear none refused s).1 ≡ none
    → load none (clear none refused s).0 ≡ ok none
unfolding load clear
load-clear refused s h = clear_valid-read (validate_source_path s) refused s refl h
