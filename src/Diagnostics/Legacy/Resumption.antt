-- ===== src/Diagnostics/Legacy/Resumption.antt =====
-- What a commit that is interrupted, and finished later, comes to.
use dobby_vpn.Common.{
  ℕ, is_some, Bool, true, false, List, [], ◌∷◌, Option, none, some, ◌≡◌, ◌≢◌, ◌⊎◌, inl, inr, refl,
  arith, sym, All,
}
use dobby_vpn.Failure.{ok}
use dobby_vpn.Diagnostics.Migration.{missing, regular}
use dobby_vpn.Diagnostics.Disk.{
  Part, current, previous, marker, Files, Disk, put, remove_if_present, sync, read_regular,
  contents,
}
use dobby_vpn.Diagnostics.Disk.Triples.{
  Triple, then-Triple, call-Triple, pure-Triple, weaken-Triple, unrefused, either_way, read-Triple,
}
use dobby_vpn.Diagnostics.Legacy.{
  LegacySource, LegacyCommit, items, when, required, validate, validate_published_legacy,
  remove_sources, sync_sources, finish_legacy_commit,
}
use dobby_vpn.Diagnostics.Legacy.Publication.{
  HalfPrevious, PublishedPrevious, Others, Marked, Content, Midway, Complete, publish_stages-Triple,
}

required-Triple :
    (S : Type 0) (P : Files → Type 0) (a : Option (List ℕ))
    → Triple S (λ f. (is_some a ≡ true) × P f) (required a) (λ _ f. P f) P
required-Triple S P none = record { holds = λ d h. absurd (ground (arith, h.0)) }
required-Triple S P (some b) = pure-Triple S _ _ _ tt (λ f h. h.1)

validate-Triple :
    (S : Type 0) (path : ℕ) (p : Part) (c : List ℕ) (P : Files → Type 0)
    → ((f : Files) → P f → f path p ≡ regular c)
    → Triple S P (validate path p) (λ _ f. P f) P
unfolding validate read_regular
validate-Triple S path p c P h =
    then-Triple {Q = λ a f. (is_some a ≡ true) × P f}
      (read-Triple S P _ P (λ f. contents (f path p)) (λ f v. v) (λ f v. rw (h f v) (refl, v)))
      (λ a. required-Triple S P a)

-- The files of a history that a removal of another's leaves alone.
IsElsewhere : ℕ → (Files → Type 0) → Type 0
IsElsewhere path R = (f : Files) (h : ℕ) (p : Part) → h ≢ path → R f → R (put f h p missing)

abbrev pub Gone : List LegacySource → Files → Type 0
Gone l f = All (λ s. (f s.path previous ≡ missing) × (f s.path current ≡ missing)) l

abbrev pub Former : ℕ → List LegacySource → Type 0
Former path l = All (λ s. s.path ≢ path) l

remove_sources-Triple :
    (S : Type 0) (path : ℕ) (l : List LegacySource) (R : Files → Type 0)
    → Former path l
    → IsElsewhere path R
    → Triple S R (remove_sources l) (λ _ f. R f × Gone l f) R
unfolding remove_sources remove_if_present IsElsewhere
remove_sources-Triple S path [] R n e = pure-Triple S _ _ _ tt (λ f h. (h, tt))
remove_sources-Triple S path (s ∷ l) R n e =
    let Removed =
      λ (f : Files). R f × (f s.path previous ≡ missing) × (f s.path current ≡ missing) in
    then-Triple {Q = λ _ f. Removed f}
      (then-Triple {Q = λ _ f. R f × (f s.path previous ≡ missing)}
        (call-Triple S _ _ _ _ _ (λ f h. h) (λ f h. (e f s.path previous n.0 h, ground arith)))
        (λ _.
          call-Triple S _ _ _ _ _ (λ f h. h.0)
            (λ f h. (e f s.path current n.0 h.0, ground (arith, h.1), ground arith))))
      (λ _.
        weaken-Triple (λ f h. h) (λ _ f h. (h.0.0, ((h.0.1, h.0.2), h.1))) (λ f h. h.0)
          (remove_sources-Triple S path l Removed n.1
            (λ f h p m v. (e f h p m v.0, ground (arith, v.1), ground (arith, v.2)))))

sync_sources-Triple :
    (S : Type 0) (l : List LegacySource) (R : Files → Type 0)
    → Triple S R (sync_sources l) (λ _ f. R f) R
unfolding sync_sources sync
sync_sources-Triple S [] R = pure-Triple S _ _ _ tt (λ f h. h)
sync_sources-Triple S (s ∷ l) R =
    then-Triple (call-Triple S _ (λ _ f. R f) _ _ _ (λ f h. h) (λ f h. h))
      (λ _. sync_sources-Triple S l R)

-- The new history, without the former streams and the marker.
abbrev pub Finished : ℕ → Content → List LegacySource → Files → Type 0
Finished path c l f = Complete path c f × Gone l f × (f path marker ≡ missing)

-- Where a publication can be interrupted: before the former streams are touched, before the marker is
-- gone, or when all is done.
abbrev pub Interrupted : ℕ → Content → List LegacySource → Files → Type 0
Interrupted path c l f =
    Midway path c f ⊎ (Complete path c f × Marked path c.data_of f) ⊎ Finished path c l f

half_published :
    (path : ℕ) (b : Bool) (c : List ℕ) (f : Files)
    → PublishedPrevious path b c f
    → HalfPrevious path b c f
half_published path true c f h = inr h
half_published path false c f h = tt

-- A published history is one that is being published.
pub Complete-Midway :
    (path : ℕ) (c : Content) (f : Files)
    → Complete path c f
    → Marked path c.data_of f
    → Midway path (record c { base = f }) f
Complete-Midway path c f h m =
    (half_published path c.has_previous c.previous_of f h.0, (inr h.1, m, λ k p n. refl))

complete_elsewhere :
    (path : ℕ) (b : Bool) (c : List ℕ) (f : Files) (h : ℕ) (p : Part)
    → h ≢ path
    → PublishedPrevious path b c f
    → PublishedPrevious path b c (put f h p missing)
complete_elsewhere path true c f h p n v = (ground (arith, n, v.0), ground (arith, n, v.1))
complete_elsewhere path false c f h p n v = ground (arith, n, v)

Stands : ℕ → Content → Files → Type 0
Stands path c f = Complete path c f × Marked path c.data_of f

Stands-IsElsewhere : (path : ℕ) (c : Content) → IsElsewhere path (Stands path c)
unfolding IsElsewhere Stands
Stands-IsElsewhere path c f h p n v = (
  (
    complete_elsewhere path c.has_previous c.previous_of f h p n v.0.0,
    (ground (arith, n, v.0.1.0), ground (arith, n, v.0.1.1)),
  ),
  ground (arith, n, v.1),
)

abbrev Untouched : ℕ → Content → Files → Type 0
Untouched path c f = Complete path c f × Marked path c.data_of f × Others path c.base f

Untouched-Midway : (path : ℕ) (c : Content) (f : Files) → Untouched path c f → Midway path c f
Untouched-Midway path c f h =
    (half_published path c.has_previous c.previous_of f h.0.0, (inr h.0.1, h.1, h.2))

previous_unmarked :
    (path : ℕ) (b : Bool) (c : List ℕ) (f : Files)
    → PublishedPrevious path b c f
    → PublishedPrevious path b c (put f path marker missing)
previous_unmarked path true c f v = (ground (arith, v.0), ground (arith, v.1))
previous_unmarked path false c f v = ground (arith, v)

Gone-unmarked :
    (path : ℕ) (l : List LegacySource) (f : Files) → Gone l f → Gone l (put f path marker missing)
Gone-unmarked path [] f h = tt
Gone-unmarked path (s ∷ l) f h =
    ((ground (arith, h.0.0), ground (arith, h.0.1)), Gone-unmarked path l f h.1)

previous_validated :
    (S : Type 0) (path : ℕ) (b : Bool) (c : List ℕ) (R : Files → Type 0)
    → ((f : Files) → R f → PublishedPrevious path b c f)
    → Triple S R (when b (validate path previous)) (λ _ f. R f) R
previous_validated S path true c R h = validate-Triple S path previous c R (λ f r. (h f r).1)
previous_validated S path false c R h = pure-Triple S _ _ _ tt (λ f r. r)

validated-Triple :
    (S : Type 0) (path : ℕ) (commit : LegacyCommit) (c : Content) (R : Files → Type 0)
    → c.has_previous ≡ commit.has_previous
    → ((f : Files) → R f → Complete path c f)
    → Triple S R (validate_published_legacy path commit) (λ _ f. R f) R
unfolding validate_published_legacy
validated-Triple S path commit c R e h =
    then-Triple (validate-Triple S path current c.current_of R (λ f r. (h f r).1.1)) (λ _.
      rw (sym e) (previous_validated S path c.has_previous c.previous_of R (λ f r. (h f r).0)))

-- The whole of a publication.
pub finish-Triple :
    (S : Type 0) (path : ℕ) (commit : LegacyCommit) (c : Content)
    → Former path (items commit.sources)
    → c.has_previous ≡ commit.has_previous
    → Triple S
        (Midway path c)
        (finish_legacy_commit path commit)
        (λ _ f. Finished path c (items commit.sources) f)
        (Interrupted path c (items commit.sources))
unfolding finish_legacy_commit sync remove_if_present Stands
finish-Triple S path commit c n e =
    let l = items commit.sources in
    let Emptied = λ (f : Files). Stands path c f × Gone l f in
    then-Triple {Q = λ _ f. Finished path c l f}
      (then-Triple {Q = λ _ f. Emptied f}
        (then-Triple {Q = λ _ f. Emptied f}
          (then-Triple {Q = λ _ f. Emptied f}
            (then-Triple {Q = λ _ f. Stands path c f}
              (then-Triple {Q = λ _ f. Untouched path c f}
                (weaken-Triple (λ f h. h) (λ _ f h. h) (λ f h. inl h)
                  (publish_stages-Triple S path commit c e))
                (λ _.
                  weaken-Triple (λ f h. h) (λ _ f h. (h.0, h.1))
                    (λ f h. inl (Untouched-Midway path c f h))
                    (validated-Triple S path commit c (Untouched path c) e (λ f h. h.0))))
              (λ _.
                weaken-Triple (λ f h. h) (λ _ f h. h) (λ f h. inr (inl h))
                  (remove_sources-Triple S path l (Stands path c) n (Stands-IsElsewhere path c))))
            (λ _.
              weaken-Triple (λ f h. h) (λ _ f h. h) (λ f h. inr (inl h.0))
                (sync_sources-Triple S l Emptied)))
          (λ _. call-Triple S _ _ _ _ _ (λ f h. inr (inl h.0)) (λ f h. h)))
        (λ _.
          call-Triple S _ _ _ _ _ (λ f h. inr (inl h.0))
            (λ f h. (
              (
                previous_unmarked path c.has_previous c.previous_of f h.0.0.0,
                (ground (arith, h.0.0.1.0), ground (arith, h.0.0.1.1)),
              ),
              Gone-unmarked path l f h.1,
              ground arith,
            ))))
      (λ _. call-Triple S _ _ _ _ _ (λ f h. inr (inr h)) (λ f h. h))

-- What can still be finished: the marker is there, and either no file of another history has been
-- touched or the new history is complete.
abbrev pub Resumable : ℕ → Content → Files → Type 0
Resumable path c f = Marked path c.data_of f × (Others path c.base f ⊎ Complete path c f)

finish_again :
    (path : ℕ) (commit : LegacyCommit) (c : Content) (f : Files)
    → Former path (items commit.sources)
    → c.has_previous ≡ commit.has_previous
    → Midway path c f
    → let t = finish_legacy_commit path commit (record { files = f; refusals = [] }) in
      (t.1 ≡ ok tt) × Finished path c (items commit.sources) t.0.files
finish_again path commit c f n e h =
    let r = unrefused f (finish-Triple (Unit {0}) path commit c n e) h in (r.1, r.2)

-- A commit whose generations are in the stage or published, interrupted by any refusals of the file
-- operations, loses nothing: either the new history is complete, with the former streams and the
-- marker gone, or the marker is still there, the former streams are untouched unless the new history
-- is complete, and finishing the commit again, without refusals, succeeds and gives that very history.
pub finish_legacy_commit-resumes :
    (path : ℕ) (commit : LegacyCommit) (c : Content) (d : Disk)
    → Former path (items commit.sources)
    → c.has_previous ≡ commit.has_previous
    → Midway path c d.files
    → let f = (finish_legacy_commit path commit d).0.files in
      let t = finish_legacy_commit path commit (record { files = f; refusals = [] }) in
      Finished path c (items commit.sources) f
      ⊎ (Resumable path c f × (t.1 ≡ ok tt) × Finished path c (items commit.sources) t.0.files)
finish_legacy_commit-resumes path commit c d n e h =
    let l = items commit.sources in
    let Ends = λ (f : Files).
      let t = finish_legacy_commit path commit (record { files = f; refusals = [] }) in
      Finished path c l f ⊎ (Resumable path c f × (t.1 ≡ ok tt) × Finished path c l t.0.files) in
    either_way Ends d (λ _ f q. inl q)
      (λ f q. elim q [
        | inl m ↦ let r = finish_again path commit c f n e m in inr ((m.1.1, inl m.1.2), r.0, r.1)
        | inr (inl s) ↦
            let m = Complete-Midway path c f s.0 s.1 in
            let r = finish_again path commit (record c { base = f }) f n e m in
            inr ((s.1, inr s.0), r.0, r.1)
        | inr (inr v) ↦ inl v
      ])
      (finish-Triple (Unit {0}) path commit c n e) h
