-- ===== src/Diagnostics/Legacy/Publication.antt =====
-- What the publication of a commit leaves, wherever it is interrupted.
use dobby_vpn.Common.{
  ℕ, Bool, true, false, List, ◌==◌, ◌≡◌, ◌≢◌, ◌⊎◌, inl, inr, refl, arith, sym, if◌then◌else◌,
}
use dobby_vpn.Diagnostics.Migration.{Found, missing, regular}
use dobby_vpn.Diagnostics.Disk.{
  Part, current, previous, stage, stage_previous, marker, part_number, Files, put,
  remove_if_present, stat, publish_file, sync, present,
}
use dobby_vpn.Diagnostics.Disk.Triples.{
  Triple, then-Triple, call-Triple, pure-Triple, weaken-Triple,
}
use dobby_vpn.Diagnostics.Legacy.{LegacyCommit, staged, when, publish_stage, publish_stages}

-- A generation is in the stage, or already published.
abbrev pub Half : ℕ → Part → List ℕ → Files → Type 0
Half path p c f =
    (f path (staged p) ≡ regular c) ⊎ ((f path (staged p) ≡ missing) × (f path p ≡ regular c))

abbrev pub Published : ℕ → Part → List ℕ → Files → Type 0
Published path p c f = (f path (staged p) ≡ missing) × (f path p ≡ regular c)

-- A predicate that a removal of the stage's file and a new file of the history do not touch.
abbrev IsApart : ℕ → Part → (Files → Type 0) → Type 0
IsApart path p R = (f : Files) (t : Found) → R f → R (put (put f path p t) path (staged p) missing)

abbrev Seen : ℕ → Part → List ℕ → (Files → Type 0) → Bool → Files → Type 0
Seen path p c R true f = (f path (staged p) ≡ regular c) × R f
Seen path p c R false f = Published path p c f × R f

stat-Seen :
    (path : ℕ) (p : Part) (c : List ℕ) (R : Files → Type 0) (f : Files)
    → Half path p c f
    → R f
    → Seen path p c R (present (f path (staged p))) f
stat-Seen path p c R f (inl h) r = rw h (h, r)
stat-Seen path p c R f (inr h) r = rw h.0 (h, r)

publish-Seen :
    (S : Type 0) (path : ℕ) (p : Part) (c : List ℕ) (R : Files → Type 0) (b : Bool)
    → (part_number p == part_number (staged p)) ≡ false
    → IsApart path p R
    → Triple S
        (Seen path p c R b)
        (when b (publish_file path (staged p) p))
        (λ _ f. Published path p c f × R f)
        (λ f. Half path p c f × R f)
unfolding publish_file
publish-Seen S path p c R true d a =
    call-Triple S _ _ _ _ _ (λ f h. (inl h.0, h.1))
      (λ f h. ((ground arith, ground (arith, h.0, d)), a f (f path (staged p)) h.1))
publish-Seen S path p c R false d a = pure-Triple S _ _ _ tt (λ f h. h)

publish_stage-Triple :
    (S : Type 0) (path : ℕ) (p : Part) (c : List ℕ) (R : Files → Type 0)
    → (part_number p == part_number (staged p)) ≡ false
    → IsApart path p R
    → Triple S
        (λ f. Half path p c f × R f)
        (publish_stage path p)
        (λ _ f. Published path p c f × R f)
        (λ f. Half path p c f × R f)
unfolding publish_stage stat sync
publish_stage-Triple S path p c R d a =
    then-Triple {Q = Seen path p c R}
      (call-Triple S _ _ _ _ _ (λ f h. h) (λ f h. stat-Seen path p c R f h.0 h.1))
      (λ b.
        then-Triple (publish-Seen S path p c R b d a)
          (λ _. call-Triple S _ _ _ _ _ (λ f h. (inr h.0, h.1)) (λ f h. h)))

-- The previous generation, which a commit may have none of.
abbrev pub HalfPrevious : ℕ → Bool → List ℕ → Files → Type 0
HalfPrevious path true c f = Half path previous c f
HalfPrevious path false c f = Unit

abbrev pub PublishedPrevious : ℕ → Bool → List ℕ → Files → Type 0
PublishedPrevious path true c f = Published path previous c f
PublishedPrevious path false c f = f path previous ≡ missing

publish_previous-Triple :
    (S : Type 0) (path : ℕ) (b : Bool) (c : List ℕ) (R : Files → Type 0)
    → IsApart path previous R
    → ((f : Files) → R f → R (put f path previous missing))
    → Triple S
        (λ f. HalfPrevious path b c f × R f)
        (if b then publish_stage path previous else remove_if_present path previous)
        (λ _ f. PublishedPrevious path b c f × R f)
        (λ f. HalfPrevious path b c f × R f)
unfolding remove_if_present
publish_previous-Triple S path true c R a r = publish_stage-Triple S path previous c R refl a
publish_previous-Triple S path false c R a r =
    call-Triple S _ _ _ _ _ (λ f h. h) (λ f h. (ground arith, r f h.1))

-- What a published pair leaves of a commit: the files of other histories are as in `base`.
abbrev pub Others : ℕ → Files → Files → Type 0
Others path base f = (h : ℕ) (p : Part) → h ≢ path → f h p ≡ base h p

abbrev pub Marked : ℕ → List ℕ → Files → Type 0
Marked path data_of f = f path marker ≡ regular data_of

Half-current :
    (path : ℕ) (c : List ℕ) (f : Files) (t u : Found)
    → Half path current c f
    → Half path current c (put (put f path previous t) path stage_previous u)
Half-current path c f t u (inl h) = inl (ground (arith, h))
Half-current path c f t u (inr h) = inr (ground (arith, h.0), ground (arith, h.1))

published_previous :
    (path : ℕ) (b : Bool) (c : List ℕ) (f : Files) (t u : Found)
    → PublishedPrevious path b c f
    → PublishedPrevious path b c (put (put f path current t) path stage u)
published_previous path true c f t u h = (ground (arith, h.0), ground (arith, h.1))
published_previous path false c f t u h = ground (arith, h)

Half-current_one :
    (path : ℕ) (c : List ℕ) (f : Files)
    → Half path current c f
    → Half path current c (put f path previous missing)
Half-current_one path c f (inl h) = inl (ground (arith, h))
Half-current_one path c f (inr h) = inr (ground (arith, h.0), ground (arith, h.1))

Others-one :
    (path : ℕ) (base f : Files) (p : Part) (t : Found)
    → Others path base f
    → Others path base (put f path p t)
Others-one path base f p t h k r n = ground (arith, h k r n, n)

Others-apart :
    (path : ℕ) (base f : Files) (p q : Part) (t u : Found)
    → Others path base f
    → Others path base (put (put f path p t) path q u)
Others-apart path base f p q t u h k r n = ground (arith, h k r n, n)

-- The contents of a commit: its generations, the bytes of its marker, and the other histories' files.
pub record Content : Type 0 where
  pub has_previous : Bool
  pub previous_of : List ℕ
  pub current_of : List ℕ
  pub data_of : List ℕ
  pub base : Files

-- A commit that is not, or not wholly, published, with its marker.
abbrev pub Midway : ℕ → Content → Files → Type 0
Midway path c f =
    HalfPrevious path c.has_previous c.previous_of f
    × (Half path current c.current_of f × Marked path c.data_of f × Others path c.base f)

-- The new history.
abbrev pub Complete : ℕ → Content → Files → Type 0
Complete path c f =
    PublishedPrevious path c.has_previous c.previous_of f × Published path current c.current_of f

abbrev Between : ℕ → Content → Files → Type 0
Between path c f =
    PublishedPrevious path c.has_previous c.previous_of f
    × Marked path c.data_of f
    × Others path c.base f

half_of :
    (path : ℕ) (b : Bool) (c : List ℕ) (f : Files)
    → PublishedPrevious path b c f
    → HalfPrevious path b c f
half_of path true c f h = inr h
half_of path false c f h = tt

pub publish_stages-Triple :
    (S : Type 0) (path : ℕ) (commit : LegacyCommit) (c : Content)
    → c.has_previous ≡ commit.has_previous
    → Triple S
        (Midway path c)
        (publish_stages path commit)
        (λ _ f. Complete path c f × Marked path c.data_of f × Others path c.base f)
        (Midway path c)
unfolding publish_stages
publish_stages-Triple S path commit c e =
    let Rest = λ (f : Files).
      Half path current c.current_of f × Marked path c.data_of f × Others path c.base f in
    then-Triple {Q = λ _ f. PublishedPrevious path c.has_previous c.previous_of f × Rest f}
      (rw (sym e) (
        publish_previous-Triple S path c.has_previous c.previous_of Rest
          (λ f t h. (
            Half-current path c.current_of f t missing h.0,
            ground (arith, h.1),
            Others-apart path c.base f previous stage_previous t missing h.2,
          ))
          (λ f h. (
            Half-current_one path c.current_of f h.0,
            ground (arith, h.1),
            Others-one path c.base f previous missing h.2,
          ))))
      (λ _.
        weaken-Triple (λ f h. (h.1.0, (h.0, h.1.1, h.1.2))) (λ _ f h. ((h.1.0, h.0), h.1.1, h.1.2))
          (λ f h. (half_of path c.has_previous c.previous_of f h.1.0, (h.0, h.1.1, h.1.2)))
          (publish_stage-Triple S path current c.current_of (Between path c) refl (λ f t h. (
            published_previous path c.has_previous c.previous_of f t missing h.0,
            ground (arith, h.1),
            Others-apart path c.base f current stage t missing h.2,
          ))))
