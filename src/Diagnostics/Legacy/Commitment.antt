-- ===== src/Diagnostics/Legacy/Commitment.antt =====
-- How a stage becomes a commit.
use dobby_vpn.Common.{
  ℕ, Bool, true, false, List, [], ◌∷◌, Option, some, ◌≡◌, ◌⊎◌, inl, inr, refl, arith,
}
use dobby_vpn.Diagnostics.Migration.{Found, missing, regular, History, is_nonempty}
use dobby_vpn.Diagnostics.Disk.{
  stage, stage_previous, marker, marker_temp, Files, put, remove_if_present, stat, publish_file,
  sync, write_file, present,
}
use dobby_vpn.Diagnostics.Disk.Triples.{
  Triple, then-Triple, call-Triple, pure-Triple, weaken-Triple,
}
use dobby_vpn.Diagnostics.Legacy.{LegacySource, LegacyCommit, when}
use dobby_vpn.Diagnostics.Legacy.Transaction.{kept, sync_legacy_stages, publish_legacy_marker}
use dobby_vpn.Diagnostics.Legacy.Publication.{Content, Midway}
use dobby_vpn.Diagnostics.Legacy.Publication.{HalfPrevious}
use dobby_vpn.Diagnostics.Legacy.Merging.{Merges}
use dobby_vpn.Diagnostics.Legacy.Staging.{Unchanged, Staging, Unchanged-put}

when_sync : (S : Type 0) (R : Files → Type 0) (b : Bool) → Triple S R (when b sync) (λ _ f. R f) R
unfolding sync
when_sync S R true = call-Triple S _ _ _ _ _ (λ f h. h) (λ f h. h)
when_sync S R false = pure-Triple S _ _ _ tt (λ f h. h)

-- A stage that is ready to be committed.
pub Ready : ℕ → Content → Files → Type 0
Ready path c f =
    Unchanged path c.base f
    × (f path stage ≡ regular c.current_of)
    × HalfPrevious path c.has_previous c.previous_of f

-- What a content has to do with its commit and with the merged history.
abbrev pub Fits :
    (LegacyCommit → List ℕ)
    → Option (List LegacySource)
    → Files
    → Option History
    → LegacyCommit × Content
    → Type 0
Fits marshal sources base merged (commit, c) =
    (commit.sources ≡ sources)
    × (c.has_previous ≡ commit.has_previous)
    × (c.data_of ≡ marshal commit)
    × (c.base ≡ base)
    × Merges merged c

staged_previous :
    (path : ℕ) (a : Bool) (f : Files) (l : List ℕ)
    → a ≡ present (f path stage_previous)
    → f path stage_previous ≡ kept l
    → (a ≡ is_nonempty l) × HalfPrevious path a l f
staged_previous path true f [] e h = absurd (ground (arith, e, h))
staged_previous path true f (b ∷ bs) e h = (refl, inl h)
staged_previous path false f [] e h = (refl, tt)
staged_previous path false f (b ∷ bs) e h = absurd (ground (arith, e, h))

module _ (marshal : LegacyCommit → List ℕ) (path : ℕ) (base : Files)
    (sources : Option (List LegacySource)) (merged : Option History) where
  ready :
      (a : Bool) (f : Files) (t : History)
      → a ≡ present (f path stage_previous)
      → merged ≡ some t
      → Staging path base true t f
      → let commit : LegacyCommit = record { sources = sources; has_previous = a } in
        (c : Content) × Fits marshal sources base merged (commit, c) × Ready path c f
  unfolding Ready
  ready a f t e m h =
      let p = staged_previous path a f t.previous e h.1 in
      (
        record {
          has_previous = a;
          previous_of = t.previous;
          current_of = t.current;
          data_of = marshal (record { sources = sources; has_previous = a });
          base = base;
        },
        (refl, refl, refl, refl, (t, m, refl, refl, p.0)),
        (h.0, h.2 refl, p.1),
      )

  abbrev pub Chosen : LegacyCommit → Files → Type 0
  Chosen commit f = (c : Content) × Fits marshal sources base merged (commit, c) × Ready path c f

  pub sync_stages-Triple :
      (t : History)
      → merged ≡ some t
      → Triple ⊥
          (Staging path base true t)
          (sync_legacy_stages path sources)
          Chosen
          (Unchanged path base)
  unfolding sync_legacy_stages stat
  sync_stages-Triple t m =
      let Seen_previous = λ (a : Bool) (f : Files).
        (a ≡ present (f path stage_previous)) × Staging path base true t f in
      then-Triple {Q = Seen_previous} (call-Triple ⊥ _ _ _ _ _ (λ f h. h.0) (λ f h. (refl, h)))
        (λ a.
          then-Triple {Q = λ _ f. Seen_previous a f}
            (weaken-Triple (λ f h. h) (λ _ f h. h) (λ f h. h.1.0) (when_sync ⊥ (Seen_previous a) a))
            (λ _.
              then-Triple {Q = λ _ f. Seen_previous a f}
                (call-Triple ⊥ _ _ _ _ _ (λ f h. h.1.0) (λ f h. h))
                (λ b.
                  then-Triple {Q = λ _ f. Seen_previous a f}
                    (weaken-Triple (λ f h. h) (λ _ f h. h) (λ f h. h.1.0)
                      (when_sync ⊥ (Seen_previous a) b))
                    (λ _. pure-Triple ⊥ _ _ _ _ (λ f h. ready a f t h.0 m h.1)))))

still : (path : ℕ) (c : Content) (f : Files) → Ready path c f → Unchanged path c.base f
unfolding Ready
still path c f h = h.0

half_put :
    (path : ℕ) (b : Bool) (c : List ℕ) (f : Files) (t : Found)
    → HalfPrevious path b c f
    → HalfPrevious path b c (put f path marker_temp t)
half_put path true c f t (inl h) = inl (ground (arith, h))
half_put path true c f t (inr h) = inr (ground (arith, h.0), ground (arith, h.1))
half_put path false c f t h = tt

half_committed :
    (path : ℕ) (b : Bool) (c : List ℕ) (f : Files) (t : Found)
    → HalfPrevious path b c f
    → HalfPrevious path b c (put (put f path marker t) path marker_temp missing)
half_committed path true c f t (inl h) = inl (ground (arith, h))
half_committed path true c f t (inr h) = inr (ground (arith, h.0), ground (arith, h.1))
half_committed path false c f t h = tt

ready_put :
    (path : ℕ) (c : Content) (f : Files) (t : Found)
    → Ready path c f
    → Ready path c (put f path marker_temp t)
unfolding Ready
ready_put path c f t h = (
  Unchanged-put path c.base f marker_temp t refl refl refl h.0,
  ground (arith, h.1),
  half_put path c.has_previous c.previous_of f t h.2,
)

committed :
    (path : ℕ) (c : Content) (f : Files)
    → Ready path c f
    → f path marker_temp ≡ regular c.data_of
    → Midway path c (put (put f path marker (f path marker_temp)) path marker_temp missing)
unfolding Ready
committed path c f h m = (
  half_committed path c.has_previous c.previous_of f (f path marker_temp) h.2,
  (inl (ground (arith, h.1)), ground (arith, m), λ k p n. ground (arith, h.0.3 k p n, n)),
)

pub publish_marker-Triple :
    (marshal : LegacyCommit → List ℕ) (path : ℕ) (commit : LegacyCommit) (c : Content)
    → c.data_of ≡ marshal commit
    → Triple ⊥
        (Ready path c)
        (publish_legacy_marker marshal path commit)
        (λ _ f. Midway path c f)
        (λ f. Unchanged path c.base f ⊎ Midway path c f)
unfolding publish_legacy_marker remove_if_present write_file publish_file sync
publish_marker-Triple marshal path commit c e =
    then-Triple {Q = λ _ f. Midway path c f}
      (then-Triple {Q = λ _ f. Ready path c f × (f path marker_temp ≡ regular c.data_of)}
        (then-Triple {Q = λ _ f. Ready path c f}
          (call-Triple ⊥ _ _ _ _ _ (λ f h. inl (still path c f h))
            (λ f h. ready_put path c f missing h))
          (λ _.
            call-Triple ⊥ _ _ _ _ _ (λ f h. inl (still path c f h))
              (λ f h. (ready_put path c f (regular (marshal commit)) h, ground (arith, e)))))
        (λ _.
          call-Triple ⊥ _ _ _ _ _ (λ f h. inl (still path c f h.0))
            (λ f h. committed path c f h.0 h.1)))
      (λ _. call-Triple ⊥ _ _ _ _ _ (λ f h. inr h) (λ f h. h))
