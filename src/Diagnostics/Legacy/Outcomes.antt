-- ===== src/Diagnostics/Legacy/Outcomes.antt =====
-- What a transaction that starts leaves, wherever it is interrupted.
use dobby_vpn.Common.{
  All, ℕ, Bool, true, false, ◌||◌, List, [], ◌∷◌, Option, some, ◌≡◌, ◌⊎◌, inl, inr, refl, arith,
  sym,
}
use mathlib.Core.Path.{subst}
use dobby_vpn.Diagnostics.Migration.{missing, History}
use dobby_vpn.Diagnostics.Disk.{
  Part, current, previous, stage, stage_previous, Files, ◌>>=◌, ◌>>◌, remove_if_present, present,
}
use dobby_vpn.Diagnostics.Disk.Triples.{
  Triple, then-Triple, call-Triple, pure-Triple, weaken-Triple, some-Triple, fact-Triple,
}
use dobby_vpn.Diagnostics.Legacy.{LegacySource, LegacyCommit, items, when, finish_legacy_commit}
use dobby_vpn.Diagnostics.Legacy.Transaction.{
  sync_legacy_stages, begun, stage_legacy_streams, publish_legacy_marker, start_migration,
}
use dobby_vpn.Diagnostics.Legacy.Publication.{Content, Midway}
use dobby_vpn.Diagnostics.Legacy.Resumption.{Finished, Interrupted, Former, finish-Triple}
use dobby_vpn.Diagnostics.Legacy.Merging.{merged_history}
use dobby_vpn.Diagnostics.Legacy.Staging.{
  Unchanged, Staging, any_present, has_sources-Triple, stage_streams-Triple, Kept, Unchanged-put,
}
use dobby_vpn.Diagnostics.Legacy.Commitment.{
  Fits, Chosen, sync_stages-Triple, publish_marker-Triple,
}

pub any_present_mono :
    (f : Files) (l : List LegacySource) (a b : Bool)
    → (a ≡ true → b ≡ true)
    → any_present f l a ≡ true
    → any_present f l b ≡ true
unfolding any_present
any_present_mono f [] a b k h = k h
any_present_mono f (s ∷ l) a b k h =
    any_present_mono f l (a || present (f s.path previous) || present (f s.path current))
      (b || present (f s.path previous) || present (f s.path current)) (ground (arith, k)) h

-- What a transaction can leave: nothing has changed, or a commit is being published or has been.
abbrev pub Outcome :
    (LegacyCommit → List ℕ)
    → Option (List LegacySource)
    → ℕ
    → Files
    → Option History
    → Files
    → Type 0
Outcome marshal sources path base merged f =
    Unchanged path base f
    ⊎ ((k : LegacyCommit × Content) × Fits marshal sources base merged k
        × Interrupted path k.1 (items sources) f)

module _ (marshal : LegacyCommit → List ℕ) (path : ℕ) (base : Files)
    (sources : Option (List LegacySource)) (merged : Option History)
    (former : Former path (items sources)) where
  pub commit-Triple :
      (commit : LegacyCommit)
      → Triple ⊥
          (Chosen marshal path base sources merged commit)
          (publish_legacy_marker marshal path commit >> finish_legacy_commit path commit)
          (λ _ f. Outcome marshal sources path base merged f)
          (Outcome marshal sources path base merged)
  commit-Triple commit =
      weaken-Triple (λ f h. (h.0, (h.1, h.2))) (λ _ f h. h.1) (λ f h. h.1)
        (some-Triple {Q = λ c a f. Outcome marshal sources path base merged f}
          {E = λ c f. Outcome marshal sources path base merged f}
          (λ c. fact-Triple {X = Fits marshal sources base merged (commit, c)} (λ fits.
            then-Triple {Q = λ _ f. Midway path c f}
              (weaken-Triple (λ f h. h) (λ _ f h. h)
                (λ f h. elim h [
                  | inl u ↦ inl (subst (λ b. Unchanged path b f) fits.3 u)
                  | inr m ↦ inr ((commit, c), fits, inl m)
                ])
                (publish_marker-Triple marshal path commit c fits.2))
              (λ _.
                weaken-Triple (λ f h. h)
                  (λ _ f h. inr (
                    (commit, c),
                    fits,
                    inr (inr (subst (λ o. Finished path c (items o) f) fits.0 h)),
                  ))
                  (λ f h.
                    inr ((commit, c), fits, subst (λ o. Interrupted path c (items o) f) fits.0 h))
                  (finish-Triple ⊥ path commit c
                    (subst (λ o. Former path (items o)) (sym fits.0) former) fits.1)))))

pub Kept-sources :
    (path : ℕ) (base : Files) (l : List LegacySource) → Former path l → All (Kept path base) l
Kept-sources path base [] n = tt
Kept-sources path base (s ∷ l) n =
    (λ f h. (h.3 s.path previous n.0, h.3 s.path current n.0), Kept-sources path base l n.1)

module _ (marshal_sources : Option (List LegacySource) → List ℕ) (marshal : LegacyCommit → List ℕ)
    (unmarshal : List ℕ → Option LegacyCommit) (header_of : List ℕ → Part → List ℕ) (path : ℕ)
    (base : Files) (sources : Option (List LegacySource)) (limit : ℕ) (force : Bool)
    (existing : List ℕ) (former : Former path (items sources))
    (there : force ≡ true
      → (present (base path previous) || present (base path current)) ≡ true) where
  streams : List LegacySource
  streams = record { path = path; label = existing } ∷ items sources

  staged_all :
      (h : true ≡ any_present base (items sources) force) → any_present base streams false ≡ true
  unfolding any_present streams
  staged_all h =
      any_present_mono base (items sources) force
        (false || present (base path previous) || present (base path current))
        (λ e. ground (arith, there e)) (sym h)

  merged : Option History
  merged = merged_history header_of limit path sources force existing base

  found-Triple :
      (found : Bool)
      → found ≡ any_present base (items sources) force
      → Triple ⊥
          (Staging path base false begun)
          (when found (
            stage_legacy_streams header_of path sources limit force existing >>= λ t.
            sync_legacy_stages path sources >>= λ commit.
            publish_legacy_marker marshal path commit >> finish_legacy_commit path commit))
          (λ _ f. Outcome marshal sources path base merged f)
          (Outcome marshal sources path base merged)
  unfolding stage_legacy_streams streams merged merged_history
  found-Triple false h = pure-Triple ⊥ _ _ _ tt (λ f v. inl v.0)
  found-Triple true h =
      then-Triple {Q = λ t f. (merged ≡ some t) × Staging path base true t f}
        (weaken-Triple (λ f v. v) (λ t f v. (v.0, (v.1.0, v.1.1, λ e. v.1.2 (staged_all h))))
          (λ f v. inl v)
          (stage_streams-Triple header_of path base limit _ streams begun false
            ((λ f v. (v.2, v.1)), Kept-sources path base (items sources) former)))
        (λ t. fact-Triple (λ m.
          then-Triple {Q = Chosen marshal path base sources merged}
            (weaken-Triple (λ f v. v) (λ c f v. v) (λ f v. inl v)
              (sync_stages-Triple marshal path base sources merged t m))
            (λ commit. commit-Triple marshal path base sources merged former commit)))

  pub start-Triple :
      Triple ⊥
        (Unchanged path base)
        (start_migration marshal_sources marshal unmarshal header_of path sources limit force
          existing)
        (λ _ f.
          Outcome marshal sources path base
            (merged_history header_of limit path sources force existing base)
            f)
        (Outcome marshal sources path base
          (merged_history header_of limit path sources force existing base))
  unfolding start_migration remove_if_present merged
  start-Triple =
      then-Triple {Q = λ _ f. Unchanged path base f}
        (call-Triple ⊥ _ _ _ _ _ (λ f h. inl h)
          (λ f h. Unchanged-put path base f stage missing refl refl refl h))
        (λ _.
          then-Triple {Q = λ _ f. Staging path base false begun f}
            (call-Triple ⊥ _ _ _ _ _ (λ f h. inl h)
              (λ f h. (
                Unchanged-put path base f stage_previous missing refl refl refl h,
                ground arith,
                λ e. absurd (ground (arith, e)),
              )))
            (λ _.
              then-Triple
                (weaken-Triple (λ f h. h) (λ b f h. h) (λ f h. inl h)
                  (has_sources-Triple path base (Staging path base false begun) (λ f h. h.0)
                    (items sources) force former))
                (λ b.
                  fact-Triple {X = b ≡ any_present base (items sources) force}
                    (λ e. found-Triple b e))))
