-- ===== src/Diagnostics/Legacy/Recovery.antt =====
-- What a transaction leaves, wherever it is interrupted, and what the next one makes of it.
use dobby_vpn.Common.{
  not, same, length, ◌≤◌, suc, ℕ, Bool, true, ◌||◌, ◌&&◌, List, [], Option, none, some, ◌≡◌, ◌⊎◌,
  inl, inr, refl, arith, ap, sym, if_cases, is_some,
}
use mathlib.Core.Path.{subst}
use dobby_vpn.Failure.{ok}
use dobby_vpn.Diagnostics.Migration.{missing, History}
use dobby_vpn.Diagnostics.Disk.{Part, current, previous, marker, Files, Disk, M, present}
use dobby_vpn.Diagnostics.Disk.Triples.{
  Triple, then-Triple, weaken-Triple, fact-Triple, unrefused, either_way,
}
use dobby_vpn.Diagnostics.Legacy.{LegacySource, LegacyCommit, items, finish_legacy_commit}
use dobby_vpn.Diagnostics.Legacy.Publication.{Marked, Content, Midway}
use dobby_vpn.Diagnostics.Legacy.Resumption.{Finished, Interrupted, Former, finish-Triple}
use dobby_vpn.Diagnostics.Legacy.Staging.{Unchanged}
use dobby_vpn.Diagnostics.Legacy.Merging.{Merges, merged_history}
use dobby_vpn.Diagnostics.Legacy.Transaction.{
  max_marker, recover_legacy_commit, migrate_legacy_transaction,
}
use dobby_vpn.Diagnostics.Legacy.Resumption.{Resumable, Complete-Midway}
use dobby_vpn.Diagnostics.Legacy.Outcomes.{Outcome, start-Triple}
use dobby_vpn.Diagnostics.Legacy.Marking.{unmarked-Triple, Marked-Triple, same_refl}

module _ (marshal_sources : Option (List LegacySource) → List ℕ) (marshal : LegacyCommit → List ℕ)
    (unmarshal : List ℕ → Option LegacyCommit) (header_of : List ℕ → Part → List ℕ) (path : ℕ)
    (sources : Option (List LegacySource)) (limit : ℕ) (force : Bool) (existing : List ℕ) where
  abbrev migrate : ℕ → M (Unit {0})
  migrate n =
      migrate_legacy_transaction marshal_sources marshal unmarshal header_of n path sources limit
        force existing

  abbrev merged : Files → Option History
  merged = merged_history header_of limit path sources force existing

  first-Triple :
      (n : ℕ) (base : Files)
      → Former path (items sources)
      → (force ≡ true → (present (base path previous) || present (base path current)) ≡ true)
      → Triple ⊥
          (Unchanged path base)
          (migrate (suc n))
          (λ _ f. Outcome marshal sources path base (merged base) f)
          (Outcome marshal sources path base (merged base))
  unfolding migrate_legacy_transaction
  first-Triple n base former there =
      then-Triple (weaken-Triple (λ f h. h) (λ a f h. h) (λ f h. inl h) (unmarked-Triple path base))
        (λ a. fact-Triple {X = a ≡ none} (λ e. rw e (
          start-Triple marshal_sources marshal unmarshal header_of path base sources limit force
            existing former there)))

  recover-Triple :
      (later : M (Unit {0})) (commit : LegacyCommit) (c : Content)
      → Former path (items sources)
      → commit.sources ≡ sources
      → c.has_previous ≡ commit.has_previous
      → Triple
          (Unit {0})
          (Midway path c)
          (recover_legacy_commit marshal_sources marshal unmarshal header_of path sources later
            (some commit))
          (λ _ f. Finished path c (items sources) f)
          (Interrupted path c (items sources))
  unfolding recover_legacy_commit
  recover-Triple later commit c former e p =
      let T = λ (m : M (Unit {0})).
        Triple (Unit {0}) (Midway path c) m (λ _ f. Finished path c (items sources) f)
          (Interrupted path c (items sources)) in
      if_cases T (not (is_some commit.sources) && is_some sources)
        (λ h. absurd (ground (arith, e, h)))
        (λ _.
          if_cases T (same (marshal_sources sources) (marshal_sources commit.sources))
            (λ _.
              subst
                (λ o.
                  Triple (Unit {0}) (Midway path c) (finish_legacy_commit path commit)
                    (λ _ f. Finished path c (items o) f) (Interrupted path c (items o)))
                e (finish-Triple (Unit {0}) path commit c (rw e former) p))
            (λ h. absurd (
              ground (
                arith,
                same_refl (marshal_sources sources),
                ap (λ o. same (marshal_sources sources) (marshal_sources o)) e,
                h,
              ))))

  -- A content with the marker of a commit of these streams.
  abbrev Written : LegacyCommit → Content → Type 0
  Written commit c =
      (commit.sources ≡ sources)
      × (c.has_previous ≡ commit.has_previous)
      × (c.data_of ≡ marshal commit)

  again-Triple :
      (n : ℕ) (commit : LegacyCommit) (c : Content)
      → Former path (items sources)
      → unmarshal (marshal commit) ≡ some commit
      → length (marshal commit) ≤ max_marker
      → Written commit c
      → Triple
          (Unit {0})
          (Midway path c)
          (migrate (suc n))
          (λ _ f. Finished path c (items sources) f)
          (Interrupted path c (items sources))
  unfolding migrate_legacy_transaction recover_legacy_commit
  again-Triple n commit c former decodes short fits =
      then-Triple {Q = λ a f. (a ≡ some (marshal commit)) × Midway path c f}
        (weaken-Triple (λ f h. h) (λ a f h. h) (λ f h. inl h)
          (Marked-Triple path (marshal commit) (Midway path c) short
            (λ f h. subst (λ b. Marked path b f) fits.2 h.1.1)))
        (λ a.
          fact-Triple {X = a ≡ some (marshal commit)}
            (λ e. rw (e, decodes) (recover-Triple _ commit c former fits.0 fits.1)))

  -- What a migration without refusals makes of the files.
  Again : ℕ → Content → Files → Type 0
  Again n c f =
      let t = migrate (suc n) (record { files = f; refusals = [] }) in
      (t.1 ≡ ok tt) × Finished path c (items sources) t.0.files

  migrate-Again :
      (n : ℕ) (commit : LegacyCommit) (c : Content) (f : Files)
      → Former path (items sources)
      → unmarshal (marshal commit) ≡ some commit
      → length (marshal commit) ≤ max_marker
      → Written commit c
      → Midway path c f
      → Again n c f
  unfolding Again
  migrate-Again n commit c f former decodes short fits h =
      let r = unrefused f (again-Triple n commit c former decodes short fits) h in (r.1, r.2)

  -- A commit whose marker can be read again.
  abbrev pub Readable : LegacyCommit → Type 0
  Readable k = (unmarshal (marshal k) ≡ some k) × (length (marshal k) ≤ max_marker)

  abbrev Recovered : ℕ → Files → Files → Type 0
  Recovered n base f =
      let t = migrate (suc n) (record { files = f; refusals = [] }) in
      Unchanged path base f
      ⊎ ((c : Content) × (c.base ≡ base)
          × Merges (merged base) c
          × (Finished path c (items sources) f
              ⊎ (Resumable path c f × (t.1 ≡ ok tt) × Finished path c (items sources) t.0.files)))

  recovered :
      (n : ℕ) (base f : Files)
      → Former path (items sources)
      → ((b : Bool) → Readable (record { sources = sources; has_previous = b }))
      → Outcome marshal sources path base (merged base) f
      → Recovered n base f
  unfolding Again
  recovered n base f former readable (inl u) = inl u
  recovered n base f former readable (inr ((commit, c), fits, i)) =
      let known =
        subst (λ o. Readable (record { sources = o; has_previous = commit.has_previous }))
          (sym fits.0) (readable commit.has_previous) in
      inr (
        c,
        fits.3,
        fits.4,
        elim i [
          | inl m ↦
              let r =
                migrate-Again n commit c f former known.0 known.1 (fits.0, fits.1, fits.2) m in
              inr ((m.1.1, inl m.1.2), r.0, r.1)
          | inr (inl s) ↦
              let m = Complete-Midway path c f s.0 s.1 in
              let r =
                migrate-Again n commit (record c { base = f }) f former known.0 known.1
                  (fits.0, fits.1, fits.2) m in
              inr ((s.1, inr s.0), r.0, r.1)
          | inr (inr v) ↦ inl v
        ],
      )

  -- A migration that starts without a marker, of streams that are not the history itself, forced only
  -- where the history has a generation, and however the system refuses its file operations, leaves one
  -- of three: the history and every other file as they were and no marker; the new history, with the
  -- former streams and the marker gone; or a marker, with the former streams untouched unless the new
  -- history is complete, where a migration of the same streams, without refusals, succeeds and leaves that
  -- new history. The generations of the new history are the merged ones: those of the history and then of
  -- the former streams, oldest first, each streamed after its header. A commit of these streams is read
  -- as it was written, within the bound of a marker.
  pub migrate_legacy_transaction-recovers :
      (n : ℕ) (d : Disk)
      → Former path (items sources)
      → ((b : Bool) → Readable (record { sources = sources; has_previous = b }))
      → (force ≡ true → (present (d.files path previous) || present (d.files path current)) ≡ true)
      → d.files path marker ≡ missing
      → let f =
          (migrate_legacy_transaction marshal_sources marshal unmarshal header_of
            (suc n)
            path
            sources
            limit
            force
            existing
            d).0.files in
        let t =
          migrate_legacy_transaction marshal_sources marshal unmarshal header_of
            (suc n)
            path
            sources
            limit
            force
            existing
            (record { files = f; refusals = [] }) in
        Unchanged path d.files f
        ⊎ ((c : Content) × (c.base ≡ d.files)
            × Merges (merged_history header_of limit path sources force existing d.files) c
            × (Finished path c (items sources) f
                ⊎ (Resumable path c f × (t.1 ≡ ok tt) × Finished path c (items sources) t.0.files)))
  unfolding Again
  migrate_legacy_transaction-recovers n d former readable there unmarked =
      either_way (Recovered n d.files) d (λ _ f q. recovered n d.files f former readable q)
        (λ f q. recovered n d.files f former readable q) (first-Triple n d.files former there)
        (unmarked, refl, refl, λ h p k. refl)
