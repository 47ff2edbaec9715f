-- ===== src/Diagnostics/Legacy/Staging.antt =====
-- What the stage of a migration holds, and that nothing else has changed until then.
use dobby_vpn.Common.{
  ◌∙◌, All, ℕ, Bool, true, false, ◌||◌, List, [], ◌∷◌, Option, none, some, ◌==◌, ◌≡◌, refl, arith,
  sym, is_some, if◌then◌else◌,
}
use dobby_vpn.Diagnostics.Migration.{Found, missing, irregular, regular, History}
use dobby_vpn.Diagnostics.Disk.{
  Part, current, previous, stage, stage_previous, marker, part_number, Files, put, stat,
  read_regular, write_file, present, contents,
}
use dobby_vpn.Diagnostics.Disk.Triples.{
  Triple, then-Triple, call-Triple, pure-Triple, weaken-Triple, read-Triple, Read, fact-Triple,
}
use dobby_vpn.Failure.{ok}
use dobby_vpn.Diagnostics.Legacy.{LegacySource}
use dobby_vpn.Diagnostics.Legacy.Transaction.{
  kept, has_legacy_sources, write_stage, save, stage_data, stage_generation, stage_streams,
}
use dobby_vpn.Diagnostics.Legacy.Merging.{
  merged_read, merged_read-stream_labeled, merged_generation, merged_streams,
}
use dobby_vpn.Diagnostics.Legacy.Publication.{Others}
use dobby_vpn.Diagnostics.Legacy.Resumption.{Former}

-- Neither the history nor the files of another one have changed, and there is no marker.
abbrev pub Unchanged : ℕ → Files → Files → Type 0
Unchanged path base f =
    (f path marker ≡ missing)
    × (f path current ≡ base path current)
    × (f path previous ≡ base path previous)
    × Others path base f

-- The stage holds a history so far, if there is one.
abbrev pub Staging : ℕ → Files → Bool → History → Files → Type 0
Staging path base seen h f =
    Unchanged path base f
    × (f path stage_previous ≡ kept h.previous)
    × (seen ≡ true → f path stage ≡ regular h.current)

pub Unchanged-put :
    (path : ℕ) (base f : Files) (p : Part) (t : Found)
    → (part_number p == 0) ≡ false
    → (part_number p == 1) ≡ false
    → (part_number p == 4) ≡ false
    → Unchanged path base f
    → Unchanged path base (put f path p t)
Unchanged-put path base f p t a b c h = (
  ground (arith, h.0, c),
  ground (arith, h.1, a),
  ground (arith, h.2, b),
  λ k q n. ground (arith, h.3 k q n, n),
)

-- What hasLegacySources finds.
unfoldable pub any_present : Files → List LegacySource → Bool → Bool
any_present f [] found = found
any_present f (s ∷ l) found =
    any_present f l (found || present (f s.path previous) || present (f s.path current))

pub has_sources-Triple :
    (path : ℕ) (base : Files) (R : Files → Type 0)
    → ((f : Files) → R f → Unchanged path base f)
    → (l : List LegacySource) (found : Bool) → Former path l
    → Triple ⊥ R
        (has_legacy_sources l found)
        (λ b f. (b ≡ any_present base l found) × R f)
        (Unchanged path base)
unfolding has_legacy_sources stat any_present
has_sources-Triple path base R u [] found n = pure-Triple ⊥ _ _ _ found (λ f h. (refl, h))
has_sources-Triple path base R u (s ∷ l) found n =
    then-Triple {Q = λ a f. (a ≡ present (base s.path previous)) × R f}
      (call-Triple ⊥ _ _ _ _ _ u (λ f h. (rw ((u f h).3 s.path previous n.0) refl, h)))
      (λ a. fact-Triple (λ p.
        then-Triple {Q = λ b f. (b ≡ present (base s.path current)) × R f}
          (call-Triple ⊥ _ _ _ _ _ u (λ f h. (rw ((u f h).3 s.path current n.0) refl, h)))
          (λ b.
            fact-Triple
              (λ q. rw (sym p, sym q) (has_sources-Triple path base R u l (found || a || b) n.1)))))

write_stage-Triple :
    (path : ℕ) (base : Files) (t : History)
    → Triple ⊥
        (Unchanged path base)
        (write_stage path t)
        (λ _ f. Staging path base true t f)
        (Unchanged path base)
unfolding write_stage write_file
write_stage-Triple path base t =
    then-Triple {Q = λ _ f. Unchanged path base f × (f path stage_previous ≡ kept t.previous)}
      (call-Triple ⊥ _ _ _ _ _ (λ f h. h)
        (λ f h. (
          Unchanged-put path base f stage_previous (kept t.previous) refl refl refl h,
          ground arith,
        )))
      (λ _.
        call-Triple ⊥ _ _ _ _ _ (λ f h. h.0)
          (λ f h. (
            Unchanged-put path base f stage (regular t.current) refl refl refl h.0,
            ground (arith, h.1),
            λ e. ground arith,
          )))

save-Triple :
    (path : ℕ) (base : Files) (o : Option History)
    → Triple ⊥
        (Unchanged path base)
        (save path o)
        (λ t f. (o ≡ some t) × Staging path base true t f)
        (Unchanged path base)
unfolding save
save-Triple path base none = record { holds = λ d h. (h, λ v. absurd v) }
save-Triple path base (some t) =
    then-Triple (write_stage-Triple path base t) (λ _. pure-Triple ⊥ _ _ _ t (λ f h. (refl, h)))

-- A file that is read is as it was.
Read-kept :
    (R E : Files → Type 0) (f : Files) (t u : Found)
    → t ≡ u
    → R f
    → E f
    → Read ⊥ (λ a f. ((contents u ≡ ok a) × (is_some a ≡ present u)) × R f) E f (contents t)
Read-kept R E f missing u e h x = ((rw (sym e) refl, rw (sym e) refl), h)
Read-kept R E f irregular u e h x = (x, λ v. v)
Read-kept R E f (regular b) u e h x = ((rw (sym e) refl, rw (sym e) refl), h)

-- A stream whose generations are as they were.
abbrev pub Kept : ℕ → Files → LegacySource → Type 0
Kept path base s =
    (f : Files)
    → Unchanged path base f
    → (f s.path previous ≡ base s.path previous) × (f s.path current ≡ base s.path current)

module _ (header_of : List ℕ → Part → List ℕ) (path : ℕ) (base : Files) (limit : ℕ)
    (bare : Bool) where
  stage_data-Triple :
      (header : List ℕ) (h : History) (seen : Bool) (a : Option (List ℕ))
      → Triple ⊥
          (Staging path base seen h)
          (stage_data path limit header h a)
          (λ t f.
            (merged_read limit header h (ok a) ≡ some t)
            × Staging path base (seen || is_some a) t f)
          (Unchanged path base)
  unfolding stage_data merged_read
  stage_data-Triple header h seen none =
      pure-Triple ⊥ _ _ _ h (λ f v. (refl, (v.0, v.1, λ e. v.2 (ground (arith, e)))))
  stage_data-Triple header h seen (some b) =
      weaken-Triple (λ f v. v.0)
        (λ t f v.
          (merged_read-stream_labeled limit header b h ∙ v.0, (v.1.0, v.1.1, λ e. v.1.2 refl)))
        (λ f v. v) (save-Triple path base _)

  stage_generation-Triple :
      (h : History) (seen : Bool) (s : LegacySource) (p : Part)
      → ((f : Files) → Unchanged path base f → f s.path p ≡ base s.path p)
      → Triple ⊥
          (Staging path base seen h)
          (stage_generation header_of path limit bare h s p)
          (λ t f.
            (merged_generation header_of limit bare base s p h ≡ some t)
            × Staging path base (seen || present (base s.path p)) t f)
          (Unchanged path base)
  unfolding stage_generation read_regular merged_generation
  stage_generation-Triple h seen s p k =
      then-Triple
        (read-Triple ⊥ _ _ _ (λ f. contents (f s.path p)) (λ f v. v.0)
          (λ f v.
            Read-kept (Staging path base seen h) (Unchanged path base) f (f s.path p)
              (base s.path p) (k f v.0) v v.0))
        (λ a. fact-Triple (λ e.
          rw (e.0, sym e.1)
            (stage_data-Triple (if bare then [] else header_of s.label p) h seen a)))

  pub stage_streams-Triple :
      (l : List LegacySource) (h : History) (seen : Bool)
      → All (Kept path base) l
      → Triple ⊥
          (Staging path base seen h)
          (stage_streams header_of path limit bare h l)
          (λ t f.
            (merged_streams header_of limit bare base l h ≡ some t)
            × Staging path base (any_present base l seen) t f)
          (Unchanged path base)
  unfolding stage_streams any_present merged_streams
  stage_streams-Triple [] h seen k = pure-Triple ⊥ _ _ _ h (λ f v. (refl, v))
  stage_streams-Triple (s ∷ l) h seen k =
      let p = present (base s.path previous) in
      let c = present (base s.path current) in
      then-Triple (stage_generation-Triple h seen s previous (λ f v. (k.0 f v).0)) (λ t.
        fact-Triple (λ d.
          then-Triple (stage_generation-Triple t (seen || p) s current (λ f v. (k.0 f v).1)) (λ u.
            fact-Triple (λ e.
              rw (d, e)
                (weaken-Triple (λ f v. (v.0, v.1, λ w. v.2 (ground (arith, w)))) (λ _ f v. v)
                  (λ f v. v) (stage_streams-Triple l u (seen || p || c) k.1))))))
