-- ===== src/Diagnostics/Legacy/Marking.antt =====
-- What reading the marker of a transaction returns.
use dobby_vpn.Common.{
  same, length, ltb, ◌≤◌, ℕ, true, List, [], ◌∷◌, Option, none, some, ◌≡◌, refl, arith, if_cases,
}
use dobby_vpn.Diagnostics.Disk.{marker, Files, M, read_regular, contents}
use dobby_vpn.Diagnostics.Disk.Triples.{Triple, then-Triple, pure-Triple, read-Triple, fact-Triple}
use dobby_vpn.Diagnostics.Legacy.Publication.{Marked}
use dobby_vpn.Diagnostics.Legacy.Staging.{Unchanged}
use dobby_vpn.Diagnostics.Legacy.Transaction.{bounded, max_marker, read_legacy_marker}

pub unmarked-Triple :
    (path : ℕ) (base : Files)
    → Triple ⊥
        (Unchanged path base)
        (read_legacy_marker path)
        (λ a f. (a ≡ none) × Unchanged path base f)
        (Unchanged path base)
unfolding read_legacy_marker read_regular
unmarked-Triple path base =
    then-Triple {Q = λ a f. (a ≡ none) × Unchanged path base f}
      (read-Triple ⊥ _ _ _ (λ f. contents (f path marker)) (λ f h. h) (λ f h. rw h.0 (refl, h)))
      (λ a. fact-Triple {X = a ≡ none} (λ e. rw e (pure-Triple ⊥ _ _ _ none (λ f h. (refl, h)))))

bounded-Triple :
    (S : Type 0) (b : List ℕ) (R E : Files → Type 0)
    → length b ≤ max_marker
    → Triple S R (bounded (some b)) (λ a f. (a ≡ some b) × R f) E
bounded-Triple S b R E l =
    if_cases (λ (m : M (Option (List ℕ))). Triple S R m (λ a f. (a ≡ some b) × R f) E)
      (ltb max_marker (length b)) (λ h. absurd (ground (arith, l, h)))
      (λ _. pure-Triple S _ _ _ (some b) (λ f h. (refl, h)))

pub Marked-Triple :
    (path : ℕ) (b : List ℕ) (R : Files → Type 0)
    → length b ≤ max_marker
    → ((f : Files) → R f → Marked path b f)
    → Triple (Unit {0}) R (read_legacy_marker path) (λ a f. (a ≡ some b) × R f) R
unfolding read_legacy_marker read_regular
Marked-Triple path b R l m =
    then-Triple {Q = λ a f. (a ≡ some b) × R f}
      (read-Triple (Unit {0}) _ _ _ (λ f. contents (f path marker)) (λ f h. h)
        (λ f h. rw (m f h) (refl, h)))
      (λ a. fact-Triple {X = a ≡ some b} (λ e. rw e (bounded-Triple (Unit {0}) b R R l)))

pub same_refl : (l : List ℕ) → same l l ≡ true
unfolding same
same_refl [] = refl
same_refl (x ∷ l) = ground (arith, same_refl l)
