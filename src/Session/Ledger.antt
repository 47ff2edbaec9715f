-- ===== src/Session/Ledger.antt =====
-- core/sessionapi/api.go: the type `ledger`, the newest closer first.
use dobby_vpn.Common.{List, [], ◌∷◌, Option, none, some, ◌≡◌, refl, inl, inr, Option-cases, All}
use dobby_vpn.Failure.{GoError}
use dobby_vpn.Session.Types.{Closer}

unfoldable pub push : Closer → List Closer → List Closer
push c l = c ∷ l

-- The `closers` call answers an error or nil; the first error stops the loop and keeps the rest.
unfoldable pub release : (Closer → Option GoError) → List Closer → Option GoError × List Closer
release close [] = (none, [])
release close (c ∷ l) =
    let rest = release close l in elim (close c) [ none ↦ rest | some e ↦ (some e, c ∷ l) ]

-- A release that succeeds has closed every closer, and keeps none.
pub release-ok :
    (close : Closer → Option GoError) (l : List Closer)
    → (release close l).0 ≡ none
    → ((release close l).1 ≡ []) × All (λ c. close c ≡ none) l
unfolding release
release-ok close [] h = (refl, tt)
release-ok close (c ∷ l) h = elim (Option-cases (close c)) [
  | inl e ↦ let r = release-ok close l (rw (e, release) at h) in (rw (e, release) r.0, (e, r.1))
  | inr (x, e) ↦ let h' : some x ≡ none = rw (e, release) at h in cc
]
