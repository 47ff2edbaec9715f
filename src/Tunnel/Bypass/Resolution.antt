-- ===== src/Tunnel/Bypass/Resolution.antt =====
-- The entries of a bypass policy are resolved all or not at all.
use dobby_vpn.Common.{
  List-cases, trim_space, ℕ, List, [], ◌∷◌, ◌++◌, Option, none, some, ◌≡◌, ◌↔◌, refl, arith, ◌∙◌,
  ap, ◌≢◌, sym, Option-cases, inl, inr,
}
use mathlib.Core.List.{append-nil, append_assoc}
use dobby_vpn.Failure.{GoError, ok, formatted, Result-cases}
use dobby_vpn.Tunnel.Bypass.{
  Network, Resolver, resolve_host, join_nonempty, resolve_loop, resolve_entries,
}

-- The networks that a list of entries stands for, in their order: none for a blank one, the network
-- that an entry writes, and otherwise the addresses of the host.
pub data Resolves (parse_cidr : List ℕ → Option Network) (resolver : Resolver)
    : List (List ℕ) → List Network → Type 0 where
  nothing : Resolves parse_cidr resolver [] []
  blank :
      {entry : List ℕ} {entries : List (List ℕ)} {ns : List Network}
      → trim_space entry ≡ []
      → Resolves parse_cidr resolver entries ns
      → Resolves parse_cidr resolver (entry ∷ entries) ns
  written :
      {entry : List ℕ} {entries : List (List ℕ)} {ns : List Network} {c : ℕ} {cs : List ℕ}
      {n : Network}
      → trim_space entry ≡ c ∷ cs
      → parse_cidr (c ∷ cs) ≡ some n
      → Resolves parse_cidr resolver entries ns
      → Resolves parse_cidr resolver (entry ∷ entries) (n ∷ ns)
  hosted :
      {entry : List ℕ} {entries : List (List ℕ)} {ns : List Network} {c : ℕ} {cs : List ℕ}
      {ms : List Network}
      → trim_space entry ≡ c ∷ cs
      → parse_cidr (c ∷ cs) ≡ none
      → resolve_host resolver (c ∷ cs) ≡ ok ms
      → Resolves parse_cidr resolver entries ns
      → Resolves parse_cidr resolver (entry ∷ entries) (ms ++ ns)

append-one : (es : List GoError) (e : GoError) → es ++ (e ∷ []) ≢ []
append-one [] e h = cc
append-one (x ∷ es) e h = cc

join_nonempty-nil : (es : List GoError) → join_nonempty es ≡ none → es ≡ []
join_nonempty-nil [] h = refl
join_nonempty-nil (e ∷ es) h = absurd (ground arith)

module _ (parse_cidr : List ℕ → Option Network) (resolver : Resolver) where
  abbrev loop : List Network → List GoError → List (List ℕ) → List Network × List GoError
  loop = resolve_loop parse_cidr resolver

  resolve_loop-Resolves :
      {entries : List (List ℕ)} {ns : List Network} (result : List Network) (errs : List GoError)
      → Resolves parse_cidr resolver entries ns
      → loop result errs entries ≡ (result ++ ns, errs)
  unfolding resolve_loop
  resolve_loop-Resolves result errs nothing = rw (resolve_loop, append-nil result) refl
  resolve_loop-Resolves result errs (blank q r) =
      rw (resolve_loop, q) (resolve_loop-Resolves result errs r)
  resolve_loop-Resolves result errs (written {ns} {n} q p r) =
      rw (resolve_loop, q, p)
        (resolve_loop-Resolves (result ++ (n ∷ [])) errs r
          ∙ ap (λ l. (l, errs)) (append_assoc result (n ∷ []) ns))
  resolve_loop-Resolves result errs (hosted {ns} {ms} q p t r) =
      rw (resolve_loop, q, p, t)
        (resolve_loop-Resolves (result ++ ms) errs r
          ∙ ap (λ l. (l, errs)) (append_assoc result ms ns))

  -- A loop that ends without an error began without one, and has added what its entries stand for.
  abbrev Added : List Network → List GoError → List (List ℕ) → List Network → Type 0
  Added result errs entries out =
      (errs ≡ [])
      × (ns : List Network) × (out ≡ result ++ ns)
      × Resolves parse_cidr resolver entries ns

  resolve_loop-Added :
      (result : List Network) (errs : List GoError) (entries : List (List ℕ)) (out : List Network)
      → loop result errs entries ≡ (out, [])
      → Added result errs entries out
  unfolding resolve_loop
  resolve_loop-Added result errs [] out h =
      (ap (λ r. r.1) h, [], sym (ap (λ r. r.0) h) ∙ sym (append-nil result), nothing)
  resolve_loop-Added result errs (x ∷ xs) out h = elim (List-cases (trim_space x)) [
    | inl q ↦
        let step : loop result errs (x ∷ xs) ≡ loop result errs xs = rw (resolve_loop, q) refl in
        let t = resolve_loop-Added result errs xs out (sym step ∙ h) in (t.0, t.1, t.2, blank q t.3)
    | inr (c, cs, q) ↦ elim (Option-cases (parse_cidr (c ∷ cs))) [
      | inr (n, p) ↦
          let step : loop result errs (x ∷ xs) ≡ loop (result ++ (n ∷ [])) errs xs =
            rw (resolve_loop, q, p) refl in
          let t = resolve_loop-Added (result ++ (n ∷ [])) errs xs out (sym step ∙ h) in
          (t.0, n ∷ t.1, t.2 ∙ append_assoc result (n ∷ []) t.1, written q p t.3)
      | inl p ↦ elim (Result-cases (resolve_host resolver (c ∷ cs))) [
        | inr (ms, r) ↦
            let step : loop result errs (x ∷ xs) ≡ loop (result ++ ms) errs xs =
              rw (resolve_loop, q, p, r) refl in
            let t = resolve_loop-Added (result ++ ms) errs xs out (sym step ∙ h) in
            (t.0, ms ++ t.1, t.2 ∙ append_assoc result ms t.1, hosted q p r t.3)
        | inl (e, r) ↦
            let failed = formatted "resolve bypass host" e in
            let step : loop result errs (x ∷ xs) ≡ loop result (errs ++ (failed ∷ [])) xs =
              rw (resolve_loop, q, p, r) refl in
            let t = resolve_loop-Added result (errs ++ (failed ∷ [])) xs out (sym step ∙ h) in
            absurd (append-one errs failed t.0)
      ]
    ]
  ]

  -- Entries resolve to a list of networks exactly where each of them does, blank ones aside, to the
  -- part of that list that stands at its place; one entry that fails lets all of them fail.
  pub resolve_entries_iff :
      (entries : List (List ℕ)) (ns : List Network)
      → (resolve_entries parse_cidr resolver entries ≡ ok ns)
        ↔ Resolves parse_cidr resolver entries ns
  unfolding resolve_entries
  resolve_entries_iff entries ns = (
    (λ h.
        let clean : (loop [] [] entries).1 ≡ [] =
          join_nonempty-nil (loop [] [] entries).1 (ground arith) in
        let out : (loop [] [] entries).0 ≡ ns = ground (arith, clean) in
        let t = resolve_loop-Added [] [] entries ns (λ i. (out i, clean i)) in rw t.2 t.3),
    (λ r. ground (arith, resolve_loop-Resolves [] [] r)),
  )
