-- ===== src/Tunnel/SocketScope/Destinations.antt =====
-- What a native socket has been authorized for when its protection succeeds.
use dobby_vpn.Common.{
  ℕ, ◌+◌, Bool, true, false, List, [], ◌∷◌, none, some, String, ◌≡◌, inl, inr, refl, arith, ◌∙◌, ap,
  sym, Option-cases, Within, if_cases, if◌then◌else◌,
}
use dobby_vpn.Failure.{Result, ok, Result-cases}
use dobby_vpn.Tunnel.SocketScope.{
  Network, Event, authorizes, SocketScope, Outside, protect_fd, protect_descriptor, read_family,
  protect_context_fd, matching, protect_each, protect_socket_destinations, is_ipv4, same_family,
}

-- Protecting a descriptor forgets nothing.
protect_context_fd_kept :
    (w : Outside) (s : SocketScope) (i fd : ℕ) (n : Network) (a : String) (log : List Event)
    (e : Event)
    → Within e log
    → Within e (protect_context_fd w (some s) i fd n a log).0
unfolding protect_context_fd protect_fd protect_descriptor
protect_context_fd_kept w s i fd n a log e h = ground arith

-- Where it succeeds, the destination has been authorized without an error.
protect_context_fd_authorized :
    (w : Outside) (s : SocketScope) (i fd : ℕ) (n : Network) (a : String) (log : List Event)
    → s.has_permissions ≡ true
    → w.is_loopback a ≡ false
    → (protect_context_fd w (some s) i fd n a log).1 ≡ none
    → Within (authorizes s.generation n a none) (protect_context_fd w (some s) i fd n a log).0
unfolding protect_context_fd protect_fd protect_descriptor
protect_context_fd_authorized w s i fd n a log p l h = ground arith

protect_each_kept :
    (w : Outside) (s : SocketScope) (i fd : ℕ) (n : Network) (l : List String) (log : List Event)
    (e : Event)
    → Within e log
    → Within e (protect_each w (some s) i fd n l log).0
unfolding protect_each
protect_each_kept w s i fd n [] log e h = h
protect_each_kept w s i fd n (a ∷ rest) log e h =
    let k = protect_context_fd_kept w s i fd n a log e h in
    let r = protect_context_fd w (some s) i fd n a log in
    let t = protect_each_kept w s (i + 2) fd n rest r.0 e k in
    elim (Option-cases r.1) [ inl q ↦ rw (protect_each, q) t | inr (x, q) ↦ rw (protect_each, q) k ]

protect_each_authorized :
    (w : Outside) (s : SocketScope) (i fd : ℕ) (n : Network) (l : List String) (log : List Event)
    (a : String)
    → s.has_permissions ≡ true
    → w.is_loopback a ≡ false
    → Within a l
    → (protect_each w (some s) i fd n l log).1 ≡ none
    → Within (authorizes s.generation n a none) (protect_each w (some s) i fd n l log).0
unfolding protect_each
protect_each_authorized w s i fd n [] log a p f m h = absurd m
protect_each_authorized w s i fd n (b ∷ rest) log a p f m h =
    let r = protect_context_fd w (some s) i fd n b log in
    elim (Option-cases r.1) [
      | inr (x, q) ↦ absurd (ground (arith, q))
      | inl q ↦
          let h' : (protect_each w (some s) (i + 2) fd n rest r.0).1 ≡ none = ground (arith, q) in
          elim m [
            | inr t ↦
                rw (protect_each, q) (protect_each_authorized w s (i + 2) fd n rest r.0 a p f t h')
            | inl e ↦
                let own =
                  protect_context_fd_authorized w s i fd n b log p (ap w.is_loopback e ∙ f) q in
                rw (protect_each, q)
                  (protect_each_kept w s (i + 2) fd n rest r.0 (authorizes s.generation n a none)
                    (rw (sym e) own))
          ]
    ]

matching-cons :
    (w : Outside) (n : Network) (x : String) (rest out : List String)
    → matching w n (x ∷ rest) ≡ ok out
    → (c : Bool) × (o : List String) × (read_family w x ≡ ok c)
      × (matching w n rest ≡ ok o)
      × (out ≡ (if same_family c (is_ipv4 n) then x ∷ o else o))
unfolding matching
matching-cons w n x rest out h = elim (Result-cases (read_family w x)) [
  | inl (e, q) ↦ absurd (ground (arith, q))
  | inr (c, q) ↦ elim (Result-cases (matching w n rest)) [
    | inl (e, r) ↦ absurd (ground (arith, q, r))
    | inr (o, r) ↦ (c, o, q, r, ground (arith, q, r))
  ]
]

matching-Within :
    (w : Outside) (n : Network) (l out : List String) (a : String) (b : Bool)
    → matching w n l ≡ ok out
    → Within a l
    → read_family w a ≡ ok b
    → same_family b (is_ipv4 n) ≡ true
    → Within a out
matching-Within w n [] out a b h m r f = absurd m
matching-Within w n (x ∷ rest) out a b h m r f =
    let c = matching-cons w n x rest out h in
    let later : Within a rest → Within a c.1 = λ t. matching-Within w n rest c.1 a b c.3 t r f in
    elim m [
      | inl e ↦
          let same : c.0 ≡ b = cc in
          let taken : out ≡ x ∷ c.1 = ground (arith, c.4, same) in rw taken (inl e)
      | inr t ↦
          rw c.4
            (if_cases (Within a) (same_family c.0 (is_ipv4 n)) (λ _. inr (later t)) (λ _. later t))
    ]

-- The protection of a native socket that succeeds for an attempt with permissions has asked them to
-- authorize each listed address of the socket's family, loopback ones aside, for its generation, and
-- each of these calls has succeeded.
pub protect_socket_destinations_authorized :
    (w : Outside) (s : SocketScope) (fd : ℕ) (network : Result Network) (l : List String)
    (log : List Event) (n : Network) (a : String) (b : Bool)
    → s.has_permissions ≡ true
    → network ≡ ok n
    → (protect_socket_destinations w (some s) fd network l log).1 ≡ none
    → Within a l
    → read_family w a ≡ ok b
    → same_family b (is_ipv4 n) ≡ true
    → w.is_loopback a ≡ false
    → Within
        (authorizes s.generation n a none)
        (protect_socket_destinations w (some s) fd network l log).0
unfolding protect_socket_destinations
protect_socket_destinations_authorized w s fd network [] log n a b p q h m r f g = absurd m
protect_socket_destinations_authorized w s fd network (x ∷ rest) log n a b p q h m r f g =
    let l = x ∷ rest in
    elim (Option-cases (w.context 0)) [
      | inr (e, c) ↦ absurd (ground (arith, c))
      | inl c ↦ elim (Result-cases (matching w n l)) [
        | inl (e, t) ↦ absurd (ground (arith, c, q, t))
        | inr ([], t) ↦ absurd (ground (arith, c, q, t))
        | inr (y ∷ ys, t) ↦
            let all : protect_socket_destinations w (some s) fd network l log
                ≡ protect_each w (some s) 1 fd n (y ∷ ys) log =
              rw (protect_socket_destinations, c, q, t) refl in
            let listed = matching-Within w n l (y ∷ ys) a b t m r f in
            rw all (
              protect_each_authorized w s 1 fd n (y ∷ ys) log a p g listed
                (sym (ap (λ z. z.1) all) ∙ h))
      ]
    ]
