-- ===== src/Diagnostics/Migration/Streaming.antt =====
-- What the migration of a history keeps.
use mathlib.Core.List.{append-nil, append_assoc}
use dobby_vpn.Common.{
  List-cases, ℕ, zero, suc, ◌+◌, ◌<◌, ◌≤◌, ◌⊎◌, inl, inr, Bool, false, ◌&&◌, List, [], ◌++◌, some,
  ◌≡◌, refl, arith, ap, sym, ◌∙◌, leb, length, length-append, if_cases,
}
use dobby_vpn.Diagnostics.Migration.{
  Ended, read_slice, buffer, History, rotate, append, write_header, write_piece, ends_line, stream,
  stream_migration,
}
use dobby_vpn.Diagnostics.Migration.Slices.{
  read_slice-append, read_slice-nil, read_slice-eof, Ended-cases,
}

abbrev whole : History → List ℕ
whole h = h.previous ++ h.current

-- From one destination to another: what was there and what has come is still there, in its order,
-- behind what the rotations have dropped; and unless nothing was dropped, the previous generation
-- has at least `limit` bytes.
record Kept (limit : ℕ) (h t : History) (input : List ℕ) : Type 0 where
  lost : List ℕ
  order : lost ++ whole t ≡ whole h ++ input
  enough : ((lost ≡ []) × (t.previous ≡ h.previous)) ⊎ (limit ≤ length t.previous)
  counted : t.size ≡ length t.current
  bare : t.need_header ≡ false

rotate-Kept :
    (limit : ℕ) (h : History)
    → h.size ≡ length h.current
    → h.need_header ≡ false
    → Kept limit h (rotate limit [] h) []
unfolding rotate
rotate-Kept limit h c b =
    if_cases (λ t. Kept limit h t []) (h.at_start && leb limit h.size)
      (λ q. record {
        lost = h.previous;
        order =
            ap (λ l. h.previous ++ l) (append-nil h.current)
            ∙ sym (append-nil (h.previous ++ h.current));
        enough = inr (ground (arith, c));
        counted = refl;
        bare = refl;
      })
      (λ q. record {
        lost = [];
        order = sym (append-nil (h.previous ++ h.current));
        enough = inl (refl, refl);
        counted = c;
        bare = b;
      })

-- Two steps in a row.
then-Kept :
    (limit : ℕ) (h t u : History) (xs ys : List ℕ)
    → Kept limit h t xs
    → Kept limit t u ys
    → Kept limit h u (xs ++ ys)
then-Kept limit h t u xs ys a b = record {
  lost = a.lost ++ b.lost;
  order =
      append_assoc a.lost b.lost (whole u)
      ∙ ap (λ l. a.lost ++ l) b.order
      ∙ sym (append_assoc a.lost (whole t) ys)
      ∙ ap (λ l. l ++ ys) a.order
      ∙ append_assoc (whole h) xs ys;
  enough = elim b.enough [
    | inr e ↦ inr e
    | inl (l, p) ↦ elim a.enough [ inl (k, q) ↦ inl (rw (l, k) refl, p ∙ q) | inr e ↦ inr (rw p e) ]
  ];
  counted = b.counted;
  bare = b.bare;
}

no_header : (header : List ℕ) (h : History) → h.need_header ≡ false → write_header header h ≡ h
unfolding write_header
no_header header h b = ground arith

append-Kept :
    (limit : ℕ) (h : History) (piece : List ℕ) (b : Bool)
    → h.size ≡ length h.current
    → h.need_header ≡ false
    → Kept limit h (record (append piece h) { at_start = b }) piece
unfolding append
append-Kept limit h piece b c n = record {
  lost = [];
  order = sym (append_assoc h.previous h.current piece);
  enough = inl (refl, refl);
  counted = omega (arith, c, length-append h.current piece);
  bare = n;
}

write_piece-Kept :
    (limit : ℕ) (h : History) (piece : List ℕ) (e : Ended)
    → h.size ≡ length h.current
    → h.need_header ≡ false
    → Kept limit h (write_piece limit [] h piece e) piece
unfolding write_piece
write_piece-Kept limit h piece e c b =
    let r = rotate-Kept limit h c b in
    let t = rotate limit [] h in
    let own = append-Kept limit t piece (ends_line e) r.counted r.bare in
    rw (write_piece, no_header [] t r.bare) (then-Kept limit h t _ [] piece r own)

none-Kept :
    (limit : ℕ) (h : History) (input : List ℕ)
    → h.size ≡ length h.current
    → h.need_header ≡ false
    → input ≡ []
    → Kept limit h h input
none-Kept limit h input c b q = record {
  lost = [];
  order = sym (append-nil (whole h)) ∙ ap (λ l. whole h ++ l) (sym q);
  enough = inl (refl, refl);
  counted = c;
  bare = b;
}

Streamed : ℕ → ℕ → ℕ → History → List ℕ → Type 0
Streamed n room limit h input =
    (t : History) × (stream n room limit [] h input ≡ some t) × Kept limit h t input

-- The rounds after a piece that does not end the input.
next-Kept :
    (limit : ℕ) (h t : History) (piece rest input : List ℕ) (e : Ended)
    → h.size ≡ length h.current
    → h.need_header ≡ false
    → piece ++ rest ≡ input
    → Kept limit (write_piece limit [] h piece e) t rest
    → Kept limit h t input
next-Kept limit h t piece rest input e c b q k = rw (sym q) (
    then-Kept limit h (write_piece limit [] h piece e) t piece rest
      (write_piece-Kept limit h piece e c b) k)

stream_lem :
    (n room limit : ℕ) (h : History) (input : List ℕ)
    → 0 < room
    → length input < n
    → h.size ≡ length h.current
    → h.need_header ≡ false
    → Streamed n room limit h input
unfolding stream Streamed
stream_lem zero room limit h input p f c b = absurd (omega arith)
stream_lem (suc n) room limit h input p f c b =
    let r = read_slice room input in
    let all = read_slice-append room input in
    let k = write_piece-Kept limit h r.0 r.2 c b in
    let w = write_piece limit [] h r.0 r.2 in
    elim (List-cases r.0) [
      | inl q ↦
          (h, rw (stream, q) refl, none-Kept limit h input c b (read_slice-nil room input p q))
      | inr (x, xs, q) ↦
          let shorter : length r.1 < n = ground (arith, f, all, length-append r.0 r.1, q) in
          let later = stream_lem n room limit w r.1 p shorter k.counted k.bare in
          elim (Ended-cases r.2) [
            | inl e ↦ (
              w,
              ground (arith, q, e),
              next-Kept limit h w r.0 r.1 input r.2 c b all
                  (none-Kept limit w r.1 k.counted k.bare (read_slice-eof room input e)),
            )
            | inr (inl e) ↦ (
              later.0,
              ground (arith, q, e, later.1),
              next-Kept limit h later.0 r.0 r.1 input r.2 c b all later.2,
            )
            | inr (inr e) ↦ (
              later.0,
              ground (arith, q, e, later.1),
              next-Kept limit h later.0 r.0 r.1 input r.2 c b all later.2,
            )
          ]
    ]

-- The migration of an input without a header always ends: what the destination had and then the
-- input, in their order, is what was dropped and then what the destination has, and nothing was
-- dropped unless the previous generation that it leaves has at least `limit` bytes.
pub stream_migration_lem :
    (limit : ℕ) (h : History) (input : List ℕ)
    → h.size ≡ length h.current
    → (t : History) × (stream_migration limit [] h input ≡ some t)
      × (lost : List ℕ) × (lost ++ (t.previous ++ t.current) ≡ (h.previous ++ h.current) ++ input)
      × ((lost ≡ []) ⊎ (limit ≤ length t.previous))
unfolding stream_migration Streamed
stream_migration_lem limit h input c =
    let s =
      stream_lem (length input + 1) buffer limit (record h { need_header = false }) input
        (omega arith) (omega arith) c refl in
    (s.0, s.1, s.2.lost, s.2.order, elim s.2.enough [ inl l ↦ inl l.0 | inr e ↦ inr e ])
