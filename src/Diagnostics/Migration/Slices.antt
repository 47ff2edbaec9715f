-- ===== src/Diagnostics/Migration/Slices.antt =====
-- What a ReadSlice returns, and when a history is found oversized.
use dobby_vpn.Common.{
  ℕ, zero, suc, ◌+◌, ◌<◌, ◌⊎◌, inl, inr, true, false, List, [], ◌∷◌, ◌++◌, some, ◌≡◌, refl, arith,
  length, contains,
}
use dobby_vpn.Diagnostics.Migration.{
  Ended, line, full, eof, read_slice, scan, section, buffer, has_record_after_limit,
}

-- What a ReadSlice returns is the input's beginning, and it returns nothing only at the end.
pub read_slice-append :
    (n : ℕ) (input : List ℕ) → (read_slice n input).0 ++ (read_slice n input).1 ≡ input
unfolding read_slice
read_slice-append zero input = refl
read_slice-append (suc n) [] = refl
read_slice-append (suc n) (b ∷ bs) = ground (arith, read_slice-append n bs)

pub read_slice-nil : (n : ℕ) (input : List ℕ) → 0 < n → (read_slice n input).0 ≡ [] → input ≡ []
unfolding read_slice
read_slice-nil zero input h q = absurd (omega arith)
read_slice-nil (suc n) [] h q = refl
read_slice-nil (suc n) (b ∷ bs) h q = absurd (ground arith)

pub read_slice-eof :
    (n : ℕ) (input : List ℕ) → (read_slice n input).2 ≡ eof → (read_slice n input).1 ≡ []
unfolding read_slice
read_slice-eof zero input h = absurd (ground arith)
read_slice-eof (suc n) [] h = refl
read_slice-eof (suc n) (b ∷ bs) h = ground (arith, read_slice-eof n bs)

pub Ended-cases : (e : Ended) → (e ≡ eof) ⊎ ((e ≡ line) ⊎ (e ≡ full))
Ended-cases line = inr (inl refl)
Ended-cases full = inr (inr refl)
Ended-cases eof = inl refl

read_slice-contains :
    (n : ℕ) (input : List ℕ)
    → let r = read_slice n input in
      (r.2 ≡ line → contains 10 input ≡ true)
      × (r.2 ≡ full → (contains 10 input ≡ contains 10 r.1) × (length r.1 + n ≡ length input))
      × (r.2 ≡ eof → contains 10 input ≡ false)
unfolding read_slice
read_slice-contains zero input = (λ h. cc, λ h. (refl, omega arith), λ h. cc)
read_slice-contains (suc n) [] = (λ h. cc, λ h. cc, λ h. refl)
read_slice-contains (suc n) (b ∷ bs) =
    let t = read_slice-contains n bs in
    (
      λ h. ground (arith, t.0),
      λ h. (ground (arith, t.1), ground (arith, t.1)),
      λ h. ground (arith, t.2),
    )

scan_lem :
    (n room : ℕ) (input : List ℕ)
    → 0 < room
    → length input < n
    → scan n room input ≡ some (contains 10 input)
unfolding scan
scan_lem zero room input p f = absurd (omega arith)
scan_lem (suc n) room input p f =
    let r = read_slice room input in
    let t = read_slice-contains room input in
    elim (Ended-cases r.2) [
      | inl e ↦ rw (scan, e, t.2 e) refl
      | inr (inl e) ↦ rw (scan, e, t.0 e) refl
      | inr (inr e) ↦
          let g = t.1 e in rw (scan, e, g.0) (scan_lem n room r.1 p (omega (arith, g.1)))
    ]

-- A history has a record behind its limit exactly where there is a newline from the last byte within
-- the limit on, the very last byte of the file aside; the scan always ends.
pub has_record_after_limit_lem :
    (limit : ℕ) (bytes : List ℕ)
    → has_record_after_limit limit bytes ≡ some (contains 10 (section limit bytes))
unfolding has_record_after_limit
has_record_after_limit_lem limit bytes =
    scan_lem (length (section limit bytes) + 1) buffer (section limit bytes) (omega arith)
      (omega arith)
