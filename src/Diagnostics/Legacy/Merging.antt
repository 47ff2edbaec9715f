-- ===== src/Diagnostics/Legacy/Merging.antt =====
-- The history that a migration is to leave, as a function of the files it starts from.
use dobby_vpn.Common.{
  ℕ, Bool, true, false, refl, ◌&&◌, List, [], ◌∷◌, Option, none, some, ◌≡◌, if◌then◌else◌,
}
use dobby_vpn.Failure.{Result, ok, err}
use dobby_vpn.Diagnostics.Migration.{History, is_nonempty, stream_migration}
use dobby_vpn.Diagnostics.Disk.{Part, current, previous, Files, contents}
use dobby_vpn.Diagnostics.Legacy.{LegacySource, items}
use dobby_vpn.Diagnostics.Legacy.Publication.{Content}
use dobby_vpn.Diagnostics.Legacy.Transaction.{stream_labeled, begun, is_empty}

-- A header that is not empty begins a line, so where the last line is not ended, a newline ends it.
abbrev on_own_line : Bool → List ℕ → List ℕ × Bool
on_own_line true header = (header, true)
on_own_line false [] = ([], false)
on_own_line false (b ∷ bs) = (10 ∷ b ∷ bs, true)

unfoldable pub merged_read : ℕ → List ℕ → History → Result (Option (List ℕ)) → Option History
unfolding stream_migration
merged_read limit header h (ok none) = some h
merged_read limit header h (ok (some bytes)) =
    let r = on_own_line h.at_start header in
    stream_migration limit r.0 (record h { at_start = r.1 }) bytes
merged_read limit header h (err e) = none

own_line_cases :
    (limit : ℕ) (header bytes : List ℕ) (h : History) (b : Bool)
    → h.at_start ≡ b
    → merged_read limit header h (ok (some bytes)) ≡ stream_labeled limit header h bytes
unfolding merged_read stream_labeled
own_line_cases limit header bytes h true e = rw e refl
own_line_cases limit [] bytes h false e = rw e refl
own_line_cases limit (x ∷ xs) bytes h false e = rw e refl

-- stageLegacyStreams puts the header where it belongs.
pub merged_read-stream_labeled :
    (limit : ℕ) (header bytes : List ℕ) (h : History)
    → merged_read limit header h (ok (some bytes)) ≡ stream_labeled limit header h bytes
merged_read-stream_labeled limit header bytes h =
    own_line_cases limit header bytes h h.at_start refl

abbrev pub after : Option History → (History → Option History) → Option History
after none k = none
after (some t) k = k t

module _ (header_of : List ℕ → Part → List ℕ) (limit : ℕ) where
  unfoldable pub merged_generation : Bool → Files → LegacySource → Part → History → Option History
  unfolding merged_read
  merged_generation bare base s p h =
      merged_read limit (if bare then [] else header_of s.label p) h (contents (base s.path p))

  -- The generations of streams, oldest first, each after its header.
  unfoldable pub merged_streams : Bool → Files → List LegacySource → History → Option History
  unfolding merged_generation
  merged_streams bare base [] h = some h
  merged_streams bare base (s ∷ l) h =
      after
        (after (merged_generation bare base s previous h) (merged_generation bare base s current))
        (merged_streams bare base l)

  -- The history itself, and then the former streams.
  unfoldable pub merged_history :
      ℕ → Option (List LegacySource) → Bool → List ℕ → Files → Option History
  unfolding merged_streams
  merged_history path sources force existing base =
      merged_streams (force && is_empty (items sources)) base
        (record { path = path; label = existing } ∷ items sources) begun

-- The generations of a content are those of a merged history.
abbrev pub Merges : Option History → Content → Type 0
Merges o c =
    (t : History) × (o ≡ some t)
    × (c.current_of ≡ t.current)
    × (c.previous_of ≡ t.previous)
    × (c.has_previous ≡ is_nonempty t.previous)
