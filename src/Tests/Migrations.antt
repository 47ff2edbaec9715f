-- ===== src/Tests/Migrations.antt =====
-- A history and one former stream, whose migration is refused a file operation.
use dobby_vpn.Common.{
  ℕ, Bool, true, false, ◌+◌, ◌⊎◌, List, [], ◌∷◌, Option, none, some, ◌≡◌, ◌==◌, refl, arith,
  if◌then◌else◌,
}
use dobby_vpn.Failure.{ok}
use dobby_vpn.Diagnostics.Migration.{missing, regular}
use dobby_vpn.Diagnostics.Disk.{Part, part_number, Files, Disk}
use dobby_vpn.Diagnostics.Legacy.{LegacySource, LegacyCommit, items}
use dobby_vpn.Diagnostics.Legacy.Transaction.{migrate_legacy_transaction}
use dobby_vpn.Diagnostics.Legacy.Publication.{Content}
use dobby_vpn.Diagnostics.Legacy.Merging.{Merges, merged_history}
use dobby_vpn.Diagnostics.Legacy.Resumption.{Finished, Resumable}
use dobby_vpn.Diagnostics.Legacy.Staging.{Unchanged}
use dobby_vpn.Diagnostics.Legacy.Recovery.{migrate_legacy_transaction-recovers}

abbrev streams : Option (List LegacySource)
streams = some (record { path = 1; label = [] } ∷ [])

-- Two histories, each with a current generation of one line.
abbrev two_files : Files
two_files h p = if part_number p == 0 then regular ((h + 97) ∷ 10 ∷ []) else missing

abbrev refusing : Disk
refusing = record { files = two_files; refusals = false ∷ false ∷ true ∷ [] }

abbrev marshal : LegacyCommit → List ℕ
marshal k = (if k.has_previous then 1 else 0) ∷ []

abbrev unmarshal : List ℕ → Option LegacyCommit
unmarshal [] = none
unmarshal (b ∷ bs) = some (record { sources = streams; has_previous = b == 1 })

abbrev no_header : List ℕ → Part → List ℕ
no_header label p = []

readable :
    (b : Bool)
    → unmarshal (marshal (record { sources = streams; has_previous = b }))
      ≡ some (record { sources = streams; has_previous = b })
readable true = refl
readable false = refl

migrate_legacy_transaction-recovers_example :
    let run =
      migrate_legacy_transaction (λ s. []) marshal unmarshal no_header 1 0 streams 64 false [] in
    let f = (run refusing).0.files in
    let t = run (record { files = f; refusals = [] }) in
    Unchanged 0 two_files f
    ⊎ ((c : Content) × (c.base ≡ two_files)
        × Merges (merged_history no_header 64 0 streams false [] two_files) c
        × (Finished 0 c (items streams) f
            ⊎ (Resumable 0 c f × (t.1 ≡ ok tt) × Finished 0 c (items streams) t.0.files)))
migrate_legacy_transaction-recovers_example =
    migrate_legacy_transaction-recovers (λ s. []) marshal unmarshal no_header 0 streams 64 false []
      0 refusing ((λ h. omega (arith, h)), tt) (λ b. (readable b, ground arith))
      (λ h. absurd (ground (arith, h))) refl
