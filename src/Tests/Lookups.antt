-- ===== src/Tests/Lookups.antt =====
-- Lookups while the network changes, and a log file at its limit.
use dobby_vpn.Common.{
  ℕ, ◌≤◌, ◌≢◌, ◌⊎◌, Bool, true, false, List, [], ◌∷◌, none, some, Option, ◌≡◌, refl, arith,
}
use dobby_vpn.Failure.{GoError, Result, ok}
use dobby_vpn.Dns.Cache.{Cache, set_resolver, run, sets_resolver, verdict, verdict-current, step}
use dobby_vpn.Diagnostics.Writer.{
  Writer, Files, write_record, records_of, size, open_append, rotate_files, append_record,
  write_record-retained,
}

abbrev wifi : Cache
wifi = record { resolver = some 1; identity = "wifi"; revision = 4; source = some 2 }

same_network :
    verdict wifi.revision (run wifi (sets_resolver "wifi" (some 1) ∷ [])) none (8 ∷ []) none
    ≡ ok (8 ∷ [])
unfolding verdict run step set_resolver
same_network = refl

verdict-current_example :
    (run wifi (sets_resolver "wifi" (some 1) ∷ []) ≡ wifi)
    × (Path (List ℕ) (8 ∷ []) (8 ∷ []))
    × (◌≢◌ {A = List ℕ} (8 ∷ []) [])
    × (Path (Option GoError) none none)
    × (Path (Option GoError) none none)
verdict-current_example =
    verdict-current wifi (sets_resolver "wifi" (some 1) ∷ []) none (8 ∷ []) (8 ∷ []) none
      (omega arith) (omega arith) same_network

abbrev full : Files
full = record {
  current = some (record { id = 1; records = 60 ∷ 50 ∷ [] });
  previous = none;
  fresh_id = 2;
}

abbrev rotating : Writer
rotating = record { limit = 100; closed = false; rotate = true; last_id = none }

abbrev forty : Bool → Result ℕ
forty first = ok 40

written : (write_record rotating full forty).2 ≡ ok 40
unfolding write_record open_append rotate_files append_record size
written = refl

write_record-retained_example :
    let t = (write_record rotating full forty).1 in
    ((records_of t.current ≡ 40 ∷ records_of full.current) × (t.previous ≡ full.previous))
    ⊎ ((records_of t.current ≡ 40 ∷ [])
        × (t.previous ≡ full.current)
        × (rotating.rotate ≡ true)
        × (rotating.limit ≤ size (records_of full.current))
        × (forty true ≡ ok 40))
write_record-retained_example = write_record-retained rotating full forty 40 (omega arith) written
