-- ===== src/Tests/Histories.antt =====
-- The migration of a short history into one with a limit of four bytes.
use dobby_vpn.Common.{ℕ, ◌≤◌, ◌⊎◌, List, [], ◌∷◌, ◌++◌, some, codes, length, ◌≡◌, true, false, refl}
use dobby_vpn.Diagnostics.Migration.{History, stream_migration}
use dobby_vpn.Diagnostics.Migration.Streaming.{stream_migration_lem}

abbrev history : History
history = record {
  previous = codes "old" ++ (10 ∷ []);
  current = codes "abc" ++ (10 ∷ []);
  size = 4;
  at_start = true;
  need_header = false;
}

abbrev input : List ℕ
input = codes "def" ++ (10 ∷ []) ++ codes "ghi"

stream_migration_lem_example :
    (t : History) × (stream_migration 4 [] history input ≡ some t)
    × (lost : List ℕ) × (lost ++ (t.previous ++ t.current)
        ≡ (history.previous ++ history.current) ++ input)
    × ((lost ≡ []) ⊎ (4 ≤ length t.previous))
stream_migration_lem_example = stream_migration_lem 4 history input refl
