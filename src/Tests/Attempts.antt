-- ===== src/Tests/Attempts.antt =====
-- A lease whose second undo function fails at first, and health checks that fail three times.
use dobby_vpn.Common.{
  ℕ, ◌==◌, true, List, [], ◌∷◌, ◌++◌, Option, none, some, ◌≡◌, if◌then◌else◌, length, is_some,
  arith, false,
}
use dobby_vpn.Failure.{GoError, foreign}
use dobby_vpn.Runtime.Lease.{Lease, order, stops, stops-order}
use dobby_vpn.Runtime.Monitor.{monitor, failed, Run, monitor-reports}

abbrev held : Lease
held = record {
  stopped = false;
  undo = 3 ∷ 2 ∷ 1 ∷ [];
  undone = [];
  monitored = true;
  canceled = false;
  watched = true;
  done = 0;
}

abbrev stuck : ℕ → Option GoError
stuck f = if f == 2 then some (foreign "busy") else none

abbrev free : ℕ → Option GoError
free f = none

stops-order_example :
    order (stops ((stuck, none) ∷ (free, some (foreign "late")) ∷ (free, none) ∷ []) held)
    ≡ order held
stops-order_example =
    stops-order ((stuck, none) ∷ (free, some (foreign "late")) ∷ (free, none) ∷ []) held

abbrev lost : Option GoError
lost = some (foreign "lost")

abbrev checks : List (Option GoError)
checks = lost ∷ none ∷ lost ∷ lost ∷ lost ∷ []

monitor-reports_example :
    ((cause : Option GoError) → monitor 3 [] checks ≡ some cause → Run 3 checks cause)
    × ((before rest : List (Option GoError)) (run : List GoError)
        → checks ≡ before ++ (failed run ++ rest)
        → length run ≡ 3
        → is_some (monitor 3 [] checks) ≡ true)
monitor-reports_example = monitor-reports 3 checks (omega arith)
