-- ===== src/Tests/Endings.antt =====
-- How attempts end: a stopped attempt, a connection that fails, and what is saved for a restart.
use dobby_vpn.Common.{◌<◌, true, false, [], ◌∷◌, none, some, pos, ◌≡◌, ◌⊎◌, refl, arith}
use dobby_vpn.Failure.{FailureCode, foreign, code_of}
use dobby_vpn.Session.Types.{Session, State, StartMode, ConfigSourceKind, Stage, Closer}
use dobby_vpn.Session.Attempt.{Environment, at_stage, auto_recovery_limit}
use dobby_vpn.Session.Health.{report_health_failure}
use dobby_vpn.Session.Progress.{stages, IsReleased, finish_releases}
use dobby_vpn.Session.Recovery.{report_bounded}
use dobby_vpn.Session.Activation.{SavedActivation, Store}
use dobby_vpn.Tests.Manager.{ready, running, runner}

abbrev quiet : Environment
quiet = record {
  platform = (none, none);
  network = none;
  started = (none, none);
  health = none;
  close = λ c. none;
  stamp = λ p. "profile 0 (outline)";
  now = 9;
}

-- An attempt that Stop has reached, whose goroutine enters finish.
abbrev stopping : Session
stopping = record running {
  state = State.stopping;
  stop_requested = true;
  vpn_active = true;
  ledger = some (Closer.runtime_lease 4 ∷ []);
  network_ledger = some (Closer.network_lease 3 ∷ Closer.platform_lease 2 ∷ []);
}

finish_releases_example :
    IsReleased (stages 5 quiet stopping (at_stage runner (Stage.finishing none))).0
    × ((stages 5 quiet stopping (at_stage runner (Stage.finishing none))).1 ≡ [])
finish_releases_example =
    finish_releases quiet none (unfold code_of in refl) (λ x. refl) stopping
      (at_stage runner (Stage.finishing none)) refl refl refl refl

-- A connection of a second, whose budget has one restart used up.
abbrev online : Session
online = record running {
  state = State.connected;
  vpn_active = true;
  recovery_count = 1;
  recovery_origin_generation = 1;
  last_connected_at = 1000;
  has_connected_at = true;
}

report_bounded_example :
    let t = report_health_failure online 1 (foreign "lost") 2000 in
    (t.state ≡ State.stopping)
    × (t.last_failure ≡ some FailureCode.runtime)
    × (((1 < auto_recovery_limit)
          × (t.restart_after_cleanup ≡ true)
          × (t.recovering ≡ true)
          × (t.recovery_count ≡ 2)
          × (0 < t.recovery_origin_generation))
        ⊎ ((1 ≡ auto_recovery_limit)
            × (t.restart_after_cleanup ≡ online.restart_after_cleanup)
            × (t.recovering ≡ false)
            × (t.failure_after_cleanup ≡ some FailureCode.runtime)))
report_bounded_example =
    report_bounded online (foreign "lost") 2000 (omega arith) refl (omega arith) refl

-- A configuration that was loaded from a URL, and a store that is empty.
abbrev from_url : Session
from_url = record ready {
  source_kind = ConfigSourceKind.source_url;
  source_url = "https://example.org/c";
}

abbrev empty_store : Store
empty_store = record { raw = ""; load_error = none; save_error = none }

abbrev saved : SavedActivation
saved = record {
  version = pos 1;
  enabled = true;
  mode = StartMode.profile_index;
  index = pos 1;
  digest = "d1";
}
