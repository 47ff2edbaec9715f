-- ===== src/Session/Progress.antt =====
-- How an attempt ends, and how often it begins anew by itself.
use dobby_vpn.Common.{
  ℕ, zero, suc, Bool, true, false, List, [], ◌∷◌, Option, none, some, ◌≡◌, refl, ap, sym, ◌∙◌,
  arith,
}
use dobby_vpn.Failure.{GoError, code_of, is_cleanup}
use dobby_vpn.Session.Types.{Session, Worker, Stage, State, Closer}
use dobby_vpn.Session.Guards.{attempt_active}
use dobby_vpn.Session.Ledger.{release}
use dobby_vpn.Session.Attempt.{at_stage, Environment}
use dobby_vpn.Session.Finish.{
  release_ledger, enter_finish, retire, decide_network, release_network, commit, retire_attempt,
  settle_budget, settle, come_to_rest,
}
use dobby_vpn.Session.System.{run_stage}
use dobby_vpn.Session.Invariant.Defs.{halted}

abbrev pub go_on :
    (Session → Worker → Session × List Worker) → Session × List Worker → Session × List Worker
go_on f (s, []) = (s, [])
go_on f (s, k ∷ ks) = f s k

-- A goroutine that runs on with no other step between its stages, for at most so many stages.
unfoldable pub stages : ℕ → Environment → Session → Worker → Session × List Worker
stages zero env s k = (s, k ∷ [])
stages (suc n) env s k = go_on (stages n env) (run_stage k.stage s k env)

release_all :
    (close : Closer → Option GoError) (l : List Closer)
    → ((c : Closer) → close c ≡ none)
    → release close l ≡ (none, [])
unfolding release
release_all close [] h = refl
release_all close (c ∷ l) h = rw (h c, release) (release_all close l h)

release_ledger-ok :
    (close : Closer → Option GoError) (l : Option (List Closer))
    → ((c : Closer) → close c ≡ none)
    → (release_ledger close l).0 ≡ none
unfolding release_ledger
release_ledger-ok close none h = refl
release_ledger-ok close (some l) h = ap (λ r. r.0) (release_all close l h)

-- The session that a stopped attempt ends in.
abbrev pub IsReleased : Session → Type 0
IsReleased t =
    (t.state ≡ State.idle)
    × (t.cleanup_done ≡ true)
    × (t.cleanup_failed ≡ false)
    × (t.vpn_active ≡ false)
    × (t.ledger ≡ none)
    × (t.network_ledger ≡ none)
    × (t.pending ≡ none)

stages-step :
    (n : ℕ) (env : Environment) (s : Session) (k k' : Worker) {s' : Session}
    → run_stage k.stage s k env ≡ (s', k' ∷ [])
    → stages (suc n) env s k ≡ stages n env s' k'
unfolding stages
stages-step n env s k k' e = ap (go_on (stages n env)) e

-- What the stages before the last lock leave alone.
abbrev SameAttempt : Session → Session → Type 0
SameAttempt s t = (t.generation ≡ s.generation) × (halted t ≡ halted s)

retire-SameAttempt :
    (s : Session) (k : Worker) (env : Environment) (cause : Option GoError)
    → SameAttempt s (retire s k env cause).0
unfolding retire
retire-SameAttempt s k env cause = (ground arith, ground arith)

release_network-SameAttempt :
    (s : Session) (k : Worker) (env : Environment) (all : Bool) (cause failed : Option GoError)
    → SameAttempt s (release_network s k env all cause failed).0
unfolding release_network
release_network-SameAttempt s k env all cause failed = (ground arith, ground arith)

module _ (env : Environment) (cause : Option GoError) (c : is_cleanup (code_of cause) ≡ false)
    (all : (x : Closer) → env.close x ≡ none) where
  retire-ok :
      (s : Session) (k : Worker)
      → retire s k env cause
        ≡ ((retire s k env cause).0, at_stage k (Stage.retired cause none) ∷ [])
  unfolding retire
  retire-ok s k = ground (arith, release_ledger-ok env.close s.ledger all)

  release_network-ok :
      (s : Session) (k : Worker)
      → release_network s k env true cause none ≡ (
        (release_network s k env true cause none).0,
        at_stage k (Stage.committing true cause none) ∷ [],
      )
  unfolding release_network
  release_network-ok s k = ground (arith, release_ledger-ok env.close s.network_ledger all)

  commit-IsReleased :
      (s : Session) (k : Worker)
      → k.generation ≡ s.generation
      → halted s ≡ true
      → IsReleased (commit s k true cause none).0 × ((commit s k true cause none).1 ≡ [])
  unfolding commit retire_attempt settle_budget settle come_to_rest
  commit-IsReleased s k e h = (ground arith, ground arith)

  commit-ended :
      (s : Session) (k : Worker)
      → k.generation ≡ s.generation
      → halted s ≡ true
      → commit s k true cause none ≡ ((commit s k true cause none).0, [])
  commit-ended s k e h = λ i. ((commit s k true cause none).0, (commit-IsReleased s k e h).1 i)

  enter_finish-ok :
      (s : Session) (k : Worker)
      → k.generation ≡ s.generation
      → attempt_active s.state ≡ true
      → enter_finish s k cause ≡ (s, at_stage k (Stage.retiring cause) ∷ [])
  unfolding enter_finish
  enter_finish-ok s k e a = ground arith

  decide_network-ok :
      (s : Session) (k : Worker)
      → halted s ≡ true
      → decide_network s k cause none ≡ (s, at_stage k (Stage.releasing true cause none) ∷ [])
  unfolding decide_network
  decide_network-ok s k h = ground arith

  finish_stages :
      (s : Session) (k : Worker)
      → k.stage ≡ Stage.finishing cause
      → k.generation ≡ s.generation
      → attempt_active s.state ≡ true
      → halted s ≡ true
      → let s2 = (retire s (at_stage k (Stage.retiring cause)) env cause).0 in
        let s3 =
          (release_network s2
            (at_stage k (Stage.releasing true cause none))
            env
            true
            cause
            none).0 in
        stages 5 env s k ≡ commit s3 (at_stage k (Stage.committing true cause none)) true cause none
  unfolding stages run_stage
  finish_stages s k g e a h =
      let k1 = at_stage k (Stage.retiring cause) in
      let k2 = at_stage k (Stage.retired cause none) in
      let k3 = at_stage k (Stage.releasing true cause none) in
      let k4 = at_stage k (Stage.committing true cause none) in
      let s2 = (retire s k1 env cause).0 in
      let s3 = (release_network s2 k3 env true cause none).0 in
      let r2 = retire-SameAttempt s k1 env cause in
      let r3 = release_network-SameAttempt s2 k3 env true cause none in
      let last = commit-ended s3 k4 (e ∙ sym r2.0 ∙ sym r3.0) (r3.1 ∙ r2.1 ∙ h) in
      stages-step 4 env s k k1 (ap (λ x. run_stage x s k env) g ∙ enter_finish-ok s k e a)
      ∙ stages-step 3 env s k1 k2 (retire-ok s k1)
      ∙ stages-step 2 env s2 k2 k3 (decide_network-ok s2 k2 (r2.1 ∙ h))
      ∙ stages-step 1 env s2 k3 k4 (release_network-ok s2 k3)
      ∙ ap (go_on (stages 0 env)) last
      ∙ sym last

  -- A stopped attempt of the session's own generation that enters `finish`, for a cause that is no
  -- cleanup failure and with closers that all succeed, ends within five stages if no other step
  -- comes between: the session is idle, both ledgers are released and no goroutine is left.
  pub finish_releases :
      (s : Session) (k : Worker)
      → k.stage ≡ Stage.finishing cause
      → k.generation ≡ s.generation
      → attempt_active s.state ≡ true
      → halted s ≡ true
      → IsReleased (stages 5 env s k).0 × ((stages 5 env s k).1 ≡ [])
  finish_releases s k g e a h =
      let s2 = (retire s (at_stage k (Stage.retiring cause)) env cause).0 in
      let s3 =
        (release_network s2 (at_stage k (Stage.releasing true cause none)) env true cause none).0 in
      let r2 = retire-SameAttempt s (at_stage k (Stage.retiring cause)) env cause in
      let r3 =
        release_network-SameAttempt s2 (at_stage k (Stage.releasing true cause none)) env true cause
          none in
      rw (finish_stages s k g e a h) (
        commit-IsReleased s3 (at_stage k (Stage.committing true cause none))
          (e ∙ sym r2.0 ∙ sym r3.0) (r3.1 ∙ r2.1 ∙ h))
