-- ===== src/Session/Invariant/Commands.antt =====
-- Every command keeps the invariant: its session, and the one goroutine of its attempt.
use dobby_vpn.Common.{
  ℕ, Bool, true, false, not, ◌||◌, List, [], ◌∷◌, ◌++◌, Option, none, some, ◌==◌, ◌≡◌, Bool-cases,
  Option-cases, if_cases, refl, inl, inr, String, arith,
}
use dobby_vpn.Failure.{GoError, ok, err}
use dobby_vpn.Session.Types.{Session, Worker, StartTarget}
use dobby_vpn.Session.Guards.{
  get, accepts_stop, validate_configure_before_accept, attempt_active, can_switch, can_retry,
  configuration_blocked, validate_start_target,
}
use dobby_vpn.Session.Configure.{store_accepted, Loaded, begin_configure, accept_configure}
use dobby_vpn.Session.Control.{
  Reply, start, replace_accepted, retry_mismatch, admit_start, retry_locked, replace_locked,
  fresh_start,
}
use dobby_vpn.Session.Stop.{stop, add_error, stop_requested_session, request_stop}
use dobby_vpn.Session.System.{
  Command, configure_begins, configure_accepts, source_store_attached, starts, stops, closes,
  cleanup_waits, resumes, run_command, IsLoadable,
}
use dobby_vpn.Session.Invariant.Owners.{keeps}
use dobby_vpn.Session.Invariant.Defs.{Inv, is_nil, worker_ok}
use dobby_vpn.Session.Invariant.Transitions.{
  dormant, accept_locked-Inv, resume-Inv, cleanup_context-Inv, attach-Inv, acknowledge_quiet,
  replace_session-Inv, stop_running-Inv, acknowledge-Inv, stop_dormant-Inv, retry_session-Inv,
  fresh_session-Inv, fence-Inv,
}

-- A reply keeps the invariant, with the goroutines that it starts.
abbrev pub ReplyInv : List Worker → Reply → Type 0
ReplyInv ws r = Inv r.0 (r.2 ++ ws)

add_error-Inv :
    (e : Option GoError) (r : Reply) (ws : List Worker)
    → ReplyInv ws r
    → ReplyInv ws (add_error e r)
add_error-Inv none r ws v = v
add_error-Inv (some e) (s, ok a, ks) ws v = v
add_error-Inv (some e) (s, err d, ks) ws v = v

request_stop-state : (s : Session) → (request_stop s).state ≡ s.state
unfolding request_stop
request_stop-state s = ground arith

stop_requested_session-Inv :
    (s : Session) (ws : List Worker)
    → Inv s ws
    → ReplyInv ws (stop_requested_session (request_stop s))
unfolding stop_requested_session
stop_requested_session-Inv s ws v =
    if_cases (ReplyInv ws) (dormant (request_stop s)) (stop_dormant-Inv s ws v) (λ _.
      if_cases (ReplyInv ws) (not (attempt_active (request_stop s).state))
        (λ a.
          rw (acknowledge_quiet (request_stop s))
            (acknowledge-Inv s ws (ground (arith, request_stop-state s)) v))
        (λ a. stop_running-Inv s ws (ground (arith, request_stop-state s)) v))

pub stop-Inv :
    (s : Session) (id : String) (generation : ℕ) (persisted : Option GoError) (ws : List Worker)
    → Inv s ws
    → ReplyInv ws (stop s id generation persisted)
unfolding stop
stop-Inv s id generation persisted ws v = elim (Option-cases (get s id)) [
  | inr (e, g) ↦ rw (g, stop) v
  | inl g ↦
      rw (g, stop)
        (if_cases (ReplyInv ws) (not (accepts_stop s generation)) (λ _. v)
          (λ _. add_error-Inv persisted _ ws (stop_requested_session-Inv s ws v)))
]

fresh_start-Inv :
    (s : Session) (target : StartTarget) (activation : Option GoError) (ws : List Worker)
    → Inv s ws
    → s.configured ≡ true
    → configuration_blocked s ≡ false
    → validate_start_target s target ≡ none
    → ReplyInv ws (fresh_start s target activation)
unfolding fresh_start
fresh_start-Inv s target none ws v c b t = fresh_session-Inv s target ws v c b t
fresh_start-Inv s target (some e) ws v c b t = v

replace_accepted-Inv :
    (s : Session) (target : StartTarget) (activation : Option GoError) (ws : List Worker)
    → Inv s ws
    → s.configured ≡ true
    → can_switch s ≡ true
    → validate_start_target s target ≡ none
    → ReplyInv ws (replace_accepted s target activation)
replace_accepted-Inv s target none ws v c b t = replace_session-Inv s target ws v c b t
replace_accepted-Inv s target (some e) ws v c b t = v

replace_locked-Inv :
    (s : Session) (target : StartTarget) (activation : Option GoError) (ws : List Worker)
    → Inv s ws
    → s.configured ≡ true
    → validate_start_target s target ≡ none
    → ReplyInv ws (replace_locked s target activation)
unfolding replace_locked
replace_locked-Inv s target activation ws v c t =
    if_cases (ReplyInv ws) (not target.replace_current || not (can_switch s)) (λ _. v)
      (λ b. replace_accepted-Inv s target activation ws v c (ground arith) t)

admit_start-Inv :
    (s : Session) (target : StartTarget) (activation : Option GoError) (ws : List Worker)
    → Inv s ws
    → s.configured ≡ true
    → ReplyInv ws (admit_start s target activation)
unfolding admit_start
admit_start-Inv s target activation ws v c = elim (Option-cases (validate_start_target s target)) [
  | inr (e, t) ↦ rw (t, admit_start) v
  | inl t ↦
      rw (t, admit_start)
        (elim (Bool-cases (configuration_blocked s)) [
          | inl b ↦ rw b (replace_locked-Inv s target activation ws v c t)
          | inr b ↦ rw b (fresh_start-Inv s target activation ws v c b t)
        ])
]

retry_locked-Inv :
    (s : Session) (target : StartTarget) (supplied : Bool) (ws : List Worker)
    → Inv s ws
    → can_retry s ≡ true
    → ReplyInv ws (retry_locked s target supplied)
unfolding retry_locked
retry_locked-Inv s target supplied ws v r = elim (Bool-cases (retry_mismatch s target supplied)) [
  | inl m ↦ rw m v
  | inr m ↦ rw m (retry_session-Inv s target supplied ws v r m)
]

pub start-Inv :
    (s : Session) (id : String) (expected : ℕ) (target : StartTarget) (supplied : Bool)
    (activation : Option GoError) (ws : List Worker)
    → Inv s ws
    → ReplyInv ws (start s id expected target supplied activation)
unfolding start
start-Inv s id expected target supplied activation ws v = elim (Option-cases (get s id)) [
  | inr (e, g) ↦ rw (g, start) v
  | inl g ↦
      rw (g, start)
        (if_cases (ReplyInv ws) (not (s.sequence == expected)) (λ _. v)
          (λ _.
            if_cases (ReplyInv ws) (not s.configured) (λ _. v)
              (λ c.
                if_cases (ReplyInv ws) (can_retry s) (retry_locked-Inv s target supplied ws v)
                  (λ _. admit_start-Inv s target activation ws v (ground arith)))))
]

configure-Inv :
    (s : Session) (request : ℕ) (l : Loaded) (context saved : Option GoError) (ws : List Worker)
    → is_nil l.profiles ≡ false
    → Inv s ws
    → Inv (accept_configure s request l context saved).0 ws
unfolding accept_configure
configure-Inv s request l context saved ws h v =
    elim (Option-cases (validate_configure_before_accept context s request)) [
      | inr (e, a) ↦ rw (a, accept_configure) v
      | inl a ↦ rw (a, accept_configure) (stored saved)
    ]
  where
    stored : (o : Option GoError) → Inv (store_accepted s l o).0 ws
    stored none = accept_locked-Inv s l ws h v
    stored (some e) = v

begin_configure-Inv :
    (s : Session) (id : String) (expected : ℕ) (context : Option GoError) (ws : List Worker)
    → Inv s ws
    → Inv (begin_configure s id expected context).0 ws
unfolding begin_configure worker_ok
begin_configure-Inv s id expected context ws v =
    keeps ws v (ground (arith, v.session_ok)) (ground arith) (λ k a o. ground (arith, v.session_ok))

is_nil_of_ne {ℓ} : {A : Type ℓ} (xs : List A) → (xs ≡ [] → ⊥) → is_nil xs ≡ false
is_nil_of_ne [] h = absurd (h refl)
is_nil_of_ne (x ∷ xs) h = refl

-- Every command of the manager, whatever it answers, keeps the invariant.
pub run_command-Inv :
    (c : Command) (s : Session) (ws : List Worker)
    → IsLoadable c
    → Inv s ws
    → Inv (run_command c s).0 ((run_command c s).1 ++ ws)
unfolding run_command
run_command-Inv (configure_begins id expected context) s ws h v =
    begin_configure-Inv s id expected context ws v
run_command-Inv (configure_accepts request l context saved) s ws h v =
    configure-Inv s request l context saved ws (is_nil_of_ne l.profiles h) v
run_command-Inv (source_store_attached r) s ws h v = attach-Inv s r ws v
run_command-Inv (starts id expected target supplied activation) s ws h v =
    start-Inv s id expected target supplied activation ws v
run_command-Inv (stops id generation persisted) s ws h v = stop-Inv s id generation persisted ws v
run_command-Inv closes s ws h v = fence-Inv s ws v
run_command-Inv cleanup_waits s ws h v = cleanup_context-Inv s ws v
run_command-Inv resumes s ws h v = resume-Inv s ws v
