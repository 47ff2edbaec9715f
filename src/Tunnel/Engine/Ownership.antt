-- ===== src/Tunnel/Engine/Ownership.antt =====
-- Which engine owns the process-global packet stack, whatever its holders ask for.
use dobby_vpn.Common.{
  ℕ, ◌+◌, ◌<◌, true, false, List, [], ◌∷◌, Option, none, some, ◌≡◌, ◌≢◌, refl, arith, is_some,
  if◌then◌else◌, ltb, if_cases, ltb→lt,
}
use dobby_vpn.Failure.{GoError}
use dobby_vpn.Tunnel.FlowOwner
use dobby_vpn.Tunnel.Engine.{
  Engine, Proxy, World, Transport, Closing, Config, attach_locked, attach, detach_locked, detach,
  stop_engine, put, start, stop,
}

-- What the holders of engines ask for, by handle, and what the flows of an attached proxy do.
pub data Call : Type 0 where
  starts : Config → Call
  attaches : ℕ → ℕ → Transport → Call
  detaches : ℕ → ℕ → Closing → Call
  stops : ℕ → Closing → Option GoError → Call
  flows : ℕ → FlowOwner.Call → Call

abbrev with_flow : Option Proxy → FlowOwner.Call → Option Proxy
with_flow none c = none
with_flow (some p) c = some (record p { flows = FlowOwner.step p.flows c })

abbrev detached_world : World → ℕ → Option (Engine × Option GoError) → World
detached_world w i none = w
detached_world w i (some (e, x)) = put w i e

-- A handle that was never returned cannot be used.
unfoldable pub step : World → Call → World
step w (starts c) = (start w c).0
step w (attaches i generation t) =
    if ltb i w.handles
    then record (put w i (attach (w.engines i) w.fresh generation t).0) { fresh = w.fresh + 1 }
    else w
step w (detaches i generation c) =
    if ltb i w.handles then detached_world w i (detach (w.engines i) generation c) else w
step w (stops i c platform) = if ltb i w.handles then stop w i c platform else w
step w (flows i c) =
    if ltb i w.handles
    then put w i (record (w.engines i) { proxy = with_flow (w.engines i).proxy c })
    else w

unfoldable pub run : World → List Call → World
run w [] = w
run w (c ∷ cs) = run (step w c) cs

-- An engine that is not stopped is the active one, and the active one is not stopped.
pub record Inv (w : World) : Type 0 where
  pub running : (i : ℕ) → i < w.handles → (w.engines i).stopped ≡ false → w.active ≡ some i
  pub live : (i : ℕ) → w.active ≡ some i → (i < w.handles) × ((w.engines i).stopped ≡ false)

attach-stopped :
    (e : Engine) (id generation : ℕ) (t : Transport)
    → (attach e id generation t).0.stopped ≡ e.stopped
unfolding attach attach_locked
attach-stopped e id generation t = ground arith

detach-stopped :
    (e : Engine) (generation : ℕ) (c : Closing) (r : Engine × Option GoError)
    → detach e generation c ≡ some r
    → r.0.stopped ≡ e.stopped
unfolding detach detach_locked
detach-stopped e generation c r h = ground arith

-- A change to one engine that leaves `stopped` alone.
put-Inv :
    (w : World) (i : ℕ) (e : Engine) → e.stopped ≡ (w.engines i).stopped → Inv w → Inv (put w i e)
unfolding put
put-Inv w i e h v = record {
  running = λ j b s. ground (arith, v.running j);
  live = λ j a. ground (arith, v.live j);
}

start-Inv : (w : World) (c : Config) → Inv w → Inv (start w c).0
unfolding start put attach_locked
start-Inv w c v = record {
  running = λ j b s. ground (arith, v.running j);
  live = λ j a. ground (arith, v.live j);
}

stop-Inv :
    (w : World) (i : ℕ) (c : Closing) (platform : Option GoError)
    → i < w.handles
    → Inv w
    → Inv (stop w i c platform)
unfolding stop put stop_engine
stop-Inv w i c platform b v = record {
  running = λ j k s. ground (arith, v.running j, v.running i);
  live = λ j a. ground (arith, v.live j);
}

detaches-Inv :
    (w : World) (i : ℕ) (r : Option (Engine × Option GoError))
    → ((e : Engine) (x : Option GoError) → r ≡ some (e, x) → e.stopped ≡ (w.engines i).stopped)
    → Inv w
    → Inv (detached_world w i r)
detaches-Inv w i none h v = v
detaches-Inv w i (some (e, x)) h v = put-Inv w i e (h e x refl) v

fresh-Inv : (w : World) (n : ℕ) → Inv w → Inv (record w { fresh = n })
fresh-Inv w n v = record { running = v.running; live = v.live }

step-Inv : (w : World) (c : Call) → Inv w → Inv (step w c)
unfolding step
step-Inv w (starts c) v = start-Inv w c v
step-Inv w (attaches i generation t) v =
    if_cases Inv (ltb i w.handles)
      (λ b.
        fresh-Inv _ (w.fresh + 1)
          (put-Inv w i _ (attach-stopped (w.engines i) w.fresh generation t) v))
      (λ _. v)
step-Inv w (detaches i generation c) v =
    if_cases Inv (ltb i w.handles)
      (λ b.
        detaches-Inv w i (detach (w.engines i) generation c)
          (λ e x h. detach-stopped (w.engines i) generation c (e, x) h) v)
      (λ _. v)
step-Inv w (stops i c platform) v =
    if_cases Inv (ltb i w.handles) (λ b. stop-Inv w i c platform (ltb→lt i w.handles b) v) (λ _. v)
step-Inv w (flows i c) v = if_cases Inv (ltb i w.handles) (λ b. put-Inv w i _ refl v) (λ _. v)

run-Inv : (w : World) (cs : List Call) → Inv w → Inv (run w cs)
unfolding run
run-Inv w [] v = v
run-Inv w (c ∷ cs) v = run-Inv (step w c) cs (step-Inv w c v)

abbrev pub no_engine : (ℕ → Engine) → World
no_engine engines = record { engines = engines; handles = 0; active = none; fresh = 0 }

no_engine-Inv : (engines : ℕ → Engine) → Inv (no_engine engines)
no_engine-Inv engines = record { running = λ i b s. absurd (omega arith); live = λ i a. cc }

start_busy :
    (w : World) (c : Config)
    → is_some w.active ≡ true
    → ((start w c).0 ≡ w) × ((start w c).1 ≡ none)
unfolding start
start_busy w c h = (ground arith, ground arith)

stop_other :
    (w : World) (i j : ℕ) (c : Closing) (platform : Option GoError)
    → i ≢ j
    → (stop w i c platform).engines j ≡ w.engines j
unfolding stop put
stop_other w i j c platform d = ground arith

-- In every history of the process, from one with no engine: two engines that are not stopped are
-- the same one, while there is one every start is refused and changes nothing, and a Stop of another
-- handle leaves it as it is.
pub run_exclusive :
    (engines : ℕ → Engine) (cs : List Call) (i j k : ℕ) (config : Config) (c : Closing)
    (platform : Option GoError)
    → let w = run (no_engine engines) cs in
      i < w.handles
      → (w.engines i).stopped ≡ false
      → j < w.handles
      → (w.engines j).stopped ≡ false
      → k ≢ i
      → (i ≡ j)
        × ((start w config).0 ≡ w)
        × ((start w config).1 ≡ none)
        × ((stop w k c platform).engines i ≡ w.engines i)
run_exclusive engines cs i j k config c platform b s l t d =
    let w = run (no_engine engines) cs in
    let v = run-Inv (no_engine engines) cs (no_engine-Inv engines) in
    let a = v.running i b s in
    let busy = start_busy w config (rw a) in
    (ground (arith, a, v.running j l t), busy.0, busy.1, stop_other w k i c platform d)
