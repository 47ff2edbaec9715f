-- ===== src/Tests/Platforms.antt =====
-- A mobile platform that answers twice with one tunnel descriptor.
use dobby_vpn.Common.{ℕ, ◌<◌, false, true, List, [], ◌∷◌, none, some, ◌≡◌, pos, arith}
use dobby_vpn.Failure.{cleanup_failure, foreign}
use dobby_vpn.Runtime.Platform.{
  SessionRef, PlatformAdapter, Answer, decoded, Call, prepares, acquires, releases, accept_answer,
  acquire, descriptor, run_adapter,
}
use dobby_vpn.Runtime.Platform.Descriptors.{Holds, Inv, run_adapter-apart}

abbrev new_adapter : PlatformAdapter
new_adapter = record {
  callbacks = true;
  tunnels = [];
  active = [];
  state_changes = none;
  leases = λ i. record {
    fd = none;
    ref = record { session = 0; generation = 0 };
    closed = false;
    close_error = none;
    released = false;
  };
  fresh = 0;
}

new_adapter-Inv : Inv new_adapter
new_adapter-Inv = record {
  reserved = λ i fd n h. absurd (omega (arith, n));
  apart = λ i j fd n m h k. absurd (omega (arith, n));
}

abbrev first : SessionRef
first = record { session = 1; generation = 4 }

abbrev second : SessionRef
second = record { session = 1; generation = 5 }

abbrev tunnel : Answer
tunnel = decoded (record { fd = some (pos 9); error = false; cleanup_pending = false })

abbrev done : Answer
done = decoded (record { fd = none; error = false; cleanup_pending = false })

abbrev history : List Call
history =
    prepares first
    ∷ acquires first tunnel
    ∷ acquires second tunnel
    ∷ releases 0 none false done
    ∷ acquires second tunnel
    ∷ []

run_adapter-apart_example :
    let t = run_adapter new_adapter history in
    ((i j fd : ℕ) → i < t.fresh → j < t.fresh → Holds t i fd → Holds t j fd → i ≡ j)
    × ((i fd : ℕ) (ref : SessionRef) (answer : Answer)
        → i < t.fresh
        → Holds t i fd
        → accept_answer t ref answer ≡ descriptor fd
        → ((acquire t ref answer).0 ≡ t)
          × ((acquire t ref answer).2
              ≡ some (cleanup_failure (foreign "platform reused an active tunnel descriptor"))))
run_adapter-apart_example = run_adapter-apart new_adapter history new_adapter-Inv
