-- ===== src/Runtime/Platform.antt =====
-- core/sessionapi/mobilebinding/platform.go and ownership.go: the adapter of the mobile platforms and
-- the tunnel descriptors that it hands out. What a native callback answers is an argument.
pub mod Descriptors
use dobby_vpn.Common.{
  ℕ, ◌+◌, Bool, true, false, not, ◌&&◌, ◌||◌, List, [], ◌∷◌, Option, none, some, ◌==◌, ltb, ℤ, pos,
  negsuc, is_some, if◌then◌else◌,
}
use dobby_vpn.Failure.{GoError, cleanup_failure, foreign, formatted, join}
use dobby_vpn.Tunnel.FlowOwner.{delete, insert, lookup}

-- SessionRef and fdOwner; a session is named by a number.
pub record SessionRef : Type 0 where
  pub session : ℕ
  pub generation : ℕ

abbrev pub same_ref : SessionRef → SessionRef → Bool
same_ref a b = a.session == b.session && a.generation == b.generation

-- A tunnelLease: without a descriptor for a failure that the platform still has resources of.
pub record TunnelLease : Type 0 where
  pub fd : Option ℕ
  pub ref : SessionRef
  pub closed : Bool
  pub close_error : Option GoError
  pub released : Bool

-- The leases are on a heap, since the runtime and its ledgers share them. `callbacks` is whether there
-- are any, and `state_changes` the channel with one place.
pub record PlatformAdapter : Type 0 where
  pub callbacks : Bool
  pub tunnels : List (ℕ × SessionRef)
  pub active : List (ℕ × ℕ)
  pub state_changes : Option ℕ
  pub leases : ℕ → TunnelLease
  pub fresh : ℕ

-- PrepareTunnel.
unfoldable pub prepare_tunnel : PlatformAdapter → SessionRef → PlatformAdapter × Option GoError
unfolding insert lookup
prepare_tunnel a ref = elim (lookup ref.session a.active) [
  | none ↦ (record a { active = insert ref.session ref.generation a.active }, none)
  | some generation ↦
      if generation == ref.generation
      then (record a { active = insert ref.session ref.generation a.active }, none)
      else (a, some (foreign "another generation is still active"))
]

-- platformLease.Release.
unfoldable pub release_platform : PlatformAdapter → SessionRef → PlatformAdapter
unfolding delete lookup
release_platform a ref = elim (lookup ref.session a.active) [
  | none ↦ a
  | some generation ↦
      if generation == ref.generation then record a { active = delete ref.session a.active } else a
]

abbrev pub max_int64 : ℕ
max_int64 = 9223372036854775807

abbrev pub max_int32 : ℕ
max_int32 = 2147483647

-- NativeTunnelResult; `error` is whether there is a text.
pub record NativeTunnelResult : Type 0 where
  pub fd : Option ℤ
  pub error : Bool
  pub cleanup_pending : Bool

-- What a callback answers: what is not JSON, JSON that cannot be decoded, with what was decoded of
-- it, or a result.
pub data Answer : Type 0 where
  malformed : Answer
  mistyped decoded : NativeTunnelResult → Answer

abbrev empty_result : NativeTunnelResult
empty_result = record { fd = none; error = false; cleanup_pending = false }

abbrev pub result_of : Answer → NativeTunnelResult
result_of malformed = empty_result
result_of (mistyped r) = r
result_of (decoded r) = r

abbrev is_json : Answer → Bool
is_json malformed = false
is_json _ = true

-- decodeTunnelResult.
unfoldable pub decode_tunnel_result : Answer → Option GoError
decode_tunnel_result (decoded r) = if r.error then some (foreign "native tunnel error") else none
decode_tunnel_result _ = some (foreign "invalid native tunnel result")

-- The descriptor of an answer that has one, without an error.
abbrev usable : Option GoError → Option ℤ → Option ℕ
usable none (some (pos fd)) = some fd
usable _ _ = none

-- What acquire comes to: a descriptor, or an error and whether the platform may still own something.
pub data Acquired : Type 0 where
  descriptor : ℕ → Acquired
  failed : GoError → Bool → Acquired

abbrev or_error : Option GoError → GoError
or_error (some e) = e
or_error none = foreign "platform returned no tunnel descriptor"

-- The checks before the reservation.
unfoldable pub accept_answer : PlatformAdapter → SessionRef → Answer → Acquired
unfolding decode_tunnel_result
accept_answer a ref answer =
    if not a.callbacks
    then failed (foreign "platform tunnel callback is not registered") false
    else if ltb max_int64 ref.generation
    then failed (foreign "generation exceeds the native callback range") false
    else (let r = result_of answer in
        let e = decode_tunnel_result answer in
        elim (usable e r.fd) [
          | some fd ↦ descriptor fd
          | none ↦
              failed (or_error e)
                (r.cleanup_pending || not (is_json answer) || (not (is_some r.fd) && not r.error))
        ])

-- tunnelFDs.reserve.
unfoldable pub reserve : List (ℕ × SessionRef) → ℕ → SessionRef → Option (List (ℕ × SessionRef))
unfolding lookup
reserve open_fds fd owner = elim (lookup fd open_fds) [
  | some o ↦ none
  | none ↦ some ((fd, owner) ∷ open_fds)
]

-- tunnelFDs.release.
unfoldable pub release_fd : List (ℕ × SessionRef) → ℕ → SessionRef → List (ℕ × SessionRef)
unfolding delete lookup
release_fd open_fds fd owner = elim (lookup fd open_fds) [
  | none ↦ open_fds
  | some current ↦ if same_ref current owner then delete fd open_fds else open_fds
]

abbrev pub put : (ℕ → TunnelLease) → ℕ → TunnelLease → ℕ → TunnelLease
put heap i l j = if i == j then l else heap j

abbrev pub new_lease : Option ℕ → SessionRef → TunnelLease
new_lease fd ref = record {
  fd = fd;
  ref = ref;
  closed = false;
  close_error = none;
  released = false;
}

abbrev add_lease : PlatformAdapter → Option ℕ → SessionRef → PlatformAdapter
add_lease a fd ref = record a {
  leases = put a.leases a.fresh (new_lease fd ref);
  fresh = a.fresh + 1;
}

abbrev pub own :
    PlatformAdapter
    → SessionRef
    → ℕ
    → Option (List (ℕ × SessionRef))
    → PlatformAdapter × Option ℕ × Option GoError
own a ref fd none =
    (a, none, some (cleanup_failure (foreign "platform reused an active tunnel descriptor")))
own a ref fd (some open_fds) =
    (add_lease (record a { tunnels = open_fds }) (some fd) ref, some a.fresh, none)

abbrev pub finish_acquire :
    PlatformAdapter → SessionRef → Acquired → PlatformAdapter × Option ℕ × Option GoError
finish_acquire a ref (failed e true) = (add_lease a none ref, some a.fresh, some e)
finish_acquire a ref (failed e false) = (a, none, some e)
finish_acquire a ref (descriptor fd) = own a ref fd (reserve a.tunnels fd ref)

-- Acquire, with acquire: the lease by its number, and the error.
unfoldable pub acquire :
    PlatformAdapter → SessionRef → Answer → PlatformAdapter × Option ℕ × Option GoError
unfolding accept_answer reserve
acquire a ref answer = finish_acquire a ref (accept_answer a ref answer)

-- tunnelLease.Close; `answer` is what the file's Close answers.
unfoldable pub close_lease : TunnelLease → Option GoError → TunnelLease
close_lease l answer =
    if l.closed
    then l
    else record l { closed = true; close_error = elim l.fd [ none ↦ none | some fd ↦ answer ] }

-- The error of platformAdapter.release; `late` is whether no time is left.
unfoldable pub release_error : SessionRef → Bool → Answer → Option GoError
unfolding decode_tunnel_result
release_error ref late answer =
    if ltb max_int64 ref.generation
    then some (foreign "generation exceeds the native callback range")
    else if late
    then some (foreign "platform tunnel cleanup still pending")
    else elim (decode_tunnel_result answer) [
      | some e ↦ some (formatted "platform tunnel cleanup failed" e)
      | none ↦
          if (result_of answer).cleanup_pending
          then some (foreign "platform tunnel cleanup still pending")
          else none
    ]

abbrev pub free : PlatformAdapter → Option ℕ → SessionRef → PlatformAdapter
free a none ref = a
free a (some fd) ref = record a { tunnels = release_fd a.tunnels fd ref }

abbrev pub settle :
    PlatformAdapter → ℕ → TunnelLease → Option GoError → PlatformAdapter × Option GoError
settle a i l (some e) = (record a { leases = put a.leases i l }, join l.close_error (some e))
settle a i l none = (
  free (record a { leases = put a.leases i (record l { released = true }) }) l.fd l.ref,
  join l.close_error none,
)

-- tunnelLease.Release of the i-th lease.
unfoldable pub release_lease :
    PlatformAdapter → ℕ → Option GoError → Bool → Answer → PlatformAdapter × Option GoError
unfolding close_lease release_error release_fd
release_lease a i closing late answer =
    let l = a.leases i in
    if l.released
    then (a, l.close_error)
    else settle a i (close_lease l closing) (release_error l.ref late answer)

-- ProtectSocket: the native callback's verdict on a socket of a session.
unfoldable pub protect_socket : PlatformAdapter → SessionRef → ℤ → Bool → Option GoError
protect_socket a ref (negsuc n) answer = some (foreign "invalid socket descriptor")
protect_socket a ref (pos fd) answer =
    if not a.callbacks
    then some (foreign "platform socket protector is not registered")
    else if ltb max_int64 ref.generation
    then some (foreign "generation exceeds the native callback range")
    else if ltb max_int32 fd
    then some (foreign "socket descriptor exceeds the native callback range")
    else if answer
    then none
    else some (foreign "platform rejected socket protection")

-- protectActive; `answer` is the callback's verdict for the active session.
unfoldable pub protect_active : PlatformAdapter → ℤ → (SessionRef → Bool) → Bool
protect_active a (negsuc n) answer = false
protect_active a (pos fd) answer = elim a.active [
  | [] ↦ false
  | (session, generation) ∷ rest ↦ elim rest [
    | [] ↦
        a.callbacks
        && not (ltb max_int64 generation)
        && answer (record { session = session; generation = generation })
    | p ∷ more ↦ false
  ]
]

-- PublishState: the newest event takes the channel's place.
unfoldable pub publish_state : PlatformAdapter → ℕ → PlatformAdapter
publish_state a event = elim a.state_changes [
  | none ↦ record a { state_changes = some event }
  | some old ↦ record a { state_changes = some event }
]

-- What the manager, the runtime and the platform do with an adapter.
pub data Call : Type 0 where
  prepares releases_platform : SessionRef → Call
  acquires : SessionRef → Answer → Call
  closes : ℕ → Option GoError → Call
  releases : ℕ → Option GoError → Bool → Answer → Call
  publishes : ℕ → Call

unfoldable pub step : PlatformAdapter → Call → PlatformAdapter
unfolding prepare_tunnel release_platform acquire close_lease release_lease publish_state
step a (prepares ref) = (prepare_tunnel a ref).0
step a (releases_platform ref) = release_platform a ref
step a (acquires ref answer) = (acquire a ref answer).0
step a (closes i answer) = record a { leases = put a.leases i (close_lease (a.leases i) answer) }
step a (releases i closing late answer) =
    if ltb i a.fresh then (release_lease a i closing late answer).0 else a
step a (publishes event) = publish_state a event

unfoldable pub run_adapter : PlatformAdapter → List Call → PlatformAdapter
unfolding step
run_adapter a [] = a
run_adapter a (c ∷ cs) = run_adapter (step a c) cs
