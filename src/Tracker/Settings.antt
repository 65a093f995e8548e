-- ===== src/Tracker/Settings.antt =====
-- The socket, the start and stop, and the times of src/nrdnb_client.cpp.
use nuords_proxy.Prelude.{
  subst, sym, some-injective, Bool-cases, inl, inr, ℕ, zero, suc, ◌+◌, ◌-◌, ◌*◌, ◌/◌, ◌%◌, ◌^◌, ◌≤◌,
  ◌<◌, ◌≡◌, refl, Bool, true, false, ◌||◌, not, ltb, ◌==◌, if◌then◌else◌, min, Option, none, some,
  List, [], ◌∷◌, ◌++◌, Bytes, codes, is_empty, arith,
}
use nuords_proxy.Inet.{Family, inet, inet6, Addr, family_of}
use nuords_proxy.Inet.Hosts.{Resolver, addr_any, guess_addr_family, host_to_addr}
use nuords_proxy.Tracker.{Event, on_error, on_info, refresh, restart, started, Tracker}

-- What the system answers: whether the thread is made, `socket`, `bind` on an address and a port,
-- and whether the whole of a message could be sent, at the n-th attempt.
pub record Wire : Type 0 where
  pub resolver : Resolver
  pub create : Bool
  pub socket : Family → Option ℕ
  pub bind : ℕ → Addr → ℕ → Bool
  pub send_len : ℕ → Addr → ℕ → ℕ → Bool

-- The address to bind to, and the events if the host has none.
abbrev pub own_addr : Family → Option Addr → Addr × List Event
own_addr family none = (addr_any family, on_error ∷ on_info ∷ [])
own_addr family (some addr) = (addr, [])

unfoldable pub bind_sock : Wire → Addr → Option ℕ → Tracker → Bool × Tracker × List Event
bind_sock wire addr none t = (false, record t { sock = none }, on_error ∷ [])
bind_sock wire addr (some s) t =
    if wire.bind s addr t.port
    then (true, record t { sock = some s }, [])
    else (false, record t { sock = none }, on_error ∷ [])

unfoldable pub create_sock : Wire → Tracker → Bool × Tracker × List Event
create_sock wire t =
    let (addr, events) =
      own_addr (guess_addr_family t.host false) (host_to_addr wire.resolver t.host false) in
    let (ok, u, more) = bind_sock wire addr (wire.socket (family_of addr)) t in
    (ok, u, events ++ more)

-- `ret |= send_len(…)`, once for each of the attempts.
unfoldable pub send_times : (ℕ → Bool) → ℕ → Bool
send_times send zero = false
send_times send (suc n) = send_times send n || send n

abbrev pub is_inet6 : Family → Bool
is_inet6 inet = false
is_inet6 inet6 = true

unfoldable pub send_to : Wire → ℕ → Option Addr → ℕ → ℕ → Bool × List Event
send_to wire sock none port times = (false, on_error ∷ [])
send_to wire sock (some addr) port times =
    if send_times (wire.send_len sock addr port) times then (true, []) else (false, on_error ∷ [])

-- At least once, and to `NRD_BROWSE_PORT` by default.
unfoldable pub send_getinfo : Wire → Tracker → Option ℕ → Bytes → ℕ → ℕ → Bool × List Event
send_getinfo wire t none host port times = (false, [])
send_getinfo wire t (some sock) host port times =
    if is_inet6 (guess_addr_family t.host false)
    then (false, on_error ∷ [])
    else send_to wire sock (host_to_addr wire.resolver host false)
        (if port == 0 then 4073 else port) (if times == 0 then 1 else times)

unfoldable pub request_server_info : Wire → Tracker → Bytes → ℕ → Bool × List Event
request_server_info wire t host port =
    if not t.created then (false, []) else send_getinfo wire t t.sock host port 3

abbrev pub any_host : Bytes
any_host = codes "0.0.0.0"

-- An IPv6 address is not taken for the own host.
unfoldable pub start_info_tracker : Wire → Bytes → ℕ → Tracker → Bool × Tracker × List Event
start_info_tracker wire host port t =
    if t.created
    then (false, t, [])
    else (let named = if is_empty host then any_host else host in
        let other = is_inet6 (guess_addr_family named false) in
        (
          wire.create,
          record t {
            port = if port == 0 then 4073 else port;
            host = if other then any_host else named;
            refr = false;
            created = wire.create;
          },
          if other then on_error ∷ on_info ∷ [] else [],
        ))

-- `wait_for` ends the thread.
unfoldable pub stop_info_tracker : Tracker → Tracker
stop_info_tracker t =
    if t.created
    then record t { svrs = []; sock = none; created = false }
    else record t { svrs = [] }

-- `NRD_MAXUINT` is 2^32 - 1.
unfoldable pub set_reconnect_time : ℕ → Tracker → Tracker
set_reconnect_time time t = record t {
  tout = min ((2 ^ 32 - 1) / 1000) (if ltb 1 time then time else 1);
}

-- What `main` raises before it makes the socket, and the milliseconds it waits after a failure: the
-- product is one of unsigned 32-bit numbers.
unfoldable pub restart_event : ℕ → Tracker → Event × Tracker
restart_event sleep t =
    if t.refr
    then (refresh, record t { refr = false })
    else if sleep == 0
    then (started, t)
    else (restart, t)

unfoldable pub restart_delay : Tracker → ℕ
restart_delay t = t.tout * 1000 % 2 ^ 32

abbrev pub count_pause : Bool → Option ℕ → Option ℕ
count_pause true none = none
count_pause true (some n) = some (suc n)
count_pause false rest = some 0

-- The pauses of 100 milliseconds, as long as the thread is not terminated; `none` if the fuel is
-- not enough.
unfoldable pub pauses : ℕ → ℕ → Option ℕ
pauses zero sleep = none
pauses (suc fuel) sleep = count_pause (ltb 100 sleep) (pauses fuel (sleep - 100))

-- After `n` pauses, and after no fewer, at most 100 milliseconds are left, but never none: the last
-- part of the time is not waited for.
abbrev pub Paused : ℕ → Option ℕ → Type 0
Paused sleep o = (n : ℕ) × (o ≡ some n) × (100 * n < sleep) × (sleep ≤ 100 * n + 100)

count_pause-Paused :
    (sleep : ℕ) (o : Option ℕ)
    → 100 < sleep
    → Paused (sleep - 100) o
    → Paused sleep (count_pause true o)
count_pause-Paused sleep none h (n, e, _, _) = cc
count_pause-Paused sleep (some m) h (n, e, low, high) =
    let same : m ≡ n = some-injective m n e in (suc m, refl, omega arith, omega arith)

pauses-Paused : (fuel sleep : ℕ) → 0 < sleep → sleep < fuel → Paused sleep (pauses fuel sleep)
unfolding pauses
pauses-Paused zero sleep p h = absurd (omega arith)
pauses-Paused (suc fuel) sleep p h = elim (Bool-cases (ltb 100 sleep)) [
  | inl long ↦ rw long (
      count_pause-Paused sleep (pauses fuel (sleep - 100)) (ground arith)
        (pauses-Paused fuel (sleep - 100) (ground arith) (ground arith)))
  | inr short ↦ rw short (0, refl, omega arith, ground arith)
]

reconnect_lem :
    (time : ℕ)
    → let tout = min ((2 ^ 32 - 1) / 1000) (if ltb 1 time then time else 1) in
      (1 ≤ tout) × (tout * 1000 < 2 ^ 32)
reconnect_lem time = ground arith

-- Whatever time is set for a reconnection: it is at least one second, its milliseconds are counted
-- without wrapping round, and the loop of pauses of 100 milliseconds ends as soon as at most one pause
-- is left of the time and before nothing is left, so that it makes one pause fewer than fill the time.
pub set_reconnect_time-pauses :
    (time : ℕ) (t : Tracker)
    → let u = set_reconnect_time time t in
      (1 ≤ u.tout)
      × (restart_delay u ≡ u.tout * 1000)
      × Paused (u.tout * 1000) (pauses (suc (restart_delay u)) (restart_delay u))
unfolding set_reconnect_time restart_delay
set_reconnect_time-pauses time t =
    let tout = min ((2 ^ 32 - 1) / 1000) (if ltb 1 time then time else 1) in
    let (least, small) = reconnect_lem time in
    let e : tout * 1000 % 2 ^ 32 ≡ tout * 1000 = omega arith in
    (
      least,
      e,
      subst (λ ms. Paused (tout * 1000) (pauses (suc ms) ms)) (sym e)
          (pauses-Paused (suc (tout * 1000)) (tout * 1000) (omega (arith, least)) (omega arith)),
    )
