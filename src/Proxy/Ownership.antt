-- ===== src/Proxy/Ownership.antt =====
-- Who holds a route: the routes of the heap, seen from the channels and the cache.
pub mod Clean
pub mod Cached
pub mod Linked
pub mod Frame
pub mod Created
pub mod Finished
use native.Mathlib.Omega.{arith}
use nuords_proxy.Prelude.{
  ℕ, suc, ◌+◌, ◌≤◌, ◌≡◌, refl, Bool, true, false, ◌==◌, same_ptr, if◌then◌else◌, Option, none, some,
  List, [], ◌∷◌, ◌++◌, Bytes,
}
use nuords_proxy.Proxy.{Proxy, Route, Channel}
use nuords_proxy.Proxy.Run.{
  Run, ok, Cmd, and_then, put_at, follow, socket_close, load_route, store_route, free_route,
}
use nuords_proxy.Proxy.Caching.{Entries, lookup}
use nuords_proxy.Proxy.Connect.{check_route}

-- A command that does not fault, with what holds after it.
pub data Safe {A : Type 0} (P : A → Proxy → Type 0) : Run A → Type 0 where
  safe : {a : A} {p : Proxy} → P a p → Safe P (ok a p)

module _ {A B : Type 0} {P : A → Proxy → Type 0} {Q : B → Proxy → Type 0} where
  pub then-Safe :
      {m : Run A} {next : A → Cmd B}
      → Safe P m
      → ((a : A) (p : Proxy) → P a p → Safe Q (next a p))
      → Safe Q (and_then m next)
  then-Safe (safe h) k = k _ _ h

pub mono-Safe :
    {A : Type 0} {P Q : A → Proxy → Type 0} {m : Run A}
    → Safe P m
    → ((a : A) (p : Proxy) → P a p → Q a p)
    → Safe Q m
mono-Safe (safe h) k = safe (k _ _ h)

pub if_Safe :
    {A : Type 0} {P : A → Proxy → Type 0} (b : Bool) (m n : Cmd A) (p : Proxy)
    → Safe P (m p)
    → Safe P (n p)
    → Safe P ((if b then m else n) p)
if_Safe true m n p h k = h
if_Safe false m n p h k = k

pub load_route-ok :
    (a : ℕ) (r : Route) (p : Proxy) → p.route_at a ≡ some r → load_route a p ≡ ok r p
unfolding load_route
load_route-ok a r p e = rw (e, load_route)

pub store_route-ok :
    (a : ℕ) (r r' : Route) (p : Proxy)
    → p.route_at a ≡ some r
    → store_route a r' p ≡ ok tt (record p { route_at = put_at a (some r') p.route_at })
unfolding store_route
store_route-ok a r r' p e = rw (e, store_route)

pub follow-ok : (o : Option ℕ) (a : ℕ) (p : Proxy) → o ≡ some a → follow o p ≡ ok a p
unfolding follow
follow-ok o a p e = rw (e, follow)

pub socket_close-ok :
    (s : Option ℕ) (p : Proxy)
    → (closed : List ℕ) × (socket_close s p ≡ ok tt (record p { closed = closed }))
unfolding socket_close
socket_close-ok none p = (p.closed, refl)
socket_close-ok (some s) p = (s ∷ p.closed, refl)

pub free_route-ok :
    (a : ℕ) (r : Route) (p : Proxy)
    → p.route_at a ≡ some r
    → free_route a p ≡ ok tt (record p { route_at = put_at a none p.route_at })
unfolding free_route
free_route-ok a r p e = rw (e, free_route)

-- How many channels run over the route at `a`, and how many entries of the cache lead to it.
abbrev pub slots_of : ℕ → List Channel → ℕ
slots_of a [] = 0
slots_of a (c ∷ chns) = (if c.route == a then 1 else 0) + slots_of a chns

abbrev pub keys_of : ℕ → Entries → ℕ
keys_of a [] = 0
keys_of a ((k, b) ∷ m) = (if b == a then 1 else 0) + keys_of a m

-- 1 at a pointer that only the running function holds.
abbrev pub held_by : Option ℕ → ℕ → ℕ
held_by held a = if same_ptr held (some a) then 1 else 0

-- A route in use by `n` channels, `k` entries of the cache and `h` running functions. A cached
-- route has one entry; any other has one channel, or is still held.
abbrev pub OwnedAs : Bool → ℕ → ℕ → ℕ → ℕ → Type 0
OwnedAs true slots n k h = (k ≡ 1) × (slots ≡ n) × (h ≡ 0)
OwnedAs false slots n k h = (k ≡ 0) × (slots ≡ n) × (n + h ≡ 1)

abbrev pub Owned : Option Route → ℕ → ℕ → ℕ → Type 0
Owned none n k h = (n ≡ 0) × (k ≡ 0) × (h ≡ 0)
Owned (some r) n k h =
    OwnedAs r.cached r.num_slots n k h × (h ≡ 0 → check_route r.balancer r.client r.server ≡ true)

abbrev pub Distinct : Entries → Type 0
Distinct [] = Unit {0}
Distinct ((k, a) ∷ m) = (lookup k m ≡ none) × Distinct m

pub record Wf (p : Proxy) (n h : ℕ → ℕ) : Type 0 where
  pub owned : (a : ℕ) → Owned (p.route_at a) (n a) (keys_of a p.cache.routes) (h a)
  pub fresh : (a : ℕ) → p.next_addr ≤ a → p.route_at a ≡ none
  pub distinct : Distinct p.cache.routes

-- Between two calls: nothing is held.
abbrev pub IsSound : Proxy → Type 0
IsSound p = Wf p (λ a. slots_of a p.channels) (held_by none)
