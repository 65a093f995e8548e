-- ===== src/Proxy/Caching/Fresh.antt =====
-- A route that was just cached is found again.
use nuords_proxy.Prelude.{
  ℕ, ◌+◌, ◌≤◌, ◌≡◌, refl, true, false, ltb, equal_self, none, some, ◌∷◌, Bytes, arith, Bool, ◌&&◌,
  ◌==◌, ==_self, if_true,
}
use nuords_proxy.Proxy.{Proxy, Route}
use nuords_proxy.Proxy.Run.{ok, load_route, store_route, put_at}
use nuords_proxy.Proxy.Ownership.{load_route-ok}
use nuords_proxy.Proxy.Caching.{
  Entries, lookup, is_off, is_expired, cache_find, cache_hit, cache_clean, cache_add, cache_insert,
}

-- The proxy after `add`.
abbrev pub with_cached : ℕ → Bytes → ℕ → Route → Proxy → Proxy
with_cached now key a r p = record (p) {
  cache = record (p.cache) { routes = (key, a) ∷ p.cache.routes };
  route_at = put_at a (some (record (r) { act_time = now; cached = true })) p.route_at;
}

add_lem :
    (now : ℕ) (key : Bytes) (a : ℕ) (r : Route) (p : Proxy)
    → is_off p.cache.mode ≡ false
    → lookup key p.cache.routes ≡ none
    → p.route_at a ≡ some r
    → cache_add now key a p ≡ ok true (with_cached now key a r p)
unfolding cache_add cache_insert load_route store_route
add_lem now key a r p on absent e = rw (on, absent, e, e) refl

not_after : (a b : ℕ) → b ≤ a → ltb a b ≡ false
not_after a b h = ground arith

not_expired :
    (later timeout : ℕ) (r : Route)
    → later ≤ r.act_time + timeout
    → is_expired later timeout r ≡ false
unfolding is_expired
not_expired later timeout r h =
    rw (not_after (r.act_time + timeout) later h) (and_false (r.num_slots == 0))
  where
    and_false : (b : Bool) → (b && false) ≡ false
    and_false true = refl
    and_false false = refl

cache_clean-early :
    (later : ℕ) (q : Proxy) → later ≤ q.cache.chktime → cache_clean later q ≡ ok tt q
unfolding cache_clean
cache_clean-early later q h = rw (not_after q.cache.chktime later h) refl

lookup-first : (key : Bytes) (a : ℕ) (m : Entries) → lookup key ((key, a) ∷ m) ≡ some a
unfolding lookup
lookup-first key a m = rw (equal_self key) refl

cache_hit-fresh :
    (later : ℕ) (key : Bytes) (a : ℕ) (r : Route) (q : Proxy)
    → q.route_at a ≡ some r
    → later ≤ r.act_time + q.cache.timeout
    → cache_hit later key (some a) q ≡ ok (some a) q
unfolding cache_hit
cache_hit-fresh later key a r q e h =
    rw (load_route-ok a r q e, not_expired later q.cache.timeout r h) refl

refused :
    (later : ℕ) (key : Bytes) (a b : ℕ) (q : Proxy)
    → is_off q.cache.mode ≡ false
    → lookup key q.cache.routes ≡ some a
    → cache_add later key b q ≡ ok false q
unfolding cache_add
refused later key a b q on found = rw (on, found) refl

find_lem :
    (later : ℕ) (key : Bytes) (a : ℕ) (r : Route) (q : Proxy)
    → is_off q.cache.mode ≡ false
    → later ≤ q.cache.chktime
    → later ≤ r.act_time + q.cache.timeout
    → q.route_at a ≡ some r
    → lookup key q.cache.routes ≡ some a
    → cache_find later key q ≡ ok (some a) q
unfolding cache_find
find_lem later key a r q on early soon e found =
    rw (on, cache_clean-early later q early, found) (cache_hit-fresh later key a r q e soon)

-- Where the cache is on and has no entry for a host, a route that is in memory and is added for the
-- host is found for it again, and the search changes nothing, until the entries are cleaned next or
-- the route's timeout is over; adding another route for the host meanwhile is refused.
pub cache_add-find :
    (now later : ℕ) (key : Bytes) (a b : ℕ) (r : Route) (p : Proxy)
    → is_off p.cache.mode ≡ false
    → lookup key p.cache.routes ≡ none
    → p.route_at a ≡ some r
    → later ≤ p.cache.chktime
    → later ≤ now + p.cache.timeout
    → let q = with_cached now key a r p in
      (cache_add now key a p ≡ ok true q)
      × (cache_find later key q ≡ ok (some a) q)
      × (cache_add later key b q ≡ ok false q)
cache_add-find now later key a b r p on absent e early soon =
    let q = with_cached now key a r p in
    let found = lookup-first key a p.cache.routes in
    (
      add_lem now key a r p on absent e,
      find_lem later key a (record (r) { act_time = now; cached = true }) q on early soon
          (if_true (a == a) _ _ (==_self a)) found,
      refused later key a b q on found,
    )
