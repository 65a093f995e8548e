-- ===== src/Proxy/Ownership/Frame.antt =====
-- What the cache and the choice of a route leave alone: the channels, the closed sockets, the
-- servers and the clients.
use nuords_proxy.Prelude.{
  Option-cases, inl, inr, ℕ, ◌≡◌, Bool, true, false, ◌||◌, ltb, same_ptr, is_some, ◌==◌,
  if◌then◌else◌, Option, none, some, List, [], ◌∷◌, Bytes,
}
use nuords_proxy.Inet.{Addr}
use nuords_proxy.Proxy.{Proxy, Route, Channel, Server, Client}
use nuords_proxy.Proxy.Run.{
  Run, ok, fault, Cmd, and_then, load_route, store_route, free_route, new_route,
}
use nuords_proxy.Proxy.Caching.{
  Entries, lookup, is_expired, sweep, cache_clean, cache_hit, is_off, cache_find, cache_insert,
  cache_add, cache_drop, cache_remove,
}
use nuords_proxy.Proxy.Select.{Double}
use nuords_proxy.Proxy.Connect.{use_cached, use_route, obtain_route}
use nuords_proxy.Proxy.Ownership.{Safe, safe}

abbrev pub Core : Type 0
Core = List Channel × List ℕ × (ℕ → Server) × (ℕ → Client)

abbrev pub core : Proxy → Core
core p = (p.channels, p.closed, p.server_at, p.client_at)

-- The command has not changed the core, if it has not faulted.
abbrev pub Kept : {A : Type 0} → Core → Run A → Type 0
Kept c (ok a q) = core q ≡ c
Kept c fault = Unit {0}

pub then-Kept :
    {A B : Type 0} (c : Core) (m : Run A) (next : A → Cmd B)
    → Kept c m
    → ((a : A) (q : Proxy) → core q ≡ c → Kept c (next a q))
    → Kept c (and_then m next)
then-Kept c (ok a q) next e k = k a q e
then-Kept c fault next e k = tt

pub Safe-Kept :
    {A : Type 0} {P : A → Proxy → Type 0} (c : Core) (m : Run A)
    → Safe P m
    → Kept c m
    → Safe (λ a q. P a q × (core q ≡ c)) m
Safe-Kept c (ok a q) (safe h) e = safe (h, e)
Safe-Kept c fault h e = elim h [ ]

module _ (c : Core) where
  if_Kept :
      {A : Type 0} (b : Bool) (m n : Cmd A) (p : Proxy)
      → Kept c (m p)
      → Kept c (n p)
      → Kept c ((if b then m else n) p)
  if_Kept true m n p e f = e
  if_Kept false m n p e f = f

  pub load_route-Kept : (a : ℕ) (p : Proxy) → core p ≡ c → Kept c (load_route a p)
  unfolding load_route
  load_route-Kept a p e = elim (Option-cases (p.route_at a)) [
    | inl dead ↦ rw (dead, load_route) tt
    | inr (r', live) ↦ rw (live, load_route) e
  ]

  store_route-Kept : (a : ℕ) (r : Route) (p : Proxy) → core p ≡ c → Kept c (store_route a r p)
  unfolding store_route
  store_route-Kept a r p e = elim (Option-cases (p.route_at a)) [
    | inl dead ↦ rw (dead, store_route) tt
    | inr (r', live) ↦ rw (live, store_route) e
  ]

  free_route-Kept : (a : ℕ) (p : Proxy) → core p ≡ c → Kept c (free_route a p)
  unfolding free_route
  free_route-Kept a p e = elim (Option-cases (p.route_at a)) [
    | inl dead ↦ rw (dead, free_route) tt
    | inr (r', live) ↦ rw (live, free_route) e
  ]

  sweep-Kept :
      (now timeout : ℕ) (m : Entries) (p : Proxy) → core p ≡ c → Kept c (sweep now timeout m p)
  unfolding sweep
  sweep-Kept now timeout [] p e = e
  sweep-Kept now timeout ((k, a) ∷ m) p e =
      then-Kept c (load_route a p) _ (load_route-Kept a p e) λ r q f.
        if_Kept (is_expired now timeout r) _ _ q
          (then-Kept c (free_route a q) _ (free_route-Kept a q f) λ _ q g.
            then-Kept c (sweep now timeout m q) _ (sweep-Kept now timeout m q g) λ _ q h. h)
          (sweep-Kept now timeout m q f)

  cache_clean-Kept : (now : ℕ) (p : Proxy) → core p ≡ c → Kept c (cache_clean now p)
  unfolding cache_clean
  cache_clean-Kept now p e =
      if_Kept (ltb p.cache.chktime now) _ _ p
        (then-Kept c (sweep now p.cache.timeout p.cache.routes _) _
          (sweep-Kept now p.cache.timeout p.cache.routes _ e) λ _ q f. f)
        e

  cache_hit-Kept :
      (now : ℕ) (key : Bytes) (found : Option ℕ) (p : Proxy)
      → core p ≡ c
      → Kept c (cache_hit now key found p)
  unfolding cache_hit
  cache_hit-Kept now key none p e = e
  cache_hit-Kept now key (some a) p e =
      then-Kept c (load_route a p) _ (load_route-Kept a p e) λ r q f.
        if_Kept (is_expired now q.cache.timeout r) _ _ q
          (then-Kept c (free_route a q) _ (free_route-Kept a q f) λ _ q g. g) f

  cache_find-Kept : (now : ℕ) (key : Bytes) (p : Proxy) → core p ≡ c → Kept c (cache_find now key p)
  unfolding cache_find
  cache_find-Kept now key p e = if_Kept (is_off p.cache.mode) _ _ p e (
      then-Kept c (cache_clean now p) _ (cache_clean-Kept now p e)
        λ _ q f. cache_hit-Kept now key (lookup key q.cache.routes) q f)

  pub cache_add-Kept :
      (now : ℕ) (key : Bytes) (a : ℕ) (p : Proxy) → core p ≡ c → Kept c (cache_add now key a p)
  unfolding cache_add cache_insert
  cache_add-Kept now key a p e =
      if_Kept (is_off p.cache.mode || is_some (lookup key p.cache.routes)) _ _ p e (
        then-Kept c (load_route a _) _ (load_route-Kept a _ e)
          λ r q f. then-Kept c (store_route a _ q) _ (store_route-Kept a _ q f) λ _ q g. g)

  cache_drop-Kept :
      (key : Bytes) (found : Option ℕ) (p : Proxy) → core p ≡ c → Kept c (cache_drop key found p)
  unfolding cache_drop
  cache_drop-Kept key none p e = e
  cache_drop-Kept key (some a) p e = then-Kept c (load_route a p) _ (load_route-Kept a p e) λ r q f.
      if_Kept (r.num_slots == 0) _ _ q
        (then-Kept c (free_route a q) _ (free_route-Kept a q f) λ _ q g. g) f

  pub cache_remove-Kept : (key : Bytes) (p : Proxy) → core p ≡ c → Kept c (cache_remove key p)
  unfolding cache_remove
  cache_remove-Kept key p e = cache_drop-Kept key (lookup key p.cache.routes) p e

  use_cached-Kept :
      (key : Bytes) (nosvr found : Option ℕ) (p : Proxy)
      → core p ≡ c
      → Kept c (use_cached key nosvr found p)
  unfolding use_cached
  use_cached-Kept key nosvr none p e = e
  use_cached-Kept key nosvr (some a) p e =
      then-Kept c (load_route a p) _ (load_route-Kept a p e) λ r q f.
        if_Kept (same_ptr r.server nosvr) _ _ q
          (then-Kept c (cache_remove key q) _ (cache_remove-Kept key q f) λ _ q g. g) f

  use_route-Kept :
      (d : Double) (addr : Addr) (nosvr cached : Option ℕ) (p : Proxy)
      → core p ≡ c
      → Kept c (use_route d addr nosvr cached p)
  unfolding use_route new_route
  use_route-Kept d addr nosvr none p e = e
  use_route-Kept d addr nosvr (some a) p e = e

  pub obtain_route-Kept :
      (d : Double) (time : ℕ) (addr : Addr) (key : Bytes) (nosvr : Option ℕ) (p : Proxy)
      → core p ≡ c
      → Kept c (obtain_route d time addr key nosvr p)
  unfolding obtain_route
  obtain_route-Kept d time addr key nosvr p e =
      then-Kept c (cache_find time key p) _ (cache_find-Kept time key p e) λ found q f.
        then-Kept c (use_cached key nosvr found q) _ (use_cached-Kept key nosvr found q f)
          λ cached q g. use_route-Kept d addr nosvr cached q g
