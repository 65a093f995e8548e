-- ===== src/Proxy/Caching.antt =====
-- `nrdpx_cache_t` of src/nrdpx_server.cpp: routes cached by the client's host. The table is an
-- association list with at most one entry for a key. `now` is what `time` returns in the call.
pub mod Fresh
use nuords_proxy.Prelude.{
  ℕ, ◌+◌, Bool, true, false, ◌&&◌, ◌||◌, is_some, ltb, ◌==◌, if◌then◌else◌, Option, none, some,
  List, [], ◌∷◌, Bytes, equal,
}
use nuords_proxy.Proxy.{Route, CacheMode, none_mode, temp_mode, perm_mode}
use nuords_proxy.Proxy.Run.{
  Cmd, pure, ◌>>=◌, ◌>>◌, get, modify, load_route, store_route, free_route,
}

abbrev pub Entries : Type 0
Entries = List (Bytes × ℕ)

unfoldable pub lookup : Bytes → Entries → Option ℕ
lookup key [] = none
lookup key ((k, a) ∷ m) = if equal k key then some a else lookup key m

unfoldable pub erase : Bytes → Entries → Entries
erase key [] = []
erase key ((k, a) ∷ m) = if equal k key then m else (k, a) ∷ erase key m

unfoldable pub erase_keys : List Bytes → Entries → Entries
unfolding erase
erase_keys [] m = m
erase_keys (k ∷ keys) m = erase_keys keys (erase k m)

abbrev pub set_entries : Entries → Cmd (Unit {0})
set_entries m = modify λ p. let c = p.cache in record p { cache = record c { routes = m } }

-- A route with no active slots, unused for longer than the timeout.
unfoldable pub is_expired : ℕ → ℕ → Route → Bool
is_expired now timeout r = (r.num_slots == 0) && ltb (r.act_time + timeout) now

-- The first loop of the cleaning: deletes the expired routes and collects their keys.
unfoldable pub sweep : ℕ → ℕ → Entries → Cmd (List Bytes)
sweep now timeout [] = pure []
sweep now timeout ((k, a) ∷ m) = do
  r ← load_route a
  if is_expired now timeout r
      then (do free_route a; keys ← sweep now timeout m; pure (k ∷ keys))
      else sweep now timeout m

abbrev pub set_check : ℕ → Cmd (Unit {0})
set_check t = modify λ p. let c = p.cache in record p { cache = record c { chktime = t } }

-- Once an hour. (`chktime` is not initialised by the constructor: the first value is any.)
unfoldable pub cache_clean : ℕ → Cmd (Unit {0})
cache_clean now = do
  p ← get
  if ltb p.cache.chktime now
      then (do
        set_check (now + 3600)
        keys ← sweep now p.cache.timeout p.cache.routes
        set_entries (erase_keys keys p.cache.routes))
      else pure tt

-- What is done with the entry that `find` finds.
unfoldable pub cache_hit : ℕ → Bytes → Option ℕ → Cmd (Option ℕ)
cache_hit now key none = pure none
cache_hit now key (some a) = do
  r ← load_route a
  p ← get
  if is_expired now p.cache.timeout r
      then (do free_route a; set_entries (erase key p.cache.routes); pure none)
      else pure (some a)

abbrev pub is_off : CacheMode → Bool
is_off none_mode = true
is_off temp_mode = false
is_off perm_mode = false

unfoldable pub cache_find : ℕ → Bytes → Cmd (Option ℕ)
cache_find now key = do
  p ← get
  if is_off p.cache.mode
      then pure none
      else (do cache_clean now; q ← get; cache_hit now key (lookup key q.cache.routes))

-- The part of `add` behind its two guards.
unfoldable pub cache_insert : ℕ → Bytes → ℕ → Cmd Bool
cache_insert now key a = do
  p ← get
  set_entries ((key, a) ∷ p.cache.routes)
  r ← load_route a
  store_route a (record r { act_time = now; cached = true })
  pure true

unfoldable pub cache_add : ℕ → Bytes → ℕ → Cmd Bool
cache_add now key a = do
  p ← get
  if is_off p.cache.mode || is_some (lookup key p.cache.routes)
      then pure false
      else cache_insert now key a

unfoldable pub cache_drop : Bytes → Option ℕ → Cmd (Unit {0})
cache_drop key none = pure tt
cache_drop key (some a) = do
  r ← load_route a
  p ← get
  if r.num_slots == 0 then (do free_route a; set_entries (erase key p.cache.routes)) else pure tt

unfoldable pub cache_remove : Bytes → Cmd (Unit {0})
cache_remove key = do p ← get; cache_drop key (lookup key p.cache.routes)
