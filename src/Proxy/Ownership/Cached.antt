-- ===== src/Proxy/Ownership/Cached.antt =====
-- The routes and their owners under `find`, `add` and `remove` of the routing cache.
use nuords_proxy.Prelude.{
  ℕ, ◌+◌, ◌<◌, ◌≡◌, refl, subst, ◌⊎◌, inl, inr, true, false, ◌||◌, Bool-cases, ◌==◌, if◌then◌else◌,
  Option, none, some, is_some, [], ◌∷◌, Bytes, arith,
}
use nuords_proxy.Proxy.{Proxy, Route}
use nuords_proxy.Proxy.Run.{put_at}
use nuords_proxy.Proxy.Caching.{
  Entries, lookup, erase, is_expired, is_off, cache_hit, cache_find, cache_insert, cache_add,
  cache_drop, cache_remove,
}
use nuords_proxy.Proxy.Ownership.{
  Safe, safe, then-Safe, load_route-ok, store_route-ok, free_route-ok, keys_of, Owned, Distinct, Wf,
}
use nuords_proxy.Proxy.Ownership.Clean.{cache_clean-Wf}

keys_of-erase :
    (b : ℕ) (key : Bytes) (m : Entries) (a : ℕ)
    → lookup key m ≡ some a
    → keys_of b m ≡ (if a == b then 1 else 0) + keys_of b (erase key m)
unfolding lookup erase
keys_of-erase b key [] a e = cc
keys_of-erase b key ((k, c) ∷ m) a e = ground (arith, keys_of-erase b key m a)

lookup-erase-none :
    (k key : Bytes) (m : Entries) → lookup k m ≡ none → lookup k (erase key m) ≡ none
unfolding lookup erase
lookup-erase-none k key [] e = refl
lookup-erase-none k key ((k', c) ∷ m) e = ground (arith, lookup-erase-none k key m)

erase-Distinct : (key : Bytes) (m : Entries) → Distinct m → Distinct (erase key m)
unfolding erase
erase-Distinct key [] d = tt
erase-Distinct key ((k, c) ∷ m) (new, d) =
    ground (arith, erase-Distinct key m d, lookup-erase-none k key m new)

is_expired_idle : (now timeout : ℕ) (r : Route) → is_expired now timeout r ≡ true → r.num_slots ≡ 0
unfolding is_expired
is_expired_idle now timeout r e = ground arith

-- A route that an entry leads to is there and is cached.
Owned-cached :
    (o : Option Route) (n k h : ℕ)
    → Owned o n k h
    → 0 < k
    → (r : Route) × (o ≡ some r) × (r.cached ≡ true) × (r.num_slots ≡ n) × (k ≡ 1) × (h ≡ 0)
Owned-cached none n k h w pos = absurd (omega arith)
Owned-cached (some r) n k h w pos =
    (r, refl, ground arith, ground arith, ground arith, ground arith)

-- A route that is found in the cache, or nothing.
abbrev pub Hit : (ℕ → ℕ) → (ℕ → ℕ) → Option ℕ → Proxy → Type 0
Hit n h res q =
    Wf q n h
    × ((res ≡ none)
        ⊎ ((a : ℕ) × (r : Route) × (res ≡ some a) × (q.route_at a ≡ some r) × (r.cached ≡ true)))

module _ (p : Proxy) (n h : ℕ → ℕ) (w : Wf p n h) where
  cached_route :
      (key : Bytes) (a : ℕ)
      → lookup key p.cache.routes ≡ some a
      → (r : Route) × (p.route_at a ≡ some r)
        × (r.cached ≡ true)
        × (r.num_slots ≡ n a)
        × (keys_of a p.cache.routes ≡ 1)
        × (h a ≡ 0)
  cached_route key a e =
      Owned-cached (p.route_at a) (n a) (keys_of a p.cache.routes) (h a) (w.owned a)
        (ground (arith, keys_of-erase a key p.cache.routes a e))

  abbrev dropped : Bytes → ℕ → Proxy
  dropped key a =
      let c = p.cache in
      record p {
        route_at = put_at a none p.route_at;
        cache = record c { routes = erase key c.routes };
      }

  Wf-dropped :
      (key : Bytes) (a : ℕ) (r : Route)
      → lookup key p.cache.routes ≡ some a
      → p.route_at a ≡ some r
      → r.num_slots ≡ 0
      → Wf (dropped key a) n h
  Wf-dropped key a r e live idle = record {
    owned = λ b. elim (Bool-cases (b == a)) [
      | inl same ↦
          let (r', live', cached, slots, keys, held) = cached_route key a e in
          rw same (ground (arith, keys_of-erase a key p.cache.routes a e))
      | inr other ↦ rw other (
          subst (λ k. Owned (p.route_at b) (n b) k (h b))
            (ground (arith, keys_of-erase b key p.cache.routes a e)) (w.owned b))
    ];
    fresh = λ b le. ground (arith, w.fresh b);
    distinct = erase-Distinct key p.cache.routes w.distinct;
  }

  cache_hit-Hit :
      (now : ℕ) (key : Bytes) (found : Option ℕ)
      → lookup key p.cache.routes ≡ found
      → Safe (Hit n h) (cache_hit now key found p)
  unfolding cache_hit
  cache_hit-Hit now key none e = safe (w, inl refl)
  cache_hit-Hit now key (some a) e =
      let (r, live, cached, slots, keys, held) = cached_route key a e in
      elim (Bool-cases (is_expired now p.cache.timeout r)) [
        | inr alive ↦
            rw (load_route-ok a r p live, alive) (safe (w, inr (a, r, refl, live, cached)))
        | inl dead ↦
            rw (load_route-ok a r p live, dead, free_route-ok a r p live)
              (safe
                (Wf-dropped key a r e live (is_expired_idle now p.cache.timeout r dead), inl refl))
      ]

  cache_drop-Wf :
      (key : Bytes) (found : Option ℕ)
      → lookup key p.cache.routes ≡ found
      → Safe (λ _ q. Wf q n h) (cache_drop key found p)
  unfolding cache_drop
  cache_drop-Wf key none e = safe w
  cache_drop-Wf key (some a) e =
      let (r, live, cached, slots, keys, held) = cached_route key a e in
      elim (Bool-cases (r.num_slots == 0)) [
        | inr busy ↦ rw (load_route-ok a r p live, busy) (safe w)
        | inl idle ↦
            rw (load_route-ok a r p live, idle, free_route-ok a r p live)
              (safe (Wf-dropped key a r e live (ground arith)))
      ]

  pub cache_remove-Wf : (key : Bytes) → Safe (λ _ q. Wf q n h) (cache_remove key p)
  unfolding cache_remove
  cache_remove-Wf key = cache_drop-Wf key (lookup key p.cache.routes) refl

-- `find`, with the cleaning that it may do first, in a state where every route is held as it
-- records: it reads and frees no route that is not there, and frees none that a channel runs over.
-- The state after it is in order for the same channels, and a route that is returned is live and
-- cached.
pub cache_find-Hit :
    (p : Proxy) (n h : ℕ → ℕ) (now : ℕ) (key : Bytes)
    → Wf p n h
    → Safe (Hit n h) (cache_find now key p)
unfolding cache_find
cache_find-Hit p n h now key w = elim (Bool-cases (is_off p.cache.mode)) [
  | inl off ↦ rw off (safe (w, inl refl))
  | inr on ↦ rw on (
      then-Safe (cache_clean-Wf now p n h w)
        λ _ q (w', _). cache_hit-Hit q n h w' now key (lookup key q.cache.routes) refl)
]

-- A route with no entry that a channel runs over gets one.
Wf-inserted :
    (p : Proxy) (n h : ℕ → ℕ) (now : ℕ) (key : Bytes) (a : ℕ) (r : Route)
    → Wf p n h
    → lookup key p.cache.routes ≡ none
    → p.route_at a ≡ some r
    → r.cached ≡ false
    → h a ≡ 0
    → Wf
        (let c = p.cache in
          record p {
            route_at = put_at a (some (record r { act_time = now; cached = true })) p.route_at;
            cache = record c { routes = (key, a) ∷ c.routes };
          })
        n
        h
Wf-inserted p n h now key a r w new live uncached free = record {
  owned = λ b.
      let wa = subst (λ o. Owned o (n a) (keys_of a p.cache.routes) (h a)) live (w.owned a) in
      elim (Bool-cases (b == a)) [
        | inl same ↦ rw same (ground arith)
        | inr other ↦
            rw other (subst (λ k. Owned (p.route_at b) (n b) k (h b)) (ground arith) (w.owned b))
      ];
  fresh = λ b le. ground (arith, w.fresh b);
  distinct = (new, w.distinct);
}

pub cache_add-Wf :
    (p : Proxy) (n h : ℕ → ℕ) (now : ℕ) (key : Bytes) (a : ℕ) (r : Route)
    → Wf p n h
    → p.route_at a ≡ some r
    → r.cached ≡ false
    → h a ≡ 0
    → Safe (λ _ q. Wf q n h × (q.channels ≡ p.channels)) (cache_add now key a p)
unfolding cache_add cache_insert
cache_add-Wf p n h now key a r w live uncached free =
    elim (Bool-cases (is_off p.cache.mode || is_some (lookup key p.cache.routes))) [
      | inl refused ↦ rw refused (safe (w, refl))
      | inr accepted ↦
          let c = p.cache in
          let p' : Proxy = record p { cache = record c { routes = (key, a) ∷ c.routes } } in
          let r' : Route = record r { act_time = now; cached = true } in
          rw (accepted, load_route-ok a r p' live, store_route-ok a r r' p' live)
            (safe (Wf-inserted p n h now key a r w (ground arith) live uncached free, refl))
    ]
