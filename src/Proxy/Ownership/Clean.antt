-- ===== src/Proxy/Ownership/Clean.antt =====
-- The hourly cleaning of the cache.
use nuords_proxy.Prelude.{
  ℕ, ◌+◌, ◌≡◌, refl, ap, ◌∙◌, ◌⊎◌, inl, inr, ◌≢◌, Bool, true, false, ◌&&◌, not, Bool-cases, ◌==◌,
  ltb, if◌then◌else◌, Option, none, some, List, [], ◌∷◌, Bytes, equal, equal_iff, equal_self, arith,
}
use nuords_proxy.Proxy.{Proxy, Route}
use nuords_proxy.Proxy.Run.{put_at}
use nuords_proxy.Proxy.Caching.{Entries, lookup, erase, erase_keys, is_expired, sweep, cache_clean}
use nuords_proxy.Proxy.Ownership.{
  Safe, safe, then-Safe, mono-Safe, load_route-ok, free_route-ok, keys_of, Owned, Distinct, Wf,
}

module _ (now timeout : ℕ) where
  abbrev pub is_dead : Option Route → Bool
  is_dead none = false
  is_dead (some r) = is_expired now timeout r

  -- The keys that the sweep collects, the heap that it leaves, and the entries that stay.
  abbrev dead_keys : Entries → (ℕ → Option Route) → List Bytes
  dead_keys [] f = []
  dead_keys ((k, a) ∷ m) f = if is_dead (f a) then k ∷ dead_keys m f else dead_keys m f

  abbrev pub swept : Entries → (ℕ → Option Route) → ℕ → Option Route
  swept m f b = if not (keys_of b m == 0) && is_dead (f b) then none else f b

  abbrev pub kept : Entries → (ℕ → Option Route) → Entries
  kept [] f = []
  kept ((k, a) ∷ m) f = if is_dead (f a) then kept m f else (k, a) ∷ kept m f

  -- An entry leads to a route, and no other entry leads there.
  abbrev Leads : Entries → (ℕ → Option Route) → Type 0
  Leads m f = (a : ℕ) → (keys_of a m ≡ 0) ⊎ ((keys_of a m ≡ 1) × (r : Route) × (f a ≡ some r))

  record Swept (m : Entries) (p : Proxy) (keys : List Bytes) (q : Proxy) : Type 0 where
    rest : q ≡ record p { route_at = q.route_at }
    heap : (b : ℕ) → q.route_at b ≡ swept m p.route_at b
    keys_are : keys ≡ dead_keys m p.route_at

  dead_keys-same :
      (m : Entries) (f g : ℕ → Option Route)
      → ((b : ℕ) → keys_of b m ≢ 0 → f b ≡ g b)
      → dead_keys m f ≡ dead_keys m g
  dead_keys-same [] f g e = refl
  dead_keys-same ((k, a) ∷ m) f g e =
      rw (e a (ground arith), dead_keys-same m f g (λ b ne. e b (ground arith)))

  sweep-dead :
      (k : Bytes) (a : ℕ) (m : Entries) (p q : Proxy) (r : Route) (keys : List Bytes)
      → keys_of a m ≡ 0
      → p.route_at a ≡ some r
      → is_expired now timeout r ≡ true
      → Swept m (record p { route_at = put_at a none p.route_at }) keys q
      → Swept ((k, a) ∷ m) p (k ∷ keys) q
  sweep-dead k a m p q r keys last live dead s = record {
    rest = s.rest;
    heap = λ b. ground (arith, s.heap b);
    keys_are =
        let same : dead_keys m (put_at a none p.route_at) ≡ dead_keys m p.route_at =
          dead_keys-same m (put_at a none p.route_at) p.route_at (λ b ne. ground arith) in
        rw (live, dead) (ap (◌∷◌ k) (s.keys_are ∙ same));
  }

  sweep-alive :
      (k : Bytes) (a : ℕ) (m : Entries) (p q : Proxy) (r : Route) (keys : List Bytes)
      → keys_of a m ≡ 0
      → p.route_at a ≡ some r
      → is_expired now timeout r ≡ false
      → Swept m p keys q
      → Swept ((k, a) ∷ m) p keys q
  sweep-alive k a m p q r keys last live alive s = record {
    rest = s.rest;
    heap = λ b. ground (arith, s.heap b);
    keys_are = rw (live, alive) s.keys_are;
  }

  Leads-head :
      (k : Bytes) (a : ℕ) (m : Entries) (f : ℕ → Option Route)
      → Leads ((k, a) ∷ m) f
      → (keys_of a m ≡ 0) × (r : Route) × (f a ≡ some r)
  Leads-head k a m f l = elim (l a) [
    | inl e ↦ absurd (ground arith)
    | inr (e, r, live) ↦ (ground arith, r, live)
  ]

  Leads-tail :
      (k : Bytes) (a : ℕ) (m : Entries) (f : ℕ → Option Route) → Leads ((k, a) ∷ m) f → Leads m f
  Leads-tail k a m f l b = elim (l b) [
    | inl e ↦ inl (ground arith)
    | inr (e, r, live) ↦ elim (Bool-cases (a == b)) [
      | inl same ↦ inl (ground arith)
      | inr other ↦ inr (ground arith, r, live)
    ]
  ]

  Leads-freed :
      (a : ℕ) (m : Entries) (f : ℕ → Option Route)
      → keys_of a m ≡ 0
      → Leads m f
      → Leads m (put_at a none f)
  Leads-freed a m f last l b = elim (l b) [
    | inl e ↦ inl e
    | inr (e, r, live) ↦ inr (e, r, ground arith)
  ]

  sweep-Swept :
      (m : Entries) (p : Proxy) → Leads m p.route_at → Safe (Swept m p) (sweep now timeout m p)
  unfolding sweep
  sweep-Swept [] p l = safe (record { rest = refl; heap = λ b. refl; keys_are = refl })
  sweep-Swept ((k, a) ∷ m) p l =
      let (last, r, live) = Leads-head k a m p.route_at l in
      let next = Leads-tail k a m p.route_at l in
      elim (Bool-cases (is_expired now timeout r)) [
        | inl dead ↦
            rw (load_route-ok a r p live, dead, free_route-ok a r p live)
              (then-Safe
                (sweep-Swept m (record p { route_at = put_at a none p.route_at })
                  (Leads-freed a m p.route_at last next))
                λ keys q s. safe (sweep-dead k a m p q r keys last live dead s))
        | inr alive ↦
            rw (load_route-ok a r p live, alive)
              (mono-Safe (sweep-Swept m p next)
                λ keys q s. sweep-alive k a m p q r keys last live alive s)
      ]

  -- Erasing the collected keys leaves the entries of the routes that stay.
  lookup-kept :
      (key : Bytes) (m : Entries) (f : ℕ → Option Route)
      → lookup key m ≡ none
      → lookup key (kept m f) ≡ none
  unfolding lookup
  lookup-kept key [] f e = refl
  lookup-kept key ((k, a) ∷ m) f e = ground (arith, lookup-kept key m f)

  pub kept-Distinct : (m : Entries) (f : ℕ → Option Route) → Distinct m → Distinct (kept m f)
  kept-Distinct [] f d = tt
  kept-Distinct ((k, a) ∷ m) f (new, d) = ground (arith, kept-Distinct m f d, lookup-kept k m f new)

  pub keys_of-kept :
      (b : ℕ) (m : Entries) (f : ℕ → Option Route)
      → keys_of b (kept m f) ≡ (if is_dead (f b) then 0 else keys_of b m)
  keys_of-kept b [] f = ground arith
  keys_of-kept b ((k, a) ∷ m) f = ground (arith, keys_of-kept b m f)

  -- A key that is not in the table is not among the collected ones.
  Skips : Bytes → List Bytes → Type 0
  Skips k [] = Unit {0}
  Skips k (key ∷ keys) = (equal k key ≡ false) × Skips k keys

  dead_keys-Skips :
      (k : Bytes) (m : Entries) (f : ℕ → Option Route) → lookup k m ≡ none → Skips k (dead_keys m f)
  unfolding Skips lookup
  dead_keys-Skips k [] f e = tt
  dead_keys-Skips k ((k', a) ∷ m) f e =
      ground (arith, dead_keys-Skips k m f, equal_iff k k', equal_iff k' k)

  erase_keys-cons :
      (keys : List Bytes) (k : Bytes) (a : ℕ) (m : Entries)
      → Skips k keys
      → erase_keys keys ((k, a) ∷ m) ≡ (k, a) ∷ erase_keys keys m
  unfolding erase_keys erase Skips
  erase_keys-cons [] k a m s = refl
  erase_keys-cons (key ∷ keys) k a m s = ground (arith, erase_keys-cons keys k a (erase key m))

  erase_keys-kept :
      (m : Entries) (f : ℕ → Option Route) → Distinct m → erase_keys (dead_keys m f) m ≡ kept m f
  unfolding erase_keys erase
  erase_keys-kept [] f d = refl
  erase_keys-kept ((k, a) ∷ m) f (new, d) = elim (Bool-cases (is_dead (f a))) [
    | inl dead ↦ rw (dead, erase_keys, erase, equal_self k) (erase_keys-kept m f d)
    | inr alive ↦ rw alive (
        erase_keys-cons (dead_keys m f) k a m (dead_keys-Skips k m f new)
        ∙ ap (◌∷◌ (k, a)) (erase_keys-kept m f d))
  ]

-- What stays of a sound cache when the sweep is over.
swept-Owned :
    (now timeout : ℕ) (o : Option Route) (n k h : ℕ)
    → Owned o n k h
    → Owned
        (if not (k == 0) && is_dead now timeout o then none else o)
        n
        (if is_dead now timeout o then 0 else k)
        h
unfolding is_expired
swept-Owned now timeout none n k h w = ground arith
swept-Owned now timeout (some r) n k h w = ground arith

Owned-keys : (r : Route) (n k h : ℕ) → Owned (some r) n k h → (k ≡ 0) ⊎ (k ≡ 1)
Owned-keys r n k h w = ground arith

Owned-Leads :
    (o : Option Route) (n k h : ℕ)
    → Owned o n k h
    → (k ≡ 0) ⊎ ((k ≡ 1) × (r : Route) × (o ≡ some r))
Owned-Leads none n k h w = inl w.1
Owned-Leads (some r) n k h w = elim (Owned-keys r n k h w) [
  | inl e ↦ inl e
  | inr e ↦ inr (e, r, refl)
]

Wf-Leads :
    (now timeout : ℕ) (p : Proxy) (n h : ℕ → ℕ)
    → Wf p n h
    → Leads now timeout p.cache.routes p.route_at
Wf-Leads now timeout p n h w a = Owned-Leads (p.route_at a) (n a) _ (h a) (w.owned a)

-- What the cleaning leaves alone.
abbrev pub Cleaned : Proxy → Proxy → Type 0
Cleaned p q = q ≡ record p { route_at = q.route_at; cache = q.cache }

Wf-Swept :
    (now : ℕ) (p q : Proxy) (n h : ℕ → ℕ) (keys : List Bytes)
    → Wf p n h
    → Swept now p.cache.timeout p.cache.routes
        (let c = p.cache in record p { cache = record c { chktime = now + 3600 } })
        keys
        q
    → Wf
        (let c = q.cache in
          record q { cache = record c { routes = erase_keys keys p.cache.routes } })
        n
        h
Wf-Swept now p q n h keys w s = record {
  owned = λ a.
      rw
        (
          s.heap a,
          s.keys_are,
          erase_keys-kept now p.cache.timeout p.cache.routes p.route_at w.distinct,
        )
        (rw (keys_of-kept now p.cache.timeout a p.cache.routes p.route_at) (
          swept-Owned now p.cache.timeout (p.route_at a) (n a) (keys_of a p.cache.routes) (h a)
            (w.owned a)));
  fresh = λ a le.
      let same : q.next_addr ≡ p.next_addr = ap (λ z. z.next_addr) s.rest in
      let gone : p.route_at a ≡ none = w.fresh a (omega arith) in ground (arith, s.heap a);
  distinct =
      rw (s.keys_are, erase_keys-kept now p.cache.timeout p.cache.routes p.route_at w.distinct)
        (kept-Distinct now p.cache.timeout p.cache.routes p.route_at w.distinct);
}

pub cache_clean-Wf :
    (now : ℕ) (p : Proxy) (n h : ℕ → ℕ)
    → Wf p n h
    → Safe (λ _ q. Wf q n h × Cleaned p q) (cache_clean now p)
unfolding cache_clean
cache_clean-Wf now p n h w = elim (Bool-cases (ltb p.cache.chktime now)) [
  | inr fresh ↦ rw fresh (safe (w, refl))
  | inl due ↦
      let c = p.cache in
      let p' : Proxy = record p { cache = record c { chktime = now + 3600 } } in
      rw due (
        then-Safe (sweep-Swept now c.timeout c.routes p' (Wf-Leads now c.timeout p n h w))
          λ keys q s.
            let d = q.cache in
            safe (
              Wf-Swept now p q n h keys w s,
              ap
                  (λ (z : Proxy). record z {
                    cache = record d { routes = erase_keys keys c.routes };
                  })
                  s.rest,
            ))
]
