-- ===== src/Proxy/Ownership/Linked.antt =====
-- The routes and their owners while a channel is made and destroyed.
use nuords_proxy.Prelude.{
  ℕ, suc, ◌+◌, ◌-◌, ◌<◌, ◌≡◌, refl, sym, subst, ◌⊎◌, inl, inr, true, false, Bool-cases, ◌==◌,
  if◌then◌else◌, if_true, if_false, Option, none, some, List, [], ◌∷◌, ◌++◌, arith,
}
use nuords_proxy.Proxy.{Proxy, Route, Channel, Server, Client}
use nuords_proxy.Proxy.Run.{
  ok, Cmd, put_at, socket_close, client_slots, server_slots, store_route, free_route,
}
use nuords_proxy.Proxy.Connect.{check_route}
use nuords_proxy.Proxy.Channels.{
  channel_delete, find_channel, erase_channel, del_found, del_channel,
}
use nuords_proxy.Proxy.Ownership.{
  Safe, safe, mono-Safe, load_route-ok, store_route-ok, free_route-ok, follow-ok, socket_close-ok,
  slots_of, keys_of, held_by, Owned, Wf, IsSound,
}

-- Counts that agree at every route are as good as each other.
pub Wf-slots :
    (p : Proxy) (n n' : ℕ → ℕ)
    → ((a : ℕ) → n a ≡ n' a)
    → Wf p n (held_by none)
    → Wf p n' (held_by none)
Wf-slots p n n' e w = record {
  owned = λ a. subst (λ x. Owned (p.route_at a) x (keys_of a p.cache.routes) 0) (e a) (w.owned a);
  fresh = w.fresh;
  distinct = w.distinct;
}

pub check_route_ends :
    (balancer client server : Option ℕ)
    → check_route balancer client server ≡ true
    → (b : ℕ) × (c : ℕ) × (s : ℕ) × (balancer ≡ some b) × (client ≡ some c) × (server ≡ some s)
unfolding check_route
check_route_ends (some b) (some c) (some s) e = (b, c, s, refl, refl, refl)
check_route_ends _ _ _ e = cc

-- The slots that a new or a destroyed channel over the route at `a` adds.
abbrev pub plus : ℕ → (ℕ → ℕ) → ℕ → ℕ
plus a n b = (if a == b then 1 else 0) + n b

pub slots_of-append :
    (a : ℕ) (chns : List Channel) (c : Channel)
    → slots_of a (chns ++ c ∷ []) ≡ (if c.route == a then 1 else 0) + slots_of a chns
slots_of-append a [] c = refl
slots_of-append a (d ∷ chns) c = omega (arith, slots_of-append a chns c)

slots_of-erase :
    (a self : ℕ) (chns : List Channel) (c : Channel)
    → find_channel self chns ≡ some c
    → slots_of a chns ≡ (if c.route == a then 1 else 0) + slots_of a (erase_channel self chns)
unfolding find_channel erase_channel
slots_of-erase a self [] c e = cc
slots_of-erase a self (d ∷ chns) c e = ground (arith, slots_of-erase a self chns c)

-- The increments of the constructor.
pub Wf-linked :
    (p : Proxy) (n : ℕ → ℕ) (held : Option ℕ) (a time : ℕ) (r : Route) (id : ℕ)
    (servers : ℕ → Server) (clients : ℕ → Client)
    → Wf p n (held_by held)
    → p.route_at a ≡ some r
    → (r.cached ≡ true) × (held ≡ none) ⊎ (r.cached ≡ false) × (held ≡ some a)
    → check_route r.balancer r.client r.server ≡ true
    → Wf
        (record p {
          next_addr = suc p.next_addr;
          id_count = id;
          server_at = servers;
          client_at = clients;
          route_at =
              put_at a
                (some (record r { act_time = time; num_slots = r.num_slots + 1 }))
                p.route_at;
        })
        (plus a n)
        (held_by none)
Wf-linked p n held a time r id servers clients w live own links = record {
  owned = λ b.
      let k = keys_of b p.cache.routes in
      let wa =
        subst (λ o. Owned o (n a) (keys_of a p.cache.routes) (held_by held a)) live (w.owned a) in
      elim (Bool-cases (b == a)) [
        | inl same ↦ rw same (ground arith)
        | inr other ↦ rw other (
            subst (λ x. Owned (p.route_at b) x k 0) (ground arith)
              (subst (λ x. Owned (p.route_at b) (n b) k x) (ground arith) (w.owned b)))
      ];
  fresh = λ b le. ground (arith, w.fresh b);
  distinct = w.distinct;
}

-- The decrements of the destructor, over a cached route and over one of the channel's own.
Wf-unlinked_cached :
    (p : Proxy) (n : ℕ → ℕ) (a time : ℕ) (r : Route) (closed : List ℕ) (servers : ℕ → Server)
    (clients : ℕ → Client)
    → Wf p (plus a n) (held_by none)
    → p.route_at a ≡ some r
    → r.cached ≡ true
    → Wf
        (record p {
          closed = closed;
          server_at = servers;
          client_at = clients;
          route_at =
              put_at a
                (some (record r { act_time = time; num_slots = r.num_slots - 1 }))
                p.route_at;
        })
        n
        (held_by none)
Wf-unlinked_cached p n a time r closed servers clients w live cached = record {
  owned = λ b.
      let k = keys_of b p.cache.routes in
      let wa = subst (λ o. Owned o (plus a n a) (keys_of a p.cache.routes) 0) live (w.owned a) in
      elim (Bool-cases (b == a)) [
        | inl same ↦ rw same (ground arith)
        | inr other ↦ rw other (subst (λ x. Owned (p.route_at b) x k 0) (ground arith) (w.owned b))
      ];
  fresh = λ b le. ground (arith, w.fresh b);
  distinct = w.distinct;
}

Wf-unlinked_own :
    (p : Proxy) (n : ℕ → ℕ) (a : ℕ) (r : Route) (closed : List ℕ) (servers : ℕ → Server)
    (clients : ℕ → Client)
    → Wf p (plus a n) (held_by none)
    → p.route_at a ≡ some r
    → r.cached ≡ false
    → Wf
        (record p {
          closed = closed;
          server_at = servers;
          client_at = clients;
          route_at = put_at a none p.route_at;
        })
        n
        (held_by none)
Wf-unlinked_own p n a r closed servers clients w live own = record {
  owned = λ b.
      let k = keys_of b p.cache.routes in
      let wa = subst (λ o. Owned o (plus a n a) (keys_of a p.cache.routes) 0) live (w.owned a) in
      elim (Bool-cases (b == a)) [
        | inl same ↦ rw same (ground arith)
        | inr other ↦ rw other (subst (λ x. Owned (p.route_at b) x k 0) (ground arith) (w.owned b))
      ];
  fresh = λ b le. ground (arith, w.fresh b);
  distinct = w.distinct;
}

-- A route that a channel runs over is live and leads to a client and a server.
pub Owned-used :
    (o : Option Route) (n k : ℕ)
    → Owned o n k 0
    → 0 < n
    → (r : Route) × (o ≡ some r) × (check_route r.balancer r.client r.server ≡ true)
Owned-used none n k w pos = absurd (omega arith)
Owned-used (some r) n k w pos = (r, refl, w.1 refl)

-- The end of the destructor, once the route and what it leads to are at hand.
release_route : ℕ → ℕ → Route → Cmd (Unit {0})
release_route time a r =
    if r.cached
    then store_route a (record r { act_time = time; num_slots = r.num_slots - 1 })
    else free_route a

release_route-Wf :
    (time a : ℕ) (r : Route) (p : Proxy) (n : ℕ → ℕ) (closed : List ℕ) (servers : ℕ → Server)
    (clients : ℕ → Client)
    → Wf p (plus a n) (held_by none)
    → p.route_at a ≡ some r
    → Safe
        (λ _ q. Wf q n (held_by none) × (q.channels ≡ p.channels))
        (release_route time a r
          (record p { closed = closed; server_at = servers; client_at = clients }))
unfolding release_route
release_route-Wf time a r p n closed servers clients w live =
    let p' : Proxy = record p { closed = closed; server_at = servers; client_at = clients } in
    let r' : Route = record r { act_time = time; num_slots = r.num_slots - 1 } in
    elim (Bool-cases r.cached) [
      | inl cached ↦
          rw (if_true r.cached _ _ cached, store_route-ok a r r' p' live)
            (safe (Wf-unlinked_cached p n a time r closed servers clients w live cached, refl))
      | inr own ↦
          rw (if_false r.cached _ _ own, free_route-ok a r p' live)
            (safe (Wf-unlinked_own p n a r closed servers clients w live own, refl))
    ]

delete_linked :
    (time : ℕ) (chn : Channel) (p : Proxy) (n : ℕ → ℕ) (c1 c2 : List ℕ) (r : Route) (c s : ℕ)
    → Wf p (plus chn.route n) (held_by none)
    → socket_close chn.source p ≡ ok tt (record p { closed = c1 })
    → socket_close chn.target (record p { closed = c1 }) ≡ ok tt (record p { closed = c2 })
    → p.route_at chn.route ≡ some r
    → r.client ≡ some c
    → r.server ≡ some s
    → Safe (λ _ q. Wf q n (held_by none) × (q.channels ≡ p.channels)) (channel_delete time chn p)
unfolding channel_delete client_slots server_slots release_route
delete_linked time chn p n c1 c2 r c s w e1 e2 live ec es =
    rw (e1, e2, load_route-ok chn.route r (record p { closed = c2 }) live)
      (rw (follow-ok r.client c _ ec)
        (rw (follow-ok r.server s _ es) (release_route-Wf time chn.route r p n c2 _ _ w live)))

pub channel_delete-Wf :
    (time : ℕ) (chn : Channel) (p : Proxy) (n : ℕ → ℕ)
    → Wf p (plus chn.route n) (held_by none)
    → Safe (λ _ q. Wf q n (held_by none) × (q.channels ≡ p.channels)) (channel_delete time chn p)
channel_delete-Wf time chn p n w =
    let a = chn.route in
    let (c1, e1) = socket_close-ok chn.source p in
    let (c2, e2) = socket_close-ok chn.target (record p { closed = c1 }) in
    let (r, live, links) =
      Owned-used (p.route_at a) (plus a n a) (keys_of a p.cache.routes) (w.owned a)
        (ground arith) in
    let (b, c, s, eb, ec, es) = check_route_ends r.balancer r.client r.server links in
    delete_linked time chn p n c1 c2 r c s w e1 e2 live ec es

erase_channel-absent :
    (self : ℕ) (chns : List Channel)
    → find_channel self chns ≡ none
    → erase_channel self chns ≡ chns
unfolding find_channel erase_channel
erase_channel-absent self [] e = refl
erase_channel-absent self (d ∷ chns) e = ground (arith, erase_channel-absent self chns)

del_found-IsSound :
    (time self : ℕ) (p : Proxy) (found : Option Channel)
    → find_channel self p.channels ≡ found
    → IsSound p
    → Safe
        (λ _ q. IsSound q × (q.channels ≡ erase_channel self p.channels))
        (del_found time self found p)
unfolding del_found
del_found-IsSound time self p none e w = safe (w, sym (erase_channel-absent self p.channels e))
del_found-IsSound time self p (some chn) e w =
    let rest = erase_channel self p.channels in
    let p' : Proxy = record p { channels = rest } in
    let w' : Wf p' (λ a. slots_of a p.channels) (held_by none) = record {
      owned = w.owned;
      fresh = w.fresh;
      distinct = w.distinct;
    } in
    mono-Safe
      (channel_delete-Wf time chn p' (λ a. slots_of a rest)
        (Wf-slots p' _ _ (λ a. slots_of-erase a self p.channels chn e) w'))
      λ _ q (v, kept).
        (subst (λ chns. Wf q (λ a. slots_of a chns) (held_by none)) (sym kept) v, kept)

-- In a sound state, deleting a channel faults at nothing: its route is there, and is freed only
-- when no one else holds it. The state is sound afterwards, and the list has lost that channel.
pub del_channel-IsSound :
    (time self : ℕ) (p : Proxy)
    → IsSound p
    → Safe
        (λ _ q. IsSound q × (q.channels ≡ erase_channel self p.channels))
        (del_channel time self p)
unfolding del_channel
del_channel-IsSound time self p w =
    del_found-IsSound time self p (find_channel self p.channels) refl w
