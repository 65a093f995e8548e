-- ===== src/Proxy/Ownership/Created.antt =====
-- What a new channel comes from: the route that is found or made, the attempt at its server, and
-- the two ends of `nrdpx_channel_create`.
use nuords_proxy.Prelude.{
  ℕ, ℤ, is_null, suc, ◌≡◌, refl, subst, ◌⊎◌, inl, inr, true, false, Bool-cases, Option-cases,
  same_ptr, ◌==◌, if_true, ==_self, Option, none, some, List, [], ◌∷◌, ◌++◌, Bytes, arith,
}
use nuords_proxy.Inet.{Addr}
use nuords_proxy.Inet.Hosts.{host_to_addr}
use nuords_proxy.Proxy.{Proxy, Route, Server}
use nuords_proxy.Proxy.Run.{put_at, socket_close, new_route}
use nuords_proxy.Proxy.Select.{Double, select_server}
use nuords_proxy.Proxy.Detect.{find_client, available, detect_route, empty_route}
use nuords_proxy.Proxy.Connect.{
  Os, Attempt, failed, connected, set_up, is_refused, connect_on, connect_to, open_server,
  check_route, attempt_route, use_cached, use_route, obtain_route,
}
use nuords_proxy.Proxy.Ownership.{
  Safe, safe, then-Safe, mono-Safe, load_route-ok, follow-ok, keys_of, held_by, Owned, Wf,
}
use nuords_proxy.Proxy.Ownership.Cached.{Hit, cache_find-Hit, cache_remove-Wf}
use nuords_proxy.Proxy.Ownership.Linked.{check_route_ends}

abbrev pub Blank : Route → Type 0
Blank r = (r.cached ≡ false) × (r.num_slots ≡ 0)

detect_route-Blank :
    (d : Double) (p : Proxy) (addr : Addr) (nosvr : Option ℕ) (servers bals : List ℕ) (r : Route)
    → Blank r
    → Blank (detect_route d p addr nosvr servers bals r)
unfolding detect_route
detect_route-Blank d p addr nosvr servers [] r e = e
detect_route-Blank d p addr nosvr servers (b ∷ bals) r e =
    let bal = p.balancer_at b in
    elim (Option-cases (find_client p.client_at addr bal.clients)) [
      | inl bad ↦ rw (bad, detect_route) (detect_route-Blank d p addr nosvr servers bals _ e)
      | inr (c, client) ↦
          let servers' = servers ++ available p.server_at nosvr bal.servers in
          elim (Option-cases (select_server d p.server_at bal servers')) [
            | inl bad ↦
                rw (client, detect_route)
                  (rw (bad, detect_route) (detect_route-Blank d p addr nosvr servers' bals _ e))
            | inr (s, server) ↦ rw (client, detect_route) (rw server e)
          ]
    ]

-- The route at `a`, cached or held by the function that runs.
abbrev pub Own : Route → ℕ → Option ℕ → Type 0
Own r a held = (r.cached ≡ true) × (held ≡ none) ⊎ (r.cached ≡ false) × (held ≡ some a)

abbrev pub Obtained : (ℕ → ℕ) → ℕ → Proxy → Type 0
Obtained n a q =
    (r : Route) × (held : Option ℕ) × (q.route_at a ≡ some r) × Own r a held × Wf q n (held_by held)

Wf-made :
    (p : Proxy) (n : ℕ → ℕ) (r : Route)
    → Blank r
    → Wf p n (held_by none)
    → Wf
        (record p {
          route_at = put_at p.next_addr (some r) p.route_at;
          next_addr = suc p.next_addr;
        })
        n
        (held_by (some p.next_addr))
Wf-made p n r (uncached, unused) w = record {
  owned = λ b.
      let a = p.next_addr in
      let k = keys_of b p.cache.routes in
      let wa =
        subst (λ o. Owned o (n a) (keys_of a p.cache.routes) 0) (w.fresh a (omega arith))
          (w.owned a) in
      elim (Bool-cases (b == a)) [
        | inl same ↦ rw same (ground arith)
        | inr other ↦
            rw other (subst (λ x. Owned (p.route_at b) (n b) k x) (ground arith) (w.owned b))
      ];
  fresh = λ b le. ground (arith, w.fresh b);
  distinct = w.distinct;
}

use_cached-Hit :
    (key : Bytes) (nosvr found : Option ℕ) (p : Proxy) (n : ℕ → ℕ)
    → Hit n (held_by none) found p
    → Safe (Hit n (held_by none)) (use_cached key nosvr found p)
unfolding use_cached
use_cached-Hit key nosvr none p n (w, _) = safe (w, inl refl)
use_cached-Hit key nosvr (some a) p n (w, inl e) = cc
use_cached-Hit key nosvr (some a) p n (w, inr (b, r, e, live, cached)) =
    let live' : p.route_at a ≡ some r = cc in
    rw (load_route-ok a r p live') elim (Bool-cases (same_ptr r.server nosvr)) [
      | inl dead ↦
          rw dead (then-Safe (cache_remove-Wf p n (held_by none) w key) λ _ q v. safe (v, inl refl))
      | inr usable ↦ rw usable (safe (w, inr (a, r, refl, live', cached)))
    ]

use_route-Obtained :
    (d : Double) (addr : Addr) (nosvr found : Option ℕ) (p : Proxy) (n : ℕ → ℕ)
    → Hit n (held_by none) found p
    → Safe (Obtained n) (use_route d addr nosvr found p)
unfolding use_route new_route
use_route-Obtained d addr nosvr none p n (w, _) =
    let r = detect_route d p addr nosvr [] p.balancers empty_route in
    let blank : Blank r =
      detect_route-Blank d p addr nosvr [] p.balancers empty_route (refl, refl) in
    safe (
      r,
      some p.next_addr,
      if_true _ _ _ (==_self p.next_addr),
      inr (blank.0, refl),
      Wf-made p n r blank w,
    )
use_route-Obtained d addr nosvr (some a) p n (w, inl e) = cc
use_route-Obtained d addr nosvr (some a) p n (w, inr (b, r, e, live, cached)) =
    let live' : p.route_at a ≡ some r = cc in safe (r, none, live', inl (cached, refl), w)

pub obtain_route-Obtained :
    (d : Double) (time : ℕ) (addr : Addr) (key : Bytes) (nosvr : Option ℕ) (p : Proxy) (n : ℕ → ℕ)
    → Wf p n (held_by none)
    → Safe (Obtained n) (obtain_route d time addr key nosvr p)
unfolding obtain_route
obtain_route-Obtained d time addr key nosvr p n w =
    then-Safe (cache_find-Hit p n (held_by none) time key w) λ found q hit.
      then-Safe (use_cached-Hit key nosvr found q n hit)
        λ cached q' hit'. use_route-Obtained d addr nosvr cached q' n hit'

-- An attempt closes sockets, and changes nothing else.
abbrev pub Closes : Proxy → Proxy → Type 0
Closes p q = (closed : List ℕ) × (q ≡ record p { closed = closed })

set_up-Closes : (os : Os) (s : Option ℕ) (p : Proxy) → Safe (λ _ q. Closes p q) (set_up os s p)
unfolding set_up socket_close
set_up-Closes os none p = safe (p.closed, refl)
set_up-Closes os (some s) p = elim (Bool-cases (os.set_nonblocking s)) [
  | inl on ↦ rw on (safe (p.closed, refl))
  | inr off ↦ rw off (safe (s ∷ p.closed, refl))
]

connect_on-Closes :
    (os : Os) (addr : Addr) (port : ℤ) (s : Option ℕ) (p q : Proxy)
    → Closes p q
    → Safe (λ _ q. Closes p q) (connect_on os addr port s q)
unfolding connect_on
connect_on-Closes os addr port none p q e = safe e
connect_on-Closes os addr port (some s) p q e = elim (Bool-cases (is_refused os s addr port)) [
  | inl bad ↦ rw bad (safe e)
  | inr good ↦ rw good (safe e)
]

connect_to-Closes :
    (os : Os) (port : ℤ) (addr : Option Addr) (p : Proxy)
    → Safe (λ _ q. Closes p q) (connect_to os port addr p)
unfolding connect_to
connect_to-Closes os port none p = safe (p.closed, refl)
connect_to-Closes os port (some addr) p =
    then-Safe (set_up-Closes os _ p) λ s q e. connect_on-Closes os addr port s p q e

open_server-Closes :
    (os : Os) (svr : Server) (p : Proxy) → Safe (λ _ q. Closes p q) (open_server os svr p)
unfolding open_server
open_server-Closes os svr p = elim (Bool-cases (is_null svr.port)) [
  | inl bad ↦ rw bad (safe (p.closed, refl))
  | inr good ↦ rw good (connect_to-Closes os svr.port (host_to_addr os.resolver svr.host false) p)
]

abbrev pub Leads : Attempt → Route → Type 0
Leads (failed _) r = Unit {0}
Leads (connected _) r = check_route r.balancer r.client r.server ≡ true

Leads-any : (t : Attempt) (r : Route) → check_route r.balancer r.client r.server ≡ true → Leads t r
Leads-any (failed _) r e = tt
Leads-any (connected _) r e = e

pub attempt_route-Leads :
    (os : Os) (a : ℕ) (r : Route) (p : Proxy)
    → p.route_at a ≡ some r
    → Safe (λ t q. Closes p q × Leads t r) (attempt_route os a p)
unfolding attempt_route
attempt_route-Leads os a r p live = elim (Bool-cases (check_route r.balancer r.client r.server)) [
  | inr bad ↦ rw (load_route-ok a r p live, bad) (safe ((p.closed, refl), tt))
  | inl good ↦
      let (b, c, s, eb, ec, es) = check_route_ends r.balancer r.client r.server good in
      rw (load_route-ok a r p live, good)
        (rw (follow-ok r.server s p es)
          (mono-Safe (open_server-Closes os (p.server_at s) p) λ t q e. (e, Leads-any t r good)))
]
