-- ===== src/Setup/Start.antt =====
-- The proxy that starts with what the configuration sets.
use nuords_proxy.Prelude.{
  ℕ, zero, suc, ◌<◌, ◌≡◌, true, subst, ℤ, Option, some, List, [], ◌∷◌, length, All, All-In, Bytes,
  arith,
}
use nuords_proxy.Inet.{Addr}
use nuords_proxy.Inet.Hosts.{Resolver}
use nuords_proxy.Proxy.{Proxy}
use nuords_proxy.Proxy.Defaults.{new_server, new_client, new_balancer, new_cache, new_proxy}
use nuords_proxy.Proxy.Select.{Double, score}
use nuords_proxy.Proxy.Detect.{detect_route, empty_route}
use nuords_proxy.Proxy.Detect.Offers
use nuords_proxy.Proxy.Detect.Offers.{Detected, detect_route-Detected}
use nuords_proxy.Setup.{Setup}
use nuords_proxy.Setup.Balancers.{count_up}
use nuords_proxy.Setup.Load.{load_config}
use nuords_proxy.Setup.Members.{IsServer, IsBalancer, count_up-below}
use nuords_proxy.Setup.Ready.{IsReady, load_config-IsReady}

-- What a number points to; no other number is ever followed.
abbrev pub nth_or : {A : Type 0} → A → List A → ℕ → A
nth_or a [] i = a
nth_or a (x ∷ xs) zero = x
nth_or a (x ∷ xs) (suc i) = nth_or a xs i

unfoldable pub to_proxy : ℕ → Setup → Proxy
to_proxy chktime s = record (new_proxy chktime) {
  server_at = nth_or new_server s.servers;
  client_at = nth_or new_client s.clients;
  balancer_at = nth_or new_balancer s.balancers;
  balancers = count_up 0 s.balancers;
  cache = record (new_cache chktime) { mode = s.cache_mode; timeout = s.cache_timeout };
  max_faults = s.max_faults;
  conn_timeout = s.conn_timeout;
  max_buffer = s.max_buffer;
  socket_mode = s.socket_mode;
  buffer_mode = s.buffer_mode;
}

nth_or-All :
    {A : Type 0} (P : A → Type 0) (a : A) (xs : List A) (i : ℕ)
    → All P xs
    → i < length xs
    → P (nth_or a xs i)
nth_or-All P a [] i h below = absurd (omega arith)
nth_or-All P a (x ∷ xs) zero (hx, h) below = hx
nth_or-All P a (x ∷ xs) (suc i) (hx, h) below = nth_or-All P a xs i h (omega arith)

All-below :
    (P : ℕ → Type 0) (bound : ℕ) (is : List ℕ)
    → All (λ (i : ℕ). i < bound) is
    → ((i : ℕ) → i < bound → P i)
    → All P is
All-below P bound [] h k = tt
All-below P bound (i ∷ is) (hi, h) k = (k i hi, All-below P bound is h k)

-- What the balancer of a number leads to, in a proxy.
abbrev LeadsWell : Proxy → Setup → ℕ → Type 0
LeadsWell p s b =
    All (λ (i : ℕ). IsServer s.info_enabled (p.server_at i)) (p.balancer_at b).servers
    × All (λ (i : ℕ). i < length s.servers) (p.balancer_at b).servers
    × All (λ (i : ℕ). i < length s.clients) (p.balancer_at b).clients

to_proxy-LeadsWell :
    (chktime : ℕ) (s : Setup) (b : ℕ)
    → IsReady s
    → b < length s.balancers
    → LeadsWell (to_proxy chktime s) s b
unfolding to_proxy
to_proxy-LeadsWell chktime s b ready below =
    let bal =
      nth_or-All (IsBalancer (length s.clients) (length s.servers)) new_balancer s.balancers b
        ready.balancers below in
    (
      All-below _ (length s.servers) _ bal.servers_below
          (λ i. nth_or-All (IsServer s.info_enabled) new_server s.servers i ready.servers),
      bal.servers_below,
      bal.clients_below,
    )

module _ (d : Double) (resolver : Resolver) (atoi : Bytes → ℤ) (read : Bytes → Option Bytes) where
  -- In a proxy that starts with a configuration that `nrdpx_load_config` accepts, where no score is
  -- NaN: a server that is detected for an address was loaded from the configuration, has a host, a
  -- port, slots and a weight, and is active; its client was loaded too, is one that its balancer lists,
  -- and has a free slot and the address among its sources, so that a client without slots leads to no
  -- server.
  pub load_config-detects :
      (chktime : ℕ) (s : Setup) (addr : Addr) (nosvr : Option ℕ) (k : ℕ)
      → load_config resolver atoi read ≡ some s
      → let p = to_proxy chktime s in
        ((b j : ℕ) → d.number (score d (p.balancer_at b) (p.server_at j)) ≡ true)
        → (let r = detect_route d p addr nosvr [] p.balancers empty_route in
            r.server ≡ some k
            → IsServer s.info_enabled (p.server_at k)
              × (k < length s.servers)
              × ((b : ℕ) × (c : ℕ) × (r.client ≡ some c)
                  × (c < length s.clients)
                  × Offers.IsClient p.client_at addr (p.balancer_at b).clients c))
  unfolding to_proxy
  load_config-detects chktime s addr nosvr k e numbers found =
      let p = to_proxy chktime s in
      let r = detect_route d p addr nosvr [] p.balancers empty_route in
      let ready = load_config-IsReady resolver atoi read s e in
      let (b, c, _, by_client, offer) =
        subst (Detected d p addr nosvr p.balancers r) found
          (detect_route-Detected d p addr nosvr numbers) in
      let below =
        All-In _ p.balancers b (count_up-below 0 (length s.balancers) s.balancers (omega arith))
          offer.balancer_listed in
      let (servers, servers_below, clients_below) = to_proxy-LeadsWell chktime s b ready below in
      (
        All-In _ _ k servers offer.server_listed,
        All-In _ _ k servers_below offer.server_listed,
        (b, c, by_client, All-In _ _ c clients_below offer.client.listed, offer.client),
      )
