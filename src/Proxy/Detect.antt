-- ===== src/Proxy/Detect.antt =====
-- The route that `nrdpx_channel_create` of src/nrdpx_server.cpp detects for a client's address:
-- the loop over the balancers, which finds a client of the balancer and then a server.
pub mod Offers
use nuords_proxy.Prelude.{
  ℕ, Bool, true, false, ◌&&◌, not, leb, ltb, same_ptr, if◌then◌else◌, Option, none, some, List, [],
  ◌∷◌, ◌++◌,
}
use nuords_proxy.Inet.{Addr, Cidr}
use nuords_proxy.Inet.Cidrs.{is_addr_in_cidr}
use nuords_proxy.Proxy.{Proxy, Server, Client, Route}
use nuords_proxy.Proxy.Servers.{
  server_is_active, server_slot_count, server_slot_limit, server_user_count, server_user_limit,
}
use nuords_proxy.Proxy.Select.{Double, select_server}

unfoldable pub in_sources : Addr → List Cidr → Bool
in_sources addr [] = false
in_sources addr (cidr ∷ rest) = if is_addr_in_cidr addr cidr then true else in_sources addr rest

-- The first client with a free slot that has the address among its sources.
unfoldable pub find_client : (ℕ → Client) → Addr → List ℕ → Option ℕ
find_client at addr [] = none
find_client at addr (c ∷ clients) =
    if not (leb (at c).max_slots (at c).num_slots) && in_sources addr (at c).sources
    then some c
    else find_client at addr clients

-- A server that may be selected: not the one that failed, active and within its limits.
unfoldable pub is_available : (ℕ → Server) → Option ℕ → ℕ → Bool
is_available at nosvr s =
    not (same_ptr (some s) nosvr)
    && server_is_active (at s)
    && ltb (server_slot_count (at s)) (server_slot_limit (at s))
    && ltb (server_user_count (at s)) (server_user_limit (at s))

unfoldable pub available : (ℕ → Server) → Option ℕ → List ℕ → List ℕ
available at nosvr [] = []
available at nosvr (s ∷ svrs) =
    let rest = available at nosvr svrs in if is_available at nosvr s then s ∷ rest else rest

-- `new nrdpx_route_t()`.
abbrev pub empty_route : Route
empty_route = record {
  balancer = none;
  client = none;
  server = none;
  cached = false;
  act_time = 0;
  num_slots = 0;
}

-- `servers` is declared outside the loop, so what a balancer has pushed stays for the next one.
unfoldable pub detect_route : Double → Proxy → Addr → Option ℕ → List ℕ → List ℕ → Route → Route
detect_route d p addr nosvr servers [] route = route
detect_route d p addr nosvr servers (b ∷ bals) route =
    let bal = p.balancer_at b in
    let with_balancer = record route { balancer = some b } in
    elim (find_client p.client_at addr bal.clients) [
      | none ↦ detect_route d p addr nosvr servers bals with_balancer
      | some client ↦
          let servers' = servers ++ available p.server_at nosvr bal.servers in
          let with_client = record with_balancer { client = some client } in
          elim (select_server d p.server_at bal servers') [
            | none ↦
                detect_route d p addr nosvr servers' bals (record with_client { server = none })
            | some svr ↦ record with_client { server = some svr }
          ]
    ]
