-- ===== src/Proxy/Loop/Start.antt =====
-- The state that the proxy starts in.
use nuords_proxy.Prelude.{ℕ, ◌≡◌, refl, none, List, []}
use nuords_proxy.Proxy.{Proxy, Server, Client, Balancer}
use nuords_proxy.Proxy.Defaults.{new_proxy, new_cache}
use nuords_proxy.Proxy.Loop.Sound.{Steady}

-- The proxy as it starts: with no channel, no route and nothing in the cache.
pub record IsStart (p : Proxy) : Type 0 where
  pub no_channels : p.channels ≡ []
  pub no_routes : (a : ℕ) → p.route_at a ≡ none
  pub no_entries : p.cache.routes ≡ []

pub IsStart-Steady : (p : Proxy) → IsStart p → Steady p
IsStart-Steady p s = (
  record {
    owned = λ a. rw (s.no_routes a, s.no_entries, s.no_channels) (refl, refl, refl);
    fresh = λ a _. s.no_routes a;
    distinct = rw s.no_entries tt;
  },
  rw s.no_channels tt,
)

-- Whatever servers, clients and balancers the configuration adds to a new proxy, it starts in order.
configured-Steady :
    (chktime : ℕ) (servers : ℕ → Server) (clients : ℕ → Client) (balancers : ℕ → Balancer)
    (listed : List ℕ)
    → Steady (record (new_proxy chktime) {
      server_at = servers;
      client_at = clients;
      balancer_at = balancers;
      balancers = listed;
    })
unfolding new_proxy new_cache
configured-Steady chktime servers clients balancers listed =
    IsStart-Steady _ (record { no_channels = refl; no_routes = λ _. refl; no_entries = refl })
