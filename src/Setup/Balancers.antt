-- ===== src/Setup/Balancers.antt =====
-- The loop of `nrdpx_load_config` over the sections of balancers.
use nuords_proxy.Prelude.{
  ℕ, suc, Bool, true, false, ◌&&◌, ◌||◌, if◌then◌else◌, Option, none, some, List, [], ◌∷◌, Bytes,
  codes,
}
use nuords_proxy.Config.{Section, Config}
use nuords_proxy.Config.Texts.{same_text}
use nuords_proxy.Config.Sections.{get_string, get_strings, find_section}
use nuords_proxy.Proxy.{Method, by_busyness, by_requests, Metrics, Balancer}
use nuords_proxy.Proxy.Defaults.{new_balancer}
use nuords_proxy.Setup.Clients.{has_items, push_if}

-- The number that the section of a name has been given, if there is one.
abbrev pub linked_to : Option Section → Option ℕ
linked_to none = none
linked_to (some sc) = sc.link

abbrev pub cons_linked : Option ℕ → List ℕ → List ℕ
cons_linked none rest = rest
cons_linked (some n) rest = n ∷ rest

unfoldable pub named_members : Config → List Bytes → List ℕ
named_members cfg [] = []
named_members cfg (w ∷ rest) =
    cons_linked (linked_to (find_section cfg w true)) (named_members cfg rest)

-- The numbers from `first` on.
abbrev pub count_up : {A : Type 0} → ℕ → List A → List ℕ
count_up first [] = []
count_up first (x ∷ xs) = first ∷ count_up (suc first) xs

abbrev pub means_all : List Bytes → Bool
means_all [] = true
means_all (w ∷ words) = same_text w (codes "all")

unfoldable pub members : {A : Type 0} → Config → List A → List Bytes → List ℕ
members cfg objects words = if means_all words then count_up 0 objects else named_members cfg words

-- The bits of `metrics`, one word after the other.
unfoldable pub add_metric : Bytes → Metrics → Metrics
add_metric w m =
    if same_text w (codes "cap")
    then record m { cap = true }
    else if same_text w (codes "mem")
    then record m { mem = true }
    else if same_text w (codes "cpu")
    then record m { cpu = true }
    else m

abbrev pub add_metrics : List Bytes → Metrics → Metrics
add_metrics [] m = m
add_metrics (w ∷ rest) m = add_metrics rest (add_metric w m)

abbrev pub no_metrics : Metrics
no_metrics = record { cap = false; mem = false; cpu = false }

unfoldable pub or_cap : Metrics → Metrics
or_cap m = if m.cap || m.mem || m.cpu then m else record m { cap = true }

abbrev pub method_of : Bytes → Method
method_of s = if same_text s (codes "byrequests") then by_requests else by_busyness

module _ {A B : Type 0} (clients_cfg servers_cfg : Config) (clients : List A)
    (servers : List B) where
  unfoldable pub balancer_of : Section → Balancer
  balancer_of sc = record new_balancer {
    name = sc.name;
    clients = members clients_cfg clients (get_strings sc (codes "clients")).0;
    servers = members servers_cfg servers (get_strings sc (codes "servers")).0;
    method = method_of (get_string sc (codes "method") []);
    metrics = or_cap (add_metrics (get_strings sc (codes "metrics")).0 no_metrics);
  }

  -- A balancer without clients or servers is ignored.
  unfoldable pub load_balancers : List Section → List Balancer → List Balancer
  load_balancers [] bals = bals
  load_balancers (sc ∷ rest) bals =
      let b = balancer_of sc in
      load_balancers rest (push_if (has_items b.clients && has_items b.servers) b bals)
