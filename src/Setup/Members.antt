-- ===== src/Setup/Members.antt =====
-- The clients, servers and balancers that `nrdpx_load_config` makes.
use nuords_proxy.Prelude.{
  ℕ, suc, ◌+◌, ◌≤◌, ◌<◌, ◌≡◌, refl, inl, inr, ℤ, pos, is_null, fit_within, fit_within-le, Bool,
  true, false, Bool-cases, ◌&&◌, ◌||◌, Option, none, some, List, [], ◌∷◌, ◌++◌, length,
  length-append, All, All-In, Bytes, codes, is_empty, arith,
}
use nuords_proxy.Inet.Hosts.{Resolver}
use nuords_proxy.Inet.Parse.{parse_host_port}
use nuords_proxy.Config.{Section, Config}
use nuords_proxy.Config.Texts.{same_text}
use nuords_proxy.Config.Sections.{get_integer, get_string, find_section, first_sect, full_name}
use nuords_proxy.Config.Find.{first_sect-In}
use nuords_proxy.Proxy.{Client, Server, Metrics, Balancer}
use nuords_proxy.Proxy.Defaults.{new_server}
use nuords_proxy.Proxy.Servers.{server_activate, server_is_active}
use nuords_proxy.Setup.Clients.{link_if, push_if, has_items, client_of, load_clients}
use nuords_proxy.Setup.Servers.{
  set_address, set_check, set_limits, server_of, is_valid_server, load_servers,
}
use nuords_proxy.Setup.Balancers.{
  linked_to, cons_linked, named_members, count_up, means_all, members, or_cap, balancer_of,
  load_balancers,
}

-- A number that is linked is below the bound.
abbrev pub IsBelow : ℕ → Option ℕ → Type 0
IsBelow bound none = Unit
IsBelow bound (some n) = n < bound

abbrev pub AreLinked : ℕ → List Section → Type 0
AreLinked bound sects = All (λ (sc : Section). IsBelow bound sc.link) sects

abbrev pub AreUnlinked : List Section → Type 0
AreUnlinked sects = All (λ (sc : Section). sc.link ≡ none) sects

snoc-All :
    {A : Type 0} (P : A → Type 0) (xs : List A) (a : A) → All P xs → P a → All P (xs ++ a ∷ [])
snoc-All P [] a h p = (p, tt)
snoc-All P (x ∷ xs) a (hx, h) p = (hx, snoc-All P xs a h p)

push_if-All :
    {A : Type 0} (P : A → Type 0) (kept : Bool) (a : A) (xs : List A)
    → All P xs
    → (kept ≡ true → P a)
    → All P (push_if kept a xs)
push_if-All P true a xs h p = snoc-All P xs a h (p refl)
push_if-All P false a xs h p = h

push_if-length :
    {A : Type 0} (kept : Bool) (a : A) (xs : List A) → length xs ≤ length (push_if kept a xs)
push_if-length true a xs = omega (arith, length-append xs (a ∷ []))
push_if-length false a xs = omega arith

link_if-IsBelow :
    {A : Type 0} (kept : Bool) (a : A) (xs : List A) (sc : Section) (bound : ℕ)
    → sc.link ≡ none
    → length (push_if kept a xs) ≤ bound
    → IsBelow bound (link_if kept (length xs) sc).link
link_if-IsBelow true a xs sc bound e h = omega (arith, length-append xs (a ∷ []))
link_if-IsBelow false a xs sc bound e h = rw e tt

-- What the loops over clients and over servers leave: the objects, and the sections linked to them.
abbrev pub AreLoaded : {A : Type 0} → (A → Type 0) → ℕ → List A × List Section → Type 0
AreLoaded P least (objects, sects) =
    All P objects × AreLinked (length objects) sects × (least ≤ length objects)

abbrev pub IsClient : Client → Type 0
IsClient c = has_items c.sources ≡ true

pub load_clients-AreLoaded :
    (resolver : Resolver) (atoi : Bytes → ℤ) (sects : List Section) (clients : List Client)
    → AreUnlinked sects
    → All IsClient clients
    → AreLoaded IsClient (length clients) (load_clients resolver atoi sects clients)
unfolding load_clients
load_clients-AreLoaded resolver atoi [] clients u h = (h, tt, omega arith)
load_clients-AreLoaded resolver atoi (sc ∷ rest) clients (no_link, u) h =
    let c = client_of resolver atoi sc in
    let kept = has_items c.sources in
    let (good, linked, least) =
      load_clients-AreLoaded resolver atoi rest (push_if kept c clients) u
        (push_if-All IsClient kept c clients h (λ e. e)) in
    (
      good,
      (link_if-IsBelow kept c clients sc _ no_link least, linked),
      omega (arith, push_if-length kept c clients, least),
    )

-- A server that is kept: without the tracker its check mode asks for no information.
pub record IsServer (info_enabled : Bool) (svr : Server) : Type 0 where
  pub host : is_empty svr.host ≡ false
  pub port : is_null svr.port ≡ false
  pub max_slots : 1 ≤ svr.max_slots
  pub max_weight : (1 ≤ svr.max_weight) × (svr.max_weight ≤ 100)
  pub check_mode : (svr.check_mode ≤ 3) × (info_enabled ≡ false → svr.check_mode ≤ 1)
  pub active : server_is_active svr ≡ true
  pub unused : svr.num_slots ≡ 0

set_limits-lem :
    (atoi : Bytes → ℤ) (sc : Section) (svr : Server)
    → let s = set_limits atoi sc svr in
      ((1 ≤ s.max_weight) × (s.max_weight ≤ 100))
      × (s.check_mode ≡ svr.check_mode)
      × (s.num_slots ≡ svr.num_slots)
unfolding set_limits
set_limits-lem atoi sc svr = (
  fit_within-le (get_integer atoi sc (codes "max_weight") (pos svr.max_weight)) 1 100 (omega arith),
  refl,
  refl,
)

set_check-lem :
    (atoi : Bytes → ℤ) (info_enabled : Bool) (sc : Section) (mode : ℕ) (svr : Server)
    → mode ≤ 3
    → let s = set_check atoi info_enabled sc mode svr in
      ((s.check_mode ≤ 3) × (info_enabled ≡ false → s.check_mode ≤ 1))
      × (s.num_slots ≡ svr.num_slots)
unfolding set_check
set_check-lem atoi info_enabled sc mode svr h = ground arith

server_of-lem :
    (atoi : Bytes → ℤ) (info_enabled : Bool) (sc : Section)
    → let s = server_of atoi info_enabled sc in
      ((1 ≤ s.max_weight) × (s.max_weight ≤ 100))
      × ((s.check_mode ≤ 3) × (info_enabled ≡ false → s.check_mode ≤ 1))
      × (s.num_slots ≡ 0)
unfolding server_of set_limits set_address new_server
server_of-lem atoi info_enabled sc =
    let (host, port) = parse_host_port atoi (get_string sc (codes "address") []) (pos 3389) in
    let mode = fit_within (get_integer atoi sc (codes "check_mode") (pos 2)) 0 3 in
    let placed = set_address host port (record new_server { name = sc.name }) in
    let (checked, unused) =
      set_check-lem atoi info_enabled sc mode placed
        (fit_within-le (get_integer atoi sc (codes "check_mode") (pos 2)) 0 3 (omega arith)).1 in
    ((set_limits-lem atoi sc (set_check atoi info_enabled sc mode placed)).0, checked, unused)

server_activate-IsServer :
    (info_enabled : Bool) (s : Server)
    → ((1 ≤ s.max_weight) × (s.max_weight ≤ 100))
      × ((s.check_mode ≤ 3) × (info_enabled ≡ false → s.check_mode ≤ 1))
      × (s.num_slots ≡ 0)
    → is_valid_server s ≡ true
    → IsServer info_enabled (server_activate s)
unfolding server_activate server_is_active
server_activate-IsServer info_enabled s (weight, mode, unused) valid = record {
  host = ground arith;
  port = ground arith;
  max_slots = ground arith;
  max_weight = weight;
  check_mode = mode;
  active = ground arith;
  unused = unused;
}

pub load_servers-AreLoaded :
    (atoi : Bytes → ℤ) (info_enabled : Bool) (sects : List Section) (servers : List Server)
    → AreUnlinked sects
    → All (IsServer info_enabled) servers
    → AreLoaded
        (IsServer info_enabled)
        (length servers)
        (load_servers atoi info_enabled sects servers)
unfolding load_servers
load_servers-AreLoaded atoi info_enabled [] servers u h = (h, tt, omega arith)
load_servers-AreLoaded atoi info_enabled (sc ∷ rest) servers (no_link, u) h =
    let s = server_of atoi info_enabled sc in
    let kept = is_valid_server s in
    let (good, linked, least) =
      load_servers-AreLoaded atoi info_enabled rest (push_if kept (server_activate s) servers) u (
        push_if-All (IsServer info_enabled) kept (server_activate s) servers h
          (server_activate-IsServer info_enabled s (server_of-lem atoi info_enabled sc))) in
    (
      good,
      (link_if-IsBelow kept (server_activate s) servers sc _ no_link least, linked),
      omega (arith, push_if-length kept (server_activate s) servers, least),
    )

pub count_up-below :
    {A : Type 0} (first bound : ℕ) (xs : List A)
    → first + length xs ≤ bound
    → All (λ (i : ℕ). i < bound) (count_up first xs)
count_up-below first bound [] h = tt
count_up-below first bound (x ∷ xs) h =
    (omega arith, count_up-below (suc first) bound xs (omega arith))

linked_to-IsBelow :
    (bound : ℕ) (cfg : Config) (w : Bytes)
    → AreLinked bound cfg.sects
    → IsBelow bound (linked_to (find_section cfg w true))
unfolding find_section
linked_to-IsBelow bound cfg [] h = tt
linked_to-IsBelow bound cfg (c ∷ w) h = found _ refl
  where
    found :
        (o : Option Section)
        → first_sect (λ sc. same_text sc.name (full_name cfg (c ∷ w) true)) cfg.sects ≡ o
        → IsBelow bound (linked_to o)
    found none e = tt
    found (some sc) e = All-In _ cfg.sects sc h (first_sect-In _ cfg.sects sc e).0

cons_linked-below :
    (bound : ℕ) (o : Option ℕ) (rest : List ℕ)
    → IsBelow bound o
    → All (λ (i : ℕ). i < bound) rest
    → All (λ (i : ℕ). i < bound) (cons_linked o rest)
cons_linked-below bound none rest below h = h
cons_linked-below bound (some n) rest below h = (below, h)

named_members-below :
    (bound : ℕ) (cfg : Config) (words : List Bytes)
    → AreLinked bound cfg.sects
    → All (λ (i : ℕ). i < bound) (named_members cfg words)
unfolding named_members
named_members-below bound cfg [] h = tt
named_members-below bound cfg (w ∷ rest) h =
    cons_linked-below bound (linked_to (find_section cfg w true)) (named_members cfg rest)
      (linked_to-IsBelow bound cfg w h) (named_members-below bound cfg rest h)

members-below :
    {A : Type 0} (cfg : Config) (objects : List A) (words : List Bytes)
    → AreLinked (length objects) cfg.sects
    → All (λ (i : ℕ). i < length objects) (members cfg objects words)
unfolding members
members-below cfg objects words h = elim (Bool-cases (means_all words)) [
  | inl everyone ↦ rw everyone (count_up-below 0 (length objects) objects (omega arith))
  | inr listed ↦ rw listed (named_members-below (length objects) cfg words h)
]

-- A balancer has a client, a server and a metric, and each number stands for a client or a server.
pub record IsBalancer (clients servers : ℕ) (b : Balancer) : Type 0 where
  pub some_client : has_items b.clients ≡ true
  pub some_server : has_items b.servers ≡ true
  pub clients_below : All (λ (i : ℕ). i < clients) b.clients
  pub servers_below : All (λ (i : ℕ). i < servers) b.servers
  pub some_metric : (b.metrics.cap || b.metrics.mem || b.metrics.cpu) ≡ true

or_cap-lem : (m : Metrics) → let n = or_cap m in (n.cap || n.mem || n.cpu) ≡ true
unfolding or_cap
or_cap-lem m = ground arith

module _ {A B : Type 0} (clients_cfg servers_cfg : Config) (clients : List A) (servers : List B)
    (clients_linked : AreLinked (length clients) clients_cfg.sects)
    (servers_linked : AreLinked (length servers) servers_cfg.sects) where
  balancer_of-IsBalancer :
      (sc : Section)
      → let b = balancer_of clients_cfg servers_cfg clients servers sc in
        (has_items b.clients && has_items b.servers) ≡ true
        → IsBalancer (length clients) (length servers) b
  unfolding balancer_of
  balancer_of-IsBalancer sc h =
      let (c, s) = both _ _ h in
      record {
        some_client = c;
        some_server = s;
        clients_below = members-below clients_cfg clients _ clients_linked;
        servers_below = members-below servers_cfg servers _ servers_linked;
        some_metric = or_cap-lem _;
      }
    where
      both : (a b : Bool) → (a && b) ≡ true → (a ≡ true) × (b ≡ true)
      both true b e = (refl, e)
      both false b e = cc

  pub load_balancers-IsBalancer :
      (sects : List Section) (bals : List Balancer)
      → All (IsBalancer (length clients) (length servers)) bals
      → All
          (IsBalancer (length clients) (length servers))
          (load_balancers clients_cfg servers_cfg clients servers sects bals)
  unfolding load_balancers
  load_balancers-IsBalancer [] bals h = h
  load_balancers-IsBalancer (sc ∷ rest) bals h =
      let b = balancer_of clients_cfg servers_cfg clients servers sc in
      load_balancers-IsBalancer rest _ (
        push_if-All (IsBalancer (length clients) (length servers))
          (has_items b.clients && has_items b.servers) b bals h (balancer_of-IsBalancer sc))
