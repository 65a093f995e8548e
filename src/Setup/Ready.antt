-- ===== src/Setup/Ready.antt =====
-- The outcome of `nrdpx_load_config`.
use nuords_proxy.Prelude.{
  ◌≡◌, refl, sym, ◌∙◌, subst, ◌↔◌, ℤ, Bool, true, false, Bool-cases, ◌&&◌, inl, inr, Option, none,
  some, some-injective, List, [], ◌∷◌, length, All, Bytes, codes, arith,
}
use nuords_proxy.Inet.Hosts.{Resolver}
use nuords_proxy.Config.{Section, Config}
use nuords_proxy.Config.Loaded.{AreSections}
use nuords_proxy.Config.Sound.{load_from_file-AreSections}
use nuords_proxy.Config.Load.{load_from_file}
use nuords_proxy.Config.Sections.{get_boolean, first_section, first_sect}
use nuords_proxy.Setup.{Setup}
use nuords_proxy.Setup.Options.{new_setup, load_info, load_periods, load_buffers, load_options}
use nuords_proxy.Setup.Clients.{has_items}
use nuords_proxy.Setup.Load.{
  new_config, guard, load_class, load_members, load_objects, load_common, load_config,
}
use nuords_proxy.Setup.Bounds.{InBounds, load_options-InBounds}
use nuords_proxy.Setup.Members.{
  AreUnlinked, IsClient, IsServer, IsBalancer, load_clients-AreLoaded, load_servers-AreLoaded,
  load_balancers-IsBalancer,
}

-- What holds of the proxy when its configuration is loaded.
pub record IsReady (s : Setup) : Type 0 where
  pub bounds : InBounds s
  pub clients : All IsClient s.clients
  pub servers : All (IsServer s.info_enabled) s.servers
  pub some_balancer : has_items s.balancers ≡ true
  pub balancers : All (IsBalancer (length s.clients) (length s.servers)) s.balancers

guard-some :
    {A : Type 0} (b : Bool) (o : Option A) (a : A) → guard b o ≡ some a → (b ≡ true) × (o ≡ some a)
guard-some true o a e = (refl, e)
guard-some false o a e = cc

guard-none : {A : Type 0} (b : Bool) → guard {A = A} b none ≡ none
guard-none true = refl
guard-none false = refl

guard_both :
    {A : Type 0} (b c : Bool) (a : A) → (guard b (guard c (some a)) ≡ none) ↔ ((b && c) ≡ false)
guard_both true true a = ((λ e. cc), λ e. cc)
guard_both true false a = ((λ e. refl), λ e. refl)
guard_both false c a = ((λ e. refl), λ e. refl)

AreSections-unlinked : (sects : List Section) → AreSections sects → AreUnlinked sects
AreSections-unlinked [] h = tt
AreSections-unlinked (sc ∷ sects) (hs, _, h) = (hs.2, AreSections-unlinked sects h)

load_options-empty :
    (atoi : Bytes → ℤ) (sc : Section)
    → let s = load_options atoi sc new_setup in
      (s.clients ≡ []) × (s.servers ≡ []) × (s.balancers ≡ [])
unfolding load_info load_periods load_buffers new_setup
load_options-empty atoi sc = elim (Bool-cases (get_boolean sc (codes "info_enabled") true)) [
  | inl on ↦ rw on (refl, refl, refl)
  | inr off ↦ rw off (refl, refl, refl)
]

new_options-InBounds : (atoi : Bytes → ℤ) (sc : Section) → InBounds (load_options atoi sc new_setup)
unfolding new_setup
new_options-InBounds atoi sc = load_options-InBounds atoi sc new_setup (omega arith)

module _ (resolver : Resolver) (atoi : Bytes → ℤ) (read : Bytes → Option Bytes) where
  load_class-unlinked : (class : Bytes) → AreUnlinked (load_class resolver atoi read class).1.sects
  load_class-unlinked class =
      AreSections-unlinked _ (load_from_file-AreSections (read class) class new_config tt)

  load_members-lem :
      (servers_cfg clients_cfg balancers_cfg : Config) (s : Setup)
      → AreUnlinked servers_cfg.sects
      → AreUnlinked clients_cfg.sects
      → s.clients ≡ []
      → s.servers ≡ []
      → s.balancers ≡ []
      → let t = load_members resolver atoi read servers_cfg clients_cfg balancers_cfg s in
        All IsClient t.clients
        × All (IsServer t.info_enabled) t.servers
        × All (IsBalancer (length t.clients) (length t.servers)) t.balancers
  unfolding load_members
  load_members-lem servers_cfg clients_cfg balancers_cfg s us uc c0 s0 b0 =
      let (clients, clients_linked, _) =
        load_clients-AreLoaded resolver atoi clients_cfg.sects s.clients uc (rw c0 tt) in
      let (servers, servers_linked, _) =
        load_servers-AreLoaded atoi s.info_enabled servers_cfg.sects s.servers us (rw s0 tt) in
      (
        clients,
        servers,
        load_balancers-IsBalancer _ _ _ _ clients_linked servers_linked balancers_cfg.sects
            s.balancers (rw b0 tt),
      )

  load_members-InBounds :
      (servers_cfg clients_cfg balancers_cfg : Config) (s : Setup)
      → InBounds s
      → InBounds (load_members resolver atoi read servers_cfg clients_cfg balancers_cfg s)
  unfolding load_members
  load_members-InBounds servers_cfg clients_cfg balancers_cfg s h = record {
    listening = h.listening;
    info_period = h.info_period;
    status_period = h.status_period;
    caching = h.caching;
    conn_timeout = h.conn_timeout;
    max_faults = h.max_faults;
    modes = h.modes;
    max_buffer = h.max_buffer;
  }

  -- The objects, where the loading reaches them.
  abbrev pub load_rest : Section → Setup
  load_rest sc =
      load_members resolver atoi read (load_class resolver atoi read (codes "server")).1
        (load_class resolver atoi read (codes "client")).1
        (load_class resolver atoi read (codes "balancer")).1 (load_options atoi sc new_setup)

  load_rest-IsReady :
      (sc : Section) → has_items (load_rest sc).balancers ≡ true → IsReady (load_rest sc)
  load_rest-IsReady sc h =
      let s = load_options atoi sc new_setup in
      let (c0, s0, b0) = load_options-empty atoi sc in
      let (clients, servers, balancers) =
        load_members-lem _ _ (load_class resolver atoi read (codes "balancer")).1 s
          (load_class-unlinked (codes "server")) (load_class-unlinked (codes "client")) c0 s0 b0 in
      record {
        bounds = load_members-InBounds _ _ _ s (new_options-InBounds atoi sc);
        clients = clients;
        servers = servers;
        some_balancer = h;
        balancers = balancers;
      }

  abbrev pub has_class : Bytes → Bool
  has_class class = has_items (load_class resolver atoi read class).1.sects

  -- The conditions on which the objects are loaded, and the result.
  load_common-guarded :
      (sc : Section)
      → load_common resolver atoi read (some sc)
        ≡ guard
            (has_class (codes "server")
              && has_class (codes "client")
              && has_class (codes "balancer"))
            (guard (has_items (load_rest sc).balancers) (some (load_rest sc)))
  unfolding load_common load_objects
  load_common-guarded sc = rw (new_options-InBounds atoi sc).listening.0 refl

  read-first_section :
      (class : Bytes) (sc : Section)
      → first_section (load_class resolver atoi read class).1 ≡ some sc
      → (load_class resolver atoi read class).0 ≡ true
  unfolding first_section first_sect load_from_file
  read-first_section class sc e = by_read (read class) e
    where
      by_read :
          (file : Option Bytes)
          → first_section (load_from_file file class new_config).1 ≡ some sc
          → (load_from_file file class new_config).0 ≡ true
      by_read none f = cc
      by_read (some []) f = cc
      by_read (some (c ∷ text)) f = refl

  load_common-IsReady :
      (osc : Option Section) (s : Setup) → load_common resolver atoi read osc ≡ some s → IsReady s
  unfolding load_common
  load_common-IsReady none s e = cc
  load_common-IsReady (some sc) s e =
      let (_, f) = guard-some _ _ s (sym (load_common-guarded sc) ∙ e) in
      let (h, g) = guard-some _ _ s f in
      subst IsReady (some-injective (load_rest sc) s g) (load_rest-IsReady sc h)

  -- What a section of class `proxy` must come with.
  abbrev pub is_complete : Section → Bool
  is_complete sc =
      (has_class (codes "server") && has_class (codes "client") && has_class (codes "balancer"))
      && has_items (load_rest sc).balancers

  load_config-first :
      (osc : Option Section)
      → first_section (load_class resolver atoi read (codes "proxy")).1 ≡ osc
      → (guard
            (load_class resolver atoi read (codes "proxy")).0
            (load_common resolver atoi read osc)
          ≡ none)
        ↔ ((sc : Section) → osc ≡ some sc → is_complete sc ≡ false)
  unfolding load_common
  load_config-first none e = ((λ f sc g. cc), λ k. guard-none _)
  load_config-first (some t) e =
      rw (read-first_section (codes "proxy") t e, load_common-guarded t)
        (
          (λ f sc g.
              subst (λ u. is_complete u ≡ false) (some-injective t sc g) ((guard_both _ _ _).0 f)),
          λ k. (guard_both _ _ _).1 (k t refl),
        )

-- Whatever the file holds and whatever numbers `atoi` makes of its texts: if `nrdpx_load_config`
-- succeeds, there is a listener, and each has a host and a port, the periods, the timeouts and the
-- modes are within the bounds that the code sets, there is a cache exactly if its timeout, which is then at least 5,
-- is not 0, each client has a source, each server has a host, a port, a slot and a weight from 1 to
-- 100, is active and asks for no information unless the tracker is enabled, and there is a
-- balancer, and each has a client, a server and a metric and points to loaded clients and servers
-- only.
pub load_config-IsReady :
    (resolver : Resolver) (atoi : Bytes → ℤ) (read : Bytes → Option Bytes) (s : Setup)
    → load_config resolver atoi read ≡ some s
    → IsReady s
unfolding load_config
load_config-IsReady resolver atoi read s e =
    load_common-IsReady resolver atoi read _ s (guard-some _ _ s e).1

-- `nrdpx_load_config` fails exactly where the first section of class `proxy`, if there is one, does
-- not come with a section of each of the classes `server`, `client` and `balancer` and a balancer
-- that is not ignored. A file that cannot be read, or that holds no byte, has no sections.
pub load_config-none_iff :
    (resolver : Resolver) (atoi : Bytes → ℤ) (read : Bytes → Option Bytes)
    → (load_config resolver atoi read ≡ none) ↔ (
        (sc : Section)
        → first_section (load_class resolver atoi read (codes "proxy")).1 ≡ some sc
        → is_complete resolver atoi read sc ≡ false)
unfolding load_config
load_config-none_iff resolver atoi read = load_config-first resolver atoi read _ refl
