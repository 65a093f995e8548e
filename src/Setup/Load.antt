-- ===== src/Setup/Load.antt =====
-- `nrdpx_load_config`. After a failure the program exits, whatever has been set by then.
use nuords_proxy.Prelude.{ℤ, Bool, true, false, ◌&&◌, Option, none, some, [], Bytes, codes}
use nuords_proxy.Inet.Hosts.{Resolver}
use nuords_proxy.Config.{Section, Config}
use nuords_proxy.Config.Load.{load_from_file}
use nuords_proxy.Config.Sections.{first_section}
use nuords_proxy.Setup.{Setup}
use nuords_proxy.Setup.Options.{new_setup, load_options}
use nuords_proxy.Setup.Clients.{has_items, load_clients}
use nuords_proxy.Setup.Servers.{load_servers}
use nuords_proxy.Setup.Balancers.{load_balancers}

abbrev pub new_config : Config
new_config = record { sects = []; prefix = [] }

abbrev pub guard {ℓ} : {A : Type ℓ} → Bool → Option A → Option A
guard true o = o
guard false o = none

module _ (resolver : Resolver) (atoi : Bytes → ℤ) (read : Bytes → Option Bytes) where
  -- The configuration of a class, as a load leaves it.
  abbrev pub load_class : Bytes → Bool × Config
  load_class class = load_from_file (read class) class new_config

  unfoldable pub load_members : Config → Config → Config → Setup → Setup
  load_members servers_cfg clients_cfg balancers_cfg setup =
      let (clients, client_sects) = load_clients resolver atoi clients_cfg.sects setup.clients in
      let (servers, server_sects) =
        load_servers atoi setup.info_enabled servers_cfg.sects setup.servers in
      record setup {
        clients = clients;
        servers = servers;
        balancers =
            load_balancers (record clients_cfg { sects = client_sects })
              (record servers_cfg { sects = server_sects }) clients servers balancers_cfg.sects
              setup.balancers;
      }

  -- None of the three may be empty.
  unfoldable pub load_objects : Config → Config → Config → Setup → Option Setup
  load_objects servers_cfg clients_cfg balancers_cfg setup =
      guard
        (has_items servers_cfg.sects
          && has_items clients_cfg.sects
          && has_items balancers_cfg.sects)
        (let loaded = load_members servers_cfg clients_cfg balancers_cfg setup in
          guard (has_items loaded.balancers) (some loaded))

  unfoldable pub load_common : Option Section → Option Setup
  load_common none = none
  load_common (some sc) =
      let setup = load_options atoi sc new_setup in
      guard (has_items setup.listeners) (
        load_objects (load_class (codes "server")).1 (load_class (codes "client")).1
          (load_class (codes "balancer")).1 setup)

  unfoldable pub load_config : Option Setup
  load_config =
      let (read_it, proxy_cfg) = load_class (codes "proxy") in
      guard read_it (load_common (first_section proxy_cfg))
