-- ===== src/Examples/Files.antt =====
-- A configuration file of one server, one client and one balancer, and the theorems applied to it.
use nuords_proxy.Prelude.{
  ℕ, ◌<◌, length, ◌≡◌, refl, ◌↔◌, ℤ, pos, true, false, Option, none, some, is_some, List, [], ◌∷◌,
  Bytes, codes, equal, In, arith,
}
use nuords_proxy.Inet.Parse.{
  strim, trim_front, trim_end, split_bracket, split_last, parse_host_port, parse_cidr_notation,
  parse_parts, with_prefix,
}
use nuords_proxy.Inet.Hosts.{
  host_to_addr, literal, lookup_name, guess_addr_family, strip_host_name, has_byte,
}
use nuords_proxy.Config.{Section, Config}
use nuords_proxy.Config.Texts.{same_text, starts_text}
use nuords_proxy.Config.Sections.{
  get_strings, find_section, first_sect, split_words, full_name, get_integer, get_string,
  get_boolean, key_exists, first_section,
}
use nuords_proxy.Config.Load.{
  new_section, new_item, load_from_file, scan, step, in_line, begin_line, end_line, in_header,
  close_header, open_section, add_item, put_item, add_sect, extend,
}
use nuords_proxy.Config.Print.{Sheet, print_sheet, sections_of, IsSheet}
use nuords_proxy.Config.RoundTrip.{load_from_file-print_sheet}
use nuords_proxy.Config.Loaded.{AreSections}
use nuords_proxy.Config.Sound.{load_from_file-AreSections}
use nuords_proxy.Config.Find.{AreNamed, find_section_iff}
use nuords_proxy.Config.Words.{get_strings-join}
use nuords_proxy.Proxy.Defaults.{new_server, new_client, new_balancer}
use nuords_proxy.Proxy.Servers.{server_activate}
use nuords_proxy.Setup.{Setup}
use nuords_proxy.Setup.Options.{
  new_setup, new_listener, load_listeners, load_info, load_periods, load_buffers,
}
use nuords_proxy.Setup.Clients.{parse_sources, client_of, load_clients}
use nuords_proxy.Setup.Servers.{set_address, set_check, set_limits, server_of, load_servers}
use nuords_proxy.Setup.Balancers.{
  named_members, members, add_metric, or_cap, balancer_of, load_balancers,
}
use nuords_proxy.Setup.Load.{
  new_config, load_class, load_members, load_objects, load_common, load_config,
}
use nuords_proxy.Setup.Ready.{IsReady, load_config-IsReady, is_complete, load_config-none_iff}
use nuords_proxy.Setup.Members.{IsServer}
use nuords_proxy.Inet.{ipv4}
use nuords_proxy.Inet.Cidrs.{is_addr_in_cidr}
use nuords_proxy.Proxy.Servers.{server_is_active}
use nuords_proxy.Proxy.Select.{over_limits, score, consider, select_round, select_server}
use nuords_proxy.Proxy.Detect.{
  detect_route, empty_route, find_client, in_sources, available, is_available,
}
use nuords_proxy.Proxy.Detect.Offers
use nuords_proxy.Setup.Start.{to_proxy, load_config-detects}
use nuords_proxy.Examples.World.{naturals, resolver}

abbrev pub atoi : Bytes → ℤ
atoi s = pos 24

abbrev file : Bytes
file =
    codes
      "[proxy]\n[Server.one]\naddress = 10.0.0.1\n[client.office]\nsources=10.0.0.0/24\n[balancer.main]\n"

abbrev pub read : Bytes → Option Bytes
read class = some file

abbrev or_new : Option Setup → Setup
or_new none = new_setup
or_new (some s) = s

abbrev loaded : Setup
loaded = or_new (load_config resolver atoi read)

or_new-some : (o : Option Setup) → is_some o ≡ true → o ≡ some (or_new o)
or_new-some none e = cc
or_new-some (some s) e = refl

succeeds : is_some (load_config resolver atoi read) ≡ true
unfolding load_config load_common load_objects load_members load_from_file scan step in_line
    begin_line end_line in_header close_header open_section add_item put_item add_sect extend
    find_section first_sect first_section same_text starts_text strim trim_front trim_end
    split_bracket split_last parse_host_port parse_cidr_notation parse_parts with_prefix
    host_to_addr literal lookup_name guess_addr_family strip_host_name has_byte get_strings
    split_words get_integer get_string get_boolean key_exists load_listeners new_listener load_info
    load_periods load_buffers parse_sources client_of load_clients set_address set_check set_limits
    server_of load_servers named_members members add_metric or_cap balancer_of load_balancers
    new_setup new_server new_client new_balancer server_activate equal
succeeds = refl

loads : load_config resolver atoi read ≡ some loaded
loads = or_new-some (load_config resolver atoi read) succeeds

load_config-IsReady_example : IsReady loaded
load_config-IsReady_example = load_config-IsReady resolver atoi read loaded loads

-- The proxy of this file detects its server for an address of its client.
detected :
    let p = to_proxy 5 loaded in
    (detect_route naturals p (ipv4 167772162) none [] p.balancers empty_route).server ≡ some 0
unfolding load_config load_common load_objects load_members load_from_file scan step in_line
    begin_line end_line in_header close_header open_section add_item put_item add_sect extend
    find_section first_sect first_section same_text starts_text strim trim_front trim_end
    split_bracket split_last parse_host_port parse_cidr_notation parse_parts with_prefix
    host_to_addr literal lookup_name guess_addr_family strip_host_name has_byte get_strings
    split_words get_integer get_string get_boolean key_exists load_listeners new_listener load_info
    load_periods load_buffers parse_sources client_of load_clients set_address set_check set_limits
    server_of load_servers named_members members add_metric or_cap balancer_of load_balancers
    new_setup new_server new_client new_balancer server_activate equal to_proxy detect_route
    find_client in_sources available is_available select_server server_is_active select_round
    consider over_limits score is_addr_in_cidr
detected = refl

load_config-detects_example :
    let p = to_proxy 5 loaded in
    IsServer loaded.info_enabled (p.server_at 0)
    × (0 < length loaded.servers)
    × ((b : ℕ) × (c : ℕ) × ((detect_route naturals p
            (ipv4 167772162)
            none
            []
            p.balancers
            empty_route).client
          ≡ some c)
        × (c < length loaded.clients)
        × Offers.IsClient p.client_at (ipv4 167772162) (p.balancer_at b).clients c)
load_config-detects_example =
    load_config-detects naturals resolver atoi read 5 loaded (ipv4 167772162) none 0 loads
      (λ b j. refl) detected

no_file : Bytes → Option Bytes
no_file class = none

load_config-none_iff_example : (load_config resolver atoi no_file ≡ none) ↔ (
    (sc : Section)
    → first_section (load_class resolver atoi no_file (codes "proxy")).1 ≡ some sc
    → is_complete resolver atoi no_file sc ≡ false)
load_config-none_iff_example = load_config-none_iff resolver atoi no_file

abbrev sheet : Sheet
sheet = (codes "server.two", []) ∷ []

abbrev pairs : List (Bytes × Bytes)
pairs = (codes "address", codes " 10.0.0.1 \"") ∷ (codes "max slots", codes "") ∷ []

sheet-IsSheet : IsSheet (codes "server") ((codes "server.one", pairs) ∷ sheet)
unfolding strim trim_front trim_end starts_text same_text equal
sheet-IsSheet = ground arith

load_from_file-print_sheet_example :
    load_from_file
      (some (print_sheet ((codes "server.one", pairs) ∷ sheet)))
      (codes "server")
      new_config
    ≡ (
      true,
      record { sects = sections_of ((codes "server.one", pairs) ∷ sheet); prefix = codes "server" },
    )
load_from_file-print_sheet_example =
    load_from_file-print_sheet (codes "server") (codes "server.one") pairs sheet new_config
      sheet-IsSheet refl

load_from_file-AreSections_example :
    AreSections (load_from_file (some file) (codes "server") new_config).1.sects
load_from_file-AreSections_example =
    load_from_file-AreSections (some file) (codes "server") new_config tt

abbrev listed : Section
listed = record {
  name = codes "server.one";
  items = (codes "clients", new_item (codes "home, office")) ∷ [];
  link = none;
}

-- A section that an object has been stored with.
abbrev linked : Section
linked = record (new_section (codes "Server.two")) { link = some 1 }

abbrev servers_cfg : Config
servers_cfg = record { sects = linked ∷ listed ∷ []; prefix = codes "server" }

servers_cfg-AreNamed : AreNamed servers_cfg.sects
unfolding same_text equal
servers_cfg-AreNamed = ((refl, tt), (tt, tt))

find_section_iff_example : (find_section servers_cfg (codes "TWO") true ≡ some linked) ↔ (
    In linked servers_cfg.sects
    × (same_text (codes "Server.two") (full_name servers_cfg (codes "TWO") true) ≡ true))
find_section_iff_example =
    find_section_iff servers_cfg (codes "TWO") true linked servers_cfg-AreNamed refl

get_strings-join_example :
    let asked = get_strings listed (codes "clients") in
    (asked.0 ≡ codes "home" ∷ codes "office" ∷ [])
    × (get_strings asked.1 (codes "clients") ≡ (codes "home" ∷ codes "office" ∷ [], asked.1))
unfolding equal
get_strings-join_example =
    get_strings-join listed (codes "clients") b',' (b' ' ∷ []) (codes "home") (codes "office" ∷ [])
      (refl, (refl, tt)) (ground arith) refl
