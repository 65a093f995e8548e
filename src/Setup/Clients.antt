-- ===== src/Setup/Clients.antt =====
-- The loop of `nrdpx_load_config` over the sections of clients.
use nuords_proxy.Prelude.{
  ℕ, ℤ, pos, at_least, Bool, true, false, Option, none, some, List, [], ◌∷◌, ◌++◌, length, Bytes,
  codes,
}
use nuords_proxy.Inet.{Cidr}
use nuords_proxy.Inet.Hosts.{Resolver}
use nuords_proxy.Inet.Parse.{parse_cidr_notation}
use nuords_proxy.Config.{Section}
use nuords_proxy.Config.Sections.{get_strings, get_integer}
use nuords_proxy.Proxy.{Client}
use nuords_proxy.Proxy.Defaults.{new_client}

-- Where `set_data` has put a number, or not.
abbrev pub link_if : Bool → ℕ → Section → Section
link_if true n sc = record sc { link = some n }
link_if false n sc = sc

abbrev pub push_if {ℓ} : {A : Type ℓ} → Bool → A → List A → List A
push_if true a xs = xs ++ a ∷ []
push_if false a xs = xs

abbrev pub has_items {ℓ} : {A : Type ℓ} → List A → Bool
has_items [] = false
has_items (x ∷ xs) = true

abbrev pub cons_parsed : Option Cidr → List Cidr → List Cidr
cons_parsed none rest = rest
cons_parsed (some c) rest = c ∷ rest

module _ (resolver : Resolver) (atoi : Bytes → ℤ) where
  -- The sources that can be parsed.
  unfoldable pub parse_sources : List Bytes → List Cidr
  parse_sources [] = []
  parse_sources (s ∷ rest) = cons_parsed (parse_cidr_notation resolver atoi s) (parse_sources rest)

  unfoldable pub client_of : Section → Client
  client_of sc = record new_client {
    name = sc.name;
    sources = parse_sources (get_strings sc (codes "sources")).0;
    max_slots = at_least 0 (get_integer atoi sc (codes "max_slots") (pos new_client.max_slots));
  }

  -- A client without a source is ignored.
  unfoldable pub load_clients : List Section → List Client → List Client × List Section
  load_clients [] clients = (clients, [])
  load_clients (sc ∷ rest) clients =
      let c = client_of sc in
      let kept = has_items c.sources in
      let (loaded, linked) = load_clients rest (push_if kept c clients) in
      (loaded, link_if kept (length clients) sc ∷ linked)
