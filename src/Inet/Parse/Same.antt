-- ===== src/Inet/Parse/Same.antt =====
-- What `is_same_host` of src/com/xtllib/xtl_inet.h compares.
use nuords_proxy.Prelude.{
  ◌≡◌, refl, ap, sym, true, false, ◌&&◌, ◌==◌, ==_self, ==_iff, ◌↔◌, Option, none, some, Bytes,
  Bool,
}
use nuords_proxy.Inet.{Addr, ipv4, ipv6, unspec}
use nuords_proxy.Inet.Hosts.{Resolver, host_to_addr}
use nuords_proxy.Inet.Parse.{same_addr, is_same_host}

abbrev pub has_family : Addr → Bool
has_family unspec = false
has_family (ipv4 _) = true
has_family (ipv6 _ _ _ _) = true

-- Both are the same address, of one of the two families.
abbrev pub Agree : Option Addr → Option Addr → Type 0
Agree a b = (addr : Addr) × (has_family addr ≡ true) × (a ≡ some addr) × (b ≡ some addr)

same_addr_self : (addr : Addr) → has_family addr ≡ true → same_addr (some addr) (some addr) ≡ true
unfolding same_addr
same_addr_self (ipv4 a) h = ==_self a
same_addr_self (ipv6 a b c d) h = rw (==_self a, ==_self b, ==_self c, ==_self d) refl
same_addr_self unspec h = h

and_parts : (a b : Bool) → (a && b) ≡ true → (a ≡ true) × (b ≡ true)
and_parts true b e = (refl, e)
and_parts false b e = absurd cc

same_addr-Agree : (a b : Option Addr) → same_addr a b ≡ true → Agree a b
unfolding same_addr
same_addr-Agree none b e = absurd cc
same_addr-Agree (some unspec) b e = absurd cc
same_addr-Agree (some (ipv4 a)) none e = absurd cc
same_addr-Agree (some (ipv4 a)) (some unspec) e = absurd cc
same_addr-Agree (some (ipv4 a)) (some (ipv6 _ _ _ _)) e = absurd cc
same_addr-Agree (some (ipv4 a)) (some (ipv4 b)) e =
    (ipv4 a, refl, refl, ap (λ n. some (ipv4 n)) (sym ((==_iff a b).0 e)))
same_addr-Agree (some (ipv6 a0 a1 a2 a3)) none e = absurd cc
same_addr-Agree (some (ipv6 a0 a1 a2 a3)) (some unspec) e = absurd cc
same_addr-Agree (some (ipv6 a0 a1 a2 a3)) (some (ipv4 _)) e = absurd cc
same_addr-Agree (some (ipv6 a0 a1 a2 a3)) (some (ipv6 b0 b1 b2 b3)) e =
    let (f, e3) = and_parts ((a0 == b0) && (a1 == b1) && (a2 == b2)) (a3 == b3) e in
    let (g, e2) = and_parts ((a0 == b0) && (a1 == b1)) (a2 == b2) f in
    let (e0, e1) = and_parts (a0 == b0) (a1 == b1) g in
    let h0 = (==_iff a0 b0).0 e0 in
    let h1 = (==_iff a1 b1).0 e1 in
    let h2 = (==_iff a2 b2).0 e2 in
    let h3 = (==_iff a3 b3).0 e3 in (ipv6 a0 a1 a2 a3, refl, refl, cc)

Agree-same_addr : (a b : Option Addr) → Agree a b → same_addr a b ≡ true
Agree-same_addr a b (addr, h, e, f) = rw (e, f) (same_addr_self addr h)

-- Two hosts are the same exactly if both have an address, of one of the two families, and these
-- addresses are equal.
pub is_same_host_iff :
    (resolver : Resolver) (host1 host2 : Bytes)
    → (is_same_host resolver host1 host2 ≡ true)
      ↔ Agree (host_to_addr resolver host1 false) (host_to_addr resolver host2 false)
unfolding is_same_host
is_same_host_iff resolver host1 host2 = (same_addr-Agree _ _, Agree-same_addr _ _)
