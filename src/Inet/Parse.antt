-- ===== src/Inet/Parse.antt =====
-- `parse_cidr_notation`, `is_same_host` and `parse_host_port` of src/com/xtllib/xtl_inet.h, and
-- `strim` of xtl_string.h. `atoi` is the C library's, by way of `xtl::stoi`.
pub mod Blocks
pub mod Ports
pub mod Same
use nuords_proxy.Prelude.{
  ℕ, Bool, true, false, ◌&&◌, ◌==◌, if◌then◌else◌, Option, none, some, [], ◌∷◌, Bytes, is_empty, ℤ,
  pos, negsuc,
}
use nuords_proxy.Inet.{Addr, ipv4, ipv6, unspec, Cidr}
use nuords_proxy.Inet.Cidrs.{fit}
use nuords_proxy.Inet.Hosts.{Resolver, host_to_addr}

-- `rfind` on a byte: the texts before and behind its last place.
unfoldable pub split_last : ℕ → Bytes → Option (Bytes × Bytes)
split_last b [] = none
split_last b (c ∷ s) = elim (split_last b s) [
  | some (front, back) ↦ some (c ∷ front, back)
  | none ↦ if c == b then some ([], s) else none
]

-- `fit` of an `int` between 0 and `vmax`.
abbrev pub fit_int : ℤ → ℕ → ℕ
fit_int (pos n) vmax = fit n 0 vmax
fit_int (negsuc n) vmax = 0

-- A host without a prefix is a block of one address.
unfoldable pub whole_host : Option Addr → Option Cidr
whole_host (some (ipv6 a b c d)) = some (record { addr = ipv6 a b c d; pref = 128 })
whole_host (some (ipv4 a)) = some (record { addr = ipv4 a; pref = 32 })
whole_host _ = none

unfoldable pub with_prefix : Option Addr → ℤ → Option Cidr
with_prefix none n = none
with_prefix (some (ipv6 a b c d)) n = some (record { addr = ipv6 a b c d; pref = fit_int n 128 })
with_prefix (some (ipv4 a)) n = some (record { addr = ipv4 a; pref = fit_int n 32 })
with_prefix (some unspec) n = some (record { addr = unspec; pref = fit_int n 32 })

module _ (resolver : Resolver) (atoi : Bytes → ℤ) where
  unfoldable pub parse_parts : Bytes → Option (Bytes × Bytes) → Option Cidr
  parse_parts src none = whole_host (host_to_addr resolver src true)
  parse_parts src (some (host, prefix)) =
      with_prefix (host_to_addr resolver host true) (atoi prefix)

  unfoldable pub parse_cidr_notation : Bytes → Option Cidr
  parse_cidr_notation src = if is_empty src then none else parse_parts src (split_last b'/' src)

unfoldable pub same_addr : Option Addr → Option Addr → Bool
same_addr (some (ipv6 a0 a1 a2 a3)) (some (ipv6 b0 b1 b2 b3)) =
    (a0 == b0) && (a1 == b1) && (a2 == b2) && (a3 == b3)
same_addr (some (ipv4 a)) (some (ipv4 b)) = a == b
same_addr _ _ = false

unfoldable pub is_same_host : Resolver → Bytes → Bytes → Bool
is_same_host resolver host1 host2 =
    same_addr (host_to_addr resolver host1 false) (host_to_addr resolver host2 false)

-- `strim`: without the spaces at both ends. A text of spaces only stays as it is.
unfoldable pub trim_front : Bytes → Bytes
trim_front [] = []
trim_front (c ∷ s) = if c == 32 then trim_front s else c ∷ s

unfoldable pub trim_end : Bytes → Bytes
trim_end [] = []
trim_end (c ∷ s) = let rest = trim_end s in if (c == 32) && is_empty rest then [] else c ∷ rest

unfoldable pub strim : Bytes → Bytes
unfolding trim_front trim_end
strim s = let body = trim_front s in if is_empty body then s else trim_end body

-- A closing bracket with a colon behind it.
abbrev pub at_bracket : ℕ → Bytes → Option (Bytes × Bytes)
at_bracket c [] = none
at_bracket c (d ∷ s) = if (c == b']') && (d == b':') then some (c ∷ [], s) else none

-- `rfind("]:")`: the texts up to the bracket and behind the colon.
unfoldable pub split_bracket : Bytes → Option (Bytes × Bytes)
split_bracket [] = none
split_bracket (c ∷ s) = elim (split_bracket s) [
  | some (front, back) ↦ some (c ∷ front, back)
  | none ↦ at_bracket c s
]

-- The port keeps its value if there is no colon.
unfoldable pub parse_host_port : (Bytes → ℤ) → Bytes → ℤ → Bytes × ℤ
parse_host_port atoi addr port = elim (split_bracket addr) [
  | some (host, back) ↦ (strim host, atoi back)
  | none ↦ elim (split_last b':' addr) [
    | some (host, back) ↦ (strim host, atoi back)
    | none ↦ (strim addr, port)
  ]
]
