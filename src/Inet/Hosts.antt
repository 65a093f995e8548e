-- ===== src/Inet/Hosts.antt =====
-- Host names and addresses: `guess_addr_family`, `strip_host_name`, `host_to_addr`,
-- `addr_to_host` and `is_error_fatal` of src/com/xtllib/xtl_inet.h.
use nuords_proxy.Prelude.{
  ℕ, Bool, false, ◌&&◌, ◌||◌, not, ◌==◌, if◌then◌else◌, Option, none, some, [], ◌∷◌, ◌++◌, Bytes,
  codes, equal,
}
use nuords_proxy.Inet.{Family, inet, inet6, Addr, ipv4, ipv6, unspec}

-- The system's resolver: `inet_pton` reads a literal, `getaddrinfo` gives the first address of a
-- name for a preferred family, or for any (`AF_UNSPEC`), and `inet_ntop` prints an address.
pub record Resolver : Type 0 where
  pub inet_pton : Family → Bytes → Option Addr
  pub getaddrinfo : Option Family → Bytes → Option Addr
  pub inet_ntop : Addr → Bytes

unfoldable pub has_byte : ℕ → Bytes → Bool
has_byte b [] = false
has_byte b (c ∷ s) = c == b || has_byte b s

-- A bracket in front means IPv6; an ambiguous host with a colon too.
unfoldable pub guess_addr_family : Bytes → Bool → Family
unfolding has_byte
guess_addr_family [] ambiguous = inet
guess_addr_family (c ∷ s) ambiguous =
    if c == b'[' then inet6 else if ambiguous && has_byte b':' (c ∷ s) then inet6 else inet

-- The text before its last byte, if that is a closing bracket.
strip_end : Bytes → Option Bytes
strip_end [] = none
strip_end (c ∷ []) = if c == b']' then some [] else none
strip_end (c ∷ d ∷ s) = elim (strip_end (d ∷ s)) [ none ↦ none | some t ↦ some (c ∷ t) ]

unfoldable pub strip_host_name : Bytes → Bytes
unfolding strip_end
strip_host_name [] = []
strip_host_name (c ∷ s) =
    if c == b'[' then (elim (strip_end s) [ none ↦ c ∷ s | some t ↦ t ]) else c ∷ s

abbrev pub inet_ipv4_any : Bytes
inet_ipv4_any = codes "0.0.0.0"

abbrev pub inet_ipv6_any : Bytes
inet_ipv6_any = codes "[::]"

-- `set_addr_any` on the address part.
abbrev pub addr_any : Family → Addr
addr_any inet = ipv4 0
addr_any inet6 = ipv6 0 0 0 0

abbrev pub any_name : Family → Bytes
any_name inet = inet_ipv4_any
any_name inet6 = inet_ipv6_any

-- Only addresses of the two families are taken from `getaddrinfo`.
abbrev pub known : Option Addr → Option Addr
known (some unspec) = none
known a = a

abbrev pub or_else : Option Addr → Option Addr → Option Addr
or_else none b = b
or_else (some a) b = some a

module _ (resolver : Resolver) where
  unfoldable pub literal : Family → Bytes → Bytes → Option Addr
  literal family host naked =
      if equal host (any_name family)
      then some (addr_any family)
      else resolver.inet_pton family naked

  unfoldable pub lookup_name : Family → Bytes → Option Addr
  lookup_name family naked =
      known (or_else (resolver.getaddrinfo (some family) naked) (resolver.getaddrinfo none naked))

  unfoldable pub host_to_addr : Bytes → Bool → Option Addr
  unfolding literal lookup_name guess_addr_family strip_host_name
  host_to_addr [] ambiguous = none
  host_to_addr (c ∷ s) ambiguous =
      let family = guess_addr_family (c ∷ s) ambiguous in
      let naked = strip_host_name (c ∷ s) in
      or_else (literal family (c ∷ s) naked) (lookup_name family naked)

  -- `addr_to_host` with its default `wrap`: an IPv6 address stands in brackets.
  unfoldable pub addr_to_host : Addr → Bytes
  addr_to_host (ipv6 a b c d) = b'[' ∷ (resolver.inet_ntop (ipv6 a b c d) ++ b']' ∷ [])
  addr_to_host (ipv4 a) = resolver.inet_ntop (ipv4 a)
  addr_to_host unspec = []

-- The system's error numbers.
pub record Errno : Type 0 where
  pub eagain : ℕ
  pub eintr : ℕ
  pub einpr : ℕ
  pub ealred : ℕ

unfoldable pub is_error_fatal : Errno → ℕ → Bool → Bool
is_error_fatal e err inproc =
    not (err == e.eagain)
    && not (err == e.eintr)
    && not (err == e.ealred)
    && (not inproc || not (err == e.einpr))
