-- ===== src/Inet.antt =====
-- src/com/xtllib/xtl_inet.h: addresses of the two families, as `sockaddr_in` and `sockaddr_in6`
-- hold them, and the tests that the proxy makes on them.
pub mod Cidrs
pub mod Hosts
pub mod Parse
pub mod Prefix
use nuords_proxy.Prelude.{ℕ}

-- `AF_INET` and `AF_INET6`.
pub data Family : Type 0 where
  inet inet6 : Family

-- The address words in host order: `sin_addr` as one word of 32 bits, `sin6_addr` as four. An
-- address of any other family is `unspec`.
pub data Addr : Type 0 where
  ipv4 : ℕ → Addr
  ipv6 : ℕ → ℕ → ℕ → ℕ → Addr
  unspec : Addr

-- `sa_family`; `host_to_addr` gives no address of another family.
abbrev pub family_of : Addr → Family
family_of (ipv6 _ _ _ _) = inet6
family_of _ = inet

pub record Cidr : Type 0 where
  pub addr : Addr
  pub pref : ℕ
