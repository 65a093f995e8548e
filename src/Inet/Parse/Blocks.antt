-- ===== src/Inet/Parse/Blocks.antt =====
-- The prefix of a block that `parse_cidr_notation` reads.
use nuords_proxy.Prelude.{
  ℕ, ◌≤◌, ◌<◌, ◌≡◌, refl, ◌≢◌, Bool, true, false, if◌then◌else◌, Option, none, some, some-injective,
  [], ◌∷◌, Bytes, ℤ, pos, negsuc, equal, ◌∙◌, ap, subst, arith,
}
use nuords_proxy.Inet.{Family, inet, inet6, Addr, ipv4, ipv6, unspec, Cidr}
use nuords_proxy.Inet.Hosts.{
  Resolver, any_name, addr_any, known, or_else, literal, lookup_name, host_to_addr,
  guess_addr_family, strip_host_name,
}
use nuords_proxy.Inet.Prefix.{width}
use nuords_proxy.Inet.Parse.{
  split_last, fit_int, whole_host, with_prefix, parse_parts, parse_cidr_notation,
}

IsKnown : Addr → Type 0
IsKnown a = 0 < width a

known-IsKnown : (o : Option Addr) (a : Addr) → known o ≡ some a → IsKnown a
unfolding IsKnown
known-IsKnown none a e = cc
known-IsKnown (some unspec) a e = cc
known-IsKnown (some (ipv4 x)) a e =
    subst (λ b. 0 < width b) (some-injective (ipv4 x) a e) (omega arith)
known-IsKnown (some (ipv6 x y z w)) a e =
    subst (λ b. 0 < width b) (some-injective (ipv6 x y z w) a e) (omega arith)

or_else-IsKnown :
    (o o' : Option Addr)
    → ((a : Addr) → o ≡ some a → IsKnown a)
    → ((a : Addr) → o' ≡ some a → IsKnown a)
    → (a : Addr) → or_else o o' ≡ some a
    → IsKnown a
or_else-IsKnown none o' h k a e = k a e
or_else-IsKnown (some b) o' h k a e = h a e

if_IsKnown :
    (b : Bool) (o o' : Option Addr)
    → ((a : Addr) → o ≡ some a → IsKnown a)
    → ((a : Addr) → o' ≡ some a → IsKnown a)
    → (a : Addr) → (if b then o else o') ≡ some a
    → IsKnown a
if_IsKnown true o o' h k = h
if_IsKnown false o o' h k = k

addr_any-IsKnown : (f : Family) → IsKnown (addr_any f)
unfolding IsKnown
addr_any-IsKnown inet = omega arith
addr_any-IsKnown inet6 = omega arith

not_unspec-IsKnown : (a : Addr) → a ≢ unspec → IsKnown a
unfolding IsKnown
not_unspec-IsKnown (ipv4 x) h = omega arith
not_unspec-IsKnown (ipv6 x y z w) h = omega arith
not_unspec-IsKnown unspec h = absurd (h refl)

module _ (resolver : Resolver)
    (pton_family : (f : Family) (s : Bytes) → resolver.inet_pton f s ≢ some unspec) where
  host_to_addr-IsKnown :
      (host : Bytes) (ambiguous : Bool) (a : Addr)
      → host_to_addr resolver host ambiguous ≡ some a
      → IsKnown a
  unfolding host_to_addr literal lookup_name
  host_to_addr-IsKnown [] ambiguous a e = cc
  host_to_addr-IsKnown (c ∷ s) ambiguous a e =
      let family = guess_addr_family (c ∷ s) ambiguous in
      let naked = strip_host_name (c ∷ s) in
      or_else-IsKnown (literal resolver family (c ∷ s) naked) (lookup_name resolver family naked)
        (if_IsKnown (equal (c ∷ s) (any_name family)) _ _
          (λ b eb. subst IsKnown (some-injective (addr_any family) b eb) (addr_any-IsKnown family))
          (λ b eb.
            not_unspec-IsKnown b λ no_family. pton_family family naked (eb ∙ ap some no_family)))
        (λ b eb. known-IsKnown _ b eb) a e

  whole_host-IsCidr :
      (o : Option Addr) (c : Cidr)
      → whole_host o ≡ some c
      → (0 < width c.addr) × (c.pref ≤ width c.addr)
  unfolding whole_host
  whole_host-IsCidr none c e = cc
  whole_host-IsCidr (some unspec) c e = cc
  whole_host-IsCidr (some (ipv4 x)) c e =
      subst (λ (k : Cidr). (0 < width k.addr) × (k.pref ≤ width k.addr)) (some-injective _ c e)
        (omega arith, omega arith)
  whole_host-IsCidr (some (ipv6 x y z w)) c e =
      subst (λ (k : Cidr). (0 < width k.addr) × (k.pref ≤ width k.addr)) (some-injective _ c e)
        (omega arith, omega arith)

  fit_int-le : (n : ℤ) (vmax : ℕ) → fit_int n vmax ≤ vmax
  fit_int-le (pos n) vmax = ground arith
  fit_int-le (negsuc n) vmax = omega arith

  with_prefix-IsCidr :
      (o : Option Addr) (n : ℤ) (c : Cidr)
      → ((a : Addr) → o ≡ some a → IsKnown a)
      → with_prefix o n ≡ some c
      → (0 < width c.addr) × (c.pref ≤ width c.addr)
  unfolding with_prefix IsKnown
  with_prefix-IsCidr none n c h e = cc
  with_prefix-IsCidr (some unspec) n c h e = absurd (let lt = h unspec refl in omega arith)
  with_prefix-IsCidr (some (ipv4 x)) n c h e =
      subst (λ (k : Cidr). (0 < width k.addr) × (k.pref ≤ width k.addr)) (some-injective _ c e)
        (omega arith, fit_int-le n 32)
  with_prefix-IsCidr (some (ipv6 x y z w)) n c h e =
      subst (λ (k : Cidr). (0 < width k.addr) × (k.pref ≤ width k.addr)) (some-injective _ c e)
        (omega arith, fit_int-le n 128)

  parse_parts-IsCidr :
      (atoi : Bytes → ℤ) (src : Bytes) (parts : Option (Bytes × Bytes)) (c : Cidr)
      → parse_parts resolver atoi src parts ≡ some c
      → (0 < width c.addr) × (c.pref ≤ width c.addr)
  unfolding parse_parts
  parse_parts-IsCidr atoi src none c e = whole_host-IsCidr _ c e
  parse_parts-IsCidr atoi src (some (host, prefix)) c e =
      with_prefix-IsCidr (host_to_addr resolver host true) (atoi prefix) c
        (host_to_addr-IsKnown host true) e

-- If `inet_pton` gives addresses of the two families only: a block that `parse_cidr_notation` reads,
-- whatever number `atoi` makes of its prefix, has an IPv4 or IPv6 address and a prefix that is no
-- longer than such an address.
pub parse_cidr_notation-IsCidr :
    (resolver : Resolver) (atoi : Bytes → ℤ) (src : Bytes) (c : Cidr)
    → ((f : Family) (s : Bytes) → resolver.inet_pton f s ≢ some unspec)
    → parse_cidr_notation resolver atoi src ≡ some c
    → (0 < width c.addr) × (c.pref ≤ width c.addr)
unfolding parse_cidr_notation
parse_cidr_notation-IsCidr resolver atoi [] c pton_family e = cc
parse_cidr_notation-IsCidr resolver atoi (b ∷ s) c pton_family e =
    parse_parts-IsCidr resolver pton_family atoi (b ∷ s) (split_last b'/' (b ∷ s)) c e
