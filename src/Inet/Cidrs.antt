-- ===== src/Inet/Cidrs.antt =====
-- `xtl::fit` of src/com/xtllib/xtl_algo.h on counts of bits, and `is_addr_in_cidr` of
-- src/com/xtllib/xtl_inet.h. The prefix that the parser stores is within 0 and 128, and the loop's
-- `left` may fall below 0: `fit` takes both that and the 0 of ℕ to 0.
use nuords_proxy.Prelude.{
  ℕ, ◌-◌, ◌/◌, ◌^◌, Bool, true, false, ◌&&◌, ◌||◌, not, ltb, ◌==◌, if◌then◌else◌, List, [], ◌∷◌,
}
use nuords_proxy.Inet.{Addr, ipv4, ipv6, unspec, Cidr}

abbrev pub fit : ℕ → ℕ → ℕ → ℕ
fit v vmin vmax = if ltb v vmin then vmin else if ltb vmax v then vmax else v

-- The IPv6 loop, from the last word to the first: a shift by 32 passes the word.
unfoldable pub words_match : ℕ → List (ℕ × ℕ) → Bool
words_match left [] = true
words_match left ((addr1, addr2) ∷ rest) =
    let shift = fit left 0 32 in
    if not (shift == 32) && not (addr1 / 2 ^ shift == addr2 / 2 ^ shift)
    then false
    else words_match (left - 32) rest

-- The two addresses of one family, by families.
unfoldable pub prefix_match : Addr → Addr → ℕ → Bool
prefix_match (ipv6 a0 a1 a2 a3) (ipv6 b0 b1 b2 b3) pref =
    words_match (fit (128 - pref) 0 128) ((a3, b3) ∷ (a2, b2) ∷ (a1, b1) ∷ (a0, b0) ∷ [])
prefix_match (ipv4 a) (ipv4 b) pref =
    let shift = fit (32 - pref) 0 32 in shift == 32 || a / 2 ^ shift == b / 2 ^ shift
prefix_match _ _ pref = false

unfoldable pub same_family : Addr → Addr → Bool
same_family (ipv4 _) (ipv4 _) = true
same_family (ipv6 _ _ _ _) (ipv6 _ _ _ _) = true
same_family unspec unspec = true
same_family _ _ = false

unfoldable pub is_addr_in_cidr : Addr → Cidr → Bool
unfolding prefix_match same_family
is_addr_in_cidr addr cidr =
    if not (same_family addr cidr.addr)
    then false
    else if cidr.pref == 0
    then true
    else prefix_match addr cidr.addr cidr.pref
