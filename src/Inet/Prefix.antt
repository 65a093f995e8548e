-- ===== src/Inet/Prefix.antt =====
-- `is_addr_in_cidr` of src/com/xtllib/xtl_inet.h in terms of leading bits.
use native.Mathlib.Nat.{
  pow-succ', add-mul-div_left, div-div-eq-div-mul, div-lt_iff_lt-mul, div-eq_of_lt,
}
use native.Mathlib.Decide.{dec_le}
use nuords_proxy.Prelude.{
  ℕ, zero, suc, ◌+◌, ◌-◌, ◌*◌, ◌/◌, ◌^◌, ◌<◌, ◌≤◌, ◌≡◌, refl, ap, ◌∙◌, sym, ◌↔◌, Bool, true, false,
  ◌&&◌, ◌==◌, ==_iff, subst, List, [], ◌∷◌, arith,
}
use nuords_proxy.Inet.{Addr, ipv4, ipv6, unspec, Cidr}
use nuords_proxy.Inet.Cidrs.{words_match, prefix_match, same_family, is_addr_in_cidr, fit}

pow_add : (m n : ℕ) → 2 ^ (m + n) ≡ 2 ^ m * 2 ^ n
pow_add zero n = let e : 0 + n ≡ n = omega arith in rw e (omega arith)
pow_add (suc m) n =
    let e : suc m + n ≡ suc (m + n) = omega arith in
    rw (e, pow-succ' 2 (m + n), pow-succ' 2 m) (omega (arith, ap (λ (k : ℕ). 2 * k) (pow_add m n)))

pow_pos : (n : ℕ) → 0 < 2 ^ n
pow_pos zero = omega arith
pow_pos (suc n) = rw (pow-succ' 2 n) (omega (arith, pow_pos n))

-- The words of two addresses, the last word first, and the numbers that they stand for.
abbrev pub value1 : List (ℕ × ℕ) → ℕ
value1 [] = 0
value1 ((x, y) ∷ rest) = x + 2 ^ 32 * value1 rest

abbrev pub value2 : List (ℕ × ℕ) → ℕ
value2 [] = 0
value2 ((x, y) ∷ rest) = y + 2 ^ 32 * value2 rest

abbrev AllWords : List (ℕ × ℕ) → Type 0
AllWords [] = Unit {0}
AllWords ((x, y) ∷ rest) = (x < 2 ^ 32) × (y < 2 ^ 32) × AllWords rest

-- Dropping at least a whole word drops it.
div_word :
    (left x v : ℕ) → 32 ≤ left → x < 2 ^ 32 → (x + 2 ^ 32 * v) / 2 ^ left ≡ v / 2 ^ (left - 32)
div_word left x v h small =
    let e : left ≡ 32 + (left - 32) = omega arith in
    let whole : (x + 2 ^ 32 * v) / 2 ^ 32 ≡ v = omega arith in
    ap (λ (k : ℕ). (x + 2 ^ 32 * v) / 2 ^ k) e
    ∙ ap (λ (k : ℕ). (x + 2 ^ 32 * v) / k) (pow_add 32 (left - 32))
    ∙ sym (div-div-eq-div-mul (x + 2 ^ 32 * v) (2 ^ 32) (2 ^ (left - 32)))
    ∙ ap (λ (k : ℕ). k / 2 ^ (left - 32)) whole

-- Dropping less than a word leaves a digit and the words above.
div_part :
    (left x v : ℕ) → left ≤ 32 → (x + 2 ^ 32 * v) / 2 ^ left ≡ x / 2 ^ left + 2 ^ (32 - left) * v
div_part left x v h =
    let e : 32 ≡ left + (32 - left) = omega arith in
    let word : 2 ^ 32 * v ≡ 2 ^ left * (2 ^ (32 - left) * v) =
      ap (λ (k : ℕ). 2 ^ k * v) e
      ∙ ap (λ (k : ℕ). k * v) (pow_add left (32 - left))
      ∙ omega arith in
    ap (λ (k : ℕ). (x + k) / 2 ^ left) word
    ∙ add-mul-div_left x (2 ^ (32 - left) * v) (pow_pos left)

digit_lt : (left x : ℕ) → left ≤ 32 → x < 2 ^ 32 → x / 2 ^ left < 2 ^ (32 - left)
digit_lt left x h small =
    let e : 32 ≡ (32 - left) + left = omega arith in
    (div-lt_iff_lt-mul (pow_pos left)).1
      (subst (λ (k : ℕ). x < k) (ap (λ (k : ℕ). 2 ^ k) e ∙ pow_add (32 - left) left) small)

digits_eq : (r u v s t : ℕ) → u < r → v < r → u + r * s ≡ v + r * t → (u ≡ v) × (s ≡ t)
digits_eq r u v s t hu hv e =
    let top : (k w : ℕ) → k < r → (k + r * w) / r ≡ w =
      λ k w h. add-mul-div_left k w (omega arith) ∙ rw (div-eq_of_lt h) (omega arith) in
    let same : s ≡ t = sym (top u s hu) ∙ ap (λ (k : ℕ). k / r) e ∙ top v t hv in
    (omega (arith, ap (λ (k : ℕ). r * k) same), same)

cut_iff :
    (r u v s t : ℕ) (b : Bool)
    → u < r
    → v < r
    → (b ≡ true) ↔ (s / 2 ^ 0 ≡ t / 2 ^ 0)
    → (((u == v) && b) ≡ true) ↔ (u + r * s ≡ v + r * t)
cut_iff r u v s t b hu hv ih = (
  λ e.
      let same : s ≡ t = omega (arith, ih.0 (ground arith)) in
      let low : u ≡ v = ground arith in omega (arith, ap (λ (k : ℕ). r * k) same),
  λ e.
      let (low, high) = digits_eq r u v s t hu hv e in
      let rest : b ≡ true = ih.1 (omega arith) in ground arith,
)

words_match-skip :
    (left x y : ℕ) (rest : List (ℕ × ℕ))
    → 32 ≤ left
    → words_match left ((x, y) ∷ rest) ≡ words_match (left - 32) rest
unfolding words_match
words_match-skip left x y rest h = ground arith

words_match-cut :
    (left x y : ℕ) (rest : List (ℕ × ℕ))
    → left < 32
    → words_match left ((x, y) ∷ rest) ≡ (x / 2 ^ left == y / 2 ^ left) && words_match 0 rest
unfolding words_match
words_match-cut left x y rest h =
    let none_left : left - 32 ≡ 0 = omega arith in rw none_left (ground arith)

words_match_iff :
    (ws : List (ℕ × ℕ)) (left : ℕ)
    → AllWords ws
    → (words_match left ws ≡ true) ↔ (value1 ws / 2 ^ left ≡ value2 ws / 2 ^ left)
unfolding words_match
words_match_iff [] left all = (λ _. refl, λ _. refl)
words_match_iff ((x, y) ∷ rest) left (hx, hy, all) = elim (dec_le 32 left) [
  | yes h ↦
      rw (words_match-skip left x y rest h, div_word left x _ h hx, div_word left y _ h hy)
        (words_match_iff rest (left - 32) all)
  | no h ↦
      let below : left < 32 = omega arith in
      let ih = words_match_iff rest 0 all in
      rw
        (
          words_match-cut left x y rest below,
          div_part left x (value1 rest) (omega arith),
          div_part left y (value2 rest) (omega arith),
        )
        (cut_iff (2 ^ (32 - left)) (x / 2 ^ left) (y / 2 ^ left) (value1 rest) (value2 rest) _
          (digit_lt left x (omega arith) hx) (digit_lt left y (omega arith) hy)
          (words_match_iff rest 0 all))
]

-- Addresses whose words are 32 bits wide, the numbers that they spell and their widths.
abbrev pub IsAddr : Addr → Type 0
IsAddr (ipv4 a) = a < 2 ^ 32
IsAddr (ipv6 a b c d) = (a < 2 ^ 32) × (b < 2 ^ 32) × (c < 2 ^ 32) × (d < 2 ^ 32)
IsAddr unspec = Unit {0}

abbrev pub number : Addr → ℕ
number (ipv4 a) = a
number (ipv6 a b c d) = d + 2 ^ 32 * (c + 2 ^ 32 * (b + 2 ^ 32 * a))
number unspec = 0

abbrev pub width : Addr → ℕ
width (ipv4 _) = 32
width (ipv6 _ _ _ _) = 128
width unspec = 0

-- The leading `pref` bits of an address, as a number.
abbrev pub leading : ℕ → Addr → ℕ
leading pref a = number a / 2 ^ (width a - pref)

fit_id : (n : ℕ) (w : ℕ) → fit (w - n) 0 w ≡ w - n
fit_id n w = ground arith

prefix_match-ipv6 :
    (a0 a1 a2 a3 b0 b1 b2 b3 pref : ℕ)
    → IsAddr (ipv6 a0 a1 a2 a3)
    → IsAddr (ipv6 b0 b1 b2 b3)
    → (prefix_match (ipv6 a0 a1 a2 a3) (ipv6 b0 b1 b2 b3) pref ≡ true)
      ↔ (leading pref (ipv6 a0 a1 a2 a3) ≡ leading pref (ipv6 b0 b1 b2 b3))
unfolding prefix_match
prefix_match-ipv6 a0 a1 a2 a3 b0 b1 b2 b3 pref (h0, h1, h2, h3) (k0, k1, k2, k3) =
    let ws : List (ℕ × ℕ) = (a3, b3) ∷ (a2, b2) ∷ (a1, b1) ∷ (a0, b0) ∷ [] in
    let e1 : value1 ws ≡ number (ipv6 a0 a1 a2 a3) = omega arith in
    let e2 : value2 ws ≡ number (ipv6 b0 b1 b2 b3) = omega arith in
    rw (fit_id pref 128, ← e1, ← e2)
      (words_match_iff ws (128 - pref) (h3, k3, (h2, k2, (h1, k1, (h0, k0, tt)))))

prefix_match-ipv4 :
    (a b pref : ℕ)
    → 0 < pref
    → (prefix_match (ipv4 a) (ipv4 b) pref ≡ true) ↔ (leading pref (ipv4 a) ≡ leading pref (ipv4 b))
unfolding prefix_match
prefix_match-ipv4 a b pref h =
    let partial : ((32 - pref) == 32) ≡ false = ground arith in
    rw (fit_id pref 32, partial) (==_iff (leading pref (ipv4 a)) (leading pref (ipv4 b)))

-- A prefix of no bits leaves nothing to compare.
leading_none : (a : Addr) → IsAddr a → leading 0 a ≡ 0
leading_none (ipv4 a) ha = omega arith
leading_none (ipv6 a0 a1 a2 a3) ha = omega arith
leading_none unspec ha = omega arith

abbrev cidr_of : Addr → ℕ → Cidr
cidr_of b pref = record { addr = b; pref = pref }

abbrev InCidr : Addr → Cidr → Type 0
InCidr a c = (width a ≡ width c.addr) × (leading c.pref a ≡ leading c.pref c.addr)

same_family-width : (a b : Addr) → 0 < width a → (same_family a b ≡ true) ↔ (width a ≡ width b)
unfolding same_family
same_family-width (ipv4 _) (ipv4 _) h = ground arith
same_family-width _ _ h = ground arith

prefix_match-leading :
    (a b : Addr) (pref : ℕ)
    → IsAddr a
    → IsAddr b
    → 0 < pref
    → 0 < width a
    → width a ≡ width b
    → (prefix_match a b pref ≡ true) ↔ (leading pref a ≡ leading pref b)
prefix_match-leading (ipv4 a) (ipv4 b) pref ha hb h w e = prefix_match-ipv4 a b pref h
prefix_match-leading (ipv6 a0 a1 a2 a3) (ipv6 b0 b1 b2 b3) pref ha hb h w e =
    prefix_match-ipv6 a0 a1 a2 a3 b0 b1 b2 b3 pref ha hb
prefix_match-leading _ _ pref ha hb h w e = absurd (omega arith)

InCidr-zero :
    (a b : Addr)
    → IsAddr a
    → IsAddr b
    → 0 < width a
    → (is_addr_in_cidr a (cidr_of b 0) ≡ true) ↔ InCidr a (cidr_of b 0)
unfolding is_addr_in_cidr
InCidr-zero a b ha hb w =
    let same = same_family-width a b w in
    let none_a = leading_none a ha in
    let none_b = leading_none b hb in
    (λ e. (same.0 (ground arith), omega arith), λ e. rw (same.1 e.0))

-- `is_addr_in_cidr` accepts exactly the addresses of the block's family whose leading `pref` bits
-- are those of the block's address, for an IPv4 or IPv6 address with words of 32 bits.
pub is_addr_in_cidr-leading :
    (a b : Addr) (pref : ℕ)
    → IsAddr a
    → IsAddr b
    → 0 < width a
    → (is_addr_in_cidr a (record { addr = b; pref = pref }) ≡ true)
      ↔ ((width a ≡ width b) × (leading pref a ≡ leading pref b))
unfolding is_addr_in_cidr
is_addr_in_cidr-leading a b zero ha hb w = InCidr-zero a b ha hb w
is_addr_in_cidr-leading a b (suc pref) ha hb w =
    let same = same_family-width a b w in
    let bits = prefix_match-leading a b (suc pref) ha hb (omega arith) w in
    (
      λ e. let w' = same.0 (ground arith) in (w', (bits w').0 (ground arith)),
      λ e. rw (same.1 e.0, (bits e.0).1 e.1) (ground arith),
    )
