-- ===== src/Inet/Parse/Ports.antt =====
-- Addresses with and without a port, as the configuration writes them, and what `parse_host_port`
-- of src/com/xtllib/xtl_inet.h reads of them.
use nuords_proxy.Prelude.{
  ℕ, ◌≡◌, refl, ◌≢◌, false, none, some, [], ◌∷◌, ◌++◌, Bytes, is_empty, All, ℤ, arith,
}
use nuords_proxy.Inet.Parse.{
  strim, trim_front, trim_end, split_last, split_bracket, at_bracket, parse_host_port,
}

-- A host with a port, an IPv6 literal in brackets with a port, and a host alone.
pub data Address : Type 0 where
  named literal : Bytes → Bytes → Address
  alone : Bytes → Address

abbrev pub bracketed : Bytes → Bytes
bracketed host = b'[' ∷ (host ++ b']' ∷ [])

abbrev pub print_address : Address → Bytes
print_address (named host port) = host ++ b':' ∷ port
print_address (literal host port) = b'[' ∷ (host ++ b']' ∷ b':' ∷ port)
print_address (alone host) = host

abbrev pub host_port : (Bytes → ℤ) → Address → ℤ → Bytes × ℤ
host_port atoi (named host port) old = (host, atoi port)
host_port atoi (literal host port) old = (bracketed host, atoi port)
host_port atoi (alone host) old = (host, old)

abbrev IsPortByte : ℕ → Type 0
IsPortByte c = (c ≢ b':') × (c ≢ b']')

abbrev IsHostByte : ℕ → Type 0
IsHostByte c = (c ≢ b' ') × (c ≢ b']')

abbrev IsNameByte : ℕ → Type 0
IsNameByte c = IsHostByte c × (c ≢ b':')

-- No space or bracket in a host that stands without brackets, no colon in one that stands alone,
-- and no colon or bracket in a port.
abbrev pub IsAddress : Address → Type 0
IsAddress (named host port) = All IsHostByte host × All IsPortByte port
IsAddress (literal host port) = All IsPortByte port
IsAddress (alone host) = All IsNameByte host

split_last-none : (s : Bytes) → All (λ (c : ℕ). c ≢ b':') s → split_last b':' s ≡ none
unfolding split_last
split_last-none [] h = refl
split_last-none (c ∷ s) (hc, h) = rw (split_last-none s h) (grind arith)

split_last-append :
    (front back : Bytes)
    → split_last b':' back ≡ none
    → split_last b':' (front ++ b':' ∷ back) ≡ some (front, back)
unfolding split_last
split_last-append [] back e = rw e refl
split_last-append (c ∷ front) back e = rw (split_last-append front back e) refl

at_bracket-none : (c : ℕ) (s : Bytes) → c ≢ b']' → at_bracket c s ≡ none
at_bracket-none c [] h = refl
at_bracket-none c (d ∷ s) h = grind arith

split_bracket-none : (s : Bytes) → All (λ (c : ℕ). c ≢ b']') s → split_bracket s ≡ none
unfolding split_bracket
split_bracket-none [] h = refl
split_bracket-none (c ∷ s) (hc, h) = rw (split_bracket-none s h) (at_bracket-none c s hc)

split_bracket-append :
    (front back : Bytes)
    → split_bracket back ≡ none
    → split_bracket (front ++ b']' ∷ b':' ∷ back) ≡ some (front ++ b']' ∷ [], back)
unfolding split_bracket
split_bracket-append [] back e = rw (e, at_bracket-none b':' back (ground arith)) refl
split_bracket-append (c ∷ front) back e = rw (split_bracket-append front back e) refl

trim_end-plain : (s : Bytes) → All (λ (c : ℕ). c ≢ b' ') s → trim_end s ≡ s
unfolding trim_end
trim_end-plain [] h = refl
trim_end-plain (c ∷ s) (hc, h) = rw (trim_end-plain s h) (grind arith)

trim_front-plain : (c : ℕ) (s : Bytes) → c ≢ b' ' → trim_front (c ∷ s) ≡ c ∷ s
unfolding trim_front
trim_front-plain c s h = grind arith

strim-plain : (s : Bytes) → All (λ (c : ℕ). c ≢ b' ') s → strim s ≡ s
unfolding strim
strim-plain [] h = refl
strim-plain (c ∷ s) (hc, h) = rw (trim_front-plain c s hc, trim_end-plain (c ∷ s) (hc, h)) refl

is_empty-snoc : (s : Bytes) (c : ℕ) → is_empty (s ++ c ∷ []) ≡ false
is_empty-snoc [] c = refl
is_empty-snoc (d ∷ s) c = refl

trim_end-bracket : (s : Bytes) → trim_end (s ++ b']' ∷ []) ≡ s ++ b']' ∷ []
unfolding trim_end
trim_end-bracket [] = refl
trim_end-bracket (c ∷ s) = rw (trim_end-bracket s, is_empty-snoc s b']') (grind arith)

strim-bracketed : (s : Bytes) → strim (bracketed s) ≡ bracketed s
unfolding strim trim_front trim_end
strim-bracketed s = rw (trim_end-bracket s) refl

All-map : (P Q : ℕ → Type 0) (s : Bytes) → ((c : ℕ) → P c → Q c) → All P s → All Q s
All-map P Q [] f h = tt
All-map P Q (c ∷ s) f (hc, h) = (f c hc, All-map P Q s f h)

All-append : (P : ℕ → Type 0) (s t : Bytes) → All P s → All P t → All P (s ++ t)
All-append P [] t h k = k
All-append P (c ∷ s) t (hc, h) k = (hc, All-append P s t h k)

split_bracket-named :
    (host port : Bytes)
    → All IsHostByte host
    → All IsPortByte port
    → split_bracket (host ++ b':' ∷ port) ≡ none
split_bracket-named host port h p = split_bracket-none (host ++ b':' ∷ port) (
    All-append (λ c. c ≢ b']') host (b':' ∷ port) (All-map _ _ host (λ _ e. e.1) h)
      (ground arith, All-map _ _ port (λ _ e. e.1) p))

-- What `parse_host_port` gives, by what is found in the text.
module _ (atoi : Bytes → ℤ) (addr host port : Bytes) (old : ℤ) (trimmed : strim host ≡ host) where
  parsed_bracket :
      split_bracket addr ≡ some (host, port) → parse_host_port atoi addr old ≡ (host, atoi port)
  unfolding parse_host_port
  parsed_bracket e = rw (parse_host_port, e, trimmed) refl

  parsed_colon :
      split_bracket addr ≡ none
      → split_last b':' addr ≡ some (host, port)
      → parse_host_port atoi addr old ≡ (host, atoi port)
  unfolding parse_host_port
  parsed_colon e f = rw (parse_host_port, e, f, trimmed) refl

parsed_alone :
    (atoi : Bytes → ℤ) (host : Bytes) (old : ℤ)
    → strim host ≡ host
    → split_bracket host ≡ none
    → split_last b':' host ≡ none
    → parse_host_port atoi host old ≡ (host, old)
unfolding parse_host_port
parsed_alone atoi host old trimmed e f = rw (parse_host_port, e, f, trimmed) refl

-- An address of one of these forms is read back: a host or a literal in brackets with a port, or a host
-- without a colon alone, where the port keeps its value. A literal in brackets needs its port.
pub parse_host_port-print_address :
    (atoi : Bytes → ℤ) (a : Address) (old : ℤ)
    → IsAddress a
    → parse_host_port atoi (print_address a) old ≡ host_port atoi a old
parse_host_port-print_address atoi (named host port) old (h, p) =
    parsed_colon atoi (host ++ b':' ∷ port) host port old
      (strim-plain host (All-map _ _ host (λ _ e. e.0) h)) (split_bracket-named host port h p)
      (split_last-append host port (split_last-none port (All-map _ _ port (λ _ e. e.0) p)))
parse_host_port-print_address atoi (literal host port) old p =
    parsed_bracket atoi (print_address (literal host port)) (bracketed host) port old
      (strim-bracketed host)
      (split_bracket-append (b'[' ∷ host) port
        (split_bracket-none port (All-map _ _ port (λ _ e. e.1) p)))
parse_host_port-print_address atoi (alone host) old h =
    parsed_alone atoi host old (strim-plain host (All-map _ _ host (λ _ e. e.0.0) h))
      (split_bracket-none host (All-map _ _ host (λ _ e. e.0.1) h))
      (split_last-none host (All-map _ _ host (λ _ e. e.1) h))
