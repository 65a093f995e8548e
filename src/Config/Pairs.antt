-- ===== src/Config/Pairs.antt =====
-- The loop of `load_from_file` on the printed items of a section.
use nuords_proxy.Prelude.{
  ℕ, ◌≡◌, refl, ap, ◌∙◌, ◌≢◌, false, some, List, [], ◌∷◌, ◌++◌, append-nil, append_assoc, Bytes,
  All, equal_iff, is_empty, arith,
}
use nuords_proxy.Inet.Parse.{strim, trim_front, trim_end}
use nuords_proxy.Config.{Item, Section, Config}
use nuords_proxy.Config.Items.{set_key}
use nuords_proxy.Config.Texts.{key_part, val_part, unquote_front, unquote_back}
use nuords_proxy.Config.Load.{scan, add_item, put_item, new_item}
use nuords_proxy.Config.Print.{Pairs, print_pairs, items_of, IsPlain, IsKeyByte, IsKey, ArePairs}
use nuords_proxy.Config.Scanned.{idle, scan-line}

quoted : Bytes → Bytes
quoted v = b'"' ∷ v ++ b'"' ∷ []

key_part-pair : (k r : Bytes) → All IsKeyByte k → key_part (k ++ b'=' ∷ r) ≡ k
key_part-pair [] r h = refl
key_part-pair (c ∷ k) r (plain, h) = grind (arith, key_part-pair k r h)

val_part-pair : (k r : Bytes) → All IsKeyByte k → val_part (k ++ b'=' ∷ r) ≡ r
val_part-pair [] r h = refl
val_part-pair (c ∷ k) r (plain, h) = grind (arith, val_part-pair k r h)

is_empty-snoc : (v : Bytes) (c : ℕ) → is_empty (v ++ c ∷ []) ≡ false
is_empty-snoc [] c = refl
is_empty-snoc (d ∷ v) c = refl

trim_end-quoted : (v : Bytes) → trim_end (v ++ b'"' ∷ []) ≡ v ++ b'"' ∷ []
unfolding trim_end
trim_end-quoted [] = refl
trim_end-quoted (c ∷ v) = rw (trim_end-quoted v, is_empty-snoc v b'"') (grind arith)

strim-quoted : (v : Bytes) → strim (quoted v) ≡ quoted v
unfolding strim trim_front trim_end quoted
strim-quoted v = rw (trim_end-quoted v) refl

unquote_back-quoted : (v : Bytes) → unquote_back (v ++ b'"' ∷ []) ≡ v
unquote_back-quoted [] = refl
unquote_back-quoted (c ∷ []) = refl
unquote_back-quoted (c ∷ d ∷ v) = ap (◌∷◌ c) (unquote_back-quoted (d ∷ v))

unquoted : (v : Bytes) → unquote_back (unquote_front (quoted v)) ≡ v
unfolding quoted
unquoted v = unquote_back-quoted v

add_item-parts :
    (sc : Section) (c : ℕ) (s k v : Bytes)
    → strim (key_part (c ∷ s)) ≡ k
    → unquote_back (unquote_front (strim (val_part (c ∷ s)))) ≡ v
    → add_item sc (c ∷ s) ≡ put_item sc k v
unfolding add_item
add_item-parts sc c s k v e f = cc

add_item-pair :
    (sc : Section) (c : ℕ) (k v : Bytes)
    → IsKey (c ∷ k)
    → add_item sc (c ∷ k ++ b'=' ∷ quoted v)
      ≡ record sc { items = set_key (c ∷ k) (new_item v) sc.items }
unfolding put_item
add_item-pair sc c k v (_, _, _, plain, trimmed) =
    add_item-parts sc c (k ++ b'=' ∷ quoted v) (c ∷ k) v
      (ap strim (key_part-pair (c ∷ k) (quoted v) plain) ∙ trimmed)
      (ap (λ s. unquote_back (unquote_front (strim s))) (val_part-pair (c ∷ k) (quoted v) plain)
        ∙ ap (λ s. unquote_back (unquote_front s)) (strim-quoted v)
        ∙ unquoted v)

sign-IsPlain : IsPlain b'=' × IsPlain b'"'
sign-IsPlain = (
  ((λ e. omega arith), (λ e. omega arith), λ e. omega arith),
  ((λ e. omega arith), (λ e. omega arith), λ e. omega arith),
)

snoc-IsPlain : (v : Bytes) → All IsPlain v → All IsPlain (v ++ b'"' ∷ [])
snoc-IsPlain [] p = (sign-IsPlain.1, tt)
snoc-IsPlain (c ∷ v) (h, p) = (h, snoc-IsPlain v p)

line-IsPlain : (k v : Bytes) → All IsKeyByte k → All IsPlain v → All IsPlain (k ++ b'=' ∷ quoted v)
unfolding quoted
line-IsPlain [] v h p = (sign-IsPlain.0, (sign-IsPlain.1, snoc-IsPlain v p))
line-IsPlain (c ∷ k) v (h, t) p = (h.0, line-IsPlain k v t p)

line_assoc :
    (k v rest : Bytes)
    → k ++ b'=' ∷ b'"' ∷ v ++ b'"' ∷ 10 ∷ rest ≡ (k ++ b'=' ∷ quoted v) ++ 10 ∷ rest
unfolding quoted
line_assoc k v rest = simp (append_assoc)

scan-pair :
    (conf : Config) (sc : Section) (k v rest : Bytes)
    → IsKey k
    → All IsPlain v
    → scan (k ++ b'=' ∷ b'"' ∷ v ++ b'"' ∷ 10 ∷ rest) (idle conf (some sc))
      ≡ scan rest (idle conf (some (record sc { items = set_key k (new_item v) sc.items })))
scan-pair conf sc [] v rest h p = absurd h
scan-pair conf sc (c ∷ k) v rest (a, b, d, plain, trimmed) p =
    ap (λ text. scan text (idle conf (some sc))) (line_assoc (c ∷ k) v rest)
    ∙ scan-line conf sc c (k ++ b'=' ∷ quoted v) rest (line-IsPlain (c ∷ k) v plain p) a b d
    ∙ ap (λ t. scan rest (idle conf (some t))) (add_item-pair sc c k v (a, b, d, plain, trimmed))

abbrev NoKey : Bytes → List (Bytes × Item) → Type 0
NoKey k items = All (λ (i : Bytes × Item). i.0 ≢ k) items

set_key-fresh :
    (k : Bytes) (v : Item) (items : List (Bytes × Item))
    → NoKey k items
    → set_key k v items ≡ items ++ (k, v) ∷ []
set_key-fresh k v [] h = refl
set_key-fresh k v ((j, w) ∷ items) (ne, h) = grind (arith, equal_iff j k, set_key-fresh k v items h)

NoKey-snoc :
    (k j : Bytes) (v : Item) (items : List (Bytes × Item))
    → NoKey k items
    → j ≢ k
    → NoKey k (items ++ (j, v) ∷ [])
NoKey-snoc k j v [] h ne = (ne, tt)
NoKey-snoc k j v (i ∷ items) (hi, h) ne = (hi, NoKey-snoc k j v items h ne)

unfoldable pub Fresh : Pairs → List (Bytes × Item) → Type 0
Fresh pairs items = All (λ (p : Bytes × Bytes). NoKey p.0 items) pairs

Fresh-snoc :
    (pairs : Pairs) (k : Bytes) (v : Item) (items : List (Bytes × Item))
    → Fresh pairs items
    → All (λ (p : Bytes × Bytes). k ≢ p.0) pairs
    → Fresh pairs (items ++ (k, v) ∷ [])
unfolding Fresh
Fresh-snoc [] k v items h d = tt
Fresh-snoc (p ∷ pairs) k v items (hp, h) (dp, d) =
    (NoKey-snoc p.0 k v items hp dp, Fresh-snoc pairs k v items h d)

pub scan-pairs :
    (conf : Config) (sc : Section) (pairs : Pairs) (rest : Bytes)
    → ArePairs pairs
    → Fresh pairs sc.items
    → scan (print_pairs pairs rest) (idle conf (some sc))
      ≡ scan rest (idle conf (some (record sc { items = sc.items ++ items_of pairs })))
unfolding print_pairs Fresh
scan-pairs conf sc [] rest h d = rw append-nil
scan-pairs conf sc ((k, v) ∷ pairs) rest (key, val, apart, h) (dk, d) =
    let items' = sc.items ++ (k, new_item v) ∷ [] in
    scan-pair conf sc k v (print_pairs pairs rest) key val
    ∙ ap (λ m. scan (print_pairs pairs rest) (idle conf (some (record sc { items = m }))))
        (set_key-fresh k (new_item v) sc.items dk)
    ∙ scan-pairs conf (record sc { items = items' }) pairs rest h
        (Fresh-snoc pairs k (new_item v) sc.items d apart)
    ∙ rw append_assoc
