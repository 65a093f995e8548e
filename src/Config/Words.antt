-- ===== src/Config/Words.antt =====
-- `get_strings` on a value that lists words.
use nuords_proxy.Prelude.{
  ℕ, ◌≡◌, refl, sym, ap, ◌∙◌, ◌≢◌, true, false, Bool-cases, Option, none, some, inl, inr, List, [],
  ◌∷◌, ◌++◌, append_assoc, append-nil, Bytes, All, equal, equal_self, arith,
}
use nuords_proxy.Config.{Item, Section}
use nuords_proxy.Config.Items.{find_key, set_key}
use nuords_proxy.Config.Load.{new_item}
use nuords_proxy.Config.Sections.{
  is_gap, split_words, end_word, at_least_one, item_words, keep_vls, keep_words, get_strings,
}

abbrev pub IsLetter : ℕ → Type 0
IsLetter c = (is_gap c ≡ false) × (c ≢ b'"')

abbrev pub IsWord : Bytes → Type 0
IsWord [] = ⊥
IsWord (c ∷ w) = All IsLetter (c ∷ w)

abbrev pub IsGap : Bytes → Type 0
IsGap gap = All (λ (c : ℕ). is_gap c ≡ true) gap

-- The words with the gap between two of them.
abbrev pub join : Bytes → List Bytes → Bytes
join gap [] = []
join gap (w ∷ []) = w
join gap (w ∷ v ∷ words) = w ++ (gap ++ join gap (v ∷ words))

split_words-letter :
    (c : ℕ) (s : Bytes) (word : Bytes)
    → IsLetter c
    → split_words (c ∷ s) false (some word) ≡ split_words s false (some (word ++ c ∷ []))
unfolding split_words
split_words-letter c s word h = ground arith

split_words-first :
    (c : ℕ) (s : Bytes)
    → IsLetter c
    → split_words (c ∷ s) false none ≡ split_words s false (some (c ∷ []))
unfolding split_words
split_words-first c s h = ground arith

split_words-gap :
    (c : ℕ) (s : Bytes) (word : Option Bytes)
    → is_gap c ≡ true
    → split_words (c ∷ s) false word ≡ end_word word (split_words s false none)
unfolding split_words
split_words-gap c s word h = ground arith

split_words-letters :
    (w s word : Bytes)
    → All IsLetter w
    → split_words (w ++ s) false (some word) ≡ split_words s false (some (word ++ w))
split_words-letters [] s word h = rw append-nil
split_words-letters (c ∷ w) s word (hc, h) =
    split_words-letter c (w ++ s) word hc
    ∙ split_words-letters w s (word ++ c ∷ []) h
    ∙ rw append_assoc

split_words-word :
    (w s : Bytes) → IsWord w → split_words (w ++ s) false none ≡ split_words s false (some w)
split_words-word [] s h = absurd h
split_words-word (c ∷ w) s (hc, h) =
    split_words-first c (w ++ s) hc ∙ split_words-letters w s (c ∷ []) h

split_words-gaps :
    (gap s : Bytes) → IsGap gap → split_words (gap ++ s) false none ≡ split_words s false none
split_words-gaps [] s h = refl
split_words-gaps (c ∷ gap) s (hc, h) =
    split_words-gap c (gap ++ s) none hc ∙ split_words-gaps gap s h

split_words-join :
    (g : ℕ) (gap : Bytes) (words : List Bytes)
    → IsGap (g ∷ gap)
    → All IsWord words
    → split_words (join (g ∷ gap) words) false none ≡ words
unfolding split_words
split_words-join g gap [] gaps h = refl
split_words-join g gap (w ∷ []) gaps (hw, h) =
    ap (λ s. split_words s false none) (sym (append-nil w)) ∙ split_words-word w [] hw
split_words-join g gap (w ∷ v ∷ words) (hg, gaps) (hw, h) =
    split_words-word w (g ∷ gap ++ join (g ∷ gap) (v ∷ words)) hw
    ∙ split_words-gap g (gap ++ join (g ∷ gap) (v ∷ words)) (some w) hg
    ∙ ap (◌∷◌ w) (
        split_words-gaps gap (join (g ∷ gap) (v ∷ words)) gaps
        ∙ split_words-join g gap (v ∷ words) (hg, gaps) h)

find_key-set_key :
    (k : Bytes) (i : Item) (items : List (Bytes × Item)) → find_key k (set_key k i items) ≡ some i
find_key-set_key k i [] = rw (equal_self k) refl
find_key-set_key k i ((j, w) ∷ items) = elim (Bool-cases (equal j k)) [
  | inl same ↦ rw (same, same) refl
  | inr other ↦ rw (other, other) (find_key-set_key k i items)
]

keep_words-again :
    (sc : Section) (key w : Bytes) (words : List Bytes) (val : Bytes)
    → item_words (new_item val) ≡ w ∷ words
    → let asked = keep_words sc key (some (new_item val)) in
      (asked.0 ≡ w ∷ words) × (get_strings asked.1 key ≡ (w ∷ words, asked.1))
unfolding get_strings
keep_words-again sc key w words val e =
    let i : Item = record { val = val; vls = item_words (new_item val) } in
    let kept = record sc { items = set_key key i sc.items } in
    (e, ap (keep_words kept key) (find_key-set_key key i sc.items) ∙ ap (keep_vls kept key i) e)

-- A value of one word or more, each without quotes, spaces, tabs and commas, with the same gap of
-- spaces, tabs and commas between two of them, which is not empty: `get_strings` returns these
-- words, and when it is asked again it returns them once more and changes nothing.
pub get_strings-join :
    (sc : Section) (key : Bytes) (g : ℕ) (gap w : Bytes) (words : List Bytes)
    → IsGap (g ∷ gap)
    → All IsWord (w ∷ words)
    → find_key key sc.items ≡ some (new_item (join (g ∷ gap) (w ∷ words)))
    → let asked = get_strings sc key in
      (asked.0 ≡ w ∷ words) × (get_strings asked.1 key ≡ (w ∷ words, asked.1))
unfolding get_strings
get_strings-join sc key g gap w words gaps h e = rw e (
    keep_words-again sc key w words (join (g ∷ gap) (w ∷ words))
      (ap at_least_one (split_words-join g gap (w ∷ words) gaps h)))
