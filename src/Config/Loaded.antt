-- ===== src/Config/Loaded.antt =====
-- The sections that `add_item` and `add_sect` leave.
use nuords_proxy.Prelude.{
  ◌≡◌, refl, sym, ◌≢◌, Bool, true, false, Bool-cases, Option, none, some, inl, inr, List, [], ◌∷◌,
  ◌++◌, Bytes, All, equal, equal_iff, is_empty, if◌then◌else◌,
}
use nuords_proxy.Config.{Item, Section, Config}
use nuords_proxy.Config.Items.{set_key, set_all}
use nuords_proxy.Config.Texts.{same_text}
use nuords_proxy.Config.Sections.{find_section, first_sect}
use nuords_proxy.Config.Load.{new_item, put_item, add_item, extend, add_found, add_sect}

-- Keys are not empty and differ.
abbrev pub AreItems : List (Bytes × Item) → Type 0
AreItems [] = Unit
AreItems ((k, v) ∷ items) =
    (is_empty k ≡ false) × All (λ (i : Bytes × Item). k ≢ i.0) items × AreItems items

-- A section that no number has been linked to yet.
abbrev pub IsSection : Section → Type 0
IsSection sc = (is_empty sc.name ≡ false) × AreItems sc.items × (sc.link ≡ none)

-- Names are not empty and differ, whatever their case.
abbrev pub AreSections : List Section → Type 0
AreSections [] = Unit
AreSections (sc ∷ sects) =
    IsSection sc × All (λ (t : Section). same_text sc.name t.name ≡ false) sects × AreSections sects

abbrev pub MaybeSection : Option Section → Type 0
MaybeSection none = Unit
MaybeSection (some sc) = IsSection sc

set_key-other :
    (j k : Bytes) (v : Item) (items : List (Bytes × Item))
    → j ≢ k
    → All (λ (i : Bytes × Item). j ≢ i.0) items
    → All (λ (i : Bytes × Item). j ≢ i.0) (set_key k v items)
set_key-other j k v [] ne h = (ne, tt)
set_key-other j k v ((l, w) ∷ items) ne (hl, h) = elim (Bool-cases (equal l k)) [
  | inl same ↦ rw same (hl, h)
  | inr other ↦ rw other (hl, set_key-other j k v items ne h)
]

set_key-AreItems :
    (k : Bytes) (v : Item) (items : List (Bytes × Item))
    → is_empty k ≡ false
    → AreItems items
    → AreItems (set_key k v items)
set_key-AreItems k v [] filled h = (filled, tt, tt)
set_key-AreItems k v ((j, w) ∷ items) filled (hj, apart, h) = elim (Bool-cases (equal j k)) [
  | inl same ↦ rw same (hj, apart, h)
  | inr other ↦ rw other (
    hj,
    set_key-other j k v items (λ e. cc (other, (equal_iff j k).1 e)) apart,
    set_key-AreItems k v items filled h,
  )
]

set_all-AreItems :
    (news items : List (Bytes × Item))
    → AreItems news
    → AreItems items
    → AreItems (set_all news items)
set_all-AreItems [] items n h = h
set_all-AreItems ((k, v) ∷ news) items (filled, _, n) h =
    set_all-AreItems news (set_key k v items) n (set_key-AreItems k v items filled h)

put_item-IsSection : (sc : Section) (k v : Bytes) → IsSection sc → IsSection (put_item sc k v)
unfolding put_item
put_item-IsSection sc [] v h = h
put_item-IsSection sc (c ∷ k) v (named, h, no_link) =
    (named, set_key-AreItems (c ∷ k) (new_item v) sc.items refl h, no_link)

pub add_item-IsSection : (sc : Section) (ln : Bytes) → IsSection sc → IsSection (add_item sc ln)
unfolding add_item
add_item-IsSection sc [] h = h
add_item-IsSection sc (c ∷ ln) h = put_item-IsSection sc _ _ h

extend-other :
    (sc u : Section) (sects : List Section)
    → All (λ (t : Section). same_text u.name t.name ≡ false) sects
    → All (λ (t : Section). same_text u.name t.name ≡ false) (extend sc sects)
unfolding extend
extend-other sc u [] h = tt
extend-other sc u (t ∷ sects) (ht, h) = elim (Bool-cases (same_text t.name sc.name)) [
  | inl same ↦ rw same (ht, h)
  | inr other ↦ rw other (ht, extend-other sc u sects h)
]

extend-AreSections :
    (sc : Section) (sects : List Section)
    → IsSection sc
    → AreSections sects
    → AreSections (extend sc sects)
unfolding extend
extend-AreSections sc [] s h = tt
extend-AreSections sc (t ∷ sects) s (ht, apart, h) = elim (Bool-cases (same_text t.name sc.name)) [
  | inl same ↦ rw same ((ht.0, set_all-AreItems sc.items t.items s.1 ht.1, ht.2), apart, h)
  | inr other ↦ rw other (ht, extend-other sc t sects apart, extend-AreSections sc sects s h)
]

snoc-other :
    (sc u : Section) (sects : List Section)
    → same_text u.name sc.name ≡ false
    → All (λ (t : Section). same_text u.name t.name ≡ false) sects
    → All (λ (t : Section). same_text u.name t.name ≡ false) (sects ++ sc ∷ [])
snoc-other sc u [] e h = (e, tt)
snoc-other sc u (t ∷ sects) e (ht, h) = (ht, snoc-other sc u sects e h)

pub if_none :
    (b : Bool) (sc : Section) (o : Option Section)
    → (if b then some sc else o) ≡ none
    → (b ≡ false) × (o ≡ none)
if_none true sc o e = cc
if_none false sc o e = (refl, e)

snoc-AreSections :
    (sc : Section) (sects : List Section)
    → IsSection sc
    → AreSections sects
    → first_sect (λ t. same_text t.name sc.name) sects ≡ none
    → AreSections (sects ++ sc ∷ [])
unfolding first_sect
snoc-AreSections sc [] s h e = (s, tt, tt)
snoc-AreSections sc (t ∷ sects) s (ht, apart, h) e =
    let (other, rest) = if_none (same_text t.name sc.name) t _ e in
    (ht, snoc-other sc t sects other apart, snoc-AreSections sc sects s h rest)

find_section-filled :
    (conf : Config) (name : Bytes)
    → is_empty name ≡ false
    → find_section conf name false ≡ first_sect (λ t. same_text t.name name) conf.sects
unfolding find_section
find_section-filled conf name filled = rw filled refl

add_found-AreSections :
    (conf : Config) (sc : Section) (found : Option Section)
    → IsSection sc
    → AreSections conf.sects
    → found ≡ first_sect (λ t. same_text t.name sc.name) conf.sects
    → AreSections (add_found conf sc found).sects
add_found-AreSections conf sc none s h e = snoc-AreSections sc conf.sects s h (sym e)
add_found-AreSections conf sc (some t) s h e = extend-AreSections sc conf.sects s h

pub add_sect-AreSections :
    (conf : Config) (osc : Option Section)
    → MaybeSection osc
    → AreSections conf.sects
    → AreSections (add_sect conf osc).sects
unfolding add_sect
add_sect-AreSections conf none s h = h
add_sect-AreSections conf (some sc) s h =
    add_found-AreSections conf sc _ s h (find_section-filled conf sc.name s.0)

pub add_sect-prefix :
    (conf : Config) (osc : Option Section) → (add_sect conf osc).prefix ≡ conf.prefix
unfolding add_sect
add_sect-prefix conf none = refl
add_sect-prefix conf (some sc) = found (find_section conf sc.name false)
  where
    found : (o : Option Section) → (add_found conf sc o).prefix ≡ conf.prefix
    found none = refl
    found (some t) = refl
