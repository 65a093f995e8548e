-- ===== src/Config/Sound.antt =====
-- What every configuration that `load_from_file` leaves has, whatever the file holds.
use nuords_proxy.Prelude.{
  ℕ, ◌≡◌, refl, ◌≢◌, ◌==◌, ◌||◌, Bool, true, false, Bool-cases, Option, none, some, inl, inr, [],
  ◌∷◌, ◌++◌, Bytes, All, drop, is_empty, arith,
}
use nuords_proxy.Config.{Section, Config}
use nuords_proxy.Config.Texts.{starts_text, c_str}
use nuords_proxy.Config.Load.{
  Scan, end_item, end_line, begin_line, open_section, close_header, in_header, in_line, is_end,
  step, scan, begin_scan, load_from_file,
}
use nuords_proxy.Config.Loaded.{AreSections, MaybeSection, add_item-IsSection, add_sect-AreSections}

NonZero : Bytes → Type 0
NonZero s = All (λ (c : ℕ). c ≢ 0) s

-- In a header that has opened no section, only the first byte may be zero, unless a class is
-- asked for.
IsHeading : Bytes → Bool → Option Section → Option Bytes → Type 0
IsHeading class true none (some ln) = is_empty class ≡ true → NonZero (drop 1 ln)
IsHeading class _ _ _ = Unit

record IsScan (s : Scan) : Type 0 where
  whole : AreSections s.conf.sects
  under_way : MaybeSection s.sect
  heading : IsHeading s.conf.prefix s.header s.sect s.line

end_item-MaybeSection :
    (quiet : Bool) (line : Option Bytes) (osc : Option Section)
    → MaybeSection osc
    → MaybeSection (end_item quiet line osc)
end_item-MaybeSection true line osc h = h
end_item-MaybeSection false none osc h = h
end_item-MaybeSection false (some ln) none h = h
end_item-MaybeSection false (some ln) (some sc) h = add_item-IsSection sc ln h

IsHeading-no :
    (class : Bytes) (osc : Option Section) (line : Option Bytes) → IsHeading class false osc line
unfolding IsHeading
IsHeading-no class osc line = tt

end_line-IsScan : (s : Scan) → IsScan s → IsScan (end_line s)
unfolding end_line IsHeading
end_line-IsScan s h = record {
  whole = h.whole;
  under_way = end_item-MaybeSection _ s.line s.sect h.under_way;
  heading = tt;
}

begin_line-IsScan : (c : ℕ) (s : Scan) → IsScan s → IsScan (begin_line c s)
unfolding begin_line IsHeading NonZero
begin_line-IsScan c s h = elim (Bool-cases (c == b'[')) [
  | inl opens ↦ rw opens (record {
    whole = add_sect-AreSections s.conf s.sect h.under_way h.whole;
    under_way = tt;
    heading = λ e. tt;
  })
  | inr other ↦ rw other (record { whole = h.whole; under_way = h.under_way; heading = tt })
]

NonZero-snoc : (s : Bytes) (c : ℕ) → NonZero s → c ≢ 0 → NonZero (s ++ c ∷ [])
unfolding NonZero
NonZero-snoc [] c h ne = (ne, tt)
NonZero-snoc (d ∷ s) c (hd, h) ne = (hd, NonZero-snoc s c h ne)

NonZero-drop : (ln : Bytes) (c : ℕ) → NonZero (drop 1 ln) → c ≢ 0 → NonZero (drop 1 (ln ++ c ∷ []))
unfolding NonZero
NonZero-drop [] c h ne = tt
NonZero-drop (d ∷ ln) c h ne = NonZero-snoc ln c h ne

-- A name is not empty if it starts with a class, or with a byte that is not zero.
c_str-filled :
    (class name : Bytes)
    → (is_empty class ≡ true → NonZero name)
    → is_empty name ≡ false
    → (is_empty class || starts_text class (c_str name)) ≡ true
    → is_empty (c_str name) ≡ false
unfolding NonZero starts_text
c_str-filled class [] h e f = cc
c_str-filled [] (d ∷ name) h e f = let ne = (h refl).0 in grind arith
c_str-filled (c ∷ class) (d ∷ name) h e f = ground arith

open_section-MaybeSection :
    (class name : Bytes)
    → (is_empty class ≡ true → NonZero name)
    → MaybeSection (open_section class name)
unfolding open_section
open_section-MaybeSection class [] h = tt
open_section-MaybeSection class (d ∷ name) h =
    elim (Bool-cases (is_empty class || starts_text class (c_str (d ∷ name)))) [
      | inl fits ↦ rw fits (c_str-filled class (d ∷ name) h refl fits, tt, refl)
      | inr strange ↦ rw strange tt
    ]

close_header-IsHeading :
    (class name : Bytes) → IsHeading class true (open_section class name) (some (name ++ 0 ∷ []))
unfolding open_section IsHeading NonZero
close_header-IsHeading class [] = λ e. tt
close_header-IsHeading [] (d ∷ name) = tt
close_header-IsHeading (c ∷ class) (d ∷ name) =
    elim (Bool-cases (starts_text (c ∷ class) (c_str (d ∷ name)))) [
      | inl fits ↦ rw fits tt
      | inr strange ↦ rw strange λ e. cc
    ]

in_header-IsScan :
    (c : ℕ) (ln : Bytes) (conf : Config) (osc : Option Section) (comment : Bool)
    → c ≢ 0
    → let s : Scan = record {
      conf = conf;
      sect = osc;
      line = some ln;
      header = true;
      comment = comment;
    } in
      IsScan s → IsScan (in_header c ln osc s)
unfolding in_header close_header IsHeading
in_header-IsScan c ln conf none comment ne h = elim (Bool-cases (c == b']')) [
  | inl closes ↦ rw closes (record {
    whole = h.whole;
    under_way = open_section-MaybeSection conf.prefix (drop 1 ln) h.heading;
    heading = close_header-IsHeading conf.prefix (drop 1 ln);
  })
  | inr other ↦ rw other (record {
    whole = h.whole;
    under_way = tt;
    heading = λ e. NonZero-drop ln c (h.heading e) ne;
  })
]
in_header-IsScan c ln conf (some sc) comment ne h = record {
  whole = h.whole;
  under_way = h.under_way;
  heading = tt;
}

in_line-IsScan :
    (c : ℕ) (conf : Config) (osc : Option Section) (line : Option Bytes) (header comment : Bool)
    → c ≢ 0
    → let s : Scan = record {
      conf = conf;
      sect = osc;
      line = line;
      header = header;
      comment = comment;
    } in
      IsScan s → IsScan (in_line c line s)
unfolding in_line IsHeading
in_line-IsScan c conf osc none header comment ne h = begin_line-IsScan c _ h
in_line-IsScan c conf osc (some ln) true comment ne h = in_header-IsScan c ln conf osc comment ne h
in_line-IsScan c conf osc (some ln) false comment ne h = record {
  whole = h.whole;
  under_way = h.under_way;
  heading = tt;
}

step-IsScan : (c : ℕ) (s : Scan) → c ≢ 0 → IsScan s → IsScan (step c s)
unfolding step
step-IsScan c s ne h = elim (Bool-cases (is_end c)) [
  | inl ends ↦ rw ends (end_line-IsScan s h)
  | inr other ↦ rw other (in_line-IsScan c s.conf s.sect s.line s.header s.comment ne h)
]

scan-IsScan : (text : Bytes) (s : Scan) → IsScan s → IsScan (scan text s)
unfolding scan
scan-IsScan [] s h = h
scan-IsScan (c ∷ text) s h = elim (Bool-cases (c == 0)) [
  | inl stops ↦ rw stops h
  | inr goes ↦ rw goes (scan-IsScan text (step c s) (step-IsScan c s (λ e. grind arith) h))
]

-- Whatever the file holds, and whether or not it can be read: if the names of a configuration's
-- sections are not empty and differ, whatever their case, the keys within each section are not
-- empty and differ, and no number is linked to a section, the same holds of what `load_from_file` leaves.
pub load_from_file-AreSections :
    (file : Option Bytes) (class : Bytes) (conf : Config)
    → AreSections conf.sects
    → AreSections (load_from_file file class conf).1.sects
unfolding load_from_file IsHeading
load_from_file-AreSections none class conf h = h
load_from_file-AreSections (some []) class conf h = h
load_from_file-AreSections (some (c ∷ text)) class conf h =
    let start : IsScan (begin_scan conf class) = record {
      whole = h;
      under_way = tt;
      heading = tt;
    } in
    let end = scan-IsScan (c ∷ text) (begin_scan conf class) start in
    add_sect-AreSections _ _ end.under_way end.whole
