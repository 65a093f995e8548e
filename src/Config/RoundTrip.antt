-- ===== src/Config/RoundTrip.antt =====
-- Loading a printed configuration file.
use nuords_proxy.Prelude.{
  ◌≡◌, refl, ap, ◌∙◌, true, false, Bool-cases, Option, none, some, inl, inr, List, [], ◌∷◌, ◌++◌,
  append_assoc, append-nil, Bytes, All, is_empty,
}
use nuords_proxy.Config.{Section, Config}
use nuords_proxy.Config.Texts.{same_text}
use nuords_proxy.Config.Sections.{find_section, first_sect}
use nuords_proxy.Config.Load.{Scan, scan, add_sect, new_section, load_from_file}
use nuords_proxy.Config.Print.{
  Pairs, Sheet, print_pairs, print_sheet, section_of, sections_of, IsName, IsSheet,
}
use nuords_proxy.Config.Scanned.{idle, scan-header}
use nuords_proxy.Config.Pairs.{Fresh, scan-pairs}

-- No section of the list has the name.
IsNew : Bytes → List Section → Type 0
IsNew name sects = All (λ (t : Section). ¬ (same_text t.name name ≡ true)) sects

first_sect-IsNew :
    (name : Bytes) (sects : List Section)
    → IsNew name sects
    → first_sect (λ t. same_text t.name name) sects ≡ none
unfolding IsNew first_sect
first_sect-IsNew name [] h = refl
first_sect-IsNew name (t ∷ sects) (ht, h) = elim (Bool-cases (same_text t.name name)) [
  | inl same ↦ absurd (ht same)
  | inr other ↦ rw other (first_sect-IsNew name sects h)
]

IsName-filled : (class name : Bytes) → IsName class name → is_empty name ≡ false
IsName-filled class [] h = absurd h
IsName-filled class (c ∷ name) h = refl

add_sect-IsNew :
    (conf : Config) (sc : Section)
    → is_empty sc.name ≡ false
    → IsNew sc.name conf.sects
    → add_sect conf (some sc) ≡ record conf { sects = conf.sects ++ sc ∷ [] }
unfolding add_sect find_section
add_sect-IsNew conf sc filled h = rw (filled, first_sect-IsNew sc.name conf.sects h) refl

AreNew : Sheet → List Section → Type 0
AreNew sheet sects = All (λ (s : Bytes × Pairs). IsNew s.0 sects) sheet

IsNew-snoc :
    (name : Bytes) (sects : List Section) (t : Section)
    → IsNew name sects
    → ¬ (same_text t.name name ≡ true)
    → IsNew name (sects ++ t ∷ [])
unfolding IsNew
IsNew-snoc name [] t h ne = (ne, tt)
IsNew-snoc name (u ∷ sects) t (hu, h) ne = (hu, IsNew-snoc name sects t h ne)

AreNew-snoc :
    (sheet : Sheet) (sects : List Section) (t : Section)
    → AreNew sheet sects
    → All (λ (s : Bytes × Pairs). ¬ (same_text t.name s.0 ≡ true)) sheet
    → AreNew sheet (sects ++ t ∷ [])
unfolding AreNew
AreNew-snoc [] sects t h d = tt
AreNew-snoc (s ∷ sheet) sects t (hs, h) (ds, d) =
    (IsNew-snoc s.0 sects t hs ds, AreNew-snoc sheet sects t h d)

AreNew-nil : (sheet : Sheet) → AreNew sheet []
unfolding AreNew IsNew
AreNew-nil [] = tt
AreNew-nil (s ∷ sheet) = (tt, AreNew-nil sheet)

Fresh-nil : (pairs : Pairs) → Fresh pairs []
unfolding Fresh
Fresh-nil [] = tt
Fresh-nil (p ∷ pairs) = (tt, Fresh-nil pairs)

close_scan : Scan → Config
close_scan s = add_sect s.conf s.sect

-- `added` is the configuration once the section under way has been added.
scan-sheet :
    (sheet : Sheet) (conf added : Config) (osc : Option Section)
    → add_sect conf osc ≡ added
    → IsSheet added.prefix sheet
    → AreNew sheet added.sects
    → close_scan (scan (print_sheet sheet) (idle conf osc))
      ≡ record added { sects = added.sects ++ sections_of sheet }
unfolding print_sheet AreNew close_scan scan
scan-sheet [] conf added osc e h d = rw append-nil e
scan-sheet ((name, pairs) ∷ sheet) conf added osc e (named, items, apart, h) (new, d) =
    let rest = print_sheet sheet in
    let sc = section_of name pairs in
    let added' = record added { sects = added.sects ++ sc ∷ [] } in
    ap close_scan (scan-header conf osc name (print_pairs pairs rest) (rw e named))
    ∙ ap (λ c. close_scan (scan (print_pairs pairs rest) (idle c (some (new_section name))))) e
    ∙ ap close_scan (scan-pairs added (new_section name) pairs rest items (Fresh-nil pairs))
    ∙ scan-sheet sheet added added' (some sc)
        (add_sect-IsNew added sc (IsName-filled _ name named) new) h
        (AreNew-snoc sheet added.sects sc d apart)
    ∙ rw append_assoc

-- A printed file with at least one section, whose section names differ, whatever their case, and
-- are of the class asked for, and whose keys differ within a section and are no comment or header
-- and have no spaces at their ends: `load_from_file` accepts it and leaves in an empty configuration
-- exactly its sections, with their keys and values, in order.
pub load_from_file-print_sheet :
    (class name : Bytes) (pairs : Pairs) (sheet : Sheet) (conf : Config)
    → IsSheet class ((name, pairs) ∷ sheet)
    → conf.sects ≡ []
    → load_from_file (some (print_sheet ((name, pairs) ∷ sheet))) class conf
      ≡ (true, record { sects = sections_of ((name, pairs) ∷ sheet); prefix = class })
unfolding load_from_file print_sheet close_scan add_sect
load_from_file-print_sheet class name pairs sheet conf h empty =
    ap (λ c. (true, c))
      (scan-sheet ((name, pairs) ∷ sheet) (record conf { prefix = class })
        (record { sects = []; prefix = class }) none
        (ap (λ scs. record { sects = scs; prefix = class }) empty) h
        (AreNew-nil ((name, pairs) ∷ sheet)))
