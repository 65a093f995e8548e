-- ===== src/Config/Print.antt =====
-- A configuration file as it may be written: sections of keys and values, each value in quotes.
use nuords_proxy.Prelude.{ℕ, ◌≡◌, ◌≢◌, ◌||◌, true, none, List, [], ◌∷◌, ◌++◌, Bytes, All, is_empty}
use nuords_proxy.Inet.Parse.{strim}
use nuords_proxy.Config.{Item, Section}
use nuords_proxy.Config.Texts.{same_text, starts_text}
use nuords_proxy.Config.Load.{new_item}

abbrev pub Pairs : Type 0
Pairs = List (Bytes × Bytes)

abbrev pub Sheet : Type 0
Sheet = List (Bytes × Pairs)

-- The text of a piece, with another behind it.
unfoldable pub print_pairs : Pairs → Bytes → Bytes
print_pairs [] rest = rest
print_pairs ((k, v) ∷ pairs) rest = k ++ b'=' ∷ b'"' ∷ v ++ b'"' ∷ 10 ∷ print_pairs pairs rest

unfoldable pub print_sheet : Sheet → Bytes
print_sheet [] = []
print_sheet ((name, pairs) ∷ sheet) =
    b'[' ∷ name ++ b']' ∷ 10 ∷ print_pairs pairs (print_sheet sheet)

-- What a sheet says.
abbrev pub items_of : Pairs → List (Bytes × Item)
items_of [] = []
items_of ((k, v) ∷ pairs) = (k, new_item v) ∷ items_of pairs

abbrev pub section_of : Bytes → Pairs → Section
section_of name pairs = record { name = name; items = items_of pairs; link = none }

abbrev pub sections_of : Sheet → List Section
sections_of [] = []
sections_of ((name, pairs) ∷ sheet) = section_of name pairs ∷ sections_of sheet

-- No byte of these ends a line or the text.
abbrev pub IsPlain : ℕ → Type 0
IsPlain c = (c ≢ 0) × (c ≢ 13) × (c ≢ 10)

abbrev pub IsKeyByte : ℕ → Type 0
IsKeyByte c = IsPlain c × (c ≢ b'=')

abbrev pub IsNameByte : ℕ → Type 0
IsNameByte c = IsPlain c × (c ≢ b']')

-- A key has no spaces at its ends and does not look like a header or a comment.
abbrev pub IsKey : Bytes → Type 0
IsKey [] = ⊥
IsKey (c ∷ k) =
    (c ≢ b'[') × (c ≢ b';') × (c ≢ b'#') × All IsKeyByte (c ∷ k) × (strim (c ∷ k) ≡ c ∷ k)

-- A name is of the class that is loaded.
abbrev pub IsName : Bytes → Bytes → Type 0
IsName class [] = ⊥
IsName class (c ∷ s) =
    All IsNameByte (c ∷ s) × ((is_empty class || starts_text class (c ∷ s)) ≡ true)

abbrev pub ArePairs : Pairs → Type 0
ArePairs [] = Unit
ArePairs ((k, v) ∷ pairs) =
    IsKey k × All IsPlain v × All (λ (p : Bytes × Bytes). k ≢ p.0) pairs × ArePairs pairs

-- Keys differ within a section, and names, whatever their case, within the file.
abbrev pub IsSheet : Bytes → Sheet → Type 0
IsSheet class [] = Unit
IsSheet class ((name, pairs) ∷ sheet) =
    IsName class name
    × ArePairs pairs
    × All (λ (s : Bytes × Pairs). ¬ (same_text name s.0 ≡ true)) sheet
    × IsSheet class sheet
