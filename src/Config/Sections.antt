-- ===== src/Config/Sections.antt =====
-- The queries of `nrdpx_section_t` and `nrdpx_config_t`. `atoi` is the C library's.
use nuords_proxy.Prelude.{
  ℕ, Bool, true, false, not, ◌&&◌, ◌||◌, ◌==◌, Option, none, some, is_some, List, [], ◌∷◌, ◌++◌,
  Bytes, codes, equal, is_empty, if◌then◌else◌, ℤ,
}
use nuords_proxy.Config.{Item, Section, Config}
use nuords_proxy.Config.Items.{find_key, set_key}
use nuords_proxy.Config.Texts.{same_text}

abbrev pub or_default : Option Item → Bytes → Bytes
or_default none s = s
or_default (some i) s = i.val

unfoldable pub get_string : Section → Bytes → Bytes → Bytes
get_string sc key default = or_default (find_key key sc.items) default

unfoldable pub get_integer : (Bytes → ℤ) → Section → Bytes → ℤ → ℤ
get_integer atoi sc key default =
    let s = get_string sc key [] in if is_empty s then default else atoi s

unfoldable pub get_boolean : Section → Bytes → Bool → Bool
get_boolean sc key default =
    let s = get_string sc key [] in
    if is_empty s
    then default
    else same_text s (codes "true") || same_text s (codes "yes") || same_text s (codes "1")

unfoldable pub key_exists : Section → Bytes → Bool
key_exists sc key = is_some (find_key key sc.items)

-- The loop of `get_strings`: `word` is the word under way, if there is one, and `quoted` is `txt`.
abbrev pub end_word : Option Bytes → List Bytes → List Bytes
end_word none rest = rest
end_word (some w) rest = w ∷ rest

abbrev pub extend_word : Option Bytes → ℕ → Bytes
extend_word none c = c ∷ []
extend_word (some w) c = w ++ c ∷ []

abbrev pub is_gap : ℕ → Bool
is_gap c = (c == 32) || (c == 9) || (c == b',')

abbrev pub flip_quoted : ℕ → Bool → Bool
flip_quoted c quoted = if c == b'"' then not quoted else quoted

unfoldable pub split_words : Bytes → Bool → Option Bytes → List Bytes
split_words [] quoted word = end_word word []
split_words (c ∷ s) quoted word =
    if not (flip_quoted c quoted) && is_gap c
    then end_word word (split_words s (flip_quoted c quoted) none)
    else split_words s (flip_quoted c quoted) (some (extend_word word c))

-- A value without words has one, the empty text.
abbrev pub at_least_one : List Bytes → List Bytes
at_least_one [] = [] ∷ []
at_least_one (w ∷ words) = w ∷ words

abbrev pub item_words : Item → List Bytes
item_words i = at_least_one (split_words i.val false none)

abbrev pub keep_vls : Section → Bytes → Item → List Bytes → List Bytes × Section
keep_vls sc key i (w ∷ words) = (w ∷ words, sc)
keep_vls sc key i [] =
    let words = item_words i in
    (words, record sc { items = set_key key (record i { vls = words }) sc.items })

abbrev pub keep_words : Section → Bytes → Option Item → List Bytes × Section
keep_words sc key none = ([], sc)
keep_words sc key (some i) = keep_vls sc key i i.vls

unfoldable pub get_strings : Section → Bytes → List Bytes × Section
get_strings sc key = keep_words sc key (find_key key sc.items)

-- The first section of a list that a test accepts.
unfoldable pub first_sect : (Section → Bool) → List Section → Option Section
first_sect test [] = none
first_sect test (sc ∷ scs) = if test sc then some sc else first_sect test scs

unfoldable pub first_section : Config → Option Section
first_section conf = first_sect (λ sc. true) conf.sects

abbrev pub full_name : Config → Bytes → Bool → Bytes
full_name conf name class =
    if class && not (is_empty conf.prefix) then conf.prefix ++ codes "." ++ name else name

unfoldable pub find_section : Config → Bytes → Bool → Option Section
find_section conf name class =
    if is_empty name
    then none
    else first_sect (λ sc. same_text sc.name (full_name conf name class)) conf.sects

-- `bCase` asks for the exact value.
abbrev pub has_value : Option Item → Bytes → Bool → Bool
has_value none val exact = false
has_value (some i) val exact = if exact then equal i.val val else same_text i.val val

unfoldable pub find_by_value : Config → Bytes → Bytes → Bool → Option Section
find_by_value conf key val exact =
    first_sect (λ sc. has_value (find_key key sc.items) val exact) conf.sects
