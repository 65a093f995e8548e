-- ===== src/Config/Load.antt =====
-- `add_item`, `add_sect` and `load_from_file` of src/nrdpx_config.cpp. The file is what could be
-- read of it: `none` if it cannot be opened, sized or positioned.
use nuords_proxy.Prelude.{
  ℕ, Bool, true, false, ◌||◌, ◌==◌, Option, none, some, List, [], ◌∷◌, ◌++◌, Bytes, is_empty, drop,
  if◌then◌else◌,
}
use nuords_proxy.Inet.Parse.{strim}
use nuords_proxy.Config.{Item, Section, Config}
use nuords_proxy.Config.Items.{set_key, set_all}
use nuords_proxy.Config.Texts.{
  same_text, starts_text, key_part, val_part, unquote_front, unquote_back, c_str,
}
use nuords_proxy.Config.Sections.{find_section}

-- The section named `s`, as the constructor makes it.
abbrev pub new_section : Bytes → Section
new_section s = record { name = s; items = []; link = none }

abbrev pub new_item : Bytes → Item
new_item s = record { val = s; vls = [] }

unfoldable pub put_item : Section → Bytes → Bytes → Section
put_item sc k v = if is_empty k then sc else record sc { items = set_key k (new_item v) sc.items }

unfoldable pub add_item : Section → Bytes → Section
add_item sc [] = sc
add_item sc (c ∷ ln) =
    put_item sc (strim (key_part (c ∷ ln)))
      (unquote_back (unquote_front (strim (val_part (c ∷ ln)))))

-- The first section of that name gets the items, which replace those of the same key.
unfoldable pub extend : Section → List Section → List Section
extend sc [] = []
extend sc (t ∷ ts) =
    if same_text t.name sc.name
    then record t { items = set_all sc.items t.items } ∷ ts
    else t ∷ extend sc ts

abbrev pub add_found : Config → Section → Option Section → Config
add_found conf sc none = record conf { sects = conf.sects ++ sc ∷ [] }
add_found conf sc (some _) = record conf { sects = extend sc conf.sects }

unfoldable pub add_sect : Config → Option Section → Config
add_sect conf none = conf
add_sect conf (some sc) = add_found conf sc (find_section conf sc.name false)

-- The loop of `load_from_file`: `line` is what stands from `ln` to `cc`, `header` is `tp`, and
-- `comment` is `cm`.
pub record Scan : Type 0 where
  pub conf : Config
  pub sect : Option Section
  pub line : Option Bytes
  pub header : Bool
  pub comment : Bool

abbrev pub is_end : ℕ → Bool
is_end c = (c == 13) || (c == 10)

-- At the end of a line, an item is added unless it is a comment or a header.
abbrev pub end_item : Bool → Option Bytes → Option Section → Option Section
end_item false (some ln) (some sc) = some (add_item sc ln)
end_item _ _ sc = sc

unfoldable pub end_line : Scan → Scan
end_line s = record s {
  sect = end_item (s.comment || s.header) s.line s.sect;
  line = none;
  header = false;
}

unfoldable pub begin_line : ℕ → Scan → Scan
begin_line c s =
    if c == b'['
    then record s {
      conf = add_sect s.conf s.sect;
      sect = none;
      line = some (c ∷ []);
      header = true;
      comment = false;
    }
    else record s { line = some (c ∷ []); header = false; comment = (c == b';') || (c == b'#') }

-- The section that a header opens, if its name is not empty and is of the class that is loaded.
unfoldable pub open_section : Bytes → Bytes → Option Section
open_section class name =
    if is_empty name
    then none
    else if is_empty class || starts_text class (c_str name)
    then some (new_section (c_str name))
    else none

-- The closing bracket is overwritten by a zero byte, and `ln` moves on by one.
unfoldable pub close_header : Bytes → Scan → Scan
close_header ln s = record s {
  sect = open_section s.conf.prefix (drop 1 ln);
  line = some (drop 1 ln ++ 0 ∷ []);
}

unfoldable pub in_header : ℕ → Bytes → Option Section → Scan → Scan
in_header c ln none s =
    if c == b']' then close_header ln s else record s { line = some (ln ++ c ∷ []) }
in_header c ln (some _) s = record s { line = some (ln ++ c ∷ []) }

unfoldable pub in_line : ℕ → Option Bytes → Scan → Scan
in_line c none s = begin_line c s
in_line c (some ln) s =
    if s.header then in_header c ln s.sect s else record s { line = some (ln ++ c ∷ []) }

unfoldable pub step : ℕ → Scan → Scan
step c s = if is_end c then end_line s else in_line c s.line s

unfoldable pub scan : Bytes → Scan → Scan
scan [] s = s
scan (c ∷ text) s = if c == 0 then s else scan text (step c s)

abbrev pub begin_scan : Config → Bytes → Scan
begin_scan conf class = record {
  conf = record conf { prefix = class };
  sect = none;
  line = none;
  header = false;
  comment = false;
}

-- The last section is added after the loop. `fread` reads nothing of an empty file, which fails.
unfoldable pub load_from_file : Option Bytes → Bytes → Config → Bool × Config
load_from_file none class conf = (false, conf)
load_from_file (some []) class conf = (false, conf)
load_from_file (some (c ∷ text)) class conf =
    let s = scan (c ∷ text) (begin_scan conf class) in (true, add_sect s.conf s.sect)
