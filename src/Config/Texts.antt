-- ===== src/Config/Texts.antt =====
-- The tests on texts that the configuration makes: `stricmp` and `strnicmp` of the C library in
-- the locale "C", as tests for equality, and the splitting and unquoting of `add_item`.
use nuords_proxy.Prelude.{
  ℕ, ◌+◌, Bool, true, false, ◌&&◌, ◌==◌, leb, [], ◌∷◌, Bytes, equal, if◌then◌else◌,
}

abbrev pub lower : ℕ → ℕ
lower c = if leb b'A' c && leb c b'Z' then c + 32 else c

abbrev pub lower_all : Bytes → Bytes
lower_all [] = []
lower_all (c ∷ s) = lower c ∷ lower_all s

-- `!stricmp(s, t)`.
unfoldable pub same_text : Bytes → Bytes → Bool
same_text s t = equal (lower_all s) (lower_all t)

-- `!strnicmp(s, t, strlen(s))`.
unfoldable pub starts_text : Bytes → Bytes → Bool
starts_text [] t = true
starts_text (c ∷ s) [] = false
starts_text (c ∷ s) (d ∷ t) = (lower c == lower d) && starts_text s t

-- What stands before and behind the first `=` of a line. Without one, all of it is the key.
abbrev pub key_part : Bytes → Bytes
key_part [] = []
key_part (c ∷ s) = if c == b'=' then [] else c ∷ key_part s

abbrev pub val_part : Bytes → Bytes
val_part [] = []
val_part (c ∷ s) = if c == b'=' then s else val_part s

abbrev pub unquote_front : Bytes → Bytes
unquote_front [] = []
unquote_front (c ∷ s) = if c == b'"' then s else c ∷ s

abbrev pub unquote_back : Bytes → Bytes
unquote_back [] = []
unquote_back (c ∷ []) = if c == b'"' then [] else c ∷ []
unquote_back (c ∷ d ∷ s) = c ∷ unquote_back (d ∷ s)

-- A C string ends at its first zero byte.
abbrev pub c_str : Bytes → Bytes
c_str [] = []
c_str (c ∷ s) = if c == 0 then [] else c ∷ c_str s
