-- ===== src/Config/Scanned.antt =====
-- The loop of `load_from_file` on the pieces of a printed file.
use nuords_proxy.Prelude.{
  ℕ, ◌≡◌, refl, ◌∙◌, ◌≢◌, true, false, Option, none, some, [], ◌∷◌, ◌++◌, append-nil, append_assoc,
  Bytes, All, arith,
}
use nuords_proxy.Config.{Section, Config}
use nuords_proxy.Config.Texts.{c_str}
use nuords_proxy.Config.Load.{
  Scan, scan, step, in_line, in_header, begin_line, end_line, close_header, open_section, add_item,
  add_sect, new_section,
}
use nuords_proxy.Config.Print.{IsPlain, IsNameByte, IsName}

-- Between two lines, and inside a line of a section.
abbrev pub idle : Config → Option Section → Scan
idle conf sect = record { conf = conf; sect = sect; line = none; header = false; comment = false }

abbrev reading : Config → Section → Bytes → Scan
reading conf sc ln = record {
  conf = conf;
  sect = some sc;
  line = some ln;
  header = false;
  comment = false;
}

abbrev naming : Config → Bytes → Scan
naming conf ln = record { conf = conf; sect = none; line = some ln; header = true; comment = false }

scan-byte :
    (c : ℕ) (text : Bytes) (s t : Scan) → c ≢ 0 → step c s ≡ t → scan (c ∷ text) s ≡ scan text t
unfolding scan
scan-byte c text s t h e = grind (arith, e)

step-reading :
    (conf : Config) (sc : Section) (c : ℕ) (ln : Bytes)
    → IsPlain c
    → step c (reading conf sc ln) ≡ reading conf sc (ln ++ c ∷ [])
unfolding step in_line
step-reading conf sc c ln h = ground arith

scan-reading :
    (conf : Config) (sc : Section) (body ln rest : Bytes)
    → All IsPlain body
    → scan (body ++ rest) (reading conf sc ln) ≡ scan rest (reading conf sc (ln ++ body))
scan-reading conf sc [] ln rest h = rw append-nil
scan-reading conf sc (c ∷ body) ln rest (plain, h) =
    scan-byte c (body ++ rest) _ _ plain.0 (step-reading conf sc c ln plain)
    ∙ scan-reading conf sc body (ln ++ c ∷ []) rest h
    ∙ rw append_assoc

step-naming :
    (conf : Config) (c : ℕ) (ln : Bytes)
    → IsNameByte c
    → step c (naming conf ln) ≡ naming conf (ln ++ c ∷ [])
unfolding step in_line in_header
step-naming conf c ln h = ground arith

scan-naming :
    (conf : Config) (name ln rest : Bytes)
    → All IsNameByte name
    → scan (name ++ rest) (naming conf ln) ≡ scan rest (naming conf (ln ++ name))
scan-naming conf [] ln rest h = rw append-nil
scan-naming conf (c ∷ name) ln rest (plain, h) =
    scan-byte c (name ++ rest) _ _ plain.0.0 (step-naming conf c ln plain)
    ∙ scan-naming conf name (ln ++ c ∷ []) rest h
    ∙ rw append_assoc

step-item :
    (conf : Config) (sc : Section) (c : ℕ)
    → IsPlain c
    → c ≢ b'['
    → c ≢ b';'
    → c ≢ b'#'
    → step c (idle conf (some sc)) ≡ reading conf sc (c ∷ [])
unfolding step in_line begin_line
step-item conf sc c h a b d = ground arith

step-end :
    (conf : Config) (sc : Section) (ln : Bytes)
    → step 10 (reading conf sc ln) ≡ idle conf (some (add_item sc ln))
unfolding step end_line
step-end conf sc ln = refl

-- A line of an item.
pub scan-line :
    (conf : Config) (sc : Section) (c : ℕ) (body rest : Bytes)
    → All IsPlain (c ∷ body)
    → c ≢ b'['
    → c ≢ b';'
    → c ≢ b'#'
    → scan (c ∷ body ++ 10 ∷ rest) (idle conf (some sc))
      ≡ scan rest (idle conf (some (add_item sc (c ∷ body))))
scan-line conf sc c body rest (plain, h) a b d =
    scan-byte c (body ++ 10 ∷ rest) _ _ plain.0 (step-item conf sc c plain a b d)
    ∙ scan-reading conf sc body (c ∷ []) (10 ∷ rest) h
    ∙ scan-byte 10 rest _ _ (λ e. omega arith) (step-end conf sc (c ∷ body))

c_str-name : (name : Bytes) → All IsNameByte name → c_str name ≡ name
c_str-name [] h = refl
c_str-name (c ∷ name) (plain, h) = grind (arith, c_str-name name h)

opened :
    (class name : Bytes) → IsName class name → open_section class name ≡ some (new_section name)
unfolding open_section
opened class [] h = absurd h
opened class (c ∷ s) (plain, fits) = rw (c_str-name (c ∷ s) plain, fits) refl

step-open :
    (conf : Config) (osc : Option Section)
    → step b'[' (idle conf osc) ≡ naming (add_sect conf osc) (b'[' ∷ [])
unfolding step in_line begin_line
step-open conf osc = refl

named : Config → Bytes → Scan
named conf name = record {
  conf = conf;
  sect = some (new_section name);
  line = some (name ++ 0 ∷ []);
  header = true;
  comment = false;
}

step-close :
    (conf : Config) (name : Bytes)
    → IsName conf.prefix name
    → step b']' (naming conf (b'[' ∷ name)) ≡ named conf name
unfolding step in_line in_header close_header named
step-close conf name h = rw (opened conf.prefix name h) refl

step-named :
    (conf : Config) (name : Bytes) → step 10 (named conf name) ≡ idle conf (some (new_section name))
unfolding step end_line named
step-named conf name = refl

IsName-bytes : (class name : Bytes) → IsName class name → All IsNameByte name
IsName-bytes class [] h = absurd h
IsName-bytes class (c ∷ s) h = h.0

-- A line of a header.
pub scan-header :
    (conf : Config) (osc : Option Section) (name rest : Bytes)
    → IsName (add_sect conf osc).prefix name
    → scan (b'[' ∷ name ++ b']' ∷ 10 ∷ rest) (idle conf osc)
      ≡ scan rest (idle (add_sect conf osc) (some (new_section name)))
scan-header conf osc name rest h =
    scan-byte b'[' (name ++ b']' ∷ 10 ∷ rest) _ _ (λ e. omega arith) (step-open conf osc)
    ∙ scan-naming (add_sect conf osc) name (b'[' ∷ []) (b']' ∷ 10 ∷ rest) (IsName-bytes _ name h)
    ∙ scan-byte b']' (10 ∷ rest) _ _ (λ e. omega arith) (step-close (add_sect conf osc) name h)
    ∙ scan-byte 10 rest _ _ (λ e. omega arith) (step-named (add_sect conf osc) name)
