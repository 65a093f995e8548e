-- ===== src/Config/Find.antt =====
-- `find_section` by a name in any case.
use nuords_proxy.Prelude.{
  ◌≡◌, sym, ap, ◌∙◌, subst, ◌↔◌, Bool, true, false, Bool-cases, some, some-injective, inl, inr,
  List, [], ◌∷◌, Bytes, All, All-In, In, equal_iff, is_empty, if◌then◌else◌,
}
use nuords_proxy.Config.{Section, Config}
use nuords_proxy.Config.Texts.{same_text, lower_all}
use nuords_proxy.Config.Sections.{find_section, first_sect, full_name}

same_text_iff : (s t : Bytes) → (same_text s t ≡ true) ↔ (lower_all s ≡ lower_all t)
unfolding same_text
same_text_iff s t = equal_iff (lower_all s) (lower_all t)

-- Two texts that are the same as a third are the same.
same_text_trans :
    (s t u : Bytes) → same_text s u ≡ true → same_text t u ≡ true → same_text s t ≡ true
same_text_trans s t u e f =
    (same_text_iff s t).1 ((same_text_iff s u).0 e ∙ sym ((same_text_iff t u).0 f))

pub first_sect-In :
    (test : Section → Bool) (sects : List Section) (sc : Section)
    → first_sect test sects ≡ some sc
    → In sc sects × (test sc ≡ true)
unfolding first_sect
first_sect-In test [] sc e = cc
first_sect-In test (t ∷ sects) sc e = elim (Bool-cases (test t)) [
  | inl found ↦
      let same : t ≡ sc =
        some-injective t sc
          (sym (ap (λ b. if b then some t else first_sect test sects) found) ∙ e) in
      (inl (sym same), subst (λ u. test u ≡ true) same found)
  | inr other ↦
      let (m, h) =
        first_sect-In test sects sc
          (sym (ap (λ b. if b then some t else first_sect test sects) other) ∙ e) in
      (inr m, h)
]

-- Sections of which no two have the same name, in any case. Nothing is said of what they hold or are
-- linked to, so that this is so of the sections of a file while its objects are loaded.
abbrev pub AreNamed : List Section → Type 0
AreNamed [] = Unit
AreNamed (sc ∷ sects) =
    All (λ (t : Section). same_text sc.name t.name ≡ false) sects × AreNamed sects

first_sect-AreNamed :
    (name : Bytes) (sects : List Section) (sc : Section)
    → AreNamed sects
    → In sc sects
    → same_text sc.name name ≡ true
    → first_sect (λ t. same_text t.name name) sects ≡ some sc
unfolding first_sect
first_sect-AreNamed name [] sc h m e = absurd m
first_sect-AreNamed name (t ∷ sects) sc (apart, h) (inl same) e =
    rw (ap (λ (u : Section). same_text u.name name) (sym same) ∙ e) (ap some (sym same))
first_sect-AreNamed name (t ∷ sects) sc (apart, h) (inr m) e =
    elim (Bool-cases (same_text t.name name)) [
      | inl found ↦ cc (same_text_trans t.name sc.name name found e, All-In _ sects sc apart m)
      | inr other ↦ rw other (first_sect-AreNamed name sects sc h m e)
    ]

-- Where the names of the sections differ, whatever their case, `find_section`
-- on a name that is not empty returns exactly the section of the list with that name, in any
-- case, behind the prefix of the class and a dot if the class is asked for.
pub find_section_iff :
    (conf : Config) (name : Bytes) (class : Bool) (sc : Section)
    → AreNamed conf.sects
    → is_empty name ≡ false
    → (find_section conf name class ≡ some sc)
      ↔ (In sc conf.sects × (same_text sc.name (full_name conf name class) ≡ true))
unfolding find_section
find_section_iff conf name class sc h filled = rw filled (
  first_sect-In (λ t. same_text t.name (full_name conf name class)) conf.sects sc,
  λ (m, e). first_sect-AreNamed (full_name conf name class) conf.sects sc h m e,
)
