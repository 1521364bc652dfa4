-- ===== src/Version/Name/Normal.antt =====
-- Short and qualified capability names: what normalizing and displaying do to a valid name.
use sandbox_kit_spec.Base.{
  ◌≡◌, refl, sym, ap, ◌∙◌, true, false, some, [], ◌∷◌, ◌++◌, Text, cut, cut_prefix, contains, arith,
  Bool-cases, Option-cases, inl, inr,
}
use sandbox_kit_spec.Base.Cutting.{
  cut-append, cut-none, trim_prefix-append, trim_prefix-none, trim_prefix-some, cut_prefix-some,
}
use sandbox_kit_spec.Version.Name.{
  is_capability_char, is_capability_end, matches_tail, capability_name,
  default_capability_namespace, is_derived_provide, normalize_capability_name,
  display_capability_name, valid_capability_name,
}

-- A capability's own name has no slash.
tail-no_slash :
    (s : Text)
    → matches_tail is_capability_char is_capability_end s ≡ true
    → contains b'/' s ≡ false
unfolding matches_tail is_capability_char is_capability_end contains
tail-no_slash [] h = cc
tail-no_slash (c ∷ []) h = ground arith
tail-no_slash (c ∷ d ∷ s) h = ground (arith, tail-no_slash (d ∷ s))

capability_name-no_slash : (s : Text) → capability_name s ≡ true → contains b'/' s ≡ false
unfolding capability_name contains
capability_name-no_slash [] h = cc
capability_name-no_slash (c ∷ []) h = ground arith
capability_name-no_slash (c ∷ d ∷ s) h = ground (arith, tail-no_slash (d ∷ s))

abbrev slash_prefix : Text
slash_prefix = default_capability_namespace ++ b'/' ∷ []

-- The name in the default namespace.
abbrev qualified : Text → Text
qualified name = default_capability_namespace ++ b'/' ∷ name

default-no_slash : contains b'/' default_capability_namespace ≡ false
unfolding contains
default-no_slash = refl

cut-qualified :
    (name : Text) → cut b'/' (qualified name) ≡ some (default_capability_namespace, name)
cut-qualified name = cut-append b'/' default_capability_namespace name default-no_slash

normalize-bare :
    (name : Text) → contains b'/' name ≡ false → normalize_capability_name name ≡ qualified name
unfolding normalize_capability_name
normalize-bare name h = rw h

normalize-qualified :
    (name : Text) → contains b'/' name ≡ true → normalize_capability_name name ≡ name
unfolding normalize_capability_name
normalize-qualified name h = rw h

-- A bare name is valid exactly if it is a capability's own name.
valid-bare :
    (name : Text) → contains b'/' name ≡ false → valid_capability_name name ≡ capability_name name
unfolding valid_capability_name
valid-bare name h = rw (cut-none b'/' name h) (ground arith)

valid-default : (name : Text) → valid_capability_name (qualified name) ≡ capability_name name
unfolding valid_capability_name
valid-default name = ground arith

-- Normalizing a valid name gives a valid name.
pub normalize-valid :
    (name : Text)
    → valid_capability_name name ≡ true
    → valid_capability_name (normalize_capability_name name) ≡ true
normalize-valid name h = elim (Bool-cases (contains b'/' name)) [
  | inl e ↦ rw (normalize-qualified name e) h
  | inr e ↦ rw (normalize-bare name e) (valid-default name ∙ sym (valid-bare name e) ∙ h)
]

display-default : (name : Text) → display_capability_name (qualified name) ≡ name
unfolding display_capability_name
display-default name = trim_prefix-append slash_prefix name

base-no_slash :
    (base : Text) → valid_capability_name (qualified base) ≡ true → contains b'/' base ≡ false
base-no_slash base h = capability_name-no_slash base (sym (valid-default base) ∙ h)

normalize-display_qualified :
    (name : Text)
    → valid_capability_name name ≡ true
    → contains b'/' name ≡ true
    → normalize_capability_name (display_capability_name name) ≡ name
unfolding display_capability_name
normalize-display_qualified name h e = elim (Option-cases (cut_prefix slash_prefix name)) [
  | inl f ↦ rw (trim_prefix-none slash_prefix name f) (normalize-qualified name e)
  | inr (base, f) ↦
      let whole : name ≡ qualified base = cut_prefix-some slash_prefix name base f in
      rw (trim_prefix-some slash_prefix name base f)
        (normalize-bare base (base-no_slash base (rw whole at h)) ∙ sym whole)
]

-- A display name reads back as the normalized name it stands for, for every valid name; and a name
-- without a namespace is displayed as it was written.
pub normalize-display :
    (name : Text)
    → valid_capability_name name ≡ true
    → (normalize_capability_name (display_capability_name (normalize_capability_name name))
        ≡ normalize_capability_name name)
      × (contains b'/' name ≡ false
          → display_capability_name (normalize_capability_name name) ≡ name)
normalize-display name h = elim (Bool-cases (contains b'/' name)) [
  | inl e ↦
      (rw (normalize-qualified name e) (normalize-display_qualified name h e), λ f. ground arith)
  | inr e ↦ (
    ap normalize_capability_name
        (ap display_capability_name (normalize-bare name e) ∙ display-default name),
    λ f. ap display_capability_name (normalize-bare name e) ∙ display-default name,
  )
]

-- No name that is written without a namespace counts as derived from image content.
pub is_derived_provide-bare :
    (name : Text)
    → contains b'/' name ≡ false
    → is_derived_provide (normalize_capability_name name) ≡ false
unfolding is_derived_provide
is_derived_provide-bare name h = rw (normalize-bare name h) refl
