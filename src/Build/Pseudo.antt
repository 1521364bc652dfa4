-- ===== src/Build/Pseudo.antt =====
-- Which versions internal/version/version.go takes for ones that Go derived from a commit.
use sandbox_kit_spec.Base.{
  ℕ, ◌≡◌, refl, sym, ap, ◌∙◌, ◌⊎◌, ◌↔◌, inl, inr, Bool, true, false, Option, none, some, [], ◌∷◌,
  ◌++◌, append_assoc, all, any, length, Text, cut_last, is_digit, ◌==◌, ==_iff, arith, Option-cases,
}
use sandbox_kit_spec.Base.Cutting.{cut_last-none, cut_last-append}
use sandbox_kit_spec.Build.{
  is_hex, is_separator, field_or, last_field, is_stamp_of, is_pseudo_version,
}

cut_last-some :
    (p : ℕ → Bool) (s front back : Text)
    → cut_last p s ≡ some (front, back)
    → (c : ℕ) × (s ≡ front ++ c ∷ back) × (p c ≡ true)
unfolding cut_last
cut_last-some p [] front back h = cc
cut_last-some p (c ∷ s) front back h = elim (Option-cases (cut_last p s)) [
  | inl e ↦ (c, ground arith, ground arith)
  | inr ((f, b), e) ↦
      let found = cut_last-some p s f b e in (found.0, ground (arith, found.1), found.2)
]

-- A field of 14 digits for the time and one of 12 hexadecimal digits for the commit, behind whatever
-- ends in a separator.
abbrev pub IsPseudo : Text → Type 0
IsPseudo v =
    (front : Text) × (time : Text) × (commit : Text) × (v ≡ (front ++ time) ++ b'-' ∷ commit)
    × ((front ≡ [])
        ⊎ ((before : Text) × (sep : ℕ) × (front ≡ before ++ sep ∷ []) × (is_separator sep ≡ true)))
    × (length time ≡ 14)
    × (all is_digit time ≡ true)
    × (length commit ≡ 12)
    × (all is_hex commit ≡ true)

digit_no_separator : (s : Text) → all is_digit s ≡ true → any is_separator s ≡ false
unfolding is_digit
digit_no_separator [] h = refl
digit_no_separator (c ∷ s) h = ground (arith, digit_no_separator s)

hex_no_dash : (s : Text) → all is_hex s ≡ true → any (λ c. c == b'-') s ≡ false
unfolding is_hex is_digit
hex_no_dash [] h = refl
hex_no_dash (c ∷ s) h = ground (arith, hex_no_dash s)

field_of :
    (base : Text)
    → (front : Text) × (base ≡ front ++ last_field base)
      × ((front ≡ [])
          ⊎ ((before : Text) × (sep : ℕ) × (front ≡ before ++ sep ∷ [])
              × (is_separator sep ≡ true)))
field_of base = elim (Option-cases (cut_last is_separator base)) [
  | inl e ↦ ([], sym (ap (field_or base) e), inl refl)
  | inr ((f, b), e) ↦
      let found = cut_last-some is_separator base f b e in
      (
        f ++ found.0 ∷ [],
        found.1
            ∙ sym (append_assoc f (found.0 ∷ []) b)
            ∙ ap (λ t. (f ++ found.0 ∷ []) ++ t) (sym (ap (field_or base) e)),
        inr (f, found.0, refl, found.2),
      )
]

last_field-front :
    (front time : Text)
    → ((front ≡ [])
        ⊎ ((before : Text) × (sep : ℕ) × (front ≡ before ++ sep ∷ []) × (is_separator sep ≡ true)))
    → any is_separator time ≡ false
    → last_field (front ++ time) ≡ time
last_field-front front time (inl e) h =
    ap (λ f. last_field (f ++ time)) e ∙ ap (field_or time) (cut_last-none is_separator time h)
last_field-front front time (inr (before, sep, e, s)) h =
    ap (λ f. last_field (f ++ time)) e
    ∙ ap last_field (append_assoc before (sep ∷ []) time)
    ∙ ap (field_or (before ++ sep ∷ time)) (cut_last-append is_separator before sep time s h)

is_stamp_of-IsPseudo :
    (v : Text) (parts : Option (Text × Text))
    → cut_last (λ c. c == b'-') v ≡ parts
    → is_stamp_of parts ≡ true
    → IsPseudo v
is_stamp_of-IsPseudo v none e h = cc
is_stamp_of-IsPseudo v (some (base, commit)) e h =
    let found = cut_last-some (λ c. c == b'-') v base commit e in
    let field = field_of base in
    let dash : found.0 ≡ b'-' = (==_iff found.0 b'-').0 found.2 in
    (
      field.0,
      last_field base,
      commit,
      found.1 ∙ ap (λ c. base ++ c ∷ commit) dash ∙ ap (λ b. b ++ b'-' ∷ commit) field.1,
      field.2,
      (==_iff (length (last_field base)) 14).0 (ground arith),
      ground arith,
      (==_iff (length commit) 12).0 (ground arith),
      ground arith,
    )

-- A version is taken for one that Go derived from a commit exactly if it ends with a field of 14
-- digits, a dash, and 12 hexadecimal digits, where the field is the whole of what stands before the
-- dash or follows a dot or a dash.
pub is_pseudo_version-IsPseudo : (v : Text) → (is_pseudo_version v ≡ true) ↔ IsPseudo v
unfolding is_pseudo_version
is_pseudo_version-IsPseudo v = (
  is_stamp_of-IsPseudo v (cut_last (λ c. c == b'-') v) refl,
  λ (front, time, commit, e, ends, n, d, m, x).
      let cut_here : cut_last (λ c. c == b'-') v ≡ some (front ++ time, commit) =
        ap (cut_last (λ c. c == b'-')) e
        ∙ cut_last-append (λ c. c == b'-') (front ++ time) b'-' commit refl
            (hex_no_dash commit x) in
      let field : last_field (front ++ time) ≡ time =
        last_field-front front time ends (digit_no_separator time d) in
      ap is_stamp_of cut_here ∙ rw (m, x, field, n, d) refl,
)
