-- ===== src/Packages/Fold.antt =====
-- What one name sees of the loops of DerivedProvides in spec/packages.go: the versions that the
-- records of the name have, in order.
use sandbox_kit_spec.Base.{
  ℕ, suc, ◌+◌, ◌≡◌, refl, ap, ◌∙◌, Bool, true, false, ◌||◌, Option, some, List, [], ◌∷◌, is_empty,
  Text, text_eq, text_eq_iff, has_text, if◌then◌else◌, arith, Bool-cases, inl, inr,
}
use sandbox_kit_spec.Version.Name.{valid_capability_name}
use sandbox_kit_spec.Version.Package.{package_version}
use sandbox_kit_spec.Packages.{
  Package, Tally, key_of, note, record_name, read_listing, read_listings,
}

unfoldable pub versions_of : Text → Text → List Package → List Text
unfolding package_version text_eq
versions_of ns n [] = []
versions_of ns n (p ∷ ps) =
    let rest = versions_of ns n ps in
    if text_eq (key_of ns p) n then package_version p.version ∷ rest else rest

unfoldable pub note_all : Bool → Option Text → List Text → Option Text
unfolding note
note_all first known [] = known
note_all first known (v ∷ vs) = note_all first (some (note first known v)) vs

unfoldable pub note_listings : Bool → Text → Text → Option Text → List (List Package) → Option Text
unfolding note_all versions_of
note_listings first ns n known [] = known
note_listings first ns n known (l ∷ ls) =
    note_listings false ns n (note_all first known (versions_of ns n l)) ls

-- How many of the listings have the name.
unfoldable pub count_listings : Text → Text → List (List Package) → ℕ
unfolding versions_of
count_listings ns n [] = 0
count_listings ns n (l ∷ ls) =
    let rest = count_listings ns n ls in if is_empty (versions_of ns n l) then rest else suc rest

abbrev once_more : Bool → List Text → ℕ
once_more seen vs = if seen || is_empty vs then 0 else 1

valid_same :
    (a b : Text)
    → text_eq a b ≡ true
    → valid_capability_name b ≡ true
    → valid_capability_name a ≡ true
valid_same a b e h = ap valid_capability_name ((text_eq_iff a b).0 e) ∙ h

-- The tally after one record.
abbrev after_record : Bool → Text → List Text → Package → Tally → Tally
after_record first ns seen p t =
    let name = key_of ns p in
    if valid_capability_name name
    then record_name first (has_text seen name) name (package_version p.version) t
    else t

abbrev seen_after : Text → List Text → Package → List Text
seen_after ns seen p = if valid_capability_name (key_of ns p) then key_of ns p ∷ seen else seen

module _ (ns n : Text) (valid : valid_capability_name n ≡ true) where
  record-versions :
      (first : Bool) (seen : List Text) (p : Package) (t : Tally) (rest : List Text)
      → note_all first ((after_record first ns seen p t).versions n) rest
        ≡ note_all first
            (t.versions n)
            (if text_eq (key_of ns p) n then package_version p.version ∷ rest else rest)
  unfolding note_all
  record-versions first seen p t rest = elim (Bool-cases (text_eq (key_of ns p) n)) [
    | inl e ↦ ground (
      arith,
      valid_same (key_of ns p) n e valid,
      ap t.versions ((text_eq_iff (key_of ns p) n).0 e),
    )
    | inr e ↦ elim (Bool-cases (valid_capability_name (key_of ns p))) [
      | inl v ↦ ground arith
      | inr v ↦ ground arith
    ]
  ]

  read_listing-versions :
      (first : Bool) (seen : List Text) (ps : List Package) (t : Tally)
      → (read_listing first ns seen ps t).versions n
        ≡ note_all first (t.versions n) (versions_of ns n ps)
  unfolding read_listing note_all versions_of
  read_listing-versions first seen [] t = refl
  read_listing-versions first seen (p ∷ ps) t =
      read_listing-versions first (seen_after ns seen p) ps (after_record first ns seen p t)
      ∙ record-versions first seen p t (versions_of ns n ps)

  record-counts :
      (first : Bool) (seen : List Text) (p : Package) (t : Tally) (rest : List Text)
      → (after_record first ns seen p t).counts n
          + once_more (has_text (seen_after ns seen p) n) rest
        ≡ t.counts n
          + once_more
              (has_text seen n)
              (if text_eq (key_of ns p) n then package_version p.version ∷ rest else rest)
  unfolding has_text
  record-counts first seen p t rest = elim (Bool-cases (text_eq (key_of ns p) n)) [
    | inl e ↦ ground (
      arith,
      valid_same (key_of ns p) n e valid,
      ap (has_text seen) ((text_eq_iff (key_of ns p) n).0 e),
    )
    | inr e ↦ ground arith
  ]

  read_listing-counts :
      (first : Bool) (seen : List Text) (ps : List Package) (t : Tally)
      → (read_listing first ns seen ps t).counts n
        ≡ t.counts n + once_more (has_text seen n) (versions_of ns n ps)
  unfolding read_listing versions_of
  read_listing-counts first seen [] t = ground arith
  read_listing-counts first seen (p ∷ ps) t =
      read_listing-counts first (seen_after ns seen p) ps (after_record first ns seen p t)
      ∙ record-counts first seen p t (versions_of ns n ps)

  pub read_listings-versions :
      (first : Bool) (ls : List (List Package)) (t : Tally)
      → (read_listings first ns ls t).versions n ≡ note_listings first ns n (t.versions n) ls
  unfolding read_listings note_listings
  read_listings-versions first [] t = refl
  read_listings-versions first (l ∷ ls) t =
      read_listings-versions false ls (read_listing first ns [] l t)
      ∙ ap (λ known. note_listings false ns n known ls) (read_listing-versions first [] l t)

  pub read_listings-counts :
      (first : Bool) (ls : List (List Package)) (t : Tally)
      → (read_listings first ns ls t).counts n ≡ t.counts n + count_listings ns n ls
  unfolding read_listings count_listings has_text
  read_listings-counts first [] t = ground arith
  read_listings-counts first (l ∷ ls) t = ground (
    arith,
    read_listings-counts false ls (read_listing first ns [] l t),
    read_listing-counts first [] l t,
  )
