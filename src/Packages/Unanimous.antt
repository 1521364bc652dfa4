-- ===== src/Packages/Unanimous.antt =====
-- When DerivedProvides of spec/packages.go publishes a name, and at which version.
use sandbox_kit_spec.Base.{
  ℕ, ◌+◌, ◌≤◌, ◌≡◌, refl, ap, ap₂, ◌∙◌, Bool, true, false, not, ◌&&◌, Option, none, some, List, [],
  ◌∷◌, all, length, is_empty, Text, text_eq, text_eq_iff, ◌==◌, arith, Bool-cases, inl, inr,
}
use sandbox_kit_spec.Version.Name.{valid_capability_name}
use sandbox_kit_spec.Packages.{Package, Tally, note, read_listings, no_tally, agreed, published}
use sandbox_kit_spec.Packages.Fold.{
  versions_of, note_all, note_listings, count_listings, read_listings-versions,
  read_listings-counts,
}

-- The version that is known is v.
abbrev pub is_at : Text → Option Text → Bool
is_at v none = false
is_at v (some w) = text_eq w v

abbrev pub all_at : Text → List Text → Bool
all_at v vs = all (λ w. text_eq w v) vs

-- Each listing has the name, at the version v in each of its records.
abbrev pub is_unanimous : Text → Text → Text → List (List Package) → Bool
is_unanimous ns n v ls =
    not (is_empty ls)
    && all (λ l. not (is_empty (versions_of ns n l)) && all_at v (versions_of ns n l)) ls

empty-at : (v w : Text) → is_empty v ≡ false → is_empty w ≡ true → text_eq w v ≡ false
unfolding text_eq
empty-at [] w h k = cc
empty-at (c ∷ v) [] h k = refl
empty-at (c ∷ v) (d ∷ w) h k = cc

module _ (v : Text) (stated : is_empty v ≡ false) where
  note-at :
      (first : Bool) (w x : Text) → text_eq (note first (some w) x) v ≡ (text_eq w v && text_eq x v)
  unfolding note
  note-at first w x = elim (Bool-cases (is_empty x)) [
    | inl e ↦ ground (arith, empty-at v x stated e, empty-at v [] stated refl)
    | inr e ↦ elim (Bool-cases (text_eq w x)) [
      | inl f ↦ ground (arith, ap (λ t. text_eq t v) ((text_eq_iff w x).0 f))
      | inr f ↦
          ground
            (arith, empty-at v [] stated refl, text_eq_iff w v, text_eq_iff x v, text_eq_iff w x)
    ]
  ]

  note_all-at :
      (first : Bool) (w : Text) (vs : List Text)
      → is_at v (note_all first (some w) vs) ≡ (text_eq w v && all_at v vs)
  unfolding note_all
  note_all-at first w [] = ground arith
  note_all-at first w (x ∷ vs) =
      ground (arith, note_all-at first (note first (some w) x) vs, note-at first w x)

  note_all-later : (vs : List Text) → is_at v (note_all false none vs) ≡ false
  unfolding note_all note
  note_all-later [] = refl
  note_all-later (x ∷ vs) =
      ground (arith, note_all-at false (note false none x) vs, empty-at v [] stated refl)

  note_all-first :
      (vs : List Text) → is_at v (note_all true none vs) ≡ (not (is_empty vs) && all_at v vs)
  unfolding note_all note
  note_all-first [] = refl
  note_all-first (x ∷ vs) = ground (
    arith,
    note_all-at true (note true none x) vs,
    empty-at v [] stated refl,
    empty-at v x stated,
  )

  note_listings-at :
      (ns n : Text) (known : Option Text) (ls : List (List Package))
      → is_at v (note_listings false ns n known ls)
        ≡ (is_at v known && all (λ l. all_at v (versions_of ns n l)) ls)
  unfolding note_listings
  note_listings-at ns n known [] = ground arith
  note_listings-at ns n none (l ∷ ls) = ground (
    arith,
    note_listings-at ns n (note_all false none (versions_of ns n l)) ls,
    note_all-later (versions_of ns n l),
  )
  note_listings-at ns n (some w) (l ∷ ls) = ground (
    arith,
    note_listings-at ns n (note_all false (some w) (versions_of ns n l)) ls,
    note_all-at false w (versions_of ns n l),
  )

  agreed-at : (known : Option Text) → is_at v (agreed known) ≡ is_at v known
  agreed-at none = refl
  agreed-at (some w) = ground (arith, empty-at v w stated)

abbrev named_in_all : Text → Text → List (List Package) → Bool
named_in_all ns n ls = all (λ l. not (is_empty (versions_of ns n l))) ls

count-bound : (ns n : Text) (ls : List (List Package)) → count_listings ns n ls ≤ length ls
unfolding count_listings
count-bound ns n [] = omega arith
count-bound ns n (l ∷ ls) = ground (arith, count-bound ns n ls)

count-all :
    (ns n : Text) (ls : List (List Package))
    → (count_listings ns n ls == length ls) ≡ named_in_all ns n ls
unfolding count_listings
count-all ns n [] = refl
count-all ns n (l ∷ ls) = ground (arith, count-all ns n ls, count-bound ns n ls)

split_all :
    (ns n v : Text) (ls : List (List Package))
    → (named_in_all ns n ls && all (λ l. all_at v (versions_of ns n l)) ls)
      ≡ all (λ l. not (is_empty (versions_of ns n l)) && all_at v (versions_of ns n l)) ls
split_all ns n v [] = refl
split_all ns n v (l ∷ ls) = ground (arith, split_all ns n v ls)

first_listing :
    (ns n v : Text) (ls : List (List Package))
    → is_empty v ≡ false
    → (named_in_all ns n ls && is_at v (note_listings true ns n none ls)) ≡ is_unanimous ns n v ls
unfolding note_listings
first_listing ns n v [] h = refl
first_listing ns n v (l ∷ ls) h = ground (
  arith,
  note_listings-at v h ns n (note_all true none (versions_of ns n l)) ls,
  note_all-first v h (versions_of ns n l),
  split_all ns n v ls,
)

published-at :
    (listings : ℕ) (t : Tally) (n v : Text)
    → is_empty v ≡ false
    → is_at v (published listings t n) ≡ ((t.counts n == listings) && is_at v (t.versions n))
published-at listings t n v h = elim (Bool-cases (t.counts n == listings)) [
  | inl e ↦ rw e (agreed-at v h (t.versions n))
  | inr e ↦ rw e refl
]

-- For a name of a package that is a valid capability name and a version that is not empty: the two
-- maps of DerivedProvides have the name published at the version if and only if there are listings,
-- each of them has the name, and every record of the name in any of them has that version.
pub published-is_unanimous :
    (ns n v : Text) (ls : List (List Package))
    → valid_capability_name n ≡ true
    → is_empty v ≡ false
    → is_at v (published (length ls) (read_listings true ns ls no_tally) n) ≡ is_unanimous ns n v ls
published-is_unanimous ns n v ls valid stated =
    published-at (length ls) (read_listings true ns ls no_tally) n v stated
    ∙ ap₂ ◌&&◌
        (ap (λ c. c == length ls)
            (read_listings-counts ns n valid true ls no_tally ∙ zero_plus (count_listings ns n ls))
          ∙ count-all ns n ls)
        (ap (is_at v) (read_listings-versions ns n valid true ls no_tally))
    ∙ first_listing ns n v ls stated
  where
    zero_plus : (k : ℕ) → 0 + k ≡ k
    zero_plus k = omega arith
