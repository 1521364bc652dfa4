-- ===== src/Speclink/Resolved.antt =====
-- tck/speclink/speclink.go: what Resolve answers, in the index of any pages.
use sandbox_kit_spec.Base.{
  ◌≡◌, ◌⊎◌, inl, inr, refl, sym, ap, ◌∙◌, arith, subst, Bool, true, false, not, ◌&&◌, ◌||◌, Option,
  none, some, some-injective, List, [], ◌∷◌, All, is_empty, Text, text_eq, text_eq_iff, has_text,
  cut, split, trim_space, if◌then◌else◌,
}
use sandbox_kit_spec.Speclink.{
  Reference, PageIndex, section_key, index, entry_at, of_section, section_of, resolve_page, or_page,
  resolve_trimmed, resolve, split_requirement,
}
use sandbox_kit_spec.Speclink.Headings.{Unicode, before_cut}
use sandbox_kit_spec.Speclink.Indexed.{is_stated, is_headed, is_page, is_some, has-index}
use sandbox_kit_spec.Speclink.Linked.{
  IsAddressed, IsStatedAt, IsHeadedAt, IsPage, IsStatement, IsSection, IsListed, IsIndexed,
  reference-IsAddressed, index-IsIndexed,
}

-- The page and the section that a requirement's id names.
abbrev page_of : Text → Text
page_of requirement = (split_requirement requirement).0

abbrev section_part : Text → Text
section_part requirement =
    before_cut (split_requirement requirement).1 (cut b'/' (split_requirement requirement).1)

-- Some page states the requirement, has a heading of the section that it names, or is the one that it
-- names.
abbrev states : List (Text × Text) → Text → Bool
states files requirement = is_stated files requirement

abbrev has_section : Unicode → List (Text × Text) → Text → Bool
has_section u files requirement =
    not (is_empty (section_part requirement))
    && is_headed u files (section_key (page_of requirement) (section_part requirement))

abbrev has_page : List (Text × Text) → Text → Bool
has_page files requirement =
    not (is_empty (page_of requirement)) && is_page files (page_of requirement)

-- A line that states the requirement, else a heading of the section that it names, else the top of the
-- page that it names.
abbrev IsSpot : Unicode → List (Text × Text) → Text → Text → List Text → Text → Type 0
IsSpot u files requirement page lines anchor =
    ((states files requirement ≡ true) × IsStatedAt u lines requirement anchor)
    ⊎ ((states files requirement ≡ false)
        × (((has_section u files requirement ≡ true)
              × ((number : Text) × (section_key page number
                    ≡ section_key (page_of requirement) (section_part requirement))
                  × IsHeadedAt u lines number anchor))
            ⊎ ((has_section u files requirement ≡ false)
                × (page ≡ page_of requirement)
                × (anchor ≡ []))))

abbrev pub IsAnswer : Unicode → Text → List (Text × Text) → Text → Reference → Type 0
IsAnswer u ref files requirement found =
    (found.requirement ≡ requirement)
    × ((page : Text) × (body : Text) × IsPage files page body
        × IsAddressed ref page found
        × IsSpot u files requirement page (split 10 body) found.anchor)

-- There is no answer for an empty requirement, and for one that no page states and that names none.
abbrev pub IsAnswered : Unicode → Text → List (Text × Text) → Text → Option Reference → Type 0
IsAnswered u ref files requirement none =
    (is_empty requirement || (not (states files requirement) && not (has_page files requirement)))
    ≡ true
IsAnswered u ref files requirement (some found) = IsAnswer u ref files requirement found

-- What holds of each entry of a map holds of the one at a key.
entry_at-All :
    (P : Text → Reference → Type 0) (key : Text) (es : List (Text × Reference)) (found : Reference)
    → All (λ e. P e.0 e.1) es
    → entry_at key es ≡ some found
    → P key found
unfolding entry_at
entry_at-All P key [] found h e = cc
entry_at-All P key ((k, f) ∷ es) found (entry, h) e =
    by_key (text_eq key k) refl e (entry_at-All P key es found h)
  where
    by_key :
        (b : Bool)
        → text_eq key k ≡ b
        → (if b then some f else entry_at key es) ≡ some found
        → (entry_at key es ≡ some found → P key found)
        → P key found
    by_key true same d rest =
        subst (λ g. P key g) (some-injective f found d)
          (subst (λ t. P t f) (sym ((text_eq_iff key k).0 same)) entry)
    by_key false same d rest = rest d

module _ (u : Unicode) (ref : Text) (files : List (Text × Text)) where
  section_of-IsSection :
      (page section : Text) (i : PageIndex) (found : Reference)
      → IsIndexed u ref files i
      → section_of i page section ≡ some found
      → IsSection u ref files (section_key page section) found
  section_of-IsSection page [] i found k e = cc
  section_of-IsSection page (c ∷ section) i found k e =
      entry_at-All (IsSection u ref files) (section_key page (c ∷ section)) i.sections found k.1 e

  has_text-IsListed :
      (page : Text) (pages : List Text)
      → All (IsListed files) pages
      → has_text pages page ≡ true
      → IsListed files page
  unfolding has_text
  has_text-IsListed page [] h e = cc
  has_text-IsListed page (p ∷ pages) (listed, h) e =
      by_test (text_eq p page) refl e (has_text-IsListed page pages h)
    where
      by_test :
          (b : Bool)
          → text_eq p page ≡ b
          → (b || has_text pages page) ≡ true
          → (has_text pages page ≡ true → IsListed files page)
          → IsListed files page
      by_test true same d rest = subst (λ t. IsListed files t) ((text_eq_iff p page).0 same) listed
      by_test false same d rest = rest d

  is_some-section_of :
      (i : PageIndex) (page section : Text)
      → is_some (section_of i page section)
        ≡ (not (is_empty section) && is_some (entry_at (section_key page section) i.sections))
  is_some-section_of i page [] = refl
  is_some-section_of i page (c ∷ section) = refl

  resolve_page-IsAnswered :
      (i : PageIndex) (requirement : Text)
      → IsIndexed u ref files i
      → states files requirement ≡ false
      → is_some (section_of i (page_of requirement) (section_part requirement))
        ≡ has_section u files requirement
      → has_text i.pages (page_of requirement) ≡ is_page files (page_of requirement)
      → IsAnswered u ref files requirement (
          resolve_page ref i requirement
            (split_requirement requirement).0
            (split_requirement requirement).1)
  unfolding resolve_page
  resolve_page-IsAnswered i requirement k unstated sections pages =
      by_page (is_empty page) (has_text i.pages page) refl refl
        (section_of i page (section_part requirement)) sections
        (λ found e. section_of-IsSection page (section_part requirement) i found k e)
    where
      page : Text
      page = page_of requirement

      no_page :
          (blank known : Bool)
          → is_empty page ≡ blank
          → is_page files page ≡ known
          → (blank || not known) ≡ true
          → (is_empty requirement
              || (not (states files requirement) && not (has_page files requirement)))
            ≡ true
      no_page blank known e l h = ground arith

      by_page :
          (blank known : Bool)
          → is_empty page ≡ blank
          → has_text i.pages page ≡ known
          → (section : Option Reference) → is_some section ≡ has_section u files requirement
          → ((found : Reference)
              → section ≡ some found
              → IsSection u ref files (section_key page (section_part requirement)) found)
          → IsAnswered u ref files requirement
              (if blank || not known then none else of_section ref requirement page section)
      by_page true known b e section n h = no_page true known b (sym pages ∙ e) refl
      by_page false false b e section n h = no_page false false b (sym pages ∙ e) refl
      by_page false true b e none n h =
          let (body, listed) = has_text-IsListed page i.pages k.2 e in
          (
            refl,
            (
              page,
              body,
              listed,
              reference-IsAddressed ref requirement page [],
              inr (unstated, inr (sym n, refl, refl)),
            ),
          )
      by_page false true b e (some found) n h =
          let (at, body, listed, addressed, headed) = h found refl in
          (refl, (at, body, listed, addressed, inr (unstated, inl (sym n, headed))))

  resolve_trimmed-IsAnswered :
      (i : PageIndex) (requirement : Text)
      → IsIndexed u ref files i
      → is_some (entry_at requirement i.statements) ≡ states files requirement
      → is_some (section_of i (page_of requirement) (section_part requirement))
        ≡ has_section u files requirement
      → has_text i.pages (page_of requirement) ≡ is_page files (page_of requirement)
      → IsAnswered u ref files requirement (resolve_trimmed ref i requirement)
  resolve_trimmed-IsAnswered i [] k stated sections pages = refl
  resolve_trimmed-IsAnswered i (c ∷ requirement) k stated sections pages =
      by_statement (entry_at (c ∷ requirement) i.statements) refl stated
        (resolve_page ref i (c ∷ requirement) (split_requirement (c ∷ requirement)).0
          (split_requirement (c ∷ requirement)).1)
        (λ unstated. resolve_page-IsAnswered i (c ∷ requirement) k unstated sections pages)
    where
      by_statement :
          (statement : Option Reference)
          → entry_at (c ∷ requirement) i.statements ≡ statement
          → is_some statement ≡ states files (c ∷ requirement)
          → (page : Option Reference)
          → (states files (c ∷ requirement) ≡ false → IsAnswered u ref files (c ∷ requirement) page)
          → IsAnswered u ref files (c ∷ requirement) (or_page statement page)
      by_statement none e n page h = h (sym n)
      by_statement (some found) e n page h =
          let (same, (at, body, listed, addressed, line)) =
            entry_at-All (IsStatement u ref files) (c ∷ requirement) i.statements found k.0 e in
          (sym same, (at, body, listed, addressed, inl (sym n, line)))

-- A requirement that a page states resolves to a line that states it, with the anchor of the last heading
-- before it. Else one that names an indexed page resolves to a heading of the section that it names, where
-- there is one, and else to the top of that page; any other resolves to nothing. An answer has the
-- requirement's own name, is on an indexed Markdown page, and its URL is that of the page at the
-- revision, with the anchor where there is one.
pub resolve-IsAnswered :
    (u : Unicode) (ref : Text) (files : List (Text × Text)) (requirement : Text)
    → IsAnswered u ref files (trim_space requirement) (resolve ref (index u ref files) requirement)
unfolding resolve
resolve-IsAnswered u ref files requirement =
    let id = trim_space requirement in
    let known =
      has-index u ref id (section_key (page_of id) (section_part id)) (page_of id) files in
    resolve_trimmed-IsAnswered u ref files (index u ref files) id (index-IsIndexed u ref files)
      (ap (λ h. h.0) known)
      (is_some-section_of u ref files (index u ref files) (page_of id) (section_part id)
        ∙ ap (λ h. not (is_empty (section_part id)) && h.1.0) known)
      (ap (λ h. h.1.1) known)
