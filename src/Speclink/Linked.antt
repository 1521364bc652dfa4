-- ===== src/Speclink/Linked.antt =====
-- tck/speclink/speclink.go: where a requirement leads: the line of a page that states it, the heading of its
-- section, or the top of its page.
use sandbox_kit_spec.Base.{
  ◌≡◌, refl, sym, ap, ◌∙◌, Bool, true, false, Option, none, some, List, [], ◌∷◌, ◌++◌, append-nil,
  append_assoc, All, Text, codes, has_suffix, split, if◌then◌else◌,
}
use mathlib.Core.List.{Memᴰ}
use sandbox_kit_spec.Speclink.{
  Reference, PageIndex, link, reference, section_key, with_section, with_statement, with_page,
  index_line, index_lines, index_page, index_from, index, empty_index,
}
use sandbox_kit_spec.Speclink.Headings.{Unicode, heading_title, section_number, slug, statement_id}

abbrev fragment : Text → Text
fragment [] = []
fragment (c ∷ anchor) = codes "#" ++ c ∷ anchor

-- The page of a reference, and its URL: the page at the revision, and the anchor where there is one.
abbrev pub IsAddressed : Text → Text → Reference → Type 0
IsAddressed ref page found =
    (found.page ≡ codes "docs/spec/" ++ page)
    × (found.url
        ≡ (codes "https://github.com/docker/sandbox-kit-spec/blob/"
            ++ (ref ++ (codes "/docs/spec/" ++ page)))
          ++ fragment found.anchor)

pub reference-IsAddressed :
    (ref requirement page anchor : Text)
    → IsAddressed ref page (reference ref requirement page anchor)
reference-IsAddressed ref requirement page [] = (refl, sym (append-nil (link ref page [])))
reference-IsAddressed ref requirement page (c ∷ anchor) = (refl, refl)

-- The slug of the last heading of the lines.
abbrev heading_after : Unicode → Text → Option Text → Text
heading_after u heading none = heading
heading_after u heading (some title) = slug u title

unfoldable pub last_heading : Unicode → Text → List Text → Text
unfolding heading_title slug
last_heading u heading [] = heading
last_heading u heading (line ∷ lines) =
    last_heading u (heading_after u heading (heading_title line)) lines

last_heading-append :
    (u : Unicode) (heading line : Text) (before : List Text)
    → last_heading u heading (before ++ line ∷ [])
      ≡ heading_after u (last_heading u heading before) (heading_title line)
unfolding last_heading
last_heading-append u heading line [] = refl
last_heading-append u heading line (b ∷ before) =
    last_heading-append u (heading_after u heading (heading_title b)) line before

-- A line states the id, and the anchor is that of the last heading before it.
abbrev pub IsStatedAt : Unicode → List Text → Text → Text → Type 0
IsStatedAt u lines id anchor =
    (before : List Text) × (line : Text) × (after : List Text) × (lines ≡ before ++ line ∷ after)
    × (heading_title line ≡ none)
    × (statement_id line ≡ some id)
    × (anchor ≡ last_heading u [] before)

-- A line is a heading with the section number, and the anchor is its own.
abbrev pub IsHeadedAt : Unicode → List Text → Text → Text → Type 0
IsHeadedAt u lines number anchor =
    (before : List Text) × (line : Text) × (after : List Text) × (title : Text) × (lines
      ≡ before ++ line ∷ after)
    × (heading_title line ≡ some title)
    × (section_number u title ≡ some number)
    × (anchor ≡ slug u title)

-- A Markdown file of the pages.
abbrev pub IsPage : List (Text × Text) → Text → Text → Type 0
IsPage files page body = Memᴰ (page, body) files × (has_suffix (codes ".md") page ≡ true)

abbrev pub IsStatement : Unicode → Text → List (Text × Text) → Text → Reference → Type 0
IsStatement u ref files key found =
    (key ≡ found.requirement)
    × ((page : Text) × (body : Text) × IsPage files page body
        × IsAddressed ref page found
        × IsStatedAt u (split 10 body) key found.anchor)

abbrev pub IsSection : Unicode → Text → List (Text × Text) → Text → Reference → Type 0
IsSection u ref files key found =
    (page : Text) × (body : Text) × IsPage files page body
    × IsAddressed ref page found
    × ((number : Text) × (section_key page number ≡ key)
        × IsHeadedAt u (split 10 body) number found.anchor)

abbrev pub IsListed : List (Text × Text) → Text → Type 0
IsListed files page = (body : Text) × IsPage files page body

abbrev pub IsIndexed : Unicode → Text → List (Text × Text) → PageIndex → Type 0
IsIndexed u ref files i =
    All (λ e. IsStatement u ref files e.0 e.1) i.statements
    × All (λ e. IsSection u ref files e.0 e.1) i.sections
    × All (IsListed files) i.pages

module _ (u : Unicode) (ref : Text) (files : List (Text × Text)) where
  module _ (page body : Text) (listed : IsPage files page body) where
    with_section-IsIndexed :
        (before : List Text) (line : Text) (after : List Text) (title : Text) (number : Option Text)
        (i : PageIndex)
        → split 10 body ≡ before ++ line ∷ after
        → heading_title line ≡ some title
        → section_number u title ≡ number
        → IsIndexed u ref files i
        → IsIndexed u ref files (with_section ref page (slug u title) number i)
    with_section-IsIndexed before line after title none i cut_at headed numbered k = k
    with_section-IsIndexed before line after title (some number) i cut_at headed numbered k =
        let (statements, sections, pages) = k in
        (
          statements,
          (
            (
              page,
              body,
              listed,
              reference-IsAddressed ref (section_key page number) page (slug u title),
              (number, refl, (before, line, after, title, cut_at, headed, numbered, refl)),
            ),
            sections,
          ),
          pages,
        )

    with_statement-IsIndexed :
        (before : List Text) (line : Text) (after : List Text) (heading : Text) (id : Option Text)
        (i : PageIndex)
        → split 10 body ≡ before ++ line ∷ after
        → heading_title line ≡ none
        → statement_id line ≡ id
        → heading ≡ last_heading u [] before
        → IsIndexed u ref files i
        → IsIndexed u ref files (with_statement ref page heading id i)
    with_statement-IsIndexed before line after heading none i cut_at plain stated under k = k
    with_statement-IsIndexed before line after heading (some id) i cut_at plain stated under k =
        let (statements, sections, pages) = k in
        (
          (
            (
              refl,
              (
                page,
                body,
                listed,
                reference-IsAddressed ref id page heading,
                (before, line, after, cut_at, plain, stated, under),
              ),
            ),
            statements,
          ),
          sections,
          pages,
        )

    index_lines-IsIndexed :
        (lines before : List Text) (heading : Text) (i : PageIndex)
        → split 10 body ≡ before ++ lines
        → heading ≡ last_heading u [] before
        → IsIndexed u ref files i
        → IsIndexed u ref files (index_lines u ref page lines heading i)
    unfolding index_lines
    index_lines-IsIndexed [] before heading i cut_at under k = k
    index_lines-IsIndexed (line ∷ lines) before heading i cut_at under k =
        by_line (heading_title line) refl (λ h j same kj.
          index_lines-IsIndexed lines (before ++ line ∷ []) h j
            (cut_at ∙ sym (append_assoc before (line ∷ []) lines)) same kj)
      where
        by_line :
            (t : Option Text)
            → heading_title line ≡ t
            → ((h : Text) (j : PageIndex)
                → h ≡ last_heading u [] (before ++ line ∷ [])
                → IsIndexed u ref files j
                → IsIndexed u ref files (index_lines u ref page lines h j))
            → IsIndexed u ref files
                (index_line u ref page heading line t i (index_lines u ref page lines))
        by_line (some title) e rest =
            rest (slug u title) (with_section ref page (slug u title) (section_number u title) i)
              (sym (
                last_heading-append u [] line before
                ∙ ap (heading_after u (last_heading u [] before)) e))
              (with_section-IsIndexed before line lines title (section_number u title) i cut_at e
                refl k)
        by_line none e rest =
            rest heading (with_statement ref page heading (statement_id line) i)
              (under
                ∙ sym (
                    last_heading-append u [] line before
                    ∙ ap (heading_after u (last_heading u [] before)) e))
              (with_statement-IsIndexed before line lines heading (statement_id line) i cut_at e
                refl under k)

  pub index_from-IsIndexed :
      (rest : List (Text × Text)) (i : PageIndex)
      → ((f : Text × Text) → Memᴰ f rest → Memᴰ f files)
      → IsIndexed u ref files i
      → IsIndexed u ref files (index_from u ref rest i)
  unfolding index_from index_page last_heading
  index_from-IsIndexed [] i within k = k
  index_from-IsIndexed ((name, body) ∷ rest) i within k =
      by_suffix (has_suffix (codes ".md") name) refl
        (λ j kj. index_from-IsIndexed rest j (λ f m. within f (Memᴰ.tail m)) kj)
    where
      by_suffix :
          (b : Bool)
          → has_suffix (codes ".md") name ≡ b
          → ((j : PageIndex)
              → IsIndexed u ref files j
              → IsIndexed u ref files (index_from u ref rest j))
          → IsIndexed u ref files (
              if b
              then index_from u ref rest (index_page u ref name body (with_page name i))
              else index_from u ref rest i)
      by_suffix true e later =
          let listed : IsPage files name body = (within (name, body) (Memᴰ.head refl), e) in
          later (index_page u ref name body (with_page name i)) (
            index_lines-IsIndexed name body listed (split 10 body) [] [] (with_page name i) refl
              refl (k.0, k.1, ((body, listed), k.2)))
      by_suffix false e later = later i k

  pub index-IsIndexed : IsIndexed u ref files (index u ref files)
  unfolding index
  index-IsIndexed = index_from-IsIndexed files empty_index (λ f m. m) (_, _, _)
