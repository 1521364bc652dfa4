-- ===== src/Speclink/Indexed.antt =====
-- tck/speclink/speclink.go: what the index has an entry for: each statement and section of a Markdown page.
use sandbox_kit_spec.Base.{
  ◌≡◌, refl, ap, ap₂, ◌∙◌, Bool, true, false, ◌&&◌, ◌||◌, Option, none, some, List, [], ◌∷◌, any,
  Text, codes, text_eq, has_text, has_suffix, split, if◌then◌else◌,
}
use sandbox_kit_spec.Speclink.{
  Reference, PageIndex, empty_index, section_key, with_section, with_statement, with_page,
  reference, index_line, index_lines, index_page, index_from, index, entry_at,
}
use sandbox_kit_spec.Speclink.Headings.{Unicode, heading_title, section_number, slug, statement_id}

-- A line that is no heading states the id.
abbrev is_id : Text → Option Text → Bool
is_id id none = false
is_id id (some stated) = text_eq id stated

abbrev states : Text → Option Text → Option Text → Bool
states id none stated = is_id id stated
states id (some title) stated = false

abbrev line_states : Text → Text → Bool
line_states id line = states id (heading_title line) (statement_id line)

-- A line of a page is a heading of the section.
abbrev is_number : Text → Text → Option Text → Bool
is_number key page none = false
is_number key page (some number) = text_eq key (section_key page number)

abbrev heads : Unicode → Text → Text → Option Text → Bool
heads u key page none = false
heads u key page (some title) = is_number key page (section_number u title)

abbrev line_heads : Unicode → Text → Text → Text → Bool
line_heads u key page line = heads u key page (heading_title line)

-- Some Markdown page states the id, has a heading of the section, or has the name.
abbrev pub is_stated : List (Text × Text) → Text → Bool
is_stated files id =
    any (λ f. has_suffix (codes ".md") f.0 && any (line_states id) (split 10 f.1)) files

abbrev pub is_headed : Unicode → List (Text × Text) → Text → Bool
is_headed u files key =
    any (λ f. has_suffix (codes ".md") f.0 && any (line_heads u key f.0) (split 10 f.1)) files

abbrev pub is_page : List (Text × Text) → Text → Bool
is_page files page = any (λ f. has_suffix (codes ".md") f.0 && text_eq f.0 page) files

abbrev pub is_some : Option Reference → Bool
is_some none = false
is_some (some found) = true

-- An entry in front of the others.
entry-in_front :
    (later_lines same : Bool) (found : Reference) (later : Option Reference)
    → (later_lines || is_some (if same then some found else later))
      ≡ ((same || later_lines) || is_some later)
entry-in_front true true found later = refl
entry-in_front true false found later = refl
entry-in_front false true found later = refl
entry-in_front false false found later = refl

-- What an index has of an id, of a section and of a page.
abbrev Has : Type 0
Has = Bool × (Bool × Bool)

abbrev pub has : Text → Text → Text → PageIndex → Has
has id key name i =
    (is_some (entry_at id i.statements), (is_some (entry_at key i.sections), has_text i.pages name))

abbrev or_has : Bool → Bool → Has → Has
or_has stated headed (a, (b, c)) = (stated || a, (headed || b, c))

module _ (u : Unicode) (ref id key name : Text) where
  has-index_lines :
      (page : Text) (lines : List Text) (heading : Text) (i : PageIndex)
      → has id key name (index_lines u ref page lines heading i)
        ≡ or_has
            (any (line_states id) lines)
            (any (line_heads u key page) lines)
            (has id key name i)
  unfolding index_lines entry_at
  has-index_lines page [] heading i = refl
  has-index_lines page (line ∷ lines) heading i =
      by_line (heading_title line) (λ h j. has-index_lines page lines h j)
    where
      stated : Bool
      stated = any (line_states id) lines

      headed : Bool
      headed = any (line_heads u key page) lines

      by_number :
          (number : Option Text) (anchor : Text)
          → or_has stated headed (has id key name (with_section ref page anchor number i))
            ≡ or_has stated (is_number key page number || headed) (has id key name i)
      by_number none anchor = refl
      by_number (some number) anchor =
          ap (λ b. (stated || is_some (entry_at id i.statements), (b, has_text i.pages name)))
            (entry-in_front headed (text_eq key (section_key page number))
              (reference ref (section_key page number) page anchor) (entry_at key i.sections))

      by_id :
          (found : Option Text)
          → or_has stated headed (has id key name (with_statement ref page heading found i))
            ≡ or_has (is_id id found || stated) headed (has id key name i)
      by_id none = refl
      by_id (some found) =
          ap (λ b. (b, (headed || is_some (entry_at key i.sections), has_text i.pages name)))
            (entry-in_front stated (text_eq id found) (reference ref found page heading)
              (entry_at id i.statements))

      by_line :
          (t : Option Text)
          → ((h : Text) (j : PageIndex)
              → has id key name (index_lines u ref page lines h j)
                ≡ or_has stated headed (has id key name j))
          → has id key name (index_line u ref page heading line t i (index_lines u ref page lines))
            ≡ or_has
                (states id t (statement_id line) || stated)
                (heads u key page t || headed)
                (has id key name i)
      by_line (some title) rest =
          rest (slug u title) (with_section ref page (slug u title) (section_number u title) i)
          ∙ by_number (section_number u title) (slug u title)
      by_line none rest =
          rest heading (with_statement ref page heading (statement_id line) i)
          ∙ by_id (statement_id line)

  has-index_from :
      (files : List (Text × Text)) (i : PageIndex)
      → has id key name (index_from u ref files i) ≡ (
        is_stated files id || is_some (entry_at id i.statements),
        (
          is_headed u files key || is_some (entry_at key i.sections),
          is_page files name || has_text i.pages name,
        ),
      )
  unfolding index_from index_page has_text
  has-index_from [] i = refl
  has-index_from ((page, body) ∷ files) i =
      by_suffix (has_suffix (codes ".md") page) (has-index_from files)
    where
      both : (a b c : Bool) → (a || (b || c)) ≡ ((b || a) || c)
      both true true c = refl
      both true false c = refl
      both false true c = refl
      both false false c = refl

      indexed : PageIndex
      indexed = index_page u ref page body (with_page page i)

      stated : Bool
      stated = any (line_states id) (split 10 body)

      headed : Bool
      headed = any (line_heads u key page) (split 10 body)

      by_suffix :
          (b : Bool)
          → ((j : PageIndex)
              → has id key name (index_from u ref files j) ≡ (
                is_stated files id || is_some (entry_at id j.statements),
                (
                  is_headed u files key || is_some (entry_at key j.sections),
                  is_page files name || has_text j.pages name,
                ),
              ))
          → has id key name (if b then index_from u ref files indexed else index_from u ref files i)
            ≡ (
              ((b && stated) || is_stated files id) || is_some (entry_at id i.statements),
              (
                ((b && headed) || is_headed u files key) || is_some (entry_at key i.sections),
                ((b && text_eq page name) || is_page files name) || has_text i.pages name,
              ),
            )
      by_suffix false rest = rest i
      by_suffix true rest =
          rest indexed
          ∙ ap
              (λ h. (
                is_stated files id || h.0,
                (is_headed u files key || h.1.0, is_page files name || h.1.1),
              ))
              (has-index_lines page (split 10 body) [] (with_page page i))
          ∙ ap₂ {C = Has} (λ a h. (a, h))
              (both (is_stated files id) stated (is_some (entry_at id i.statements)))
              (ap₂ {C = Bool × Bool} (λ b c. (b, c))
                (both (is_headed u files key) headed (is_some (entry_at key i.sections)))
                (both (is_page files name) (text_eq page name) (has_text i.pages name)))

  -- The index of the pages has a statement, a section or a page exactly when a page has it.
  pub has-index :
      (files : List (Text × Text))
      → has id key name (index u ref files)
        ≡ (is_stated files id, (is_headed u files key, is_page files name))
  unfolding index entry_at has_text
  has-index files =
      has-index_from files empty_index
      ∙ ap₂ {C = Has} (λ a h. (a, h)) (no_more (is_stated files id))
          (ap₂ {C = Bool × Bool} (λ b c. (b, c)) (no_more (is_headed u files key))
            (no_more (is_page files name)))
    where
      no_more : (b : Bool) → (b || false) ≡ b
      no_more true = refl
      no_more false = refl
