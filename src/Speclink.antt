-- ===== src/Speclink.antt =====
-- tck/speclink/speclink.go: where the specification's pages state a requirement. A text is a list of code
-- points. The pages, which a build embeds, are a parameter, and so are Go's tables of letters,
-- digits and lower case. A map is a list, the entry that was set last first. The index is made once.
pub mod Headings
pub mod Indexed
pub mod Linked
pub mod Resolved
mod Tests
use sandbox_kit_spec.Base.{
  ℕ, suc, Bool, true, false, not, ◌||◌, ◌&&◌, Option, none, some, List, [], ◌∷◌, ◌++◌, map, length,
  all, filter, is_empty, Text, codes, text_eq, has_prefix, has_suffix, cut_prefix, cut, cut_suffix,
  contains, split, trim_left, trim_space, has_text, ◌==◌, if◌then◌else◌,
}
use sandbox_kit_spec.Speclink.Headings.{
  Unicode, cut_at, before_cut, after_cut, heading_title, statement_id, section_number, slug,
}
use sandbox_kit_spec.Overlay.FilePath.{clean}

pub record Reference : Type 0 where
  pub requirement : Text
  pub page : Text
  pub anchor : Text
  pub url : Text

-- New: the ref of the version's own text.
unfoldable pub ref_of : Text → Text
unfolding text_eq has_prefix
ref_of version =
    if is_empty version || text_eq version (codes "dev")
    then codes "main"
    else if has_prefix (codes "v") version
    then version
    else codes "v" ++ version

abbrev pub repository : Text
repository = codes "https://github.com/docker/sandbox-kit-spec"

abbrev with_anchor : Text → Text → Text
with_anchor url [] = url
with_anchor url (c ∷ anchor) = url ++ (codes "#" ++ c ∷ anchor)

abbrev pub link : Text → Text → Text → Text
link ref page anchor =
    with_anchor (repository ++ (codes "/blob/" ++ (ref ++ (codes "/docs/spec/" ++ page)))) anchor

abbrev pub docs_page : Text → Text
docs_page page = codes "docs/spec/" ++ page

-- reference
abbrev pub reference : Text → Text → Text → Text → Reference
reference ref requirement page anchor = record {
  requirement = requirement;
  page = docs_page page;
  anchor = anchor;
  url = link ref page anchor;
}

-- The maps of a Resolver.
pub record PageIndex : Type 0 where
  pub statements : List (Text × Reference)
  pub sections : List (Text × Reference)
  pub pages : List Text

abbrev pub empty_index : PageIndex
empty_index = record { statements = []; sections = []; pages = [] }

abbrev pub section_key : Text → Text → Text
section_key page number = page ++ (codes " §" ++ number)

-- A heading line's section, where it has a number.
abbrev pub with_section : Text → Text → Text → Option Text → PageIndex → PageIndex
with_section ref page heading none i = i
with_section ref page heading (some number) i = record {
  statements = i.statements;
  sections =
      (section_key page number, reference ref (section_key page number) page heading) ∷ i.sections;
  pages = i.pages;
}

abbrev pub with_statement : Text → Text → Text → Option Text → PageIndex → PageIndex
with_statement ref page heading none i = i
with_statement ref page heading (some id) i = record {
  statements = (id, reference ref id page heading) ∷ i.statements;
  sections = i.sections;
  pages = i.pages;
}

-- indexPage, with the heading that the lines are under
abbrev pub index_line :
    Unicode
    → Text
    → Text
    → Text
    → Text
    → Option Text
    → PageIndex
    → (Text → PageIndex → PageIndex)
    → PageIndex
index_line u ref page heading line (some title) i rest =
    rest (slug u title) (with_section ref page (slug u title) (section_number u title) i)
index_line u ref page heading line none i rest =
    rest heading (with_statement ref page heading (statement_id line) i)

unfoldable pub index_lines : Unicode → Text → Text → List Text → Text → PageIndex → PageIndex
unfolding heading_title statement_id section_number slug
index_lines u ref page [] heading i = i
index_lines u ref page (line ∷ lines) heading i =
    index_line u ref page heading line (heading_title line) i (index_lines u ref page lines)

unfoldable pub index_page : Unicode → Text → Text → Text → PageIndex → PageIndex
unfolding index_lines split
index_page u ref page body i = index_lines u ref page (split 10 body) [] i

abbrev pub with_page : Text → PageIndex → PageIndex
with_page page i = record {
  statements = i.statements;
  sections = i.sections;
  pages = page ∷ i.pages;
}

-- index: the pages that the walk reads, in its order
unfoldable pub index_from : Unicode → Text → List (Text × Text) → PageIndex → PageIndex
unfolding index_page has_suffix
index_from u ref [] i = i
index_from u ref ((name, body) ∷ files) i =
    let indexed = index_from u ref files (index_page u ref name body (with_page name i)) in
    let skipped = index_from u ref files i in
    if has_suffix (codes ".md") name then indexed else skipped

unfoldable pub index : Unicode → Text → List (Text × Text) → PageIndex
unfolding index_from
index u ref files = index_from u ref files empty_index

-- splitRequirement
abbrev markdown_page : Text → Text
markdown_page doc = if has_suffix (codes ".md") doc then doc else doc ++ codes ".md"

abbrev split_statement : Text → Text → Text × Text
split_statement capability statement =
    if contains b'@' capability
    then (
      clean (codes "capabilities/com.docker.sandbox/" ++ (capability ++ codes ".md")),
      statement,
    )
    else ([], [])

abbrev split_parts : Text → Option (Text × Text) → Text × Text
split_parts requirement (some (doc, section)) = (markdown_page (trim_space doc), section)
split_parts requirement none =
    let parts = cut b'/' requirement in
    split_statement (before_cut requirement parts) (after_cut parts)

unfoldable pub split_requirement : Text → Text × Text
unfolding cut_at cut trim_space has_suffix contains clean
split_requirement requirement = split_parts requirement (cut_at (codes " §") requirement)

unfoldable pub entry_at : Text → List (Text × Reference) → Option Reference
unfolding text_eq
entry_at key [] = none
entry_at key ((k, ref) ∷ entries) =
    let later = entry_at key entries in if text_eq key k then some ref else later

-- The end of Resolve: the section's heading under the requirement's own name, or the page's top.
abbrev pub of_section : Text → Text → Text → Option Reference → Option Reference
of_section ref requirement page (some found) = some (record {
  requirement = requirement;
  page = found.page;
  anchor = found.anchor;
  url = found.url;
})
of_section ref requirement page none = some (reference ref requirement page [])

abbrev pub section_of : PageIndex → Text → Text → Option Reference
section_of i page [] = none
section_of i page (c ∷ section) = entry_at (section_key page (c ∷ section)) i.sections

unfoldable pub resolve_page : Text → PageIndex → Text → Text → Text → Option Reference
unfolding entry_at has_text cut
resolve_page ref i requirement page rest =
    if is_empty page || not (has_text i.pages page)
    then none
    else of_section ref requirement page (section_of i page (before_cut rest (cut b'/' rest)))

abbrev pub or_page : Option Reference → Option Reference → Option Reference
or_page (some found) page = some found
or_page none page = page

-- Resolve
abbrev pub resolve_trimmed : Text → PageIndex → Text → Option Reference
resolve_trimmed ref i [] = none
resolve_trimmed ref i (c ∷ requirement) = or_page (entry_at (c ∷ requirement) i.statements) (
    resolve_page ref i (c ∷ requirement) (split_requirement (c ∷ requirement)).0
      (split_requirement (c ∷ requirement)).1)

unfoldable pub resolve : Text → PageIndex → Text → Option Reference
unfolding entry_at resolve_page split_requirement trim_space
resolve ref i requirement = resolve_trimmed ref i (trim_space requirement)

-- URL
abbrev url_of : Option Reference → Text
url_of none = []
url_of (some found) = found.url

unfoldable pub url : Text → PageIndex → Text → Text
unfolding resolve
url ref i requirement = url_of (resolve ref i requirement)
