-- ===== src/Packages.antt =====
-- spec/packages.go: the provides entries that the package databases of a kit's platforms agree on.
pub mod Fold
pub mod Unanimous
pub mod Tests
use sandbox_kit_spec.Base.{
  ℕ, zero, suc, Bool, true, false, not, ◌&&◌, ◌||◌, Option, none, some, List, [], ◌∷◌, ◌++◌, length,
  is_empty, Text, codes, text_eq, has_text, sort_texts, ◌==◌, if◌then◌else◌,
}
use sandbox_kit_spec.Version.Name.{valid_capability_name}
use sandbox_kit_spec.Version.Package.{package_version}

-- Package
pub record Package : Type 0 where
  pub name : Text
  pub version : Text

-- The two maps, `versions` and `counts`, with their keys. The empty text marks a name that is known
-- to disagree with itself.
pub record Tally : Type 0 where
  pub names : List Text
  pub versions : Text → Option Text
  pub counts : Text → ℕ

abbrev pub conflicted : Text
conflicted = []

abbrev pub key_of : Text → Package → Text
key_of ns p = ns ++ (b'/' ∷ p.name)

-- What `versions` has of a name after one record of it.
abbrev pub decide : Bool → Option Text → Text → Text
decide first none version = if first then version else conflicted
decide first (some known) version = if text_eq known version then known else conflicted

unfoldable pub note : Bool → Option Text → Text → Text
unfolding text_eq
note first known version = if is_empty version then conflicted else decide first known version

abbrev pub put_version : Text → Text → (Text → Option Text) → Text → Option Text
put_version name v versions n = if text_eq name n then some v else versions n

abbrev pub count_up : Text → (Text → ℕ) → Text → ℕ
count_up name counts n = if text_eq name n then suc (counts n) else counts n

-- One record of a valid name.
abbrev pub record_name : Bool → Bool → Text → Text → Tally → Tally
record_name first seen name version t = record {
  names = if has_text t.names name then t.names else name ∷ t.names;
  versions = put_version name (note first (t.versions name) version) t.versions;
  counts = if seen then t.counts else count_up name t.counts;
}

unfoldable pub read_listing : Bool → Text → List Text → List Package → Tally → Tally
unfolding valid_capability_name package_version has_text note text_eq
read_listing first ns seen [] t = t
read_listing first ns seen (p ∷ ps) t =
    let name = key_of ns p in
    let valid = valid_capability_name name in
    let next = record_name first (has_text seen name) name (package_version p.version) t in
    read_listing first ns (if valid then name ∷ seen else seen) ps (if valid then next else t)

unfoldable pub read_listings : Bool → Text → List (List Package) → Tally → Tally
unfolding read_listing
read_listings first ns [] t = t
read_listings first ns (l ∷ ls) t = read_listings false ns ls (read_listing first ns [] l t)

abbrev pub no_tally : Tally
no_tally = record { names = []; versions = λ n. none; counts = λ n. 0 }

abbrev pub agreed : Option Text → Option Text
agreed none = none
agreed (some v) = if is_empty v then none else some v

-- The version at which a name is published, if it is.
abbrev pub published : ℕ → Tally → Text → Option Text
published listings t name = if t.counts name == listings then agreed (t.versions name) else none

abbrev pub render : Text → Option Text → List Text
render name none = []
render name (some v) = (name ++ (b'@' ∷ v)) ∷ []

unfoldable pub rendered : ℕ → Tally → List Text → List Text
rendered listings t [] = []
rendered listings t (n ∷ ns) = render n (published listings t n) ++ rendered listings t ns

unfoldable pub derived_provides : Text → List (List Package) → List Text
unfolding read_listings rendered sort_texts
derived_provides ns listings =
    let t = read_listings true ns listings no_tally in
    sort_texts (rendered (length listings) t t.names)
