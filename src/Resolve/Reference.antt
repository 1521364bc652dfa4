-- ===== src/Resolve/Reference.antt =====
-- VersionFromReference and EffectiveProvideVersion of resolve/resolve.go.
use sandbox_kit_spec.Base.{
  ℕ, ◌+◌, ◌-◌, ◌*◌, Bool, true, false, ◌&&◌, Option, none, some, List, [], ◌∷◌, Text, codes,
  text_eq, cut, cut_prefix, cut_last, contains, split, leb, ◌==◌, if◌then◌else◌,
}
use sandbox_kit_spec.Version.Tag.{tag_version}
use sandbox_kit_spec.Resolve.Kit.{Descriptor}

-- url.QueryUnescape: "%XX" is the byte XX and "+" is a space; `none` is an error. A byte above 0x7f
-- is kept as one code point.
abbrev hex_value : ℕ → Option ℕ
hex_value c =
    if leb b'0' c && leb c b'9'
    then some (c - b'0')
    else if leb b'a' c && leb c b'f'
    then some (c - b'a' + 10)
    else if leb b'A' c && leb c b'F'
    then some (c - b'A' + 10)
    else none

abbrev put_byte : Option ℕ → Option ℕ → Option Text → Option Text
put_byte (some high) (some low) (some rest) = some ((high * 16 + low) ∷ rest)
put_byte _ _ _ = none

abbrev put : ℕ → Option Text → Option Text
put c none = none
put c (some rest) = some (c ∷ rest)

abbrev no_escape : ℕ → Option Text → Option Text
no_escape c rest = if c == b'%' then none else put (if c == b'+' then b' ' else c) rest

unfoldable pub query_unescape : Text → Option Text
query_unescape [] = some []
query_unescape (c ∷ h ∷ l ∷ s) =
    let escaped = put_byte (hex_value h) (hex_value l) (query_unescape s) in
    let plain = no_escape c (query_unescape (h ∷ l ∷ s)) in if c == b'%' then escaped else plain
query_unescape (c ∷ s) = no_escape c (query_unescape s)

abbrev key_of : Text → Option (Text × Text) → Text
key_of pair none = pair
key_of pair (some (key, value)) = key

abbrev value_of : Option (Text × Text) → Text
value_of none = []
value_of (some (key, value)) = value

-- A pair of the query: `none` where an escape is wrong.
abbrev pair_of : Option Text → Option Text → Option (Text × Text)
pair_of (some key) (some value) = some (key, value)
pair_of _ _ = none

abbrev read_pair : Text → Option (Text × Text)
read_pair pair =
    let parts = cut b'=' pair in
    pair_of (query_unescape (key_of pair parts)) (query_unescape (value_of parts))

abbrev add_pair : Option (Text × Text) → Option (List (Text × Text)) → Option (List (Text × Text))
add_pair (some p) (some ps) = some (p ∷ ps)
add_pair _ _ = none

abbrev is_nil : Text → Bool
is_nil [] = true
is_nil (c ∷ s) = false

-- url.ParseQuery: `none` where it returns an error; an empty piece is passed over.
unfoldable pub parse_pairs : List Text → Option (List (Text × Text))
unfolding query_unescape cut contains
parse_pairs [] = some []
parse_pairs (piece ∷ pieces) =
    let rest = parse_pairs pieces in
    if contains b';' piece
    then none
    else if is_nil piece
    then rest
    else add_pair (read_pair piece) rest

-- values.Get
unfoldable pub get_value : Text → List (Text × Text) → Text
unfolding text_eq
get_value key [] = []
get_value key ((k, v) ∷ pairs) = let rest = get_value key pairs in if text_eq k key then v else rest

abbrev tag_of_query : Option (List (Text × Text)) → Text
tag_of_query none = []
tag_of_query (some pairs) = tag_version (get_value (codes "ref") pairs)

abbrev fragment_version : Option (Text × Text) → Text
fragment_version none = []
fragment_version (some (before, fragment)) = tag_of_query (parse_pairs (split b'&' fragment))

unfoldable pub version_from_git_reference : Text → Text
unfolding cut split parse_pairs get_value tag_version
version_from_git_reference ref = fragment_version (cut b'#' ref)

-- The text before the first "@".
abbrev pub before_digest : Text → Option (Text × Text) → Text
before_digest ref none = ref
before_digest ref (some (before, digest)) = before

-- What stands behind the last colon, where that colon is behind the last slash.
abbrev pub tag_part : Option (Text × Text) → Text
tag_part none = []
tag_part (some (repository, tag)) = if contains b'/' tag then [] else tag_version tag

abbrev pub tagged : Text → Option Text → Text
tagged ref (some rest) = version_from_git_reference ref
tagged ref none = tag_part (cut_last (λ c. c == b':') (before_digest ref (cut b'@' ref)))

unfoldable pub version_from_reference : Text → Text
unfolding cut_prefix version_from_git_reference cut cut_last contains tag_version
version_from_reference ref = tagged ref (cut_prefix (codes "git+") ref)

abbrev pub or_version : Text → Text → Text
or_version [] version = version
or_version (c ∷ v) version = c ∷ v

-- The version that a kit's unversioned provides take.
unfoldable pub effective_provide_version : Text → Option Descriptor → Text
unfolding version_from_reference
effective_provide_version ref none = or_version (version_from_reference ref) []
effective_provide_version ref (some d) = or_version (version_from_reference ref) d.version
