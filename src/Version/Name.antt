-- ===== src/Version/Name.antt =====
-- Capability names: the patterns, capabilityNameError, NormalizeCapabilityName,
-- DisplayCapabilityName and IsDerivedProvide of spec/version.go.
pub mod Normal
use sandbox_kit_spec.Base.{
  ℕ, suc, Bool, true, false, not, ◌&&◌, ◌||◌, Option, none, some, List, [], ◌∷◌, ◌++◌, length, all,
  Text, codes, split, cut, contains, trim_prefix, text_eq, is_digit, is_lower, leb, ltb, ◌==◌,
  if◌then◌else◌, Result, ok, err, is_ok,
}
use sandbox_kit_spec.Version.Error.{Error, invalid_name, long_namespace, bad_label, single_label}

unfoldable pub is_alnum : ℕ → Bool
unfolding is_digit is_lower
is_alnum c = is_lower c || is_digit c

-- The characters of a handle's, a capability's and a namespace's pattern.
unfoldable pub is_handle_char : ℕ → Bool
unfolding is_alnum
is_handle_char c = is_alnum c || (c == b'-')

unfoldable pub is_capability_char : ℕ → Bool
unfolding is_alnum
is_capability_char c = is_alnum c || (c == b'+') || (c == b'.') || (c == b'-')

unfoldable pub is_capability_end : ℕ → Bool
unfolding is_alnum
is_capability_end c = is_alnum c || (c == b'+')

unfoldable pub is_namespace_char : ℕ → Bool
unfolding is_alnum
is_namespace_char c = is_alnum c || (c == b'.') || (c == b'-')

-- `X{0,n}Y` where `inner` holds of X and `last` of Y, but for the length.
unfoldable pub matches_tail : (ℕ → Bool) → (ℕ → Bool) → Text → Bool
matches_tail inner last [] = false
matches_tail inner last (c ∷ []) = last c
matches_tail inner last (c ∷ d ∷ s) = inner c && matches_tail inner last (d ∷ s)

-- `^[a-z0-9](X{0,most}Y)?$`
unfoldable pub matches_name : (ℕ → Bool) → (ℕ → Bool) → ℕ → Text → Bool
unfolding is_alnum matches_tail
matches_name inner last most [] = false
matches_name inner last most (c ∷ []) = is_alnum c
matches_name inner last most (c ∷ d ∷ s) =
    is_alnum c && matches_tail inner last (d ∷ s) && leb (length s) most

-- handleName, capabilityName, namespaceLabel, capabilityNamespace
unfoldable pub handle_name : Text → Bool
unfolding matches_name is_handle_char
handle_name = matches_name is_handle_char is_alnum 62

unfoldable pub capability_name : Text → Bool
unfolding matches_name is_capability_char is_capability_end
capability_name = matches_name is_capability_char is_capability_end 62

unfoldable pub namespace_label : Text → Bool
unfolding matches_name is_handle_char
namespace_label = matches_name is_handle_char is_alnum 61

unfoldable pub capability_namespace : Text → Bool
unfolding is_namespace_char
capability_namespace [] = false
capability_namespace (c ∷ s) = all is_namespace_char (c ∷ s)

abbrev pub max_namespace_length : ℕ
max_namespace_length = 253

abbrev pub default_capability_namespace : Text
default_capability_namespace = codes "com.docker.kit"

abbrev pub deb_namespace : Text
deb_namespace = codes "deb"

abbrev pub apk_namespace : Text
apk_namespace = codes "apk"

-- reservedNamespaces
unfoldable pub is_reserved : Text → Bool
unfolding text_eq
is_reserved ns = text_eq ns deb_namespace || text_eq ns apk_namespace

abbrev derived_part : Option (Text × Text) → Bool
derived_part none = false
derived_part (some (ns, base)) = is_reserved ns

unfoldable pub is_derived_provide : Text → Bool
unfolding cut is_reserved
is_derived_provide name = derived_part (cut b'/' name)

unfoldable pub normalize_capability_name : Text → Text
unfolding contains
normalize_capability_name name =
    if contains b'/' name then name else default_capability_namespace ++ b'/' ∷ name

unfoldable pub display_capability_name : Text → Text
unfolding trim_prefix
display_capability_name name = trim_prefix (default_capability_namespace ++ b'/' ∷ []) name

-- The loop over the labels: the first that no domain can carry.
unfoldable pub first_bad_label : List Text → Option Text
unfolding namespace_label
first_bad_label [] = none
first_bad_label (label ∷ labels) =
    let rest = first_bad_label labels in if namespace_label label then rest else some label

-- The structure of a namespace whose characters are right.
abbrev pub has_two : List Text → Bool
has_two (a ∷ b ∷ rest) = true
has_two _ = false

unfoldable pub check_namespace : Text → Text → Text → Result Error (Unit {0})
unfolding split first_bad_label is_reserved
check_namespace name ns base =
    if ltb max_namespace_length (length ns)
    then err (long_namespace base (length ns))
    else elim (first_bad_label (split b'.' ns)) [
      | some label ↦ err (bad_label ns name label)
      | none ↦
          if is_reserved ns || has_two (split b'.' ns)
          then ok tt
          else err (single_label ns name base)
    ]

abbrev is_empty : Text → Bool
is_empty [] = true
is_empty (c ∷ s) = false

abbrev check_parts : Text → Option (Text × Text) → Result Error (Unit {0})
check_parts name none = if capability_name name then ok tt else err (invalid_name name)
check_parts name (some (ns, base)) =
    if is_empty ns || not (capability_namespace ns && capability_name base)
    then err (invalid_name name)
    else check_namespace name ns base

-- capabilityNameError, with `ok` for nil.
unfoldable pub check_capability_name : Text → Result Error (Unit {0})
unfolding cut capability_name capability_namespace check_namespace
check_capability_name name = check_parts name (cut b'/' name)

-- validCapabilityName
unfoldable pub valid_capability_name : Text → Bool
unfolding check_capability_name
valid_capability_name name = is_ok (check_capability_name name)
