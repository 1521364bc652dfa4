-- ===== src/Version/Package.antt =====
-- PackageVersion of spec/version.go: the version core of what a package database records.
use sandbox_kit_spec.Base.{
  ℕ, zero, suc, Option, none, some, [], ◌∷◌, ◌++◌, length, Text, trim_space, contains, cut_last,
  is_digit, ltb, ◌==◌, if◌then◌else◌,
}
use sandbox_kit_spec.Version.Order.{is_version}

-- The longest run of digits, and what follows it.
unfoldable pub span_digits : Text → Text × Text
unfolding is_digit
span_digits [] = ([], [])
span_digits (c ∷ s) =
    let (digits, rest) = span_digits s in if is_digit c then (c ∷ digits, rest) else ([], c ∷ s)

-- `^[0-9]+:` replaced by nothing: versionEpoch
abbrev pub drop_epoch : Text → Text × Text → Text
drop_epoch raw ([], rest) = raw
drop_epoch raw (d ∷ digits, []) = raw
drop_epoch raw (d ∷ digits, c ∷ rest) = if c == b':' then rest else raw

unfoldable pub strip_epoch : Text → Text
unfolding span_digits
strip_epoch raw = drop_epoch raw (span_digits raw)

-- `0|[1-9][0-9]*`
abbrev pub semver_from : ℕ → Text × Text → Text → Option (Text × Text)
semver_from c (digits, rest) s =
    if c == b'0' then some (c ∷ [], s) else if is_digit c then some (c ∷ digits, rest) else none

unfoldable pub semver_part : Text → Option (Text × Text)
unfolding span_digits
semver_part [] = none
semver_part (c ∷ s) = semver_from c (span_digits s) s

-- `[0-9]+`
abbrev pub numeric_from : Text × Text → Option (Text × Text)
numeric_from ([], rest) = none
numeric_from (d ∷ digits, rest) = some (d ∷ digits, rest)

unfoldable pub numeric_part : Text → Option (Text × Text)
unfolding span_digits
numeric_part s = numeric_from (span_digits s)

-- `(?:\.P){0,n}`, greedy, for the part that `read` reads.
unfoldable pub more_parts : (Text → Option (Text × Text)) → ℕ → Text → Text
more_parts read zero s = []
more_parts read (suc n) [] = []
more_parts read (suc n) (c ∷ s) =
    if c == b'.'
    then elim (read s) [ none ↦ [] | some (part, rest) ↦ c ∷ (part ++ more_parts read n rest) ]
    else []

-- `^P(?:\.P){0,2}`, as FindString gives it; empty where nothing matches.
unfoldable pub core_by : (Text → Option (Text × Text)) → Text → Text
unfolding more_parts
core_by read s = elim (read s) [ none ↦ [] | some (part, rest) ↦ part ++ more_parts read 2 rest ]

-- The half before the last hyphen.
abbrev pub upstream_half : Text → Option (Text × Text) → Text
upstream_half raw none = raw
upstream_half raw (some (upstream, revision)) = upstream

abbrev pub longer_core : Text → Text
longer_core raw =
    let core = core_by semver_part raw in
    let permissive = core_by numeric_part raw in
    if ltb (length core) (length permissive) then permissive else core

abbrev pub version_or_nil : Text → Text
version_or_nil core = if is_version core then core else []

unfoldable pub package_version : Text → Text
unfolding strip_epoch trim_space cut_last contains core_by semver_part numeric_part is_version
package_version text =
    let raw = strip_epoch (trim_space text) in
    if contains b'~' (upstream_half raw (cut_last (λ c. c == b'-') raw))
    then []
    else version_or_nil (longer_core raw)
