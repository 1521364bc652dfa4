-- ===== src/Build.antt =====
-- internal/version/version.go: what release and commit a binary says it was built from. What the Go
-- runtime reports of the binary (debug.ReadBuildInfo) is an argument.
pub mod Pseudo
pub mod Recorded
pub mod Tests
use sandbox_kit_spec.Base.{
  ℕ, zero, suc, ◌-◌, Bool, true, false, not, ◌&&◌, ◌||◌, Option, none, some, List, [], ◌∷◌, ◌++◌,
  all, length, is_empty, Text, codes, text_eq, contains, cut, cut_last, trim_prefix, is_digit, leb,
  ltb, ◌==◌, if◌then◌else◌,
}

-- stamp
pub record Stamp : Type 0 where
  pub version : Text
  pub revision : Text

pub record Setting : Type 0 where
  pub key : Text
  pub value : Text

-- What is read of debug.BuildInfo.
pub record BuildInfo : Type 0 where
  pub main_version : Text
  pub settings : List Setting

abbrev pub development : Text
development = codes "dev"

abbrev pub short : ℕ
short = 8

abbrev pub or_recorded : Text → Text → Text
or_recorded [] recorded = recorded
or_recorded (c ∷ linked) recorded = c ∷ linked

unfoldable pub fill : Stamp → Stamp → Stamp
fill linked recorded = record {
  version = or_recorded linked.version recorded.version;
  revision = or_recorded linked.revision recorded.revision;
}

unfoldable pub is_hex : ℕ → Bool
unfolding is_digit
is_hex c = is_digit c || (leb b'a' c && leb c b'f')

abbrev pub is_separator : ℕ → Bool
is_separator c = (c == b'.') || (c == b'-')

-- The field behind the last separator.
abbrev pub field_or : Text → Option (Text × Text) → Text
field_or base none = base
field_or base (some (front, field)) = field

abbrev pub last_field : Text → Text
last_field base = field_or base (cut_last is_separator base)

abbrev pub is_stamp_of : Option (Text × Text) → Bool
is_stamp_of none = false
is_stamp_of (some (base, revision)) =
    (length revision == 12)
    && (all is_hex revision && ((length (last_field base) == 14) && all is_digit (last_field base)))

unfoldable pub is_pseudo_version : Text → Bool
unfolding cut_last is_hex is_digit
is_pseudo_version version = is_stamp_of (cut_last (λ c. c == b'-') version)

abbrev pub keep_release : Text → Text
keep_release version =
    if (is_empty version || text_eq version (codes "(devel)")) || contains b'+' version
    then []
    else if is_pseudo_version version
    then []
    else version

unfoldable pub release_tag : Text → Text
unfolding trim_prefix text_eq contains is_pseudo_version
release_tag version = keep_release (trim_prefix (codes "v") version)

-- The state of the loop over the settings.
pub record Seen : Type 0 where
  pub revision : Text
  pub modified : Bool

abbrev pub revision_key : Text
revision_key = codes "vcs.revision"

abbrev pub modified_key : Text
modified_key = codes "vcs.modified"

abbrev pub see : Seen → Setting → Seen
see seen s =
    if text_eq s.key revision_key
    then record seen { revision = s.value }
    else if text_eq s.key modified_key
    then record seen { modified = text_eq s.value (codes "true") }
    else seen

unfoldable pub read_settings : Seen → List Setting → Seen
unfolding text_eq
read_settings seen [] = seen
read_settings seen (s ∷ ss) = read_settings (see seen s) ss

abbrev pub mark_dirty : Seen → Text
mark_dirty seen =
    if seen.modified && not (is_empty seen.revision)
    then seen.revision ++ codes "-dirty"
    else seen.revision

unfoldable pub recorded : Option BuildInfo → Stamp
unfolding release_tag read_settings
recorded none = record { version = []; revision = [] }
recorded (some info) = record {
  version = release_tag info.main_version;
  revision = mark_dirty (read_settings (record { revision = []; modified = false }) info.settings);
}

unfoldable pub compute : Stamp → Option BuildInfo → Stamp
unfolding fill recorded
compute linked info = fill linked (recorded info)

unfoldable pub tag : Stamp → Text
tag s = if is_empty s.version then development else s.version

abbrev pub take : ℕ → Text → Text
take zero s = []
take (suc n) [] = []
take (suc n) (c ∷ s) = c ∷ take n s

abbrev pub shorten : Text → Text
shorten sha = if ltb short (length sha) then take short sha else sha

abbrev pub abbreviate_parts : Text → Option (Text × Text) → Text
abbreviate_parts revision none = shorten revision
abbreviate_parts revision (some (sha, suffix)) = shorten sha ++ (b'-' ∷ suffix)

unfoldable pub abbreviate : Text → Text
unfolding cut
abbreviate revision = abbreviate_parts revision (cut b'-' revision)

unfoldable pub display : Text → Text → Text
unfolding abbreviate
display version revision =
    if is_empty revision
    then version
    else version ++ (codes " (" ++ (abbreviate revision ++ codes ")"))
