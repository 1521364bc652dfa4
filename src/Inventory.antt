-- ===== src/Inventory.antt =====
-- assemble/inventory.go: what a layer's archive lists, and the collisions between kits. An archive is here
-- what the tar reader gives: its members, and after them the end or an error. Opening a layer (the
-- compression, the digest of the stream) is not part of the model. A text is a list of bytes.
pub mod Layers
pub mod Final
pub mod Before
pub mod Collisions
pub mod Exclusive
mod Tests
use sandbox_kit_spec.Base.{
  ℕ, suc, Bool, true, false, ◌||◌, ◌&&◌, not, Option, none, some, List, [], ◌∷◌, ◌++◌, length, Text,
  codes, text_eq, trim_prefix, cut_suffix, ltb, leb, if◌then◌else◌, Result, ok, err, ◌>>=◌,
}

-- The type flags that the code tells apart.
pub data TypeFlag : Type 0 where
  regular : TypeFlag
  directory : TypeFlag
  symbolic : TypeFlag
  hard : TypeFlag
  other : TypeFlag

pub record Member : Type 0 where
  pub name : Text
  pub typeflag : TypeFlag
  pub linkname : Text
  pub mode : ℕ
  pub uid : ℕ
  pub gid : ℕ
  pub content : Text
  pub fault : Option Text

pub data Archive : Type 0 where
  done : Archive
  broken : Text → Archive
  member : Member → Archive → Archive

-- An archive that begins with members.
unfoldable pub archive : List Member → Archive → Archive
archive [] rest = rest
archive (m ∷ ms) rest = member m (archive ms rest)

-- What a reader fails with: the error of Next or of the read, or ErrFileTooLarge.
pub data ReadError : Type 0 where
  read_layer : Text → ReadError
  read_file : Text → Text → ReadError
  file_too_large : Text → ReadError
  a_link : Text → Text → ReadError

-- normalizePath
unfoldable pub normalize_path : Text → Text
unfolding trim_prefix
normalize_path p = trim_prefix (codes "/") (trim_prefix (codes "./") p)

-- strings.TrimSuffix
abbrev pub before_suffix : Text → Option Text → Text
before_suffix s none = s
before_suffix s (some before) = before

unfoldable pub trim_suffix : Text → Text → Text
unfolding cut_suffix
trim_suffix suffix s = before_suffix s (cut_suffix suffix s)

-- The path that an entry's name, or a wanted one, stands for.
unfoldable pub entry_path : Text → Text
unfolding normalize_path trim_suffix
entry_path name = trim_suffix (codes "/") (normalize_path name)

-- ReadInventory
abbrev pub listed : TypeFlag → Text → List Text → List Text
listed directory name files = files
listed regular name files = normalize_path name ∷ files
listed symbolic name files = normalize_path name ∷ files
listed hard name files = normalize_path name ∷ files
listed other name files = normalize_path name ∷ files

unfoldable pub read_inventory : Archive → Result ReadError (List Text)
unfolding normalize_path
read_inventory done = ok []
read_inventory (broken e) = err (read_layer e)
read_inventory (member m rest) = do files ← read_inventory rest; ok (listed m.typeflag m.name files)

-- FileEntry
pub record FileEntry : Type 0 where
  pub body : Text
  pub linked : Bool
  pub link : Text
  pub hard : Bool
  pub index : ℕ
  pub mode : ℕ
  pub uid : ℕ
  pub gid : ℕ
  pub regular : Bool
  pub ok : Bool

abbrev pub no_entry : FileEntry
no_entry = record {
  body = [];
  linked = false;
  link = [];
  hard = false;
  index = 0;
  mode = 0;
  uid = 0;
  gid = 0;
  regular = false;
  ok = false;
}

-- regular
abbrev pub is_regular : TypeFlag → Bool
is_regular regular = true
is_regular directory = false
is_regular symbolic = false
is_regular hard = false
is_regular other = false

abbrev pub link_entry : Bool → ℕ → Member → FileEntry
link_entry is_hard index m = record {
  body = [];
  linked = true;
  link = m.linkname;
  hard = is_hard;
  index = index;
  mode = m.mode;
  uid = m.uid;
  gid = m.gid;
  regular = false;
  ok = true;
}

abbrev pub file_entry : Text → ℕ → Member → FileEntry
file_entry body index m = record {
  body = body;
  linked = false;
  link = [];
  hard = false;
  index = index;
  mode = m.mode;
  uid = m.uid;
  gid = m.gid;
  regular = is_regular m.typeflag;
  ok = true;
}

-- maxFileEntryBytes
abbrev pub max_file_entry_bytes : ℕ
max_file_entry_bytes = 16777216

abbrev pub body_or_fault : Text → Text → Option Text → Result ReadError Text
body_or_fault path content none = ok content
body_or_fault path content (some e) = err (read_file path e)

-- The bounded read of a member's content: io.LimitReader stops before a fault that comes after the bound.
unfoldable pub read_body : Text → Member → Result ReadError Text
read_body path m =
    if ltb max_file_entry_bytes (length m.content)
    then err (file_too_large path)
    else body_or_fault path m.content m.fault

unfoldable pub read_regular : Text → Bool → ℕ → Member → Result ReadError FileEntry
unfolding read_body
read_regular path false index m = ok (file_entry [] index m)
read_regular path true index m = do body ← read_body path m; ok (file_entry body index m)

-- The entry that a member at the wanted path leaves.
unfoldable pub member_entry : TypeFlag → Text → Bool → ℕ → Member → Result ReadError FileEntry
unfolding read_regular
member_entry directory path with_body index m = ok no_entry
member_entry symbolic path with_body index m = ok (link_entry false index m)
member_entry hard path with_body index m = ok (link_entry true index m)
member_entry regular path with_body index m = read_regular path with_body index m
member_entry other path with_body index m = read_regular path with_body index m

-- before, which bounds the positions where it is not negative
abbrev pub is_past : Option ℕ → ℕ → Bool
is_past none index = false
is_past (some before) index = leb before index

-- An entry after a member: the entry that is there stays unless the member is at the path.
unfoldable pub next_entry : Text → Bool → ℕ → Member → FileEntry → Result ReadError FileEntry
unfolding member_entry entry_path text_eq
next_entry path with_body index m entry =
    if text_eq (entry_path m.name) (entry_path path)
    then member_entry m.typeflag path with_body index m
    else ok entry

-- readEntry from a position, with the entry that is kept
unfoldable pub entry_from :
    Text → Bool → Option ℕ → ℕ → FileEntry → Archive → Result ReadError FileEntry
unfolding next_entry
entry_from path with_body before index entry done = ok entry
entry_from path with_body before index entry (broken e) =
    if is_past before index then ok entry else err (read_layer e)
entry_from path with_body before index entry (member m rest) =
    let later =
      next_entry path with_body index m entry
      >>= (λ next. entry_from path with_body before (suc index) next rest) in
    if is_past before index then ok entry else later

unfoldable pub read_entry : Text → Bool → Option ℕ → Archive → Result ReadError FileEntry
unfolding entry_from
read_entry path with_body before a = entry_from path with_body before 0 no_entry a

-- ReadFileEntry, ReadFileEntryBefore, StatFileEntry, StatFileEntryBefore
abbrev pub read_file_entry : Archive → Text → Result ReadError FileEntry
read_file_entry a path = read_entry path true none a

abbrev pub read_file_entry_before : Archive → Text → ℕ → Result ReadError FileEntry
read_file_entry_before a path before = read_entry path true (some before) a

abbrev pub stat_file_entry : Archive → Text → Result ReadError FileEntry
stat_file_entry a path = read_entry path false none a

abbrev pub stat_file_entry_before : Archive → Text → ℕ → Result ReadError FileEntry
stat_file_entry_before a path before = read_entry path false (some before) a

-- ReadFile
abbrev followed : Text → FileEntry → Result ReadError (Text × Bool)
followed path entry =
    if entry.linked then err (a_link path entry.link) else ok (entry.body, entry.ok)

unfoldable pub read_contents : Archive → Text → Result ReadError (Text × Bool)
unfolding read_entry
read_contents a path = read_entry path true none a >>= followed path
