-- ===== src/Overlay/Extract.antt =====
-- internal/overlayfs/fs.go: extract, which applies one entry of a layer's archive to the layer's own tree.
-- The code changes the parent that mkparent returns; here that is the tree with the directory at the
-- resolved path rebuilt. A hard link shares its target's node, which is never a directory, so nothing
-- changes it later. A layer's resolvers are made again at each directory.
pub mod Parents
pub mod Walked
pub mod Ordered
use sandbox_kit_spec.Base.{
  ℕ, zero, suc, Bool, true, false, ◌||◌, ◌&&◌, not, Option, none, some, List, [], ◌∷◌, ◌++◌,
  reverse, length, Text, codes, text_eq, cut_prefix, is_empty, if◌then◌else◌, ltb, ◌==◌, Result, ok,
  err, is_ok,
}
use sandbox_kit_spec.Overlay.{
  DirMeta, Node, dir, file, symlink, whiteout, Children, empty, Dir, node_of, unknown_meta, new_dir,
  get, put, remove, FileSystem, Layer,
}
use sandbox_kit_spec.Overlay.FilePath.{slash, clean, split_path, join_path, base_name, components}
use sandbox_kit_spec.Overlay.Lookup.{Reached, missing, failed, found, lstat, rooted_path}
use sandbox_kit_spec.Overlay.RootPath.{max_path_len, PathError, root_path}
use sandbox_kit_spec.Overlay.Extract.Parents.{
  inherited, lower_at, inherit_from, inherit_dir_info, dir_of, set_child, enter_or_make, mkparent,
  change_at,
}

-- The fields of a tar header that the code reads, with the type flags that it tells apart.
pub data TypeFlag : Type 0 where
  x_global_header : TypeFlag
  character : TypeFlag
  directory : TypeFlag
  symbolic : TypeFlag
  hard_link : TypeFlag
  other : TypeFlag

pub record Header : Type 0 where
  pub name : Text
  pub typeflag : TypeFlag
  pub linkname : Text
  pub uid : ℕ
  pub gid : ℕ
  pub mode : ℕ
  pub devmajor : ℕ
  pub devminor : ℕ

-- A directory's own entry, on what is at its path.
abbrev pub explicit_meta : Header → Bool → DirMeta
explicit_meta hdr opaque = record {
  explicit = true;
  uid = hdr.uid;
  gid = hdr.gid;
  mode = hdr.mode;
  opaque = opaque;
}

abbrev pub explicit_dir : Header → Option Node → Node
explicit_dir hdr (some (dir info cs)) = dir (explicit_meta hdr info.opaque) cs
explicit_dir hdr (some file) = dir (explicit_meta hdr false) empty
explicit_dir hdr (some (symlink link)) = dir (explicit_meta hdr false) empty
explicit_dir hdr (some whiteout) = dir (explicit_meta hdr false) empty
explicit_dir hdr none = dir (explicit_meta hdr false) empty

-- The node that a hard link names: a directory, or nothing, is refused.
abbrev pub linkable : Reached Node → Option Node
linkable missing = none
linkable failed = none
linkable (found (dir info cs)) = none
linkable (found file) = some file
linkable (found (symlink link)) = some (symlink link)
linkable (found whiteout) = some whiteout

abbrev pub link_in : Dir → Text → Result PathError Text → Option Node
link_in upper base (err e) = none
link_in upper base (ok resolved) = linkable (lstat upper (join_path resolved base))

unfoldable pub link_target : Dir → Text → Option Node
unfolding root_path lstat split_path join_path
link_target upper linkname =
    let (target_dir, target_base) = split_path linkname in
    link_in upper target_base (root_path upper target_dir)

abbrev pub place : Text → Dir → Option Node → Option Dir
place base parent none = none
place base parent (some n) = some (set_child parent base n)

-- The switch on the type flag: what becomes of the parent.
abbrev pub device : Header → Node
device hdr = if (hdr.devmajor == 0) && (hdr.devminor == 0) then whiteout else file

abbrev pub is_no_target : Text → Bool
is_no_target link = is_empty link || ltb max_path_len (length link)

unfoldable pub place_entry : TypeFlag → Dir → Header → Text → Dir → Option Dir
unfolding link_target get put remove
place_entry x_global_header upper hdr base parent =
    some (dir_of parent.info (remove base parent.children))
place_entry character upper hdr base parent = some (set_child parent base (device hdr))
place_entry directory upper hdr base parent =
    some (set_child parent base (explicit_dir hdr (get base parent.children)))
place_entry symbolic upper hdr base parent =
    if is_no_target hdr.linkname then none else some (set_child parent base (symlink hdr.linkname))
place_entry hard_link upper hdr base parent = place base parent (link_target upper hdr.linkname)
place_entry other upper hdr base parent = some (set_child parent base file)

-- An opaque marker, which does nothing at the layer's root.
abbrev pub mark_opaque : List Text → Dir → Dir
mark_opaque [] parent = parent
mark_opaque (seg ∷ segs) parent =
    dir_of
      (record {
        explicit = parent.info.explicit;
        uid = parent.info.uid;
        gid = parent.info.gid;
        mode = parent.info.mode;
        opaque = true;
      })
      parent.children

-- A whiteout, which is placed only where nothing is.
abbrev pub put_if_absent : Text → Dir → Option Node → Dir
put_if_absent victim parent none = set_child parent victim whiteout
put_if_absent victim parent (some n) = parent

unfoldable pub place_whiteout : Text → Dir → Dir
unfolding get put
place_whiteout victim parent =
    if is_empty victim then parent else put_if_absent victim parent (get victim parent.children)

abbrev pub whiteout_or_entry : Dir → Header → Text → Dir → Option Text → Option Dir
whiteout_or_entry upper hdr base parent (some victim) = some (place_whiteout victim parent)
whiteout_or_entry upper hdr base parent none = place_entry hdr.typeflag upper hdr base parent

unfoldable pub apply_to_parent : Dir → Header → Text → List Text → Dir → Option Dir
unfolding place_whiteout place_entry cut_prefix text_eq
apply_to_parent upper hdr base segs parent =
    if text_eq base (codes ".wh..wh..opq")
    then some (mark_opaque segs parent)
    else whiteout_or_entry upper hdr base parent (cut_prefix (codes ".wh.") base)

abbrev pub accepted : Dir → Option Dir → Dir × Bool
accepted made none = (made, false)
accepted made (some changed) = (changed, true)

-- The parent's directories are made, and the entry is applied to the parent.
unfoldable pub extract_at : Dir → List Dir → Header → Text → List Text → Dir × Bool
unfolding mkparent change_at apply_to_parent
extract_at upper lowers hdr base segs =
    let (made, done) = mkparent lowers [] segs upper in
    if not done
    then (made, false)
    else accepted made (change_at (apply_to_parent made hdr base segs) segs made)

abbrev pub is_skipped : Text → Bool
is_skipped name =
    text_eq name (codes ".") || text_eq name (codes "/") || text_eq (base_name name) (codes "..")

abbrev pub extract_in : Dir → List Dir → Header → Text → Result PathError Text → Dir × Bool
extract_in upper lowers hdr base (err e) = (upper, false)
extract_in upper lowers hdr base (ok resolved) =
    extract_at upper lowers hdr base (components resolved)

-- extract: the layer's tree afterwards, and whether the entry is accepted.
unfoldable pub extract : Dir → List Dir → Header → Dir × Bool
unfolding extract_at root_path clean split_path components text_eq base_name
extract upper lowers hdr =
    let name = clean hdr.name in
    let (directory_name, base) = split_path name in
    if is_skipped name
    then (upper, true)
    else if ltb max_path_len (length name)
    then (upper, false)
    else extract_in upper lowers hdr base (root_path upper directory_name)

-- Add
abbrev pub add : Layer → Header → Layer × Bool
add l hdr =
    let (root, accepted) = extract l.root l.lowers hdr in
    (record { root = root; lowers = l.lowers }, accepted)
