-- ===== src/Overlay.antt =====
-- internal/overlayfs/fs.go: the file system that extracted image layers expose. This file has the
-- trees; the children have the operations. A text is here the list of bytes of a name. Directories are
-- the only nodes that the code changes, and no two names share one, so a tree is a value: changing a
-- directory is rebuilding the path to it. The names of a directory are kept in order, which is the
-- order that the code sorts them into where order matters.
pub mod FilePath
pub mod Lookup
pub mod RootPath
pub mod Extract
pub mod Stack
pub mod Expose
pub mod Names
mod Tests
use sandbox_kit_spec.Base.{
  ℕ, Bool, true, false, Option, none, some, List, [], ◌∷◌, Text, compare_text, Ordering, lt, eq, gt,
}

-- The fields of fsNode that only a directory has.
pub record DirMeta : Type 0 where
  pub explicit : Bool
  pub uid : ℕ
  pub gid : ℕ
  pub mode : ℕ
  pub opaque : Bool

-- fsNode and its map of children
mutual
  pub data Node : Type 0 where
    dir : DirMeta → Children → Node
    file : Node
    symlink : Text → Node
    whiteout : Node

  pub data Children : Type 0 where
    empty : Children
    child : Text → Node → Children → Children

pub record Dir : Type 0 where
  pub info : DirMeta
  pub children : Children

abbrev pub node_of : Dir → Node
node_of d = dir d.info d.children

abbrev pub unknown_meta : DirMeta
unknown_meta = record { explicit = false; uid = 0; gid = 0; mode = 0; opaque = false }

abbrev pub new_dir : Dir
new_dir = record { info = unknown_meta; children = empty }

-- children[name]
abbrev pub get_by : Ordering → Node → Option Node → Option Node
get_by lt n rest = none
get_by eq n rest = some n
get_by gt n rest = rest

unfoldable pub get : Text → Children → Option Node
unfolding compare_text
get name empty = none
get name (child k n cs) = get_by (compare_text name k) n (get name cs)

-- children[name] = n
abbrev pub put_by : Ordering → Text → Node → Text → Node → Children → Children → Children
put_by lt name n k m cs rest = child name n (child k m cs)
put_by eq name n k m cs rest = child name n cs
put_by gt name n k m cs rest = child k m rest

unfoldable pub put : Text → Node → Children → Children
unfolding compare_text
put name n empty = child name n empty
put name n (child k m cs) = put_by (compare_text name k) name n k m cs (put name n cs)

-- delete(children, name)
abbrev pub remove_by : Ordering → Text → Node → Children → Children → Children
remove_by lt k m cs rest = child k m cs
remove_by eq k m cs rest = cs
remove_by gt k m cs rest = child k m rest

unfoldable pub remove : Text → Children → Children
unfolding compare_text
remove name empty = empty
remove name (child k m cs) = remove_by (compare_text name k) k m cs (remove name cs)

-- FS: the stacked tree, and the layers' own trees, the first applied first.
pub record FileSystem : Type 0 where
  pub root : Dir
  pub layers : List Dir

-- New
abbrev pub new_file_system : FileSystem
new_file_system = record { root = new_dir; layers = [] }

-- Layer
pub record Layer : Type 0 where
  pub root : Dir
  pub lowers : List Dir

-- NewLayer
abbrev pub new_layer : FileSystem → Layer
new_layer o = record { root = new_dir; lowers = o.layers }
