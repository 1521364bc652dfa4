-- ===== src/Overlay/Expose.antt =====
-- internal/overlayfs/fs.go: what is asked of the stacked tree: DirStat, DanglingSymlinks and Walk. Walk
-- is the list of the entries that the callback is called on, in order; the callback's error is the caller's.
pub mod Visits
pub mod Visited
use sandbox_kit_spec.Base.{
  ℕ, suc, Bool, true, false, Option, none, some, List, [], ◌∷◌, ◌++◌, Text, codes, compare_text,
  Ordering, lt, eq, gt, if◌then◌else◌,
}
use sandbox_kit_spec.Overlay.{
  DirMeta, Node, dir, file, symlink, whiteout, Children, empty, child, Dir, node_of, get,
  FileSystem,
}
use sandbox_kit_spec.Overlay.FilePath.{slash, clean, components}
use sandbox_kit_spec.Overlay.Lookup.{lookup}

-- DirInfo
pub record DirInfo : Type 0 where
  pub mode : ℕ
  pub uid : ℕ
  pub gid : ℕ

abbrev pub stat_of : DirMeta → Option DirInfo
stat_of info =
    if info.explicit
    then some (record { mode = info.mode; uid = info.uid; gid = info.gid })
    else none

unfoldable pub stat_from : Dir → List Text → Option DirInfo
unfolding get
stat_from d [] = stat_of d.info
stat_from d (seg ∷ segs) = elim (get seg d.children) [
  | none ↦ none
  | some n ↦ elim n [
    | dir info cs ↦ stat_from (record { info = info; children = cs }) segs
    | file ↦ none
    | symlink link ↦ none
    | whiteout ↦ none
  ]
]

-- DirStat
unfoldable pub dir_stat : FileSystem → Text → Option DirInfo
unfolding stat_from clean components
dir_stat o name = stat_from o.root (components (clean (slash ∷ name)))

-- Symlink
pub record Symlink : Type 0 where
  pub path : Text
  pub target : Text

abbrev pub if_dangling : Text → Text → Option Node → List Symlink
if_dangling p link none = record { path = p; target = link } ∷ []
if_dangling p link (some n) = []

unfoldable mutual
  unfolding lookup

  -- The links at a path and under it that lead nowhere. The link itself is the first expansion.
  pub dangling_at : Dir → Dir → List Dir → Text → Node → List Symlink
  dangling_at root top above p (dir info cs) =
      dangling_in root (record { info = info; children = cs }) (top ∷ above) p cs
  dangling_at root top above p (symlink link) = if_dangling p link (lookup root top above link 39)
  dangling_at root top above p file = []
  dangling_at root top above p whiteout = []

  pub dangling_in : Dir → Dir → List Dir → Text → Children → List Symlink
  dangling_in root top above p empty = []
  dangling_in root top above p (child name n cs) =
      dangling_at root top above (p ++ slash ∷ name) n ++ dangling_in root top above p cs

-- sort.Slice by path
unfoldable pub insert_symlink : Symlink → List Symlink → List Symlink
unfolding compare_text
insert_symlink l [] = l ∷ []
insert_symlink l (m ∷ ms) =
    let rest = insert_symlink l ms in
    elim (compare_text l.path m.path) [ lt ↦ l ∷ m ∷ ms | eq ↦ l ∷ m ∷ ms | gt ↦ m ∷ rest ]

unfoldable pub sort_symlinks : List Symlink → List Symlink
unfolding insert_symlink
sort_symlinks [] = []
sort_symlinks (l ∷ ls) = insert_symlink l (sort_symlinks ls)

-- DanglingSymlinks
unfoldable pub dangling_symlinks : FileSystem → List Symlink
unfolding dangling_in sort_symlinks
dangling_symlinks o = sort_symlinks (dangling_in o.root o.root [] [] o.root.children)

-- Entry
pub record Entry : Type 0 where
  pub name : Text
  pub depth : ℕ
  pub directory : Bool
  pub whiteout : Bool
  pub opaque : Bool

abbrev pub entry_of : Text → ℕ → Node → Entry
entry_of name depth (dir info cs) = record {
  name = name;
  depth = depth;
  directory = true;
  whiteout = false;
  opaque = info.opaque;
}
entry_of name depth file = record {
  name = name;
  depth = depth;
  directory = false;
  whiteout = false;
  opaque = false;
}
entry_of name depth (symlink link) = record {
  name = name;
  depth = depth;
  directory = false;
  whiteout = false;
  opaque = false;
}
entry_of name depth whiteout = record {
  name = name;
  depth = depth;
  directory = false;
  whiteout = true;
  opaque = false;
}

unfoldable mutual
  pub walk_node : Text → ℕ → Node → List Entry
  walk_node name depth (dir info cs) =
      entry_of name depth (dir info cs) ∷ walk_children (suc depth) cs
  walk_node name depth file = entry_of name depth file ∷ []
  walk_node name depth (symlink link) = entry_of name depth (symlink link) ∷ []
  walk_node name depth whiteout = entry_of name depth whiteout ∷ []

  pub walk_children : ℕ → Children → List Entry
  walk_children depth empty = []
  walk_children depth (child name n cs) = walk_node name depth n ++ walk_children depth cs

-- Walk
unfoldable pub walk : FileSystem → List Entry
unfolding walk_node
walk o = walk_node [] 0 (node_of o.root)
