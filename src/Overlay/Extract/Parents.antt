-- ===== src/Overlay/Extract/Parents.antt =====
-- internal/overlayfs/fs.go: mkparent and inheritDirInfo, the directories on the way to an entry, and a
-- change of the directory that they lead to.
use sandbox_kit_spec.Base.{
  Bool, true, false, Option, none, some, List, [], ◌∷◌, reverse, Text, ok, err,
}
use sandbox_kit_spec.Overlay.{
  DirMeta, Node, dir, file, symlink, whiteout, Children, empty, Dir, node_of, unknown_meta, get,
  put,
}
use sandbox_kit_spec.Overlay.Lookup.{Reached, missing, failed, found, lstat, rooted_path}
use sandbox_kit_spec.Overlay.RootPath.{root_path}

-- The metadata that a lower layer dictates: a directory's, or the root's where something else is there.
abbrev pub inherited : Node → DirMeta
inherited (dir info cs) = record {
  explicit = info.explicit;
  uid = info.uid;
  gid = info.gid;
  mode = info.mode;
  opaque = false;
}
inherited n = record { explicit = true; uid = 0; gid = 0; mode = 493; opaque = false }

-- What the lower layer has at a path, its own links resolved.
unfoldable pub lower_at : Dir → Text → Reached Node
unfolding root_path lstat
lower_at lower p = elim (root_path lower p) [ err e ↦ failed | ok resolved ↦ lstat lower resolved ]

-- inheritDirInfo, on the lower layers from the nearest: none where resolving the path fails.
unfoldable pub inherit_from : List Dir → Text → Option DirMeta
unfolding lower_at
inherit_from [] p = some unknown_meta
inherit_from (lower ∷ further) p = elim (lower_at lower p) [
  | failed ↦ none
  | missing ↦ inherit_from further p
  | found n ↦ some (inherited n)
]

unfoldable pub inherit_dir_info : List Dir → Text → Option DirMeta
unfolding inherit_from
inherit_dir_info lowers p = inherit_from (reverse lowers) p

abbrev pub dir_of : DirMeta → Children → Dir
dir_of info cs = record { info = info; children = cs }

abbrev pub set_child : Dir → Text → Node → Dir
set_child d name n = dir_of d.info (put name n d.children)

-- The directory that a component of the path names, made where nothing is: none where it is not a
-- directory, or cannot be made.
abbrev pub enter_or_make : Option DirMeta → Option Node → Option Dir
enter_or_make made (some (dir info cs)) = some (dir_of info cs)
enter_or_make made (some file) = none
enter_or_make made (some (symlink link)) = none
enter_or_make made (some whiteout) = none
enter_or_make none none = none
enter_or_make (some info) none = some (dir_of info empty)

-- mkparent: the tree with the directories on the way, those made before a failure included, and whether
-- the last one is there. The components before stand in `at`, the last one first.
unfoldable pub mkparent : List Dir → List Text → List Text → Dir → Dir × Bool
unfolding inherit_dir_info get put
mkparent lowers at [] cur = (cur, true)
mkparent lowers at (seg ∷ segs) cur =
    let made = inherit_dir_info lowers (rooted_path (reverse (seg ∷ at))) in
    elim (enter_or_make made (get seg cur.children)) [
      | none ↦ (cur, false)
      | some d ↦
          let (next, done) = mkparent lowers (seg ∷ at) segs d in
          (set_child cur seg (node_of next), done)
    ]

-- A change of the directory at a path, where it is there and the change is not refused.
unfoldable pub change_at : (Dir → Option Dir) → List Text → Dir → Option Dir
unfolding get put
change_at f [] cur = f cur
change_at f (seg ∷ segs) cur = elim (get seg cur.children) [
  | none ↦ none
  | some n ↦ elim n [
    | dir info cs ↦ elim (change_at f segs (dir_of info cs)) [
      | none ↦ none
      | some d ↦ some (set_child cur seg (node_of d))
    ]
    | file ↦ none
    | symlink link ↦ none
    | whiteout ↦ none
  ]
]
