-- ===== src/Overlay/Lookup.antt =====
-- internal/overlayfs/fs.go: the lookups in a tree: lookup as the kernel resolves a path in the stacked
-- tree, and lstat, dir and hostLookup as the extractor asks them of one layer's directory. A resolver
-- remembers the directories that it has resolved; nothing changes the tree while it lives, so its memory
-- is left out.
use sandbox_kit_spec.Base.{
  ℕ, zero, suc, true, false, Option, none, some, List, [], ◌∷◌, ◌++◌, reverse, Text, codes, text_eq,
  split, join, is_empty, if◌then◌else◌,
}
use sandbox_kit_spec.Overlay.{Node, dir, file, symlink, whiteout, Dir, node_of, get}
use sandbox_kit_spec.Overlay.FilePath.{
  slash, is_rooted, is_dot, is_up, clean, split_path, components,
}

-- dirResult, and what lstat reports: nothing there, a failure (ENOTDIR or ELOOP), or what is there.
pub data Reached {ℓ} (A : Type ℓ) : Type ℓ where
  missing : Reached A
  failed : Reached A
  found : A → Reached A

-- maxLookupSymlinks
abbrev pub max_lookup_symlinks : ℕ
max_lookup_symlinks = 40

-- What a component does to a walk: it ends it, leads to a directory, or is a symlink to expand. The
-- directories on the way are the last one and those above it, the nearest first.
pub data Step (R : Type 0) : Type 0 where
  stop : R → Step R
  go : Dir → List Dir → Step R
  follow : Text → Step R

-- dirs[:len(dirs)-1] where more than the root is left, and otherwise what the caller does
abbrev pub up {ℓ} : {R : Type ℓ} → R → (Dir → List Dir → R) → List Dir → R
up at_root go_to [] = at_root
up at_root go_to (d ∷ above) = go_to d above

abbrev pub host_child : Dir → List Dir → Option Node → Step (Reached Dir)
host_child top above none = stop missing
host_child top above (some (dir info cs)) = go (record { info = info; children = cs }) (top ∷ above)
host_child top above (some (symlink link)) = follow link
host_child top above (some file) = stop failed
host_child top above (some whiteout) = stop failed

unfoldable pub host_step : Dir → List Dir → Text → Step (Reached Dir)
unfolding text_eq get
host_step top above seg =
    if is_dot seg
    then go top above
    else if is_up seg
    then up (stop missing) go above
    else host_child top above (get seg top.children)

-- The loop of hostLookup, with the symlinks that may still be expanded and the components to walk.
unfoldable pub host_loop : ℕ → Dir → List Dir → List Text → Reached Dir
unfolding host_step split
host_loop left top above [] = found top
host_loop zero top above (seg ∷ pending) = elim (host_step top above seg) [
  | stop r ↦ r
  | go d ds ↦ host_loop zero d ds pending
  | follow link ↦ failed
]
host_loop (suc left) top above (seg ∷ pending) = elim (host_step top above seg) [
  | stop r ↦ r
  | go d ds ↦ host_loop (suc left) d ds pending
  | follow link ↦ elim (is_rooted link) [
    | true ↦ missing
    | false ↦ host_loop left top above (split slash link ++ pending)
  ]
]

-- hostLookup
unfoldable pub host_lookup : Dir → Text → Reached Dir
unfolding host_loop split
host_lookup root d = host_loop max_lookup_symlinks root [] (split slash d)

abbrev pub dir_child : Dir → Text → Option Node → Reached Dir
dir_child root d none = missing
dir_child root d (some (dir info cs)) = found (record { info = info; children = cs })
dir_child root d (some (symlink link)) = host_lookup root d
dir_child root d (some file) = failed
dir_child root d (some whiteout) = failed

abbrev pub rooted_path : List Text → Text
rooted_path segs = slash ∷ join (codes "/") segs

-- dir, on the components of the path, the last one first
unfoldable pub resolve_dir : Dir → List Text → Reached Dir
unfolding host_lookup get join
resolve_dir t [] = found t
resolve_dir t (base ∷ parents) =
    let above = resolve_dir t parents in
    elim above [
      | missing ↦ missing
      | failed ↦ failed
      | found d ↦ dir_child t (rooted_path (reverse (base ∷ parents))) (get base d.children)
    ]

abbrev pub last_component : Text → Reached Dir → Reached Node
last_component base missing = missing
last_component base failed = failed
last_component base (found d) = elim (get base d.children) [ none ↦ missing | some n ↦ found n ]

-- lstat
unfoldable pub lstat : Dir → Text → Reached Node
unfolding resolve_dir clean split_path components get
lstat t p =
    let (directory, base) = split_path (clean (slash ∷ p)) in
    if is_empty base
    then found (node_of t)
    else last_component base (resolve_dir t (reverse (components directory)))

abbrev pub kernel_child : Dir → List Dir → List Text → Option Node → Step (Option Node)
kernel_child top above pending none = stop none
kernel_child top above pending (some (dir info cs)) =
    go (record { info = info; children = cs }) (top ∷ above)
kernel_child top above pending (some (symlink link)) = follow link
kernel_child top above pending (some file) = stop (if is_empty pending then some file else none)
kernel_child top above pending (some whiteout) = stop none

unfoldable pub kernel_step : Dir → List Dir → Text → List Text → Step (Option Node)
unfolding text_eq get
kernel_step top above seg pending =
    if is_dot seg
    then go top above
    else if is_up seg
    then up (go top above) go above
    else kernel_child top above pending (get seg top.children)

-- The loop of lookup.
unfoldable pub kernel_loop : Dir → ℕ → Dir → List Dir → List Text → Option Node
unfolding kernel_step split
kernel_loop root left top above [] = some (node_of top)
kernel_loop root zero top above (seg ∷ pending) = elim (kernel_step top above seg pending) [
  | stop r ↦ r
  | go d ds ↦ kernel_loop root zero d ds pending
  | follow link ↦ none
]
kernel_loop root (suc left) top above (seg ∷ pending) = elim (kernel_step top above seg pending) [
  | stop r ↦ r
  | go d ds ↦ kernel_loop root (suc left) d ds pending
  | follow link ↦ elim (is_rooted link) [
    | true ↦ kernel_loop root left root [] (split slash link ++ pending)
    | false ↦ kernel_loop root left top above (split slash link ++ pending)
  ]
]

-- lookup, with the expansions that are left where the source counts those that are spent
unfoldable pub lookup : Dir → Dir → List Dir → Text → ℕ → Option Node
unfolding kernel_loop split
lookup root top above target left =
    if is_rooted target
    then kernel_loop root left root [] (split slash target)
    else kernel_loop root left top above (split slash target)
