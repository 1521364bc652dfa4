-- ===== src/Overlay/Stack.antt =====
-- internal/overlayfs/fs.go: stack, which puts an extracted layer over the layers below it, and Apply. It
-- changes the lower directories in place; here it builds the directory that they become.
pub mod Sorted
pub mod Rule
pub mod Merged
use sandbox_kit_spec.Base.{
  ℕ, Bool, true, false, ◌||◌, Option, none, some, List, [], ◌∷◌, ◌++◌, if◌then◌else◌,
}
use sandbox_kit_spec.Overlay.{
  DirMeta, Node, dir, file, symlink, whiteout, Children, empty, child, Dir, unknown_meta, get, put,
  FileSystem, Layer,
}

-- A directory's metadata, with that of the one above it over it.
abbrev pub over_meta : DirMeta → DirMeta → DirMeta
over_meta upper lower = record {
  explicit = upper.explicit || lower.explicit;
  uid = if upper.explicit then upper.uid else lower.uid;
  gid = if upper.explicit then upper.gid else lower.gid;
  mode = if upper.explicit then upper.mode else lower.mode;
  opaque = upper.opaque || lower.opaque;
}

abbrev pub kept_children : DirMeta → Children → Children
kept_children upper cs = if upper.opaque then empty else cs

-- The directory that a directory merges with: a new one where there was none, which hides what is
-- further below where there was something else.
abbrev pub new_meta : Bool → DirMeta
new_meta replaced = record { explicit = false; uid = 0; gid = 0; mode = 0; opaque = replaced }

abbrev pub meta_below : Option Node → DirMeta
meta_below (some (dir info cs)) = info
meta_below (some file) = new_meta true
meta_below (some (symlink link)) = new_meta true
meta_below (some whiteout) = new_meta true
meta_below none = new_meta false

abbrev pub children_below : Option Node → Children
children_below (some (dir info cs)) = cs
children_below (some file) = empty
children_below (some (symlink link)) = empty
children_below (some whiteout) = empty
children_below none = empty

unfoldable mutual
  unfolding get put

  -- What is shown where the upper layer has a node, over what is there.
  pub stack_node : Node → Option Node → Node
  stack_node (dir info us) below =
      dir (over_meta info (meta_below below))
        (stack_children us (kept_children info (children_below below)))
  stack_node file below = file
  stack_node (symlink link) below = symlink link
  stack_node whiteout below = whiteout

  -- The loop of stack over the upper directory's children.
  pub stack_children : Children → Children → Children
  stack_children empty lower = lower
  stack_children (child name u us) lower =
      stack_children us (put name (stack_node u (get name lower)) lower)

-- stack
unfoldable pub stack : Dir → Dir → Dir
unfolding stack_children
stack lower upper = record {
  info = over_meta upper.info lower.info;
  children = stack_children upper.children (kept_children upper.info lower.children);
}

-- Apply
unfoldable pub apply : FileSystem → Layer → FileSystem
unfolding stack
apply o l = record { root = stack o.root l.root; layers = o.layers ++ l.root ∷ [] }
