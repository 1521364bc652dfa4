-- ===== src/Overlay/Stack/Sorted.antt =====
-- internal/overlayfs/fs.go: stack keeps the names of each directory in order.
use sandbox_kit_spec.Base.{true, false, Bool, Option, none, some, Text, ◌≡◌, refl, if◌then◌else◌}
use sandbox_kit_spec.Overlay.{
  DirMeta, Node, dir, file, symlink, whiteout, Children, empty, child, get, put, FileSystem, Layer,
}
use sandbox_kit_spec.Overlay.Names.{IsSorted, AreSorted, AreSorted-put, get-IsSorted}
use sandbox_kit_spec.Overlay.Stack.{
  children_below, kept_children, stack_node, stack_children, apply,
}

AreSorted-get :
    (name : Text) (cs : Children) → AreSorted cs → AreSorted (children_below (get name cs))
unfolding IsSorted
AreSorted-get name cs hs = of_lookup (get name cs) refl
  where
    of_lookup : (n : Option Node) → get name cs ≡ n → AreSorted (children_below n)
    of_lookup none e = _
    of_lookup (some (dir info below)) e = get-IsSorted name cs (dir info below) hs e
    of_lookup (some file) e = _
    of_lookup (some (symlink link)) e = _
    of_lookup (some whiteout) e = _

AreSorted-kept : (info : DirMeta) (cs : Children) → AreSorted cs → AreSorted (kept_children info cs)
unfolding AreSorted
AreSorted-kept info cs hs = by_mark info.opaque
  where
    by_mark : (b : Bool) → AreSorted (if b then empty else cs)
    by_mark true = _
    by_mark false = hs

mutual
  unfolding IsSorted stack_node

  IsSorted-stack_node :
      (n : Node) (below : Option Node)
      → IsSorted n
      → AreSorted (children_below below)
      → IsSorted (stack_node n below)
  IsSorted-stack_node (dir info us) below h hs =
      AreSorted-stack_children us (kept_children info (children_below below)) h
        (AreSorted-kept info (children_below below) hs)
  IsSorted-stack_node file below h hs = _
  IsSorted-stack_node (symlink link) below h hs = _
  IsSorted-stack_node whiteout below h hs = _

  AreSorted-stack_children :
      (us lower : Children) → AreSorted us → AreSorted lower → AreSorted (stack_children us lower)
  AreSorted-stack_children empty lower h hs = hs
  AreSorted-stack_children (child name u us) lower (after, hu, h) hs =
      AreSorted-stack_children us (put name (stack_node u (get name lower)) lower) h (
        AreSorted-put name (stack_node u (get name lower)) lower
          (IsSorted-stack_node u (get name lower) hu (AreSorted-get name lower hs)) hs)

pub AreSorted-apply :
    (o : FileSystem) (l : Layer)
    → AreSorted l.root.children
    → AreSorted o.root.children
    → AreSorted (apply o l).root.children
unfolding apply
AreSorted-apply o l h hs =
    AreSorted-stack_children l.root.children (kept_children l.root.info o.root.children) h
      (AreSorted-kept l.root.info o.root.children hs)
