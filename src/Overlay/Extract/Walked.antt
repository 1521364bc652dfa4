-- ===== src/Overlay/Extract/Walked.antt =====
-- internal/overlayfs/fs.go: mkparent, and a change at a path, keep the names of each directory in order.
use sandbox_kit_spec.Base.{Bool, false, Option, none, some, List, [], ◌∷◌, reverse, Text, ◌≡◌, refl}
use sandbox_kit_spec.Overlay.{
  DirMeta, Node, dir, file, symlink, whiteout, Children, Dir, node_of, get,
}
use sandbox_kit_spec.Overlay.Lookup.{rooted_path}
use sandbox_kit_spec.Overlay.Names.{IsSorted, AreSorted, AreSorted-put, get-IsSorted}
use sandbox_kit_spec.Overlay.Extract.Parents.{
  dir_of, set_child, enter_or_make, inherit_dir_info, mkparent, change_at,
}

-- A directory whose names are in order, where there is one.
abbrev pub IsOrdered : Option Dir → Type 0
IsOrdered none = Unit
IsOrdered (some d) = AreSorted d.children

abbrev pub IsOrderedNode : Option Node → Type 0
IsOrderedNode none = Unit
IsOrderedNode (some n) = IsSorted n

pub IsOrderedNode-get : (name : Text) (cs : Children) → AreSorted cs → IsOrderedNode (get name cs)
IsOrderedNode-get name cs hs = of_lookup (get name cs) refl
  where
    of_lookup : (n : Option Node) → get name cs ≡ n → IsOrderedNode n
    of_lookup none e = _
    of_lookup (some n) e = get-IsSorted name cs n hs e

IsOrdered-enter_or_make :
    (made : Option DirMeta) (n : Option Node) → IsOrderedNode n → IsOrdered (enter_or_make made n)
unfolding IsSorted
IsOrdered-enter_or_make made (some (dir info cs)) h = h
IsOrdered-enter_or_make made (some file) h = _
IsOrdered-enter_or_make made (some (symlink link)) h = _
IsOrdered-enter_or_make made (some whiteout) h = _
IsOrdered-enter_or_make none none h = _
IsOrdered-enter_or_make (some info) none h = _

pub mkparent-AreSorted :
    (lowers : List Dir) (at segs : List Text) (cur : Dir)
    → AreSorted cur.children
    → AreSorted (mkparent lowers at segs cur).0.children
unfolding mkparent IsSorted
mkparent-AreSorted lowers at [] cur h = h
mkparent-AreSorted lowers at (seg ∷ segs) cur h =
    by_dir
      (enter_or_make (inherit_dir_info lowers (rooted_path (reverse (seg ∷ at))))
        (get seg cur.children))
      (IsOrdered-enter_or_make (inherit_dir_info lowers (rooted_path (reverse (seg ∷ at))))
        (get seg cur.children) (IsOrderedNode-get seg cur.children h))
      (mkparent-AreSorted lowers (seg ∷ at) segs)
  where
    by_dir :
        (d : Option Dir)
        → IsOrdered d
        → ((c : Dir)
            → AreSorted c.children
            → AreSorted (mkparent lowers (seg ∷ at) segs c).0.children)
        → AreSorted
            (elim d as (λ _. Dir × Bool) [
              | none ↦ (cur, false)
              | some c ↦
                  let (next, done) = mkparent lowers (seg ∷ at) segs c in
                  (set_child cur seg (node_of next), done)
            ]).0.children
    by_dir none k rest = h
    by_dir (some c) k rest = AreSorted-put seg _ cur.children (rest c k) h

-- A change that keeps the order keeps it at a path.
pub change_at-IsOrdered :
    (f : Dir → Option Dir) (segs : List Text) (cur : Dir)
    → ((d : Dir) → AreSorted d.children → IsOrdered (f d))
    → AreSorted cur.children
    → IsOrdered (change_at f segs cur)
unfolding change_at IsSorted
change_at-IsOrdered f [] cur k h = k cur h
change_at-IsOrdered f (seg ∷ segs) cur k h =
    by_node (get seg cur.children) (IsOrderedNode-get seg cur.children h)
      (λ d hd. change_at-IsOrdered f segs d k hd)
  where
    set_if-IsOrdered :
        (d : Option Dir)
        → IsOrdered d
        → IsOrdered (elim d as (λ _. Option Dir) [
          | none ↦ none
          | some c ↦ some (set_child cur seg (node_of c))
        ])
    set_if-IsOrdered none hd = _
    set_if-IsOrdered (some d) hd = AreSorted-put seg (node_of d) cur.children hd h

    by_node :
        (n : Option Node)
        → IsOrderedNode n
        → ((d : Dir) → AreSorted d.children → IsOrdered (change_at f segs d))
        → IsOrdered (elim n as (λ _. Option Dir) [
          | none ↦ none
          | some m ↦ elim m as (λ _. Option Dir) [
            | dir info cs ↦ elim (change_at f segs (dir_of info cs)) as (λ _. Option Dir) [
              | none ↦ none
              | some d ↦ some (set_child cur seg (node_of d))
            ]
            | file ↦ none
            | symlink link ↦ none
            | whiteout ↦ none
          ]
        ])
    by_node none hn rest = _
    by_node (some (dir info cs)) hn rest =
        set_if-IsOrdered (change_at f segs (dir_of info cs)) (rest (dir_of info cs) hn)
    by_node (some file) hn rest = _
    by_node (some (symlink link)) hn rest = _
    by_node (some whiteout) hn rest = _
