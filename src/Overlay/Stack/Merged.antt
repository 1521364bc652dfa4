-- ===== src/Overlay/Stack/Merged.antt =====
-- internal/overlayfs/fs.go: stack against the rule of an overlay file system, which looks a path up in
-- the upper layer and in what is below it.
use sandbox_kit_spec.Base.{
  ◌≡◌, refl, sym, ap, ap₂, subst, ◌∙◌, Bool, true, false, ◌||◌, if◌then◌else◌, Option, none, some,
  List, [], ◌∷◌, Text, compare_text, compare_text-eq-eq, Ordering, lt, eq, gt,
}
use sandbox_kit_spec.Overlay.{
  DirMeta, Node, dir, file, symlink, whiteout, Children, empty, child, node_of, get, get_by, put,
  FileSystem, Layer,
}
use sandbox_kit_spec.Overlay.Names.{
  IsAfter, IsSorted, AreSorted, get-put, get-put_other, get-after, get-IsSorted, IsAfter-trans,
}
use sandbox_kit_spec.Overlay.Stack.{
  over_meta, meta_below, children_below, kept_children, stack_node, stack_children, apply,
}
use sandbox_kit_spec.Overlay.Stack.Rule.{
  a_directory, known, shown, inside, find, known_below, hides, or_below, within, overlay,
}

abbrev merged_child : Option Node → Option Node → Option Node
merged_child none below = below
merged_child (some u) below = some (stack_node u below)

-- A name of a merged directory.
get-stack_children :
    (name : Text) (us lower : Children)
    → AreSorted us
    → get name (stack_children us lower) ≡ merged_child (get name us) (get name lower)
unfolding stack_children get AreSorted
get-stack_children name empty lower hs = refl
get-stack_children name (child k u us) lower (after, hu, hs) =
    by_order (compare_text name k) refl
      (get-stack_children name us (put k (stack_node u (get k lower)) lower) hs)
  where
    by_order :
        (o : Ordering)
        → compare_text name k ≡ o
        → get name (stack_children us (put k (stack_node u (get k lower)) lower))
          ≡ merged_child (get name us) (get name (put k (stack_node u (get k lower)) lower))
        → get name (stack_children us (put k (stack_node u (get k lower)) lower))
          ≡ merged_child (get_by (compare_text name k) u (get name us)) (get name lower)
    by_order lt c rest =
        rest
        ∙ ap₂ merged_child (get-after name us (IsAfter-trans name k us c after))
            (get-put_other name k (stack_node u (get k lower)) lower (λ e. cc))
        ∙ sym (ap (λ o. merged_child (get_by o u (get name us)) (get name lower)) c)
    by_order eq c rest =
        let same = compare_text-eq-eq name k c in
        rest
        ∙ ap₂ merged_child (get-after name us (subst (λ t. IsAfter t us) (sym same) after)) (
            ap (λ t. get t (put k (stack_node u (get k lower)) lower)) same
            ∙ get-put k (stack_node u (get k lower)) lower
            ∙ ap (λ t. some (stack_node u (get t lower))) (sym same))
        ∙ sym (ap (λ o. merged_child (get_by o u (get name us)) (get name lower)) c)
    by_order gt c rest =
        rest
        ∙ ap (λ below. merged_child (get name us) below)
            (get-put_other name k (stack_node u (get k lower)) lower (λ e. cc))
        ∙ sym (ap (λ o. merged_child (get_by o u (get name us)) (get name lower)) c)

abbrev IsOrdered : Option Node → Type 0
IsOrdered none = Unit
IsOrdered (some n) = IsSorted n

IsOrdered-get : (name : Text) (cs : Children) → AreSorted cs → IsOrdered (get name cs)
IsOrdered-get name cs hs = of_lookup (get name cs) refl
  where
    of_lookup : (n : Option Node) → get name cs ≡ n → IsOrdered n
    of_lookup none e = _
    of_lookup (some n) e = get-IsSorted name cs n hs e

known-over_meta :
    (upper lower : DirMeta) → known (over_meta upper lower) ≡ or_below (known upper) (known lower)
known-over_meta upper lower = by_tests upper.explicit lower.explicit
  where
    by_tests :
        (mine theirs : Bool)
        → (if mine || theirs
            then some (
              (if mine then upper.uid else lower.uid),
              (if mine then upper.gid else lower.gid),
              (if mine then upper.mode else lower.mode),
            )
            else none)
          ≡ or_below
              (if mine then some (upper.uid, upper.gid, upper.mode) else none)
              (if theirs then some (lower.uid, lower.gid, lower.mode) else none)
    by_tests true theirs = refl
    by_tests false true = refl
    by_tests false false = refl

known-meta_below : (below : Option Node) → known (meta_below below) ≡ known_below below
known-meta_below none = refl
known-meta_below (some (dir lower cs)) = refl
known-meta_below (some file) = refl
known-meta_below (some (symlink link)) = refl
known-meta_below (some whiteout) = refl

opaque-meta_below : (below : Option Node) → (meta_below below).opaque ≡ hides below
opaque-meta_below none = refl
opaque-meta_below (some (dir lower cs)) = refl
opaque-meta_below (some file) = refl
opaque-meta_below (some (symlink link)) = refl
opaque-meta_below (some whiteout) = refl

-- What a merged directory keeps of the one below.
get-kept_children :
    (info : DirMeta) (us : Children) (seg : Text) (below : Option Node)
    → get seg (kept_children info (children_below below)) ≡ within (dir info us) seg below
unfolding get
get-kept_children info us seg below = by_test info.opaque below
  where
    by_test :
        (b : Bool) (n : Option Node)
        → get seg (if b then empty else children_below n) ≡ (if b then none else inside seg n)
    by_test true n = refl
    by_test false none = refl
    by_test false (some (dir lower cs)) = refl
    by_test false (some file) = refl
    by_test false (some (symlink link)) = refl
    by_test false (some whiteout) = refl

-- A path of the stacked tree shows what the rule of an overlay gives.
merged-overlay :
    (segs : List Text) (upper : Option Node) (below : Option Node)
    → IsOrdered upper
    → shown (find segs (merged_child upper below)) ≡ overlay segs upper below
unfolding find overlay stack_node IsSorted
merged-overlay segs none below h = refl
merged-overlay [] (some (dir info us)) below h =
    ap₂ (λ k b. some (a_directory k b))
      (known-over_meta info (meta_below below)
        ∙ ap (or_below (known info)) (known-meta_below below))
      (ap (λ b. info.opaque || b) (opaque-meta_below below))
merged-overlay [] (some file) below h = refl
merged-overlay [] (some (symlink link)) below h = refl
merged-overlay [] (some whiteout) below h = refl
merged-overlay (seg ∷ segs) (some (dir info us)) below h =
    ap (λ n. shown (find segs n))
      (get-stack_children seg us (kept_children info (children_below below)) h
        ∙ ap (merged_child (get seg us)) (get-kept_children info us seg below))
    ∙ merged-overlay segs (get seg us) (within (dir info us) seg below) (IsOrdered-get seg us h)
merged-overlay (seg ∷ segs) (some file) below h = refl
merged-overlay (seg ∷ segs) (some (symlink link)) below h = refl
merged-overlay (seg ∷ segs) (some whiteout) below h = refl

-- Once a layer whose names are in order is applied, each path of the file system shows what the rule of
-- an overlay gives for the layer's tree over the file system that was there.
pub apply-overlay :
    (o : FileSystem) (l : Layer) (segs : List Text)
    → AreSorted l.root.children
    → shown (find segs (some (node_of (apply o l).root)))
      ≡ overlay segs (some (node_of l.root)) (some (node_of o.root))
unfolding apply stack_node IsSorted
apply-overlay o l segs h = merged-overlay segs (some (node_of l.root)) (some (node_of o.root)) h
