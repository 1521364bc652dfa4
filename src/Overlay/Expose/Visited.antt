-- ===== src/Overlay/Expose/Visited.antt =====
-- internal/overlayfs/fs.go: Walk calls back on the nodes of the stacked tree, each at the depth of its path.
use sandbox_kit_spec.Base.{
  ℕ, suc, ◌+◌, ◌≡◌, ◌↔◌, refl, sym, ap, subst, ◌∙◌, Option, none, some, List, [], ◌∷◌, length, Text,
  compare_text, compare_text_self, compare_text-eq-eq, Ordering, lt, eq, gt, arith,
}
use mathlib.Core.Logic.{⊎_elim}
use mathlib.Core.List.{Memᴰ}
use mathlib.Core.List.Memᴰ
use sandbox_kit_spec.Overlay.{
  Node, dir, file, symlink, whiteout, Children, empty, child, node_of, get, get_by, FileSystem,
}
use sandbox_kit_spec.Overlay.Names.{IsAfter, IsSorted, AreSorted, IsAfter-trans, get-after}
use sandbox_kit_spec.Overlay.Stack.Rule.{find, find-none}
use sandbox_kit_spec.Overlay.Expose.{Entry, walk_node, walk_children, walk}
use sandbox_kit_spec.Overlay.Expose.Visits.{visit, last_name, visited, mem-find}

-- What is visited under a node, or in a directory, is at a path.
abbrev IsAt : Text → ℕ → Option Node → Entry → Type 0
IsAt name depth n e =
    (segs : List Text) × (m : Node) × (find segs n ≡ some m)
    × (e ≡ visit (last_name name segs) (depth + length segs) m)

abbrev IsIn : ℕ → Children → Entry → Type 0
IsIn depth cs e = (seg : Text) × IsAt seg depth (get seg cs) e

IsAt-self :
    (name : Text) (depth : ℕ) (n : Node) (e : Entry)
    → e ≡ visit name depth n
    → IsAt name depth (some n) e
unfolding find
IsAt-self name depth n e h = ([], n, refl, h ∙ ap (λ d. visit name d n) (omega arith))

IsIn-first :
    (k : Text) (depth : ℕ) (n : Node) (cs : Children) (e : Entry)
    → IsAt k depth (some n) e
    → IsIn depth (child k n cs) e
unfolding get
IsIn-first k depth n cs e h =
    (k, subst (λ o. IsAt k depth (get_by o n (get k cs)) e) (sym (compare_text_self k)) h)

get-later :
    (seg k : Text) (n c : Node) (cs : Children)
    → IsAfter k cs
    → get seg cs ≡ some c
    → get seg (child k n cs) ≡ some c
unfolding get
get-later seg k n c cs after h = by_order (compare_text seg k) refl
  where
    by_order : (o : Ordering) → compare_text seg k ≡ o → get_by o n (get seg cs) ≡ some c
    by_order lt o = let gone = get-after seg cs (IsAfter-trans seg k cs o after) in cc
    by_order eq o =
        let gone =
          get-after seg cs (subst (λ t. IsAfter t cs) (sym (compare_text-eq-eq seg k o)) after) in
        cc
    by_order gt o = h

IsIn-later :
    (k : Text) (depth : ℕ) (n : Node) (cs : Children) (e : Entry)
    → IsAfter k cs
    → IsIn depth cs e
    → IsIn depth (child k n cs) e
IsIn-later k depth n cs e after (seg, (segs, m, found, h)) =
    (seg, (segs, m, by_child (get seg cs) refl found, h))
  where
    by_child :
        (o : Option Node)
        → get seg cs ≡ o
        → find segs o ≡ some m
        → find segs (get seg (child k n cs)) ≡ some m
    by_child none g d = let gone = find-none segs in cc
    by_child (some c) g d = ap (find segs) (get-later seg k n c cs after g) ∙ d

IsAt-below :
    (name : Text) (depth : ℕ) (n : Node) (cs : Children) (e : Entry)
    → ((seg : Text) (segs : List Text) → find (seg ∷ segs) (some n) ≡ find segs (get seg cs))
    → IsIn (suc depth) cs e
    → IsAt name depth (some n) e
IsAt-below name depth n cs e inside (seg, (segs, m, found, h)) = (
  seg ∷ segs,
  m,
  inside seg segs ∙ found,
  h ∙ ap (λ d. visit (last_name seg segs) d m) (omega arith),
)

mutual
  unfolding walk_node IsSorted find

  IsAt-walk_node :
      (name : Text) (depth : ℕ) (n : Node) (e : Entry)
      → IsSorted n
      → Memᴰ e (walk_node name depth n)
      → IsAt name depth (some n) e
  IsAt-walk_node name depth (dir info cs) e hs m =
      ⊎_elim (IsAt-self name depth (dir info cs) e)
        (λ below.
          IsAt-below name depth (dir info cs) cs e (λ seg segs. refl)
            (IsIn-walk_children (suc depth) cs e hs below))
        (Memᴰ.cases_cons m)
  IsAt-walk_node name depth file e hs m = IsAt-self name depth file e (Memᴰ.eq_of_singleton m)
  IsAt-walk_node name depth (symlink link) e hs m =
      IsAt-self name depth (symlink link) e (Memᴰ.eq_of_singleton m)
  IsAt-walk_node name depth whiteout e hs m =
      IsAt-self name depth whiteout e (Memᴰ.eq_of_singleton m)

  IsIn-walk_children :
      (depth : ℕ) (cs : Children) (e : Entry)
      → AreSorted cs
      → Memᴰ e (walk_children depth cs)
      → IsIn depth cs e
  IsIn-walk_children depth empty e hs m = absurd (Memᴰ.not-nil m)
  IsIn-walk_children depth (child k n cs) e (after, hn, hs) m =
      ⊎_elim (λ first. IsIn-first k depth n cs e (IsAt-walk_node k depth n e hn first))
        (λ later. IsIn-later k depth n cs e after (IsIn-walk_children depth cs e hs later))
        (Memᴰ.append_cases (walk_node k depth n) m)

-- The walk of a file system whose names are in order calls back on the entry of the node at each path that
-- leads to one, with the last name of the path, the number of its names as the depth, and what the
-- node is, and on no other entry.
pub mem-walk :
    (o : FileSystem) (e : Entry)
    → AreSorted o.root.children
    → Memᴰ e (walk o) ↔ (
        (segs : List Text) × (m : Node) × (find segs (some (node_of o.root)) ≡ some m)
        × (e ≡ visited segs m))
unfolding walk IsSorted
mem-walk o e hs = (
  λ walked.
      let (segs, m, found, same) = IsAt-walk_node [] 0 (node_of o.root) e hs walked in
      (segs, m, found, same ∙ from_root segs m),
  λ h.
      let (segs, m, found, same) = h in
      Memᴰ.cast (same ∙ sym (from_root segs m)) (mem-find segs [] 0 (node_of o.root) m found),
)
  where
    from_root :
        (segs : List Text) (m : Node)
        → visit (last_name [] segs) (0 + length segs) m ≡ visited segs m
    from_root segs m = ap (λ d. visit (last_name [] segs) d m) (omega arith)
