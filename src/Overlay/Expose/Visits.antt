-- ===== src/Overlay/Expose/Visits.antt =====
-- internal/overlayfs/fs.go: Walk calls back on the node at each path that leads to one.
use sandbox_kit_spec.Base.{
  ℕ, suc, ◌+◌, ◌≡◌, refl, sym, ap, subst, Bool, true, false, Option, none, some, some-injective,
  List, [], ◌∷◌, ◌++◌, length, Text, compare_text, compare_text-eq-eq, Ordering, lt, eq, gt, arith,
}
use mathlib.Core.List.{Memᴰ}
use mathlib.Core.List.Memᴰ
use sandbox_kit_spec.Overlay.{
  Node, dir, file, symlink, whiteout, Children, empty, child, get, get_by,
}
use sandbox_kit_spec.Overlay.Stack.Rule.{find, find-none}
use sandbox_kit_spec.Overlay.Expose.{Entry, walk_node, walk_children}

-- The callback's entry for a node of a name at a depth.
abbrev is_directory : Node → Bool
is_directory (dir info cs) = true
is_directory file = false
is_directory (symlink link) = false
is_directory whiteout = false

abbrev is_whiteout : Node → Bool
is_whiteout (dir info cs) = false
is_whiteout file = false
is_whiteout (symlink link) = false
is_whiteout whiteout = true

abbrev is_opaque : Node → Bool
is_opaque (dir info cs) = info.opaque
is_opaque file = false
is_opaque (symlink link) = false
is_opaque whiteout = false

abbrev pub visit : Text → ℕ → Node → Entry
visit name depth n = record {
  name = name;
  depth = depth;
  directory = is_directory n;
  whiteout = is_whiteout n;
  opaque = is_opaque n;
}

abbrev pub last_name : Text → List Text → Text
last_name name [] = name
last_name name (seg ∷ segs) = last_name seg segs

-- The entry of the node at a path: its last name, the number of its names, and what it is.
abbrev pub visited : List Text → Node → Entry
visited segs n = visit (last_name [] segs) (length segs) n

mem-walk_node :
    (name : Text) (depth : ℕ) (n : Node) → Memᴰ (visit name depth n) (walk_node name depth n)
unfolding walk_node
mem-walk_node name depth (dir info cs) = Memᴰ.head refl
mem-walk_node name depth file = Memᴰ.head refl
mem-walk_node name depth (symlink link) = Memᴰ.head refl
mem-walk_node name depth whiteout = Memᴰ.head refl

mem-walk_children :
    (seg : Text) (depth : ℕ) (cs : Children) (c : Node) (e : Entry)
    → get seg cs ≡ some c
    → Memᴰ e (walk_node seg depth c)
    → Memᴰ e (walk_children depth cs)
unfolding get walk_children
mem-walk_children seg depth empty c e h m = cc
mem-walk_children seg depth (child k n cs) c e h m =
    by_order (compare_text seg k) refl h (λ later. mem-walk_children seg depth cs c e later m)
  where
    by_order :
        (o : Ordering)
        → compare_text seg k ≡ o
        → get_by o n (get seg cs) ≡ some c
        → (get seg cs ≡ some c → Memᴰ e (walk_children depth cs))
        → Memᴰ e (walk_node k depth n ++ walk_children depth cs)
    by_order lt o d rest = cc
    by_order eq o d rest = Memᴰ.append_left (walk_children depth cs) (
        subst (λ t. Memᴰ e (walk_node t depth n)) (compare_text-eq-eq seg k o)
          (subst (λ x. Memᴰ e (walk_node seg depth x)) (sym (some-injective n c d)) m))
    by_order gt o d rest = Memᴰ.append_right (walk_node k depth n) (rest d)

-- The node at a path is visited.
pub mem-find :
    (segs : List Text) (name : Text) (depth : ℕ) (n m : Node)
    → find segs (some n) ≡ some m
    → Memᴰ (visit (last_name name segs) (depth + length segs) m) (walk_node name depth n)
unfolding find walk_node
mem-find [] name depth n m e = Memᴰ.cast (ap (λ d. visit name d m) (omega arith)) (
    Memᴰ.cast (ap (λ x. visit name depth x) (sym (some-injective n m e)))
      (mem-walk_node name depth n))
mem-find (seg ∷ segs) name depth (dir info cs) m e =
    Memᴰ.tail (by_child (get seg cs) refl e (λ c. mem-find segs seg (suc depth) c m))
  where
    by_child :
        (o : Option Node)
        → get seg cs ≡ o
        → find segs o ≡ some m
        → ((c : Node)
            → find segs (some c) ≡ some m
            → Memᴰ
                (visit (last_name seg segs) (suc depth + length segs) m)
                (walk_node seg (suc depth) c))
        → Memᴰ
            (visit (last_name seg segs) (depth + suc (length segs)) m)
            (walk_children (suc depth) cs)
    by_child none h d below = let gone = find-none segs in cc
    by_child (some c) h d below =
        Memᴰ.cast (ap (λ k. visit (last_name seg segs) k m) (omega arith)) (
          mem-walk_children seg (suc depth) cs c
            (visit (last_name seg segs) (suc depth + length segs) m) h (below c d))
mem-find (seg ∷ segs) name depth file m e = let gone = find-none segs in cc
mem-find (seg ∷ segs) name depth (symlink link) m e = let gone = find-none segs in cc
mem-find (seg ∷ segs) name depth whiteout m e = let gone = find-none segs in cc
