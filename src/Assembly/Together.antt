-- ===== src/Assembly/Together.antt =====
-- fetch/assemble_collisions.go: the first walk of checkFileCollisions goes through a kit's tree and the tree of
-- the owned paths together.
use sandbox_kit_spec.Base.{
  ℕ, zero, suc, ◌≡◌, refl, sym, ap, ◌∙◌, Option, some, List, [], ◌∷◌, ◌++◌, append_assoc,
  append-nil, length, length-append, Text, Result, ok, err, ◌>>◌, arith,
}
use sandbox_kit_spec.Overlay.{
  Node, dir, file, symlink, whiteout, Children, empty, child, node_of, FileSystem,
}
use sandbox_kit_spec.Overlay.Expose.{Entry, entry_of, walk_node, walk_children, walk}
use sandbox_kit_spec.Assembly.Ownership.{
  OwnedNode, frame_at, cut_to, CollisionError, below, frame_for, check_node, check_walk,
}

-- The check by recursion on the kit's tree, with the owned node at its place.
unfoldable mutual
  unfolding check_node

  pub check_tree :
      Text → Option (List Text × OwnedNode) → Text → ℕ → Node → Result CollisionError (Unit {0})
  check_tree upper f name depth (dir info cs) =
      check_node upper (entry_of name depth (dir info cs)) f >> check_trees upper f (suc depth) cs
  check_tree upper f name depth file = check_node upper (entry_of name depth file) f
  check_tree upper f name depth (symlink link) =
      check_node upper (entry_of name depth (symlink link)) f
  check_tree upper f name depth whiteout = check_node upper (entry_of name depth whiteout) f

  pub check_trees :
      Text → Option (List Text × OwnedNode) → ℕ → Children → Result CollisionError (Unit {0})
  check_trees upper f depth empty = ok tt
  check_trees upper f depth (child name n cs) =
      check_tree upper (below name f) name depth n >> check_trees upper f depth cs

then_assoc : (a b c : Result CollisionError (Unit {0})) → ((a >> b) >> c) ≡ (a >> (b >> c))
then_assoc (ok u) b c = refl
then_assoc (err e) b c = refl

then_ok : (a : Result CollisionError (Unit {0})) → (a >> ok tt) ≡ a
then_ok (ok u) = refl
then_ok (err e) = refl

module _ {ℓ} {A : Type ℓ} where
  cut_to-append :
      (n : ℕ) (before after : List A) → length before ≡ n → cut_to n (before ++ after) ≡ before
  unfolding cut_to
  cut_to-append zero [] [] h = refl
  cut_to-append zero [] (x ∷ after) h = refl
  cut_to-append zero (x ∷ before) after h = ground arith
  cut_to-append (suc n) [] after h = ground arith
  cut_to-append (suc n) (x ∷ before) after h =
      ap (λ xs. x ∷ xs) (cut_to-append n before after (omega arith))

  cut_to-shorter : (n : ℕ) (xs : List A) → cut_to n (cut_to (suc n) xs) ≡ cut_to n xs
  unfolding cut_to
  cut_to-shorter zero [] = refl
  cut_to-shorter zero (x ∷ xs) = refl
  cut_to-shorter (suc n) [] = refl
  cut_to-shorter (suc n) (x ∷ xs) = ap (λ ys. x ∷ ys) (cut_to-shorter n xs)

frame_at-cut_to :
    (n : ℕ) (fs : List (Option (List Text × OwnedNode)))
    → frame_at n (cut_to (suc n) fs) ≡ frame_at n fs
unfolding frame_at cut_to
frame_at-cut_to zero [] = refl
frame_at-cut_to zero (f ∷ fs) = refl
frame_at-cut_to (suc n) [] = refl
frame_at-cut_to (suc n) (f ∷ fs) = frame_at-cut_to n fs

frame_at-append :
    (n : ℕ) (fs : List (Option (List Text × OwnedNode))) (f : Option (List Text × OwnedNode))
    → length fs ≡ n
    → frame_at n (fs ++ f ∷ []) ≡ f
unfolding frame_at
frame_at-append zero [] f h = refl
frame_at-append zero (g ∷ fs) f h = ground arith
frame_at-append (suc n) [] f h = ground arith
frame_at-append (suc n) (g ∷ fs) f h = frame_at-append n fs f (omega arith)

-- What follows a walk at a depth, whatever its stack has above that depth.
abbrev Follows :
    Text
    → OwnedNode
    → ℕ
    → List (Option (List Text × OwnedNode))
    → List Entry
    → Result CollisionError (Unit {0})
    → Type 0
Follows upper owners d base rest after =
    (stack : List (Option (List Text × OwnedNode)))
    → cut_to d stack ≡ base
    → check_walk upper owners stack rest ≡ after

-- One entry under the root.
check_walk-entry :
    (upper : Text) (owners : OwnedNode) (d : ℕ) (e : Entry) (es : List Entry)
    (base stack : List (Option (List Text × OwnedNode)))
    → e.depth ≡ suc d
    → cut_to (suc d) stack ≡ base
    → check_walk upper owners stack (e ∷ es) ≡ (
        check_node upper e (below e.name (frame_at d base))
        >> check_walk upper owners (base ++ below e.name (frame_at d base) ∷ []) es)
unfolding check_walk
check_walk-entry upper owners d e es base stack h k =
    ap
      (λ n.
        check_node upper e (frame_for e.name owners stack n)
        >> check_walk upper owners (cut_to n stack ++ frame_for e.name owners stack n ∷ []) es)
      h
    ∙ ap
        (λ f.
          check_node upper e (below e.name f)
          >> check_walk upper owners (cut_to (suc d) stack ++ below e.name f ∷ []) es)
        (sym (frame_at-cut_to d stack) ∙ ap (λ s. frame_at d s) k)
    ∙ ap
        (λ s.
          check_node upper e (below e.name (frame_at d base))
          >> check_walk upper owners (s ++ below e.name (frame_at d base) ∷ []) es)
        k

-- What follows the entry of a leaf.
check_walk-leaf :
    (upper : Text) (owners : OwnedNode) (d : ℕ) (e : Entry) (rest : List Entry)
    (base stack : List (Option (List Text × OwnedNode))) (after : Result CollisionError (Unit {0}))
    → length base ≡ suc d
    → e.depth ≡ suc d
    → cut_to (suc d) stack ≡ base
    → Follows upper owners (suc d) base rest after
    → check_walk upper owners stack (e ∷ rest)
      ≡ (check_node upper e (below e.name (frame_at d base)) >> after)
check_walk-leaf upper owners d e rest base stack after l h k follows =
    check_walk-entry upper owners d e rest base stack h k
    ∙ ap (λ r. check_node upper e (below e.name (frame_at d base)) >> r)
        (follows (base ++ below e.name (frame_at d base) ∷ [])
          (cut_to-append (suc d) base (below e.name (frame_at d base) ∷ []) l))

mutual
  unfolding check_tree walk_node

  check_walk-check_tree :
      (upper : Text) (owners : OwnedNode) (name : Text) (d : ℕ) (n : Node) (rest : List Entry)
      (base stack : List (Option (List Text × OwnedNode)))
      (after : Result CollisionError (Unit {0}))
      → length base ≡ suc d
      → cut_to (suc d) stack ≡ base
      → Follows upper owners (suc d) base rest after
      → check_walk upper owners stack (walk_node name (suc d) n ++ rest)
        ≡ (check_tree upper (below name (frame_at d base)) name (suc d) n >> after)
  check_walk-check_tree upper owners name d (dir info cs) rest base stack after l k follows =
      let f = below name (frame_at d base) in
      let e = entry_of name (suc d) (dir info cs) in
      check_walk-entry upper owners d e (walk_children (suc (suc d)) cs ++ rest) base stack refl k
      ∙ ap (λ r. check_node upper e f >> r)
          (check_walk-check_trees upper owners (suc d) cs rest (base ++ f ∷ []) (base ++ f ∷ [])
              after (length-append base (f ∷ []) ∙ omega arith)
              (ap (λ xs. cut_to (suc (suc d)) xs) (sym (append-nil (base ++ f ∷ [])))
                ∙ cut_to-append (suc (suc d)) (base ++ f ∷ []) []
                    (length-append base (f ∷ []) ∙ omega arith))
              (λ s h. follows s (
                sym (cut_to-shorter (suc d) s)
                ∙ ap (λ xs. cut_to (suc d) xs) h
                ∙ cut_to-append (suc d) base (f ∷ []) l))
            ∙ ap (λ g. check_trees upper g (suc (suc d)) cs >> after)
                (frame_at-append (suc d) base f l))
      ∙ sym (then_assoc (check_node upper e f) (check_trees upper f (suc (suc d)) cs) after)
  check_walk-check_tree upper owners name d file rest base stack after l k follows =
      check_walk-leaf upper owners d (entry_of name (suc d) file) rest base stack after l refl k
        follows
  check_walk-check_tree upper owners name d (symlink link) rest base stack after l k follows =
      check_walk-leaf upper owners d (entry_of name (suc d) (symlink link)) rest base stack after l
        refl k follows
  check_walk-check_tree upper owners name d whiteout rest base stack after l k follows =
      check_walk-leaf upper owners d (entry_of name (suc d) whiteout) rest base stack after l refl k
        follows

  check_walk-check_trees :
      (upper : Text) (owners : OwnedNode) (d : ℕ) (cs : Children) (rest : List Entry)
      (base stack : List (Option (List Text × OwnedNode)))
      (after : Result CollisionError (Unit {0}))
      → length base ≡ suc d
      → cut_to (suc d) stack ≡ base
      → Follows upper owners (suc d) base rest after
      → check_walk upper owners stack (walk_children (suc d) cs ++ rest)
        ≡ (check_trees upper (frame_at d base) (suc d) cs >> after)
  check_walk-check_trees upper owners d empty rest base stack after l k follows = follows stack k
  check_walk-check_trees upper owners d (child name n cs) rest base stack after l k follows =
      ap (λ es. check_walk upper owners stack es)
        (append_assoc (walk_node name (suc d) n) (walk_children (suc d) cs) rest)
      ∙ check_walk-check_tree upper owners name d n (walk_children (suc d) cs ++ rest) base stack
          (check_trees upper (frame_at d base) (suc d) cs >> after) l k
          (λ s h. check_walk-check_trees upper owners d cs rest base s after l h follows)
      ∙ sym (
          then_assoc (check_tree upper (below name (frame_at d base)) name (suc d) n)
            (check_trees upper (frame_at d base) (suc d) cs) after)

-- The walk over the entries with a stack checks each node of a kit's tree against the owned node at its
-- own path, or against none where nothing is owned there.
pub check_walk-walk :
    (upper : Text) (owners : OwnedNode) (o : FileSystem)
    → check_walk upper owners (some ([], owners) ∷ []) (walk o)
      ≡ check_tree upper (some ([], owners)) [] 0 (node_of o.root)
unfolding check_walk walk check_tree walk_node frame_at cut_to
check_walk-walk upper owners o =
    let f = some ([], owners) in
    let e = entry_of [] 0 (node_of o.root) in
    ap (λ r. check_node upper e f >> r)
      (ap (λ es. check_walk upper owners (f ∷ []) es)
          (sym (append-nil (walk_children 1 o.root.children)))
        ∙ check_walk-check_trees upper owners 0 o.root.children [] (f ∷ []) (f ∷ []) (ok tt) refl
            refl (λ s h. refl)
        ∙ then_ok (check_trees upper f 1 o.root.children))
