-- ===== src/Assembly/Ownership.antt =====
-- fetch/assemble_collisions.go: checkFileCollisions. The code indexes the owned paths by a tree of nodes with
-- links to their parents and to the first node that came under them; here the tree is a value, its
-- children are in the order in which they came, so the first of them is that node, and a walk's stack
-- has each node with its path.
use sandbox_kit_spec.Base.{
  ℕ, zero, suc, Bool, false, not, ◌||◌, ◌&&◌, Option, none, some, List, [], ◌∷◌, ◌++◌, Text, codes,
  text_eq, join, is_empty, if◌then◌else◌, Result, ok, err, ◌>>=◌,
}
use sandbox_kit_spec.Overlay.Expose.{Entry, walk}
use sandbox_kit_spec.Assembly.{KitInventory}
use sandbox_kit_spec.Assembly.Extracted.{extracted}

-- ownershipNode: the kit, whether it is a directory, and the children.
mutual
  pub data OwnedNode : Type 0 where
    owner : Text → Bool → Owners → OwnedNode

  pub data Owners : Type 0 where
    no_owners : Owners
    owned : Text → OwnedNode → Owners → Owners

abbrev pub new_owners : OwnedNode
new_owners = owner [] false no_owners

abbrev pub kit_of : OwnedNode → Text
kit_of (owner kit directory os) = kit

abbrev pub is_directory : OwnedNode → Bool
is_directory (owner kit directory os) = directory

abbrev pub children_of : OwnedNode → Owners
children_of (owner kit directory os) = os

-- children[name]
unfoldable pub owned_at : Text → Owners → Option OwnedNode
unfolding text_eq
owned_at name no_owners = none
owned_at name (owned other o os) =
    let later = owned_at name os in if text_eq name other then some o else later

-- descendant: its name and its kit
abbrev pub descendant : Owners → Option (Text × Text)
descendant no_owners = none
descendant (owned name o os) = some (name, kit_of o)

-- A node on the stack, with the components of its path; none where nothing is owned.
abbrev pub below : Text → Option (List Text × OwnedNode) → Option (List Text × OwnedNode)
below name none = none
below name (some (at, o)) = elim (owned_at name (children_of o)) [
  | none ↦ none
  | some p ↦ some (at ++ name ∷ [], p)
]

-- stack[d - 1] and stack[:d], of a stack that holds the root first
unfoldable pub frame_at : ℕ → List (Option (List Text × OwnedNode)) → Option (List Text × OwnedNode)
frame_at n [] = none
frame_at zero (f ∷ fs) = f
frame_at (suc n) (f ∷ fs) = frame_at n fs

unfoldable pub cut_to {ℓ} : {A : Type ℓ} → ℕ → List A → List A
cut_to n [] = []
cut_to zero (f ∷ fs) = []
cut_to (suc n) (f ∷ fs) = f ∷ cut_to n fs

-- fileCollision: the path, the kit that has it and the kit that takes it, or the entry that cannot
-- be extracted.
pub data CollisionError : Type 0 where
  cannot_extract : Text → Text → CollisionError
  file_collision : Text → Text → Text → CollisionError

abbrev pub path_of : List Text → Text
path_of segs = codes "/" ++ join (codes "/") segs

abbrev taken : Entry → OwnedNode → Bool
taken e o = not (is_empty (kit_of o)) && (not e.directory || not (is_directory o))

abbrev check_descendant :
    Text → Entry → List Text → Option (Text × Text) → Result CollisionError (Unit {0})
check_descendant upper e at none = ok tt
check_descendant upper e at (some (name, kit)) =
    if not e.directory || e.opaque
    then err (file_collision (path_of (at ++ name ∷ [])) kit upper)
    else ok tt

-- The first callback's judgement of a node.
unfoldable pub check_node :
    Text → Entry → Option (List Text × OwnedNode) → Result CollisionError (Unit {0})
unfolding join
check_node upper e none = ok tt
check_node upper e (some (at, o)) =
    if taken e o
    then err (file_collision (path_of at) (kit_of o) upper)
    else check_descendant upper e at (descendant (children_of o))

-- The first walk: nothing is inserted before the whole kit is checked.
abbrev pub frame_for :
    Text → OwnedNode → List (Option (List Text × OwnedNode)) → ℕ → Option (List Text × OwnedNode)
frame_for name owners stack zero = some ([], owners)
frame_for name owners stack (suc d) = below name (frame_at d stack)

abbrev pub frame_of :
    Entry → OwnedNode → List (Option (List Text × OwnedNode)) → Option (List Text × OwnedNode)
frame_of e owners stack = frame_for e.name owners stack e.depth

unfoldable pub check_walk :
    Text
    → OwnedNode
    → List (Option (List Text × OwnedNode))
    → List Entry
    → Result CollisionError (Unit {0})
unfolding check_node frame_at cut_to owned_at
check_walk upper owners stack [] = ok tt
check_walk upper owners stack (e ∷ es) = do
  _ ← check_node upper e (frame_of e owners stack)
  check_walk upper owners (cut_to e.depth stack ++ frame_of e owners stack ∷ []) es

-- A node of a kit under a parent, at the end, where there is none.
unfoldable pub claim : Text → Text → Bool → Owners → Owners
unfolding text_eq
claim name kit directory no_owners = owned name (owner kit directory no_owners) no_owners
claim name kit directory (owned other o os) =
    let later = claim name kit directory os in
    if text_eq name other then owned other o os else owned other o later

-- The tree with a change of the node at a path.
unfoldable mutual
  unfolding text_eq

  pub change_owner : (Owners → Owners) → List Text → OwnedNode → OwnedNode
  change_owner f [] (owner kit directory os) = owner kit directory (f os)
  change_owner f (seg ∷ segs) (owner kit directory os) =
      owner kit directory (change_owners f seg segs os)

  pub change_owners : (Owners → Owners) → Text → List Text → Owners → Owners
  change_owners f seg segs no_owners = no_owners
  change_owners f seg segs (owned name o os) =
      let here = change_owner f segs o in
      let later = change_owners f seg segs os in
      if text_eq seg name then owned name here os else owned name o later

-- The second walk, with the names on its stack under the root. A whiteout claims nothing and leaves
-- its parent on top.
unfoldable pub claim_walk : Text → List Text → OwnedNode → List Entry → OwnedNode
unfolding claim change_owner cut_to
claim_walk kit names owners [] = owners
claim_walk kit names owners (e ∷ es) = elim e.depth [
  | zero ↦ claim_walk kit names owners es
  | suc d ↦
      let parent = cut_to d names in
      let left = claim_walk kit parent owners es in
      let added =
        claim_walk kit (parent ++ e.name ∷ [])
          (change_owner (claim e.name kit e.directory) parent owners) es in
      if e.whiteout then left else added
]

abbrev refused_entry {ℓ} : {A : Type ℓ} → Text → Result Text A → Result CollisionError A
refused_entry reference (ok a) = ok a
refused_entry reference (err name) = err (cannot_extract reference name)

-- checkFileCollisions, with the tree of the kits before
unfoldable pub check_kits : OwnedNode → List KitInventory → Result CollisionError (Unit {0})
unfolding extracted walk check_walk claim_walk
check_kits owners [] = ok tt
check_kits owners (inv ∷ invs) = do
  model ← refused_entry inv.reference (extracted inv.layers)
  _ ← check_walk inv.reference owners (some ([], owners) ∷ []) (walk model)
  check_kits (claim_walk inv.reference [] owners (walk model)) invs

unfoldable pub check_file_collisions : List KitInventory → Result CollisionError (Unit {0})
unfolding check_kits
check_file_collisions invs = check_kits new_owners invs
