-- ===== src/Inventory/Collisions.antt =====
-- assemble/inventory.go: CheckCollisions. The two maps from paths are lists here, the collisions with
-- the kits of each path in their order.
use sandbox_kit_spec.Base.{
  Option, none, some, List, [], ◌∷◌, ◌++◌, Text, codes, text_eq, compare_text, lt, eq, gt, join,
  if◌then◌else◌,
}

-- Inventory
pub record Inventory : Type 0 where
  pub kit : Text
  pub files : List Text

-- owner[f]
unfoldable pub owner_of : Text → List (Text × Text) → Option Text
unfolding text_eq
owner_of f [] = none
owner_of f ((g, kit) ∷ owners) =
    let later = owner_of f owners in if text_eq f g then some kit else later

-- collisions[f] with a kit appended, after the kit that had it where it is the first
unfoldable pub collide : Text → Text → Text → List (Text × List Text) → List (Text × List Text)
unfolding text_eq
collide f prev kit [] = (f, prev ∷ kit ∷ []) ∷ []
collide f prev kit ((g, kits) ∷ cs) =
    let later = collide f prev kit cs in
    if text_eq f g then (g, kits ++ kit ∷ []) ∷ cs else (g, kits) ∷ later

pub record Owned : Type 0 where
  pub owners : List (Text × Text)
  pub collisions : List (Text × List Text)

-- The switch on who has the path.
abbrev pub contribute : Text → Text → Option Text → Owned → Owned
contribute kit f none o = record { owners = (f, kit) ∷ o.owners; collisions = o.collisions }
contribute kit f (some prev) o = record {
  owners = o.owners;
  collisions = if text_eq prev kit then o.collisions else collide f prev kit o.collisions;
}

unfoldable pub own_files : Text → List Text → Owned → Owned
unfolding owner_of collide text_eq
own_files kit [] o = o
own_files kit (f ∷ fs) o = own_files kit fs (contribute kit f (owner_of f o.owners) o)

unfoldable pub own_all : List Inventory → Owned → Owned
unfolding own_files
own_all [] o = o
own_all (inv ∷ invs) o = own_all invs (own_files inv.kit inv.files o)

abbrev pub no_owners : Owned
no_owners = record { owners = []; collisions = [] }

-- sort.Strings of the paths
unfoldable pub insert_path : Text × List Text → List (Text × List Text) → List (Text × List Text)
unfolding compare_text
insert_path c [] = c ∷ []
insert_path c (d ∷ cs) =
    let later = insert_path c cs in
    elim (compare_text c.0 d.0) [ lt ↦ c ∷ d ∷ cs | eq ↦ c ∷ d ∷ cs | gt ↦ d ∷ later ]

unfoldable pub sort_paths : List (Text × List Text) → List (Text × List Text)
unfolding insert_path
sort_paths [] = []
sort_paths (c ∷ cs) = insert_path c (sort_paths cs)

unfoldable pub collision_lines : List (Text × List Text) → Text
unfolding join
collision_lines [] = []
collision_lines ((f, kits) ∷ cs) =
    codes "\n  /"
    ++ (f ++ (codes ": contributed by " ++ (join (codes " and ") kits ++ collision_lines cs)))

abbrev pub collision_error : List (Text × List Text) → Option Text
collision_error [] = none
collision_error (c ∷ cs) =
    some (codes "kit file collisions:" ++ collision_lines (sort_paths (c ∷ cs)))

-- CheckCollisions
unfoldable pub check_collisions : List Inventory → Option Text
unfolding own_all collision_lines sort_paths
check_collisions invs = collision_error (own_all invs no_owners).collisions
