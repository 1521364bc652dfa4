-- ===== src/Assembly/Tests.antt =====
-- The theorems on the assembly's listing and its collisions at concrete kits, and runs of its functions.
use sandbox_kit_spec.Base.{
  ◌≡◌, ◌≤◌, refl, true, false, some, none, Option, List, [], ◌∷◌, ◌++◌, Text, codes, ok, err,
}
use sandbox_kit_spec.Overlay.{node_of, new_layer}
use sandbox_kit_spec.Overlay.Expose.{walk}
use sandbox_kit_spec.Overlay.Extract.{Header, TypeFlag, other}
use sandbox_kit_spec.Overlay.Stack.Rule.{shown, find, overlay}
use sandbox_kit_spec.Resolve.Kit.{Kit}
use sandbox_kit_spec.Assembly.{
  KitInventory, Budget, path_components, LayerKey, LoadedKit, inventory_kits,
}
use sandbox_kit_spec.Assembly.Sizes.{size}
use sandbox_kit_spec.Assembly.Charged.{inventory_kits-size}
use sandbox_kit_spec.Assembly.Extracted.{add_prefix, overlay_model, overlay_model-overlay}
use sandbox_kit_spec.Assembly.Ownership.{
  OwnedNode, owner, owned, no_owners, new_owners, check_walk, check_file_collisions, file_collision,
  claim_walk,
}
use sandbox_kit_spec.Assembly.Together.{check_tree, check_walk-walk}

abbrev header : Text → TypeFlag → Header
header name flag = record {
  name = name;
  typeflag = flag;
  linkname = [];
  uid = 0;
  gid = 0;
  mode = 493;
  devmajor = 0;
  devminor = 0;
}

abbrev below : List Header
below = header (codes "usr/bin/x") other ∷ []

abbrev above : List Header
above = header (codes "usr/.wh.bin") other ∷ []

overlay_model-overlay_example :
    shown (
      find
        (codes "usr" ∷ codes "bin" ∷ [])
        (some (node_of (overlay_model (([] ++ below ∷ []) ++ above ∷ [])).root)))
    ≡ overlay
        (codes "usr" ∷ codes "bin" ∷ [])
        (some (node_of (add_prefix above (new_layer (overlay_model ([] ++ below ∷ [])))).root))
        (some (node_of (overlay_model ([] ++ below ∷ [])).root))
overlay_model-overlay_example =
    overlay_model-overlay ([] ++ below ∷ []) above (codes "usr" ∷ codes "bin" ∷ [])

abbrev kit : Text → List (List Header) → KitInventory
kit reference layers = record { reference = reference; layers = layers }

collided :
    check_file_collisions (kit (codes "one") (below ∷ []) ∷ kit (codes "two") (above ∷ []) ∷ [])
    ≡ err (file_collision (codes "/usr/bin") (codes "one") (codes "two"))
unfolding check_file_collisions
collided = refl

shared :
    check_file_collisions (
      kit (codes "one") (below ∷ [])
      ∷ kit (codes "two") ((header (codes "usr/bin/y") other ∷ []) ∷ [])
      ∷ [])
    ≡ ok tt
unfolding check_file_collisions
shared = refl

-- What the first kit owns.
abbrev owners : OwnedNode
owners = owner [] false (
    owned (codes "usr")
      (owner (codes "one") true (
        owned (codes "bin")
          (owner (codes "one") true
            (owned (codes "x") (owner (codes "one") false no_owners) no_owners))
          no_owners))
      no_owners)

claimed : claim_walk (codes "one") [] new_owners (walk (overlay_model (below ∷ []))) ≡ owners
unfolding claim_walk overlay_model walk
claimed = refl

check_walk-walk_example :
    check_walk (codes "two") owners (some ([], owners) ∷ []) (walk (overlay_model (above ∷ [])))
    ≡ check_tree (codes "two") (some ([], owners)) [] 0 (node_of (overlay_model (above ∷ [])).root)
check_walk-walk_example = check_walk-walk (codes "two") owners (overlay_model (above ∷ []))

counted : path_components (codes "/usr//bin/x/") ≡ 3
unfolding path_components
counted = refl

abbrev key : LayerKey
key = record { digest = codes "sha256:1"; size = 10; diff_id = codes "sha256:2" }

-- One layer, twice: the second time from the cache.
abbrev loaded : Text → Option LoadedKit
loaded reference = some (record {
  loader = some (λ k. record { headers = below; failure = none });
  layers = some (key ∷ key ∷ []);
})

abbrev unit : Kit
unit = record {
  address = 1;
  reference = codes "one";
  digest = [];
  descriptor = record {
    kind = codes "workload";
    version = [];
    provides = [];
    requires = [];
    integrates = [];
    conflicts = [];
    capabilities = [];
  };
}

abbrev inventoried : List KitInventory × Budget
inventoried = (
  kit (codes "one") (below ∷ below ∷ []) ∷ [],
  record {
    layers_left = 4094;
    entries_left = 249998;
    path_bytes_left = 33554414;
    components_left = 249994;
  },
)

inventory_kits-size_example :
    ((size inventoried.0).layers ≤ 4096)
    × ((size inventoried.0).entries ≤ 250000)
    × ((size inventoried.0).bytes ≤ 33554432)
    × ((size inventoried.0).components ≤ 250000)
unfolding inventory_kits
inventory_kits-size_example = inventory_kits-size loaded (unit ∷ []) inventoried refl
