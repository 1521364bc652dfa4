-- ===== src/Overlay/Tests.antt =====
-- The theorems on internal/overlayfs/fs.go at concrete trees, and runs of its functions.
use sandbox_kit_spec.Base.{
  ◌≡◌, ◌≢◌, ◌↔◌, refl, false, compare_text, List, true, some, none, [], ◌∷◌, Text, codes, ok, err,
}
use mathlib.Core.List.{Memᴰ}
use sandbox_kit_spec.Overlay.{
  Node, node_of, dir, file, symlink, whiteout, empty, child, Dir, unknown_meta, new_dir, FileSystem,
  Layer, get,
}
use sandbox_kit_spec.Overlay.FilePath.{clean, base_name}
use sandbox_kit_spec.Overlay.Lookup.{lookup, found, lstat}
use sandbox_kit_spec.Overlay.RootPath.{root_path, refused, out_of_fuel}
use sandbox_kit_spec.Overlay.RootPath.Ends.{root_path-ne-out_of_fuel}
use sandbox_kit_spec.Overlay.Extract.{Header, TypeFlag, other, extract}
use sandbox_kit_spec.Overlay.Names.{AreSorted}
use sandbox_kit_spec.Overlay.Stack.{stack}
use sandbox_kit_spec.Overlay.Stack.Rule.{find}
use sandbox_kit_spec.Overlay.Expose.{Entry, walk, dangling_symlinks, dir_stat}
use sandbox_kit_spec.Overlay.Expose.Visited.{mem-walk}
use sandbox_kit_spec.Overlay.Expose.Visits.{visited}

abbrev header : Text → TypeFlag → Text → Header
header name flag link = record {
  name = name;
  typeflag = flag;
  linkname = link;
  uid = 0;
  gid = 0;
  mode = 493;
  devmajor = 0;
  devminor = 0;
}

-- lib leads to usr/lib, and loop to itself.
abbrev tree : Dir
tree = record {
  info = unknown_meta;
  children = child (codes "lib") (symlink (codes "usr/lib")) (
      child (codes "loop") (symlink (codes "loop")) (
        child (codes "usr")
          (dir unknown_meta
            (child (codes "lib") (dir unknown_meta (child (codes "a") file empty)) empty))
          empty));
}

cleaned : clean (codes "/a/../../b//./c/") ≡ codes "/b/c"
unfolding clean
cleaned = refl

cleaned_relative : clean (codes "../a/..") ≡ codes ".."
unfolding clean
cleaned_relative = refl

based : base_name (codes "/a/b/") ≡ codes "b"
unfolding base_name
based = refl

through_link : root_path tree (codes "lib/x") ≡ ok (codes "/usr/lib/x")
unfolding root_path
through_link = refl

around_loop : root_path tree (codes "loop/x") ≡ err refused
unfolding root_path
around_loop = refl

seen : lstat tree (codes "/lib/a") ≡ found file
unfolding lstat
seen = refl

looked_up : lookup tree tree [] (codes "/lib/../lib/a") 40 ≡ some file
unfolding lookup
looked_up = refl

-- A file through the link, and a whiteout over it in a layer above.
abbrev lower : Layer
lower = record { root = tree; lowers = [] }

added : extract tree [] (header (codes "lib/b") other []) ≡ (
  record {
    info = unknown_meta;
    children = child (codes "lib") (symlink (codes "usr/lib")) (
        child (codes "loop") (symlink (codes "loop")) (
          child
            (codes "usr")
            (dir unknown_meta (
              child
                (codes "lib")
                (dir unknown_meta (child (codes "a") file (child (codes "b") file empty)))
                empty))
            empty));
  },
  true,
)
unfolding extract
added = refl

hidden :
    get
      (codes "usr")
      (stack tree (extract new_dir [] (header (codes "usr/.wh.lib") other [])).0).children
    ≡ some (dir unknown_meta (child (codes "lib") whiteout empty))
unfolding extract stack get
hidden = refl

root_path-ne-out_of_fuel_example : root_path tree (codes "loop/x") ≢ err out_of_fuel
root_path-ne-out_of_fuel_example = root_path-ne-out_of_fuel tree (codes "loop/x")

abbrev system : FileSystem
system = record { root = tree; layers = tree ∷ [] }

dangling : dangling_symlinks system ≡ record { path = codes "/loop"; target = codes "loop" } ∷ []
unfolding dangling_symlinks
dangling = refl

unknown : dir_stat system (codes "/usr") ≡ none
unfolding dir_stat
unknown = refl

abbrev deepest : Entry
deepest = record {
  name = codes "a";
  depth = 3;
  directory = false;
  whiteout = false;
  opaque = false;
}

mem-walk_example : Memᴰ deepest (walk system) ↔ (
    (segs : List Text) × (m : Node) × (find segs (some (node_of tree)) ≡ some m)
    × (deepest ≡ visited segs m))
unfolding AreSorted compare_text
mem-walk_example = mem-walk system deepest (refl, _, (refl, _, (_, (_, (_, _, _), _), _)))
