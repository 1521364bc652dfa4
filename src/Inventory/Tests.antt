-- ===== src/Inventory/Tests.antt =====
-- The theorems on assemble/inventory.go at concrete archives and kits, and runs of its functions.
use sandbox_kit_spec.Base.{
  ◌≡◌, ◌↔◌, refl, true, false, some, none, List, [], ◌∷◌, Text, codes, ok, err, has_text, length,
}
use sandbox_kit_spec.Inventory.{
  TypeFlag, regular, directory, symbolic, Member, done, broken, archive, no_entry, read_inventory,
  read_entry, read_contents, stat_file_entry, a_link,
}
use sandbox_kit_spec.Inventory.Before.{
  read_entry-archive, stat_file_entry-last_at, entry_of, last_at,
}
use sandbox_kit_spec.Inventory.Layers.{Listing, read_layer_entries}
use sandbox_kit_spec.Inventory.Final.{
  read_layer_entries-last_kind, last_kind, is_dir_kind, is_file_kind,
}
use sandbox_kit_spec.Inventory.Collisions.{Inventory, check_collisions}
use sandbox_kit_spec.Inventory.Exclusive.{
  is_exclusive, contributions, check_collisions-is_exclusive,
}

abbrev entry : Text → TypeFlag → Text → Text → Member
entry name flag link content = record {
  name = name;
  typeflag = flag;
  linkname = link;
  mode = 420;
  uid = 0;
  gid = 0;
  content = content;
  fault = none;
}

-- A file that a link replaces, and a directory.
abbrev members : List Member
members =
    entry (codes "./a") regular [] (codes "one")
    ∷ entry (codes "d/") directory [] []
    ∷ entry (codes "/a") symbolic (codes "d") []
    ∷ []

listed : read_inventory (archive members done) ≡ ok (codes "a" ∷ codes "a" ∷ [])
unfolding read_inventory archive
listed = refl

read_linked :
    read_contents (archive members done) (codes "a") ≡ err (a_link (codes "a") (codes "d"))
unfolding read_contents archive
read_linked = refl

divided :
    read_layer_entries (archive members done)
    ≡ ok (record {
      files = codes "a" ∷ [];
      dirs = codes "d" ∷ [];
      links = (codes "a", record { target = codes "d"; hard = false }) ∷ [];
    })
unfolding read_layer_entries archive
divided = refl

read_entry-archive_example :
    read_entry (codes "a") true (some (length members)) (archive members (broken (codes "cut")))
    ≡ read_entry (codes "a") true none (archive members done)
read_entry-archive_example = read_entry-archive (codes "a") true members (broken (codes "cut"))

stat_file_entry-last_at_example :
    stat_file_entry (archive members done) (codes "/a")
    ≡ ok (entry_of no_entry (last_at (codes "/a") 0 members))
stat_file_entry-last_at_example = stat_file_entry-last_at (codes "/a") members

read_layer_entries-last_kind_example :
    (l : Listing) × (read_layer_entries (archive members done) ≡ ok l)
    × ((name : Text)
        → (has_text l.dirs name ≡ is_dir_kind (last_kind name members))
          × (has_text l.files name ≡ is_file_kind (last_kind name members)))
read_layer_entries-last_kind_example = read_layer_entries-last_kind members

abbrev kits : List Inventory
kits =
    record { kit = codes "one"; files = codes "bin/x" ∷ codes "bin/x" ∷ [] }
    ∷ record { kit = codes "two"; files = codes "bin/y" ∷ codes "bin/x" ∷ [] }
    ∷ []

collided :
    check_collisions kits
    ≡ some (codes "kit file collisions:\n  /bin/x: contributed by one and two")
unfolding check_collisions
collided = refl

check_collisions-is_exclusive_example :
    (check_collisions kits ≡ none) ↔ (is_exclusive (contributions kits) ≡ true)
check_collisions-is_exclusive_example = check_collisions-is_exclusive kits
