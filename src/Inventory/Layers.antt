-- ===== src/Inventory/Layers.antt =====
-- assemble/inventory.go: ReadLayerEntries. The maps of the kinds and the links and the order of the names
-- are one list here: a name stands where it is first seen, with what its last entry is.
use sandbox_kit_spec.Base.{
  Bool, true, false, List, [], ◌∷◌, Text, text_eq, if◌then◌else◌, Result, ok, err, ◌>>=◌,
}
use sandbox_kit_spec.Inventory.{
  TypeFlag, regular, directory, symbolic, hard, other, Archive, done, broken, member, ReadError,
  read_layer, entry_path,
}

-- LayerLink
pub record LayerLink : Type 0 where
  pub target : Text
  pub hard : Bool

pub data Kind : Type 0 where
  kind_file : Kind
  kind_dir : Kind
  kind_link : LayerLink → Kind

abbrev pub kind_of : TypeFlag → Text → Kind
kind_of directory target = kind_dir
kind_of symbolic target = kind_link (record { target = target; hard = false })
kind_of hard target = kind_link (record { target = target; hard = true })
kind_of regular target = kind_file
kind_of other target = kind_file

-- kind[name] = k, with the name appended to the order when it is new
unfoldable pub note : Text → Kind → List (Text × Kind) → List (Text × Kind)
unfolding text_eq
note name k [] = (name, k) ∷ []
note name k ((seen, l) ∷ ks) =
    let later = note name k ks in if text_eq name seen then (seen, k) ∷ ks else (seen, l) ∷ later

-- The loop over the archive.
unfoldable pub kinds_from : List (Text × Kind) → Archive → Result ReadError (List (Text × Kind))
unfolding note entry_path
kinds_from ks done = ok ks
kinds_from ks (broken e) = err (read_layer e)
kinds_from ks (member m rest) =
    kinds_from (note (entry_path m.name) (kind_of m.typeflag m.linkname) ks) rest

pub record Listing : Type 0 where
  pub files : List Text
  pub dirs : List Text
  pub links : List (Text × LayerLink)

abbrev pub list_kind : Text → Kind → Listing → Listing
list_kind name kind_dir l = record { files = l.files; dirs = name ∷ l.dirs; links = l.links }
list_kind name kind_file l = record { files = name ∷ l.files; dirs = l.dirs; links = l.links }
list_kind name (kind_link link) l = record {
  files = name ∷ l.files;
  dirs = l.dirs;
  links = (name, link) ∷ l.links;
}

-- The loop over the order.
unfoldable pub listing : List (Text × Kind) → Listing
listing [] = record { files = []; dirs = []; links = [] }
listing ((name, k) ∷ ks) = list_kind name k (listing ks)

-- ReadLayerEntries
unfoldable pub read_layer_entries : Archive → Result ReadError Listing
unfolding kinds_from listing
read_layer_entries a = kinds_from [] a >>= (λ ks. ok (listing ks))
