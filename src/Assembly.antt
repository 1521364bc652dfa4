-- ===== src/Assembly.antt =====
-- fetch/assemble_inventory.go, fetch/assemble_collisions.go: the listing of the kits' layers within the
-- limits of an assembly, and the collisions between the file trees that they extract to. Contexts and
-- progress reports are left out. A layer's stream is a parameter: the headers that it gives and what
-- it fails with after them, which stands for the reads, the sizes and the digests.
pub mod Sizes
pub mod Charged
pub mod Components
pub mod Extracted
pub mod Ownership
pub mod Together
mod Tests
use sandbox_kit_spec.Base.{
  ℕ, zero, suc, ◌+◌, ◌-◌, Bool, true, false, ◌||◌, ◌&&◌, Option, none, some, List, [], ◌∷◌, ◌++◌,
  length, Text, text_eq, ltb, ◌==◌, if◌then◌else◌, Result, ok, err, ◌>>=◌, ◌>>◌,
}
use sandbox_kit_spec.Overlay.FilePath.{slash}
use sandbox_kit_spec.Overlay.Extract.{Header}
use sandbox_kit_spec.Resolve.Kit.{Kit}
use sandbox_kit_spec.Resolve.Run.{Resolution, composed}

-- kitInventory: an inventoryEntry is a header of the fields that the extraction reads.
pub record KitInventory : Type 0 where
  pub reference : Text
  pub layers : List (List Header)

-- inventoryBudget
pub record Budget : Type 0 where
  pub layers_left : ℕ
  pub entries_left : ℕ
  pub path_bytes_left : ℕ
  pub components_left : ℕ

abbrev pub new_budget : Budget
new_budget = record {
  layers_left = 4096;
  entries_left = 250000;
  path_bytes_left = 33554432;
  components_left = 250000;
}

pub data AssemblyError : Type 0 where
  too_many_layers : AssemblyError
  too_many_entries : AssemblyError
  too_many_path_bytes : AssemblyError
  too_many_components : AssemblyError
  missing_kit : Text → AssemblyError
  missing_loader : Text → AssemblyError
  other_rootfs : Text → AssemblyError
  unreadable : Text → AssemblyError
  layer_error : Text → Text → AssemblyError → AssemblyError

-- consumeLayer
abbrev layer_from : ℕ → Budget → Result AssemblyError Budget
layer_from zero b = err too_many_layers
layer_from (suc n) b = ok (record {
  layers_left = n;
  entries_left = b.entries_left;
  path_bytes_left = b.path_bytes_left;
  components_left = b.components_left;
})

unfoldable pub consume_layer : Budget → Result AssemblyError Budget
consume_layer b = layer_from b.layers_left b

-- pathComponents, with the count so far and whether the byte before is in a component
unfoldable pub components_from : Text → ℕ → Bool → ℕ
components_from [] count in_component = count
components_from (c ∷ s) count in_component =
    let separated = components_from s count false in
    let same = components_from s count true in
    let another = components_from s (suc count) true in
    if c == slash then separated else if in_component then same else another

unfoldable pub path_components : Text → ℕ
unfolding components_from
path_components name = components_from name 0 false

abbrev pub path_bytes : Header → ℕ
path_bytes hdr = length hdr.name + length hdr.linkname

unfoldable pub header_components : Header → ℕ
unfolding path_components
header_components hdr = path_components hdr.name + path_components hdr.linkname

-- consume
unfoldable pub consume : Budget → Header → Result AssemblyError Budget
unfolding header_components
consume b hdr =
    if b.entries_left == 0
    then err too_many_entries
    else if ltb b.path_bytes_left (length hdr.name)
        || ltb (b.path_bytes_left - length hdr.name) (length hdr.linkname)
    then err too_many_path_bytes
    else if ltb b.components_left (header_components hdr)
    then err too_many_components
    else ok (record {
      layers_left = b.layers_left;
      entries_left = b.entries_left - 1;
      path_bytes_left = b.path_bytes_left - path_bytes hdr;
      components_left = b.components_left - header_components hdr;
    })

unfoldable pub consume_all : Budget → List Header → Result AssemblyError Budget
unfolding consume
consume_all b [] = ok b
consume_all b (hdr ∷ hdrs) = do next ← consume b hdr; consume_all next hdrs

-- What a layer's stream gives, and what it fails with after that.
pub record Stream : Type 0 where
  pub headers : List Header
  pub failure : Option Text

pub record LayerKey : Type 0 where
  pub digest : Text
  pub size : ℕ
  pub diff_id : Text

abbrev finished : List Header → Budget → Option Text → Result AssemblyError (List Header × Budget)
finished hdrs b none = ok (hdrs, b)
finished hdrs b (some e) = err (unreadable e)

-- readLayerInventory
unfoldable pub read_layer_inventory : Budget → Stream → Result AssemblyError (List Header × Budget)
unfolding consume_all
read_layer_inventory b s = do next ← consume_all b s.headers; finished s.headers next s.failure

-- cache[key]
unfoldable pub same_key : LayerKey → LayerKey → Bool
unfolding text_eq
same_key a b = text_eq a.digest b.digest && (a.size == b.size) && text_eq a.diff_id b.diff_id

unfoldable pub cached : LayerKey → List (LayerKey × List Header) → Option (List Header)
unfolding same_key
cached key [] = none
cached key ((k, hdrs) ∷ cache) =
    let later = cached key cache in if same_key key k then some hdrs else later

abbrev replayed : List Header → Budget → List Header × Budget
replayed hdrs b = (hdrs, b)

-- A layer is replayed from the cache, or read, each entry charged.
abbrev charge_layer :
    Option (List Header) → Budget → Stream → Result AssemblyError (List Header × Budget)
charge_layer (some hdrs) b s = consume_all b hdrs >>= (λ next. ok (hdrs, next))
charge_layer none b s = read_layer_inventory b s

unfoldable pub inventory_layer :
    List (LayerKey × List Header)
    → Budget
    → LayerKey
    → Stream
    → Result AssemblyError (List Header × Budget)
unfolding consume_layer consume_all read_layer_inventory cached
inventory_layer cache b key s = do next ← consume_layer b; charge_layer (cached key cache) next s

-- A loaded kit: its loader, the keys of its layers, where the image config has as many diff IDs as the
-- manifest has layers.
pub record LoadedKit : Type 0 where
  pub loader : Option (LayerKey → Stream)
  pub layers : Option (List LayerKey)

pub record Inventoried : Type 0 where
  pub cache : List (LayerKey × List Header)
  pub budget : Budget
  pub listed : List (List Header)

abbrev wrap_layer {ℓ} :
    {A : Type ℓ} → Text → LayerKey → Result AssemblyError A → Result AssemblyError A
wrap_layer reference key (ok a) = ok a
wrap_layer reference key (err e) = err (layer_error reference key.digest e)

-- The loop over a kit's layers.
unfoldable pub inventory_layers :
    Text → (LayerKey → Stream) → List LayerKey → Inventoried → Result AssemblyError Inventoried
unfolding inventory_layer
inventory_layers reference loader [] i = ok i
inventory_layers reference loader (key ∷ keys) i = do
  (hdrs, b) ← wrap_layer reference key (inventory_layer i.cache i.budget key (loader key))
  inventory_layers reference loader keys
      (record { cache = (key, hdrs) ∷ i.cache; budget = b; listed = i.listed ++ hdrs ∷ [] })

abbrev checked_loader :
    Text
    → Option (LayerKey → Stream)
    → Option (List LayerKey)
    → Result AssemblyError ((LayerKey → Stream) × List LayerKey)
checked_loader reference none layers = err (missing_loader reference)
checked_loader reference (some loader) none = err (other_rootfs reference)
checked_loader reference (some loader) (some keys) = ok (loader, keys)

abbrev checked_kit :
    Text → Option LoadedKit → Result AssemblyError ((LayerKey → Stream) × List LayerKey)
checked_kit reference none = err (missing_kit reference)
checked_kit reference (some kit) = checked_loader reference kit.loader kit.layers

-- inventoryKits, on the ordered kits of the resolution
unfoldable pub inventory_kits :
    (Text → Option LoadedKit)
    → List Kit
    → List (LayerKey × List Header)
    → Budget
    → Result AssemblyError (List KitInventory × Budget)
unfolding inventory_layers
inventory_kits loaded [] cache b = ok ([], b)
inventory_kits loaded (kit ∷ kits) cache b = do
  (loader, keys) ← checked_kit kit.reference (loaded kit.reference)
  i ← inventory_layers kit.reference loader keys (record { cache = cache; budget = b; listed = [] })
  (rest, last) ← inventory_kits loaded kits i.cache i.budget
  ok (record { reference = kit.reference; layers = i.listed } ∷ rest, last)
