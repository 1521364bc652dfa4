-- ===== src/Assembly/Extracted.antt =====
-- fetch/assemble_collisions.go and tck/kit/overlay_fs.go: the file system that a kit's layers extract to. The
-- first refuses a kit of which an entry cannot be extracted; the second drops the rest of that layer.
use sandbox_kit_spec.Base.{
  ◌≡◌, refl, ap, ◌∙◌, Bool, true, false, some, List, [], ◌∷◌, ◌++◌, Text, Result, ok, err, ◌>>=◌,
  bind-ok, ok-injective,
}
use sandbox_kit_spec.Overlay.{node_of, FileSystem, new_file_system, Layer, new_layer}
use sandbox_kit_spec.Overlay.Names.{AreSorted}
use sandbox_kit_spec.Overlay.Extract.{Header, extract, add}
use sandbox_kit_spec.Overlay.Extract.Ordered.{add-AreSorted}
use sandbox_kit_spec.Overlay.Stack.{apply}
use sandbox_kit_spec.Overlay.Stack.Merged.{apply-overlay}
use sandbox_kit_spec.Overlay.Stack.Rule.{shown, find, overlay}

-- The loop over a layer's entries: the layer, or the name of the entry that is refused.
abbrev go_on : Header → (Layer → Result Text Layer) → Layer × Bool → Result Text Layer
go_on hdr rest (l, true) = rest l
go_on hdr rest (l, false) = err hdr.name

unfoldable pub add_all : List Header → Layer → Result Text Layer
unfolding extract
add_all [] l = ok l
add_all (hdr ∷ hdrs) l = go_on hdr (add_all hdrs) (add l hdr)

unfoldable pub extract_layers : List (List Header) → FileSystem → Result Text FileSystem
unfolding add_all apply
extract_layers [] o = ok o
extract_layers (hdrs ∷ layers) o = do
  l ← add_all hdrs (new_layer o)
  extract_layers layers (apply o l)

-- The file system of a kit in checkFileCollisions.
unfoldable pub extracted : List (List Header) → Result Text FileSystem
unfolding extract_layers
extracted layers = extract_layers layers new_file_system

-- overlayModel: the entries before one that is refused, whose own effects stay.
abbrev go_on_or_stop : (Layer → Layer) → Layer × Bool → Layer
go_on_or_stop rest (l, true) = rest l
go_on_or_stop rest (l, false) = l

unfoldable pub add_prefix : List Header → Layer → Layer
unfolding extract
add_prefix [] l = l
add_prefix (hdr ∷ hdrs) l = go_on_or_stop (add_prefix hdrs) (add l hdr)

unfoldable pub model_from : List (List Header) → FileSystem → FileSystem
unfolding add_prefix apply
model_from [] o = o
model_from (hdrs ∷ layers) o = model_from layers (apply o (add_prefix hdrs (new_layer o)))

unfoldable pub overlay_model : List (List Header) → FileSystem
unfolding model_from
overlay_model layers = model_from layers new_file_system

add_prefix-AreSorted :
    (hdrs : List Header) (l : Layer)
    → AreSorted l.root.children
    → AreSorted (add_prefix hdrs l).root.children
unfolding add_prefix
add_prefix-AreSorted [] l h = h
add_prefix-AreSorted (hdr ∷ hdrs) l h =
    by_result (add l hdr) (add-AreSorted l hdr h) (add_prefix-AreSorted hdrs)
  where
    by_result :
        (p : Layer × Bool)
        → AreSorted p.0.root.children
        → ((k : Layer) → AreSorted k.root.children → AreSorted (add_prefix hdrs k).root.children)
        → AreSorted (go_on_or_stop (add_prefix hdrs) p).root.children
    by_result (k, true) hk rest = rest k hk
    by_result (k, false) hk rest = hk

model_from-append :
    (layers : List (List Header)) (hdrs : List Header) (o : FileSystem)
    → model_from (layers ++ hdrs ∷ []) o
      ≡ apply (model_from layers o) (add_prefix hdrs (new_layer (model_from layers o)))
unfolding model_from
model_from-append [] hdrs o = refl
model_from-append (first ∷ layers) hdrs o =
    model_from-append layers hdrs (apply o (add_prefix first (new_layer o)))

-- A path of the model of an artifact with one more layer shows what the rule of an overlay gives for the
-- tree that the layer extracts to over the model of the layers before.
pub overlay_model-overlay :
    (layers : List (List Header)) (hdrs : List Header) (segs : List Text)
    → shown (find segs (some (node_of (overlay_model (layers ++ hdrs ∷ [])).root)))
      ≡ overlay segs
          (some (node_of (add_prefix hdrs (new_layer (overlay_model layers))).root))
          (some (node_of (overlay_model layers).root))
unfolding overlay_model AreSorted
overlay_model-overlay layers hdrs segs =
    ap (λ o. shown (find segs (some (node_of o.root))))
      (model_from-append layers hdrs new_file_system)
    ∙ apply-overlay (overlay_model layers) (add_prefix hdrs (new_layer (overlay_model layers))) segs
        (add_prefix-AreSorted hdrs (new_layer (overlay_model layers)) _)

-- A kit whose every entry can be extracted has the same file system in both.
add_all-add_prefix :
    (hdrs : List Header) (l last : Layer) → add_all hdrs l ≡ ok last → add_prefix hdrs l ≡ last
unfolding add_all add_prefix
add_all-add_prefix [] l last e = ok-injective e
add_all-add_prefix (hdr ∷ hdrs) l last e = by_result (add l hdr) e (add_all-add_prefix hdrs)
  where
    by_result :
        (p : Layer × Bool)
        → go_on hdr (add_all hdrs) p ≡ ok last
        → ((k lst : Layer) → add_all hdrs k ≡ ok lst → add_prefix hdrs k ≡ lst)
        → go_on_or_stop (add_prefix hdrs) p ≡ last
    by_result (k, true) d rest = rest k last d
    by_result (k, false) d rest = cc

extract_layers-model_from :
    (layers : List (List Header)) (o last : FileSystem)
    → extract_layers layers o ≡ ok last
    → model_from layers o ≡ last
unfolding extract_layers model_from
extract_layers-model_from [] o last e = ok-injective e
extract_layers-model_from (hdrs ∷ layers) o last e =
    let (l, added, rest) =
      bind-ok (add_all hdrs (new_layer o)) (λ l. extract_layers layers (apply o l)) e in
    ap (λ k. model_from layers (apply o k)) (add_all-add_prefix hdrs (new_layer o) l added)
    ∙ extract_layers-model_from layers (apply o l) last rest

-- Where the assembly accepts the entries of a kit, the file system that it checks for collisions is the
-- one that the conformance checks inspect.
pub extracted-overlay_model :
    (layers : List (List Header)) (o : FileSystem)
    → extracted layers ≡ ok o
    → overlay_model layers ≡ o
unfolding extracted overlay_model
extracted-overlay_model layers o e = extract_layers-model_from layers new_file_system o e
