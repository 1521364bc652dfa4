-- ===== src/Assembly/Sizes.antt =====
-- fetch/assemble_inventory.go: the size of a listing, and what a budget is charged for a layer's headers.
use sandbox_kit_spec.Base.{
  ℕ, zero, suc, ◌+◌, ◌-◌, ◌≡◌, refl, subst, Bool, true, false, ◌||◌, List, [], ◌∷◌, length, ltb,
  ◌==◌, if◌then◌else◌, ok, err, bind-ok, ok-injective, arith,
}
use sandbox_kit_spec.Overlay.Extract.{Header}
use sandbox_kit_spec.Assembly.{
  KitInventory, Budget, consume_layer, layer_from, path_bytes, header_components, consume,
  consume_all, too_many_entries, too_many_path_bytes, too_many_components,
}

-- What is listed, in layers, entries, bytes of paths and link names, and their components.
pub record Size : Type 0 where
  pub layers : ℕ
  pub entries : ℕ
  pub bytes : ℕ
  pub components : ℕ

abbrev pub plus : Size → Size → Size
plus s t = record {
  layers = s.layers + t.layers;
  entries = s.entries + t.entries;
  bytes = s.bytes + t.bytes;
  components = s.components + t.components;
}

abbrev pub nothing : Size
nothing = record { layers = 0; entries = 0; bytes = 0; components = 0 }

abbrev pub one_layer : Size
one_layer = record { layers = 1; entries = 0; bytes = 0; components = 0 }

abbrev pub header_size : Header → Size
header_size hdr = record {
  layers = 0;
  entries = 1;
  bytes = path_bytes hdr;
  components = header_components hdr;
}

unfoldable pub headers_size : List Header → Size
headers_size [] = nothing
headers_size (hdr ∷ hdrs) = plus (header_size hdr) (headers_size hdrs)

unfoldable pub layers_size : List (List Header) → Size
unfolding headers_size
layers_size [] = nothing
layers_size (hdrs ∷ layers) = plus (plus one_layer (headers_size hdrs)) (layers_size layers)

unfoldable pub size : List KitInventory → Size
unfolding layers_size
size [] = nothing
size (inv ∷ invs) = plus (layers_size inv.layers) (size invs)

-- A budget is another with a size taken off.
abbrev pub IsCharged : Size → Budget → Budget → Type 0
IsCharged s b next =
    (b.layers_left ≡ s.layers + next.layers_left)
    × (b.entries_left ≡ s.entries + next.entries_left)
    × (b.path_bytes_left ≡ s.bytes + next.path_bytes_left)
    × (b.components_left ≡ s.components + next.components_left)

pub IsCharged-plus :
    (s t : Size) (a b c : Budget) → IsCharged s a b → IsCharged t b c → IsCharged (plus s t) a c
IsCharged-plus s t a b c (l, e, p, m) (k, f, q, n) =
    (omega arith, omega arith, omega arith, omega arith)

consume-IsCharged :
    (b next : Budget) (hdr : Header) → consume b hdr ≡ ok next → IsCharged (header_size hdr) b next
unfolding consume
consume-IsCharged b next hdr e =
    by_tests (b.entries_left == 0)
      (ltb b.path_bytes_left (length hdr.name)
        || ltb (b.path_bytes_left - length hdr.name) (length hdr.linkname))
      (ltb b.components_left (header_components hdr)) refl refl refl e
  where
    left : Budget
    left = record {
      layers_left = b.layers_left;
      entries_left = b.entries_left - 1;
      path_bytes_left = b.path_bytes_left - path_bytes hdr;
      components_left = b.components_left - header_components hdr;
    }

    by_tests :
        (no_entry no_bytes no_components : Bool)
        → (b.entries_left == 0) ≡ no_entry
        → (ltb b.path_bytes_left (length hdr.name)
            || ltb (b.path_bytes_left - length hdr.name) (length hdr.linkname))
          ≡ no_bytes
        → ltb b.components_left (header_components hdr) ≡ no_components
        → (if no_entry
            then err too_many_entries
            else if no_bytes
            then err too_many_path_bytes
            else if no_components
            then err too_many_components
            else ok left)
          ≡ ok next
        → IsCharged (header_size hdr) b next
    by_tests true no_bytes no_components h k l e = cc
    by_tests false true no_components h k l e = cc
    by_tests false false true h k l e = cc
    by_tests false false false h k l e =
        subst (λ n. IsCharged (header_size hdr) b n) (ok-injective e)
          (omega arith, ground arith, ground arith, ground arith)

pub consume_all-IsCharged :
    (hdrs : List Header) (b next : Budget)
    → consume_all b hdrs ≡ ok next
    → IsCharged (headers_size hdrs) b next
unfolding consume_all headers_size
consume_all-IsCharged [] b next e =
    subst (λ n. IsCharged nothing b n) (ok-injective e)
      (omega arith, omega arith, omega arith, omega arith)
consume_all-IsCharged (hdr ∷ hdrs) b next e =
    let (mid, first, rest) = bind-ok (consume b hdr) (λ n. consume_all n hdrs) e in
    IsCharged-plus (header_size hdr) (headers_size hdrs) b mid next
      (consume-IsCharged b mid hdr first) (consume_all-IsCharged hdrs mid next rest)

pub consume_layer-IsCharged :
    (b next : Budget) → consume_layer b ≡ ok next → IsCharged one_layer b next
unfolding consume_layer
consume_layer-IsCharged b next e = by_left b.layers_left refl e
  where
    by_left : (n : ℕ) → b.layers_left ≡ n → layer_from n b ≡ ok next → IsCharged one_layer b next
    by_left zero h e = cc
    by_left (suc n) h e =
        subst (λ c. IsCharged one_layer b c) (ok-injective e)
          (omega arith, omega arith, omega arith, omega arith)
