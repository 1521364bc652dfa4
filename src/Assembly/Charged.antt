-- ===== src/Assembly/Charged.antt =====
-- fetch/assemble_inventory.go: what an assembly lists stays within its limits, layers replayed from the
-- cache included.
use sandbox_kit_spec.Base.{
  ◌≤◌, ◌≡◌, sym, subst, ◌∙◌, Option, none, some, List, [], ◌∷◌, ◌++◌, append-nil, append_assoc,
  Text, Result, ok, err, ◌>>=◌, bind-ok, ok-injective, arith,
}
use sandbox_kit_spec.Overlay.Extract.{Header}
use sandbox_kit_spec.Resolve.Kit.{Kit}
use sandbox_kit_spec.Assembly.{
  KitInventory, Budget, new_budget, AssemblyError, consume_layer, consume_all, Stream,
  read_layer_inventory, finished, LayerKey, cached, charge_layer, inventory_layer, LoadedKit,
  Inventoried, inventory_layers, wrap_layer, checked_kit, inventory_kits,
}
use sandbox_kit_spec.Assembly.Sizes.{
  plus, one_layer, headers_size, layers_size, size, IsCharged, IsCharged-plus,
  consume_all-IsCharged, consume_layer-IsCharged,
}

finished-ok :
    (hdrs : List Header) (b : Budget) (failure : Option Text) (p : List Header × Budget)
    → finished hdrs b failure ≡ ok p
    → (hdrs, b) ≡ p
finished-ok hdrs b none p e = ok-injective e
finished-ok hdrs b (some x) p e = cc

charge_layer-IsCharged :
    (seen : Option (List Header)) (b : Budget) (s : Stream) (p : List Header × Budget)
    → charge_layer seen b s ≡ ok p
    → IsCharged (headers_size p.0) b p.1
unfolding read_layer_inventory
charge_layer-IsCharged (some hdrs) b s p e =
    let (next, charged, same) = bind-ok (consume_all b hdrs) (λ n. ok (hdrs, n)) e in
    subst (λ q. IsCharged (headers_size q.0) b q.1) (ok-injective same)
      (consume_all-IsCharged hdrs b next charged)
charge_layer-IsCharged none b s p e =
    let (next, charged, same) =
      bind-ok (consume_all b s.headers) (λ n. finished s.headers n s.failure) e in
    subst (λ q. IsCharged (headers_size q.0) b q.1) (finished-ok s.headers next s.failure p same)
      (consume_all-IsCharged s.headers b next charged)

inventory_layer-IsCharged :
    (cache : List (LayerKey × List Header)) (b : Budget) (key : LayerKey) (s : Stream)
    (p : List Header × Budget)
    → inventory_layer cache b key s ≡ ok p
    → IsCharged (plus one_layer (headers_size p.0)) b p.1
unfolding inventory_layer
inventory_layer-IsCharged cache b key s p e =
    let (next, counted, charged) =
      bind-ok (consume_layer b) (λ n. charge_layer (cached key cache) n s) e in
    IsCharged-plus one_layer (headers_size p.0) b next p.1 (consume_layer-IsCharged b next counted)
      (charge_layer-IsCharged (cached key cache) next s p charged)

wrap_layer-ok :
    (reference : Text) (key : LayerKey) (r : Result AssemblyError (List Header × Budget))
    (p : List Header × Budget)
    → wrap_layer reference key r ≡ ok p
    → r ≡ ok p
wrap_layer-ok reference key (ok q) p e = e
wrap_layer-ok reference key (err x) p e = cc

-- What the loop over a kit's layers lists, and its budget.
abbrev IsListed : Inventoried → Inventoried → Type 0
IsListed i last =
    (new : List (List Header)) × (last.listed ≡ i.listed ++ new)
    × IsCharged (layers_size new) i.budget last.budget

abbrev with_layer : LayerKey → Inventoried → List Header × Budget → Inventoried
with_layer key i (hdrs, b) = record {
  cache = (key, hdrs) ∷ i.cache;
  budget = b;
  listed = i.listed ++ hdrs ∷ [];
}

inventory_layers-IsListed :
    (reference : Text) (loader : LayerKey → Stream) (keys : List LayerKey) (i last : Inventoried)
    → inventory_layers reference loader keys i ≡ ok last
    → IsListed i last
unfolding inventory_layers layers_size
inventory_layers-IsListed reference loader [] i last e =
    subst (λ j. IsListed i j) (ok-injective e)
      ([], sym (append-nil i.listed), (omega arith, omega arith, omega arith, omega arith))
inventory_layers-IsListed reference loader (key ∷ keys) i last e =
    let (p, listed, rest) =
      bind-ok (wrap_layer reference key (inventory_layer i.cache i.budget key (loader key)))
        (λ p. inventory_layers reference loader keys (with_layer key i p)) e in
    let (new, appended, charged) =
      inventory_layers-IsListed reference loader keys (with_layer key i p) last rest in
    (
      p.0 ∷ new,
      appended ∙ append_assoc i.listed (p.0 ∷ []) new,
      IsCharged-plus (plus one_layer (headers_size p.0)) (layers_size new) i.budget p.1 last.budget
          (inventory_layer-IsCharged i.cache i.budget key (loader key) p (
            wrap_layer-ok reference key (inventory_layer i.cache i.budget key (loader key)) p
              listed))
          charged,
    )

abbrev all_kits : KitInventory → List KitInventory × Budget → List KitInventory × Budget
all_kits inv (invs, b) = (inv ∷ invs, b)

abbrev start_at : List (LayerKey × List Header) → Budget → Inventoried
start_at cache b = record { cache = cache; budget = b; listed = [] }

inventory_kits-IsCharged :
    (loaded : Text → Option LoadedKit) (kits : List Kit) (cache : List (LayerKey × List Header))
    (b : Budget) (p : List KitInventory × Budget)
    → inventory_kits loaded kits cache b ≡ ok p
    → IsCharged (size p.0) b p.1
unfolding inventory_kits size
inventory_kits-IsCharged loaded [] cache b p e =
    subst (λ q. IsCharged (size q.0) b q.1) (ok-injective e)
      (omega arith, omega arith, omega arith, omega arith)
inventory_kits-IsCharged loaded (kit ∷ kits) cache b p e =
    let (l, checked, first) =
      bind-ok (checked_kit kit.reference (loaded kit.reference))
        (λ l. inventory_layers kit.reference l.0 l.1 (start_at cache b) >>= (λ i.
          inventory_kits loaded kits i.cache i.budget
          >>= (λ q. ok (all_kits (record { reference = kit.reference; layers = i.listed }) q))))
        e in
    let (i, listed, second) =
      bind-ok (inventory_layers kit.reference l.0 l.1 (start_at cache b))
        (λ i.
          inventory_kits loaded kits i.cache i.budget
          >>= (λ q. ok (all_kits (record { reference = kit.reference; layers = i.listed }) q)))
        first in
    let (q, rest, same) =
      bind-ok (inventory_kits loaded kits i.cache i.budget)
        (λ q. ok (all_kits (record { reference = kit.reference; layers = i.listed }) q)) second in
    let (new, appended, charged) =
      inventory_layers-IsListed kit.reference l.0 l.1 (start_at cache b) i listed in
    subst (λ r. IsCharged (size r.0) b r.1) (ok-injective same)
      (IsCharged-plus (layers_size i.listed) (size q.0) b i.budget q.1
        (subst (λ ls. IsCharged (layers_size ls) b i.budget) (sym appended) charged)
        (inventory_kits-IsCharged loaded kits i.cache i.budget q rest))

-- The kits of an assembly that is listed have at most 4096 layers with at most 250000 entries, 32 MiB of
-- paths and link names, and 250000 components in these, however many of the layers come from the cache.
pub inventory_kits-size :
    (loaded : Text → Option LoadedKit) (kits : List Kit) (p : List KitInventory × Budget)
    → inventory_kits loaded kits [] new_budget ≡ ok p
    → ((size p.0).layers ≤ 4096)
      × ((size p.0).entries ≤ 250000)
      × ((size p.0).bytes ≤ 33554432)
      × ((size p.0).components ≤ 250000)
inventory_kits-size loaded kits p e =
    let (l, n, b, c) = inventory_kits-IsCharged loaded kits [] new_budget p e in
    (omega arith, omega arith, omega arith, omega arith)
