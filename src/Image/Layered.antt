-- ===== src/Image/Layered.antt =====
-- assemble/assemble.go: the layers of a composed image.
use sandbox_kit_spec.Base.{
  ◌≡◌, refl, sym, subst, ◌∙◌, Bool, true, false, List, [], ◌∷◌, ◌++◌, append_assoc, append-nil,
  length, length-append, Text, ◌==◌, ==_iff, if◌then◌else◌, ok, err, ◌>>=◌, bind-ok, ok-injective,
  arith,
}
use sandbox_kit_spec.Image.{
  Input, Image, ConfigOwners, layers_counted, merge_config, with_mixin, merge_mixins,
  new_config_owners, merge,
}
use sandbox_kit_spec.Image.Entries.{layer_count}

-- The layers of each in turn.
unfoldable pub layers_of : List Input → List Text
layers_of [] = []
layers_of (m ∷ ms) = m.layers ++ layers_of ms

layers_counted-ok :
    (i : Input) (u : Unit {0}) → layers_counted i ≡ ok u → length i.layers ≡ length i.diff_ids
layers_counted-ok i u e = by_test (length i.layers == length i.diff_ids) refl e
  where
    by_test :
        (b : Bool)
        → (length i.layers == length i.diff_ids) ≡ b
        → (if b then ok tt else err (layer_count i.name (length i.layers) (length i.diff_ids)))
          ≡ ok u
        → length i.layers ≡ length i.diff_ids
    by_test true h d = (==_iff (length i.layers) (length i.diff_ids)).0 h
    by_test false h d = cc

-- What a composed image is to the one before and the mixins.
abbrev IsComposed : Image → List Input → Image → Type 0
IsComposed image ms last =
    (last.layers ≡ image.layers ++ layers_of ms)
    × (length image.layers ≡ length image.diff_ids → length last.layers ≡ length last.diff_ids)

merge_mixins-IsComposed :
    (o : ConfigOwners) (ms : List Input) (image last : Image)
    → merge_mixins o ms image ≡ ok last
    → IsComposed image ms last
unfolding merge_mixins layers_of
merge_mixins-IsComposed o [] image last e =
    subst (λ i. IsComposed image [] i) (ok-injective e) (sym (append-nil image.layers), λ h. h)
merge_mixins-IsComposed o (m ∷ ms) image last e =
    let (u, same_count, first) =
      bind-ok (layers_counted m)
        (λ u. merge_config o image.config m >>= (λ p. merge_mixins p.1 ms (with_mixin image m p.0)))
        e in
    let (p, merged, second) =
      bind-ok (merge_config o image.config m) (λ p. merge_mixins p.1 ms (with_mixin image m p.0))
        first in
    let (layers, counts) = merge_mixins-IsComposed p.1 ms (with_mixin image m p.0) last second in
    (
      layers ∙ append_assoc image.layers m.layers (layers_of ms),
      λ h. counts (
          omega (
            arith,
            layers_counted-ok m u same_count,
            length-append image.layers m.layers,
            length-append image.diff_ids m.diff_ids,
          )),
    )

-- A composed image has the workload's layers and then those of each mixin in turn, and as many diff IDs as
-- layers.
pub merge-layers_of :
    (sandbox : Input) (mixins : List Input) (image : Image)
    → merge sandbox mixins ≡ ok image
    → (image.layers ≡ layers_of (sandbox ∷ mixins)) × (length image.layers ≡ length image.diff_ids)
unfolding merge layers_of
merge-layers_of sandbox mixins image e =
    let start : Image = record {
      config = sandbox.config;
      diff_ids = sandbox.diff_ids;
      history = sandbox.history;
      layers = sandbox.layers;
    } in
    let (u, same_count, rest) =
      bind-ok (layers_counted sandbox) (λ u. merge_mixins (new_config_owners sandbox) mixins start)
        e in
    let (layers, counts) =
      merge_mixins-IsComposed (new_config_owners sandbox) mixins start image rest in
    (layers, counts (layers_counted-ok sandbox u same_count))
