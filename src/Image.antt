-- ===== src/Image.antt =====
-- assemble/assemble.go: Merge, the composed image of a workload and its mixins: its layers and what their
-- configs add. A layer, a diff ID and a history entry are their texts; the fields of the workload's
-- config that travel unchanged are not repeated. A map is a list of its entries, which it is ranged over
-- in; an owners' map is one to which new entries are put in front.
pub mod Entries
pub mod Delta
pub mod Layered
pub mod PathMerged
pub mod Values
pub mod Valued
pub mod Kept
mod Tests
use sandbox_kit_spec.Base.{
  ℕ, Bool, true, false, not, ◌&&◌, ◌||◌, Option, none, some, List, [], ◌∷◌, ◌++◌, length, is_empty,
  Text, codes, text_eq, has_text, has_prefix, cut, split, ◌==◌, if◌then◌else◌, Result, ok, err,
  ◌>>=◌,
}
use sandbox_kit_spec.Image.Entries.{
  ValueOwner, owner_at, cut_env, env_owners, label_owners, MergeError, Env, path_key, value_of,
  with_element, merge_elements, merged_path, replace_path, merge_path, restate, merge_entry,
  merge_env, Labels, merge_labels, union, layer_count, env_conflict,
}

-- What Merge reads and writes of an image config.
pub record Config : Type 0 where
  pub env : List Text
  pub labels : List (Text × Text)
  pub exposed_ports : List Text
  pub volumes : List Text

-- Input
pub record Input : Type 0 where
  pub name : Text
  pub layers : List Text
  pub diff_ids : List Text
  pub history : List Text
  pub config : Config

-- Image
pub record Image : Type 0 where
  pub config : Config
  pub diff_ids : List Text
  pub history : List Text
  pub layers : List Text

-- configOwners
pub record ConfigOwners : Type 0 where
  pub env : List (Text × ValueOwner)
  pub labels : List (Text × ValueOwner)

-- newConfigOwners
unfoldable pub new_config_owners : Input → ConfigOwners
unfolding env_owners label_owners
new_config_owners sandbox = record {
  env = env_owners sandbox.name sandbox.config.env [];
  labels = label_owners sandbox.name sandbox.config.labels;
}

unfoldable pub with_env : ConfigOwners → Config → Input → Env → Config × ConfigOwners
unfolding merge_labels union
with_env o config m env =
    let labels =
      merge_labels m.name m.config.labels (record { entries = config.labels; owners = o.labels }) in
    (
      record {
        env = env.entries;
        labels = labels.entries;
        exposed_ports = union config.exposed_ports m.config.exposed_ports;
        volumes = union config.volumes m.config.volumes;
      },
      record { env = env.owners; labels = labels.owners },
    )

-- mergeConfig
unfoldable pub merge_config :
    ConfigOwners → Config → Input → Result MergeError (Config × ConfigOwners)
unfolding merge_env with_env
merge_config o config m = do
  env ← merge_env m.name m.config.env (record { entries = config.env; owners = o.env })
  ok (with_env o config m env)

abbrev pub layers_counted : Input → Result MergeError (Unit {0})
layers_counted i =
    if length i.layers == length i.diff_ids
    then ok tt
    else err (layer_count i.name (length i.layers) (length i.diff_ids))

unfoldable pub overlay_history : Text → List Text → List Text
overlay_history name [] = []
overlay_history name (layer ∷ layers) =
    (codes "sandbox-kit assemble " ++ name) ∷ overlay_history name layers

abbrev with_mixin : Image → Input → Config → Image
with_mixin image m config = record {
  config = config;
  diff_ids = image.diff_ids ++ m.diff_ids;
  history = image.history ++ overlay_history m.name m.layers;
  layers = image.layers ++ m.layers;
}

-- The loop over the mixins.
unfoldable pub merge_mixins : ConfigOwners → List Input → Image → Result MergeError Image
unfolding merge_config overlay_history
merge_mixins o [] image = ok image
merge_mixins o (m ∷ ms) image = do
  _ ← layers_counted m
  (config, owners) ← merge_config o image.config m
  merge_mixins owners ms (with_mixin image m config)

-- Merge
unfoldable pub merge : Input → List Input → Result MergeError Image
unfolding merge_mixins new_config_owners
merge sandbox mixins = do
  _ ← layers_counted sandbox
  merge_mixins (new_config_owners sandbox) mixins (record {
    config = sandbox.config;
    diff_ids = sandbox.diff_ids;
    history = sandbox.history;
    layers = sandbox.layers;
  })
