-- ===== src/Image/Tests.antt =====
-- The theorems on the composed_image image at concrete kits, and runs of the functions.
use sandbox_kit_spec.Base.{◌≡◌, refl, List, [], ◌∷◌, Text, codes, length, err}
use sandbox_kit_spec.Image.{Config, Input, Image, merge}
use sandbox_kit_spec.Image.Entries.{env_conflict, merged_path}
use sandbox_kit_spec.Image.Delta.{BuildConfig, config_delta, path_elements_not_in}
use sandbox_kit_spec.Image.PathMerged.{joined_path, extended, merged_path-path_elements_not_in}
use sandbox_kit_spec.Image.Layered.{layers_of, merge-layers_of}
use sandbox_kit_spec.Image.Values.{Keeps}
use sandbox_kit_spec.Image.Kept.{AreShown, merge-AreShown}

abbrev config : List Text → Config
config env = record { env = env; labels = []; exposed_ports = []; volumes = [] }

abbrev kit : Text → List Text → Input
kit name env = record {
  name = name;
  layers = name ∷ [];
  diff_ids = name ∷ [];
  history = [];
  config = config env;
}

abbrev base : Input
base = kit (codes "base") (codes "PATH=/bin" ∷ codes "A=1" ∷ [])

abbrev tools : Input
tools = kit (codes "tools") (codes "PATH=/opt:/bin" ∷ codes "A=1" ∷ codes "B=2" ∷ [])

abbrev composed_image : Image
composed_image = record {
  config = config (codes "PATH=/bin:/opt" ∷ codes "A=1" ∷ codes "B=2" ∷ []);
  diff_ids = codes "base" ∷ codes "tools" ∷ [];
  history = codes "sandbox-kit assemble tools" ∷ [];
  layers = codes "base" ∷ codes "tools" ∷ [];
}

merge-layers_of_example :
    (composed_image.layers ≡ layers_of (base ∷ tools ∷ []))
    × (length composed_image.layers ≡ length composed_image.diff_ids)
unfolding merge
merge-layers_of_example = merge-layers_of base (tools ∷ []) composed_image refl

merge-AreShown_example :
    Keeps base.config.env composed_image.config.env
    × AreShown composed_image.config.env (tools ∷ [])
unfolding merge
merge-AreShown_example = merge-AreShown base (tools ∷ []) composed_image refl

refused :
    merge base (kit (codes "other") (codes "A=2" ∷ []) ∷ [])
    ≡ err (env_conflict (codes "A") (codes "base") (codes "other"))
unfolding merge
refused = refl

abbrev built : List Text → BuildConfig
built env = record {
  added = config env;
  entrypoint = [];
  cmd = [];
  user = [];
  working_dir = [];
  stop_signal = [];
}

reduced :
    config_delta
      (built (codes "PATH=/bin" ∷ codes "A=1" ∷ []))
      (built (codes "PATH=/opt:/bin" ∷ codes "A=1" ∷ codes "B=2" ∷ []))
    ≡ built (codes "PATH=/opt" ∷ codes "B=2" ∷ [])
unfolding config_delta
reduced = refl

merged_path-path_elements_not_in_example :
    merged_path
      (codes "/bin")
      (joined_path (path_elements_not_in (codes "/opt:/bin") (codes "/bin")))
    ≡ extended (codes "/bin") (path_elements_not_in (codes "/opt:/bin") (codes "/bin"))
merged_path-path_elements_not_in_example =
    merged_path-path_elements_not_in (codes "/bin") (codes "/opt:/bin")
