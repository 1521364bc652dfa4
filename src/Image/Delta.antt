-- ===== src/Image/Delta.antt =====
-- cmd/frontend/diff.go: configDelta, envMap and pathElementsNotIn: what a mixin's build states over its base.
use sandbox_kit_spec.Base.{
  Bool, true, false, not, ◌&&◌, Option, none, some, List, [], ◌∷◌, ◌++◌, filter, is_empty, Text,
  codes, text_eq, has_text, cut, split, join, if◌then◌else◌,
}
use sandbox_kit_spec.Image.{Config}
use sandbox_kit_spec.Image.Entries.{cut_env, path_key}

-- ImageConfig: what is added at assembly, and the fields of the runtime contract.
pub record BuildConfig : Type 0 where
  pub added : Config
  pub entrypoint : List Text
  pub cmd : List Text
  pub user : Text
  pub working_dir : Text
  pub stop_signal : Text

-- The loop of pathElementsNotIn, with the elements that are there.
unfoldable pub elements_not_in : List Text → List Text → List Text
unfolding has_text
elements_not_in have [] = []
elements_not_in have (e ∷ es) =
    let skipped = elements_not_in have es in
    let added = e ∷ elements_not_in (e ∷ have) es in
    if not (is_empty e) && not (has_text have e) then added else skipped

-- pathElementsNotIn
unfoldable pub path_elements_not_in : Text → Text → List Text
unfolding elements_not_in split
path_elements_not_in upper lower = elements_not_in (split b':' lower) (split b':' upper)

-- envMap at a name: the last entry of it
abbrev env_value : Text → Option (Text × Text) → Option Text → Option Text
env_value key none seen = seen
env_value key (some (k, v)) seen = if text_eq key k then some v else seen

unfoldable pub env_from : Text → List Text → Option Text → Option Text
unfolding text_eq cut
env_from key [] seen = seen
env_from key (kv ∷ env) seen = env_from key env (env_value key (cut_env kv) seen)

unfoldable pub env_map : List Text → Text → Option Text
unfolding env_from
env_map env key = env_from key env none

unfoldable pub label_at : Text → List (Text × Text) → Option Text
unfolding text_eq
label_at key [] = none
label_at key ((k, v) ∷ labels) =
    let later = label_at key labels in if text_eq key k then some v else later

-- A value that is not there, or is another.
abbrev differs : Text → Option Text → Bool
differs v none = true
differs v (some w) = not (text_eq w v)

abbrev or_empty : Option Text → Text
or_empty none = []
or_empty (some v) = v

abbrev path_delta : List Text → List Text
path_delta [] = []
path_delta (e ∷ es) = (codes "PATH=" ++ join (codes ":") (e ∷ es)) ∷ []

abbrev entry_delta : List Text → Text → Option (Text × Text) → List Text
entry_delta lower kv none = []
entry_delta lower kv (some (k, v)) =
    if text_eq k path_key
    then path_delta (path_elements_not_in v (or_empty (env_map lower path_key)))
    else if differs v (env_map lower k)
    then kv ∷ []
    else []

unfoldable pub env_delta : List Text → List Text → List Text
unfolding env_map path_elements_not_in text_eq join cut
env_delta lower [] = []
env_delta lower (kv ∷ env) = entry_delta lower kv (cut_env kv) ++ env_delta lower env

unfoldable pub label_delta : List (Text × Text) → List (Text × Text) → List (Text × Text)
unfolding label_at text_eq
label_delta lower [] = []
label_delta lower ((k, v) ∷ labels) =
    let rest = label_delta lower labels in
    if differs v (label_at k lower) then (k, v) ∷ rest else rest

unfoldable pub set_delta : List Text → List Text → List Text
unfolding filter has_text
set_delta lower upper = filter (λ k. not (has_text lower k)) upper

unfoldable pub same_texts : List Text → List Text → Bool
unfolding text_eq
same_texts [] [] = true
same_texts [] (t ∷ ts) = false
same_texts (s ∷ ss) [] = false
same_texts (s ∷ ss) (t ∷ ts) = text_eq s t && same_texts ss ts

abbrev texts_delta : List Text → List Text → List Text
texts_delta lower upper = if same_texts upper lower then [] else upper

abbrev text_delta : Text → Text → Text
text_delta lower upper = if text_eq upper lower then [] else upper

-- configDelta
unfoldable pub config_delta : BuildConfig → BuildConfig → BuildConfig
unfolding env_delta label_delta set_delta same_texts text_eq
config_delta lower upper = record {
  added = record {
    env = env_delta lower.added.env upper.added.env;
    labels = label_delta lower.added.labels upper.added.labels;
    exposed_ports = set_delta lower.added.exposed_ports upper.added.exposed_ports;
    volumes = set_delta lower.added.volumes upper.added.volumes;
  };
  entrypoint = texts_delta lower.entrypoint upper.entrypoint;
  cmd = texts_delta lower.cmd upper.cmd;
  user = text_delta lower.user upper.user;
  working_dir = text_delta lower.working_dir upper.working_dir;
  stop_signal = text_delta lower.stop_signal upper.stop_signal;
}
