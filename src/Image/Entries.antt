-- ===== src/Image/Entries.antt =====
-- assemble/assemble.go: the entries of an environment and the labels that a mixin merges, with the kit
-- that owns each.
use sandbox_kit_spec.Base.{
  ℕ, not, ◌&&◌, ◌||◌, Option, none, some, List, [], ◌∷◌, ◌++◌, is_empty, Text, codes, text_eq,
  has_text, has_prefix, cut, split, if◌then◌else◌, Result, ok, err, ◌>>=◌,
}

pub record ValueOwner : Type 0 where
  pub value : Text
  pub kit : Text

unfoldable pub owner_at : Text → List (Text × ValueOwner) → Option ValueOwner
unfolding text_eq
owner_at key [] = none
owner_at key ((k, o) ∷ os) = let later = owner_at key os in if text_eq key k then some o else later

-- strings.Cut of an entry at "="
abbrev pub cut_env : Text → Option (Text × Text)
cut_env kv = cut b'=' kv

abbrev pub owned_env :
    Text → Option (Text × Text) → List (Text × ValueOwner) → List (Text × ValueOwner)
owned_env kit none os = os
owned_env kit (some (k, v)) os = (k, record { value = v; kit = kit }) ∷ os

unfoldable pub env_owners : Text → List Text → List (Text × ValueOwner) → List (Text × ValueOwner)
unfolding cut
env_owners kit [] os = os
env_owners kit (kv ∷ env) os = env_owners kit env (owned_env kit (cut_env kv) os)

unfoldable pub label_owners : Text → List (Text × Text) → List (Text × ValueOwner)
label_owners kit [] = []
label_owners kit ((k, v) ∷ labels) = (k, record { value = v; kit = kit }) ∷ label_owners kit labels

pub data MergeError : Type 0 where
  layer_count : Text → ℕ → ℕ → MergeError
  env_conflict : Text → Text → Text → MergeError

-- The composed environment with its owners.
pub record Env : Type 0 where
  pub entries : List Text
  pub owners : List (Text × ValueOwner)

abbrev pub path_key : Text
path_key = codes "PATH"

abbrev pub value_of : Option ValueOwner → Text
value_of none = []
value_of (some o) = o.value

-- The loop of mergePath over the added elements, with those that are there.
abbrev pub with_element : Text → Text → Text
with_element [] e = e
with_element (c ∷ merged) e = (c ∷ merged) ++ (codes ":" ++ e)

unfoldable pub merge_elements : List Text → Text → List Text → Text
unfolding has_text
merge_elements have merged [] = merged
merge_elements have merged (e ∷ es) =
    let skipped = merge_elements have merged es in
    let added = merge_elements (e ∷ have) (with_element merged e) es in
    if is_empty e || has_text have e then skipped else added

unfoldable pub merged_path : Text → Text → Text
unfolding merge_elements split
merged_path current addition = merge_elements (split b':' current) current (split b':' addition)

abbrev pub path_entry : Text → Text
path_entry merged = codes "PATH=" ++ merged

-- The first entry of PATH is replaced, or one is appended.
unfoldable pub replace_path : Text → List Text → List Text
unfolding has_prefix
replace_path merged [] = path_entry merged ∷ []
replace_path merged (kv ∷ env) =
    let later = replace_path merged env in
    if has_prefix (codes "PATH=") kv then path_entry merged ∷ env else kv ∷ later

abbrev pub put_path : Text → Text → Text → Env → Env
put_path kit current merged env =
    if text_eq merged current && not (is_empty current) then env else record {
      entries = replace_path merged env.entries;
      owners = (path_key, record { value = merged; kit = kit }) ∷ env.owners;
    }

-- mergePath
unfoldable pub merge_path : Text → Text → Env → Env
unfolding owner_at merged_path replace_path text_eq
merge_path kit addition env =
    let current = value_of (owner_at path_key env.owners) in
    put_path kit current (merged_path current addition) env

-- An entry that is not of PATH, against the owner of its name.
abbrev pub restate : Text → Text → Text → Text → Option ValueOwner → Env → Result MergeError Env
restate kit kv k v none env = ok (record {
  entries = env.entries ++ kv ∷ [];
  owners = (k, record { value = v; kit = kit }) ∷ env.owners;
})
restate kit kv k v (some prev) env =
    if text_eq prev.value v then ok env else err (env_conflict k prev.kit kit)

abbrev pub merge_entry : Text → Text → Option (Text × Text) → Env → Result MergeError Env
merge_entry kit kv none env = ok env
merge_entry kit kv (some (k, v)) env =
    if text_eq k path_key
    then ok (merge_path kit v env)
    else restate kit kv k v (owner_at k env.owners) env

-- mergeConfig: the loop over the environment
unfoldable pub merge_env : Text → List Text → Env → Result MergeError Env
unfolding owner_at merge_path text_eq cut
merge_env kit [] env = ok env
merge_env kit (kv ∷ kvs) env = merge_entry kit kv (cut_env kv) env >>= merge_env kit kvs

pub record Labels : Type 0 where
  pub entries : List (Text × Text)
  pub owners : List (Text × ValueOwner)

abbrev merge_label : Text → Text → Text → Option ValueOwner → Labels → Labels
merge_label kit k v (some prev) labels = labels
merge_label kit k v none labels = record {
  entries = labels.entries ++ (k, v) ∷ [];
  owners = (k, record { value = v; kit = kit }) ∷ labels.owners;
}

-- The loop over the labels, and the two over sets
unfoldable pub merge_labels : Text → List (Text × Text) → Labels → Labels
unfolding owner_at
merge_labels kit [] labels = labels
merge_labels kit ((k, v) ∷ kvs) labels =
    merge_labels kit kvs (merge_label kit k v (owner_at k labels.owners) labels)

unfoldable pub union : List Text → List Text → List Text
unfolding has_text
union set [] = set
union set (k ∷ ks) = union (if has_text set k then set else set ++ k ∷ []) ks
