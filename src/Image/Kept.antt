-- ===== src/Image/Kept.antt =====
-- assemble/assemble.go: the variables of a composed image have the values that the kits state, the path aside.
use sandbox_kit_spec.Base.{
  ◌≡◌, refl, sym, ap, subst, ◌∙◌, false, Bool, true, if◌then◌else◌, Option, none, some, List, [],
  ◌∷◌, All, Text, text_eq, ok, ◌>>=◌, bind-ok, ok-injective,
}
use sandbox_kit_spec.Image.{
  Input, Image, ConfigOwners, new_config_owners, merge_config, with_env, with_mixin, layers_counted,
  merge_mixins, merge,
}
use sandbox_kit_spec.Image.Entries.{
  ValueOwner, Env, owner_at, cut_env, owned_env, env_owners, merge_entry, merge_env,
}
use sandbox_kit_spec.Image.Valued.{merge_entry-IsMerged}
use sandbox_kit_spec.Image.Values.{named, last_from, owned_value, IsOwned, Keeps, IsShown}

-- The environment after the entries of a kit.
abbrev IsMergedAll : Env → List Text → Env → Type 0
IsMergedAll env kvs next =
    IsOwned next × Keeps env.entries next.entries × All (IsShown next.entries) kvs

merge_env-IsMergedAll :
    (kit : Text) (kvs : List Text) (env last : Env)
    → IsOwned env
    → merge_env kit kvs env ≡ ok last
    → IsMergedAll env kvs last
unfolding merge_env
merge_env-IsMergedAll kit [] env last owned e =
    subst (λ n. IsMergedAll env [] n) (ok-injective e) (owned, (λ k v h d. d), _)
merge_env-IsMergedAll kit (kv ∷ kvs) env last owned e =
    let (mid, first, rest) = bind-ok (merge_entry kit kv (cut_env kv) env) (merge_env kit kvs) e in
    let (after, kept, shown) = merge_entry-IsMerged kit kv (cut_env kv) env mid refl owned first in
    let (final, kept_on, all_shown) = merge_env-IsMergedAll kit kvs mid last after rest in
    (
      final,
      (λ k v h d. kept_on k v h (kept k v h d)),
      ((λ k v c h. kept_on k v h (shown k v c h)), all_shown),
    )

-- The owners of the workload's entries.
owned_value-env_owners :
    (kit k : Text) (env : List Text) (os : List (Text × ValueOwner))
    → owned_value (owner_at k (env_owners kit env os))
      ≡ last_from k (owned_value (owner_at k os)) env
unfolding env_owners last_from owner_at
owned_value-env_owners kit k [] os = refl
owned_value-env_owners kit k (kv ∷ env) os =
    owned_value-env_owners kit k env (owned_env kit (cut_env kv) os)
    ∙ ap (λ s. last_from k s env) (by_parts (cut_env kv))
  where
    by_key :
        (b : Bool) (v : Text)
        → owned_value (if b then some (record { value = v; kit = kit }) else owner_at k os)
          ≡ (if b then some v else owned_value (owner_at k os))
    by_key true v = refl
    by_key false v = refl

    by_parts :
        (parts : Option (Text × Text))
        → owned_value (owner_at k (owned_env kit parts os))
          ≡ named k parts (owned_value (owner_at k os))
    by_parts none = refl
    by_parts (some (j, v)) = by_key (text_eq k j) v

-- What an image's environment has of the mixins: the value that each of their entries states.
abbrev pub AreShown : List Text → List Input → Type 0
AreShown env [] = Unit
AreShown env (m ∷ ms) = All (IsShown env) m.config.env × AreShown env ms

All-kept :
    (before after kvs : List Text)
    → Keeps before after
    → All (IsShown before) kvs
    → All (IsShown after) kvs
All-kept before after [] kept h = _
All-kept before after (kv ∷ kvs) kept (shown, h) =
    ((λ k v c n. kept k v n (shown k v c n)), All-kept before after kvs kept h)

merge_mixins-AreShown :
    (o : ConfigOwners) (ms : List Input) (image last : Image)
    → IsOwned (record { entries = image.config.env; owners = o.env })
    → merge_mixins o ms image ≡ ok last
    → Keeps image.config.env last.config.env × AreShown last.config.env ms
unfolding merge_mixins merge_config with_env
merge_mixins-AreShown o [] image last owned e =
    subst (λ i. Keeps image.config.env i.config.env × AreShown i.config.env []) (ok-injective e)
      ((λ k v h d. d), _)
merge_mixins-AreShown o (m ∷ ms) image last owned e =
    let start : Env = record { entries = image.config.env; owners = o.env } in
    let (u, counts, first) =
      bind-ok (layers_counted m)
        (λ u. merge_config o image.config m >>= (λ p. merge_mixins p.1 ms (with_mixin image m p.0)))
        e in
    let (p, merged, second) =
      bind-ok (merge_config o image.config m) (λ p. merge_mixins p.1 ms (with_mixin image m p.0))
        first in
    let (env, entries, same) =
      bind-ok (merge_env m.name m.config.env start) (λ env. ok (with_env o image.config m env))
        merged in
    let (after, kept, shown) = merge_env-IsMergedAll m.name m.config.env start env owned entries in
    let given = ok-injective same in
    let (kept_on, all_shown) =
      merge_mixins-AreShown p.1 ms (with_mixin image m p.0) last
        (subst (λ q. IsOwned (record { entries = q.0.env; owners = q.1.env })) given after)
        second in
    let on : Keeps env.entries last.config.env =
      subst (λ q. Keeps q.0.env last.config.env) (sym given) kept_on in
    (
      (λ k v h d. on k v h (kept k v h d)),
      (All-kept env.entries last.config.env m.config.env on shown, all_shown),
    )

-- In the environment of a composed image a variable, the path aside, has the value that the workload gives
-- it, where it gives one, and the value that each entry of a mixin states for it: no kit's value gives
-- way to another's. A variable that has several entries has the value of the last.
pub merge-AreShown :
    (sandbox : Input) (mixins : List Input) (image : Image)
    → merge sandbox mixins ≡ ok image
    → Keeps sandbox.config.env image.config.env × AreShown image.config.env mixins
unfolding merge new_config_owners owner_at
merge-AreShown sandbox mixins image e =
    let start : Image = record {
      config = sandbox.config;
      diff_ids = sandbox.diff_ids;
      history = sandbox.history;
      layers = sandbox.layers;
    } in
    let (u, counts, rest) =
      bind-ok (layers_counted sandbox) (λ u. merge_mixins (new_config_owners sandbox) mixins start)
        e in
    merge_mixins-AreShown (new_config_owners sandbox) mixins start image
      (λ k h. owned_value-env_owners sandbox.name k sandbox.config.env []) rest
