-- ===== src/Image/Valued.antt =====
-- assemble/assemble.go: what mergeConfig makes of an environment at one entry: the value of each variable but
-- the path is the one that its owner has, and it stays.
use sandbox_kit_spec.Base.{
  ◌≡◌, refl, sym, ap, subst, ◌∙◌, Bool, true, false, not, ◌&&◌, Option, none, some, some-injective,
  [], ◌∷◌, ◌++◌, is_empty, Text, text_eq, text_eq_iff, if◌then◌else◌, ok, err, ok-injective,
}
use sandbox_kit_spec.Image.Entries.{
  ValueOwner, Env, env_conflict, owner_at, cut_env, path_key, replace_path, merge_path, restate,
  merge_entry, merged_path, value_of,
}
use sandbox_kit_spec.Image.Values.{
  named, last_value, is_path, owned_value, IsOwned, Keeps, IsMerged, last_from-append,
  last_from-replace_path,
}

merge_path-IsOwned :
    (kit v : Text) (env : Env)
    → IsOwned env
    → IsOwned (merge_path kit v env) × Keeps env.entries (merge_path kit v env).entries
unfolding merge_path owner_at
merge_path-IsOwned kit v env owned = by_test (text_eq merged current && not (is_empty current))
  where
    current : Text
    current = value_of (owner_at path_key env.owners)

    merged : Text
    merged = merged_path current v

    changed : Env
    changed = record {
      entries = replace_path merged env.entries;
      owners = (path_key, record { value = merged; kit = kit }) ∷ env.owners;
    }

    owned_still : IsOwned changed
    owned_still k h =
        ap
          (λ b.
            owned_value
              (if b then some (record { value = merged; kit = kit }) else owner_at k env.owners))
          h
        ∙ owned k h
        ∙ sym (last_from-replace_path k merged none env.entries h)

    by_test :
        (b : Bool)
        → IsOwned (if b then env else changed)
          × Keeps env.entries (if b then env else changed).entries
    by_test true = (owned, λ k w h e. e)
    by_test false = (owned_still, λ k w h e. last_from-replace_path k merged none env.entries h ∙ e)

-- A variable that has no owner gets its first value.
restate-IsMerged :
    (kit kv k v : Text) (env : Env)
    → cut_env kv ≡ some (k, v)
    → IsOwned env
    → owner_at k env.owners ≡ none
    → IsMerged env kv (record {
      entries = env.entries ++ kv ∷ [];
      owners = (k, record { value = v; kit = kit }) ∷ env.owners;
    })
unfolding owner_at
restate-IsMerged kit kv k v env c owned free = (
  λ j h. by_key j (text_eq j k) (owned j h) ∙ sym (last_entry j),
  λ j w h e. last_entry j ∙ kept j w (text_eq j k) refl h e,
  λ j w d h.
      let same : ◌≡◌ {A = Text × Text} (k, v) (j, w) = some-injective (k, v) (j, w) (sym c ∙ d) in
      last_entry j
      ∙ ap (λ b. if b then some v else last_value j env.entries)
          ((text_eq_iff j k).1 (sym (ap (λ p. p.0) same)))
      ∙ ap (λ p. some p.1) same,
)
  where
    last_entry :
        (j : Text)
        → last_value j (env.entries ++ kv ∷ [])
          ≡ (if text_eq j k then some v else last_value j env.entries)
    last_entry j =
        last_from-append j kv none env.entries ∙ ap (λ p. named j p (last_value j env.entries)) c

    by_key :
        (j : Text) (b : Bool)
        → owned_value (owner_at j env.owners) ≡ last_value j env.entries
        → owned_value (if b then some (record { value = v; kit = kit }) else owner_at j env.owners)
          ≡ (if b then some v else last_value j env.entries)
    by_key j true e = refl
    by_key j false e = e

    kept :
        (j w : Text) (b : Bool)
        → text_eq j k ≡ b
        → is_path j ≡ false
        → last_value j env.entries ≡ some w
        → (if b then some v else last_value j env.entries) ≡ some w
    kept j w true same h e =
        let unowned : none ≡ last_value j env.entries =
          ap owned_value (sym free)
          ∙ ap (λ t. owned_value (owner_at t env.owners)) (sym ((text_eq_iff j k).0 same))
          ∙ owned j h in
        cc
    kept j w false same h e = e

pub merge_entry-IsMerged :
    (kit kv : Text) (parts : Option (Text × Text)) (env next : Env)
    → cut_env kv ≡ parts
    → IsOwned env
    → merge_entry kit kv parts env ≡ ok next
    → IsMerged env kv next
merge_entry-IsMerged kit kv none env next c owned e =
    subst (λ n. IsMerged env kv n) (ok-injective e) (owned, (λ k w h d. d), λ k w d h. cc)
merge_entry-IsMerged kit kv (some (k, v)) env next c owned e = by_key (text_eq k path_key) refl e
  where
    of_entry : (j w : Text) → cut_env kv ≡ some (j, w) → ◌≡◌ {A = Text × Text} (k, v) (j, w)
    of_entry j w d = some-injective (k, v) (j, w) (sym c ∙ d)

    restated :
        (seen : Option ValueOwner)
        → owner_at k env.owners ≡ seen
        → restate kit kv k v seen env ≡ ok next
        → IsMerged env kv next
    restated none free d =
        subst (λ n. IsMerged env kv n) (ok-injective d)
          (restate-IsMerged kit kv k v env c owned free)
    restated (some prev) seen d = by_value (text_eq prev.value v) refl d
      where
        by_value :
            (b : Bool)
            → text_eq prev.value v ≡ b
            → (if b then ok env else err (env_conflict k prev.kit kit)) ≡ ok next
            → IsMerged env kv next
        by_value true same x =
            subst (λ n. IsMerged env kv n) (ok-injective x)
              (
                owned,
                (λ j w h y. y),
                λ j w y h.
                    sym (owned j h)
                    ∙ ap (λ p. owned_value (owner_at p.0 env.owners)) (sym (of_entry j w y))
                    ∙ ap owned_value seen
                    ∙ ap some ((text_eq_iff prev.value v).0 same)
                    ∙ ap (λ p. some p.1) (of_entry j w y),
              )
        by_value false same x = cc

    by_key :
        (b : Bool)
        → text_eq k path_key ≡ b
        → (if b then ok (merge_path kit v env) else restate kit kv k v (owner_at k env.owners) env)
          ≡ ok next
        → IsMerged env kv next
    by_key true same d =
        let (after, kept) = merge_path-IsOwned kit v env owned in
        subst (λ n. IsMerged env kv n) (ok-injective d)
          (
            after,
            kept,
            λ j w y h.
                let other : true ≡ false = sym same ∙ ap (λ p. is_path p.0) (of_entry j w y) ∙ h in
                cc,
          )
    by_key false same d = restated (owner_at k env.owners) refl d
