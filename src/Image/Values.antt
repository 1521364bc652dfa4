-- ===== src/Image/Values.antt =====
-- assemble/assemble.go: the value that an environment has for a variable, after an entry and after the
-- path is replaced.
use sandbox_kit_spec.Base.{
  ◌≡◌, refl, sym, ap, ap₂, ◌∙◌, Bool, true, false, Option, none, some, List, [], ◌∷◌, ◌++◌, Text,
  codes, text_eq, cut, ==_iff, has_prefix, if◌then◌else◌, arith,
}
use sandbox_kit_spec.Image.Entries.{
  ValueOwner, Env, owner_at, cut_env, path_key, path_entry, replace_path,
}

-- The value of a variable in an environment: the one of its last entry.
abbrev pub named : Text → Option (Text × Text) → Option Text → Option Text
named k none seen = seen
named k (some (j, v)) seen = if text_eq k j then some v else seen

unfoldable pub last_from : Text → Option Text → List Text → Option Text
last_from k seen [] = seen
last_from k seen (kv ∷ env) = last_from k (named k (cut_env kv) seen) env

abbrev pub last_value : Text → List Text → Option Text
last_value k env = last_from k none env

abbrev pub is_path : Text → Bool
is_path k = text_eq k path_key

abbrev pub owned_value : Option ValueOwner → Option Text
owned_value none = none
owned_value (some o) = some o.value

-- The owners of the variables but the path have their values.
abbrev pub IsOwned : Env → Type 0
IsOwned env =
    (k : Text) → is_path k ≡ false → owned_value (owner_at k env.owners) ≡ last_value k env.entries

-- A variable but the path that has a value has it afterwards.
abbrev pub Keeps : List Text → List Text → Type 0
Keeps before after =
    (k v : Text) → is_path k ≡ false → last_value k before ≡ some v → last_value k after ≡ some v

-- The variable that an entry states, the path aside, has its value.
abbrev pub IsShown : List Text → Text → Type 0
IsShown env kv =
    (k v : Text) → cut_env kv ≡ some (k, v) → is_path k ≡ false → last_value k env ≡ some v

abbrev pub IsMerged : Env → Text → Env → Type 0
IsMerged env kv next = IsOwned next × Keeps env.entries next.entries × IsShown next.entries kv

pub last_from-append :
    (k kv : Text) (seen : Option Text) (env : List Text)
    → last_from k seen (env ++ kv ∷ []) ≡ named k (cut_env kv) (last_from k seen env)
unfolding last_from
last_from-append k kv seen [] = refl
last_from-append k kv seen (e ∷ env) = last_from-append k kv (named k (cut_env e) seen) env

named-path_entry :
    (k rest : Text) (seen : Option Text)
    → is_path k ≡ false
    → named k (cut_env (path_entry rest)) seen ≡ seen
unfolding cut text_eq
named-path_entry k rest seen h = ap (λ b. if b then some rest else seen) h

has_prefix-append : (p s : Text) → has_prefix p s ≡ true → (rest : Text) × (s ≡ p ++ rest)
unfolding has_prefix
has_prefix-append [] s h = (s, refl)
has_prefix-append (p ∷ ps) [] h = cc
has_prefix-append (p ∷ ps) (c ∷ s) h =
    let (rest, same) = has_prefix-append ps s (ground arith) in
    (rest, ap₂ ◌∷◌ (sym ((==_iff p c).0 (ground arith))) same)

-- The path's entry is of no other variable.
pub last_from-replace_path :
    (k merged : Text) (seen : Option Text) (env : List Text)
    → is_path k ≡ false
    → last_from k seen (replace_path merged env) ≡ last_from k seen env
unfolding last_from replace_path
last_from-replace_path k merged seen [] h = named-path_entry k merged seen h
last_from-replace_path k merged seen (kv ∷ env) h =
    by_test (has_prefix (codes "PATH=") kv) refl
      (last_from-replace_path k merged (named k (cut_env kv) seen) env h)
  where
    by_test :
        (b : Bool)
        → has_prefix (codes "PATH=") kv ≡ b
        → last_from k (named k (cut_env kv) seen) (replace_path merged env)
          ≡ last_from k (named k (cut_env kv) seen) env
        → last_from k seen (if b then path_entry merged ∷ env else kv ∷ replace_path merged env)
          ≡ last_from k (named k (cut_env kv) seen) env
    by_test false e rest = rest
    by_test true e rest =
        let (tail, same) = has_prefix-append (codes "PATH=") kv e in
        ap (λ s. last_from k s env)
          (named-path_entry k merged seen h
            ∙ sym (named-path_entry k tail seen h)
            ∙ ap (λ t. named k (cut_env t) seen) (sym same))
