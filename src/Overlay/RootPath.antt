-- ===== src/Overlay/RootPath.antt =====
-- internal/overlayfs/fs.go: rootPath, the resolution of an entry's parent in a layer's own tree, with
-- crossesSymlink, walkLinks and walkLink. The recursion of walkLinks and the loop of rootPath run on fuel.
pub mod Ends
use sandbox_kit_spec.Base.{
  ℕ, zero, suc, ◌+◌, Bool, true, false, ◌||◌, not, Option, none, some, List, [], ◌∷◌, ◌++◌, length,
  Text, codes, text_eq, ◌&&◌, split, is_empty, cut_last, if◌then◌else◌, ltb, ◌==◌, Result, ok, err,
  ◌>>=◌,
}
use sandbox_kit_spec.Overlay.{Node, dir, file, symlink, whiteout, Dir, get}
use sandbox_kit_spec.Overlay.FilePath.{slash, is_rooted, is_dot, is_up, clean, join_path}
use sandbox_kit_spec.Overlay.Lookup.{Reached, missing, failed, found, lstat}

-- maxExtractSymlinks, maxPathLen
abbrev pub max_extract_symlinks : ℕ
max_extract_symlinks = 255

abbrev pub max_path_len : ℕ
max_path_len = 4095

-- The stack of directories of crossesSymlink: the last one, none where nothing is, and those above it.
abbrev Place : Type 0
Place = Option Dir × List (Option Dir)

abbrev child_of : Option Dir → Text → Option Node
child_of none seg = none
child_of (some d) seg = get seg d.children

abbrev enter : Option Dir → List (Option Dir) → Option Node → Option Place
enter top above none = some (none, top ∷ above)
enter top above (some (dir info cs)) =
    some (some (record { info = info; children = cs }), top ∷ above)
enter top above (some file) = none
enter top above (some (symlink link)) = none
enter top above (some whiteout) = none

abbrev leave : Option Dir → List (Option Dir) → Option Place
leave top [] = some (top, [])
leave top (d ∷ above) = some (d, above)

unfoldable pub cross_step :
    Option Dir → List (Option Dir) → Text → Option (Option Dir × List (Option Dir))
unfolding text_eq get
cross_step top above seg =
    if is_dot seg
    then some (top, above)
    else if is_up seg
    then leave top above
    else enter top above (child_of top seg)

unfoldable pub crosses_from : Option Dir → List (Option Dir) → List Text → Bool
unfolding cross_step
crosses_from top above [] = false
crosses_from top above (seg ∷ segs) = elim (cross_step top above seg) [
  | none ↦ true
  | some (d, ds) ↦ crosses_from d ds segs
]

-- crossesSymlink
unfoldable pub crosses_symlink : Dir → Text → Bool
unfolding crosses_from split
crosses_symlink t p = crosses_from (some t) [] (split slash p)

-- Why there is no path: the extractor refuses, or the model ran out of fuel.
pub data PathError : Type 0 where
  refused : PathError
  out_of_fuel : PathError

-- A path, whether it is the target of a symlink, and the symlinks expanded so far.
pub record Walked : Type 0 where
  pub next : Text
  pub is_link : Bool
  pub walked : ℕ

abbrev pub link_at : Text → ℕ → Reached Node → Result PathError Walked
link_at p walked failed = err refused
link_at p walked missing = ok (record { next = p; is_link = false; walked = walked })
link_at p walked (found (symlink link)) =
    ok (record { next = link; is_link = true; walked = suc walked })
link_at p walked (found (dir info cs)) = ok (record { next = p; is_link = false; walked = walked })
link_at p walked (found file) = ok (record { next = p; is_link = false; walked = walked })
link_at p walked (found whiteout) = ok (record { next = p; is_link = false; walked = walked })

abbrev pub is_root : Text → Bool
is_root [] = false
is_root (c ∷ p) = (c == slash) && is_empty p

unfoldable pub link_from : Dir → ℕ → Text → Result PathError Walked
unfolding lstat
link_from t walked p =
    if is_root p
    then ok (record { next = p; is_link = false; walked = walked })
    else if ltb max_path_len (length p)
    then err refused
    else link_at p walked (lstat t p)

-- walkLink
unfoldable pub walk_link : Dir → ℕ → Text → Result PathError Walked
unfolding link_from join_path
walk_link t walked p =
    if ltb max_extract_symlinks walked
    then err refused
    else link_from t walked (join_path (codes "/") p)

abbrev pub walked_path : Walked → Text × ℕ
walked_path w = (w.next, w.walked)

-- The last lines of walkLinks: a relative target is joined to the resolved directory.
unfoldable pub walk_last : Dir → Text → Text × ℕ → Result PathError (Text × ℕ)
unfolding walk_link join_path
walk_last t base (new_dir, walked) = do
  w ← walk_link t walked (join_path new_dir base)
  ok ((if not w.is_link || is_rooted w.next then w.next else join_path new_dir w.next), w.walked)

-- The switch of walkLinks, with what walks a directory: path.Split gives no directory, or what stands
-- before the last slash with that slash.
abbrev pub walk_directory :
    ℕ → (Text → Result PathError (Text × ℕ)) → Text → Result PathError (Text × ℕ)
walk_directory walked walk [] = ok (slash ∷ [], walked)
walk_directory walked walk (c ∷ cs) = walk (c ∷ cs)

abbrev pub walk_parts :
    Dir
    → ℕ
    → Text
    → (Text → Result PathError (Text × ℕ))
    → Option (Text × Text)
    → Result PathError (Text × ℕ)
walk_parts t walked p walk none = walk_link t walked p >>= (λ w. ok (walked_path w))
walk_parts t walked p walk (some (before, [])) = walk_directory walked walk before
walk_parts t walked p walk (some (before, c ∷ base)) =
    walk (before ++ slash ∷ []) >>= walk_last t (c ∷ base)

abbrev pub at_slash : ℕ → Bool
at_slash c = c == slash

-- walkLinks
unfoldable pub walk_links : ℕ → Dir → ℕ → Text → Result PathError (Text × ℕ)
unfolding walk_last walk_link cut_last
walk_links zero t walked p = err out_of_fuel
walk_links (suc fuel) t walked p =
    walk_parts t walked p (walk_links fuel t walked) (cut_last at_slash p)

-- The loop of rootPath, with what walks the path again.
abbrev pub walk_again : ℕ → (ℕ → Text → Result PathError Text) → Text × ℕ → Result PathError Text
walk_again before again (next, walked) =
    let later = again walked next in if walked == before then ok (clean (slash ∷ next)) else later

unfoldable pub root_loop : ℕ → Dir → ℕ → Text → Result PathError Text
unfolding walk_links clean
root_loop zero t walked p = err out_of_fuel
root_loop (suc fuel) t walked p =
    walk_links (suc (length p)) t walked p >>= walk_again walked (root_loop fuel t)

-- A pass more than the symlinks that may be expanded, and one that expands none.
abbrev pub passes : ℕ
passes = max_extract_symlinks + 2

-- rootPath
unfoldable pub root_path : Dir → Text → Result PathError Text
unfolding root_loop crosses_symlink clean
root_path t p =
    if is_empty p
    then ok (codes "/")
    else if not (crosses_symlink t p)
    then ok (clean (slash ∷ p))
    else root_loop passes t 0 p
