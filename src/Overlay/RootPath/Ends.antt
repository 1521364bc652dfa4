-- ===== src/Overlay/RootPath/Ends.antt =====
-- internal/overlayfs/fs.go: rootPath ends. A pass of walkLinks recurses on shorter paths, and the passes are
-- no more than the symlinks that may be expanded and two.
use sandbox_kit_spec.Base.{
  ℕ, zero, suc, ◌+◌, ◌≤◌, ◌<◌, ◌≡◌, ◌≢◌, refl, sym, subst, ◌∙◌, inl, inr, Bool, true, false, ◌||◌,
  not, Option, none, some, [], ◌∷◌, ◌++◌, length, length-append, Text, codes, is_empty, cut_last,
  if◌then◌else◌, ltb, ◌==◌, Result, ok, err, ◌>>=◌, arith, Option-cases,
}
use sandbox_kit_spec.Overlay.{Node, dir, file, symlink, whiteout, Dir}
use sandbox_kit_spec.Overlay.FilePath.{slash, is_rooted, clean, join_path}
use sandbox_kit_spec.Overlay.Lookup.{Reached, missing, failed, found, lstat}
use sandbox_kit_spec.Overlay.RootPath.{
  PathError, refused, out_of_fuel, Walked, walked_path, link_at, link_from, walk_link, walk_last,
  walk_parts, at_slash, walk_again, walk_links, root_loop, root_path, is_root, max_path_len,
  max_extract_symlinks, passes, crosses_symlink,
}

-- What a walk that started with a number of expanded symlinks may give: a refusal, or as many symlinks
-- and one more expanded than at least that number, and no more than that where too many are expanded.
abbrev IsSettled {ℓ} : {A : Type ℓ} → (A → ℕ) → ℕ → Result PathError A → Type 0
IsSettled count walked (err refused) = Unit
IsSettled count walked (err out_of_fuel) = ⊥
IsSettled count walked (ok w) =
    (walked ≤ count w) × (max_extract_symlinks < walked → count w ≡ walked)

abbrev count_of : Walked → ℕ
count_of w = w.walked

abbrev second : Text × ℕ → ℕ
second w = w.1

link_at-IsSettled :
    (p : Text) (walked : ℕ) (n : Reached Node)
    → walked ≤ max_extract_symlinks
    → IsSettled count_of walked (link_at p walked n)
link_at-IsSettled p walked missing h = (omega arith, λ k. omega arith)
link_at-IsSettled p walked failed h = _
link_at-IsSettled p walked (found (dir info cs)) h = (omega arith, λ k. omega arith)
link_at-IsSettled p walked (found file) h = (omega arith, λ k. omega arith)
link_at-IsSettled p walked (found (symlink link)) h = (omega arith, λ k. omega arith)
link_at-IsSettled p walked (found whiteout) h = (omega arith, λ k. omega arith)

link_from-IsSettled :
    (t : Dir) (walked : ℕ) (p : Text)
    → walked ≤ max_extract_symlinks
    → IsSettled count_of walked (link_from t walked p)
unfolding link_from
link_from-IsSettled t walked p h = by_tests (is_root p) (ltb max_path_len (length p))
  where
    by_tests :
        (root long : Bool)
        → IsSettled count_of walked (
            if root
            then ok (record { next = p; is_link = false; walked = walked })
            else if long
            then err refused
            else link_at p walked (lstat t p))
    by_tests true long = (omega arith, λ k. omega arith)
    by_tests false true = _
    by_tests false false = link_at-IsSettled p walked (lstat t p) h

walk_link-IsSettled :
    (t : Dir) (walked : ℕ) (p : Text) → IsSettled count_of walked (walk_link t walked p)
unfolding walk_link
walk_link-IsSettled t walked p = by_test (ltb max_extract_symlinks walked) refl
  where
    by_test :
        (b : Bool)
        → ltb max_extract_symlinks walked ≡ b
        → IsSettled count_of walked
            (if b then err refused else link_from t walked (join_path (codes "/") p))
    by_test true e = _
    by_test false e = link_from-IsSettled t walked (join_path (codes "/") p) (ground arith)

IsSettled-later {ℓ} :
    {A : Type ℓ} (count : A → ℕ) (walked more : ℕ) (r : Result PathError A)
    → walked ≤ more
    → (max_extract_symlinks < walked → more ≡ walked)
    → IsSettled count more r
    → IsSettled count walked r
IsSettled-later count walked more (err refused) h k s = _
IsSettled-later count walked more (err out_of_fuel) h k s = s
IsSettled-later count walked more (ok w) h k (at_least, same) =
    (omega arith, λ e. same (subst (λ n. max_extract_symlinks < n) (sym (k e)) e) ∙ k e)

IsSettled-bind {ι ℓ} :
    {A : Type ι} {B : Type ℓ} (count : A → ℕ) (counted : B → ℕ) (walked : ℕ)
    (r : Result PathError A) (next : A → Result PathError B)
    → IsSettled count walked r
    → ((a : A) → IsSettled counted (count a) (next a))
    → IsSettled counted walked (r >>= next)
IsSettled-bind count counted walked (err refused) next s h = _
IsSettled-bind count counted walked (err out_of_fuel) next s h = s
IsSettled-bind count counted walked (ok a) next (at_least, same) h =
    IsSettled-later counted walked (count a) (next a) at_least same (h a)

IsSettled-ok {ℓ} : {A : Type ℓ} (count : A → ℕ) (a : A) → IsSettled count (count a) (ok a)
IsSettled-ok count a = (omega arith, λ e. refl)

walk_last-IsSettled :
    (t : Dir) (base : Text) (w : Text × ℕ) → IsSettled second w.1 (walk_last t base w)
unfolding walk_last
walk_last-IsSettled t base (new_dir, walked) =
    IsSettled-bind count_of second walked (walk_link t walked (join_path new_dir base))
      (λ w. ok (
        (if not w.is_link || is_rooted w.next then w.next else join_path new_dir w.next),
        w.walked,
      ))
      (walk_link-IsSettled t walked (join_path new_dir base)) (λ w. (omega arith, λ e. refl))

length-cut_last :
    (p : ℕ → Bool) (s before after : Text)
    → cut_last p s ≡ some (before, after)
    → length s ≡ suc (length before + length after)
unfolding cut_last
length-cut_last p [] before after e = cc
length-cut_last p (c ∷ s) before after e = elim (Option-cases (cut_last p s)) [
  | inl d ↦ ground arith
  | inr ((b, a), d) ↦ ground (arith, length-cut_last p s b a d)
]

walk_parts-IsSettled :
    (t : Dir) (walked : ℕ) (p : Text) (walk : Text → Result PathError (Text × ℕ))
    → ((q : Text) → length q < length p → IsSettled second walked (walk q))
    → (parts : Option (Text × Text)) → cut_last at_slash p ≡ parts
    → IsSettled second walked (walk_parts t walked p walk parts)
walk_parts-IsSettled t walked p walk h none e =
    IsSettled-bind count_of second walked (walk_link t walked p) (λ w. ok (walked_path w))
      (walk_link-IsSettled t walked p) (λ w. (omega arith, λ k. refl))
walk_parts-IsSettled t walked p walk h (some ([], [])) e = (omega arith, λ k. refl)
walk_parts-IsSettled t walked p walk h (some (b ∷ before, [])) e =
    h (b ∷ before) (omega (arith, length-cut_last at_slash p (b ∷ before) [] e))
walk_parts-IsSettled t walked p walk h (some (before, c ∷ base)) e =
    IsSettled-bind second second walked (walk (before ++ slash ∷ [])) (walk_last t (c ∷ base))
      (h (before ++ slash ∷ []) (
        omega (
          arith,
          length-cut_last at_slash p before (c ∷ base) e,
          length-append before (slash ∷ []),
        )))
      (walk_last-IsSettled t (c ∷ base))

walk_links-IsSettled :
    (fuel : ℕ) (t : Dir) (walked : ℕ) (p : Text)
    → length p < fuel
    → IsSettled second walked (walk_links fuel t walked p)
unfolding walk_links
walk_links-IsSettled zero t walked p h = ground arith
walk_links-IsSettled (suc fuel) t walked p h =
    walk_parts-IsSettled t walked p (walk_links fuel t walked)
      (λ q shorter. walk_links-IsSettled fuel t walked q (omega arith)) (cut_last at_slash p) refl

-- Each pass that does not end expands a symlink.
root_loop-ne-out_of_fuel :
    (fuel : ℕ) (t : Dir) (walked : ℕ) (p : Text)
    → passes ≤ fuel + walked
    → 0 < fuel
    → root_loop fuel t walked p ≢ err out_of_fuel
unfolding root_loop
root_loop-ne-out_of_fuel zero t walked p h k = ground arith
root_loop-ne-out_of_fuel (suc fuel) t walked p h k =
    by_walk (walk_links (suc (length p)) t walked p)
      (walk_links-IsSettled (suc (length p)) t walked p (omega arith))
      (root_loop-ne-out_of_fuel fuel t)
  where
    by_walk :
        (r : Result PathError (Text × ℕ))
        → IsSettled second walked r
        → ((count : ℕ) (q : Text)
            → passes ≤ fuel + count
            → 0 < fuel
            → root_loop fuel t count q ≢ err out_of_fuel)
        → (r >>= walk_again walked (root_loop fuel t)) ≢ err out_of_fuel
    by_walk (err refused) s again = λ e. cc
    by_walk (err out_of_fuel) s again = λ e. s
    by_walk (ok (next, count)) (at_least, same) again = by_count (count == walked) refl
      where
        by_count :
            (b : Bool)
            → (count == walked) ≡ b
            → (if b then ok (clean (slash ∷ next)) else root_loop fuel t count next)
              ≢ err out_of_fuel
        by_count true d = λ e. cc
        by_count false d = again count next (ground (arith, same)) (ground (arith, same))

-- The path of an entry's parent is resolved or refused: the passes are enough.
pub root_path-ne-out_of_fuel : (t : Dir) (p : Text) → root_path t p ≢ err out_of_fuel
unfolding root_path
root_path-ne-out_of_fuel t p = by_tests (is_empty p) (crosses_symlink t p)
  where
    by_tests :
        (none_given crosses : Bool)
        → (if none_given
            then ok (codes "/")
            else if not crosses
            then ok (clean (slash ∷ p))
            else root_loop passes t 0 p)
          ≢ err out_of_fuel
    by_tests true crosses = λ e. cc
    by_tests false false = λ e. cc
    by_tests false true = root_loop-ne-out_of_fuel passes t 0 p (omega arith) (omega arith)
