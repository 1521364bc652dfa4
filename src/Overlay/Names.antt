-- ===== src/Overlay/Names.antt =====
-- internal/overlayfs/fs.go: the children of a directory as a map: lookups after an insertion and a removal,
-- and the order of the names, which says that no name is there twice.
use sandbox_kit_spec.Base.{
  ◌≡◌, ◌≢◌, refl, sym, ap, subst, ◌∙◌, none, some, some-injective, [], ◌∷◌, Text, compare_text,
  compare_text_self, compare_text-eq-eq, flip, flip-compare_text, Ordering, lt, eq, gt, arith,
}
use sandbox_kit_spec.Overlay.{
  Node, dir, file, symlink, whiteout, Children, empty, child, get, get_by, put, put_by, remove,
  remove_by,
}

-- The names begin after k.
abbrev pub IsAfter : Text → Children → Type 0
IsAfter k empty = Unit
IsAfter k (child m n cs) = compare_text k m ≡ lt

unfoldable mutual
  pub IsSorted : Node → Type 0
  IsSorted (dir info cs) = AreSorted cs
  IsSorted file = Unit
  IsSorted (symlink link) = Unit
  IsSorted whiteout = Unit

  pub AreSorted : Children → Type 0
  AreSorted empty = Unit
  AreSorted (child k n cs) = IsAfter k cs × IsSorted n × AreSorted cs

pub get-put : (name : Text) (n : Node) (cs : Children) → get name (put name n cs) ≡ some n
unfolding get put
get-put name n empty = ground (arith, compare_text_self name)
get-put name n (child k m cs) = ground (arith, compare_text_self name, get-put name n cs)

pub get-after : (name : Text) (cs : Children) → IsAfter name cs → get name cs ≡ none
unfolding get
get-after name empty h = refl
get-after name (child k m cs) h = ap (λ o. get_by o m (get name cs)) h

pub lt_trans :
    (s t u : Text) → compare_text s t ≡ lt → compare_text t u ≡ lt → compare_text s u ≡ lt
unfolding compare_text
lt_trans [] [] u h k = cc
lt_trans [] (b ∷ t) [] h k = cc
lt_trans [] (b ∷ t) (c ∷ u) h k = refl
lt_trans (a ∷ s) [] u h k = cc
lt_trans (a ∷ s) (b ∷ t) [] h k = cc
lt_trans (a ∷ s) (b ∷ t) (c ∷ u) h k = ground (arith, lt_trans s t u)

pub get-put_other :
    (name other : Text) (n : Node) (cs : Children)
    → compare_text name other ≢ eq
    → get name (put other n cs) ≡ get name cs
unfolding get put
get-put_other name other n empty h = ground arith
get-put_other name other n (child k m cs) h =
    ground (arith, get-put_other name other n cs, lt_trans name other k, compare_text-eq-eq other k)

IsAfter-put :
    (j name : Text) (n : Node) (cs : Children)
    → compare_text j name ≡ lt
    → IsAfter j cs
    → IsAfter j (put name n cs)
unfolding put
IsAfter-put j name n empty e h = e
IsAfter-put j name n (child k m cs) e h = by_order (compare_text name k)
  where
    by_order : (o : Ordering) → IsAfter j (put_by o name n k m cs (put name n cs))
    by_order lt = e
    by_order eq = e
    by_order gt = h

pub IsAfter-trans :
    (j k : Text) (cs : Children) → compare_text j k ≡ lt → IsAfter k cs → IsAfter j cs
IsAfter-trans j k empty e h = _
IsAfter-trans j k (child m n cs) e h = lt_trans j k m e h

pub AreSorted-put :
    (name : Text) (n : Node) (cs : Children) → IsSorted n → AreSorted cs → AreSorted (put name n cs)
unfolding put AreSorted
AreSorted-put name n empty h hs = (_, h, _)
AreSorted-put name n (child k m cs) h (after, hm, hs) =
    by_order (compare_text name k) refl (AreSorted-put name n cs h hs)
  where
    by_order :
        (o : Ordering)
        → compare_text name k ≡ o
        → AreSorted (put name n cs)
        → AreSorted (put_by o name n k m cs (put name n cs))
    by_order lt c rest = (c, h, (after, hm, hs))
    by_order eq c rest =
        (subst (λ t. IsAfter t cs) (sym (compare_text-eq-eq name k c)) after, h, hs)
    by_order gt c rest =
        (IsAfter-put k name n cs (flip-compare_text name k ∙ ap flip c) after, hm, rest)

IsAfter-remove :
    (j name : Text) (cs : Children) → IsAfter j cs → AreSorted cs → IsAfter j (remove name cs)
unfolding remove AreSorted
IsAfter-remove j name empty e hs = e
IsAfter-remove j name (child k m cs) e (after, hm, hs) = by_order (compare_text name k)
  where
    by_order : (o : Ordering) → IsAfter j (remove_by o k m cs (remove name cs))
    by_order lt = e
    by_order eq = IsAfter-trans j k cs e after
    by_order gt = e

pub AreSorted-remove : (name : Text) (cs : Children) → AreSorted cs → AreSorted (remove name cs)
unfolding remove AreSorted
AreSorted-remove name empty hs = _
AreSorted-remove name (child k m cs) (after, hm, hs) =
    by_order (compare_text name k) (AreSorted-remove name cs hs)
  where
    by_order :
        (o : Ordering)
        → AreSorted (remove name cs)
        → AreSorted (remove_by o k m cs (remove name cs))
    by_order lt rest = (after, hm, hs)
    by_order eq rest = hs
    by_order gt rest = (IsAfter-remove k name cs after hs, hm, rest)

pub get-remove : (name : Text) (cs : Children) → AreSorted cs → get name (remove name cs) ≡ none
unfolding get remove AreSorted
get-remove name empty hs = refl
get-remove name (child k m cs) (after, hm, hs) =
    by_order (compare_text name k) refl (get-remove name cs hs)
  where
    by_order :
        (o : Ordering)
        → compare_text name k ≡ o
        → get name (remove name cs) ≡ none
        → get name (remove_by o k m cs (remove name cs)) ≡ none
    by_order lt c rest = ap (λ o. get_by o m (get name cs)) c
    by_order eq c rest =
        get-after name cs (subst (λ t. IsAfter t cs) (sym (compare_text-eq-eq name k c)) after)
    by_order gt c rest = ap (λ o. get_by o m (get name (remove name cs))) c ∙ rest

pub get-IsSorted :
    (name : Text) (cs : Children) (n : Node) → AreSorted cs → get name cs ≡ some n → IsSorted n
unfolding get AreSorted
get-IsSorted name empty n hs e = cc
get-IsSorted name (child k m cs) n (after, hm, hs) e =
    by_order (compare_text name k) e (get-IsSorted name cs n hs)
  where
    by_order :
        (o : Ordering)
        → get_by o m (get name cs) ≡ some n
        → (get name cs ≡ some n → IsSorted n)
        → IsSorted n
    by_order lt d rest = cc
    by_order eq d rest = subst (λ x. IsSorted x) (some-injective m n d) hm
    by_order gt d rest = rest d
