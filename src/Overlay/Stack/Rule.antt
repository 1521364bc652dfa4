-- ===== src/Overlay/Stack/Rule.antt =====
-- internal/overlayfs/fs.go: the rule of an overlay file system, which looks a path up in the upper layer and
-- in what is below it.
use sandbox_kit_spec.Base.{
  ◌≡◌, refl, ℕ, Bool, true, false, ◌||◌, if◌then◌else◌, Option, none, some, List, [], ◌∷◌, Text,
}
use sandbox_kit_spec.Overlay.{DirMeta, Node, dir, file, symlink, whiteout, get}

-- What can be seen of a node without what is in it: of a directory its owner and mode, where the layers
-- know them, and whether it hides what is below it.
pub data Shown : Type 0 where
  a_directory : Option (ℕ × ℕ × ℕ) → Bool → Shown
  a_file : Shown
  a_symlink : Text → Shown
  a_whiteout : Shown

abbrev pub known : DirMeta → Option (ℕ × ℕ × ℕ)
known info = if info.explicit then some (info.uid, info.gid, info.mode) else none

abbrev pub shown : Option Node → Option Shown
shown none = none
shown (some (dir info cs)) = some (a_directory (known info) info.opaque)
shown (some file) = some a_file
shown (some (symlink link)) = some (a_symlink link)
shown (some whiteout) = some a_whiteout

-- What is in a node under a name.
abbrev pub inside : Text → Option Node → Option Node
inside seg (some (dir info cs)) = get seg cs
inside seg (some file) = none
inside seg (some (symlink link)) = none
inside seg (some whiteout) = none
inside seg none = none

-- The node at a path.
unfoldable pub find : List Text → Option Node → Option Node
unfolding get
find [] n = n
find (seg ∷ segs) n = find segs (inside seg n)

-- The rule: a path that the upper layer does not reach is looked up below, and one that it reaches shows
-- the upper node. A directory has the owner and mode that the upper layer knows, else those of a
-- directory below. It hides what is further below where it is opaque, or what it covers is no
-- directory or hides it. Inside a directory both layers are looked up, the lower one unless the upper
-- directory is opaque. Nothing is inside anything else.
abbrev pub known_below : Option Node → Option (ℕ × ℕ × ℕ)
known_below none = none
known_below (some (dir lower cs)) = known lower
known_below (some file) = none
known_below (some (symlink link)) = none
known_below (some whiteout) = none

abbrev pub hides : Option Node → Bool
hides none = false
hides (some (dir lower cs)) = lower.opaque
hides (some file) = true
hides (some (symlink link)) = true
hides (some whiteout) = true

abbrev pub or_below : Option (ℕ × ℕ × ℕ) → Option (ℕ × ℕ × ℕ) → Option (ℕ × ℕ × ℕ)
or_below (some mine) lower = some mine
or_below none lower = lower

abbrev pub within : Node → Text → Option Node → Option Node
within (dir info us) seg below = if info.opaque then none else inside seg below
within file seg below = none
within (symlink link) seg below = none
within whiteout seg below = none

abbrev pub on_top : Node → Option Node → Option Shown
on_top (dir info us) below =
    some (a_directory (or_below (known info) (known_below below)) (info.opaque || hides below))
on_top file below = some a_file
on_top (symlink link) below = some (a_symlink link)
on_top whiteout below = some a_whiteout

unfoldable pub overlay : List Text → Option Node → Option Node → Option Shown
unfolding find get
overlay segs none below = shown (find segs below)
overlay [] (some u) below = on_top u below
overlay (seg ∷ segs) (some u) below = overlay segs (inside seg (some u)) (within u seg below)

pub find-none : (segs : List Text) → find segs none ≡ none
unfolding find
find-none [] = refl
find-none (seg ∷ segs) = find-none segs
