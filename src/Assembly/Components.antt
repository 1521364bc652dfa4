-- ===== src/Assembly/Components.antt =====
-- fetch/assemble_inventory.go: pathComponents counts the components between the slashes.
use sandbox_kit_spec.Base.{
  ℕ, suc, ◌+◌, ◌≡◌, refl, ◌∙◌, Bool, true, false, not, List, [], ◌∷◌, length, filter, is_empty,
  Text, push_head, split, ◌==◌, if◌then◌else◌, arith,
}
use sandbox_kit_spec.Overlay.FilePath.{slash, components}
use sandbox_kit_spec.Assembly.{components_from, path_components}

abbrev filled_count : List Text → ℕ
filled_count segs = length (filter (λ seg. not (is_empty seg)) segs)

-- Whether the first component is one, and not the nothing before a slash.
abbrev begun : List Text → ℕ
begun [] = 0
begun ([] ∷ segs) = 0
begun ((c ∷ seg) ∷ segs) = 1

filled_count-push_head :
    (c : ℕ) (segs : List Text)
    → filled_count (push_head c segs) + begun segs ≡ suc (filled_count segs)
unfolding filter
filled_count-push_head c [] = omega arith
filled_count-push_head c ([] ∷ segs) = omega arith
filled_count-push_head c ((d ∷ seg) ∷ segs) = omega arith

begun-push_head : (c : ℕ) (segs : List Text) → begun (push_head c segs) ≡ 1
begun-push_head c [] = refl
begun-push_head c (seg ∷ segs) = refl

components_from-filled_count :
    (s : Text) (count : ℕ)
    → (components_from s count false ≡ count + filled_count (split slash s))
      × (components_from s count true + begun (split slash s)
          ≡ count + filled_count (split slash s))
unfolding components_from split filter
components_from-filled_count [] count = (omega arith, omega arith)
components_from-filled_count (c ∷ s) count =
    by_slash (c == slash) (components_from-filled_count s count)
      (components_from-filled_count s (suc count))
  where
    by_slash :
        (b : Bool)
        → (components_from s count false ≡ count + filled_count (split slash s))
          × (components_from s count true + begun (split slash s)
              ≡ count + filled_count (split slash s))
        → (components_from s (suc count) false ≡ suc count + filled_count (split slash s))
          × (components_from s (suc count) true + begun (split slash s)
              ≡ suc count + filled_count (split slash s))
        → ((if b then components_from s count false else components_from s (suc count) true)
            ≡ count + filled_count (if b then [] ∷ split slash s else push_head c (split slash s)))
          × ((if b then components_from s count false else components_from s count true)
                + begun (if b then [] ∷ split slash s else push_head c (split slash s))
              ≡ count
                + filled_count (if b then [] ∷ split slash s else push_head c (split slash s)))
    by_slash true (apart, within) more = (apart, omega arith)
    by_slash false (apart, within) (later, more) =
        let grown = filled_count-push_head c (split slash s) in
        (omega arith, omega (arith, begun-push_head c (split slash s)))

-- The components that a path is charged for are those that its directories and its name are made of.
pub path_components-components : (name : Text) → path_components name ≡ length (components name)
unfolding path_components components
path_components-components name = (components_from-filled_count name 0).0 ∙ omega arith
