-- ===== src/Image/PathMerged.antt =====
-- assemble/assemble.go and cmd/frontend/diff.go: the path elements that the frontend records of a mixin are those
-- that the assembly appends.
use sandbox_kit_spec.Base.{
  ℕ, ◌≡◌, refl, ap, ◌∙◌, Bool, true, false, not, ◌&&◌, ◌||◌, List, [], ◌∷◌, ◌++◌, append_assoc, All,
  is_empty, Text, codes, contains, has_text, split, join, if◌then◌else◌,
}
use sandbox_kit_spec.Base.Splitting.{split-no_sep, split-join}
use sandbox_kit_spec.Image.Entries.{with_element, merge_elements, merged_path}
use sandbox_kit_spec.Image.Delta.{elements_not_in, path_elements_not_in}

abbrev pub joined_path : List Text → Text
joined_path es = join (codes ":") es

joined_path-with_element :
    (c : ℕ) (merged e : Text) (es : List Text)
    → joined_path (with_element (c ∷ merged) e ∷ es) ≡ joined_path ((c ∷ merged) ∷ e ∷ es)
unfolding join
joined_path-with_element c merged e [] = refl
joined_path-with_element c merged e (f ∷ es) =
    append_assoc (c ∷ merged) (b':' ∷ e) (b':' ∷ joined_path (f ∷ es))

merge_elements-joined_path :
    (have : List Text) (c : ℕ) (merged : Text) (es : List Text)
    → merge_elements have (c ∷ merged) es ≡ joined_path ((c ∷ merged) ∷ elements_not_in have es)
unfolding merge_elements elements_not_in join
merge_elements-joined_path have c merged [] = refl
merge_elements-joined_path have c merged (e ∷ es) =
    by_tests (is_empty e) (has_text have e) (merge_elements-joined_path have c merged es)
      (merge_elements-joined_path (e ∷ have) c (merged ++ (codes ":" ++ e)) es)
  where
    by_tests :
        (blank there : Bool)
        → merge_elements have (c ∷ merged) es ≡ joined_path ((c ∷ merged) ∷ elements_not_in have es)
        → merge_elements (e ∷ have) (with_element (c ∷ merged) e) es
          ≡ joined_path (with_element (c ∷ merged) e ∷ elements_not_in (e ∷ have) es)
        → (if blank || there
            then merge_elements have (c ∷ merged) es
            else merge_elements (e ∷ have) (with_element (c ∷ merged) e) es)
          ≡ joined_path (
              (c ∷ merged)
              ∷ (if not blank && not there
                  then e ∷ elements_not_in (e ∷ have) es
                  else elements_not_in have es))
    by_tests true there skipped added = skipped
    by_tests false true skipped added = skipped
    by_tests false false skipped added =
        added ∙ joined_path-with_element c merged e (elements_not_in (e ∷ have) es)

-- The path that is there, if any, and then the new elements.
abbrev pub extended : Text → List Text → Text
extended [] es = joined_path es
extended (c ∷ current) es = joined_path ((c ∷ current) ∷ es)

merge_elements-extended :
    (have : List Text) (es : List Text)
    → merge_elements have [] es ≡ joined_path (elements_not_in have es)
unfolding merge_elements elements_not_in join
merge_elements-extended have [] = refl
merge_elements-extended have ([] ∷ es) = merge_elements-extended have es
merge_elements-extended have ((c ∷ e) ∷ es) =
    by_test (has_text have (c ∷ e)) (merge_elements-extended have es)
  where
    by_test :
        (there : Bool)
        → merge_elements have [] es ≡ joined_path (elements_not_in have es)
        → (if there then merge_elements have [] es else merge_elements ((c ∷ e) ∷ have) (c ∷ e) es)
          ≡ joined_path (
              if not there
              then (c ∷ e) ∷ elements_not_in ((c ∷ e) ∷ have) es
              else elements_not_in have es)
    by_test true skipped = skipped
    by_test false skipped = merge_elements-joined_path ((c ∷ e) ∷ have) c e es

merged_path-extended :
    (current addition : Text)
    → merged_path current addition ≡ extended current (path_elements_not_in addition current)
unfolding merged_path path_elements_not_in
merged_path-extended [] addition = merge_elements-extended (split b':' []) (split b':' addition)
merged_path-extended (c ∷ current) addition =
    merge_elements-joined_path (split b':' (c ∷ current)) c current (split b':' addition)

elements_not_in_twice :
    (have es : List Text) → elements_not_in have (elements_not_in have es) ≡ elements_not_in have es
unfolding elements_not_in
elements_not_in_twice have [] = refl
elements_not_in_twice have (e ∷ es) =
    by_test (not (is_empty e) && not (has_text have e)) refl (elements_not_in_twice have es)
      (elements_not_in_twice (e ∷ have) es)
  where
    by_test :
        (b : Bool)
        → (not (is_empty e) && not (has_text have e)) ≡ b
        → elements_not_in have (elements_not_in have es) ≡ elements_not_in have es
        → elements_not_in (e ∷ have) (elements_not_in (e ∷ have) es) ≡ elements_not_in (e ∷ have) es
        → elements_not_in have
            (if b then e ∷ elements_not_in (e ∷ have) es else elements_not_in have es)
          ≡ (if b then e ∷ elements_not_in (e ∷ have) es else elements_not_in have es)
    by_test true h skipped added =
        ap
          (λ c.
            if c
            then e ∷ elements_not_in (e ∷ have) (elements_not_in (e ∷ have) es)
            else elements_not_in have (elements_not_in (e ∷ have) es))
          h
        ∙ ap (λ rest. e ∷ rest) added
    by_test false h skipped added = skipped

-- No element has a colon.
abbrev HasNoColon : Text → Type 0
HasNoColon t = contains b':' t ≡ false

elements_not_in-HasNoColon :
    (have es : List Text) → All HasNoColon es → All HasNoColon (elements_not_in have es)
unfolding elements_not_in
elements_not_in-HasNoColon have [] h = _
elements_not_in-HasNoColon have (e ∷ es) (k, h) =
    by_test (not (is_empty e) && not (has_text have e)) (elements_not_in-HasNoColon have es h)
      (elements_not_in-HasNoColon (e ∷ have) es h)
  where
    by_test :
        (b : Bool)
        → All HasNoColon (elements_not_in have es)
        → All HasNoColon (elements_not_in (e ∷ have) es)
        → All HasNoColon (if b then e ∷ elements_not_in (e ∷ have) es else elements_not_in have es)
    by_test true skipped added = (k, added)
    by_test false skipped added = skipped

-- Splitting a path of elements gives them again, or the nothing that no elements are.
path_elements-joined_path :
    (have es : List Text)
    → All HasNoColon es
    → elements_not_in have (split b':' (joined_path es)) ≡ elements_not_in have es
unfolding elements_not_in join split
path_elements-joined_path have [] h = refl
path_elements-joined_path have (e ∷ es) h =
    ap (λ segs. elements_not_in have segs) (split-join b':' (e ∷ es) (λ k. cc) h)

-- Merging what a mixin's recipe added to its base's path into that path gives the base's path with the
-- added elements after it.
pub merged_path-path_elements_not_in :
    (lower upper : Text)
    → merged_path lower (joined_path (path_elements_not_in upper lower))
      ≡ extended lower (path_elements_not_in upper lower)
unfolding path_elements_not_in
merged_path-path_elements_not_in lower upper =
    merged_path-extended lower (joined_path (path_elements_not_in upper lower))
    ∙ ap (λ es. extended lower es)
        (path_elements-joined_path (split b':' lower)
            (elements_not_in (split b':' lower) (split b':' upper))
            (elements_not_in-HasNoColon (split b':' lower) (split b':' upper)
              (split-no_sep b':' upper))
          ∙ elements_not_in_twice (split b':' lower) (split b':' upper))
