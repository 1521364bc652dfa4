-- ===== src/Resolve/Tagged.antt =====
-- The version that an image reference carries: VersionFromReference of resolve/resolve.go.
use sandbox_kit_spec.Base.{
  ℕ, ◌≡◌, refl, ap, ◌∙◌, false, ◌||◌, none, [], ◌∷◌, ◌++◌, any, Text, codes, contains, cut_prefix,
  cut_last, ◌==◌,
}
use sandbox_kit_spec.Base.Cutting.{cut-append, cut_last-append}
use sandbox_kit_spec.Version.Tag.{tag_version}
use sandbox_kit_spec.Resolve.Reference.{tagged, tag_part, before_digest, version_from_reference}

any-contains : (c : ℕ) (s : Text) → any (λ d. d == c) s ≡ contains c s
unfolding contains
any-contains c [] = refl
any-contains c (d ∷ s) = ap (λ b. (d == c) || b) (any-contains c s)

tag_part-tag :
    (repository tag : Text)
    → contains b':' tag ≡ false
    → contains b'/' tag ≡ false
    → tag_part (cut_last (λ c. c == b':') (repository ++ b':' ∷ tag)) ≡ tag_version tag
tag_part-tag repository tag h k =
    ap tag_part
      (cut_last-append (λ c. c == b':') repository b':' tag refl (any-contains b':' tag ∙ h))
    ∙ rw k refl

-- A reference "repository:tag@digest" that is no git reference carries the version that its tag
-- reads as, whatever the digest and the ports and paths of the repository: for a repository and a
-- tag without "@", and a tag without ":" and "/".
pub version_from_reference-tag :
    (repository tag digest : Text)
    → contains b'@' (repository ++ b':' ∷ tag) ≡ false
    → contains b':' tag ≡ false
    → contains b'/' tag ≡ false
    → cut_prefix (codes "git+") ((repository ++ b':' ∷ tag) ++ b'@' ∷ digest) ≡ none
    → version_from_reference ((repository ++ b':' ∷ tag) ++ b'@' ∷ digest) ≡ tag_version tag
unfolding version_from_reference
version_from_reference-tag repository tag digest a h k g =
    let ref = (repository ++ b':' ∷ tag) ++ b'@' ∷ digest in
    ap (tagged ref) g
    ∙ ap (λ parts. tag_part (cut_last (λ c. c == b':') (before_digest ref parts)))
        (cut-append b'@' (repository ++ b':' ∷ tag) digest a)
    ∙ tag_part-tag repository tag h k
