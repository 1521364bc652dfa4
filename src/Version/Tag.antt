-- ===== src/Version/Tag.antt =====
-- TagVersion and LatestVersion of spec/version.go.
use sandbox_kit_spec.Base.{
  Bool, true, false, List, [], ◌∷◌, Text, codes, trim_prefix, if◌then◌else◌, is_gt, ◌||◌,
}
use sandbox_kit_spec.Version.Order.{is_version, compare_versions}

unfoldable pub tag_version : Text → Text
unfolding trim_prefix is_version
tag_version tag = let v = trim_prefix (codes "v") tag in if is_version v then v else []

-- bestTag and bestVersion
pub record Best : Type 0 where
  pub tag : Text
  pub version : Text

abbrev pub is_nil : Text → Bool
is_nil [] = true
is_nil (c ∷ s) = false

abbrev pub better : Best → Text → Text → Best
better best tag v =
    if is_nil v
    then best
    else if is_nil best.tag || is_gt (compare_versions v best.version)
    then record { tag = tag; version = v }
    else best

unfoldable pub best_of : Best → List Text → Best
unfolding tag_version compare_versions
best_of best [] = best
best_of best (tag ∷ tags) = best_of (better best tag (tag_version tag)) tags

abbrev pub no_best : Best
no_best = record { tag = []; version = [] }

unfoldable pub latest_version : List Text → Text
unfolding best_of
latest_version tags = (best_of no_best tags).tag
