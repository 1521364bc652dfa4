-- ===== src/Build/Tests.antt =====
-- The theorems on internal/version/version.go at concrete builds, and runs of its functions.
use sandbox_kit_spec.Base.{◌≡◌, ◌↔◌, refl, true, some, [], ◌∷◌, codes}
use sandbox_kit_spec.Build.{
  BuildInfo, revision_key, modified_key, is_pseudo_version, release_tag, recorded, display,
}
use sandbox_kit_spec.Build.Pseudo.{IsPseudo, is_pseudo_version-IsPseudo}

abbrev edited : BuildInfo
edited = record {
  main_version = codes "v0.0.0-20260101120000-2f9a1c4e0b7d";
  settings =
      record { key = modified_key; value = codes "true" }
      ∷ record { key = revision_key; value = codes "2f9a1c4e0b7d" }
      ∷ [];
}

edited_is_dirty :
    recorded (some edited) ≡ record { version = []; revision = codes "2f9a1c4e0b7d-dirty" }
unfolding recorded
edited_is_dirty = refl

release_is_kept : release_tag (codes "v3.0.0-m.5") ≡ codes "3.0.0-m.5"
unfolding release_tag
release_is_kept = refl

shown : display (codes "dev") (codes "2f9a1c4e0b7d-dirty") ≡ codes "dev (2f9a1c4e-dirty)"
unfolding display
shown = refl

is_pseudo_version-IsPseudo_example :
    (is_pseudo_version (codes "1.2.4-0.20260101120000-2f9a1c4e0b7d") ≡ true)
    ↔ IsPseudo (codes "1.2.4-0.20260101120000-2f9a1c4e0b7d")
is_pseudo_version-IsPseudo_example =
    is_pseudo_version-IsPseudo (codes "1.2.4-0.20260101120000-2f9a1c4e0b7d")
