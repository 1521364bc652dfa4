-- ===== src/Packages/Tests.antt =====
-- The theorems on spec/packages.go at concrete listings, and runs of its functions.
use sandbox_kit_spec.Base.{◌≡◌, refl, true, List, [], ◌∷◌, length, codes}
use sandbox_kit_spec.Version.Name.{valid_capability_name}
use sandbox_kit_spec.Packages.{Package, read_listings, no_tally, published, derived_provides}
use sandbox_kit_spec.Packages.Unanimous.{is_at, is_unanimous, published-is_unanimous}

abbrev curl : Package
curl = record { name = codes "curl"; version = codes "7.88.1-10+deb12u5" }

abbrev old_curl : Package
old_curl = record { name = codes "curl"; version = codes "7.74.0-1" }

abbrev jq : Package
jq = record { name = codes "jq"; version = codes "1.6-2.1" }

-- Two platforms that agree on jq alone, which one of them lists twice.
abbrev platforms : List (List Package)
platforms = (curl ∷ jq ∷ jq ∷ []) ∷ (jq ∷ old_curl ∷ []) ∷ []

jq_alone : derived_provides (codes "deb") platforms ≡ codes "deb/jq@1.6" ∷ []
unfolding derived_provides
jq_alone = refl

published-is_unanimous_example :
    is_at (codes "1.6") (
      published
        (length platforms)
        (read_listings true (codes "deb") platforms no_tally)
        (codes "deb/jq"))
    ≡ is_unanimous (codes "deb") (codes "deb/jq") (codes "1.6") platforms
unfolding valid_capability_name
published-is_unanimous_example =
    published-is_unanimous (codes "deb") (codes "deb/jq") (codes "1.6") platforms refl refl
