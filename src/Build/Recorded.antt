-- ===== src/Build/Recorded.antt =====
-- What internal/version/version.go reads of the settings of a build.
use sandbox_kit_spec.Base.{
  ◌≡◌, refl, sym, ap, ◌∙◌, true, false, List, [], ◌∷◌, ◌++◌, Text, codes, text_eq, text_eq_iff,
  if◌then◌else◌, Bool-cases, inl, inr, contains, some,
}
use sandbox_kit_spec.Base.Cutting.{cut-append, cut-none}
use sandbox_kit_spec.Build.{
  Setting, BuildInfo, read_settings, revision_key, modified_key, mark_dirty, recorded, release_tag,
  abbreviate_parts, abbreviate,
}

-- The last value under a key, or what there was.
unfoldable pub last_value : Text → Text → List Setting → Text
unfolding text_eq
last_value key default [] = default
last_value key default (s ∷ ss) = last_value key (if text_eq s.key key then s.value else default) ss

not_modified_key : (key : Text) → text_eq key revision_key ≡ true → text_eq key modified_key ≡ false
unfolding text_eq
not_modified_key key h = ap (λ k. text_eq k modified_key) ((text_eq_iff key revision_key).0 h)

read_settings-last :
    (revision modified : Text) (ss : List Setting)
    → read_settings (record { revision = revision; modified = text_eq modified (codes "true") }) ss
      ≡ record {
        revision = last_value revision_key revision ss;
        modified = text_eq (last_value modified_key modified ss) (codes "true");
      }
unfolding read_settings last_value
read_settings-last revision modified [] = refl
read_settings-last revision modified (s ∷ ss) = elim (Bool-cases (text_eq s.key revision_key)) [
  | inl e ↦ rw (e, not_modified_key s.key e) (read_settings-last s.value modified ss)
  | inr e ↦ elim (Bool-cases (text_eq s.key modified_key)) [
    | inl f ↦ rw (e, f) (read_settings-last revision s.value ss)
    | inr f ↦ rw (e, f) (read_settings-last revision modified ss)
  ]
]

-- The record of a build with settings: the release that the module's version names, and the last
-- value of "vcs.revision" in the settings, marked as dirty if it is not empty and the last value of
-- "vcs.modified" is "true". The order of the two keys does not matter.
pub recorded-last :
    (info : BuildInfo)
    → recorded (some info) ≡ record {
      version = release_tag info.main_version;
      revision = mark_dirty (record {
        revision = last_value revision_key [] info.settings;
        modified = text_eq (last_value modified_key [] info.settings) (codes "true");
      });
    }
unfolding recorded text_eq
recorded-last info =
    ap (λ seen. record { version = release_tag info.main_version; revision = mark_dirty seen })
      (read_settings-last [] [] info.settings)

-- Shortening keeps the mark of a dirty build, or any other suffix behind a dash, whole: for a
-- commit without a dash.
pub abbreviate-append :
    (sha suffix : Text)
    → contains b'-' sha ≡ false
    → abbreviate (sha ++ b'-' ∷ suffix) ≡ abbreviate sha ++ b'-' ∷ suffix
unfolding abbreviate
abbreviate-append sha suffix h =
    ap (abbreviate_parts (sha ++ b'-' ∷ suffix)) (cut-append b'-' sha suffix h)
    ∙ ap (λ t. t ++ b'-' ∷ suffix) (sym (ap (abbreviate_parts sha) (cut-none b'-' sha h)))
