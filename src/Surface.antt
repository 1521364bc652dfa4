-- ===== src/Surface.antt =====
-- spec/surface.go: the permission surface of a kit, and how far one surface exceeds another.
pub mod Http
pub mod SshAgent
pub mod Diff
pub mod Tests
use sandbox_kit_spec.Base.{
  ℕ, Bool, true, false, not, List, [], ◌∷◌, Text, Option, none, some, has_text, unique, sort_texts,
  cut, filter,
}

pub record Surface : Type 0 where
  pub network_install_allow : List Text
  pub network_install_deny : List Text
  pub network_runtime_allow : List Text
  pub network_runtime_deny : List Text
  pub network_install_http_allow : List Text
  pub network_install_http_deny : List Text
  pub network_runtime_http_allow : List Text
  pub network_runtime_http_deny : List Text
  pub credentials_install : List Text
  pub credentials_runtime : List Text
  pub ssh_agent : List Text
  pub storage_paths : List Text
  pub skills_paths : List Text
  pub skills_write_paths : List Text
  pub ports : List Text
  pub usb : List Text
  pub privileged : Bool
  pub services : List Text

pub record Widening : Type 0 where
  pub category : Text
  pub detail : Text

-- missingFrom
unfoldable pub missing_from : List Text → List Text → List Text
unfolding filter has_text
missing_from granted candidate = filter (λ c. not (has_text granted c)) candidate

unfoldable pub normalized : List Text → List Text
unfolding unique sort_texts
normalized texts = sort_texts (unique [] texts)

-- The three results of strings.Cut.
abbrev pub before_cut : ℕ → Text → Text
before_cut sep s = elim (cut sep s) [ none ↦ s | some (before, after) ↦ before ]

abbrev pub after_cut : ℕ → Text → Text
after_cut sep s = elim (cut sep s) [ none ↦ [] | some (before, after) ↦ after ]

abbrev pub is_cut : ℕ → Text → Bool
is_cut sep s = elim (cut sep s) [ none ↦ false | some parts ↦ true ]

-- stripPort of spec/validate.go
unfoldable pub strip_port : Text → Text
unfolding cut
strip_port domain = before_cut b':' domain
