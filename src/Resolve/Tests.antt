-- ===== src/Resolve/Tests.antt =====
-- The theorems on resolve/resolve.go at concrete sets, and runs of its functions.
use sandbox_kit_spec.Version.Tag.{tag_version}
use sandbox_kit_spec.Resolve.Tagged.{version_from_reference-tag}
use sandbox_kit_spec.Base.{
  ◌++◌, contains, cut_prefix, ℕ, ◌≡◌, refl, true, false, some, List, [], ◌∷◌, is_empty, Text, codes,
  ok, err,
}
use sandbox_kit_spec.Resolve.Kit.{Kit, Descriptor}
use sandbox_kit_spec.Resolve.Reference.{version_from_reference}
use sandbox_kit_spec.Resolve.Order.{has, cycle}
use sandbox_kit_spec.Resolve.Run.{ResolveError, unordered, Resolution, set_problems, resolve_units}
use sandbox_kit_spec.Resolve.Coherent.{coherent, set_problems-coherent}
use sandbox_kit_spec.Resolve.Sound.{
  IsResolved, resolve_units-IsResolved, IsRefused, resolve_units-IsRefused,
}
use sandbox_kit_spec.Resolve.Layers.{IsLayered, resolve_units-IsLayered}

abbrev descriptor : Text → List Text → List Text → Descriptor
descriptor kind provides requires = record {
  kind = kind;
  version = [];
  provides = provides;
  requires = requires;
  integrates = [];
  conflicts = [];
  capabilities = [];
}

abbrev unit : ℕ → Text → Descriptor → Kit
unit address reference d = record {
  address = address;
  reference = reference;
  digest = [];
  descriptor = d;
}

-- A workload that requires a mixin, which requires another one.
abbrev base : Kit
base =
    unit 1 (codes "kits/base:2.0")
      (descriptor (codes "workload") (codes "base" ∷ []) (codes "tools >= 1.0" ∷ []))

abbrev tools : Kit
tools =
    unit 2 (codes "kits/tools:1.2")
      (descriptor (codes "mixin") (codes "tools" ∷ []) (codes "lib" ∷ []))

abbrev lib : Kit
lib = unit 3 (codes "kits/lib:3") (descriptor (codes "mixin") (codes "lib" ∷ []) [])

abbrev set : List Kit
set = base ∷ tools ∷ lib ∷ []

abbrev resolution : Resolution
resolution = record {
  workload = some base;
  mixins = lib ∷ tools ∷ [];
  topological = lib ∷ tools ∷ base ∷ [];
}

set_resolves : resolve_units false true set ≡ ok resolution
unfolding resolve_units
set_resolves = refl

-- Two mixins that require each other.
abbrev left : Kit
left =
    unit 4 (codes "kits/left:1")
      (descriptor (codes "mixin") (codes "left" ∷ []) (codes "right" ∷ []))

abbrev right : Kit
right =
    unit 5 (codes "kits/right:1")
      (descriptor (codes "mixin") (codes "right" ∷ []) (codes "left" ∷ []))

abbrev looped : List Kit
looped = right ∷ left ∷ []

abbrev loop_error : ResolveError
loop_error = unordered (cycle (codes "kits/left:1" ∷ codes "kits/right:1" ∷ []))

looped_fails : resolve_units true true looped ≡ err loop_error
unfolding resolve_units
looped_fails = refl

tag_counts : version_from_reference (codes "reg.io:80/kits/hello:v1.0.3@sha256:00") ≡ codes "1.0.3"
unfolding version_from_reference
tag_counts = refl

git_counts :
    version_from_reference (codes "git+https://host/kit.git#dir=a&ref=v2.1.0") ≡ codes "2.1.0"
unfolding version_from_reference
git_counts = refl

set_problems-coherent_example : is_empty (set_problems false true set) ≡ coherent false true set
set_problems-coherent_example = set_problems-coherent false true set

resolve_units-IsResolved_example : IsResolved false true set resolution
unfolding has
resolve_units-IsResolved_example =
    resolve_units-IsResolved false true set resolution refl set_resolves

resolve_units-IsLayered_example : (w : Kit) × IsLayered set resolution w
unfolding has
resolve_units-IsLayered_example = resolve_units-IsLayered true set resolution refl set_resolves

resolve_units-IsRefused_example : IsRefused true true looped loop_error
unfolding has
resolve_units-IsRefused_example =
    resolve_units-IsRefused true true looped loop_error refl looped_fails

version_from_reference-tag_example :
    version_from_reference
      ((codes "reg.io:80/kits/hello" ++ b':' ∷ codes "v1.0.3") ++ b'@' ∷ codes "sha256:00")
    ≡ tag_version (codes "v1.0.3")
unfolding contains cut_prefix
version_from_reference-tag_example =
    version_from_reference-tag (codes "reg.io:80/kits/hello") (codes "v1.0.3") (codes "sha256:00")
      refl refl refl refl
