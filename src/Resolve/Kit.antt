-- ===== src/Resolve/Kit.antt =====
-- The data of resolve/resolve.go: units, what a descriptor says of them, and providers.
use sandbox_kit_spec.Base.{ℕ, Bool, Option, List, Text, codes, text_eq}
use sandbox_kit_spec.Version.Constraint.{Provide}

-- spec.Credential, as far as the set's checks read it.
pub record Credential : Type 0 where
  pub service : Text
  pub phase : List Text

-- spec.Capability: whether it is a group, and what decoding its configuration as a credential
-- gives, if its type is the credential's: `none` where the configuration is malformed.
pub data Capability : Type 0 where
  group : Capability
  credential : Option Credential → Capability
  ordinary : Capability

pub record Descriptor : Type 0 where
  pub kind : Text
  pub version : Text
  pub provides : List Text
  pub requires : List Text
  pub integrates : List Text
  pub conflicts : List Text
  pub capabilities : List Capability

-- Unit. `address` is the pointer by which the code tells units apart.
pub record Kit : Type 0 where
  pub address : ℕ
  pub reference : Text
  pub digest : Text
  pub descriptor : Descriptor

-- A unit as the caller passes it: its descriptor may be nil.
pub record Consumed : Type 0 where
  pub address : ℕ
  pub reference : Text
  pub digest : Text
  pub descriptor : Option Descriptor

pub record Provider : Type 0 where
  pub kit : Kit
  pub provide : Provide

abbrev pub kind_workload : Text
kind_workload = codes "workload"

unfoldable pub is_workload : Kit → Bool
unfolding text_eq
is_workload u = text_eq u.descriptor.kind kind_workload
