-- ===== src/Lock.antt =====
-- resolve/lock.go: the record of a resolution, its verification and its gate. A unit's image and argument
-- values, which nothing here reads, and the surface that its descriptor grants are parameters; so is
-- the JSON decoding. A lock's permissions by reference are a list, the last kit first.
pub mod Recreated
pub mod Gated
mod Tests
use sandbox_kit_spec.Base.{
  ℕ, zero, suc, Bool, true, false, Option, none, some, List, [], ◌∷◌, ◌++◌, length, Text, text_eq,
  ◌==◌, if◌then◌else◌, Result, ok, err, ◌>>=◌,
}
use sandbox_kit_spec.Resolve.Kit.{Kit, Descriptor}
use sandbox_kit_spec.Resolve.Run.{Resolution, composed}
use sandbox_kit_spec.Surface.{Surface, Widening}
use sandbox_kit_spec.Surface.Diff.{diff_widenings}

-- LockVersion
abbrev pub lock_version : ℕ
lock_version = 1

pub record LockedKit : Type 0 where
  pub reference : Text
  pub digest : Text
  pub image : Text
  pub kind : Text
  pub args : List (Text × Text)
  pub permissions : Surface

pub record Lock : Type 0 where
  pub version : ℕ
  pub kits : List LockedKit

-- What the record takes from a unit without reading it.
pub record Recorder : Type 0 where
  pub image : Kit → Text
  pub args : Kit → List (Text × Text)
  pub surface_of : Descriptor → Surface

abbrev pub locked : Recorder → Kit → LockedKit
locked rec u = record {
  reference = u.reference;
  digest = u.digest;
  image = rec.image u;
  kind = u.descriptor.kind;
  args = rec.args u;
  permissions = rec.surface_of u.descriptor;
}

unfoldable pub locked_kits : Recorder → List Kit → List LockedKit
locked_kits rec [] = []
locked_kits rec (u ∷ us) = locked rec u ∷ locked_kits rec us

-- LockFrom
unfoldable pub lock_from : Recorder → Resolution → Lock
unfolding locked_kits composed
lock_from rec r = record { version = lock_version; kits = locked_kits rec (composed r) }

-- What ParseLock and VerifyRecreate fail with.
pub data LockError : Type 0 where
  not_json : Text → LockError
  unsupported_version : ℕ → LockError
  other_length : ℕ → ℕ → LockError
  other_reference : ℕ → Text → Text → LockError
  other_digest : Text → Text → Text → LockError

-- ParseLock, with what decoding gives
unfoldable pub parse_lock : (Text → Result Text Lock) → Text → Result LockError Lock
parse_lock decode bytes = elim (decode bytes) [
  | err e ↦ err (not_json e)
  | ok l ↦ if l.version == lock_version then ok l else err (unsupported_version l.version)
]

-- The surface of a kit that grants nothing.
abbrev pub no_surface : Surface
no_surface = record {
  network_install_allow = [];
  network_install_deny = [];
  network_runtime_allow = [];
  network_runtime_deny = [];
  network_install_http_allow = [];
  network_install_http_deny = [];
  network_runtime_http_allow = [];
  network_runtime_http_deny = [];
  credentials_install = [];
  credentials_runtime = [];
  ssh_agent = [];
  storage_paths = [];
  skills_paths = [];
  skills_write_paths = [];
  ports = [];
  usb = [];
  privileged = false;
  services = [];
}

-- granted: the loop over the locked kits, and the map at a reference
unfoldable pub granted_from : List LockedKit → Text → Surface → Surface
unfolding text_eq
granted_from [] reference s = s
granted_from (k ∷ ks) reference s =
    granted_from ks reference (if text_eq reference k.reference then k.permissions else s)

unfoldable pub granted : Lock → Text → Surface
unfolding granted_from
granted l reference = granted_from l.kits reference no_surface

unfoldable pub gate_kits : Recorder → Lock → List Kit → List Widening
unfolding granted diff_widenings
gate_kits rec l [] = []
gate_kits rec l (u ∷ us) =
    diff_widenings (granted l u.reference) (rec.surface_of u.descriptor) ++ gate_kits rec l us

-- Gate
unfoldable pub gate : Recorder → Lock → Resolution → List Widening
unfolding gate_kits composed
gate rec l r = gate_kits rec l (composed r)

-- The loop of VerifyRecreate. The lists are of one length there.
unfoldable pub verify_from : ℕ → List Kit → List LockedKit → Option LockError
unfolding text_eq
verify_from i (u ∷ us) (k ∷ ks) =
    let later = verify_from (suc i) us ks in
    if text_eq k.reference u.reference
    then (if text_eq k.digest u.digest
        then later
        else some (other_digest u.reference u.digest k.digest))
    else some (other_reference i k.reference u.reference)
verify_from i [] ks = none
verify_from i (u ∷ us) [] = none

-- VerifyRecreate
unfoldable pub verify_recreate : Lock → Resolution → Option LockError
unfolding verify_from composed
verify_recreate l r =
    if length (composed r) == length l.kits
    then verify_from 0 (composed r) l.kits
    else some (other_length (length l.kits) (length (composed r)))
