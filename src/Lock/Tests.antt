-- ===== src/Lock/Tests.antt =====
-- The theorems on resolve/lock.go at a concrete set, and runs of its functions.
use sandbox_kit_spec.Base.{◌≡◌, ◌↔◌, refl, false, some, none, [], ◌∷◌, Text, codes, is_empty, all}
use sandbox_kit_spec.Resolve.Kit.{Kit}
use sandbox_kit_spec.Resolve.Run.{Resolution, composed}
use sandbox_kit_spec.Surface.{Surface}
use sandbox_kit_spec.Lock.{
  Recorder, Lock, lock_from, locked, lock_version, no_surface, verify_recreate, gate, other_digest,
}
use sandbox_kit_spec.Lock.Recreated.{pins, locked_pins, verify_recreate-pins}
use sandbox_kit_spec.Lock.Gated.{is_kit_granted, gate-is_kit_granted}

abbrev recorder : Recorder
recorder = record { image = λ u. u.reference; args = λ u. []; surface_of = λ d. no_surface }

abbrev unit : Text → Text → Kit
unit reference digest = record {
  address = 1;
  reference = reference;
  digest = digest;
  descriptor = record {
    kind = codes "workload";
    version = [];
    provides = [];
    requires = [];
    integrates = [];
    conflicts = [];
    capabilities = [];
  };
}

abbrev resolved : Text → Resolution
resolved digest = record {
  workload = some (unit (codes "kits/base:1") digest);
  mixins = [];
  topological = unit (codes "kits/base:1") digest ∷ [];
}

abbrev lock : Lock
lock = record {
  version = lock_version;
  kits = locked recorder (unit (codes "kits/base:1") (codes "sha256:1")) ∷ [];
}

recorded_set : lock_from recorder (resolved (codes "sha256:1")) ≡ lock
unfolding lock_from
recorded_set = refl

moved :
    verify_recreate lock (resolved (codes "sha256:2"))
    ≡ some (other_digest (codes "kits/base:1") (codes "sha256:2") (codes "sha256:1"))
unfolding verify_recreate
moved = refl

verify_recreate-pins_example :
    (verify_recreate lock (resolved (codes "sha256:2")) ≡ none)
    ↔ (pins (composed (resolved (codes "sha256:2"))) ≡ locked_pins lock.kits)
verify_recreate-pins_example = verify_recreate-pins lock (resolved (codes "sha256:2"))

-- The base asks for storage, which its own record grants and that of the tools does not.
abbrev stores : Surface
stores = record {
  network_install_allow = [];
  network_install_deny = [];
  network_runtime_allow = [];
  network_runtime_deny = [];
  network_install_http_allow = [];
  network_install_http_deny = [];
  network_runtime_http_allow = [];
  network_runtime_http_deny = [];
  credentials_install = [];
  credentials_runtime = [];
  ssh_agent = [];
  storage_paths = codes "/data" ∷ [];
  skills_paths = [];
  skills_write_paths = [];
  ports = [];
  usb = [];
  privileged = false;
  services = [];
}

abbrev storing : Recorder
storing = record { image = λ u. u.reference; args = λ u. []; surface_of = λ d. stores }

abbrev granting : Lock
granting = record {
  version = lock_version;
  kits =
      locked storing (unit (codes "kits/base:1") (codes "sha256:1"))
      ∷ locked recorder (unit (codes "kits/tools:1") (codes "sha256:3"))
      ∷ [];
}

grants_storage : gate storing granting (resolved (codes "sha256:2")) ≡ []
unfolding gate
grants_storage = refl

asks_for_storage : is_empty (gate storing lock (resolved (codes "sha256:2"))) ≡ false
unfolding gate
asks_for_storage = refl

gate-is_kit_granted_example :
    is_empty (gate storing granting (resolved (codes "sha256:2")))
    ≡ all (is_kit_granted storing granting) (composed (resolved (codes "sha256:2")))
gate-is_kit_granted_example = gate-is_kit_granted storing granting (resolved (codes "sha256:2"))
