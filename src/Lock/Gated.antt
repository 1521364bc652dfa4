-- ===== src/Lock/Gated.antt =====
-- resolve/lock.go: Gate finds every unit whose surface is not within what the lock grants it.
use sandbox_kit_spec.Base.{
  ◌≡◌, refl, ap, ap₂, ◌∙◌, Bool, true, false, not, ◌&&◌, Option, none, some, List, [], ◌∷◌, ◌++◌,
  all, All, is_empty, is_empty-append, Text, text_eq, text_eq_iff, if◌then◌else◌, arith,
}
use sandbox_kit_spec.Resolve.Kit.{Kit}
use sandbox_kit_spec.Resolve.Run.{Resolution, composed}
use sandbox_kit_spec.Surface.{Surface}
use sandbox_kit_spec.Surface.Diff.{diff_widenings}
use sandbox_kit_spec.Surface.Diff.Within.{within, diff_widenings-within}
use sandbox_kit_spec.Surface.Diff.Unchanged.{diff_widenings_self}
use sandbox_kit_spec.Lock.{
  Recorder, LockedKit, Lock, locked, locked_kits, lock_from, no_surface, granted_from, granted,
  gate_kits, gate,
}

-- The last record of a reference in a lock, and a surface on which nothing is.
abbrev later_or : Option Surface → Bool → Surface → Option Surface
later_or (some s) same own = some s
later_or none true own = some own
later_or none false own = none

unfoldable pub last_recorded : Text → List LockedKit → Option Surface
unfolding text_eq
last_recorded reference [] = none
last_recorded reference (k ∷ ks) =
    later_or (last_recorded reference ks) (text_eq reference k.reference) k.permissions

abbrev nothing : Surface
nothing = record {
  network_install_allow = [];
  network_install_deny = [];
  network_runtime_allow = [];
  network_runtime_deny = [];
  network_install_http_allow = [];
  network_install_http_deny = [];
  network_runtime_http_allow = [];
  network_runtime_http_deny = [];
  credentials_install = [];
  credentials_runtime = [];
  ssh_agent = [];
  storage_paths = [];
  skills_paths = [];
  skills_write_paths = [];
  ports = [];
  usb = [];
  privileged = false;
  services = [];
}

abbrev is_within : Option Surface → Surface → Bool
is_within (some recorded) asked = within recorded asked
is_within none asked = within nothing asked

abbrev pub is_kit_granted : Recorder → Lock → Kit → Bool
is_kit_granted rec l u = is_within (last_recorded u.reference l.kits) (rec.surface_of u.descriptor)

abbrev or_surface : Option Surface → Surface → Surface
or_surface (some recorded) s = recorded
or_surface none s = s

granted_from-last_recorded :
    (ks : List LockedKit) (reference : Text) (s : Surface)
    → granted_from ks reference s ≡ or_surface (last_recorded reference ks) s
unfolding granted_from last_recorded
granted_from-last_recorded [] reference s = refl
granted_from-last_recorded (k ∷ ks) reference s =
    granted_from-last_recorded ks reference
      (if text_eq reference k.reference then k.permissions else s)
    ∙ by_record (last_recorded reference ks) (text_eq reference k.reference)
  where
    by_record :
        (recorded : Option Surface) (b : Bool)
        → or_surface recorded (if b then k.permissions else s)
          ≡ or_surface (later_or recorded b k.permissions) s
    by_record (some recorded) b = refl
    by_record none true = refl
    by_record none false = refl

granted-is_within :
    (l : Lock) (reference : Text) (asked : Surface)
    → within (granted l reference) asked ≡ is_within (last_recorded reference l.kits) asked
unfolding granted
granted-is_within l reference asked =
    ap (λ s. within s asked) (granted_from-last_recorded l.kits reference no_surface)
    ∙ by_record (last_recorded reference l.kits)
  where
    by_record :
        (recorded : Option Surface)
        → within (or_surface recorded no_surface) asked ≡ is_within recorded asked
    by_record (some recorded) = refl
    by_record none = refl

gate_kits-is_kit_granted :
    (rec : Recorder) (l : Lock) (us : List Kit)
    → is_empty (gate_kits rec l us) ≡ all (is_kit_granted rec l) us
unfolding gate_kits
gate_kits-is_kit_granted rec l [] = refl
gate_kits-is_kit_granted rec l (u ∷ us) =
    let first = diff_widenings (granted l u.reference) (rec.surface_of u.descriptor) in
    is_empty-append first (gate_kits rec l us)
    ∙ ap₂ ◌&&◌
        (diff_widenings-within (granted l u.reference) (rec.surface_of u.descriptor)
          ∙ granted-is_within l u.reference (rec.surface_of u.descriptor))
        (gate_kits-is_kit_granted rec l us)

-- The gate asks for nothing exactly when each unit's surface is within the one that the last record of
-- its reference in the lock has, and within a surface on which nothing is where the lock has no record
-- of it.
pub gate-is_kit_granted :
    (rec : Recorder) (l : Lock) (r : Resolution)
    → is_empty (gate rec l r) ≡ all (is_kit_granted rec l) (composed r)
unfolding gate
gate-is_kit_granted rec l r = gate_kits-is_kit_granted rec l (composed r)

-- No two units of one reference.
abbrev names_no : Text → List Kit → Bool
names_no reference us = all (λ u. not (text_eq reference u.reference)) us

abbrev pub has_own_references : List Kit → Bool
has_own_references [] = true
has_own_references (u ∷ us) = names_no u.reference us && has_own_references us

granted_from-other :
    (rec : Recorder) (us : List Kit) (reference : Text) (s : Surface)
    → names_no reference us ≡ true
    → granted_from (locked_kits rec us) reference s ≡ s
unfolding granted_from locked_kits
granted_from-other rec [] reference s h = refl
granted_from-other rec (u ∷ us) reference s h =
    by_test (text_eq reference u.reference) (ground arith)
      (λ t. granted_from-other rec us reference t (ground arith))
  where
    by_test :
        (b : Bool)
        → b ≡ false
        → ((t : Surface) → granted_from (locked_kits rec us) reference t ≡ t)
        → granted_from (locked_kits rec us) reference (if b then rec.surface_of u.descriptor else s)
          ≡ s
    by_test true e rest = cc
    by_test false e rest = rest s

-- The lock of a set grants a unit its own surface, whatever was granted before.
abbrev IsGrantedOwn : Recorder → List LockedKit → Kit → Type 0
IsGrantedOwn rec ks u = (s : Surface) → granted_from ks u.reference s ≡ rec.surface_of u.descriptor

All-later :
    (rec : Recorder) (k : LockedKit) (ks : List LockedKit) (us : List Kit)
    → All (IsGrantedOwn rec ks) us
    → All (IsGrantedOwn rec (k ∷ ks)) us
unfolding granted_from
All-later rec k ks [] h = _
All-later rec k ks (u ∷ us) (own, h) = (
  λ s. own (if text_eq u.reference k.reference then k.permissions else s),
  All-later rec k ks us h,
)

locked_kits-IsGrantedOwn :
    (rec : Recorder) (us : List Kit)
    → has_own_references us ≡ true
    → All (IsGrantedOwn rec (locked_kits rec us)) us
unfolding granted_from locked_kits
locked_kits-IsGrantedOwn rec [] h = _
locked_kits-IsGrantedOwn rec (u ∷ us) h = (
  λ s.
      ap
        (λ b.
          granted_from (locked_kits rec us) u.reference
            (if b then rec.surface_of u.descriptor else s))
        ((text_eq_iff u.reference u.reference).1 refl)
      ∙ granted_from-other rec us u.reference (rec.surface_of u.descriptor) (ground arith),
  All-later rec (locked rec u) (locked_kits rec us) us
      (locked_kits-IsGrantedOwn rec us (ground arith)),
)

gate_kits-nil :
    (rec : Recorder) (l : Lock) (us : List Kit)
    → All (IsGrantedOwn rec l.kits) us
    → gate_kits rec l us ≡ []
unfolding gate_kits granted
gate_kits-nil rec l [] h = refl
gate_kits-nil rec l (u ∷ us) (own, h) =
    ap₂ ◌++◌
      (ap (λ s. diff_widenings s (rec.surface_of u.descriptor)) (own no_surface)
        ∙ diff_widenings_self (rec.surface_of u.descriptor))
      (gate_kits-nil rec l us h)

-- The gate asks for nothing where a set whose references differ is resolved again as the lock records
-- it.
pub gate-lock_from :
    (rec : Recorder) (r : Resolution)
    → has_own_references (composed r) ≡ true
    → gate rec (lock_from rec r) r ≡ []
unfolding gate lock_from
gate-lock_from rec r h =
    gate_kits-nil rec (lock_from rec r) (composed r) (locked_kits-IsGrantedOwn rec (composed r) h)
