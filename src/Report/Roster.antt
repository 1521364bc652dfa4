-- ===== src/Report/Roster.antt =====
-- tck/report/report.go: the roster: Add keeps each check on it once, and each finding's check.
use sandbox_kit_spec.Base.{
  ◌≡◌, refl, ap, Bool, true, false, not, ◌&&◌, ◌||◌, List, [], ◌∷◌, ◌++◌, map, all, all-append,
  all-implies, is_empty, Text, text_eq, text_eq_iff, arith, if◌then◌else◌,
}
use sandbox_kit_spec.Report.{Finding, Check, Report, is_on, ran, add, filled, or_default}
use sandbox_kit_spec.Report.Tally.{is_rostered}

-- No two checks on the roster have one name.
abbrev pub is_distinct : List Check → Bool
is_distinct [] = true
is_distinct (c ∷ cs) = not (is_on c.name cs) && is_distinct cs

abbrev pub IsRoster : Report → Type 0
IsRoster r = (is_distinct r.checks ≡ true) × (all (is_rostered r.checks) r.findings ≡ true)

is_on-append :
    (name : Text) (c : Check) (cs : List Check)
    → is_on name (cs ++ c ∷ []) ≡ (is_on name cs || text_eq c.name name)
unfolding is_on
is_on-append name c [] = ground arith
is_on-append name c (d ∷ cs) = ground (arith, is_on-append name c cs)

text_eq_symm : (s t : Text) → text_eq s t ≡ text_eq t s
text_eq_symm s t = ground (arith, text_eq_iff s t, text_eq_iff t s)

is_distinct-append :
    (c : Check) (cs : List Check)
    → is_distinct cs ≡ true
    → is_on c.name cs ≡ false
    → is_distinct (cs ++ c ∷ []) ≡ true
unfolding is_on
is_distinct-append c [] h k = refl
is_distinct-append c (d ∷ cs) h k = ground (
  arith,
  is_on-append d.name c cs,
  text_eq_symm c.name d.name,
  is_distinct-append c cs (ground arith) (ground arith),
)

is_distinct-ran :
    (c : Check) (cs : List Check) → is_distinct cs ≡ true → is_distinct (ran c cs) ≡ true
unfolding ran
is_distinct-ran c cs h = by_roster (is_on c.name cs) refl
  where
    by_roster :
        (b : Bool) → is_on c.name cs ≡ b → is_distinct (if b then cs else cs ++ c ∷ []) ≡ true
    by_roster true e = h
    by_roster false e = is_distinct-append c cs h e

is_on-ran_later :
    (name : Text) (c : Check) (cs : List Check)
    → is_on name cs ≡ true
    → is_on name (ran c cs) ≡ true
unfolding ran
is_on-ran_later name c cs h = ground (arith, is_on-append name c cs)

text_eq_self : (s : Text) → text_eq s s ≡ true
text_eq_self s = (text_eq_iff s s).1 refl

is_on-ran : (c : Check) (cs : List Check) → is_on c.name (ran c cs) ≡ true
unfolding ran
is_on-ran c cs = ground (arith, is_on-append c.name c cs, text_eq_self c.name)

-- A finding that leaves its check open, or names the check that is added.
abbrev pub is_own : Text → Finding → Bool
is_own check f = is_empty f.check || text_eq f.check check

all-filled :
    (check requirement : Text) (fs : List Finding) (cs : List Check)
    → is_on check cs ≡ true
    → all (is_own check) fs ≡ true
    → all (is_rostered cs) (map (filled check requirement) fs) ≡ true
all-filled check requirement [] cs h k = refl
all-filled check requirement (f ∷ fs) cs h k =
    by_check f.check (ground arith) (all-filled check requirement fs cs h (ground arith))
  where
    by_check :
        (own : Text)
        → (is_empty own || text_eq own check) ≡ true
        → all (is_rostered cs) (map (filled check requirement) fs) ≡ true
        → (is_on (or_default own check) cs
            && all (is_rostered cs) (map (filled check requirement) fs))
          ≡ true
    by_check [] e rest = ground arith
    by_check (c ∷ own) e rest =
        let same = (text_eq_iff (c ∷ own) check).0 e in
        ground (arith, ap (λ name. is_on name cs) same)

-- Adding findings that leave their check open or name the one that is added keeps each check on the
-- roster once, and the check of each finding on it.
pub add-IsRoster :
    (check requirement : Text) (fs : List Finding) (r : Report)
    → all (is_own check) fs ≡ true
    → IsRoster r
    → IsRoster (add check requirement fs r)
unfolding add
add-IsRoster check requirement fs r own (distinct, rostered) =
    let c : Check = record { name = check; requirement = requirement } in
    (
      is_distinct-ran c r.checks distinct,
      ground (
        arith,
        all-append (is_rostered (ran c r.checks)) r.findings (map (filled check requirement) fs),
        all-implies (is_rostered r.checks) (is_rostered (ran c r.checks)) r.findings
            (λ f. is_on-ran_later f.check c r.checks) rostered,
        all-filled check requirement fs (ran c r.checks) (is_on-ran c r.checks) own,
      ),
    )
