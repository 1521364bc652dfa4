-- ===== src/Report/Tally.antt =====
-- tck/report/report.go: the tally against the findings and the roster.
use sandbox_kit_spec.Base.{
  ℕ, suc, ◌+◌, ◌≡◌, ◌↔◌, refl, ◌∙◌, Bool, true, false, ◌&&◌, ◌||◌, Option, none, some, List, [],
  ◌∷◌, length, any, all, filter, Text, text_eq, arith, if◌then◌else◌, ltb,
}
use sandbox_kit_spec.Report.{
  Severity, pass, fail, warn, skip, rank, is_fail, Finding, Check, Report, is_on, Summary,
  new_summary, worse, worst_from, worst, count, count_checks, summary, failed, failures,
  conformance_error, err_of, is_judged, passing,
}

abbrev pub total : Summary → ℕ
total s = s.failed + s.warned + s.skipped + s.passed

total-count : (worst_of : Option Severity) (s : Summary) → total (count worst_of s) ≡ suc (total s)
total-count none s = omega arith
total-count (some pass) s = omega arith
total-count (some fail) s = omega arith
total-count (some warn) s = omega arith
total-count (some skip) s = omega arith

checks-count : (worst_of : Option Severity) (s : Summary) → (count worst_of s).checks ≡ s.checks
checks-count none s = refl
checks-count (some pass) s = refl
checks-count (some fail) s = refl
checks-count (some warn) s = refl
checks-count (some skip) s = refl

total-count_checks :
    (fs : List Finding) (cs : List Check) (s : Summary)
    → (total (count_checks fs cs s) ≡ length cs + total s)
      × ((count_checks fs cs s).checks ≡ s.checks)
unfolding count_checks
total-count_checks fs [] s = (omega arith, refl)
total-count_checks fs (c ∷ cs) s =
    let (all_of, kept) = total-count_checks fs cs (count (worst fs c.name) s) in
    (
      omega (arith, all_of, total-count (worst fs c.name) s),
      kept ∙ checks-count (worst fs c.name) s,
    )

abbrev is_some : Option Severity → Bool
is_some none = false
is_some (some s) = true

is_some-worse : (s : Severity) (seen : Option Severity) → is_some (worse s seen) ≡ true
is_some-worse s none = refl
is_some-worse s (some t) = ground arith

is_some-worst_from :
    (fs : List Finding) (name : Text) (seen : Option Severity)
    → is_some (worst_from fs name seen) ≡ (is_some seen || is_judged fs name)
unfolding worst_from is_judged
is_some-worst_from [] name seen = ground arith
is_some-worst_from (f ∷ fs) name seen =
    is_some-worst_from fs name (if text_eq name f.check then worse f.severity seen else seen)
    ∙ by_name (text_eq name f.check)
  where
    by_name :
        (b : Bool)
        → (is_some (if b then worse f.severity seen else seen) || is_judged fs name)
          ≡ (is_some seen || (if b then true else is_judged fs name))
    by_name true = ground (arith, is_some-worse f.severity seen)
    by_name false = refl

passed-count :
    (w : Option Severity) (s : Summary)
    → (count w s).passed ≡ (if is_some w then s.passed else suc s.passed)
passed-count none s = refl
passed-count (some pass) s = refl
passed-count (some fail) s = refl
passed-count (some warn) s = refl
passed-count (some skip) s = refl

abbrev is_passing : List Finding → Check → Bool
is_passing fs c = if is_judged fs c.name then false else true

passed-count_checks :
    (fs : List Finding) (cs : List Check) (s : Summary)
    → (count_checks fs cs s).passed ≡ s.passed + length (filter (is_passing fs) cs)
unfolding count_checks filter worst
passed-count_checks fs [] s = omega arith
passed-count_checks fs (c ∷ cs) s =
    passed-count_checks fs cs (count (worst fs c.name) s)
    ∙ ground (arith, passed-count (worst fs c.name) s, is_some-worst_from fs c.name none)

-- The categories of a summary add up to the checks on the roster, and those that passed are as many as
-- the checks that the verbose rendering lists.
pub summary-total :
    (r : Report)
    → (total (summary r) ≡ length r.checks)
      × ((summary r).checks ≡ length r.checks)
      × ((summary r).passed ≡ length (passing r))
unfolding summary passing
summary-total r =
    let start = new_summary (length r.checks) in
    let (all_of, kept) = total-count_checks r.findings r.checks start in
    (omega (arith, all_of), kept, omega (arith, passed-count_checks r.findings r.checks start))

any-failures : (fs : List Finding) → (failures fs ≡ []) ↔ (any (λ f. is_fail f.severity) fs ≡ false)
unfolding failures
any-failures [] = ground arith
any-failures (f ∷ fs) = ground (arith, any-failures fs)

-- The error is there exactly when a finding is a failure.
pub err_of-failed : (r : Report) → (err_of r ≡ none) ↔ (failed r ≡ false)
unfolding err_of failed
err_of-failed r = by_failures (failures r.findings) (any-failures r.findings)
  where
    by_failures :
        (ts : List Text)
        → ((ts ≡ []) ↔ (any (λ f. is_fail f.severity) r.findings ≡ false))
        → (conformance_error ts ≡ none) ↔ (any (λ f. is_fail f.severity) r.findings ≡ false)
    by_failures [] h = ground (arith, h)
    by_failures (t ∷ ts) h = ground (arith, h)

abbrev is_failed : Option Severity → Bool
is_failed none = false
is_failed (some s) = is_fail s

-- A severity that the suites report: any but the renderer's own.
abbrev pub is_reported : Finding → Bool
is_reported f = ltb 0 (rank f.severity)

abbrev is_seen : Option Severity → Bool
is_seen none = true
is_seen (some s) = ltb 0 (rank s)

is_failed-worse :
    (s : Severity) (seen : Option Severity)
    → ltb 0 (rank s) ≡ true
    → is_seen seen ≡ true
    → (is_failed (worse s seen) ≡ (is_failed seen || is_fail s)) × (is_seen (worse s seen) ≡ true)
is_failed-worse pass seen h k = ground arith
is_failed-worse s none h k = (refl, h)
is_failed-worse s (some pass) h k = ground arith
is_failed-worse fail (some fail) h k = (refl, refl)
is_failed-worse fail (some warn) h k = (refl, refl)
is_failed-worse fail (some skip) h k = (refl, refl)
is_failed-worse warn (some fail) h k = (refl, refl)
is_failed-worse warn (some warn) h k = (refl, refl)
is_failed-worse warn (some skip) h k = (refl, refl)
is_failed-worse skip (some fail) h k = (refl, refl)
is_failed-worse skip (some warn) h k = (refl, refl)
is_failed-worse skip (some skip) h k = (refl, refl)

abbrev fails : Text → Finding → Bool
fails name f = text_eq name f.check && is_fail f.severity

is_failed-worst_from :
    (fs : List Finding) (name : Text) (seen : Option Severity)
    → all is_reported fs ≡ true
    → is_seen seen ≡ true
    → is_failed (worst_from fs name seen) ≡ (is_failed seen || any (fails name) fs)
unfolding worst_from
is_failed-worst_from [] name seen h k = ground arith
is_failed-worst_from (f ∷ fs) name seen h k =
    by_name (text_eq name f.check) (is_failed-worst_from fs name)
  where
    by_name :
        (b : Bool)
        → ((now : Option Severity)
            → all is_reported fs ≡ true
            → is_seen now ≡ true
            → is_failed (worst_from fs name now) ≡ (is_failed now || any (fails name) fs))
        → is_failed (worst_from fs name (if b then worse f.severity seen else seen))
          ≡ (is_failed seen || ((b && is_fail f.severity) || any (fails name) fs))
    by_name true rest =
        let (fails_now, seen_now) = is_failed-worse f.severity seen (ground arith) k in
        ground (arith, rest (worse f.severity seen) (ground arith) seen_now)
    by_name false rest = rest seen (ground arith) k

failed-count :
    (w : Option Severity) (s : Summary) → ltb 0 (count w s).failed ≡ (ltb 0 s.failed || is_failed w)
failed-count none s = ground arith
failed-count (some pass) s = ground arith
failed-count (some fail) s = ground arith
failed-count (some warn) s = ground arith
failed-count (some skip) s = ground arith

abbrev fails_check : List Finding → Check → Bool
fails_check fs c = any (fails c.name) fs

failed-count_checks :
    (fs : List Finding) (cs : List Check) (s : Summary)
    → all is_reported fs ≡ true
    → ltb 0 (count_checks fs cs s).failed ≡ (ltb 0 s.failed || any (fails_check fs) cs)
unfolding count_checks worst
failed-count_checks fs [] s h = ground arith
failed-count_checks fs (c ∷ cs) s h =
    failed-count_checks fs cs (count (worst fs c.name) s) h
    ∙ ground (arith, failed-count (worst fs c.name) s, is_failed-worst_from fs c.name none h refl)

any-false : (cs : List Check) → any (λ c. false) cs ≡ false
any-false [] = refl
any-false (c ∷ cs) = any-false cs

any-either :
    (p q : Check → Bool) (cs : List Check) → any (λ c. p c || q c) cs ≡ (any p cs || any q cs)
any-either p q [] = refl
any-either p q (c ∷ cs) = ground (arith, any-either p q cs)

any-fails :
    (f : Finding) (cs : List Check)
    → any (λ c. fails c.name f) cs ≡ (is_on f.check cs && is_fail f.severity)
unfolding is_on
any-fails f [] = refl
any-fails f (c ∷ cs) = ground (arith, any-fails f cs)

abbrev pub is_rostered : List Check → Finding → Bool
is_rostered cs f = is_on f.check cs

any-fails_check :
    (fs : List Finding) (cs : List Check)
    → all (is_rostered cs) fs ≡ true
    → any (fails_check fs) cs ≡ any (λ f. is_fail f.severity) fs
any-fails_check [] cs h = any-false cs
any-fails_check (f ∷ fs) cs h =
    any-either (λ c. fails c.name f) (fails_check fs) cs
    ∙ ground (arith, any-fails f cs, any-fails_check fs cs (ground arith))

-- In a report of which each finding is by a check on the roster and of a severity that the suites
-- report, some check counts as failed exactly when some finding is a failure.
pub summary-failed :
    (r : Report)
    → all (is_rostered r.checks) r.findings ≡ true
    → all is_reported r.findings ≡ true
    → ltb 0 (summary r).failed ≡ failed r
unfolding summary failed
summary-failed r h k =
    failed-count_checks r.findings r.checks (new_summary (length r.checks)) k
    ∙ any-fails_check r.findings r.checks h
