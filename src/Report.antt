-- ===== src/Report.antt =====
-- tck/report/report.go: the findings of a conformance run, the roster of the checks that ran, and the
-- tally. A text is here a list of code points. A Go map from names is a function of the name.
pub mod Tally
pub mod Roster
pub mod Words
pub mod Wrapped
pub mod Palette
pub mod Render
mod Tests
use sandbox_kit_spec.Base.{
  ℕ, zero, suc, ◌+◌, Bool, true, false, Option, none, some, List, [], ◌∷◌, ◌++◌, map, length, any,
  filter, is_empty, Text, codes, text_eq, join, ltb, if◌then◌else◌,
}

-- Severity, with the one that only the renderer knows.
pub data Severity : Type 0 where
  pass : Severity
  fail : Severity
  warn : Severity
  skip : Severity

-- Its order as a number, the worst first.
abbrev pub rank : Severity → ℕ
rank pass = 0
rank fail = 1
rank warn = 2
rank skip = 3

abbrev pub severity_text : Severity → Text
severity_text fail = codes "FAIL"
severity_text warn = codes "WARN"
severity_text skip = codes "SKIP"
severity_text pass = codes "SKIP"

abbrev pub is_fail : Severity → Bool
is_fail fail = true
is_fail warn = false
is_fail skip = false
is_fail pass = false

pub record Finding : Type 0 where
  pub check : Text
  pub requirement : Text
  pub severity : Severity
  pub detail : Text

pub record Check : Type 0 where
  pub name : Text
  pub requirement : Text

pub record Report : Type 0 where
  pub findings : List Finding
  pub checks : List Check

-- Failf, Warnf and Skipf, given the formatted text.
abbrev finding_at : Severity → Text → Finding
finding_at s detail = record { check = []; requirement = []; severity = s; detail = detail }

abbrev pub failf : Text → Finding
failf detail = finding_at fail detail

abbrev pub warnf : Text → Finding
warnf detail = finding_at warn detail

abbrev pub skipf : Text → Finding
skipf detail = finding_at skip detail

-- ran: the roster with a check, once.
unfoldable pub is_on : Text → List Check → Bool
unfolding text_eq
is_on name [] = false
is_on name (c ∷ cs) = let later = is_on name cs in if text_eq c.name name then true else later

unfoldable pub ran : Check → List Check → List Check
unfolding is_on
ran c cs = if is_on c.name cs then cs else cs ++ c ∷ []

abbrev pub or_default : Text → Text → Text
or_default [] t = t
or_default (c ∷ s) t = c ∷ s

abbrev pub filled : Text → Text → Finding → Finding
filled check requirement f = record {
  check = or_default f.check check;
  requirement = or_default f.requirement requirement;
  severity = f.severity;
  detail = f.detail;
}

-- Add
unfoldable pub add : Text → Text → List Finding → Report → Report
unfolding ran
add check requirement fs r = record {
  findings = r.findings ++ map (filled check requirement) fs;
  checks = ran (record { name = check; requirement = requirement }) r.checks;
}

pub record Summary : Type 0 where
  pub checks : ℕ
  pub failed : ℕ
  pub warned : ℕ
  pub skipped : ℕ
  pub passed : ℕ

-- worst, one finding added: a check without an entry, or with a milder one, gets the severity.
abbrev pub worse : Severity → Option Severity → Option Severity
worse s none = some s
worse s (some t) = if ltb (rank s) (rank t) then some s else some t

unfoldable pub worst_from : List Finding → Text → Option Severity → Option Severity
unfolding text_eq
worst_from [] name seen = seen
worst_from (f ∷ fs) name seen =
    worst_from fs name (if text_eq name f.check then worse f.severity seen else seen)

-- The map at a name.
unfoldable pub worst : List Finding → Text → Option Severity
unfolding worst_from
worst fs name = worst_from fs name none

-- The switch over a check's worst finding.
abbrev pub count : Option Severity → Summary → Summary
count none s = record {
  checks = s.checks;
  failed = s.failed;
  warned = s.warned;
  skipped = s.skipped;
  passed = suc s.passed;
}
count (some fail) s = record {
  checks = s.checks;
  failed = suc s.failed;
  warned = s.warned;
  skipped = s.skipped;
  passed = s.passed;
}
count (some warn) s = record {
  checks = s.checks;
  failed = s.failed;
  warned = suc s.warned;
  skipped = s.skipped;
  passed = s.passed;
}
count (some skip) s = record {
  checks = s.checks;
  failed = s.failed;
  warned = s.warned;
  skipped = suc s.skipped;
  passed = s.passed;
}
count (some pass) s = record {
  checks = s.checks;
  failed = s.failed;
  warned = s.warned;
  skipped = suc s.skipped;
  passed = s.passed;
}

unfoldable pub count_checks : List Finding → List Check → Summary → Summary
unfolding worst
count_checks fs [] s = s
count_checks fs (c ∷ cs) s = count_checks fs cs (count (worst fs c.name) s)

abbrev pub new_summary : ℕ → Summary
new_summary n = record { checks = n; failed = 0; warned = 0; skipped = 0; passed = 0 }

-- Report.Summary
unfoldable pub summary : Report → Summary
unfolding count_checks
summary r = count_checks r.findings r.checks (new_summary (length r.checks))

-- Failed
unfoldable pub failed : Report → Bool
failed r = any (λ f. is_fail f.severity) r.findings

abbrev pub failure_text : Finding → Text
failure_text f = f.check ++ (codes " (" ++ (f.requirement ++ (codes "): " ++ f.detail)))

unfoldable pub failures : List Finding → List Text
failures [] = []
failures (f ∷ fs) =
    let rest = failures fs in if is_fail f.severity then failure_text f ∷ rest else rest

abbrev pub conformance_error : List Text → Option Text
conformance_error [] = none
conformance_error (t ∷ ts) = some (codes "conformance:\n  - " ++ join (codes "\n  - ") (t ∷ ts))

-- Err
unfoldable pub err_of : Report → Option Text
unfolding failures join
err_of r = conformance_error (failures r.findings)

-- judged, and passing
unfoldable pub is_judged : List Finding → Text → Bool
unfolding text_eq
is_judged [] name = false
is_judged (f ∷ fs) name =
    let later = is_judged fs name in if text_eq name f.check then true else later

unfoldable pub passing : Report → List Check
unfolding is_judged filter
passing r = filter (λ c. if is_judged r.findings c.name then false else true) r.checks
