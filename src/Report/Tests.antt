-- ===== src/Report/Tests.antt =====
-- The theorems on tck/report at concrete reports, and runs of its functions.
use sandbox_kit_spec.Base.{
  ◌≡◌, refl, true, false, some, none, [], ◌∷◌, Text, codes, all, ltb, contains,
}
use sandbox_kit_spec.Report.{
  Severity, fail, warn, Report, Finding, is_on, add, failf, warnf, summary, failed, err_of,
}
use sandbox_kit_spec.Report.Tally.{summary-failed}
use sandbox_kit_spec.Report.Words.{wrap, fields}
use sandbox_kit_spec.Report.Wrapped.{spaced, is_within, wrap-fields}
use sandbox_kit_spec.Report.Render.{render, tally, decimal}

abbrev finding : Severity → Text → Finding
finding s detail = record {
  check = codes "paths";
  requirement = codes "9.3";
  severity = s;
  detail = detail;
}

abbrev run : Report
run = record {
  findings = finding warn (codes "odd") ∷ finding fail (codes "bad") ∷ [];
  checks =
      record { name = codes "paths"; requirement = codes "9.3" }
      ∷ record { name = codes "names"; requirement = codes "2.1" }
      ∷ [];
}

built :
    add (codes "names") (codes "2.1") [] (
      add
        (codes "paths")
        (codes "9.3")
        (warnf (codes "odd") ∷ failf (codes "bad") ∷ [])
        (record { findings = []; checks = [] }))
    ≡ run
unfolding add
built = refl

counted : tally (summary run) ≡ codes "2 checks · 1 failed · 1 passed"
unfolding tally summary
counted = refl

written : decimal 120 ≡ codes "120"
unfolding decimal
written = refl

told : err_of run ≡ some (codes "conformance:\n  - paths (9.3): bad")
unfolding err_of
told = refl

rendered_plain :
    render run
      (record { verbose = false; color = false; hyperlinks = false; width = 0; link = none })
    ≡ codes "  failed"
      ∷ codes "    ✗ paths                bad [9.3]"
      ∷ codes "  warned"
      ∷ codes "    ! paths                odd [9.3]"
      ∷ codes "  2 checks · 1 failed · 1 passed"
      ∷ []
unfolding render
rendered_plain = refl

summary-failed_example : ltb 0 (summary run).failed ≡ failed run
unfolding is_on
summary-failed_example = summary-failed run refl refl

wrapped :
    wrap (codes "a path  that-is-long x") 6 ≡ codes "a path" ∷ codes "that-is-long" ∷ codes "x" ∷ []
unfolding wrap
wrapped = refl

wrap-fields_example :
    (spaced (wrap (codes "a path  that-is-long x") 6)
      ≡ spaced (fields (codes "a path  that-is-long x")))
    × (all (is_within 6) (wrap (codes "a path  that-is-long x") 6) ≡ true)
unfolding contains
wrap-fields_example = wrap-fields (codes "a path  that-is-long x") 6 refl
