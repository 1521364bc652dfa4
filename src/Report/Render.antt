-- ===== src/Report/Render.antt =====
-- tck/report/render.go: the rendering of a report as lines. Width is a natural number, of which 0 stands for
-- every width that is not positive. The writer is a parameter: what it does with a line to its own
-- state, and the error that it may give.
pub mod Written
use sandbox_kit_spec.Base.{
  ℕ, zero, suc, ◌+◌, ◌-◌, ◌*◌, ◌/◌, ◌%◌, Bool, true, false, not, ◌||◌, ◌&&◌, Option, none, some,
  List, [], ◌∷◌, ◌++◌, map, length, filter, is_empty, Text, codes, text_eq, join, contains,
  trim_right, ltb, leb, ◌==◌, if◌then◌else◌,
}
use sandbox_kit_spec.Report.{
  Severity, pass, fail, warn, skip, Finding, Check, Report, Summary, summary, passing,
}
use sandbox_kit_spec.Report.Palette.{
  Palette, red, yellow, green, dim_code, paint, dim, symbol, styled_name, hyperlink, linked,
}
use sandbox_kit_spec.Report.Words.{columns, wrap, newline}

-- strings.Repeat of a space
unfoldable pub spaces : ℕ → Text
spaces zero = []
spaces (suc n) = 32 ∷ spaces n

abbrev pub max : ℕ → ℕ → ℕ
max a b = if ltb a b then b else a

-- pad
unfoldable pub pad : Text → Text → ℕ → Text
unfolding spaces
pad styled plain width =
    if leb width (columns plain) then styled else styled ++ spaces (width - columns plain)

-- %d of a number, on as much fuel as the number itself
unfoldable pub digits : ℕ → ℕ → Text → Text
digits zero n after = after
digits (suc fuel) n after =
    let rest = digits fuel (n / 10) ((48 + n % 10) ∷ after) in
    if ltb n 10 then (48 + n) ∷ after else rest

unfoldable pub decimal : ℕ → Text
unfolding digits
decimal n = digits (suc n) n []

unfoldable pub plural : ℕ → Text → Text
unfolding decimal
plural n noun =
    if n == 1
    then decimal n ++ (codes " " ++ noun)
    else decimal n ++ (codes " " ++ (noun ++ codes "s"))

abbrev counted : ℕ → Text → List Text → List Text
counted n label rest = if n == 0 then rest else (decimal n ++ (codes " " ++ label)) ∷ rest

-- Summary.String
unfoldable pub tally : Summary → Text
unfolding plural join
tally s = join (codes " · ") (
    plural s.checks (codes "check")
    ∷ (counted s.failed (codes "failed") (
        counted s.warned (codes "warned")
          (counted s.skipped (codes "skipped") (counted s.passed (codes "passed") [])))))

pub record Row : Type 0 where
  pub severity : Severity
  pub name : Text
  pub detail : Text
  pub requirement : Text

pub record Layout : Type 0 where
  pub width : ℕ
  pub name_width : ℕ
  pub stacked : Bool

abbrev pub row_indent : ℕ
row_indent = 4

-- The requirement in brackets, unless the check is named by it.
abbrev pub tag_of : Row → Text
tag_of f = if text_eq f.requirement f.name then [] else f.requirement

-- The tag on the last line when it fits there, and otherwise on a line of its own.
unfoldable pub with_tag : ℕ → Text → Text → List Text → List Text
with_tag text tag shown [] = shown ∷ []
with_tag text tag shown (l ∷ []) =
    if leb (columns l + 1 + columns tag) text
    then (l ++ (codes " " ++ shown)) ∷ []
    else l ∷ shown ∷ []
with_tag text tag shown (l ∷ m ∷ ls) = l ∷ with_tag text tag shown (m ∷ ls)

abbrev bracketed : Text → Text
bracketed tag = codes "[" ++ (tag ++ codes "]")

unfoldable pub tagged_lines : Palette → ℕ → Row → Text → List Text → List Text
unfolding with_tag linked dim
tagged_lines style text f [] lines = lines
tagged_lines style text f (c ∷ tag) lines =
    with_tag text (bracketed (c ∷ tag))
      (dim style (linked style f.requirement (bracketed (c ∷ tag)))) lines

abbrev pub is_long : Layout → Row → Bool
is_long shape f =
    shape.stacked || ltb shape.name_width (columns f.name) || contains newline f.detail

-- Where the detail starts.
abbrev pub column_of : Layout → Row → ℕ
column_of shape f =
    if is_long shape f then row_indent + 2 else row_indent + 2 + shape.name_width + 1

abbrev pub text_width : Layout → Row → ℕ
text_width shape f = max (shape.width - column_of shape f) 28

abbrev pub head_of : Palette → Row → Text
head_of style f = spaces row_indent ++ (symbol style f.severity ++ codes " ")

abbrev pub name_of : Palette → Row → Text
name_of style f =
    if is_empty (tag_of f)
    then linked style f.requirement (styled_name style f.severity f.name)
    else styled_name style f.severity f.name

abbrev beside : Text → Text → List Text → List Text
beside head indent [] = trim_right (λ c. c == 32) head ∷ []
beside head indent (l ∷ ls) = (head ++ (codes " " ++ l)) ∷ map (λ line. indent ++ line) ls

-- render
unfoldable pub render_row : Palette → Layout → Row → List Text
unfolding tagged_lines wrap linked styled_name symbol spaces pad text_eq contains trim_right
render_row style shape f =
    let lines =
      tagged_lines style (text_width shape f) f (tag_of f) (wrap f.detail (text_width shape f)) in
    let indent = spaces (column_of shape f) in
    if is_long shape f
    then (head_of style f ++ name_of style f) ∷ map (λ line. indent ++ line) lines
    else beside (head_of style f ++ pad (name_of style f) f.name shape.name_width) indent lines

-- widest
unfoldable pub widest : List Row → ℕ
widest [] = 0
widest (r ∷ rs) = max (columns r.name) (widest rs)

-- The rows of a group.
abbrev pub same_severity : Severity → Severity → Bool
same_severity fail fail = true
same_severity warn warn = true
same_severity skip skip = true
same_severity pass pass = true
same_severity s t = false

abbrev pub row_of : Finding → Row
row_of f = record {
  severity = f.severity;
  name = f.check;
  detail = f.detail;
  requirement = f.requirement;
}

unfoldable pub group_rows : Severity → List Finding → List Row
unfolding filter
group_rows s fs = map row_of (filter (λ f. same_severity f.severity s) fs)

abbrev pub passed_row : Check → Row
passed_row c = record { severity = pass; name = c.name; detail = []; requirement = c.requirement }

-- Options
pub record Options : Type 0 where
  pub verbose : Bool
  pub color : Bool
  pub hyperlinks : Bool
  pub width : ℕ
  pub link : Option (Text → Text)

abbrev pub width_of : Options → ℕ
width_of o = if o.width == 0 then 100 else o.width

abbrev pub palette_of : Options → Palette
palette_of o = record { color = o.color; hyperlinks = o.hyperlinks; link = o.link }

unfoldable pub render_rows : Palette → Layout → List Row → List Text
unfolding render_row
render_rows style shape [] = []
render_rows style shape (f ∷ fs) = render_row style shape f ++ render_rows style shape fs

unfoldable pub render_group : Palette → Layout → Text → List Row → List Text
unfolding render_rows dim
render_group style shape label [] = []
render_group style shape label (f ∷ fs) =
    (codes "  " ++ dim style label) ∷ render_rows style shape (f ∷ fs)

abbrev pub passed_rows : Report → Options → List Row
passed_rows r o = if o.verbose then map passed_row (passing r) else []

unfoldable pub longest_name : Report → Options → ℕ
unfolding widest group_rows passing
longest_name r o = max (widest (passed_rows r o)) (
    max (widest (group_rows fail r.findings))
      (max (widest (group_rows warn r.findings)) (widest (group_rows skip r.findings))))

abbrev pub layout_of : Report → Options → Layout
layout_of r o = record {
  width = width_of o;
  name_width = max (longest_name r o) 20;
  stacked = ltb (width_of o * 2 / 5) (longest_name r o);
}

-- Render, up to the writer
unfoldable pub render : Report → Options → List Text
unfolding render_group longest_name group_rows passing tally summary dim
render r o =
    let style = palette_of o in
    let shape = layout_of r o in
    render_group style shape (codes "failed") (group_rows fail r.findings)
    ++ (render_group style shape (codes "warned") (group_rows warn r.findings)
        ++ (render_group style shape (codes "skipped") (group_rows skip r.findings)
            ++ (render_group style shape (codes "passed") (passed_rows r o)
                ++ (codes "  " ++ dim style (tally (summary r))) ∷ [])))
