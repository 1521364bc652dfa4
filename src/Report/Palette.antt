-- ===== src/Report/Palette.antt =====
-- tck/report/render.go: the colours and the links of a rendering.
use sandbox_kit_spec.Base.{
  Bool, not, ◌||◌, Option, none, some, [], ◌∷◌, ◌++◌, is_empty, Text, codes, if◌then◌else◌,
}
use sandbox_kit_spec.Report.{Severity, pass, fail, warn, skip}

-- palette
pub record Palette : Type 0 where
  pub color : Bool
  pub hyperlinks : Bool
  pub link : Option (Text → Text)

abbrev escape : Text
escape = 27 ∷ []

abbrev pub red : Text
red = codes "31"

abbrev pub yellow : Text
yellow = codes "33"

abbrev pub green : Text
green = codes "32"

abbrev pub dim_code : Text
dim_code = codes "2"

unfoldable pub paint : Palette → Text → Text → Text
paint p code s =
    if not p.color || is_empty s
    then s
    else escape ++ (codes "[" ++ (code ++ (codes "m" ++ (s ++ (escape ++ codes "[0m")))))

unfoldable pub dim : Palette → Text → Text
unfolding paint
dim p s = paint p dim_code s

unfoldable pub symbol : Palette → Severity → Text
unfolding paint
symbol p fail = paint p red (codes "✗")
symbol p warn = paint p yellow (codes "!")
symbol p skip = paint p dim_code (codes "–")
symbol p pass = paint p green (codes "✓")

unfoldable pub styled_name : Palette → Severity → Text → Text
unfolding paint
styled_name p fail name = paint p red name
styled_name p warn name = paint p yellow name
styled_name p skip name = paint p dim_code name
styled_name p pass name = paint p dim_code name

abbrev pub hyperlink : Text → Text → Text
hyperlink [] text = text
hyperlink (c ∷ url) text =
    escape
    ++ (codes "]8;;"
        ++ ((c ∷ url)
            ++ (escape
                ++ (codes "\\" ++ (text ++ (escape ++ (codes "]8;;" ++ (escape ++ codes "\\"))))))))

abbrev link_with : Option (Text → Text) → Bool → Text → Text → Text
link_with none blank requirement text = text
link_with (some link) blank requirement text =
    if blank then text else hyperlink (link requirement) text

-- linked
unfoldable pub linked : Palette → Text → Text → Text
linked p requirement text =
    link_with p.link (not p.hyperlinks || is_empty requirement) requirement text
