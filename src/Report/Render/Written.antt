-- ===== src/Report/Render/Written.antt =====
-- tck/report/render.go: errWriter, which stops at the first error, and Render over it.
use sandbox_kit_spec.Base.{Option, none, some, List, [], ◌∷◌, ◌++◌, Text, codes}
use sandbox_kit_spec.Report.{Report}
use sandbox_kit_spec.Report.Render.{Options, render}

-- errWriter over a writer's state and its errors
pub record ErrWriter (W E : Type 0) : Type 0 where
  pub state : W
  pub failure : Option E

module _ {W E : Type 0} (write : W → Text → W × Option E) where
  abbrev stepped : W × Option E → ErrWriter W E
  stepped (w, e) = record { state = w; failure = e }

  abbrev line_unless : Option E → W → Text → ErrWriter W E
  line_unless (some e) w s = record { state = w; failure = some e }
  line_unless none w s = stepped (write w (s ++ codes "\n"))

  -- line
  unfoldable pub line : ErrWriter W E → Text → ErrWriter W E
  line out s = line_unless out.failure out.state s

  unfoldable pub write_lines : ErrWriter W E → List Text → ErrWriter W E
  unfolding line
  write_lines out [] = out
  write_lines out (l ∷ ls) = write_lines (line out l) ls

  -- Render
  unfoldable pub render_to : W → Report → Options → ErrWriter W E
  unfolding write_lines render
  render_to w r o = write_lines (record { state = w; failure = none }) (render r o)
