-- ===== src/Nccl/Renderer/Colors.antt =====
-- The ANSI escape codes of the dashboard (nccl-visualizer/renderer.go), and texts put together.
use velo_infra_playground.Prelude.{String, [], ◌∷◌}
use velo_infra_playground.Prelude.Text.{concat}

abbrev pub reset : String
reset = "\u{1b}[0m"

abbrev pub bold : String
bold = "\u{1b}[1m"

abbrev pub dim : String
dim = "\u{1b}[2m"

abbrev pub red : String
red = "\u{1b}[31m"

abbrev pub green : String
green = "\u{1b}[32m"

abbrev pub yellow : String
yellow = "\u{1b}[33m"

abbrev pub cyan : String
cyan = "\u{1b}[36m"

abbrev pub gray : String
gray = "\u{1b}[90m"

-- `ColorBold` followed by `ColorGreen`, `ColorYellow`, `ColorMagenta`, `ColorCyan` and `ColorRed`.
abbrev pub bold_green : String
bold_green = "\u{1b}[1m\u{1b}[32m"

abbrev pub bold_yellow : String
bold_yellow = "\u{1b}[1m\u{1b}[33m"

abbrev pub bold_magenta : String
bold_magenta = "\u{1b}[1m\u{1b}[35m"

abbrev pub bold_cyan : String
bold_cyan = "\u{1b}[1m\u{1b}[36m"

abbrev pub bold_red : String
bold_red = "\u{1b}[1m\u{1b}[31m"

-- A text between a colour and the code that ends it.
abbrev pub colored : String → String → String
colored color s = concat (color ∷ s ∷ reset ∷ [])
