-- ===== src/Common/Texts.antt =====
-- The comparison of texts, under a name of its own beside that of numbers.
use Prim.Native.String.{String}
use mathlib.Core.Bool.{Bool}
use text.Mathlib.Text.{◌==◌}

abbrev pub str_eq : String → String → Bool
str_eq a b = a == b
