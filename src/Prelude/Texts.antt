-- ===== src/Prelude/Texts.antt =====
-- Python's `str.strip`, as the test whether anything is left.
use Prim.Native.Nat.{ℕ}
use Prim.Native.Char.{code}
use Prim.Native.String.{String, [], ◌∷◌}
use mathlib.Core.Bool.{Bool, true, ◌&&◌, ◌||◌}
use market_cell.Prelude.Tests.{leb, nat_eq}

abbrev pub in_range : ℕ → ℕ → ℕ → Bool
in_range low high c = leb low c && leb c high

-- The code points of `str.isspace`
abbrev pub is_space : ℕ → Bool
is_space c =
    in_range 9 13 c
    || in_range 28 32 c
    || nat_eq c 133
    || nat_eq c 160
    || nat_eq c 5760
    || in_range 8192 8202 c
    || in_range 8232 8233 c
    || nat_eq c 8239
    || nat_eq c 8287
    || nat_eq c 12288

-- `not text.strip()`
unfoldable pub is_blank : String → Bool
is_blank [] = true
is_blank (c ∷ s) = is_space (code c) && is_blank s
