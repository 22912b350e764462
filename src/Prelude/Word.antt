-- ===== src/Prelude/Word.antt =====
-- Go's `int` where the program computes with it: its 64 bits in two's complement.
use Prim.Native.Nat.{ℕ, ◌+◌, ◌%◌, ◌^◌, ◌<◌}
use mathlib.Core.Bool.{Bool}
use windrunner.Prelude.Tests.{ltb, leb}

abbrev pub int_mod : ℕ
int_mod = 2 ^ 64

abbrev pub IsInt : ℕ → Type 0
IsInt x = x < 2 ^ 64

-- `x < y` and `x <= y` on signed values: moving both by half the range makes the order unsigned.
abbrev pub int_ltb : ℕ → ℕ → Bool
int_ltb x y = ltb ((x + 2 ^ 63) % 2 ^ 64) ((y + 2 ^ 63) % 2 ^ 64)

abbrev pub int_leb : ℕ → ℕ → Bool
int_leb x y = leb ((x + 2 ^ 63) % 2 ^ 64) ((y + 2 ^ 63) % 2 ^ 64)
