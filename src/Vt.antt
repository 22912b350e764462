-- ===== src/Vt.antt =====
-- What session.go uses of the emulator in github.com/charmbracelet/x/vt, which is not part of this
-- repository: a parameter of all that is said about sessions.
use windrunner.Prelude.{ℕ, Bytes, List}
use windrunner.Prelude.Int.{ℤ}

pub record Vt : Type 1 where
  pub Emulator : Type 0
  -- `NewEmulator(cols, rows)` with `Scrollback().SetMaxLines(lines)`
  pub new : ℤ → ℤ → ℤ → Emulator
  pub write : Emulator → Bytes → Emulator
  -- the calls of the `Title` callback during a `write`
  pub titles : Emulator → Bytes → List Bytes
  pub resize : Emulator → ℤ → ℤ → Emulator
  pub render : Emulator → Bytes
  -- the lines of `Scrollback()`, each as `Line(index).Render()`
  pub scrollback : Emulator → List Bytes
  pub cursor_x : Emulator → ℕ
  pub cursor_y : Emulator → ℕ
