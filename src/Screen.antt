-- ===== src/Screen.antt =====
-- session.go: `snapshotLocked` and `screenRepaintLocked`, the bytes that a terminal is sent.
pub mod Tracked
use windrunner.Prelude.{
  ℕ, ◌+◌, ◌-◌, max, ◌&&◌, Bytes, List, [], ◌∷◌, ◌++◌, codes, ◌==◌, if◌then◌else◌,
}
use windrunner.Prelude.Decimal.{decimal}
use windrunner.Prelude.Word.{int_ltb}
use windrunner.TermState.{TermState, esc, replay}
use windrunner.Vt.{Vt}

abbrev pub crlf : Bytes
crlf = b'\r' ∷ b'\n' ∷ []

-- `strings.ReplaceAll(s, "\n", "\r\n")`
unfoldable pub carriage_returns : Bytes → Bytes
carriage_returns [] = []
carriage_returns (c ∷ s) = if c == b'\n' then crlf ++ carriage_returns s else c ∷ carriage_returns s

unfoldable pub scrollback_lines : List Bytes → Bytes
scrollback_lines [] = []
scrollback_lines (line ∷ lines) = line ++ (crlf ++ scrollback_lines lines)

-- The cursor's row and column, from 1, in the coordinates that CUP takes.
unfoldable pub cursor_row : TermState → ℕ → ℕ
cursor_row t y = if t.origin && int_ltb 0 t.top then max 1 (y + 1 - (t.top - 1)) else y + 1

unfoldable pub cursor_column : TermState → ℕ → ℕ
cursor_column t x =
    if t.origin && (t.lr_enabled && int_ltb 0 t.left) then max 1 (x + 1 - (t.left - 1)) else x + 1

-- `fmt.Fprintf(&out, "\x1b[0m\x1b[%d;%dH", row, column)`
unfoldable pub park : ℕ → ℕ → Bytes
park row column =
    esc ∷ (codes "[0m" ++ esc ∷ b'[' ∷ (decimal row ++ b';' ∷ (decimal column ++ b'H' ∷ [])))

-- "\x1b[0m\x1b[r\x1b[H\x1b[2J"
abbrev pub clear : Bytes
clear = esc ∷ (codes "[0m" ++ esc ∷ (codes "[r" ++ esc ∷ (codes "[H" ++ esc ∷ codes "[2J")))

module _ (v : Vt) where
  open v use {Emulator, render, scrollback, cursor_x, cursor_y}

  -- The reset of styles and the cursor's position, at the end of both.
  pub cursor : Emulator → TermState → Bytes
  unfolding park cursor_row cursor_column
  cursor emu t = park (cursor_row t (cursor_y emu)) (cursor_column t (cursor_x emu))

  -- The `ANSI` of `snapshotLocked`.
  unfoldable pub snapshot_bytes : Emulator → TermState → Bytes
  unfolding scrollback_lines carriage_returns cursor
  snapshot_bytes emu t =
      scrollback_lines (scrollback emu)
      ++ ((if t.alt then esc ∷ codes "[?1049h" else [])
          ++ (carriage_returns (render emu) ++ (replay t ++ cursor emu t)))

  -- `screenRepaintLocked`
  unfoldable pub screen_repaint : Emulator → TermState → Bytes
  unfolding carriage_returns cursor
  screen_repaint emu t = clear ++ (carriage_returns (render emu) ++ (replay t ++ cursor emu t))
