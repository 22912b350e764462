-- ===== src/Screen/Tracked.antt =====
-- What a terminal that is sent a snapshot or a repaint makes of the modes and margins.
use windrunner.Prelude.{
  ℕ, ◌+◌, ◌^◌, ◌<◌, ◌≡◌, refl, sym, ap, subst, ◌∙◌, true, Bytes, [], ◌∷◌, ◌++◌, append-nil, codes,
  if◌then◌else◌, arith,
}
use windrunner.Prelude.Decimal.{decimal, print_int, print_int-decimal}
use windrunner.Screen.{
  scrollback_lines, carriage_returns, cursor_row, cursor_column, park, cursor, clear,
  snapshot_bytes, screen_repaint,
}
use windrunner.TermState.Replay.{IsWellFormed, observe-replay-on, observe-alt}
use windrunner.TermState.Sequences.{observe-span}
use windrunner.TermState.{
  TermState, initial, esc, apply, csi_byte, observe, observe_from, flag, span, replay,
}
use windrunner.Vt.{Vt}

-- Bytes that change no mode and no margin: text and styles are.
abbrev pub IsQuiet : Bytes → Type 0
IsQuiet bytes =
    (t : TermState) (rest : Bytes) → observe_from 0 t (bytes ++ rest) ≡ observe_from 0 t rest

reset-IsQuiet : IsQuiet (esc ∷ codes "[0m")
unfolding observe_from apply csi_byte
reset-IsQuiet t rest = refl

pub alt_flag : esc ∷ codes "[?1049h" ≡ flag 1049 true
unfolding flag print_int decimal
alt_flag = refl

-- The clear in front of a repaint lifts the margins of rows.
pub observe-clear :
    (t : TermState) (rest : Bytes)
    → observe_from 0 t (clear ++ rest) ≡ observe_from 0 (record t { top = 0; bottom = 0 }) rest
unfolding observe_from apply csi_byte
observe-clear t rest = refl

-- `CUP` moves the cursor only.
position-IsQuiet :
    (row column : ℕ) → row < 2 ^ 63 → column < 2 ^ 63 → IsQuiet (span row column b'H')
unfolding apply
position-IsQuiet row column fr fc t rest =
    observe-span row column b'H' rest t fr fc (omega arith) (omega arith)
    ∙ ap (λ (s : TermState). observe_from 0 s rest) (ground arith)

positioned : ℕ → ℕ → Bytes
positioned row column = esc ∷ b'[' ∷ (decimal row ++ b';' ∷ (decimal column ++ b'H' ∷ []))

positioned-IsQuiet :
    (row column : ℕ) → row < 2 ^ 63 → column < 2 ^ 63 → IsQuiet (positioned row column)
unfolding positioned span
positioned-IsQuiet row column fr fc = subst IsQuiet same (position-IsQuiet row column fr fc)
  where
    same : span row column b'H' ≡ positioned row column
    same = rw (print_int-decimal row fr, print_int-decimal column fc) refl

park-IsQuiet : (row column : ℕ) → row < 2 ^ 63 → column < 2 ^ 63 → IsQuiet (park row column)
unfolding park positioned
park-IsQuiet row column fr fc t rest =
    reset-IsQuiet t (positioned row column ++ rest) ∙ positioned-IsQuiet row column fr fc t rest

module _ (v : Vt) (emu : Vt.Emulator v) (t : TermState) where
  -- The cursor stands where its row and column, counted from 1, are numbers of a Go int.
  abbrev pub CursorFits : Type 0
  CursorFits = (Vt.cursor_y v emu + 1 < 2 ^ 63) × (Vt.cursor_x v emu + 1 < 2 ^ 63)

  pub cursor-IsQuiet : CursorFits → IsQuiet (cursor v emu t)
  unfolding cursor cursor_row cursor_column
  cursor-IsQuiet fits =
      park-IsQuiet (cursor_row t (Vt.cursor_y v emu)) (cursor_column t (Vt.cursor_x v emu))
        (ground (arith, fits)) (ground (arith, fits))

  -- For a well-formed tracked state, a cursor whose row and column are numbers of a Go int, and
  -- where what the emulator renders of screen and scrollback changes no mode and no margin, a fresh
  -- terminal that is sent the bytes of snapshotLocked is in just the modes and margins that the
  -- session has tracked.
  pub observe-snapshot_bytes :
      IsWellFormed t
      → CursorFits
      → IsQuiet (scrollback_lines (Vt.scrollback v emu))
      → IsQuiet (carriage_returns (Vt.render v emu))
      → observe initial (snapshot_bytes v emu t) ≡ t
  unfolding observe snapshot_bytes observe_from
  observe-snapshot_bytes w fits history screen =
      let tail = carriage_returns (Vt.render v emu) ++ (replay t ++ cursor v emu t) in
      let fresh : TermState = record initial { alt = t.alt } in
      history initial ((if t.alt then esc ∷ codes "[?1049h" else []) ++ tail)
      ∙ ap (λ (f : Bytes). observe_from 0 initial ((if t.alt then f else []) ++ tail)) alt_flag
      ∙ observe-alt t.alt tail
      ∙ screen fresh (replay t ++ cursor v emu t)
      ∙ observe-replay-on fresh t (cursor v emu t) w
      ∙ ap (λ (s : TermState). observe_from 0 s (cursor v emu t)) (ground (arith, w.no_columns))
      ∙ ap (observe_from 0 t) (sym (append-nil (cursor v emu t)))
      ∙ cursor-IsQuiet fits t []

  -- For a well-formed tracked state, a cursor whose row and column are numbers of a Go int, and
  -- where what the emulator renders of the screen changes no mode and no margin, a terminal in the
  -- modes and margins that the session has tracked is in them still behind the bytes of
  -- screenRepaintLocked, which lift the margins to paint.
  pub observe-screen_repaint :
      IsWellFormed t
      → CursorFits
      → IsQuiet (carriage_returns (Vt.render v emu))
      → observe t (screen_repaint v emu t) ≡ t
  unfolding observe screen_repaint observe_from
  observe-screen_repaint w fits screen =
      let lifted = record t { top = 0; bottom = 0 } in
      observe-clear t (carriage_returns (Vt.render v emu) ++ (replay t ++ cursor v emu t))
      ∙ screen lifted (replay t ++ cursor v emu t)
      ∙ observe-replay-on lifted t (cursor v emu t) w
      ∙ ap (λ (s : TermState). observe_from 0 s (cursor v emu t))
          (ground (arith, w.rows, w.no_columns))
      ∙ ap (observe_from 0 t) (sym (append-nil (cursor v emu t)))
      ∙ cursor-IsQuiet fits t []
