-- ===== src/Boundary/Sequences.antt =====
-- Escape sequences as ECMA-48 and xterm describe them, and the scanner of `completeBoundary` against
-- that.
use windrunner.Prelude.{ℕ, ◌≤◌, ◌<◌, ◌≡◌, ◌≢◌, ◌⊎◌, Bytes, [], ◌∷◌, arith}
use windrunner.Boundary.{ScanState, ground_state, csi, str, str_escape, scan_byte}
use windrunner.Boundary
use windrunner.Boundary.Scan.{scan}

-- Where a terminal is in its input: in text, behind the ESC of a sequence, in a control sequence, in
-- a control string, or behind an ESC in one.
pub data Place : Type 0 where
  text escape control string string_escape : Place

-- Bytes between ESC and the end of a short sequence.
abbrev IsIntermediate : ℕ → Type 0
IsIntermediate b = (0x20 ≤ b) × (b ≤ 0x2f)

-- What ends a control sequence.
abbrev IsFinal : ℕ → Type 0
IsFinal b = (0x40 ≤ b) × (b ≤ 0x7e)

-- DCS, SOS, OSC, PM and APC in seven bits.
abbrev IsOpener : ℕ → Type 0
IsOpener b = (b ≡ b'P') ⊎ (b ≡ b'X') ⊎ (b ≡ b']') ⊎ (b ≡ b'^') ⊎ (b ≡ b'_')

pub data Moves : Place → ℕ → Place → Type 0 where
  plain : {b : ℕ} → b ≢ 0x1b → Moves text b text
  begins : {b : ℕ} → b ≡ 0x1b → Moves text b escape
  continues : {b : ℕ} → IsIntermediate b → Moves escape b escape
  introduces : {b : ℕ} → b ≡ b'[' → Moves escape b control
  opens : {b : ℕ} → IsOpener b → Moves escape b string
  short : {b : ℕ} → b ≢ b'[' → (IsOpener b → ⊥) → (IsIntermediate b → ⊥) → Moves escape b text
  parameter : {b : ℕ} → (b < 0x40) ⊎ (0x7e < b) → Moves control b control
  final : {b : ℕ} → IsFinal b → Moves control b text
  bell : {b : ℕ} → b ≡ 0x07 → Moves string b text
  escapes : {b : ℕ} → b ≡ 0x1b → Moves string b string_escape
  content : {b : ℕ} → b ≢ 0x07 → b ≢ 0x1b → Moves string b string
  terminates : {b : ℕ} → b ≡ b'\\' → Moves string_escape b text
  resumes : {b : ℕ} → b ≢ b'\\' → Moves string_escape b string

-- Through some bytes.
pub data Reads : Place → Bytes → Place → Type 0 where
  here : {p : Place} → Reads p [] p
  then : {b : ℕ} {s : Bytes} {p q r : Place} → Moves p b q → Reads q s r → Reads p (b ∷ s) r

abbrev pub place : ScanState → Place
place ground_state = text
place Boundary.escape = escape
place csi = control
place str = string
place str_escape = string_escape

scan_byte-Moves : (state : ScanState) (b : ℕ) → Moves (place state) b (place (scan_byte state b))
unfolding scan_byte
scan_byte-Moves state b = grind (
  arith, plain, begins, continues, introduces, opens, short, parameter, final, bell, escapes,
  content, terminates, resumes,
)

pub scan-Reads : (state : ScanState) (s : Bytes) → Reads (place state) s (place (scan state s))
scan-Reads state [] = here
scan-Reads state (b ∷ s) = then (scan_byte-Moves state b) (scan-Reads (scan_byte state b) s)
