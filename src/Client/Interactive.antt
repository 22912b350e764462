-- ===== src/Client/Interactive.antt =====
-- client/interactive.go: the loop of `Interactive` and its goroutine that reads the keyboard, as the
-- steps that they take. Raw mode, and the sizes of the terminal, are the system's.
pub mod Keyboard
use windrunner.Prelude.{
  ℕ, ◌==◌, Bool, true, false, not, Bytes, List, [], ◌∷◌, ◌++◌, Option, none, some, if◌then◌else◌,
}
use windrunner.Prelude.Int.{ℤ}
use windrunner.Client.Attachment.{Message}

pub data InteractiveResult : Type 0 where
  detached session_exited connection_lost : InteractiveResult

-- A chunk from the keyboard: what is sent to the session, and does the goroutine go on.
unfoldable pub until_key : ℕ → Bytes → Bytes × Bool
until_key key [] = ([], true)
until_key key (c ∷ chunk) =
    let (front, goes_on) = until_key key chunk in
    if c == key then ([], false) else (c ∷ front, goes_on)

-- A read that is `until_key` of what it has read, with whether a `Write` of it succeeds: what is
-- handed to `Write`. The goroutine returns behind the key, and behind a `Write` that fails.
unfoldable pub sends : Bytes × Bool → Bool → List Bytes → List Bytes
sends ([], true) written later = later
sends (c ∷ front, true) true later = (c ∷ front) ∷ later
sends (c ∷ front, true) false later = (c ∷ front) ∷ []
sends ([], false) written later = []
sends (c ∷ front, false) written later = (c ∷ front) ∷ []

-- The goroutine on its reads until one fails.
unfoldable pub keyboard : ℕ → List (Bytes × Bool) → List Bytes
unfolding until_key sends
keyboard key [] = []
keyboard key ((chunk, written) ∷ reads) = sends (until_key key chunk) written (keyboard key reads)

abbrev enters : Bytes
enters = 0x1b ∷ b'[' ∷ b'2' ∷ b'J' ∷ 0x1b ∷ b'[' ∷ b'H' ∷ []

abbrev clears : Bytes
clears = 0x1b ∷ b'[' ∷ b'H' ∷ 0x1b ∷ b'[' ∷ b'2' ∷ b'J' ∷ []

-- What is written to the terminal for a message, and for the snapshot at the start.
unfoldable pub painted : Message → Bytes
painted message = elim message.resync [ none ↦ message.bytes | some state ↦ clears ++ state.ansi ]

abbrev pub painted_first : Bytes → Bytes
painted_first ansi = enters ++ ansi

-- A case of the `select`: what is ready, and was picked.
pub data Ready : Type 0 where
  input_done exit : Ready
  winch : Option (ℤ × ℤ) → Ready  -- and the size, where the terminal tells it
  message : Message → Ready
  output_closed : Ready

-- What the loop does: it writes to the terminal, states a size, or returns.
pub data Act : Type 0 where
  writes : Bytes → Act
  states : ℤ → ℤ → Act
  returns : InteractiveResult → Act

sized : Option (ℤ × ℤ) → List Act
sized none = []
sized (some (cols, rows)) = states cols rows ∷ []

unfoldable pub interact : List Ready → List Act
unfolding painted sized
interact [] = []
interact (input_done ∷ rest) = returns detached ∷ []
interact (exit ∷ rest) = returns session_exited ∷ []
interact (winch size ∷ rest) = sized size ++ interact rest
interact (message m ∷ rest) = writes (painted m) ∷ interact rest
interact (output_closed ∷ rest) = returns connection_lost ∷ []
