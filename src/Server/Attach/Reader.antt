-- ===== src/Server/Attach/Reader.antt =====
-- server/server.go: the loop of `serveAttach` that reads from the client.
use windrunner.Prelude.{ℕ, zero, suc, Bool, true, false, Bytes, List, [], ◌++◌, Option, none, some}
use windrunner.Json.{Text}
use windrunner.Session.{Session}
use windrunner.Vt.{Vt}
use windrunner.Wire.{Frame, Result, ok, err, read_frame}
use windrunner.Server.{Answers, Effect}
use windrunner.Server.Attach.{attach_round}

-- What surrounds a round: how the session has moved on, and the answers of the system.
pub record AttachTurn (v : Vt) : Type 0 where
  pub meanwhile : Session v → Session v
  pub answers : Answers

-- What `ReadFrame` has read; an error of it is `none`.
abbrev pub frame_of : Result (Frame × Bytes) → Option Frame
frame_of (ok (f, rest)) = some f
frame_of (err error) = none

abbrev pub rest_of : Result (Frame × Bytes) → Bytes
rest_of (ok (f, rest)) = rest
rest_of (err error) = []

-- A round, in front of what later ones give from the session that it leaves.
unfoldable pub goes_on :
    {v : Vt}
    → Session v × List Effect × Bool
    → (Session v → Session v × List Effect)
    → Session v × List Effect
goes_on (s, effects, true) later = ((later s).0, effects ++ (later s).1)
goes_on (s, effects, false) later = (s, effects)

module _ (text : Text) (v : Vt) (turns : ℕ → AttachTurn v) (i : ℕ) where
  -- The loop, with fuel for the frames: the session at its end, and what goes to its PTY.
  unfoldable pub attach_loop : ℕ → ℕ → Session v → Bytes → Session v × List Effect
  unfolding goes_on attach_round read_frame
  attach_loop zero n s stream = (s, [])
  attach_loop (suc fuel) n s stream =
      goes_on
        (attach_round text v (turns n).answers i (frame_of (read_frame stream))
          ((turns n).meanwhile s))
        (λ s'. attach_loop fuel (suc n) s' (rest_of (read_frame stream)))
