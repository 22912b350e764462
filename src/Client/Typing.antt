-- ===== src/Client/Typing.antt =====
-- client/client.go: what a viewer sends over its attachment (`(*Attachment).Write` and `Resize`),
-- against the loop of server/server.go that reads it.
use windrunner.Prelude.{
  ℕ, zero, suc, ◌<◌, ◌≡◌, refl, ap, ◌∙◌, false, true, Bytes, List, [], ◌∷◌, ◌++◌, some, All, Bool,
  if◌then◌else◌, take, length, arith,
}
use windrunner.Json.{Text}
use windrunner.Session.{Session}
use windrunner.Viewers.{resize_viewer, detach}
use windrunner.Vt.{Vt}
use windrunner.Wire.{Frame, Result, frame_input, frame_resize, read_frame, read_full}
use windrunner.Wire.Payloads.{ResizePayload, resize_members, marshal}
use windrunner.Wire.Payloads.RoundTrip.{unmarshal-resize}
use windrunner.Wire.RoundTrip.{Fits, encodings, read_frame-encoding}
use windrunner.Server.{Answers, Effect, pty_write}
use windrunner.Server.Attach.{attach_round, moved_by}
use windrunner.Server.Attach.Reader.{AttachTurn, attach_loop, goes_on, frame_of, rest_of}
use windrunner.Client.Streams.{IsSize}

-- A call of `Write` or of `Resize`.
pub data Gesture : Type 0 where
  types : Bytes → Gesture
  moves : ResizePayload → Gesture

abbrev pub gesture_frame : Text → Gesture → Frame
gesture_frame text (types bytes) = record { frame_type = frame_input; payload = bytes }
gesture_frame text (moves size) = record {
  frame_type = frame_resize;
  payload = marshal text (resize_members size);
}

abbrev pub gesture_frames : Text → List Gesture → List Frame
gesture_frames text [] = []
gesture_frames text (g ∷ gs) = gesture_frame text g ∷ gesture_frames text gs

abbrev pub IsGoSize : Gesture → Type 0
IsGoSize (types bytes) = Unit {0}
IsGoSize (moves size) = IsSize size.cols size.rows

-- A gesture whose size is of Go ints and whose frame is within the limit.
pub record IsCarriedGesture (text : Text) (g : Gesture) : Type 0 where
  pub size : IsGoSize g
  pub fits : Fits (gesture_frame text g)

module _ (v : Vt) (turns : ℕ → AttachTurn v) (i : ℕ) where
  -- What a gesture does to the session, what it writes to the PTY, and whether the viewer stays: a
  -- failing write ends it.
  unfoldable pub done_by : Answers → Gesture → Session v → Session v × List Effect × Bool
  unfolding resize_viewer
  done_by a (types bytes) s =
      if a.written
      then (s, pty_write s.id bytes ∷ [], true)
      else (detach v i s, pty_write s.id (take a.accepted bytes) ∷ [], false)
  done_by a (moves size) s = ((resize_viewer v a.sized i size.cols size.rows s).0, [], true)

  -- One gesture after the other, and then the end of the viewer.
  unfoldable pub carried_out : ℕ → List Gesture → Session v → Session v × List Effect
  unfolding done_by goes_on
  carried_out n [] s = (detach v i ((turns n).meanwhile s), [])
  carried_out n (g ∷ gs) s =
      goes_on (done_by (turns n).answers g ((turns n).meanwhile s))
        (λ s'. carried_out (suc n) gs s')

module _ (text : Text) (v : Vt) (turns : ℕ → AttachTurn v) (i : ℕ) where
  attach_round-gesture :
      (a : Answers) (g : Gesture) (s : Session v)
      → IsCarriedGesture text g
      → attach_round text v a i (some (gesture_frame text g)) s ≡ done_by v turns i a g s
  unfolding attach_round done_by
  attach_round-gesture a (types bytes) s c = ground arith
  attach_round-gesture a (moves size) s c =
      ap (λ p. (moved_by text v a.sized i s p, [], true))
        (unmarshal-resize text size c.size.0 c.size.1)

  goes_on-later :
      (round : Session v × List Effect × Bool) (later later' : Session v → Session v × List Effect)
      → ((s : Session v) → later s ≡ later' s)
      → goes_on round later ≡ goes_on round later'
  unfolding goes_on
  goes_on-later (s, effects, true) later later' same =
      ap (λ (rest : Session v × List Effect). (rest.0, effects ++ rest.1)) (same s)
  goes_on-later (s, effects, false) later later' same = refl

  -- Where a client sends any calls of Write and Resize over its attachment and then hangs up, the
  -- loop of serveAttach, which reads the frames of them, does to the session and its PTY what the
  -- calls ask for, one after the other, with the answers of the system in each round and however
  -- the session moves on in between, up to a write that fails or to the end, and then ends the
  -- viewer, where sizes are Go ints and each frame is within the limit.
  pub attach_loop-gestures :
      (fuel n : ℕ) (gs : List Gesture) (s : Session v)
      → All (IsCarriedGesture text) gs
      → length gs < fuel
      → attach_loop text v turns i fuel n s (encodings (gesture_frames text gs))
        ≡ carried_out v turns i n gs s
  unfolding attach_loop carried_out goes_on attach_round read_frame read_full
  attach_loop-gestures zero n gs s c enough = absurd (omega arith)
  attach_loop-gestures (suc fuel) n [] s c enough = refl
  attach_loop-gestures (suc fuel) n (g ∷ gs) s c enough =
      ap
        (λ (r : Result (Frame × Bytes)).
          goes_on (attach_round text v (turns n).answers i (frame_of r) ((turns n).meanwhile s))
            (λ t. attach_loop text v turns i fuel (suc n) t (rest_of r)))
        (read_frame-encoding (gesture_frame text g) (encodings (gesture_frames text gs)) c.0.fits)
      ∙ ap
          (λ round.
            goes_on round
              (λ t. attach_loop text v turns i fuel (suc n) t (encodings (gesture_frames text gs))))
          (attach_round-gesture (turns n).answers g ((turns n).meanwhile s) c.0)
      ∙ goes_on-later (done_by v turns i (turns n).answers g ((turns n).meanwhile s)) _ _
          (λ t. attach_loop-gestures fuel (suc n) gs t c.1 (omega arith))
