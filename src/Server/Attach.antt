-- ===== src/Server/Attach.antt =====
-- server/server.go: `serveAttach`, its start, the goroutine that writes what the subscription yields,
-- and a round of the loop that reads from the client. `serveSubscribe` is there as well.
pub mod Reader
use windrunner.Prelude.{
  ℕ, ◌==◌, Bool, true, false, not, Bytes, List, [], ◌∷◌, ◌++◌, Option, none, some, codes, ltb,
  length, take, if◌then◌else◌,
}
use windrunner.Prelude.Int.{ℤ}
use windrunner.Json.{Text, JsonError}
use windrunner.Event.{Event, EventType, spawned, exited, removed, idle, busy}
use windrunner.Hub.{Message, Snapshot, Resize}
use windrunner.Session.{Session}
use windrunner.Viewers.{AttachOptions, attach_with, resize_viewer, detach}
use windrunner.Engine.{Engine, find}
use windrunner.Vt.{Vt}
use windrunner.Wire.{
  Frame, max_frame, frame_snapshot, frame_output, frame_input, frame_resize, frame_exited,
  frame_event,
}
use windrunner.Wire.Payloads.{
  AttachRequest, ResizePayload, EventPayload, snapshot_members, resize_members, resize_fields,
  exited_members, event_members, no_resize, marshal, unmarshal,
}
use windrunner.Server.{Answers, Effect, pty_write, succeeded, snapshot_payload, store}
use windrunner.Server.Connection.{response_frame, error_frame}

abbrev pub resize_payload : Resize → ResizePayload
resize_payload moved = record { cols = moved.cols; rows = moved.rows }

abbrev pub event_type : EventType → Bytes
event_type spawned = codes "spawned"
event_type exited = codes "exited"
event_type removed = codes "removed"
event_type idle = codes "idle"
event_type busy = codes "busy"

abbrev pub event_payload : Event → EventPayload
event_payload event = record {
  type = event_type event.type;
  session_id = event.session_id;
  command = event.command;
  exit_code = event.exit_code;
}

-- Frames are written in order until one is too large, which ends the connection.
unfoldable pub write_all : List Frame → List Frame → List Frame
write_all [] later = later
write_all (f ∷ fs) later =
    let rest = write_all fs later in if ltb max_frame (length f.payload) then [] else f ∷ rest

module _ (text : Text) where
  abbrev pub snapshot_frame : Snapshot → Frame
  snapshot_frame state = record {
    frame_type = frame_snapshot;
    payload = marshal text (snapshot_members text (snapshot_payload state));
  }

  abbrev pub resize_frame : Resize → Frame
  resize_frame moved = record {
    frame_type = frame_resize;
    payload = marshal text (resize_members (resize_payload moved));
  }

  abbrev pub output_frame : Bytes → Frame
  output_frame bytes = record { frame_type = frame_output; payload = bytes }

  abbrev pub exited_frame : ℤ → Frame
  exited_frame code = record {
    frame_type = frame_exited;
    payload = marshal text (exited_members (record { exit_code = code }));
  }

  abbrev pub event_frame : Event → Frame
  event_frame event = record {
    frame_type = frame_event;
    payload = marshal text (event_members (event_payload event));
  }

  -- A message of the subscription: state, or a size in front of its repaint, or output.
  abbrev pub size_frames : Option Resize → List Frame
  size_frames none = []
  size_frames (some moved) = resize_frame moved ∷ []

  unfoldable pub message_frames : Message → List Frame
  message_frames message = elim message.resync [
    | none ↦ size_frames message.resize ++ output_frame message.bytes ∷ []
    | some state ↦ snapshot_frame state ∷ []
  ]

  -- The goroutine of `serveAttach`: what the subscription yields until its channel is closed, and
  -- then the exit code, unless the client has gone.
  unfoldable pub pump : List Message → Option ℤ → List Frame
  unfolding write_all message_frames
  pump [] none = []
  pump [] (some code) = write_all (exited_frame code ∷ []) []
  pump (message ∷ messages) code = write_all (message_frames message) (pump messages code)

  -- `serveSubscribe`: the ack, the events until the channel is closed, and how it was closed.
  unfoldable pub feed : List Event → Bool → List Frame
  unfolding write_all
  feed [] lagged =
      if lagged
      then error_frame text (codes "event subscriber lagged; subscribe again") ∷ []
      else []
  feed (event ∷ events) lagged = write_all (event_frame event ∷ []) (feed events lagged)

  abbrev pub serve_subscribe : List Event → Bool → List Frame
  serve_subscribe events lagged = response_frame text succeeded ∷ feed events lagged

  module _ (v : Vt) where
    abbrev pub attach_options : AttachRequest → AttachOptions
    attach_options r = record { buffer = r.buffer; resync = r.resync; cols = r.cols; rows = r.rows }

    attached : AttachRequest → Engine v → Session v × Snapshot → Engine v × List Frame
    unfolding write_all
    attached r e (s, state) = (store r.id s e, write_all (snapshot_frame state ∷ []) [])

    -- The start of `serveAttach`; the new subscription is number `i`.
    unfoldable pub serve_attach : Bool → ℕ → AttachRequest → Engine v → Engine v × List Frame
    unfolding find attach_with attached
    serve_attach sized i r e = elim (find v r.id e.sessions) [
      | none ↦ (e, error_frame text (codes "no such session: " ++ r.id) ∷ [])
      | some s ↦ attached r e (attach_with v sized i (attach_options r) s)
    ]

    unfoldable pub moved_by : Bool → ℕ → Session v → ResizePayload × Option JsonError → Session v
    unfolding resize_viewer
    moved_by sized i s (moved, none) = (resize_viewer v sized i moved.cols moved.rows s).0
    moved_by sized i s (moved, some error) = s

    -- A round of the loop of `serveAttach`: the session, what goes to its PTY, and does the loop go
    -- on. A frame that is `none` is a read that has failed.
    unfoldable pub attach_round :
        Answers → ℕ → Option Frame → Session v → Session v × List Effect × Bool
    unfolding moved_by unmarshal
    attach_round a i none s = (detach v i s, [], false)
    attach_round a i (some f) s =
        if f.frame_type == frame_input
        then (if not a.written
            then (detach v i s, pty_write s.id (take a.accepted f.payload) ∷ [], false)
            else (s, pty_write s.id f.payload ∷ [], true))
        else if f.frame_type == frame_resize
        then (
          moved_by a.sized i s (unmarshal text false resize_fields f.payload no_resize),
          [],
          true,
        )
        else (s, [], true)
