-- ===== src/Client/Attachment.antt =====
-- client/client.go: an attachment and an event stream, as functions of the bytes that the daemon
-- sends. What goes into a channel is a list; only the first exit code finds room in its channel.
use windrunner.Prelude.{
  ℕ, zero, suc, ◌==◌, false, not, Bytes, List, [], ◌∷◌, Option, none, some, if◌then◌else◌,
}
use windrunner.Prelude.Int.{ℤ}
use windrunner.Json.{Text, JsonError}
use windrunner.Wire.{
  Frame, WireError, ok, err, read_frame, frame_snapshot, frame_output, frame_resize, frame_exited,
  frame_error, frame_event, frame_response,
}
use windrunner.Wire.Payloads.{
  ResizePayload, SnapshotPayload, ExitedPayload, EventPayload, snapshot_fields, no_snapshot,
  resize_fields, no_resize, exited_fields, no_exit, event_fields, no_event, error_fields, no_error,
  unmarshal,
}

-- Exactly one field of a message is set.
pub record Message : Type 0 where
  pub bytes : Bytes
  pub resize : Option ResizePayload
  pub resync : Option SnapshotPayload

abbrev pub output : Bytes → Message
output bytes = record { bytes = bytes; resize = none; resync = none }

abbrev pub resizes : ResizePayload → Message
resizes moved = record { bytes = []; resize = some moved; resync = none }

abbrev pub resyncs : SnapshotPayload → Message
resyncs state = record { bytes = []; resize = none; resync = some state }

-- What `readLoop` puts into the channels until it returns.
pub record Stream : Type 0 where
  pub output : List Message
  pub exited : Option ℤ

abbrev pub no_stream : Stream
no_stream = record { output = []; exited = none }

abbrev pub yields : Message → Stream → Stream
yields message later = record later { output = message ∷ later.output }

pub data AttachError : Type 0 where
  unreadable : WireError → AttachError
  attach_refused : Bytes → AttachError
  unexpected : ℕ → AttachError
  malformed_snapshot : JsonError → AttachError

pub data Attached : Type 0 where
  attached : SnapshotPayload → Bytes → Attached  -- and the bytes behind the snapshot
  not_attached : AttachError → Attached

pub data Subscribed : Type 0 where
  subscribed : Bytes → Subscribed
  not_subscribed : AttachError → Subscribed

module _ (text : Text) where
  unfoldable pub after_resync : SnapshotPayload × Option JsonError → Stream → Stream
  after_resync (state, none) later = yields (resyncs state) later
  after_resync (state, some error) later = no_stream

  unfoldable pub after_resize : ResizePayload × Option JsonError → Stream → Stream
  after_resize (moved, none) later = yields (resizes moved) later
  after_resize (moved, some error) later = later

  unfoldable pub after_exit : ExitedPayload × Option JsonError → Stream → Stream
  after_exit (ended, none) later = record later { exited = some ended.exit_code }
  after_exit (ended, some error) later = later

  -- A frame of `readLoop`, in front of what later ones give.
  unfoldable pub take_frame : Frame → Stream → Stream
  unfolding after_resync after_resize after_exit unmarshal
  take_frame f later =
      if f.frame_type == frame_output
      then yields (output f.payload) later
      else if f.frame_type == frame_snapshot
      then after_resync (unmarshal text false (snapshot_fields text) f.payload no_snapshot) later
      else if f.frame_type == frame_resize
      then after_resize (unmarshal text false resize_fields f.payload no_resize) later
      else if f.frame_type == frame_exited
      then after_exit (unmarshal text false exited_fields f.payload no_exit) later
      else later

  -- `(*Attachment).readLoop`, with fuel for the frames
  unfoldable pub read_loop : ℕ → Bytes → Stream
  unfolding read_frame take_frame
  read_loop zero s = no_stream
  read_loop (suc fuel) s = elim (read_frame s) [
    | err error ↦ no_stream
    | ok (f, rest) ↦ take_frame f (read_loop fuel rest)
  ]

  unfoldable pub opened : SnapshotPayload × Option JsonError → Bytes → Attached
  opened (state, none) rest = attached state rest
  opened (state, some error) rest = not_attached (malformed_snapshot error)

  unfoldable pub first_frame : Frame → Bytes → Attached
  unfolding opened unmarshal
  first_frame f rest =
      if f.frame_type == frame_error
      then not_attached
          (attach_refused (unmarshal text false error_fields f.payload no_error).0.error)
      else if not (f.frame_type == frame_snapshot)
      then not_attached (unexpected f.frame_type)
      else opened (unmarshal text false (snapshot_fields text) f.payload no_snapshot) rest

  -- `AttachWith`, of what the daemon has sent
  unfoldable pub attach : Bytes → Attached
  unfolding read_frame first_frame
  attach s = elim (read_frame s) [
    | err error ↦ not_attached (unreadable error)
    | ok (f, rest) ↦ first_frame f rest
  ]

  -- `Subscribe`, of what the daemon has sent: the bytes behind the ack.
  unfoldable pub subscribe : Bytes → Subscribed
  unfolding read_frame unmarshal
  subscribe s = elim (read_frame s) [
    | err error ↦ not_subscribed (unreadable error)
    | ok (f, rest) ↦
        if f.frame_type == frame_error
        then not_subscribed
            (attach_refused (unmarshal text false error_fields f.payload no_error).0.error)
        else if not (f.frame_type == frame_response)
        then not_subscribed (unexpected f.frame_type)
        else subscribed rest
  ]

  unfoldable pub after_event :
      EventPayload × Option JsonError → List EventPayload → List EventPayload
  after_event (event, none) later = event ∷ later
  after_event (event, some error) later = []

  -- `(*EventStream).readLoop`, with fuel for the frames
  unfoldable pub read_events : ℕ → Bytes → List EventPayload
  unfolding read_frame after_event unmarshal
  read_events zero s = []
  read_events (suc fuel) s = elim (read_frame s) [
    | err error ↦ []
    | ok (f, rest) ↦
        let later = read_events fuel rest in
        if not (f.frame_type == frame_event)
        then []
        else after_event (unmarshal text false event_fields f.payload no_event) later
  ]
