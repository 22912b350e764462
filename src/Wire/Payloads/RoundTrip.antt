-- ===== src/Wire/Payloads/RoundTrip.antt =====
-- The payloads: what one end marshals is what the other unmarshals.
use windrunner.Prelude.{◌≡◌, ◌$◌, refl, false, none, equal}
use windrunner.Json.{IsAscii, Text}
use windrunner.Json.Struct.{lookup, fold_key}
use windrunner.Wire.Payloads.{
  SnapshotPayload, ResizePayload, ExitedPayload, ErrorPayload, EventPayload, AttachRequest,
  resize_fields, exited_fields, error_fields, event_fields, attach_fields, resize_members,
  exited_members, error_members, event_members, attach_members, no_snapshot, no_resize, no_exit,
  no_error, no_event, no_attach, snapshot_fields, snapshot_members, marshal, unmarshal,
}
use windrunner.Wire.Payloads.Fields.{
  IsInt64, Takes, finds, unmarshal-marshal, takes-nil, takes-int, takes-nonzero, takes-string,
  takes-nonempty, takes-true, takes-bytes,
}

module _ (text : Text) where
  pub unmarshal-resize :
      (r : ResizePayload)
      → IsInt64 r.cols
      → IsInt64 r.rows
      → unmarshal text false resize_fields (marshal text (resize_members r)) no_resize ≡ (r, none)
  unfolding lookup fold_key equal
  unmarshal-resize r c w =
      unmarshal-marshal text false resize_fields (resize_members r) no_resize r
      $ takes-int r.cols (finds refl refl) c
      $ takes-int r.rows (finds refl refl) w takes-nil

  pub takes-snapshot :
      (r : SnapshotPayload)
      → IsInt64 r.cols
      → IsInt64 r.rows
      → Takes false (snapshot_fields text) (snapshot_members text r) no_snapshot r
  unfolding lookup fold_key equal
  takes-snapshot r c w =
      takes-int r.cols (finds refl refl) c
      $ takes-int r.rows (finds refl refl) w
      $ takes-bytes text r.ansi (finds refl refl) takes-nil

  pub unmarshal-snapshot :
      (r : SnapshotPayload)
      → IsInt64 r.cols
      → IsInt64 r.rows
      → unmarshal text false
          (snapshot_fields text)
          (marshal text (snapshot_members text r))
          no_snapshot
        ≡ (r, none)
  unmarshal-snapshot r c w =
      unmarshal-marshal text false (snapshot_fields text) (snapshot_members text r) no_snapshot r
        (takes-snapshot r c w)

  pub unmarshal-exited :
      (r : ExitedPayload)
      → IsInt64 r.exit_code
      → unmarshal text false exited_fields (marshal text (exited_members r)) no_exit ≡ (r, none)
  unfolding lookup fold_key equal
  unmarshal-exited r c =
      unmarshal-marshal text false exited_fields (exited_members r) no_exit r
      $ takes-int r.exit_code (finds refl refl) c takes-nil

  pub unmarshal-error :
      (r : ErrorPayload)
      → IsAscii r.error
      → unmarshal text false error_fields (marshal text (error_members r)) no_error ≡ (r, none)
  unfolding lookup fold_key equal
  unmarshal-error r s =
      unmarshal-marshal text false error_fields (error_members r) no_error r
      $ takes-string r.error (finds refl refl) s takes-nil

  pub unmarshal-event :
      (r : EventPayload)
      → IsAscii r.type
      → IsAscii r.session_id
      → IsAscii r.command
      → IsInt64 r.exit_code
      → unmarshal text false event_fields (marshal text (event_members r)) no_event ≡ (r, none)
  unfolding lookup fold_key equal
  unmarshal-event r t i c z =
      unmarshal-marshal text false event_fields (event_members r) no_event r
      $ takes-string r.type (finds refl refl) t
      $ takes-string r.session_id (finds refl refl) i
      $ takes-nonempty r.command (finds refl refl) c refl
      $ takes-nonzero r.exit_code (finds refl refl) z refl takes-nil

  pub unmarshal-attach :
      (r : AttachRequest)
      → IsAscii r.id
      → IsInt64 r.buffer
      → IsInt64 r.cols
      → IsInt64 r.rows
      → unmarshal text false attach_fields (marshal text (attach_members r)) no_attach ≡ (r, none)
  unfolding lookup fold_key equal
  unmarshal-attach r i b c w =
      unmarshal-marshal text false attach_fields (attach_members r) no_attach r
      $ takes-string r.id (finds refl refl) i
      $ takes-nonzero r.buffer (finds refl refl) b refl
      $ takes-true r.resync (finds refl refl) refl
      $ takes-nonzero r.cols (finds refl refl) c refl
      $ takes-nonzero r.rows (finds refl refl) w refl takes-nil
