-- ===== src/Client.antt =====
-- client/client.go: `call` and the calls that are made of it. A call writes one frame to the
-- connection and reads one; what can be read depends on what has been written.
pub mod Remote
pub mod Calls
pub mod Attachment
pub mod Streams
pub mod Typing
pub mod Events
pub mod Daemon
pub mod Replica
pub mod Interactive
use windrunner.Prelude.{
  ℕ, ◌==◌, Bool, true, false, not, ◌&&◌, Bytes, List, [], Option, none, some, codes, if◌then◌else◌,
}
use windrunner.Prelude.Int.{ℤ}
use windrunner.Json.{Text, JsonError}
use windrunner.Wire.{
  Frame, WireError, Result, ok, err, Writer, write_frame, read_frame, frame_control, frame_error,
}
use windrunner.Wire.Payloads.{
  ErrorPayload, SnapshotPayload, no_error, error_fields, marshal, unmarshal,
}
use windrunner.Wire.Payloads.Requests.{Request, no_request, request_members}
use windrunner.Wire.Payloads.Responses.{SessionInfo, Response, no_response, response_fields}

pub data CallError : Type 0 where
  write_failed read_failed : WireError → CallError
  malformed_response : JsonError → CallError
  refused : Bytes → CallError  -- what the daemon says, behind "windrunner: "

abbrev pub Called : Type 0
Called = Response × Option CallError

-- The end of `call`.
abbrev pub judged : Response → Called
judged response =
    if not response.ok then (response, some (refused response.error)) else (response, none)

module _ (text : Text) where
  unfoldable pub answered : Response × Option JsonError → Called
  answered (response, some error) = (no_response, some (malformed_response error))
  answered (response, none) = judged response

  -- `call` behind `ReadFrame`
  unfoldable pub received : Result (Frame × Bytes) → Called
  unfolding answered unmarshal
  received (err error) = (no_response, some (read_failed error))
  received (ok (f, rest)) =
      if f.frame_type == frame_error
      then (
        no_response,
        some (refused (unmarshal text false error_fields f.payload no_error).0.error),
      )
      else answered (unmarshal text false (response_fields text) f.payload no_response)

  module _ (w : Writer) (incoming : Writer.State w → Bytes) where
    unfoldable pub sent : Writer.State w × Option WireError → Called
    unfolding received read_frame
    sent (s, some error) = (no_response, some (write_failed error))
    sent (s, none) = received (read_frame (incoming s))

    -- `call`
    unfoldable pub call : Writer.State w → Request → Called
    unfolding sent write_frame
    call s r = sent (write_frame w s frame_control (marshal text (request_members text r)))

-- What a call returns. A dereference of nil is a panic.
pub data Reply {ℓ} (A : Type ℓ) : Type ℓ where
  value : A → Reply A
  failure : CallError → Reply A
  conflict : SessionInfo → Reply A
  nil_panic : Reply A

abbrev pub deref {ℓ} : {A : Type ℓ} → Option A → Reply A
deref none = nil_panic
deref (some a) = value a

unfoldable pub session_of : Called → Reply SessionInfo
session_of (response, some error) = failure error
session_of (response, none) = deref response.session

unfoldable pub sessions_of : Called → Reply (List SessionInfo)
sessions_of (response, some error) = failure error
sessions_of (response, none) = value response.sessions

unfoldable pub unless_conflict : Called → Reply SessionInfo
unfolding session_of
unless_conflict (response, error) = elim response.session [
  | none ↦ session_of (response, error)
  | some current ↦ if response.conflict then conflict current else session_of (response, error)
]

unfoldable pub snapshot_of : Called → Reply SnapshotPayload
snapshot_of (response, some error) = failure error
snapshot_of (response, none) = deref response.snapshot

abbrev pub conditional_request : Bytes → List (Bytes × Bytes) → ℕ → Request
conditional_request id metadata revision = record no_request {
  op = codes "set_metadata";
  id = id;
  metadata = metadata;
  if_revision = some revision;
}

-- The calls, over a connection that answers with `ask`.
module _ (ask : Request → Called) where
  -- `Spawn`
  unfoldable pub spawn : Request → Reply SessionInfo
  unfolding session_of
  spawn r = session_of (ask (record r { op = codes "spawn" }))

  -- `List`
  unfoldable pub list : Reply (List SessionInfo)
  unfolding sessions_of
  list = sessions_of (ask (record no_request { op = codes "list" }))

  -- `Info`
  unfoldable pub info : Bytes → Reply SessionInfo
  unfolding session_of
  info id = session_of (ask (record no_request { op = codes "info"; id = id }))

  -- `Kill`, `Remove`, `Resize`
  abbrev pub kill : Bytes → Option CallError
  kill id = (ask (record no_request { op = codes "kill"; id = id })).1

  abbrev pub remove : Bytes → Option CallError
  remove id = (ask (record no_request { op = codes "remove"; id = id })).1

  abbrev pub resize : Bytes → ℤ → ℤ → Option CallError
  resize id cols rows =
      (ask (record no_request { op = codes "resize"; id = id; cols = cols; rows = rows })).1

  -- `SetMetadata`
  abbrev pub set_metadata : Bytes → List (Bytes × Bytes) → Option CallError
  set_metadata id metadata =
      (ask (record no_request { op = codes "set_metadata"; id = id; metadata = metadata })).1

  -- `SetMetadataIf`
  unfoldable pub set_metadata_if : Bytes → List (Bytes × Bytes) → ℕ → Reply SessionInfo
  unfolding unless_conflict
  set_metadata_if id metadata revision =
      unless_conflict (ask (conditional_request id metadata revision))

  -- `Send`, and `Input`, which says nothing of the sender
  abbrev pub send : Bytes → Bytes → Bytes → Option CallError
  send id bytes from =
      (ask (record no_request { op = codes "input"; id = id; bytes = bytes; from = from })).1

  abbrev pub input : Bytes → Bytes → Option CallError
  input id bytes = send id bytes []

  -- `Snapshot`
  unfoldable pub snapshot : Bytes → Reply SnapshotPayload
  unfolding snapshot_of
  snapshot id = snapshot_of (ask (record no_request { op = codes "snapshot"; id = id }))
