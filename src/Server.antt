-- ===== src/Server.antt =====
-- server/server.go: `handle`, which carries out one request on the engine. The sessions of the
-- registry are values here, so what a method does to a session is put back into the registry. What
-- the system answers is an argument, and what goes to the system is an effect.
pub mod Handle
pub mod Requests
pub mod Connection
pub mod Loop
pub mod Attach
pub mod Decoding
pub mod Input
pub mod Metadata
pub mod Replies
use windrunner.Prelude.{
  ℕ, ◌+◌, ◌-◌, ◌*◌, ◌%◌, ◌^◌, Bool, true, false, not, Bytes, List, [], ◌∷◌, ◌++◌, Option, none,
  some, codes, equal, ltb, length, take, map, if◌then◌else◌, ◌⊎◌, inl, inr,
}
use windrunner.Prelude.Decimal.{decimal}
use windrunner.Prelude.Int.{ℤ, pos, negsuc}
use windrunner.Json.{Text}
use windrunner.Hub.{Snapshot}
use windrunner.Session
use windrunner.Session.{
  Session, SpawnSpec, Error, no_command, start_failed, engine_closed, resize_failed, no_size,
  snapshot, set_metadata, set_metadata_if,
}
use windrunner.Viewers
use windrunner.Viewers.{kill_signals}
use windrunner.Engine.{Engine, find, spawn, remove_session}
use windrunner.Engine.Sessions.{sorted_sessions}
use windrunner.Vt.{Vt}
use windrunner.Wire.Payloads.{SnapshotPayload}
use windrunner.Wire.Payloads.Requests.{Request, list_of}
use windrunner.Wire.Payloads.Responses.{SessionInfo, Response, no_response}

-- The answers of the system while a request is carried out. Where a call fails, `failure` is the text
-- of its error.
pub record Answers : Type 0 where
  pub new_id : Option Bytes
  pub environ : List Bytes
  pub started : Bool
  pub sized : Bool
  pub signalled : Bool
  pub written : Bool
  pub accepted : ℕ  -- bytes that a failing write has written
  pub failure : Bytes

-- What goes to a session's process, its PTY, or the audit log.
pub data Effect : Type 0 where
  sigkill hang_up : Bytes → Effect
  pty_write : Bytes → Bytes → Effect
  audit_line : Bytes → Effect

pub record Outcome (v : Vt) : Type 0 where
  pub engine : Engine v
  pub response : Response
  pub effects : List Effect

-- The verb %d of an int.
abbrev pub print_ℤ : ℤ → Bytes
print_ℤ (pos n) = decimal n
print_ℤ (negsuc n) = b'-' ∷ decimal (n + 1)

-- `error.Error()` of what the engine and its sessions return.
unfoldable pub error_text : Bytes → Bytes → Error → Bytes
error_text command failure no_command = codes "windrunner: spawn needs a command"
error_text command failure start_failed =
    codes "windrunner: start " ++ (command ++ (codes ": " ++ failure))
error_text command failure engine_closed = codes "windrunner: engine is closed"
error_text command failure resize_failed = codes "windrunner: resize pty: " ++ failure
error_text command failure (no_size cols rows) =
    codes "windrunner: "
    ++ (print_ℤ cols ++ (b'x' ∷ print_ℤ rows ++ codes " is no size for a terminal"))

-- An int64 by its bits.
abbrev pub signed : ℕ → ℤ
signed n = if ltb n (2 ^ 63) then pos n else negsuc (2 ^ 64 - 1 - n)

-- `time.Duration(ms) * time.Millisecond`, in nanoseconds
unfoldable pub milliseconds : ℤ → ℤ
milliseconds (pos n) = signed (n * 1000000 % 2 ^ 64)
milliseconds (negsuc n) = signed ((2 ^ 64 - (n + 1) * 1000000 % 2 ^ 64) % 2 ^ 64)

unfoldable pub spawn_spec : Request → SpawnSpec
unfolding milliseconds
spawn_spec r = record {
  command = r.command;
  args = list_of r.args;
  dir = r.dir;
  env = r.env;
  env_override = list_of r.env_override;
  cols = r.cols;
  rows = r.rows;
  scrollback = r.scrollback;
  idle_after = milliseconds r.idle_after_ms;
  peer = r.peer;
  metadata = r.metadata;
}

abbrev pub audit_text_limit : ℕ
audit_text_limit = 1024

-- The text that goes between quotes, and what counts the rest.
abbrev pub audited : Bytes → Bytes
audited text = if ltb audit_text_limit (length text) then take audit_text_limit text else text

abbrev pub truncated : Bytes → Bytes
truncated text =
    if ltb audit_text_limit (length text)
    then codes " +" ++ (decimal (length text - audit_text_limit) ++ codes " bytes")
    else []

-- `auditSend`, where there is a log.
unfoldable pub audit_send : Text → Request → Bytes → Bytes
audit_send text r outcome =
    codes "send from="
    ++ ((if equal r.from [] then codes "unattributed" else r.from)
        ++ (codes " to="
            ++ (r.id
                ++ (b' ' ∷ outcome
                    ++ (codes " ("
                        ++ (decimal (length r.bytes)
                            ++ (codes " bytes): "
                                ++ (Text.quote text (audited r.bytes) ++ truncated r.bytes))))))))

abbrev pub failed : Bytes → Response
failed error = record no_response { error = error }

abbrev pub succeeded : Response
succeeded = record no_response { ok = true }

abbrev pub unknown_session : Bytes → Response
unknown_session id = failed (codes "no such session: " ++ id)

abbrev pub snapshot_payload : Snapshot → SnapshotPayload
snapshot_payload state = record { cols = state.cols; rows = state.rows; ansi = state.ansi }

module _ {v : Vt} where
  -- The session of a registry has changed.
  unfoldable pub replace : Bytes → Session v → List (Bytes × Session v) → List (Bytes × Session v)
  replace id s [] = []
  replace id s ((key, old) ∷ sessions) =
      if equal key id then (key, s) ∷ sessions else (key, old) ∷ replace id s sessions

  abbrev pub store : Bytes → Session v → Engine v → Engine v
  store id s e = record e { sessions = replace id s e.sessions }

  unfoldable pub describe : Session v → SessionInfo
  describe s = record {
    id = s.id;
    command = [];
    alive = not s.exited;
    exit_code = s.exit_code;
    cols = s.cols;
    rows = s.rows;
    title = s.title;
    peer = s.peer;
    metadata = s.metadata;
    revision = s.revision;
  }

  abbrev pub describe_each : List (Session v) → List SessionInfo
  describe_each [] = []
  describe_each (s ∷ sessions) = describe s ∷ describe_each sessions

  abbrev pub described : Session v → Response
  described s = record succeeded { session = some (describe s) }

  abbrev pub outcome : Engine v → Response → Outcome v
  outcome e response = record { engine = e; response = response; effects = [] }
