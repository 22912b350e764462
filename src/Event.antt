-- ===== src/Event.antt =====
-- engine.go: EventType and Event.
use windrunner.Prelude.{Bytes, []}
use windrunner.Prelude.Int.{ℤ}

pub data EventType : Type 0 where
  spawned exited removed idle busy : EventType

pub record Event : Type 0 where
  pub type : EventType
  pub session_id : Bytes
  pub command : Bytes  -- of spawned
  pub exit_code : ℤ  -- of exited

-- `Event{Type: kind, SessionID: id}`
abbrev pub plain_event : EventType → Bytes → Event
plain_event kind id = record { type = kind; session_id = id; command = []; exit_code = ℤ.pos 0 }
