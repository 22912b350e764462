-- ===== src/Session.antt =====
-- session.go: Session and its methods. Each definition is one section under the session's lock, or
-- a goroutine's step; what the system calls answer is an argument. The subscriptions are in Hub.
pub mod Revisions
use windrunner.Prelude.{
  ℕ, ◌+◌, ◌%◌, ◌^◌, Bool, true, false, not, ◌&&◌, ◌||◌, Bytes, List, [], ◌∷◌, ◌++◌, Option, none,
  some, ◌==◌, if◌then◌else◌, equal, ◌⊎◌, inl, inr,
}
use windrunner.Prelude.Int.{ℤ, pos, negsuc, ltb_ℤ, eqb_ℤ, to_u16}
use windrunner.Boundary.{read_step, read_end}
use windrunner.Channel
use windrunner.Environment.{child_environment}
use windrunner.Event.{Event, EventType, plain_event}
use windrunner.Hub.{Hub, Snapshot, Subscription, deliver_all, flush_resyncs, finish_each}
use windrunner.Screen.{snapshot_bytes}
use windrunner.TermState
use windrunner.TermState.{TermState}
use windrunner.Vt.{Vt}

abbrev pub Metadata : Type 0
Metadata = List (Bytes × Bytes)

abbrev pub default_scrollback : ℤ
default_scrollback = pos 2000

-- `DefaultIdleAfter`, in nanoseconds
abbrev pub default_idle_after : ℤ
default_idle_after = pos 2000000000

pub record SpawnSpec : Type 0 where
  pub command : Bytes
  pub args : List Bytes
  pub dir : Bytes
  pub env : Option (List Bytes)
  pub env_override : List Bytes
  pub cols : ℤ
  pub rows : ℤ
  pub scrollback : ℤ
  pub idle_after : ℤ
  pub peer : Bool
  pub metadata : Metadata

-- What `cmd.Wait()` answers: nil, an `*exec.ExitError` with its code, or another error.
pub data WaitAnswer : Type 0 where
  clean failed : WaitAnswer
  exit_error : ℤ → WaitAnswer

unfoldable pub exit_code_of : WaitAnswer → ℤ
exit_code_of clean = pos 0
exit_code_of failed = negsuc 0
exit_code_of (exit_error code) = code

pub data Error : Type 0 where
  no_command start_failed engine_closed resize_failed : Error
  no_size : ℤ → ℤ → Error

pub record Session (v : Vt) : Type 0 where
  pub id : Bytes
  pub peer : Bool
  pub environment : List Bytes  -- of `cmd`
  pub emu : Vt.Emulator v
  pub metadata : Metadata
  pub revision : ℕ
  pub title : Bytes
  pub state : TermState
  pub cols : ℤ
  pub rows : ℤ
  pub hub : Hub
  pub open hub use *
  pub view_seq : ℕ
  pub base_cols : ℤ
  pub base_rows : ℤ
  pub base_seq : ℕ
  pub exited : Bool
  pub exit_code : ℤ
  pub pty_cols : ℕ  -- the window size of the PTY
  pub pty_rows : ℕ
  pub pending : Bytes  -- of `readLoop`
  pub reading : Bool  -- has `readLoop` not returned
  pub busy : Bool
  pub idle_after : ℤ
  pub idle_timer : Bool  -- is `idleTimer` running
  pub published : List Event  -- the calls of `publish`, oldest first

abbrev pub too_small : ℤ → ℤ → Bool
too_small cols rows = ltb_ℤ cols (pos 2) || ltb_ℤ rows (pos 2)

abbrev pub next_seq : ℕ → ℕ
next_seq n = (n + 1) % 2 ^ 64

-- What a number stands for at which no subscription has been made.
abbrev pub no_subscription : Subscription
no_subscription = record {
  channel = record (Channel.make 1) { closed = true };
  resync = false;
  retire = false;
  done = true;
  lagged = false;
  missed = false;
}

abbrev pub no_hub : Hub
no_hub = record {
  subs = [];
  cell = λ _. no_subscription;
  views = [];
  settling = 0;
  resync_timer = false;
  closed = false;
}

module _ (v : Vt) where
  -- `startSession`; `inherited` is `os.Environ()`, and `started` says that the PTY started.
  unfoldable pub start_session : Bytes → List Bytes → SpawnSpec → Bool → Error ⊎ Session v
  start_session id inherited spec started =
      if equal spec.command []
      then inl no_command
      else if too_small spec.cols spec.rows
      then inl (no_size spec.cols spec.rows)
      else if not started
      then inl start_failed
      else inr (record {
        id = id;
        peer = spec.peer;
        environment = child_environment id inherited spec.env spec.env_override;
        emu =
            Vt.new v spec.cols spec.rows
              (if eqb_ℤ spec.scrollback (pos 0) then default_scrollback else spec.scrollback);
        metadata = spec.metadata;
        revision = 1;
        title = [];
        state = TermState.initial;
        cols = spec.cols;
        rows = spec.rows;
        hub = no_hub;
        view_seq = 0;
        base_cols = spec.cols;
        base_rows = spec.rows;
        base_seq = 0;
        exited = false;
        exit_code = pos 0;
        pty_cols = to_u16 spec.cols;
        pty_rows = to_u16 spec.rows;
        pending = [];
        reading = true;
        busy = true;
        idle_after = if eqb_ℤ spec.idle_after (pos 0) then default_idle_after else spec.idle_after;
        idle_timer = true;
        published = [];
      })

  abbrev pub publish : Session v → Event → Session v
  publish s event = record s { published = s.published ++ event ∷ [] }

  unfoldable pub snapshot : Session v → Snapshot
  snapshot s = record { cols = s.cols; rows = s.rows; ansi = snapshot_bytes v s.emu s.state }

  last_title : Bytes → List Bytes → Bytes
  last_title title [] = title
  last_title title (t ∷ ts) = last_title t ts

  -- The part of `readLoop`'s `write` under the lock.
  unfoldable pub take_output : Bytes → Session v → Session v
  unfolding last_title
  take_output chunk s = record s {
    busy = true;
    state = TermState.observe s.state chunk;
    emu = Vt.write v s.emu chunk;
    title = last_title s.title (Vt.titles v s.emu chunk);
    hub = deliver_all (record { bytes = chunk; resize = none; resync = none }) s.hub;
  }

  -- `readLoop`'s `write`
  unfoldable pub write : Bytes → Session v → Session v
  unfolding take_output
  write chunk s =
      let announce = not s.busy && not s.exited in
      let s' = record (take_output chunk s) { idle_timer = true } in
      if announce then publish s' (plain_event EventType.busy s.id) else s'

  unfoldable pub write_some : Option Bytes → Session v → Session v
  unfolding write
  write_some none s = s
  write_some (some chunk) s = write chunk s

  -- A round of `readLoop` that has read some bytes.
  unfoldable pub read_output : Bytes → Session v → Session v
  unfolding write_some
  read_output buf s =
      let (written, held) = read_step s.pending buf in
      record (write_some written s) { pending = held }

  -- What `readLoop` does under the lock when the stream has ended.
  unfoldable pub end_stream : Session v → Session v
  unfolding snapshot
  end_stream s =
      let flushed = flush_resyncs true (snapshot s) s.hub in
      record s { hub = record (finish_each flushed.subs flushed) { subs = [] }; reading = false }

  -- The first section of the round of `readLoop` whose read fails; `end_stream` is the second.
  unfoldable pub write_rest : Session v → Session v
  unfolding write_some
  write_rest s = record (write_some (read_end s.pending) s) { pending = [] }

  -- `waitLoop` behind `Wait`; `done` is closed where `exited` is set.
  unfoldable pub wait_exit : WaitAnswer → Session v → Session v
  unfolding exit_code_of
  wait_exit answer s = record s {
    exited = true;
    exit_code = exit_code_of answer;
    idle_timer = false;
  }

  -- `goIdle`, run by the timer.
  unfoldable pub go_idle : Session v → Session v
  go_idle s =
      if s.closed || (s.exited || not s.busy)
      then record s { idle_timer = false }
      else publish (record s { idle_timer = false; busy = false }) (plain_event EventType.idle s.id)

  unfoldable pub set_metadata : Metadata → Session v → Session v × ℕ
  set_metadata metadata s =
      let revision = next_seq s.revision in
      (record s { metadata = metadata; revision = revision }, revision)

  unfoldable pub set_metadata_if : ℕ → Metadata → Session v → Session v × ℕ × Bool
  set_metadata_if expected metadata s =
      if not (s.revision == expected) then (s, s.revision, false) else (
        record s { metadata = metadata; revision = next_seq s.revision },
        next_seq s.revision,
        true,
      )
