-- ===== src/Tests/Texts/Panes.antt =====
-- A client that follows the size and the modes, in front of a session that has output, and one that
-- types.
use windrunner.Prelude.{
  ℕ, Bytes, List, [], ◌∷◌, codes, ltb, true, false, ◌≤◌, ◌≡◌, refl, All, Option, none, some, length,
  arith,
}
use windrunner.Prelude.Int.{pos}
use windrunner.Boundary.{read_step, complete_boundary, incomplete_rune_tail}
use windrunner.Channel
use windrunner.Hub.{deliver_all, withdraw, member}
use windrunner.Session.{read_output}
use windrunner.Prelude.Decimal.{print_int}
use windrunner.Screen.{screen_repaint}
use windrunner.TermState
use windrunner.TermState.{initial, observe}
use windrunner.Viewers.{attach_with, resize_viewer}
use windrunner.Viewers.Exact.{now}
use windrunner.Wire.Payloads.{SnapshotPayload, ResizePayload}
use windrunner.Wire.RoundTrip.{encodings}
use windrunner.Server.Attach.{pump, write_all, message_frames}
use windrunner.Client.Attachment.{read_loop}
use windrunner.Server.{pty_write}
use windrunner.Server.Attach.Reader.{AttachTurn, attach_loop, goes_on}
use windrunner.Client.Typing.{
  Gesture, types, moves, IsCarriedGesture, gesture_frames, done_by, carried_out,
  attach_loop-gestures,
}
use windrunner.Client.Replica.{Pane, apply_all, Reach-read_loop}
use windrunner.Client.Streams.{IsCarriedMessage}
use windrunner.Tests.Histories.{
  plain, mode_replica, spoken, screen, reached, not_closed, still_open, current, Modes, moved_to,
}
use windrunner.Tests.Texts.{tokens, print_json, print_chars}

-- A size comes in front of its repaint.
abbrev pane_step : Modes → Bytes → Option ResizePayload → Option SnapshotPayload → Modes
pane_step (t, cols, rows) bytes none none = (observe t bytes, cols, rows)
pane_step r bytes (some size) none =
    (moved_to r (record { cols = size.cols; rows = size.rows }), size.cols, size.rows)
pane_step r bytes _ (some state) = (observe initial state.ansi, state.cols, state.rows)

abbrev mode_pane : Pane mode_replica
mode_pane = record {
  State = Modes;
  apply = λ r message. pane_step r message.bytes message.resize message.resync;
  screen = λ r. r;
  output_painted = λ p bytes. refl;
  repaint_painted = λ p moved bytes. refl;
  resync_painted = λ p bytes resize state. refl;
}

queue-IsCarried : All (IsCarriedMessage tokens) (spoken.cell 0).channel.queue
unfolding attach_with read_output deliver_all read_step complete_boundary incomplete_rune_tail
    Channel.try_send message_frames tokens print_json print_chars screen_repaint TermState.replay
    TermState.flag print_int TermState.resize
queue-IsCarried = (
  record {
    resize = (refl, refl);
    resync = tt;
    fits = (
      record { type_is_byte = omega arith; within_limit = omega arith },
      (record { type_is_byte = omega arith; within_limit = omega arith }, tt),
    );
  },
  (
    record {
      resize = tt;
      resync = tt;
      fits = (record { type_is_byte = omega arith; within_limit = omega arith }, tt);
    },
    tt,
  ),
)

enough : length (pump tokens (spoken.cell 0).channel.queue none) ≤ 9
unfolding attach_with read_output deliver_all read_step complete_boundary incomplete_rune_tail
    Channel.try_send pump write_all message_frames tokens print_json print_chars screen_repaint
    TermState.replay TermState.flag print_int TermState.resize
enough = omega arith

Reach-read_loop_example :
    (mode_pane.screen (
      apply_all mode_pane screen
        (read_loop tokens 9 (encodings (pump tokens (spoken.cell 0).channel.queue none))).output))
    ≡ now mode_replica spoken
Reach-read_loop_example =
    Reach-read_loop mode_pane tokens 0 screen 9 reached not_closed still_open current
      queue-IsCarried enough

-- Two words and a size in between, on a PTY that refuses the second word.
abbrev refusing : ℕ → AttachTurn plain
refusing n = record {
  meanwhile = λ s. s;
  answers = record {
    new_id = none;
    environ = [];
    started = false;
    sized = true;
    signalled = true;
    written = ltb n 2;
    accepted = 1;
    failure = codes "input/output error";
  };
}

abbrev gestures : List Gesture
gestures =
    types (codes "ls") ∷ moves (record { cols = pos 40; rows = pos 12 }) ∷ types (codes "cd") ∷ []

gestures-IsCarried : All (IsCarriedGesture tokens) gestures
unfolding tokens print_json print_chars
gestures-IsCarried = (
  record { size = tt; fits = record { type_is_byte = omega arith; within_limit = omega arith } },
  (
    record {
      size = (refl, refl);
      fits = record { type_is_byte = omega arith; within_limit = omega arith };
    },
    (
      record {
        size = tt;
        fits = record { type_is_byte = omega arith; within_limit = omega arith };
      },
      tt,
    ),
  ),
)

attach_loop-gestures_example :
    attach_loop tokens plain refusing 0 4 0 spoken (encodings (gesture_frames tokens gestures))
    ≡ carried_out plain refusing 0 0 gestures spoken
attach_loop-gestures_example =
    attach_loop-gestures tokens plain refusing 0 4 0 gestures spoken gestures-IsCarried
      (omega arith)

typed_test :
    (carried_out plain refusing 0 0 gestures spoken).1
    ≡ pty_write (codes "id") (codes "ls") ∷ pty_write (codes "id") (codes "c") ∷ []
unfolding carried_out done_by goes_on resize_viewer attach_with read_output read_step
    complete_boundary withdraw incomplete_rune_tail member deliver_all Channel.try_send
typed_test = refl
