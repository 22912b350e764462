-- ===== src/Tests/Terminals.antt =====
-- termstate.go, run on a terminal with margins, in origin mode.
use windrunner.Prelude.{◌≡◌, refl, ◌++◌, [], codes, true, false, arith, inr}
use windrunner.TermState.{TermState, initial, observe, observe_from, flag, replay}
use windrunner.TermState.Replay.{IsWellFormed, replayed, observe-replay-on, observe-replay}
use windrunner.TermState.WellFormed.{observe-IsWellFormed}
use windrunner.Screen.{carriage_returns, scrollback_lines, snapshot_bytes, screen_repaint}
use windrunner.Screen.Tracked.{IsQuiet, observe-snapshot_bytes, observe-screen_repaint}
use windrunner.Vt.{Vt}
use windrunner.Tests.Histories.{plain}

abbrev scrolling : TermState
scrolling = record {
  top = 2;
  bottom = 10;
  lr_enabled = true;
  left = 3;
  right = 40;
  origin = true;
  autowrap_off = true;
  cursor_hide = false;
  alt = true;
}

scrolling-IsWellFormed : IsWellFormed scrolling
scrolling-IsWellFormed = record {
  rows = inr (omega arith, omega arith, omega arith);
  columns = inr (omega arith, omega arith, omega arith);
  no_columns = λ off. cc;
}

observe-replay-on_example :
    observe_from 0 initial (replay scrolling ++ codes "x")
    ≡ observe_from 0 (replayed initial scrolling) (codes "x")
observe-replay-on_example = observe-replay-on initial scrolling (codes "x") scrolling-IsWellFormed

observe-replay_example :
    observe initial (flag 1049 true ++ (replay scrolling ++ [])) ≡ observe scrolling []
observe-replay_example = observe-replay scrolling [] scrolling-IsWellFormed

observe-IsWellFormed_example : IsWellFormed (observe scrolling (codes "text"))
observe-IsWellFormed_example = observe-IsWellFormed scrolling (codes "text") scrolling-IsWellFormed

-- An emulator that renders what was written.
abbrev echo : Vt
echo = record plain { render = λ e. e }

quiet : IsQuiet (carriage_returns (codes "hi"))
unfolding observe_from carriage_returns
quiet t rest = refl

history : IsQuiet (scrollback_lines [])
unfolding scrollback_lines
history t rest = refl

observe-snapshot_bytes_example :
    observe initial (snapshot_bytes echo (codes "hi") scrolling) ≡ scrolling
observe-snapshot_bytes_example =
    observe-snapshot_bytes echo (codes "hi") scrolling scrolling-IsWellFormed
      (omega arith, omega arith) history quiet

observe-screen_repaint_example :
    observe scrolling (screen_repaint echo (codes "hi") scrolling) ≡ scrolling
observe-screen_repaint_example =
    observe-screen_repaint echo (codes "hi") scrolling scrolling-IsWellFormed
      (omega arith, omega arith) quiet
