-- ===== src/Tests/Histories.antt =====
-- session.go, run on a terminal of which the size and the modes are kept.
use windrunner.Prelude.{
  ◌≡◌, ◌≤◌, refl, sym, ap, ◌∙◌, Bool, append-nil, if◌then◌else◌, arith, ◌++◌, [], codes, equal,
  Bytes, Option, none, some, true, false, not, ◌&&◌, ◌||◌, inr, length,
}
use windrunner.Prelude.Int.{ℤ, pos, eqb_ℤ, eqb_ℤ_iff}
use windrunner.Boundary.{read_step, complete_boundary, incomplete_rune_tail}
use windrunner.Channel
use windrunner.Channel.{fine}
use windrunner.Hub.{Resize, Snapshot, member, deliver_all}
use windrunner.Environment.{child_environment}
use windrunner.Session.{Session, no_hub, SpawnSpec, start_session, read_output, end_stream}
use windrunner.Screen.{carriage_returns, scrollback_lines, cursor}
use windrunner.Screen.Tracked.{alt_flag, observe-clear, cursor-IsQuiet}
use windrunner.TermState
use windrunner.TermState.{TermState, initial, observe, observe_from}
use windrunner.TermState.Replay.{observe-alt}
use windrunner.TermState.Settings.{BringsTo}
use windrunner.Vt.{Vt}
use windrunner.Viewers.{AttachOptions, attach_with, shut}
use windrunner.Viewers.Exact.{now}
use windrunner.Viewers.History.{Reach-shows, Reach-healthy, Reach-lag, Reach-last_call}
use windrunner.Viewers.Steps.{Reach, started, later, attached, output}
use windrunner.Viewers.Replica.{Replica, paint_all, pictured, repainted}

-- An emulator that keeps what was written, and renders nothing of it.
abbrev pub plain : Vt
plain = record {
  Emulator = Bytes;
  new = λ cols rows lines. [];
  write = λ e chunk. e ++ chunk;
  titles = λ e chunk. [];
  resize = λ e cols rows. e;
  render = λ e. [];
  scrollback = λ e. [];
  cursor_x = λ e. 0;
  cursor_y = λ e. 0;
}

-- A client that keeps the size and all modes and margins, from nothing but the bytes that it is
-- sent; it takes a size that it has already as no change.
abbrev pub Modes : Type 0
Modes = TermState × ℤ × ℤ

abbrev pub moved_to : Modes → Resize → TermState
moved_to (t, cols, rows) size =
    if eqb_ℤ size.cols cols && eqb_ℤ size.rows rows then t else TermState.resize t

abbrev pub follow : Modes → Bytes → Option Resize → Option Snapshot → Modes
follow (t, cols, rows) bytes none none = (observe t bytes, cols, rows)
follow r bytes (some size) none = (observe (moved_to r size) bytes, size.cols, size.rows)
follow r bytes _ (some state) = (observe initial state.ansi, state.cols, state.rows)

pub cursor_quiet :
    (e : Bytes) (t : TermState) (modes : Bytes) (u : TermState)
    → BringsTo u modes t
    → observe_from 0 u (modes ++ cursor plain e t) ≡ t
unfolding observe_from
cursor_quiet e t modes u brings =
    brings (cursor plain e t)
    ∙ ap (observe_from 0 t) (sym (append-nil (cursor plain e t)))
    ∙ cursor-IsQuiet plain e t (omega arith, omega arith) t []

pub repaint_quiet :
    (e : Bytes) (u t : TermState) (modes : Bytes)
    → BringsTo (record u { top = 0; bottom = 0 }) modes t
    → observe u (repainted plain e t modes) ≡ t
unfolding observe carriage_returns
repaint_quiet e u t modes brings =
    observe-clear u (modes ++ cursor plain e t) ∙ cursor_quiet e t modes _ brings

pub same_size : (c w : ℤ) → eqb_ℤ c c && eqb_ℤ w w ≡ true
same_size c w = ground (arith, (eqb_ℤ_iff c c).1 refl, (eqb_ℤ_iff w w).1 refl)

pub picture_modes :
    (e : Bytes) (t : TermState) (modes : Bytes)
    → BringsTo (record initial { alt = t.alt }) modes t
    → observe initial (pictured plain e t modes) ≡ t
unfolding scrollback_lines carriage_returns observe
picture_modes e t modes brings =
    ap
      (λ (f : Bytes).
        observe_from 0 initial ((if t.alt then f else []) ++ (modes ++ cursor plain e t)))
      alt_flag
    ∙ observe-alt t.alt (modes ++ cursor plain e t)
    ∙ cursor_quiet e t modes (record initial { alt = t.alt }) brings

-- A size that is not the one before resets the margins, one that is does not.
pub size_modes :
    (e : Bytes) (same : Bool) {b : Bool} (u t : TermState) (modes : Bytes)
    → same ≡ b
    → BringsTo (record (if b then u else TermState.resize u) { top = 0; bottom = 0 }) modes t
    → observe (if same then u else TermState.resize u) (repainted plain e t modes) ≡ t
size_modes e same {b} u t modes is brings =
    ap (λ (x : Bool). observe (if x then u else TermState.resize u) (repainted plain e t modes)) is
    ∙ repaint_quiet e (if b then u else TermState.resize u) t modes brings

abbrev pub mode_replica : Replica plain
mode_replica = record {
  Screen = Modes;
  paint = λ r message. follow r message.bytes message.resize message.resync;
  shows = λ e t cols rows. (t, cols, rows);
  picture_exact = λ r e t c w modes settings brings.
      ap (λ (u : TermState). (u, c, w)) (picture_modes e t modes brings);
  output_exact = λ e t c w chunk. refl;
  moved_exact = λ e t c w c' w' modes moves settings brings.
      ap (λ (u : TermState). (u, c', w'))
        (size_modes e (eqb_ℤ c' c && eqb_ℤ w' w) t (TermState.resize t) modes moves brings);
  stays_exact = λ e t c w modes settings brings.
      ap (λ (u : TermState). (u, c, w))
        (size_modes e (eqb_ℤ c c && eqb_ℤ w w) t t modes (same_size c w) brings);
}

abbrev pub shell : SpawnSpec
shell = record {
  command = codes "sh";
  args = [];
  dir = [];
  env = none;
  env_override = [];
  cols = pos 80;
  rows = pos 24;
  scrollback = pos 0;
  idle_after = pos 0;
  peer = false;
  metadata = [];
}

abbrev pub options : AttachOptions
options = record { buffer = pos 2; resync = true; cols = pos 100; rows = pos 30 }

abbrev pub first : Session plain
first = record {
  id = codes "id";
  peer = false;
  environment = child_environment (codes "id") [] none [];
  emu = [];
  metadata = [];
  revision = 1;
  title = [];
  state = TermState.initial;
  cols = pos 80;
  rows = pos 24;
  hub = no_hub;
  view_seq = 0;
  base_cols = pos 80;
  base_rows = pos 24;
  base_seq = 0;
  exited = false;
  exit_code = pos 0;
  pty_cols = 80;
  pty_rows = 24;
  pending = [];
  reading = true;
  busy = true;
  idle_after = pos 2000000000;
  idle_timer = true;
  published = [];
}

pub first_starts : start_session plain (codes "id") [] shell true ≡ inr first
unfolding start_session equal
first_starts = refl

-- The session behind an attachment of viewer 0, that takes the larger size, and behind some output.
abbrev looked_at : Session plain
looked_at = (attach_with plain true 0 options first).0

abbrev pub spoken : Session plain
spoken = read_output plain (codes "hi") looked_at

abbrev nothing_yet : Modes
nothing_yet = (initial, pos 0, pos 0)

abbrev pub screen : Modes
screen = follow nothing_yet [] none (some (attach_with plain true 0 options first).1)

pub no_member : member 0 [] ≡ false
unfolding member
no_member = refl

abbrev pub reached : Reach mode_replica 0 spoken screen
reached =
    later
      (later (started (codes "id") [] shell nothing_yet first_starts)
        (attached true options no_member))
      (output (codes "hi"))

pub not_closed : spoken.closed ≡ false
unfolding attach_with read_output deliver_all read_step complete_boundary incomplete_rune_tail
    Channel.try_send
not_closed = refl

pub still_open : (spoken.cell 0).done ≡ false
unfolding attach_with read_output deliver_all read_step complete_boundary incomplete_rune_tail
    Channel.try_send
still_open = refl

pub current : (spoken.cell 0).missed ≡ false
unfolding attach_with read_output deliver_all read_step complete_boundary incomplete_rune_tail
    Channel.try_send
current = refl

Reach-shows_example :
    paint_all mode_replica screen (spoken.cell 0).channel.queue ≡ now mode_replica spoken
Reach-shows_example = Reach-shows mode_replica 0 reached not_closed still_open current

Reach-healthy_example :
    ((spoken.cell 0).channel.health ≡ fine)
    × (length (spoken.cell 0).channel.queue ≤ (spoken.cell 0).channel.capacity)
    × ((spoken.cell 0).channel.closed ≡ (spoken.cell 0).done)
    × (spoken.closed || ((spoken.cell 0).done || member 0 spoken.subs) ≡ true)
Reach-healthy_example = Reach-healthy mode_replica 0 reached 0

Reach-lag_example :
    ((spoken.cell 0).lagged && (spoken.cell 0).resync ≡ false)
    × ((spoken.cell 0).missed && not (spoken.cell 0).resync ≡ false)
    × ((spoken.cell 0).lagged && not (spoken.cell 0).done ≡ false)
    × ((spoken.cell 0).missed && (spoken.cell 0).done ≡ false)
Reach-lag_example = Reach-lag mode_replica 0 reached 0

Reach-last_call_example :
    ((paint_all mode_replica screen ((end_stream plain spoken).cell 0).channel.queue
        ≡ now mode_replica (end_stream plain spoken))
      × (((end_stream plain spoken).cell 0).done ≡ true)
      × (((end_stream plain spoken).cell 0).channel.closed ≡ true))
    × ((paint_all mode_replica screen ((shut plain spoken).0.cell 0).channel.queue
          ≡ now mode_replica spoken)
        × (((shut plain spoken).0.cell 0).missed ≡ false)
        × (member 0 (shut plain spoken).1 ≡ true))
Reach-last_call_example = Reach-last_call mode_replica 0 reached not_closed still_open
