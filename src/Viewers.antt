-- ===== src/Viewers.antt =====
-- session.go: who looks at a session and how large its terminal is. `Resize`, `ResizeViewer`,
-- `AttachWith`, the ends of attachments, `settleSize`, the resync timer, `Kill` and `close`.
pub mod Replica
pub mod Exact
pub mod Attach
pub mod Final
pub mod Sections
pub mod Sizes
pub mod Settled
pub mod Newest
pub mod Late
pub mod Pty
pub mod Steps
pub mod History
use windrunner.Prelude.{
  ℕ, ◌+◌, ◌-◌, ◌%◌, ◌^◌, Bool, true, false, not, ◌&&◌, ◌||◌, Bytes, List, [], ◌∷◌, ◌++◌, Option,
  none, some, ltb, ◌==◌, if◌then◌else◌,
}
use windrunner.Prelude.Int.{ℤ, pos, pos_part, ltb_ℤ, eqb_ℤ, to_u16}
use windrunner.Channel
use windrunner.Hub
use windrunner.Hub.{
  Hub, Message, Resize, Snapshot, Subscription, ViewSize, put, member, withdraw, deliver_all,
  retire_viewer, flush_resyncs, close_subscription, finish_sub,
}
use windrunner.Screen.{screen_repaint}
use windrunner.Session.{Session, Error, resize_failed, no_size, too_small, next_seq, snapshot}
use windrunner.TermState
use windrunner.Vt.{Vt}

-- The loop of `effectiveLocked`, over the statements in some order.
unfoldable pub newest_of : ViewSize → List (ℕ × ViewSize) → ViewSize
newest_of best [] = best
newest_of best ((i, view) ∷ views) = newest_of (if ltb best.seq view.seq then view else best) views

pub record AttachOptions : Type 0 where
  pub buffer : ℤ
  pub resync : Bool
  pub cols : ℤ
  pub rows : ℤ

-- The map of statements with a new one for `i`.
abbrev pub state_view : ℕ → ViewSize → List (ℕ × ViewSize) → List (ℕ × ViewSize)
state_view i view views = (i, view) ∷ withdraw i views

abbrev pub buffer_of : ℤ → ℕ
buffer_of n = if ltb_ℤ (pos 0) n then pos_part n else 64

abbrev pub fresh_subscription : AttachOptions → Subscription
fresh_subscription options = record {
  channel = Channel.make (buffer_of options.buffer);
  resync = options.resync;
  retire = false;
  done = false;
  lagged = false;
  missed = false;
}

module _ (v : Vt) where
  abbrev pub base : Session v → ViewSize
  base s = record { cols = s.base_cols; rows = s.base_rows; seq = s.base_seq }

  -- `effectiveLocked`, with the number of the statement that it follows.
  unfoldable pub effective : Session v → ViewSize
  unfolding newest_of
  effective s = newest_of (base s) s.views

  -- The terminal at its new size, before anybody is told.
  abbrev pub resized : ℤ → ℤ → Session v → Session v
  resized cols rows s = record s {
    pty_cols = to_u16 cols;
    pty_rows = to_u16 rows;
    emu = Vt.resize v s.emu cols rows;
    cols = cols;
    rows = rows;
    state = TermState.resize s.state;
  }

  abbrev pub repaint_message : Session v → Message
  repaint_message s = record {
    bytes = screen_repaint v s.emu s.state;
    resize = some (record { cols = s.cols; rows = s.rows });
    resync = none;
  }

  -- The end of `applySizeLocked`.
  unfoldable pub announce_size : Session v → Session v
  announce_size s = record s { hub = deliver_all (repaint_message s) s.hub }

  -- `applySizeLocked`; `set` is the answer of `pty.Setsize`.
  unfoldable pub apply_size : Bool → ℤ → ℤ → Session v → Session v × Option Error
  unfolding announce_size
  apply_size set cols rows s =
      if eqb_ℤ cols s.cols && eqb_ℤ rows s.rows
      then (s, none)
      else if not set
      then (s, some resize_failed)
      else (announce_size (resized cols rows s), none)

  -- `s.applySizeLocked(s.effectiveLocked())`
  unfoldable pub follow : Bool → Session v → Session v × Option Error
  unfolding apply_size effective
  follow set s = apply_size set (effective s).cols (effective s).rows s

  abbrev pub restated_base : ℤ → ℤ → Session v → Session v
  restated_base cols rows s = record s {
    view_seq = next_seq s.view_seq;
    base_cols = cols;
    base_rows = rows;
    base_seq = next_seq s.view_seq;
  }

  -- `(*Session).Resize`
  unfoldable pub resize : Bool → ℤ → ℤ → Session v → Session v × Option Error
  unfolding follow
  resize set cols rows s =
      if too_small cols rows
      then (s, some (no_size cols rows))
      else follow set (restated_base cols rows s)

  abbrev pub restated_view : ℕ → ℤ → ℤ → Session v → Session v
  restated_view i cols rows s =
      let view : ViewSize = record { cols = cols; rows = rows; seq = next_seq s.view_seq } in
      record s {
        view_seq = next_seq s.view_seq;
        hub = record s.hub { views = state_view i view s.views };
      }

  -- `ResizeViewer`
  unfoldable pub resize_viewer : Bool → ℕ → ℤ → ℤ → Session v → Session v × Option Error
  unfolding follow
  resize_viewer set i cols rows s =
      if too_small cols rows
      then (s, some (no_size cols rows))
      else if not (member i s.subs)
      then (s, none)
      else follow set (restated_view i cols rows s)

  -- The session as one of those goroutines finds it.
  abbrev pub woken : Session v → Session v
  woken s = record s { hub = record s.hub { settling = s.settling - 1 } }

  -- `settleSize`, one of the goroutines that `retireViewerLocked` started.
  unfoldable pub settle_size : Bool → Session v → Session v
  unfolding follow
  settle_size set s = let s' = woken s in if s.closed || s.exited then s' else (follow set s').0

  -- The function of `armResyncRetryLocked`, run by the timer.
  unfoldable pub resync_tick : Session v → Session v
  resync_tick s =
      let s' = record s { hub = record s.hub { resync_timer = false } } in
      if s.closed then s' else record s' { hub = flush_resyncs false (snapshot v s') s'.hub }

  abbrev pub enlisted : ℕ → AttachOptions → Session v → Session v
  enlisted i options s =
      let hub = put s.hub i (record (fresh_subscription options) { retire = true }) in
      record s { hub = record hub { subs = i ∷ s.subs } }

  -- `AttachWith`; the new subscription is number `i`, which no other has.
  unfoldable pub attach_with : Bool → ℕ → AttachOptions → Session v → Session v × Snapshot
  unfolding follow
  attach_with set i options s =
      if s.exited || s.closed
      then (let s' = record s { hub = put s.hub i (finish_sub (fresh_subscription options)) } in
          (s', snapshot v s'))
      else (let s' = enlisted i options s in
          let stated =
            if not (too_small options.cols options.rows)
            then (follow set (restated_view i options.cols options.rows s')).0
            else s' in
          (stated, snapshot v stated))

  -- `(*Subscription).Close`, its two sections under locks in one.
  abbrev pub detach : ℕ → Session v → Session v
  detach i s = record s { hub = close_subscription i s.hub }

  -- Behind `<-sub.Output()`.
  abbrev pub received : ℕ → Session v → Session v
  received i s = record s { hub = (Hub.receive i s.hub).1 }

  -- `Kill`: does it signal the child.
  abbrev pub kill_signals : Session v → Bool
  kill_signals s = not s.exited

  -- The section of `close` under the lock, and the subscriptions that are left to finish.
  unfoldable pub shut : Session v → Session v × List ℕ
  shut s =
      if s.closed
      then (s, [])
      else (let flushed = flush_resyncs true (snapshot v s) s.hub in
          let hub = record flushed { closed = true; subs = []; resync_timer = false } in
          (record s { hub = hub }, flushed.subs))

  -- `finish` on one of these, behind the lock.
  abbrev pub finish_viewer : ℕ → Session v → Session v
  finish_viewer i s = record s { hub = put s.hub i (finish_sub (s.cell i)) }

  abbrev pub finish_viewers : List ℕ → Session v → Session v
  finish_viewers [] s = s
  finish_viewers (i ∷ is) s = finish_viewers is (finish_viewer i s)

  -- `s.idleTimer.Stop()`
  abbrev pub stop_idle_timer : Session v → Session v
  stop_idle_timer s = record s { idle_timer = false }

  -- `close` where nobody comes between its sections. It closes the PTY: the next read of `readLoop`
  -- fails.
  unfoldable pub close : Session v → Session v
  unfolding shut
  close s = if s.closed then s else finish_viewers (shut s).1 (stop_idle_timer (shut s).0)
