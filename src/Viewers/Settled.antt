-- ===== src/Viewers/Settled.antt =====
-- Histories in which the PTY takes every size, and the size of the terminal in them.
use windrunner.Prelude.{ℕ, ◌≡◌, inl, inr, refl, true, false, ◌||◌, Bytes, List, arith}
use windrunner.Hub.Statements.{retire_viewer-Settles}
use windrunner.Hub.{close_mark, retire_viewer, receive}
use windrunner.Session.{Session, SpawnSpec, start_session, set_metadata, wait_exit}
use windrunner.Vt.{Vt}
use windrunner.Viewers.Steps.{
  Step, Reach, started, later, output, rest_written, stream_ends, child_ends, goes_idle,
  metadata_set, metadata_set_if, resizes, viewer_resized, settled, timer_fires, attached,
  other_attached, detached, closing, retired, receives, other_receives, shuts, finishes,
  idle_timer_stops,
}
use windrunner.Viewers.Replica.{Replica}
use windrunner.Viewers.Sizes.{
  IsSettled, AtSize, hub_keeps, read_output-IsSettled, write_rest-IsSettled, end_stream-IsSettled,
  resize-IsSettled, resize_viewer-IsSettled, settle_size-IsSettled, resync_tick-IsSettled,
  attach_with-IsSettled, detach-IsSettled, shut-IsSettled, go_idle-IsSettled,
  set_metadata_if-IsSettled,
}
use windrunner.Viewers.{effective, newest_of}

module _ {v : Vt} (replica : Replica v) where
  open replica use {Screen}

  -- `pty.Setsize` does not fail in the step.
  unfoldable pub IsTaken :
      (i : ℕ) {s s' : Session v} {r r' : Screen} → Step replica i s r s' r' → Type 0
  IsTaken i (resizes set c w) = set ≡ true
  IsTaken i (viewer_resized set j c w) = set ≡ true
  IsTaken i (settled set) = set ≡ true
  IsTaken i (attached set options fresh) = set ≡ true
  IsTaken i (other_attached set j options other fresh) = set ≡ true
  IsTaken i _ = Unit {0}

  unfoldable pub AllSet : (i : ℕ) {s : Session v} {r : Screen} → Reach replica i s r → Type 0
  AllSet i (started id inherited spec r h) = Unit {0}
  AllSet i (later reached step) = AllSet i reached × IsTaken i step

  Step-IsSettled :
      (i : ℕ) {s s' : Session v} {r r' : Screen} (step : Step replica i s r s' r')
      → IsTaken i step
      → IsSettled s
      → IsSettled s'
  unfolding IsTaken wait_exit set_metadata close_mark receive
  Step-IsSettled i {s} (output buf) set h = read_output-IsSettled buf s h
  Step-IsSettled i {s} rest_written set h = write_rest-IsSettled s h
  Step-IsSettled i {s} stream_ends set h = end_stream-IsSettled s h
  Step-IsSettled i (child_ends answer) set h = inl refl
  Step-IsSettled i {s} goes_idle set h = go_idle-IsSettled s h
  Step-IsSettled i (metadata_set metadata) set h = h
  Step-IsSettled i {s} (metadata_set_if expected metadata) set h =
      set_metadata_if-IsSettled expected metadata s h
  Step-IsSettled i {s} (resizes set c w) is_set h = rw is_set (resize-IsSettled c w s h)
  Step-IsSettled i {s} (viewer_resized set j c w) is_set h =
      rw is_set (resize_viewer-IsSettled j c w s h)
  Step-IsSettled i {s} (settled set) is_set h = rw is_set (settle_size-IsSettled s)
  Step-IsSettled i {s} timer_fires set h = resync_tick-IsSettled s h
  Step-IsSettled i {s} (attached set options fresh) is_set h =
      rw is_set (attach_with-IsSettled i options s h)
  Step-IsSettled i {s} (other_attached set j options other fresh) is_set h =
      rw is_set (attach_with-IsSettled j options s h)
  Step-IsSettled i {s} (detached j) set h = detach-IsSettled j s h
  Step-IsSettled i (closing j) set h = h
  Step-IsSettled i {s} (retired j ended) set h =
      hub_keeps s (record s { hub = retire_viewer j s.hub }) (refl, refl) refl refl
        (retire_viewer-Settles j s.hub) h
  Step-IsSettled i receives set h = h
  Step-IsSettled i (other_receives j other) set h = h
  Step-IsSettled i {s} shuts set h = shut-IsSettled s h
  Step-IsSettled i (finishes j left) set h = h
  Step-IsSettled i idle_timer_stops set h = h

  start_session-size :
      (id : Bytes) (inherited : List Bytes) (spec : SpawnSpec) (s : Session v)
      → start_session v id inherited spec true ≡ inr s
      → AtSize s
  unfolding start_session newest_of
  start_session-size id inherited spec s h = ground arith

  Reach-IsSettled :
      (i : ℕ) {s : Session v} {r : Screen} (reached : Reach replica i s r)
      → AllSet i reached
      → IsSettled s
  unfolding AllSet
  Reach-IsSettled i {s} (started id inherited spec r h) all =
      inr (inr (start_session-size id inherited spec s h))
  Reach-IsSettled i (later reached step) all =
      Step-IsSettled i step all.1 (Reach-IsSettled i reached all.0)

  -- In every history of a session in which pty.Setsize does not fail, as long as the session is
  -- neither exited nor closed and no settleSize goroutine is on its way, the terminal has the size
  -- of the newest statement that stands, the base included.
  pub Reach-size :
      (i : ℕ) {s : Session v} {r : Screen} (reached : Reach replica i s r)
      → AllSet i reached
      → s.exited || s.closed ≡ false
      → s.settling ≡ 0
      → (s.cols ≡ (effective v s).cols) × (s.rows ≡ (effective v s).rows)
  unfolding effective
  Reach-size i {s} reached all alive calm = elim (Reach-IsSettled i reached all) [
    | inl ended ↦ absurd (ground arith)
    | inr (inl due) ↦ absurd (omega arith)
    | inr (inr size) ↦ size
  ]
