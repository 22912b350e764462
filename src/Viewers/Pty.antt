-- ===== src/Viewers/Pty.antt =====
-- The size of the PTY against the size of the emulator.
use windrunner.Prelude.{
  ℕ, ◌≡◌, refl, Bool, true, not, ◌&&◌, ◌||◌, Bytes, List, Option, none, some, ◌==◌, inr, if_cases,
  arith,
}
use windrunner.Prelude.Int.{eqb_ℤ, to_u16}
use windrunner.Boundary.{read_step, read_end}
use windrunner.Hub.{Snapshot, member}
use windrunner.Session.{
  Session, Error, SpawnSpec, too_small, start_session, take_output, write, write_some, read_output,
  end_stream, write_rest, wait_exit, go_idle, set_metadata, set_metadata_if,
}
use windrunner.Viewers.Steps.{
  Step, Reach, started, later, output, rest_written, stream_ends, child_ends, goes_idle,
  metadata_set, metadata_set_if, resizes, viewer_resized, settled, timer_fires, attached,
  other_attached, detached, closing, retired, receives, other_receives, shuts, finishes,
  idle_timer_stops,
}
use windrunner.Viewers.Replica.{Replica}
use windrunner.Viewers.{
  AttachOptions, effective, announce_size, apply_size, follow, restated_base, resize, restated_view,
  resize_viewer, woken, settle_size, resync_tick, enlisted, attach_with, shut,
}
use windrunner.Vt.{Vt}

module _ {v : Vt} where
  abbrev pub IsPty : Session v → Type 0
  IsPty s = (s.pty_cols ≡ to_u16 s.cols) × (s.pty_rows ≡ to_u16 s.rows)

  write_some-IsPty :
      (written : Option Bytes) (s : Session v) → IsPty s → IsPty (write_some v written s)
  unfolding write_some write take_output
  write_some-IsPty none s h = h
  write_some-IsPty (some chunk) s h =
      if_cases IsPty (not s.busy && not s.exited) _ _ (λ _. h) (λ _. h)

  follow-IsPty : (set : Bool) (s : Session v) → IsPty s → IsPty (follow v set s).0
  unfolding follow apply_size announce_size
  follow-IsPty set s h =
      let P : Session v × Option Error → Type 0 = λ p. IsPty p.0 in
      if_cases P (eqb_ℤ (effective v s).cols s.cols && eqb_ℤ (effective v s).rows s.rows) _ _
        (λ _. h) (λ _. if_cases P (not set) _ _ (λ _. h) (λ _. (refl, refl)))

  attach_with-IsPty :
      (set : Bool) (i : ℕ) (options : AttachOptions) (s : Session v)
      → IsPty s
      → IsPty (attach_with v set i options s).0
  unfolding attach_with
  attach_with-IsPty set i options s h =
      if_cases (λ (p : Session v × Snapshot). IsPty p.0) (s.exited || s.closed) _ _ (λ _. h)
        λ _.
          if_cases IsPty (not (too_small options.cols options.rows)) _ _
            (λ _.
              follow-IsPty set
                (restated_view v i options.cols options.rows (enlisted v i options s)) h)
            (λ _. h)

  start_session-IsPty :
      (id : Bytes) (inherited : List Bytes) (spec : SpawnSpec) (s : Session v)
      → start_session v id inherited spec true ≡ inr s
      → IsPty s
  unfolding start_session
  start_session-IsPty id inherited spec s h = ground arith

module _ {v : Vt} (replica : Replica v) (i : ℕ) where
  open replica use {Screen}

  Step-IsPty : {s s' : Session v} {r r' : Screen} → Step replica i s r s' r' → IsPty s → IsPty s'
  unfolding read_output write_rest end_stream wait_exit go_idle set_metadata set_metadata_if resize
      resize_viewer settle_size resync_tick shut
  Step-IsPty {s} (output buf) h = write_some-IsPty (read_step s.pending buf).0 s h
  Step-IsPty {s} rest_written h = write_some-IsPty (read_end s.pending) s h
  Step-IsPty stream_ends h = h
  Step-IsPty (child_ends answer) h = h
  Step-IsPty {s} goes_idle h =
      if_cases IsPty (s.closed || (s.exited || not s.busy)) _ _ (λ _. h) (λ _. h)
  Step-IsPty (metadata_set metadata) h = h
  Step-IsPty {s} (metadata_set_if expected metadata) h =
      if_cases (λ (p : Session v × ℕ × Bool). IsPty p.0) (not (s.revision == expected)) _ _ (λ _. h)
        (λ _. h)
  Step-IsPty {s} (resizes set c w) h =
      if_cases (λ (p : Session v × Option Error). IsPty p.0) (too_small c w) _ _ (λ _. h)
        (λ _. follow-IsPty set (restated_base v c w s) h)
  Step-IsPty {s} (viewer_resized set j c w) h =
      if_cases (λ (p : Session v × Option Error). IsPty p.0) (too_small c w) _ _ (λ _. h)
        λ _.
          if_cases (λ (p : Session v × Option Error). IsPty p.0) (not (member j s.subs)) _ _
            (λ _. h) (λ _. follow-IsPty set (restated_view v j c w s) h)
  Step-IsPty {s} (settled set) h =
      if_cases IsPty (s.closed || s.exited) _ _ (λ _. h) (λ _. follow-IsPty set (woken v s) h)
  Step-IsPty {s} timer_fires h = if_cases IsPty s.closed _ _ (λ _. h) (λ _. h)
  Step-IsPty {s} (attached set options fresh) h = attach_with-IsPty set i options s h
  Step-IsPty {s} (other_attached set j options other fresh) h = attach_with-IsPty set j options s h
  Step-IsPty (detached j) h = h
  Step-IsPty (closing j) h = h
  Step-IsPty (retired j ended) h = h
  Step-IsPty receives h = h
  Step-IsPty (other_receives j other) h = h
  Step-IsPty {s} shuts h =
      if_cases (λ (p : Session v × List ℕ). IsPty p.0) s.closed _ _ (λ _. h) (λ _. h)
  Step-IsPty (finishes j left) h = h
  Step-IsPty idle_timer_stops h = h

  -- In every history of a session that has started, also where pty.Setsize fails, the columns and
  -- rows of the PTY are the low sixteen bits of those of the session.
  pub Reach-IsPty : {s : Session v} {r : Screen} → Reach replica i s r → IsPty s
  Reach-IsPty {s} (started id inherited spec r h) = start_session-IsPty id inherited spec s h
  Reach-IsPty (later reached step) = Step-IsPty step (Reach-IsPty reached)
