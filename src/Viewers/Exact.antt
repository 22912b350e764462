-- ===== src/Viewers/Exact.antt =====
-- What the operations of a session do to the replica of one of its viewers.
use windrunner.Prelude.{
  ℕ, ◌-◌, ◌≡◌, ◌≢◌, sym, subst, ◌∙◌, Bool, true, false, not, ◌&&◌, ◌||◌, Bytes, Option, none, some,
  if_cases,
}
use windrunner.Prelude.Int.{ℤ, eqb_ℤ}
use windrunner.Boundary.{read_step}
use windrunner.Hub.Attached.{IsAttached, cell-deliver_all, deliver_all-IsAttached}
use windrunner.Hub.Flush.{cell-flush_resyncs, flush_resyncs-IsAttached}
use windrunner.Hub.{Hub, Message, Subscription, member, deliver_all, flush_resyncs}
use windrunner.Session.{
  Session, Error, too_small, take_output, write, read_output, write_some, snapshot, go_idle,
}
use windrunner.TermState.{TermState}
use windrunner.TermState.Replay.{IsWellFormed}
use windrunner.TermState.WellFormed.{observe-IsWellFormed, resize-IsWellFormed}
use windrunner.Vt.{Vt}
use windrunner.Viewers.Replica.{
  Replica, resize_exact, output_message, Shows, delivered-Shows, flush_sub-Shows,
}
use windrunner.Viewers.{
  resized, repaint_message, announce_size, apply_size, follow, effective, resync_tick, settle_size,
  resize, resize_viewer, restated_base, restated_view, woken,
}

true≢false : true ≢ false
true≢false h = cc

module _ {v : Vt} (replica : Replica v) where
  open replica use {Screen, paint, shows}

  abbrev pub now : Session v → Screen
  now s = shows s.emu s.state s.cols s.rows

  module _ (i : ℕ) (r : Screen) where
    -- A broadcast takes every replica along.
    deliver_all-Shows :
        (x y : Screen) (message : Message) (hub : Hub)
        → IsAttached hub
        → Shows replica r (hub.cell i) x
        → paint x message ≡ y
        → Shows replica r ((deliver_all message hub).cell i) y
    deliver_all-Shows x y message hub a shown painted =
        subst (λ (sub : Subscription). Shows replica r sub y)
          (sym (cell-deliver_all message i hub a))
          (if_cases (λ (sub : Subscription). Shows replica r sub y) (member i hub.subs) _ _
            (λ _. delivered-Shows replica r x y message (hub.cell i) shown painted)
            (λ absent open_still. absurd (true≢false (sym (a.attached i open_still) ∙ absent))))

    pub flush_resyncs-Shows :
        (force : Bool) (s : Session v)
        → IsAttached s.hub
        → IsWellFormed s.state
        → Shows replica r (s.cell i) (now s)
        → Shows replica r ((flush_resyncs force (snapshot v s) s.hub).cell i) (now s)
    flush_resyncs-Shows force s a well shown =
        subst (λ (sub : Subscription). Shows replica r sub (now s))
          (sym (cell-flush_resyncs force (snapshot v s) i s.hub a))
          (if_cases (λ (sub : Subscription). Shows replica r sub (now s)) (member i s.subs) _ _
            (λ _. flush_sub-Shows replica force r s (s.cell i) (a.sound i) well shown) (λ _. shown))

    pub record ExactAt (hub : Hub) (x : Screen) (t : TermState) : Type 0 where
      pub attached : IsAttached hub
      pub tracked : IsWellFormed t
      pub exact : Shows replica r (hub.cell i) x

    -- A session that the replica `r` of viewer `i` agrees with.
    abbrev pub IsExact : Session v → Type 0
    IsExact s = ExactAt s.hub (now s) s.state

    pub broadcast-ExactAt :
        (x y : Screen) (message : Message) (hub : Hub) {t t' : TermState}
        → ExactAt hub x t
        → IsWellFormed t'
        → paint x message ≡ y
        → ExactAt (deliver_all message hub) y t'
    broadcast-ExactAt x y message hub e well painted = record {
      attached = deliver_all-IsAttached message hub e.attached;
      tracked = well;
      exact = deliver_all-Shows x y message hub e.attached e.exact painted;
    }

    pub write-IsExact : (chunk : Bytes) (s : Session v) → IsExact s → IsExact (write v chunk s)
    unfolding write take_output
    write-IsExact chunk s e =
        if_cases IsExact (not s.busy && not s.exited) _ _ (λ _. painted) (λ _. painted)
      where
        painted : IsExact (take_output v chunk s)
        painted =
            broadcast-ExactAt (now s) (now (take_output v chunk s)) (output_message v chunk) s.hub e
              (observe-IsWellFormed s.state chunk e.tracked)
              (replica.output_exact s.emu s.state s.cols s.rows chunk)

    pub write_some-IsExact :
        (written : Option Bytes) (s : Session v) → IsExact s → IsExact (write_some v written s)
    unfolding write_some
    write_some-IsExact none s e = e
    write_some-IsExact (some chunk) s e = write-IsExact chunk s e

    pub read_output-IsExact :
        (buf : Bytes) (s : Session v) → IsExact s → IsExact (read_output v buf s)
    unfolding read_output
    read_output-IsExact buf s e = write_some-IsExact (read_step s.pending buf).0 s e

    pub go_idle-IsExact : (s : Session v) → IsExact s → IsExact (go_idle v s)
    unfolding go_idle
    go_idle-IsExact s e =
        if_cases IsExact (s.closed || (s.exited || not s.busy)) _ _ (λ _. e) (λ _. e)

    apply_size-IsExact :
        (set : Bool) (c w : ℤ) (s : Session v) → IsExact s → IsExact (apply_size v set c w s).0
    unfolding apply_size announce_size
    apply_size-IsExact set c w s e =
        if_cases (λ (p : Session v × Option Error). IsExact p.0) (eqb_ℤ c s.cols && eqb_ℤ w s.rows)
          _ _ (λ _. e)
          λ moves.
            if_cases (λ (p : Session v × Option Error). IsExact p.0) (not set) _ _ (λ _. e)
              λ _.
                broadcast-ExactAt (now s) (now (resized v c w s))
                  (repaint_message v (resized v c w s)) s.hub e
                  (resize-IsWellFormed s.state e.tracked)
                  (resize_exact replica s.emu s.state s.cols s.rows c w e.tracked moves)

    pub follow-IsExact : (set : Bool) (s : Session v) → IsExact s → IsExact (follow v set s).0
    unfolding follow
    follow-IsExact set s e = apply_size-IsExact set (effective v s).cols (effective v s).rows s e

    pub resize-IsExact :
        (set : Bool) (c w : ℤ) (s : Session v) → IsExact s → IsExact (resize v set c w s).0
    unfolding resize
    resize-IsExact set c w s e =
        if_cases (λ (p : Session v × Option Error). IsExact p.0) (too_small c w) _ _ (λ _. e)
          λ _. follow-IsExact set (restated_base v c w s) e

    pub restated_view-IsExact :
        (j : ℕ) (c w : ℤ) (s : Session v) → IsExact s → IsExact (restated_view v j c w s)
    restated_view-IsExact j c w s e = record {
      attached = record {
        sound = e.attached.sound;
        attached = e.attached.attached;
        distinct = e.attached.distinct;
      };
      tracked = e.tracked;
      exact = e.exact;
    }

    pub resize_viewer-IsExact :
        (set : Bool) (j : ℕ) (c w : ℤ) (s : Session v)
        → IsExact s
        → IsExact (resize_viewer v set j c w s).0
    unfolding resize_viewer
    resize_viewer-IsExact set j c w s e =
        if_cases (λ (p : Session v × Option Error). IsExact p.0) (too_small c w) _ _ (λ _. e)
          λ _.
            if_cases (λ (p : Session v × Option Error). IsExact p.0) (not (member j s.subs)) _ _
              (λ _. e)
              λ _. follow-IsExact set (restated_view v j c w s) (restated_view-IsExact j c w s e)

    with_settling :
        (n : ℕ) (s : Session v)
        → IsExact s
        → IsExact (record s { hub = record s.hub { settling = n } })
    with_settling n s e = record {
      attached = record {
        sound = e.attached.sound;
        attached = e.attached.attached;
        distinct = e.attached.distinct;
      };
      tracked = e.tracked;
      exact = e.exact;
    }

    pub settle_size-IsExact :
        (set : Bool) (s : Session v) → IsExact s → IsExact (settle_size v set s)
    unfolding settle_size
    settle_size-IsExact set s e =
        if_cases IsExact (s.closed || s.exited) _ _ (λ _. with_settling (s.settling - 1) s e)
          λ _. follow-IsExact set (woken v s) (with_settling (s.settling - 1) s e)

    pub resync_tick-IsExact : (s : Session v) → IsExact s → IsExact (resync_tick v s)
    unfolding resync_tick
    resync_tick-IsExact s e =
        if_cases IsExact s.closed _ _ (λ _. idle)
          λ _. record {
            attached = flush_resyncs-IsAttached false _ _ idle.attached;
            tracked = e.tracked;
            exact = flush_resyncs-Shows false _ idle.attached e.tracked idle.exact;
          }
      where
        idle : IsExact (record s { hub = record s.hub { resync_timer = false } })
        idle = record {
          attached = record {
            sound = e.attached.sound;
            attached = e.attached.attached;
            distinct = e.attached.distinct;
          };
          tracked = e.tracked;
          exact = e.exact;
        }
