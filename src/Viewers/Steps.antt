-- ===== src/Viewers/Steps.antt =====
-- Histories of a session, seen by one of its viewers. A step is one section under the session's
-- lock, or what a reader takes from its channel; the steps of different goroutines come in any order.
use windrunner.Prelude.{
  ℕ, ◌≡◌, ◌≢◌, ◌⊎◌, ◌∙◌, refl, ap, Bool, true, false, Bytes, List, inl, inr, arith, if_cases, not,
  ◌==◌, subst, sym,
}
use windrunner.Prelude.Int.{ℤ}
use windrunner.Hub.Attached.{IsAttached}
use windrunner.Hub.Invariant.{AllSound}
use windrunner.Hub.{member, receive, resync_message, close_mark, retire_viewer}
use windrunner.Session.{
  Session, SpawnSpec, Metadata, start_session, no_hub, read_output, write_rest, end_stream,
  wait_exit, WaitAnswer, go_idle, set_metadata, set_metadata_if,
}
use windrunner.TermState.{initial}
use windrunner.TermState.Replay.{IsWellFormed}
use windrunner.TermState.WellFormed.{initial-IsWellFormed}
use windrunner.Vt.{Vt}
use windrunner.Viewers.Attach.{attach_with_other, attach_with-IsExact}
use windrunner.Viewers.Exact.{
  now, IsExact, read_output-IsExact, go_idle-IsExact, resize-IsExact, resize_viewer-IsExact,
  settle_size-IsExact, resync_tick-IsExact,
}
use windrunner.Viewers.Final.{
  painted, write_rest-IsExact, end_stream-IsExact, finish_viewer-IsExact, detach-IsExact,
  close_mark-IsExact, retire_viewer-IsExact, receive-IsExact, receive_other,
}
use windrunner.Viewers.Replica.{Replica, Shows}
use windrunner.Viewers.Sections.{
  Keeps, same_hub, read_output-Keeps, write_rest-Keeps, go_idle-Keeps, set_metadata_if-Keeps,
  end_stream-Keeps, resize-Keeps, resize_viewer-Keeps, settle_size-Keeps, resync_tick-Keeps,
  attach_with-Keeps, detach-Keeps, close_mark-Keeps, retire_viewer-Keeps, received-Keeps,
  finish_viewer-Keeps, shut-AllSound, shut_closed,
}
use windrunner.Viewers.{
  AttachOptions, attach_with, detach, received, resize, resize_viewer, settle_size, resync_tick,
  shut, finish_viewer, stop_idle_timer,
}

true≢false : true ≢ false
true≢false h = cc

module _ {v : Vt} (replica : Replica v) where
  open replica use {Screen, paint}

  -- What can happen next to a session and to the screen of viewer `i`. A subscription's number is
  -- not given twice while it is in the set. `finish` behind the lock comes at any time to one that
  -- is not in the set.
  pub data Step (i : ℕ) (s : Session v) (r : Screen) : Session v → Screen → Type 0 where
    output : (buf : Bytes) → Step i s r (read_output v buf s) r
    rest_written : Step i s r (write_rest v s) r
    stream_ends : Step i s r (end_stream v s) r
    child_ends : (answer : WaitAnswer) → Step i s r (wait_exit v answer s) r
    goes_idle : Step i s r (go_idle v s) r
    metadata_set : (metadata : Metadata) → Step i s r (set_metadata v metadata s).0 r
    metadata_set_if :
        (expected : ℕ) (metadata : Metadata)
        → Step i s r (set_metadata_if v expected metadata s).0 r
    resizes : (set : Bool) (cols rows : ℤ) → Step i s r (resize v set cols rows s).0 r
    viewer_resized :
        (set : Bool) (j : ℕ) (cols rows : ℤ) → Step i s r (resize_viewer v set j cols rows s).0 r
    settled : (set : Bool) → Step i s r (settle_size v set s) r
    timer_fires : Step i s r (resync_tick v s) r
    attached :
        (set : Bool) (options : AttachOptions)
        → member i s.subs ≡ false
        → Step i s r
            (attach_with v set i options s).0
            (paint r (resync_message (attach_with v set i options s).1))
    other_attached :
        (set : Bool) (j : ℕ) (options : AttachOptions)
        → i ≢ j
        → member j s.subs ≡ false
        → Step i s r (attach_with v set j options s).0 r
    detached : (j : ℕ) → Step i s r (detach v j s) r
    closing : (j : ℕ) → Step i s r (record s { hub = (close_mark j s.hub).0 }) r
    retired :
        (j : ℕ) → (s.cell j).done ≡ true → Step i s r (record s { hub = retire_viewer j s.hub }) r
    receives : Step i s r (received v i s) (painted replica r (receive i s.hub).0)
    other_receives : (j : ℕ) → i ≢ j → Step i s r (received v j s) r
    shuts : Step i s r (shut v s).0 r
    finishes : (j : ℕ) → member j s.subs ≡ false → Step i s r (finish_viewer v j s) r
    idle_timer_stops : Step i s r (stop_idle_timer v s) r

  -- What a session that has started can come to.
  pub data Reach (i : ℕ) : Session v → Screen → Type 0 where
    started :
        {s : Session v} (id : Bytes) (inherited : List Bytes) (spec : SpawnSpec) (r : Screen)
        → start_session v id inherited spec true ≡ inr s
        → Reach i s r
    later : {s s' : Session v} {r r' : Screen} → Reach i s r → Step i s r s' r' → Reach i s' r'

  start_session-state :
      (id : Bytes) (inherited : List Bytes) (spec : SpawnSpec) (s : Session v)
      → start_session v id inherited spec true ≡ inr s
      → s.state ≡ initial
  unfolding start_session
  start_session-state id inherited spec s h = ground arith

  -- A new session has no viewers.
  start_session-hub :
      (id : Bytes) (inherited : List Bytes) (spec : SpawnSpec) (s : Session v)
      → start_session v id inherited spec true ≡ inr s
      → s.hub ≡ no_hub
  unfolding start_session
  start_session-hub id inherited spec s h = ground arith

  Step-IsExact :
      (i : ℕ) {s s' : Session v} {r r' : Screen}
      → Step i s r s' r'
      → s'.closed ≡ false
      → IsExact replica i r s
      → IsExact replica i r' s'
  unfolding wait_exit set_metadata set_metadata_if
  Step-IsExact i {s} {r = r} (output buf) still e = read_output-IsExact replica i r buf s e
  Step-IsExact i {s} {r = r} rest_written still e = write_rest-IsExact replica i r s e
  Step-IsExact i {s} {r = r} stream_ends still e = end_stream-IsExact replica i r s e
  Step-IsExact i (child_ends answer) still e = e
  Step-IsExact i {s} {r = r} goes_idle still e = go_idle-IsExact replica i r s e
  Step-IsExact i (metadata_set metadata) still e = e
  Step-IsExact i {s} {r = r} (metadata_set_if expected metadata) still e =
      if_cases (λ (p : Session v × ℕ × Bool). IsExact replica i r p.0)
        (not (s.revision == expected)) _ _ (λ _. e) (λ _. e)
  Step-IsExact i {s} {r = r} (resizes set c w) still e = resize-IsExact replica i r set c w s e
  Step-IsExact i {s} {r = r} (viewer_resized set j c w) still e =
      resize_viewer-IsExact replica i r set j c w s e
  Step-IsExact i {s} {r = r} (settled set) still e = settle_size-IsExact replica i r set s e
  Step-IsExact i {s} {r = r} timer_fires still e = resync_tick-IsExact replica i r s e
  Step-IsExact i {s} {r = r} (attached set options fresh) still e =
      attach_with-IsExact replica set i options s r fresh e.attached e.tracked
  Step-IsExact i {s} {r = r} (other_attached set j options other fresh) still e =
      attach_with_other replica i r set j options s other fresh e
  Step-IsExact i {s} {r = r} (detached j) still e = detach-IsExact replica i j r s e
  Step-IsExact i {s} {r = r} (closing j) still e = close_mark-IsExact replica i j r s e
  Step-IsExact i {s} {r = r} (retired j ended) still e =
      retire_viewer-IsExact replica i j r s ended e
  Step-IsExact i {s} {r = r} receives still e = receive-IsExact replica i r s e
  Step-IsExact i {s} {r = r} (other_receives j other) still e =
      receive_other replica i j r s other e
  Step-IsExact i {s} shuts still e = absurd (true≢false (sym (shut_closed s) ∙ still))
  Step-IsExact i {s} {r = r} (finishes j left) still e =
      finish_viewer-IsExact replica i j r s left e
  Step-IsExact i idle_timer_stops still e = e

  -- But for the close, every section keeps subscriptions sound and the mark of the close.
  Step-Keeps :
      (i : ℕ) {s s' : Session v} {r r' : Screen}
      → Step i s r s' r'
      → Keeps s s' ⊎ (s' ≡ (shut v s).0)
  unfolding wait_exit set_metadata
  Step-Keeps i {s} (output buf) = inl (read_output-Keeps buf s)
  Step-Keeps i {s} rest_written = inl (write_rest-Keeps s)
  Step-Keeps i {s} stream_ends = inl (end_stream-Keeps s)
  Step-Keeps i {s} (child_ends answer) = inl (same_hub s _ refl)
  Step-Keeps i {s} goes_idle = inl (go_idle-Keeps s)
  Step-Keeps i {s} (metadata_set metadata) = inl (same_hub s _ refl)
  Step-Keeps i {s} (metadata_set_if expected metadata) =
      inl (set_metadata_if-Keeps expected metadata s)
  Step-Keeps i {s} (resizes set c w) = inl (resize-Keeps set c w s)
  Step-Keeps i {s} (viewer_resized set j c w) = inl (resize_viewer-Keeps set j c w s)
  Step-Keeps i {s} (settled set) = inl (settle_size-Keeps set s)
  Step-Keeps i {s} timer_fires = inl (resync_tick-Keeps s)
  Step-Keeps i {s} (attached set options fresh) = inl (attach_with-Keeps set i options s)
  Step-Keeps i {s} (other_attached set j options other fresh) =
      inl (attach_with-Keeps set j options s)
  Step-Keeps i {s} (detached j) = inl (detach-Keeps j s)
  Step-Keeps i {s} (closing j) = inl (close_mark-Keeps j s)
  Step-Keeps i {s} (retired j ended) = inl (retire_viewer-Keeps j s)
  Step-Keeps i {s} receives = inl (received-Keeps i s)
  Step-Keeps i {s} (other_receives j other) = inl (received-Keeps j s)
  Step-Keeps i shuts = inr refl
  Step-Keeps i {s} (finishes j left) = inl (finish_viewer-Keeps j s)
  Step-Keeps i {s} idle_timer_stops = inl (same_hub s _ refl)

  Step-AllSound :
      (i : ℕ) {s s' : Session v} {r r' : Screen}
      → Step i s r s' r'
      → AllSound s.hub
      → AllSound s'.hub
  Step-AllSound i {s} step all = elim (Step-Keeps i step) [
    | inl k ↦ k.sound all
    | inr is ↦ subst (λ (t : Session v). AllSound t.hub) (sym is) (shut-AllSound s all)
  ]

  Step-open :
      (i : ℕ) {s s' : Session v} {r r' : Screen}
      → Step i s r s' r'
      → s'.closed ≡ false
      → s.closed ≡ false
  Step-open i {s} step still = elim (Step-Keeps i step) [
    | inl k ↦ sym k.still ∙ still
    | inr is ↦
        absurd
          (true≢false (sym (shut_closed s) ∙ sym (ap (λ (t : Session v). t.closed) is) ∙ still))
  ]

  pub no_hub-IsAttached : IsAttached no_hub
  no_hub-IsAttached = record {
    sound = λ j. record {
      healthy = refl;
      bounded = omega arith;
      roomy = omega arith;
      closed_if_done = refl;
      owed_is_open = λ owed. cc;
      owed_resyncs = λ owed. cc;
      lagged_is_done = λ lagged. cc;
      lagged_never_resyncs = λ lagged. cc;
    };
    attached = λ j open_still. cc;
    distinct = tt;
  }

  started-IsExact :
      (i : ℕ) (id : Bytes) (inherited : List Bytes) (spec : SpawnSpec) (s : Session v) (r : Screen)
      → start_session v id inherited spec true ≡ inr s
      → IsExact replica i r s
  started-IsExact i id inherited spec s r h =
      let is_no_hub = sym (start_session-hub id inherited spec s h) in
      record {
        attached = subst IsAttached is_no_hub no_hub-IsAttached;
        tracked =
            subst IsWellFormed (sym (start_session-state id inherited spec s h))
              initial-IsWellFormed;
        exact =
            subst (λ hub. Shows replica r (hub.cell i) (now replica s)) is_no_hub
              (λ open_still. cc);
      }

  pub Reach-AllSound : (i : ℕ) {s : Session v} {r : Screen} → Reach i s r → AllSound s.hub
  Reach-AllSound i {s} (started id inherited spec r h) =
      (started-IsExact i id inherited spec s r h).attached.sound
  Reach-AllSound i (later reached step) = Step-AllSound i step (Reach-AllSound i reached)

  -- As long as the session is not closed.
  pub Reach-IsExact :
      (i : ℕ) {s : Session v} {r : Screen} → Reach i s r → s.closed ≡ false → IsExact replica i r s
  Reach-IsExact i {s} (started id inherited spec r h) still =
      started-IsExact i id inherited spec s r h
  Reach-IsExact i (later reached step) still =
      Step-IsExact i step still (Reach-IsExact i reached (Step-open i step still))
