-- ===== src/Viewers/Sections.antt =====
-- What each section of a session keeps, also behind the one in which `close` empties the set: that
-- subscriptions are sound, and that a closed session stays closed.
use windrunner.Prelude.{
  ℕ, ◌≡◌, refl, sym, subst, ◌∙◌, Bool, true, false, not, ◌&&◌, ◌||◌, Bytes, List, Option, none,
  some, ◌==◌, arith, if_cases,
}
use windrunner.Prelude.Int.{ℤ, eqb_ℤ}
use windrunner.Boundary.{read_step, read_end}
use windrunner.Channel
use windrunner.Hub.Invariant.{
  IsSound, AllSound, deliver_each-AllSound, finish_each-AllSound, flush_resyncs-AllSound,
  close_mark-AllSound, close_subscription-AllSound, finish_sub-IsSound, retire_viewer-AllSound,
}
use windrunner.Hub.Statements.{
  deliver_all-Settles, flush_resyncs-Settles, finish_each-Settles, close_subscription-Settles,
  retire_viewer-Settles,
}
use windrunner.Hub.{
  Hub, Message, Snapshot, Subscription, put, member, deliver_all, flush_resyncs, close_mark,
  retire_viewer, receive,
}
use windrunner.Session.{
  Session, Error, too_small, take_output, write, write_some, read_output, write_rest, end_stream,
  snapshot, Metadata, go_idle, set_metadata_if,
}
use windrunner.Viewers.Attach.{fresh-IsSound}
use windrunner.Viewers.{
  AttachOptions, announce_size, apply_size, effective, follow, restated_base, resize, restated_view,
  resize_viewer, woken, settle_size, resync_tick, enlisted, attach_with, detach, received, shut,
  finish_viewer,
}
use windrunner.Vt.{Vt}

pub put-AllSound :
    (hub : Hub) (i : ℕ) (sub : Subscription) → AllSound hub → IsSound sub → AllSound (put hub i sub)
put-AllSound hub i sub all s j = if_cases IsSound (i == j) sub (hub.cell j) (λ _. s) (λ _. all j)

pub receive-AllSound : (i : ℕ) (hub : Hub) → AllSound hub → AllSound (receive i hub).1
unfolding receive Channel.receive
receive-AllSound i hub all =
    put-AllSound hub i _ all
      (ground (arith, all i, Channel.length-behind_first (hub.cell i).channel.queue))

module _ {v : Vt} where
  pub record Keeps (s s' : Session v) : Type 0 where
    pub sound : AllSound s.hub → AllSound s'.hub
    pub still : s'.closed ≡ s.closed

  pub same_hub : (s s' : Session v) → s'.hub ≡ s.hub → Keeps s s'
  same_hub s s' same = record { sound = λ all. subst AllSound (sym same) all; still = rw same refl }

  deliver_all-Keeps :
      (message : Message) (s s' : Session v) → s'.hub ≡ deliver_all message s.hub → Keeps s s'
  unfolding deliver_all
  deliver_all-Keeps message s s' same = record {
    sound = λ all. subst AllSound (sym same) (deliver_each-AllSound message s.subs s.hub all);
    still = rw same (deliver_all-Settles message s.hub).still;
  }

  write_some-Keeps : (written : Option Bytes) (s : Session v) → Keeps s (write_some v written s)
  unfolding write_some write take_output
  write_some-Keeps none s = same_hub s s refl
  write_some-Keeps (some chunk) s =
      if_cases (Keeps s) (not s.busy && not s.exited) _ _ (λ _. deliver_all-Keeps _ s _ refl)
        (λ _. deliver_all-Keeps _ s _ refl)

  pub read_output-Keeps : (buf : Bytes) (s : Session v) → Keeps s (read_output v buf s)
  unfolding read_output
  read_output-Keeps buf s =
      let k = write_some-Keeps (read_step s.pending buf).0 s in
      record { sound = k.sound; still = k.still }

  pub write_rest-Keeps : (s : Session v) → Keeps s (write_rest v s)
  unfolding write_rest
  write_rest-Keeps s =
      let k = write_some-Keeps (read_end s.pending) s in record { sound = k.sound; still = k.still }

  pub go_idle-Keeps : (s : Session v) → Keeps s (go_idle v s)
  unfolding go_idle
  go_idle-Keeps s = record {
    sound = λ all.
        if_cases (λ (t : Session v). AllSound t.hub) (s.closed || (s.exited || not s.busy)) _ _
          (λ _. all) (λ _. all);
    still =
        if_cases (λ (t : Session v). t.closed ≡ s.closed) (s.closed || (s.exited || not s.busy)) _ _
          (λ _. refl) (λ _. refl);
  }

  pub set_metadata_if-Keeps :
      (expected : ℕ) (metadata : Metadata) (s : Session v)
      → Keeps s (set_metadata_if v expected metadata s).0
  unfolding set_metadata_if
  set_metadata_if-Keeps expected metadata s =
      if_cases (λ (p : Session v × ℕ × Bool). Keeps s p.0) (not (s.revision == expected)) _ _
        (λ _. same_hub s _ refl) (λ _. same_hub s _ refl)

  pub end_stream-Keeps : (s : Session v) → Keeps s (end_stream v s)
  unfolding end_stream
  end_stream-Keeps s =
      let flushed = flush_resyncs true (snapshot v s) s.hub in
      record {
        sound = λ all.
            finish_each-AllSound flushed.subs flushed
              (flush_resyncs-AllSound true (snapshot v s) s.hub all);
        still =
            (finish_each-Settles flushed.subs flushed).still
            ∙ (flush_resyncs-Settles true (snapshot v s) s.hub).still;
      }

  follow-Keeps : (set : Bool) (s : Session v) → Keeps s (follow v set s).0
  unfolding follow apply_size announce_size
  follow-Keeps set s =
      let P : Session v × Option Error → Type 0 = λ p. Keeps s p.0 in
      if_cases P (eqb_ℤ (effective v s).cols s.cols && eqb_ℤ (effective v s).rows s.rows) _ _
        (λ _. same_hub s s refl)
        (λ _. if_cases P (not set) _ _ (λ _. same_hub s s refl) (λ _. deliver_all-Keeps _ s _ refl))

  -- A change that leaves subscriptions and the mark of the close alone, and then a section.
  behind_change :
      (s t s' : Session v) → t.cell ≡ s.cell → t.closed ≡ s.closed → Keeps t s' → Keeps s s'
  behind_change s t s' cells closed k = record {
    sound = λ all.
        k.sound (λ i. subst (λ (cell : ℕ → Subscription). IsSound (cell i)) (sym cells) (all i));
    still = k.still ∙ closed;
  }

  pub resize-Keeps : (set : Bool) (c w : ℤ) (s : Session v) → Keeps s (resize v set c w s).0
  unfolding resize
  resize-Keeps set c w s =
      if_cases (λ (p : Session v × Option Error). Keeps s p.0) (too_small c w) _ _
        (λ _. same_hub s s refl)
        (λ _.
          behind_change s (restated_base v c w s) _ refl refl
            (follow-Keeps set (restated_base v c w s)))

  pub resize_viewer-Keeps :
      (set : Bool) (j : ℕ) (c w : ℤ) (s : Session v) → Keeps s (resize_viewer v set j c w s).0
  unfolding resize_viewer
  resize_viewer-Keeps set j c w s =
      if_cases (λ (p : Session v × Option Error). Keeps s p.0) (too_small c w) _ _
        (λ _. same_hub s s refl)
        λ _.
          if_cases (λ (p : Session v × Option Error). Keeps s p.0) (not (member j s.subs)) _ _
            (λ _. same_hub s s refl)
            λ _.
              behind_change s (restated_view v j c w s) _ refl refl
                (follow-Keeps set (restated_view v j c w s))

  pub settle_size-Keeps : (set : Bool) (s : Session v) → Keeps s (settle_size v set s)
  unfolding settle_size
  settle_size-Keeps set s =
      if_cases (Keeps s) (s.closed || s.exited) _ _
        (λ _. behind_change s (woken v s) _ refl refl (same_hub (woken v s) (woken v s) refl))
        (λ _. behind_change s (woken v s) _ refl refl (follow-Keeps set (woken v s)))

  pub resync_tick-Keeps : (s : Session v) → Keeps s (resync_tick v s)
  unfolding resync_tick
  resync_tick-Keeps s =
      let idle = record s { hub = record s.hub { resync_timer = false } } in
      if_cases (Keeps s) s.closed _ _
        (λ _. behind_change s idle _ refl refl (same_hub idle idle refl))
        λ _. behind_change s idle _ refl refl (record {
          sound = λ all. flush_resyncs-AllSound false (snapshot v idle) idle.hub all;
          still = (flush_resyncs-Settles false (snapshot v idle) idle.hub).still;
        })

  enlisted-Keeps :
      (i : ℕ) (options : AttachOptions) (s : Session v) → Keeps s (enlisted v i options s)
  enlisted-Keeps i options s = record {
    sound = λ all. put-AllSound s.hub i _ all (fresh-IsSound options true);
    still = refl;
  }

  compose : (s t s' : Session v) → Keeps s t → Keeps t s' → Keeps s s'
  compose s t s' k l = record { sound = λ all. l.sound (k.sound all); still = l.still ∙ k.still }

  pub attach_with-Keeps :
      (set : Bool) (i : ℕ) (options : AttachOptions) (s : Session v)
      → Keeps s (attach_with v set i options s).0
  unfolding attach_with
  attach_with-Keeps set i options s =
      let s' = enlisted v i options s in
      let stated = restated_view v i options.cols options.rows s' in
      if_cases (λ (p : Session v × Snapshot). Keeps s p.0) (s.exited || s.closed) _ _
        (λ _. record {
          sound = λ all.
              put-AllSound s.hub i _ all (finish_sub-IsSound _ (fresh-IsSound options false));
          still = refl;
        })
        λ _.
          if_cases (Keeps s) (not (too_small options.cols options.rows)) _ _
            (λ _.
              compose s s' _ (enlisted-Keeps i options s)
                (behind_change s' stated _ refl refl (follow-Keeps set stated)))
            (λ _. enlisted-Keeps i options s)

  pub detach-Keeps : (j : ℕ) (s : Session v) → Keeps s (detach v j s)
  detach-Keeps j s = record {
    sound = close_subscription-AllSound j s.hub;
    still = (close_subscription-Settles j s.hub).still;
  }

  pub close_mark-Keeps :
      (j : ℕ) (s : Session v) → Keeps s (record s { hub = (close_mark j s.hub).0 })
  unfolding close_mark
  close_mark-Keeps j s = record { sound = close_mark-AllSound j s.hub; still = refl }

  pub retire_viewer-Keeps :
      (j : ℕ) (s : Session v) → Keeps s (record s { hub = retire_viewer j s.hub })
  retire_viewer-Keeps j s = record {
    sound = retire_viewer-AllSound j s.hub;
    still = (retire_viewer-Settles j s.hub).still;
  }

  pub received-Keeps : (j : ℕ) (s : Session v) → Keeps s (received v j s)
  unfolding receive
  received-Keeps j s = record { sound = receive-AllSound j s.hub; still = refl }

  pub finish_viewer-Keeps : (j : ℕ) (s : Session v) → Keeps s (finish_viewer v j s)
  finish_viewer-Keeps j s = record {
    sound = λ all. put-AllSound s.hub j _ all (finish_sub-IsSound (s.cell j) (all j));
    still = refl;
  }

  -- Only the close does not keep the mark, and it does not take it back.
  pub shut-AllSound : (s : Session v) → AllSound s.hub → AllSound (shut v s).0.hub
  unfolding shut
  shut-AllSound s all =
      if_cases (λ (p : Session v × List ℕ). AllSound p.0.hub) s.closed _ _ (λ _. all)
        (λ _. flush_resyncs-AllSound true (snapshot v s) s.hub all)

  pub shut_closed : (s : Session v) → (shut v s).0.closed ≡ true
  unfolding shut
  shut_closed s = ground arith
