-- ===== src/Viewers/Final.antt =====
-- What the end of the stream, the close of a session, a detachment and a reader's receive do to the
-- replica of a viewer.
use windrunner.Prelude.{
  ℕ, ◌≡◌, ◌≢◌, refl, sym, ap, subst, ◌∙◌, true, false, List, [], ◌∷◌, Option, none, some, arith,
  inl, inr, Bool-cases, if_cases, ◌==◌, ==_iff,
}
use windrunner.Boundary.{read_end}
use windrunner.Channel
use windrunner.Hub.Attached.{IsAttached}
use windrunner.Hub.Flush.{
  cell-flush_resyncs, flush_resyncs-IsAttached, close_subscription-IsAttached,
  close_mark-IsAttached, retire_viewer-IsAttached, finish_each-done, cell-finish_each,
  close_subscription_done, close_subscription_other, flush_sub_forced, finish_sub_queue,
  flush_sub_done,
}
use windrunner.Hub.Invariant.{IsSound, AllSound, finish_each-AllSound, cell-retire_viewer}
use windrunner.Hub.{
  Hub, Message, Subscription, flush_resyncs, flush_sub, finish_sub, finish_each, close_subscription,
  close_mark, retire_viewer, receive, member, put,
}
use windrunner.Hub.Sets.{IsDistinct}
use windrunner.Session.{Session, snapshot, end_stream, write_rest}
use windrunner.Vt.{Vt}
use windrunner.Viewers.Exact.{now, IsExact, write_some-IsExact, flush_resyncs-Shows}
use windrunner.Viewers.Replica.{Replica, Shows, paint_all}
use windrunner.Viewers.{shut, finish_viewer, detach, received}

true≢false : true ≢ false
true≢false h = cc

-- A hub in which nothing is open needs nobody in the set.
over-IsAttached :
    (hub : Hub)
    → AllSound hub
    → ((i : ℕ) → (hub.cell i).done ≡ true)
    → IsDistinct hub.subs
    → IsAttached hub
over-IsAttached hub sound over distinct = record {
  sound = sound;
  attached = λ i open_still. ground (arith, over i);
  distinct = distinct;
}

-- A reader's receive takes nothing but the head of the queue.
pub receive-IsAttached : (i : ℕ) (hub : Hub) → IsAttached hub → IsAttached (receive i hub).1
unfolding receive Channel.receive
receive-IsAttached i hub a = record {
  sound = λ j. if_cases IsSound (i == j) _ _ (λ _. taken) (λ _. a.sound j);
  attached = λ j open_still. ground (arith, a.attached j, ==_iff i j);
  distinct = a.distinct;
}
  where
    taken : IsSound (record (hub.cell i) {
      channel = record (hub.cell i).channel {
        queue = Channel.behind_first (hub.cell i).channel.queue;
      };
    })
    taken = ground (arith, a.sound i, Channel.length-behind_first (hub.cell i).channel.queue)

module _ {v : Vt} (replica : Replica v) where
  open replica use {Screen, paint}

  gone :
      (x : Screen) (hub : Hub) (i : ℕ) (r : Screen)
      → (hub.cell i).done ≡ true
      → Shows replica r (hub.cell i) x
  gone x hub i r ended open_still = cc

  module _ (i : ℕ) (r : Screen) (s : Session v) (e : IsExact replica i r s)
      (open_still : (s.cell i).done ≡ false) where
    abbrev flushed : Hub
    flushed = flush_resyncs true (snapshot v s) s.hub

    flushed-IsAttached : IsAttached flushed
    flushed-IsAttached = flush_resyncs-IsAttached true (snapshot v s) s.hub e.attached

    cell_flushed : flushed.cell i ≡ (flush_sub true (snapshot v s) (s.cell i)).0
    cell_flushed =
        cell-flush_resyncs true (snapshot v s) i s.hub e.attached
        ∙ ground (arith, e.attached.attached i open_still)

    open_flushed : (flushed.cell i).done ≡ false
    open_flushed =
        ap (λ (sub : Subscription). sub.done) cell_flushed
        ∙ flush_sub_done true (snapshot v s) (s.cell i)
        ∙ open_still

    -- A forced flush leaves a viewer that is not gone what brings it to the last state.
    flushed_queue :
        (paint_all replica r (flushed.cell i).channel.queue ≡ now replica s)
        × ((flushed.cell i).missed ≡ false)
        × (member i flushed.subs ≡ true)
    flushed_queue =
        let current =
          ap (λ (sub : Subscription). sub.missed) cell_flushed
          ∙ flush_sub_forced (snapshot v s) (s.cell i) open_still in
        (
          flush_resyncs-Shows replica i r true s e.attached e.tracked e.exact open_flushed current,
          current,
          flushed-IsAttached.attached i open_flushed,
        )

    -- So does `finish` behind it.
    finished_queue :
        paint_all replica r ((finish_each flushed.subs flushed).cell i).channel.queue
        ≡ now replica s
    finished_queue =
        ap (paint_all replica r) (
          ap (λ (sub : Subscription). sub.channel.queue) finished
          ∙ finish_sub_queue (flushed.cell i) (flushed-IsAttached.sound i))
        ∙ flushed_queue.0
      where
        finished : (finish_each flushed.subs flushed).cell i ≡ finish_sub (flushed.cell i)
        finished =
            cell-finish_each flushed.subs i flushed flushed-IsAttached.distinct
            ∙ ground (arith, flushed-IsAttached.attached i open_flushed)

  pub end_stream-IsExact :
      (i : ℕ) (r : Screen) (s : Session v)
      → IsExact replica i r s
      → IsExact replica i r (end_stream v s)
  unfolding end_stream
  end_stream-IsExact i r s e =
      let flushed = flush_resyncs true (snapshot v s) s.hub in
      let a = flush_resyncs-IsAttached true (snapshot v s) s.hub e.attached in
      let over : (j : ℕ) → ((finish_each flushed.subs flushed).cell j).done ≡ true =
        λ j. finish_each-done flushed j a in
      record {
        attached = over-IsAttached _ (finish_each-AllSound flushed.subs flushed a.sound) over tt;
        tracked = e.tracked;
        exact = gone _ (finish_each flushed.subs flushed) i r (over i);
      }

  pub write_rest-IsExact :
      (i : ℕ) (r : Screen) (s : Session v)
      → IsExact replica i r s
      → IsExact replica i r (write_rest v s)
  unfolding write_rest
  write_rest-IsExact i r s e = write_some-IsExact replica i r (read_end s.pending) s e

  -- `finish` on what is not in the set of a session that is not closed finds it done.
  pub finish_viewer-IsExact :
      (i j : ℕ) (r : Screen) (s : Session v)
      → member j s.subs ≡ false
      → IsExact replica i r s
      → IsExact replica i r (finish_viewer v j s)
  unfolding finish_sub
  finish_viewer-IsExact i j r s left e =
      let cells : (k : ℕ) → (put s.hub j (finish_sub (s.cell j))).cell k ≡ s.cell k =
        λ k. ground (arith, e.attached.attached j, ==_iff j k) in
      record {
        attached = record {
          sound = λ k. subst IsSound (sym (cells k)) (e.attached.sound k);
          attached = λ k open_still. ground (arith, e.attached.attached k, cells k);
          distinct = e.attached.distinct;
        };
        tracked = e.tracked;
        exact =
            subst (λ (sub : Subscription). Shows replica r sub (now replica s)) (sym (cells i))
              e.exact;
      }

  -- Where the session is closed, a viewer that is not gone is left what brings its replica to the
  -- state at that moment.
  pub queue-shut :
      (i : ℕ) (r : Screen) (s : Session v)
      → IsExact replica i r s
      → s.closed ≡ false
      → (s.cell i).done ≡ false
      → (paint_all replica r ((shut v s).0.cell i).channel.queue ≡ now replica s)
        × (((shut v s).0.cell i).missed ≡ false)
        × (member i (shut v s).1 ≡ true)
  unfolding shut
  queue-shut i r s e still open_still =
      if_cases
        (λ (p : Session v × List ℕ).
          (paint_all replica r (p.0.cell i).channel.queue ≡ now replica s)
          × ((p.0.cell i).missed ≡ false)
          × (member i p.1 ≡ true))
        s.closed _ _ (λ over. absurd (true≢false (sym over ∙ still)))
        (λ _. flushed_queue i r s e open_still)

  -- When the stream of output ends, a viewer that is not gone is left what brings its replica, which
  -- agreed with the session until then, to the session's last state: also if it was owed a resync,
  -- and if its queue was full.
  pub queue-end_stream :
      (i : ℕ) (r : Screen) (s : Session v)
      → IsExact replica i r s
      → (s.cell i).done ≡ false
      → (paint_all replica r ((end_stream v s).cell i).channel.queue ≡ now replica (end_stream v s))
        × (((end_stream v s).cell i).done ≡ true)
        × (((end_stream v s).cell i).channel.closed ≡ true)
  unfolding end_stream
  queue-end_stream i r s e open_still =
      let flushed = flush_resyncs true (snapshot v s) s.hub in
      let a = flush_resyncs-IsAttached true (snapshot v s) s.hub e.attached in
      let over = finish_each-done flushed i a in
      (
        finished_queue i r s e open_still,
        over,
        (finish_each-AllSound flushed.subs flushed a.sound i).closed_if_done ∙ over,
      )

  pub detach-IsExact :
      (i j : ℕ) (r : Screen) (s : Session v)
      → IsExact replica i r s
      → IsExact replica i r (detach v j s)
  detach-IsExact i j r s e = record {
    attached = close_subscription-IsAttached j s.hub e.attached;
    tracked = e.tracked;
    exact = elim (Bool-cases (j == i)) [
      | inl same ↦ gone (now replica s) (close_subscription j s.hub) i r (
          subst (λ (k : ℕ). ((close_subscription j s.hub).cell k).done ≡ true) ((==_iff j i).0 same)
            (close_subscription_done j s.hub))
      | inr other ↦
          subst (λ (sub : Subscription). Shows replica r sub (now replica s))
            (sym (close_subscription_other j i s.hub (λ same. ground arith))) e.exact
    ];
  }

  pub close_mark-IsExact :
      (i j : ℕ) (r : Screen) (s : Session v)
      → IsExact replica i r s
      → IsExact replica i r (record s { hub = (close_mark j s.hub).0 })
  unfolding close_mark finish_sub
  close_mark-IsExact i j r s e = record {
    attached = close_mark-IsAttached j s.hub e.attached;
    tracked = e.tracked;
    exact = λ open_still current. ground (arith, e.exact);
  }

  pub retire_viewer-IsExact :
      (i j : ℕ) (r : Screen) (s : Session v)
      → (s.cell j).done ≡ true
      → IsExact replica i r s
      → IsExact replica i r (record s { hub = retire_viewer j s.hub })
  retire_viewer-IsExact i j r s ended e = record {
    attached = retire_viewer-IsAttached j s.hub ended e.attached;
    tracked = e.tracked;
    exact =
        subst (λ (cell : ℕ → Subscription). Shows replica r (cell i) (now replica s))
          (sym (cell-retire_viewer j s.hub)) e.exact;
  }

  -- The replica of a viewer that has received.
  abbrev pub painted : Screen → Option Message → Screen
  painted r none = r
  painted r (some message) = paint r message

  painted-queue :
      (r : Screen) (queue : List Message)
      → paint_all replica (painted r (Channel.first_of_queue queue)) (Channel.behind_first queue)
        ≡ paint_all replica r queue
  painted-queue r [] = refl
  painted-queue r (message ∷ queue) = refl

  pub receive-IsExact :
      (i : ℕ) (r : Screen) (s : Session v)
      → IsExact replica i r s
      → IsExact replica i (painted r (receive i s.hub).0) (received v i s)
  unfolding receive Channel.receive
  receive-IsExact i r s e = record {
    attached = receive-IsAttached i s.hub e.attached;
    tracked = e.tracked;
    exact = λ open_still current. ground (arith, e.exact, painted-queue r (s.cell i).channel.queue);
  }

  pub receive_other :
      (i j : ℕ) (r : Screen) (s : Session v)
      → i ≢ j
      → IsExact replica i r s
      → IsExact replica i r (received v j s)
  unfolding receive Channel.receive
  receive_other i j r s other e = record {
    attached = receive-IsAttached j s.hub e.attached;
    tracked = e.tracked;
    exact = λ open_still current. ground (arith, e.exact);
  }
