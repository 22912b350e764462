-- ===== src/Viewers/Late.antt =====
-- An attachment between the end of the output and the end of the child.
use windrunner.Prelude.{
  ℕ, ◌≡◌, refl, ap, ◌∙◌, Bool, true, false, not, ◌&&◌, ◌||◌, [], length, Option, if_cases, arith,
}
use windrunner.Prelude.Int.{eqb_ℤ}
use windrunner.Hub.Attached.{IsAttached, cell-deliver_all}
use windrunner.Hub.Invariant.{IsSound, delivered}
use windrunner.Hub.{Hub, Message, Snapshot, Subscription, member, deliver_all}
use windrunner.Session.{Session, Error, WaitAnswer, too_small, wait_exit}
use windrunner.Viewers.Attach.{enlisted-IsAttached, fresh-IsSound}
use windrunner.Viewers.{
  AttachOptions, effective, resized, repaint_message, announce_size, apply_size, follow, enlisted,
  restated_view, attach_with,
}
use windrunner.Vt.{Vt}

delivered_fresh :
    (message : Message) (sub : Subscription)
    → IsSound sub
    → sub.done ≡ false
    → sub.channel.queue ≡ []
    → (delivered message sub).done ≡ false
unfolding delivered
delivered_fresh message sub sound open_still empty = ground (arith, ap length empty)

module _ (i : ℕ) where
  -- Nothing is queued, and the channel is open.
  record IsFresh (hub : Hub) : Type 0 where
    attached : IsAttached hub
    open_still : (hub.cell i).done ≡ false
    empty : (hub.cell i).channel.queue ≡ []

  deliver_all_fresh :
      (message : Message) (hub : Hub)
      → IsFresh hub
      → ((deliver_all message hub).cell i).done ≡ false
  deliver_all_fresh message hub f =
      ap (λ (sub : Subscription). sub.done) (cell-deliver_all message i hub f.attached)
      ∙ if_cases (λ (sub : Subscription). sub.done ≡ false) (member i hub.subs) _ _
          (λ _. delivered_fresh message (hub.cell i) (f.attached.sound i) f.open_still f.empty)
          (λ _. f.open_still)

module _ {v : Vt} (i : ℕ) where
  abbrev Waits : Session v → Session v → Type 0
  Waits s t = ((t.cell i).done ≡ false) × (t.reading ≡ s.reading)

  follow_fresh : (set : Bool) (s : Session v) → IsFresh i s.hub → Waits s (follow v set s).0
  unfolding follow apply_size announce_size
  follow_fresh set s f =
      let c = (effective v s).cols in
      let w = (effective v s).rows in
      let P : Session v × Option Error → Type 0 = λ p. Waits s p.0 in
      if_cases P (eqb_ℤ c s.cols && eqb_ℤ w s.rows) _ _ (λ _. (f.open_still, refl))
        λ _.
          if_cases P (not set) _ _ (λ _. (f.open_still, refl))
            λ _. (deliver_all_fresh i (repaint_message v (resized v c w s)) s.hub f, refl)

  enlisted-IsFresh :
      (options : AttachOptions) (s : Session v)
      → IsAttached s.hub
      → member i s.subs ≡ false
      → IsFresh i (enlisted v i options s).hub
  enlisted-IsFresh options s a absent = record {
    attached = enlisted-IsAttached s.hub i _ a (fresh-IsSound options true) absent;
    open_still = ground arith;
    empty = ground arith;
  }

  -- Where the output has ended and the end of the child is not yet recorded, AttachWith hands back
  -- an open subscription; when the end of the child is recorded behind that, the subscription is
  -- open still, and readLoop, which finishes subscriptions, has returned.
  pub attach_with-late :
      (set : Bool) (options : AttachOptions) (answer : WaitAnswer) (s : Session v)
      → IsAttached s.hub
      → member i s.subs ≡ false
      → s.exited || s.closed ≡ false
      → s.reading ≡ false
      → let t = wait_exit v answer (attach_with v set i options s).0 in
        (t.exited ≡ true) × ((t.cell i).done ≡ false) × (t.reading ≡ false)
  unfolding wait_exit attach_with
  attach_with-late set options answer s a absent alive ended =
      let attached : Waits s (attach_with v set i options s).0 =
        if_cases (λ (p : Session v × Snapshot). Waits s p.0) (s.exited || s.closed) _ _
          (λ over. absurd (ground arith))
          λ _.
            if_cases (λ t. Waits s t) (not (too_small options.cols options.rows)) _ _
              (λ _.
                follow_fresh set
                  (restated_view v i options.cols options.rows (enlisted v i options s)) stated)
              (λ _. (fresh.open_still, refl)) in
      (refl, attached.0, attached.1 ∙ ended)
    where
      fresh : IsFresh i (enlisted v i options s).hub
      fresh = enlisted-IsFresh options s a absent

      stated : IsFresh i (restated_view v i options.cols options.rows (enlisted v i options s)).hub
      stated = record {
        attached = record {
          sound = fresh.attached.sound;
          attached = fresh.attached.attached;
          distinct = fresh.attached.distinct;
        };
        open_still = fresh.open_still;
        empty = fresh.empty;
      }
