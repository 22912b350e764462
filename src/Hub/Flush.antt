-- ===== src/Hub/Flush.antt =====
-- What a flush and the end of the stream do to each subscription.
use windrunner.Prelude.{
  ℕ, ◌≡◌, ◌≢◌, refl, sym, ap, subst, ◌∙◌, inl, inr, ◌⊎◌, Bool, true, false, List, [], ◌∷◌, ◌==◌,
  ==_iff, if◌then◌else◌, Bool-cases, arith,
}
use windrunner.Channel
use windrunner.Hub.Attached.{IsAttached}
use windrunner.Hub.Invariant.{
  IsSound, close_mark-AllSound, retire_viewer-AllSound, cell-retire_viewer,
  close_subscription-AllSound, flush_resyncs-AllSound,
}
use windrunner.Hub.Sets.{member-remove, IsDistinct, remove-IsDistinct}
use windrunner.Hub.{
  Snapshot, Subscription, Hub, put, member, remove, arm_resync_retry, retire_viewer, finish_sub,
  finish_each, close_mark, close_subscription, flush_sub, flush_each, flush_resyncs,
}

module _ (force : Bool) (state : Snapshot) where
  flush_each_subs : (is : List ℕ) (hub : Hub) → (flush_each force state is hub).0.subs ≡ hub.subs
  unfolding flush_each
  flush_each_subs [] hub = refl
  flush_each_subs (i ∷ is) hub =
      flush_each_subs is (put hub i (flush_sub force state (hub.cell i)).0)

  cell-flush_each :
      (is : List ℕ) (j : ℕ) (hub : Hub)
      → IsDistinct is
      → (flush_each force state is hub).0.cell j
        ≡ (if member j is then (flush_sub force state (hub.cell j)).0 else hub.cell j)
  unfolding flush_each member
  cell-flush_each [] j hub d = refl
  cell-flush_each (i ∷ is) j hub d =
      cell-flush_each is j (put hub i (flush_sub force state (hub.cell i)).0) d.1
      ∙ ground (arith, d.0)

  pub flush_resyncs_subs : (hub : Hub) → (flush_resyncs force state hub).subs ≡ hub.subs
  unfolding flush_resyncs arm_resync_retry
  flush_resyncs_subs hub = ground (arith, flush_each_subs hub.subs hub)

  pub cell-flush_resyncs :
      (j : ℕ) (hub : Hub)
      → IsAttached hub
      → (flush_resyncs force state hub).cell j
        ≡ (if member j hub.subs then (flush_sub force state (hub.cell j)).0 else hub.cell j)
  unfolding flush_resyncs arm_resync_retry
  cell-flush_resyncs j hub a = ground (arith, cell-flush_each hub.subs j hub a.distinct)

  pub flush_sub_done : (sub : Subscription) → (flush_sub force state sub).0.done ≡ sub.done
  unfolding flush_sub
  flush_sub_done sub = ground arith

  pub flush_resyncs-IsAttached :
      (hub : Hub) → IsAttached hub → IsAttached (flush_resyncs force state hub)
  flush_resyncs-IsAttached hub a = record {
    sound = flush_resyncs-AllSound force state hub a.sound;
    attached = λ i open_still. ground (
      arith,
      flush_resyncs_subs hub,
      cell-flush_resyncs i hub a,
      flush_sub_done (hub.cell i),
      a.attached i,
    );
    distinct = rw (flush_resyncs_subs hub) a.distinct;
  }

pub finish_each_subs : (is : List ℕ) (hub : Hub) → (finish_each is hub).subs ≡ hub.subs
unfolding finish_each
finish_each_subs [] hub = refl
finish_each_subs (i ∷ is) hub = finish_each_subs is (put hub i (finish_sub (hub.cell i)))

pub cell-finish_each :
    (is : List ℕ) (j : ℕ) (hub : Hub)
    → IsDistinct is
    → (finish_each is hub).cell j ≡ (if member j is then finish_sub (hub.cell j) else hub.cell j)
unfolding finish_each member
cell-finish_each [] j hub d = refl
cell-finish_each (i ∷ is) j hub d =
    cell-finish_each is j (put hub i (finish_sub (hub.cell i))) d.1 ∙ ground (arith, d.0)

pub finish_sub_done : (sub : Subscription) → (finish_sub sub).done ≡ true
unfolding finish_sub
finish_sub_done sub = ground arith

-- Behind `finish` on all of the set, nothing is open, so that the set can be emptied.
pub finish_each-done :
    (hub : Hub) (i : ℕ) → IsAttached hub → ((finish_each hub.subs hub).cell i).done ≡ true
finish_each-done hub i a =
    ground (
      arith,
      cell-finish_each hub.subs i hub a.distinct,
      finish_sub_done (hub.cell i),
      a.attached i,
    )

close_mark_cell :
    (i j : ℕ) (hub : Hub)
    → ((close_mark i hub).0.cell j).done ≡ (if i == j then true else (hub.cell j).done)
unfolding close_mark finish_sub
close_mark_cell i j hub = ground arith

-- The two sections of `Close` on their own.
pub close_mark-IsAttached : (i : ℕ) (hub : Hub) → IsAttached hub → IsAttached (close_mark i hub).0
unfolding close_mark
close_mark-IsAttached i hub a = record {
  sound = close_mark-AllSound i hub a.sound;
  attached = λ j open_still. ground (arith, close_mark_cell i j hub, a.attached j);
  distinct = a.distinct;
}

retire_viewer_subs : (i : ℕ) (hub : Hub) → (retire_viewer i hub).subs ≡ remove i hub.subs
unfolding retire_viewer
retire_viewer_subs i hub = ground arith

pub retire_viewer-IsAttached :
    (i : ℕ) (hub : Hub)
    → (hub.cell i).done ≡ true
    → IsAttached hub
    → IsAttached (retire_viewer i hub)
retire_viewer-IsAttached i hub ended a = record {
  sound = retire_viewer-AllSound i hub a.sound;
  attached = λ j open_still.
      let before : (hub.cell j).done ≡ false =
        subst (λ (cell : ℕ → Subscription). (cell j).done ≡ false) (cell-retire_viewer i hub)
          open_still in
      elim (Bool-cases (j == i)) [
        | inl same ↦ absurd (
            true≢false
              (sym ended ∙ ap (λ (k : ℕ). (hub.cell k).done) (sym ((==_iff j i).0 same)) ∙ before))
        | inr other ↦
            ap (member j) (retire_viewer_subs i hub)
            ∙ member-remove j i hub.subs
            ∙ rw other (a.attached j before)
      ];
  distinct = rw (retire_viewer_subs i hub) (remove-IsDistinct i hub.subs a.distinct);
}
  where
    true≢false : true ≢ false
    true≢false h = cc

close_subscription_subs :
    (i : ℕ) (hub : Hub)
    → ((close_subscription i hub).subs ≡ hub.subs)
      ⊎ ((close_subscription i hub).subs ≡ remove i hub.subs)
unfolding close_subscription close_mark
close_subscription_subs i hub = ground arith

close_subscription_cell :
    (i : ℕ) (hub : Hub) → (close_subscription i hub).cell ≡ (close_mark i hub).0.cell
unfolding close_subscription
close_subscription_cell i hub = ground (arith, cell-retire_viewer i (close_mark i hub).0)

pub close_subscription-IsAttached :
    (i : ℕ) (hub : Hub) → IsAttached hub → IsAttached (close_subscription i hub)
close_subscription-IsAttached i hub a = record {
  sound = close_subscription-AllSound i hub a.sound;
  attached = λ j open_still.
      let before : ((close_mark i hub).0.cell j).done ≡ false =
        subst (λ (cell : ℕ → Subscription). (cell j).done ≡ false) (close_subscription_cell i hub)
          open_still in
      ground (
        arith,
        close_subscription_subs i hub,
        close_mark_cell i j hub,
        a.attached j,
        member-remove j i hub.subs,
      );
  distinct =
      ground (arith, close_subscription_subs i hub, a.distinct, remove-IsDistinct i hub.subs);
}

pub close_subscription_done : (i : ℕ) (hub : Hub) → ((close_subscription i hub).cell i).done ≡ true
close_subscription_done i hub =
    ap (λ (cell : ℕ → Subscription). (cell i).done) (close_subscription_cell i hub)
    ∙ close_mark_cell i i hub
    ∙ ground arith

pub close_subscription_other :
    (i j : ℕ) (hub : Hub) → i ≢ j → (close_subscription i hub).cell j ≡ hub.cell j
unfolding close_mark
close_subscription_other i j hub other =
    ap (λ (cell : ℕ → Subscription). cell j) (close_subscription_cell i hub) ∙ ground arith

-- A forced flush leaves nobody owed, and `finish` keeps what is queued.
pub flush_sub_forced :
    (state : Snapshot) (sub : Subscription)
    → sub.done ≡ false
    → (flush_sub true state sub).0.missed ≡ false
unfolding flush_sub
flush_sub_forced state sub open_still = ground arith

pub finish_sub_queue :
    (sub : Subscription) → IsSound sub → (finish_sub sub).channel.queue ≡ sub.channel.queue
unfolding finish_sub Channel.close
finish_sub_queue sub sound = ground arith
