-- ===== src/Hub/Invariant.antt =====
-- What the operations keep true of every subscription, and what they do to each.
use windrunner.Prelude.{
  ℕ, ◌≤◌, ◌<◌, ◌≡◌, refl, sym, subst, inl, inr, Bool, true, false, ◌||◌, List, [], ◌∷◌, ◌++◌, ◌==◌,
  ==_iff, length, length-append, if◌then◌else◌, if_cases, Bool-cases, arith,
}
use windrunner.Channel
use windrunner.Channel.{Channel, fine}
use windrunner.Hub.{
  Message, Snapshot, Subscription, Hub, update, put, arm_resync_retry, retire_viewer, deliver,
  deliver_each, finish_sub, finish_each, close_mark, close_subscription, flush_sub, flush_each,
  flush_resyncs, resync_message,
}

-- A subscription that no operation can make panic or block: its channel is open exactly while it is
-- not done, only a resyncing one is ever owed state, and only another one is dropped for lag.
pub record IsSound (sub : Subscription) : Type 0 where
  pub healthy : sub.channel.health ≡ fine
  pub bounded : length sub.channel.queue ≤ sub.channel.capacity
  pub roomy : 0 < sub.channel.capacity
  pub closed_if_done : sub.channel.closed ≡ sub.done
  pub owed_is_open : sub.missed ≡ true → sub.done ≡ false
  pub owed_resyncs : sub.missed ≡ true → sub.resync ≡ true
  pub lagged_is_done : sub.lagged ≡ true → sub.done ≡ true
  pub lagged_never_resyncs : sub.lagged ≡ true → sub.resync ≡ false

-- `deliver` as it concerns the subscription alone.
unfoldable pub delivered : Message → Subscription → Subscription
delivered message sub =
    if sub.done || sub.missed
    then sub
    else if Channel.has_room sub.channel
    then record sub { channel = record sub.channel { queue = sub.channel.queue ++ message ∷ [] } }
    else if sub.resync
    then record sub { missed = true }
    else record sub {
      lagged = true;
      done = true;
      retire = false;
      channel = record sub.channel { closed = true };
    }

pub delivered-IsSound :
    (message : Message) (sub : Subscription) → IsSound sub → IsSound (delivered message sub)
unfolding delivered
delivered-IsSound message sub s = ground (
  arith,
  s.owed_is_open,
  s.owed_resyncs,
  s.lagged_is_done,
  s.lagged_never_resyncs,
  length-append sub.channel.queue (message ∷ []),
)

pub finish_sub-IsSound : (sub : Subscription) → IsSound sub → IsSound (finish_sub sub)
unfolding finish_sub Channel.close
finish_sub-IsSound sub s =
    ground (arith, s.owed_is_open, s.owed_resyncs, s.lagged_is_done, s.lagged_never_resyncs)

pub flush_sub-IsSound :
    (force : Bool) (state : Snapshot) (sub : Subscription)
    → IsSound sub
    → IsSound (flush_sub force state sub).0
unfolding flush_sub Channel.send Channel.evict
flush_sub-IsSound force state sub s = ground (
  arith,
  s.owed_is_open,
  s.owed_resyncs,
  s.lagged_is_done,
  s.lagged_never_resyncs,
  length-append sub.channel.queue (resync_message state ∷ []),
  length-append (Channel.behind_first sub.channel.queue) (resync_message state ∷ []),
  Channel.length-behind_first sub.channel.queue,
)

pub cell-retire_viewer : (i : ℕ) (hub : Hub) → (retire_viewer i hub).cell ≡ hub.cell
unfolding retire_viewer
cell-retire_viewer i hub = ground arith

pub cell-arm_resync_retry : (hub : Hub) → (arm_resync_retry hub).cell ≡ hub.cell
unfolding arm_resync_retry
cell-arm_resync_retry hub = ground arith

update_self : (hub : Hub) (i j : ℕ) → update hub.cell i (hub.cell i) j ≡ hub.cell j
update_self hub i j = elim (Bool-cases (i == j)) [
  | inl same ↦ rw (same, (==_iff i j).0 same) refl
  | inr other ↦ rw other refl
]

-- Where the subscription is sound, `deliver` does just that to it, and nothing to the others.
pub cell-deliver :
    (message : Message) (i j : ℕ) (hub : Hub)
    → IsSound (hub.cell i)
    → (deliver message i hub).cell j ≡ update hub.cell i (delivered message (hub.cell i)) j
unfolding deliver delivered Channel.try_send Channel.close
cell-deliver message i j hub s = ground (arith, update_self hub i j)

abbrev pub AllSound : Hub → Type 0
AllSound hub = (i : ℕ) → IsSound (hub.cell i)

update-AllSound :
    (cell : ℕ → Subscription) (i : ℕ) (sub : Subscription)
    → ((j : ℕ) → IsSound (cell j))
    → IsSound sub
    → (j : ℕ) → IsSound (update cell i sub j)
update-AllSound cell i sub all s j = if_cases IsSound (i == j) sub (cell j) (λ _. s) (λ _. all j)

pub deliver-AllSound :
    (message : Message) (i : ℕ) (hub : Hub) → AllSound hub → AllSound (deliver message i hub)
deliver-AllSound message i hub all j = subst IsSound (sym (cell-deliver message i j hub (all i))) (
    update-AllSound hub.cell i (delivered message (hub.cell i)) all
      (delivered-IsSound message (hub.cell i) (all i)) j)

pub deliver_each-AllSound :
    (message : Message) (is : List ℕ) (hub : Hub)
    → AllSound hub
    → AllSound (deliver_each message is hub)
unfolding deliver_each
deliver_each-AllSound message [] hub all = all
deliver_each-AllSound message (i ∷ is) hub all =
    deliver_each-AllSound message is (deliver message i hub) (deliver-AllSound message i hub all)

pub finish_each-AllSound : (is : List ℕ) (hub : Hub) → AllSound hub → AllSound (finish_each is hub)
unfolding finish_each
finish_each-AllSound [] hub all = all
finish_each-AllSound (i ∷ is) hub all =
    finish_each-AllSound is (put hub i (finish_sub (hub.cell i)))
      (update-AllSound hub.cell i _ all (finish_sub-IsSound (hub.cell i) (all i)))

no_retire-IsSound : (sub : Subscription) → IsSound sub → IsSound (record sub { retire = false })
no_retire-IsSound sub s = record {
  healthy = s.healthy;
  bounded = s.bounded;
  roomy = s.roomy;
  closed_if_done = s.closed_if_done;
  owed_is_open = s.owed_is_open;
  owed_resyncs = s.owed_resyncs;
  lagged_is_done = s.lagged_is_done;
  lagged_never_resyncs = s.lagged_never_resyncs;
}

pub close_mark-AllSound : (i : ℕ) (hub : Hub) → AllSound hub → AllSound (close_mark i hub).0
unfolding close_mark
close_mark-AllSound i hub all =
    update-AllSound hub.cell i _ all
      (no_retire-IsSound (finish_sub (hub.cell i)) (finish_sub-IsSound (hub.cell i) (all i)))

pub retire_viewer-AllSound : (i : ℕ) (hub : Hub) → AllSound hub → AllSound (retire_viewer i hub)
retire_viewer-AllSound i hub all = rw (cell-retire_viewer i hub) all

pub close_subscription-AllSound :
    (i : ℕ) (hub : Hub) → AllSound hub → AllSound (close_subscription i hub)
unfolding close_subscription
close_subscription-AllSound i hub all =
    if_cases AllSound (close_mark i hub).1 _ _
      (λ _. retire_viewer-AllSound i (close_mark i hub).0 (close_mark-AllSound i hub all))
      (λ _. close_mark-AllSound i hub all)

flush_each-AllSound :
    (force : Bool) (state : Snapshot) (is : List ℕ) (hub : Hub)
    → AllSound hub
    → AllSound (flush_each force state is hub).0
unfolding flush_each
flush_each-AllSound force state [] hub all = all
flush_each-AllSound force state (i ∷ is) hub all =
    flush_each-AllSound force state is (put hub i (flush_sub force state (hub.cell i)).0)
      (update-AllSound hub.cell i _ all (flush_sub-IsSound force state (hub.cell i) (all i)))

pub flush_resyncs-AllSound :
    (force : Bool) (state : Snapshot) (hub : Hub)
    → AllSound hub
    → AllSound (flush_resyncs force state hub)
unfolding flush_resyncs
flush_resyncs-AllSound force state hub all =
    let flushed = flush_each force state hub.subs hub in
    let sound = flush_each-AllSound force state hub.subs hub all in
    if_cases AllSound flushed.1 _ _ (λ _. rw (cell-arm_resync_retry flushed.0) sound) (λ _. sound)
