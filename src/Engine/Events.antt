-- ===== src/Engine/Events.antt =====
-- The feed of events: what a publication does to each subscription.
use windrunner.Prelude.{
  ℕ, ◌≤◌, ◌≡◌, ◌⊎◌, inl, inr, refl, sym, ap, subst, ◌∙◌, Bool, true, false, List, [], ◌∷◌, ◌++◌,
  length, length-append, ◌==◌, ==_iff, if◌then◌else◌, if_cases, Bool-cases, arith,
}
use windrunner.Channel
use windrunner.Channel.{Channel, fine}
use windrunner.Event.{Event}
use windrunner.Hub.Sets.{IsDistinct, member-remove, remove-IsDistinct}
use windrunner.Hub.{member, remove}
use windrunner.Engine.{EventSubscription, Feed, put, deliver, deliver_each, publish, finish_sub}

-- A subscription that no operation can make panic.
pub record IsSound (sub : EventSubscription) : Type 0 where
  pub healthy : sub.channel.health ≡ fine
  pub bounded : length sub.channel.queue ≤ sub.channel.capacity
  pub closed_if_done : sub.channel.closed ≡ sub.done
  pub lagged_is_done : sub.lagged ≡ true → sub.done ≡ true

pub record IsAttached (feed : Feed) : Type 0 where
  pub sound : (i : ℕ) → IsSound (feed.cell i)
  pub attached : (i : ℕ) → (feed.cell i).done ≡ false → member i feed.subs ≡ true
  pub distinct : IsDistinct feed.subs

-- `deliver` as it concerns the subscription alone.
unfoldable pub delivered : Event → EventSubscription → EventSubscription
delivered event sub =
    if sub.done
    then sub
    else if Channel.has_room sub.channel
    then record sub { channel = record sub.channel { queue = sub.channel.queue ++ event ∷ [] } }
    else record sub { channel = record sub.channel { closed = true }; done = true; lagged = true }

pub delivered-IsSound :
    (event : Event) (sub : EventSubscription) → IsSound sub → IsSound (delivered event sub)
unfolding delivered
delivered-IsSound event sub s =
    ground (arith, s.lagged_is_done, length-append sub.channel.queue (event ∷ []))

pub finish_sub-IsSound : (sub : EventSubscription) → IsSound sub → IsSound (finish_sub sub)
unfolding finish_sub Channel.close
finish_sub-IsSound sub s = ground (arith, s.lagged_is_done)

put_self : (feed : Feed) (i j : ℕ) → (put feed i (feed.cell i)).cell j ≡ feed.cell j
put_self feed i j = elim (Bool-cases (i == j)) [
  | inl same ↦ rw (same, (==_iff i j).0 same) refl
  | inr other ↦ rw other refl
]

pub cell-deliver :
    (event : Event) (i j : ℕ) (feed : Feed)
    → IsSound (feed.cell i)
    → (deliver event i feed).cell j ≡ (put feed i (delivered event (feed.cell i))).cell j
unfolding deliver delivered Channel.try_send Channel.close
cell-deliver event i j feed s = ground (arith, put_self feed i j)

pub deliver_subs :
    (event : Event) (i : ℕ) (feed : Feed)
    → ((deliver event i feed).subs ≡ feed.subs)
      ⊎ (((deliver event i feed).subs ≡ remove i feed.subs)
          × (((deliver event i feed).cell i).done ≡ true))
unfolding deliver Channel.try_send
deliver_subs event i feed = ground arith

pub delivered_done :
    (event : Event) (sub : EventSubscription)
    → (delivered event sub).done ≡ false
    → sub.done ≡ false
unfolding delivered
delivered_done event sub h = ground arith

pub put-IsSound :
    (feed : Feed) (i : ℕ) (sub : EventSubscription)
    → ((j : ℕ) → IsSound (feed.cell j))
    → IsSound sub
    → (j : ℕ) → IsSound ((put feed i sub).cell j)
put-IsSound feed i sub all s j = if_cases IsSound (i == j) sub (feed.cell j) (λ _. s) (λ _. all j)

deliver-IsAttached :
    (event : Event) (i : ℕ) (feed : Feed) → IsAttached feed → IsAttached (deliver event i feed)
deliver-IsAttached event i feed a = record {
  sound = λ j. subst IsSound (sym (cell-deliver event i j feed (a.sound i))) (
      put-IsSound feed i (delivered event (feed.cell i)) a.sound
        (delivered-IsSound event (feed.cell i) (a.sound i)) j);
  attached = λ j open_still. ground (
    arith,
    deliver_subs event i feed,
    cell-deliver event i j feed (a.sound i),
    delivered_done event (feed.cell i),
    a.attached j,
    member-remove j i feed.subs,
  );
  distinct = ground (arith, deliver_subs event i feed, a.distinct, remove-IsDistinct i feed.subs);
}

deliver_each-IsAttached :
    (event : Event) (is : List ℕ) (feed : Feed)
    → IsAttached feed
    → IsAttached (deliver_each event is feed)
unfolding deliver_each
deliver_each-IsAttached event [] feed a = a
deliver_each-IsAttached event (i ∷ is) feed a =
    deliver_each-IsAttached event is (deliver event i feed) (deliver-IsAttached event i feed a)

cell-deliver_each :
    (event : Event) (is : List ℕ) (j : ℕ) (feed : Feed)
    → IsAttached feed
    → IsDistinct is
    → (deliver_each event is feed).cell j
      ≡ (if member j is then delivered event (feed.cell j) else feed.cell j)
unfolding deliver_each member
cell-deliver_each event [] j feed a d = refl
cell-deliver_each event (i ∷ is) j feed a d =
    cell-deliver_each event is j (deliver event i feed) (deliver-IsAttached event i feed a) d.1
    ∙ rw (cell-deliver event i j feed (a.sound i)) (ground (arith, d.0))

pub publish-IsAttached :
    (event : Event) (feed : Feed) → IsAttached feed → IsAttached (publish event feed)
unfolding publish
publish-IsAttached event feed a =
    if_cases IsAttached feed.closed _ _ (λ _. a)
      (λ _. deliver_each-IsAttached event feed.subs feed a)

-- Each subscription that is not done is handed the event, once.
pub cell-publish :
    (event : Event) (i : ℕ) (feed : Feed)
    → IsAttached feed
    → feed.closed ≡ false
    → (publish event feed).cell i ≡ delivered event (feed.cell i)
unfolding publish delivered
cell-publish event i feed a still =
    ap (λ (b : Bool). (if b then feed else deliver_each event feed.subs feed).cell i) still
    ∙ cell-deliver_each event feed.subs i feed a a.distinct
    ∙ if_cases (λ (sub : EventSubscription). sub ≡ delivered event (feed.cell i))
        (member i feed.subs) _ _ (λ _. refl) (λ absent. sym (delivered_over (over absent)))
  where
    delivered_over : (feed.cell i).done ≡ true → delivered event (feed.cell i) ≡ feed.cell i
    delivered_over h = ground arith

    over : member i feed.subs ≡ false → (feed.cell i).done ≡ true
    over absent = ground (arith, a.attached i)

deliver_each_closed :
    (event : Event) (is : List ℕ) (feed : Feed) → (deliver_each event is feed).closed ≡ feed.closed
unfolding deliver_each deliver
deliver_each_closed event [] feed = refl
deliver_each_closed event (i ∷ is) feed =
    deliver_each_closed event is (deliver event i feed) ∙ ground arith

pub publish_closed : (event : Event) (feed : Feed) → (publish event feed).closed ≡ feed.closed
unfolding publish
publish_closed event feed = ground (arith, deliver_each_closed event feed.subs feed)
