-- ===== src/Engine/Feeds.antt =====
-- The other operations on the feed of events.
use windrunner.Prelude.{ℕ, ◌≡◌, refl, true, false, if_cases, arith}
use windrunner.Prelude.Int.{ℤ}
use windrunner.Channel
use windrunner.Channel.{Channel, fine}
use windrunner.Hub.{member}
use windrunner.Engine.{EventSubscription, Feed, finish_sub, fresh_events, subscribe, receive}
use windrunner.Engine.Events.{IsSound, IsAttached, finish_sub-IsSound, put-IsSound}

pub finish_sub_done : (sub : EventSubscription) → (finish_sub sub).done ≡ true
unfolding finish_sub
finish_sub_done sub = ground arith

pub fresh-IsSound : (buffer : ℤ) → IsSound (fresh_events buffer)
fresh-IsSound buffer = record {
  healthy = refl;
  bounded = omega arith;
  closed_if_done = refl;
  lagged_is_done = λ lagged. cc;
}

pub subscribe-IsAttached :
    (i : ℕ) (buffer : ℤ) (feed : Feed)
    → member i feed.subs ≡ false
    → IsAttached feed
    → IsAttached (subscribe i buffer feed)
unfolding subscribe member finish_sub
subscribe-IsAttached i buffer feed absent a =
    if_cases IsAttached feed.closed _ _
      (λ _. record {
        sound =
            put-IsSound feed i (finish_sub (fresh_events buffer)) a.sound
              (finish_sub-IsSound (fresh_events buffer) (fresh-IsSound buffer));
        attached = λ j open_still. ground (arith, a.attached j);
        distinct = a.distinct;
      })
      (λ _. record {
        sound = put-IsSound feed i (fresh_events buffer) a.sound (fresh-IsSound buffer);
        attached = λ j open_still. ground (arith, a.attached j);
        distinct = (absent, a.distinct);
      })

pub receive-IsSound :
    (i : ℕ) (feed : Feed) (j : ℕ)
    → ((k : ℕ) → IsSound (feed.cell k))
    → IsSound ((receive i feed).1.cell j)
unfolding receive Channel.receive
receive-IsSound i feed j sound = put-IsSound feed i _ sound taken j
  where
    taken : IsSound (record (feed.cell i) {
      channel = record (feed.cell i).channel {
        queue = Channel.behind_first (feed.cell i).channel.queue;
      };
    })
    taken = ground (arith, sound i, Channel.length-behind_first (feed.cell i).channel.queue)
