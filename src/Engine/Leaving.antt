-- ===== src/Engine/Leaving.antt =====
-- The feed of events between the sections of `Close`, `Remove` and `(*EventSubscription).Close`:
-- `leaving` lists who has been taken out of the set and is still to be finished.
use windrunner.Prelude.{
  ℕ, ◌≡◌, refl, sym, subst, true, false, ◌||◌, List, [], ◌∷◌, ◌++◌, if_cases, arith,
}
use windrunner.Prelude.Int.{ℤ}
use windrunner.Event.{Event}
use windrunner.Hub.Sets.{IsDistinct, member-remove, remove-IsDistinct}
use windrunner.Hub.{member, remove}
use windrunner.Engine.Events.{
  IsSound, delivered, delivered-IsSound, finish_sub-IsSound, cell-deliver, deliver_subs,
  delivered_done, put-IsSound,
}
use windrunner.Engine.Feeds.{finish_sub_done, fresh-IsSound, receive-IsSound}
use windrunner.Engine.{
  Feed, deliver, deliver_each, publish, finish_sub, fresh_events, subscribe, leave, finish, receive,
}

-- A subscription that is not done is in the set, or on its way out.
pub record IsServed (feed : Feed) (leaving : List ℕ) : Type 0 where
  pub sound : (i : ℕ) → IsSound (feed.cell i)
  pub served : (i : ℕ) → (feed.cell i).done ≡ false → member i feed.subs || member i leaving ≡ true
  pub distinct : IsDistinct feed.subs

pub member-append : (i : ℕ) (is js : List ℕ) → member i (is ++ js) ≡ (member i is || member i js)
unfolding member
member-append i [] js = refl
member-append i (k ∷ is) js = ground (arith, member-append i is js)

module _ (leaving : List ℕ) where
  deliver-IsServed :
      (event : Event) (i : ℕ) (feed : Feed)
      → IsServed feed leaving
      → IsServed (deliver event i feed) leaving
  deliver-IsServed event i feed a = record {
    sound = λ j. subst IsSound (sym (cell-deliver event i j feed (a.sound i))) (
        put-IsSound feed i (delivered event (feed.cell i)) a.sound
          (delivered-IsSound event (feed.cell i) (a.sound i)) j);
    served = λ j open_still. ground (
      arith,
      deliver_subs event i feed,
      cell-deliver event i j feed (a.sound i),
      delivered_done event (feed.cell i),
      a.served j,
      member-remove j i feed.subs,
    );
    distinct = ground (arith, deliver_subs event i feed, a.distinct, remove-IsDistinct i feed.subs);
  }

  deliver_each-IsServed :
      (event : Event) (is : List ℕ) (feed : Feed)
      → IsServed feed leaving
      → IsServed (deliver_each event is feed) leaving
  unfolding deliver_each
  deliver_each-IsServed event [] feed a = a
  deliver_each-IsServed event (i ∷ is) feed a =
      deliver_each-IsServed event is (deliver event i feed) (deliver-IsServed event i feed a)

  pub publish-IsServed :
      (event : Event) (feed : Feed) → IsServed feed leaving → IsServed (publish event feed) leaving
  unfolding publish
  publish-IsServed event feed a =
      if_cases (λ (f : Feed). IsServed f leaving) feed.closed _ _ (λ _. a)
        (λ _. deliver_each-IsServed event feed.subs feed a)

  pub subscribe-IsServed :
      (i : ℕ) (buffer : ℤ) (feed : Feed)
      → member i feed.subs ≡ false
      → IsServed feed leaving
      → IsServed (subscribe i buffer feed) leaving
  unfolding subscribe member finish_sub
  subscribe-IsServed i buffer feed absent a =
      if_cases (λ (f : Feed). IsServed f leaving) feed.closed _ _
        (λ _. record {
          sound =
              put-IsSound feed i (finish_sub (fresh_events buffer)) a.sound
                (finish_sub-IsSound (fresh_events buffer) (fresh-IsSound buffer));
          served = λ j open_still. ground (arith, a.served j);
          distinct = a.distinct;
        })
        (λ _. record {
          sound = put-IsSound feed i (fresh_events buffer) a.sound (fresh-IsSound buffer);
          served = λ j open_still. ground (arith, a.served j);
          distinct = (absent, a.distinct);
        })

  pub leave-IsServed :
      (i : ℕ) (feed : Feed) → IsServed feed leaving → IsServed (leave i feed) (i ∷ leaving)
  unfolding member
  leave-IsServed i feed a = record {
    sound = a.sound;
    served = λ j open_still. ground (arith, a.served j, member-remove j i feed.subs);
    distinct = remove-IsDistinct i feed.subs a.distinct;
  }

  pub finish-IsServed :
      (i : ℕ) (feed : Feed) → IsServed feed leaving → IsServed (finish i feed) (remove i leaving)
  finish-IsServed i feed a = record {
    sound = put-IsSound feed i _ a.sound (finish_sub-IsSound (feed.cell i) (a.sound i));
    served = λ j open_still.
        ground (arith, a.served j, member-remove j i leaving, finish_sub_done (feed.cell i));
    distinct = a.distinct;
  }

  pub receive-IsServed :
      (i : ℕ) (feed : Feed) → IsServed feed leaving → IsServed (receive i feed).1 leaving
  unfolding receive
  receive-IsServed i feed a = record {
    sound = λ j. receive-IsSound i feed j a.sound;
    served = λ j open_still. ground (arith, a.served j, a.served i);
    distinct = a.distinct;
  }

  pub shut-IsServed :
      (feed : Feed)
      → IsServed feed leaving
      → IsServed (record feed { closed = true; subs = [] }) (feed.subs ++ leaving)
  shut-IsServed feed a = record {
    sound = a.sound;
    served =
        λ j open_still. ground (arith, a.served j open_still, member-append j feed.subs leaving);
    distinct = tt;
  }
