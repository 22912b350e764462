-- ===== src/Tests/Engines.antt =====
-- engine.go, run with a subscriber and a session.
use windrunner.Prelude.{
  ℕ, ◌+◌, ◌≡◌, ◌≤◌, ◌<◌, refl, ap, ◌++◌, [], ◌∷◌, codes, none, some, true, false, not, ◌&&◌, ◌||◌,
  arith, length,
}
use windrunner.Prelude.Int.{pos}
use windrunner.Channel
use windrunner.Channel.{fine}
use windrunner.Event.{plain_event, removed}
use windrunner.Hub.{member, remove}
use windrunner.Engine
use windrunner.Engine.{
  Engine, Feed, EventSubscription, new_engine, subscribe, register, announce, find, spawn,
  remove_session, spawned_event,
}
use windrunner.Engine.Events.{IsAttached}
use windrunner.Engine.Feeds.{subscribe-IsAttached}
use windrunner.Engine.History.{
  Reach, start, later, subscribes, publishes, shuts, finishes, no_events-IsAttached,
  Reach-feed_healthy, Reach-closed,
}
use windrunner.Engine.Order.{find-spawn, removed_before_spawned}
use windrunner.Tests.Histories.{plain, shell, first, first_starts}

-- An engine with subscriber 0.
abbrev listened : Engine plain
listened = record (new_engine plain) { feed = subscribe 0 (pos 8) (new_engine plain).feed }

nobody : member 0 [] ≡ false
unfolding member
nobody = refl

listened-IsAttached : IsAttached listened.feed
listened-IsAttached =
    subscribe-IsAttached 0 (pos 8) (new_engine plain).feed nobody (no_events-IsAttached plain)

abbrev told : Engine plain
told = announce plain (plain_event removed (codes "x")) listened

told-Reach : Reach plain told []
told-Reach =
    later (later start (subscribes 0 (pos 8) nobody)) (publishes (plain_event removed (codes "x")))

Reach-feed_healthy_example :
    ((told.cell 0).channel.health ≡ fine)
    × (length (told.cell 0).channel.queue ≤ (told.cell 0).channel.capacity)
    × ((told.cell 0).channel.closed ≡ (told.cell 0).done)
    × ((told.cell 0).lagged && not (told.cell 0).done ≡ false)
    × ((told.cell 0).done || (member 0 told.subs || member 0 []) ≡ true)
Reach-feed_healthy_example = Reach-feed_healthy plain told-Reach 0

-- Closed, and the subscriber is finished.
abbrev stopped : Engine plain
stopped = let e = (Engine.shut plain told).0 in record e { feed = Engine.finish 0 e.feed }

is_stopped : stopped.closed ≡ true
unfolding Engine.shut subscribe Engine.publish Channel.try_send
is_stopped = refl

told_subs : (Engine.shut plain told).2 ++ [] ≡ 0 ∷ []
unfolding Engine.shut subscribe Engine.publish Channel.try_send
told_subs = refl

leaves_first : member 0 ((Engine.shut plain told).2 ++ []) ≡ true
unfolding member
leaves_first = ap (member 0) told_subs

stopped-Reach : Reach plain stopped (remove 0 ((Engine.shut plain told).2 ++ []))
stopped-Reach = later (later told-Reach shuts) (finishes 0 leaves_first)

Reach-closed_example :
    (stopped.sessions ≡ [])
    × (stopped.subs ≡ [])
    × ((i : ℕ)
        → (stopped.cell i).done || member i (remove 0 ((Engine.shut plain told).2 ++ [])) ≡ true)
Reach-closed_example = Reach-closed plain stopped-Reach is_stopped

still_open : listened.closed ≡ false
unfolding subscribe
still_open = refl

listening : (listened.cell 0).done ≡ false
unfolding subscribe
listening = refl

room : length (listened.cell 0).channel.queue + 1 < (listened.cell 0).channel.capacity
unfolding subscribe
room = omega arith

some_room : length (listened.cell 0).channel.queue < (listened.cell 0).channel.capacity
unfolding subscribe
some_room = omega arith

find-spawn_example :
    let e' = (spawn plain (codes "id") [] shell true listened).0 in
    (find plain (codes "id") e'.sessions ≡ some first)
    × ((e'.cell 0).channel.queue
        ≡ (listened.cell 0).channel.queue ++ spawned_event plain (codes "id") (codes "sh") ∷ [])
find-spawn_example =
    find-spawn plain (codes "id") [] shell first listened 0 listened-IsAttached still_open
      first_starts listening some_room

removed_before_spawned_example :
    let e' =
      announce plain
        (spawned_event plain (codes "id") (codes "sh"))
        (remove_session plain (codes "id") (register plain (codes "id") first listened).0).0 in
    (find plain (codes "id") e'.sessions ≡ none)
    × ((e'.cell 0).channel.queue
        ≡ (listened.cell 0).channel.queue
          ++ plain_event removed (codes "id") ∷ spawned_event plain (codes "id") (codes "sh") ∷ [])
removed_before_spawned_example =
    removed_before_spawned plain (codes "id") (codes "sh") first listened 0 listened-IsAttached
      still_open listening room
