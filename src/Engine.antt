-- ===== src/Engine.antt =====
-- engine.go: Engine, the registry of sessions, and EventSubscription. A section under the engine's
-- lock is one function; `Spawn` has two of them, and publishes behind them. A subscription is known
-- by a number, and a session by its id.
pub mod Events
pub mod Leaving
pub mod Feeds
pub mod History
pub mod Order
pub mod Sessions
use windrunner.Prelude.{
  ℕ, Bool, true, false, not, ◌||◌, Bytes, List, [], ◌∷◌, Option, none, some, equal, ◌==◌,
  if◌then◌else◌, ◌⊎◌, inl, inr,
}
use windrunner.Prelude.Int.{ℤ, pos, pos_part, ltb_ℤ}
use windrunner.Channel
use windrunner.Channel.{Channel}
use windrunner.Event.{Event, EventType, plain_event, spawned, exited, removed}
use windrunner.Hub.{member, remove}
use windrunner.Session.{Session, Error, SpawnSpec, engine_closed, start_session}
use windrunner.Viewers
use windrunner.Vt.{Vt}

pub record EventSubscription : Type 0 where
  pub channel : Channel Event
  pub done : Bool
  pub lagged : Bool

-- Who hears of events.
pub record Feed : Type 0 where
  pub subs : List ℕ
  pub cell : ℕ → EventSubscription
  pub closed : Bool

pub record Engine (v : Vt) : Type 0 where
  pub sessions : List (Bytes × Session v)
  pub feed : Feed
  pub open feed use *

abbrev pub put : Feed → ℕ → EventSubscription → Feed
put feed i sub = record feed { cell = λ j. if i == j then sub else feed.cell j }

-- Behind the `select` of `deliver`.
sent_or_dropped : ℕ → EventSubscription → Feed → Channel Event × Bool → Feed
sent_or_dropped i sub feed (channel, true) = put feed i (record sub { channel = channel })
sent_or_dropped i sub feed (channel, false) =
    let feed' =
      put feed i (record sub { channel = Channel.close channel; done = true; lagged = true }) in
    record feed' { subs = remove i feed.subs }

-- `(*EventSubscription).deliver`
unfoldable pub deliver : Event → ℕ → Feed → Feed
unfolding sent_or_dropped
deliver event i feed =
    let sub = feed.cell i in
    if sub.done then feed else sent_or_dropped i sub feed (Channel.try_send sub.channel event)

unfoldable pub deliver_each : Event → List ℕ → Feed → Feed
unfolding deliver
deliver_each event [] feed = feed
deliver_each event (i ∷ is) feed = deliver_each event is (deliver event i feed)

-- `(*Engine).publish`
unfoldable pub publish : Event → Feed → Feed
unfolding deliver_each
publish event feed = if feed.closed then feed else deliver_each event feed.subs feed

-- `(*EventSubscription).finish`
unfoldable pub finish_sub : EventSubscription → EventSubscription
finish_sub sub =
    if not sub.done then record sub { done = true; channel = Channel.close sub.channel } else sub

unfoldable pub finish_each : List ℕ → Feed → Feed
unfolding finish_sub
finish_each [] feed = feed
finish_each (i ∷ is) feed = finish_each is (put feed i (finish_sub (feed.cell i)))

abbrev pub fresh_events : ℤ → EventSubscription
fresh_events buffer = record {
  channel = Channel.make (if ltb_ℤ (pos 0) buffer then pos_part buffer else 64);
  done = false;
  lagged = false;
}

-- `Subscribe`; the new subscription is number `i`, which no other has.
unfoldable pub subscribe : ℕ → ℤ → Feed → Feed
subscribe i buffer feed =
    if feed.closed
    then put feed i (finish_sub (fresh_events buffer))
    else (let feed' = put feed i (fresh_events buffer) in record feed' { subs = i ∷ feed.subs })

-- The section of `(*EventSubscription).Close` under the engine's lock.
abbrev pub leave : ℕ → Feed → Feed
leave i feed = record feed { subs = remove i feed.subs }

-- `finish` on one subscription, behind that lock.
abbrev pub finish : ℕ → Feed → Feed
finish i feed = put feed i (finish_sub (feed.cell i))

-- What a number stands for at which nobody has subscribed.
abbrev pub no_events : EventSubscription
no_events = record {
  channel = record (Channel.make 1) { closed = true };
  done = true;
  lagged = false;
}

module _ (v : Vt) where
  -- `NewEngine`
  abbrev pub new_engine : Engine v
  new_engine = record {
    sessions = [];
    feed = record { subs = []; cell = λ _. no_events; closed = false };
  }

  unfoldable pub find : Bytes → List (Bytes × Session v) → Option (Session v)
  find id [] = none
  find id ((key, s) ∷ sessions) = if equal key id then some s else find id sessions

  unfoldable pub delete : Bytes → List (Bytes × Session v) → List (Bytes × Session v)
  delete id [] = []
  delete id ((key, s) ∷ sessions) =
      if equal key id then delete id sessions else (key, s) ∷ delete id sessions

  -- `(*Engine).Session`
  abbrev pub session : Bytes → Engine v → Option (Session v)
  session id e = find id e.sessions

  -- The second section of `Spawn`: the session is in the registry, or it is closed again.
  unfoldable pub register : Bytes → Session v → Engine v → Engine v × (Error ⊎ Session v)
  unfolding delete
  register id s e =
      if e.closed
      then (e, inl engine_closed)
      else (record e { sessions = (id, s) ∷ delete id e.sessions }, inr s)

  -- The events that the engine publishes about a session.
  abbrev pub spawned_event : Bytes → Bytes → Event
  spawned_event id command = record (plain_event spawned id) { command = command }

  abbrev pub exited_event : Bytes → ℤ → Event
  exited_event id code = record (plain_event exited id) { exit_code = code }

  abbrev pub announce : Event → Engine v → Engine v
  announce event e = record e { feed = publish event e.feed }

  spawn_started : Bytes → SpawnSpec → Engine v → Error ⊎ Session v → Engine v × (Error ⊎ Session v)
  unfolding register
  spawn_started id spec e (inl error) = (e, inl error)
  spawn_started id spec e (inr s) =
      let (e', result) = register id s e in
      elim result [
        | inl error ↦ (e', inl error)
        | inr s' ↦ (announce (spawned_event id spec.command) e', inr s')
      ]

  -- `Spawn` with a fresh id, undisturbed by others.
  unfoldable pub spawn :
      Bytes → List Bytes → SpawnSpec → Bool → Engine v → Engine v × (Error ⊎ Session v)
  unfolding spawn_started
  spawn id inherited spec started e =
      if e.closed
      then (e, inl engine_closed)
      else spawn_started id spec e (start_session v id inherited spec started)

  -- The section of `Remove` under the lock.
  unfoldable pub unregister : Bytes → Engine v → Engine v
  unfolding delete
  unregister id e = record e { sessions = delete id e.sessions }

  -- `Remove` where nobody comes between its sections, and the session that it has closed.
  unfoldable pub remove_session : Bytes → Engine v → Engine v × Option (Session v)
  unfolding find unregister
  remove_session id e = elim (find id e.sessions) [
    | none ↦ (unregister id e, none)
    | some s ↦ (announce (plain_event removed id) (unregister id e), some (Viewers.close v s))
  ]

  -- The section of `(*Engine).Close` under the lock; it leaves the sessions to close and the
  -- subscriptions to finish.
  unfoldable pub shut : Engine v → Engine v × List (Bytes × Session v) × List ℕ
  shut e = (
    record { sessions = []; feed = record e.feed { closed = true; subs = [] } },
    e.sessions,
    e.subs,
  )

  abbrev pub close_each : List (Bytes × Session v) → List (Session v)
  close_each [] = []
  close_each ((id, s) ∷ sessions) = Viewers.close v s ∷ close_each sessions

  -- `(*Engine).Close` where nobody comes between, and the sessions that it has closed.
  unfoldable pub close : Engine v → Engine v × List (Session v)
  unfolding finish_each shut
  close e =
      let (e', sessions, subs) = shut e in
      (record e' { feed = finish_each subs e'.feed }, close_each sessions)

-- A reader's `<-sub.Events()`.
unfoldable pub receive : ℕ → Feed → Option Event × Feed
receive i feed =
    let (event, channel) = Channel.receive (feed.cell i).channel in
    (event, put feed i (record (feed.cell i) { channel = channel }))
