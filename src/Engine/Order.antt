-- ===== src/Engine/Order.antt =====
-- What a subscriber hears of a spawn, and of a removal that comes between the two halves of one.
use windrunner.Prelude.{
  ℕ, ◌+◌, ◌<◌, ◌≡◌, ◌⊎◌, inl, inr, refl, ap, ◌∙◌, Bool, true, false, Bytes, List, [], ◌∷◌, ◌++◌,
  append_assoc, none, some, length, length-append, equal_self, if◌then◌else◌, arith,
}
use windrunner.Event.{Event, plain_event, removed}
use windrunner.Session.{Session, Error, engine_closed, SpawnSpec, start_session}
use windrunner.Engine.Events.{
  IsAttached, delivered, publish-IsAttached, cell-publish, publish_closed,
}
use windrunner.Engine.{
  Engine, EventSubscription, publish, register, announce, find, delete, spawn, spawn_started,
  remove_session, unregister, spawned_event,
}
use windrunner.Vt.{Vt}

-- A subscription that is not done and has room hears the event.
heard :
    (event : Event) (sub : EventSubscription)
    → sub.done ≡ false
    → length sub.channel.queue < sub.channel.capacity
    → ((delivered event sub).channel.queue ≡ sub.channel.queue ++ event ∷ [])
      × ((delivered event sub).done ≡ false)
      × ((delivered event sub).channel.capacity ≡ sub.channel.capacity)
unfolding delivered
heard event sub open_still room = ground arith

module _ (v : Vt) where
  register_open :
      (id : Bytes) (s : Session v) (e : Engine v)
      → e.closed ≡ false
      → register v id s e ≡ (record e { sessions = (id, s) ∷ delete v id e.sessions }, inr s)
  unfolding register
  register_open id s e still = ground (arith, still)

  find_first :
      (id : Bytes) (s : Session v) (sessions : List (Bytes × Session v))
      → find v id ((id, s) ∷ sessions) ≡ some s
  unfolding find
  find_first id s sessions = ground (arith, equal_self id)

  find-delete :
      (id : Bytes) (sessions : List (Bytes × Session v)) → find v id (delete v id sessions) ≡ none
  unfolding find delete
  find-delete id [] = refl
  find-delete id ((key, s) ∷ sessions) = ground (arith, find-delete id sessions)

  abbrev registered : Bytes → Session v → Engine v → Engine v
  registered id s e = record e { sessions = (id, s) ∷ delete v id e.sessions }

  spawn_open :
      (id : Bytes) (inherited : List Bytes) (spec : SpawnSpec) (s : Session v) (e : Engine v)
      → e.closed ≡ false
      → start_session v id inherited spec true ≡ inr s
      → spawn v id inherited spec true e
        ≡ (announce v (spawned_event v id spec.command) (registered id s e), inr s)
  unfolding spawn spawn_started
  spawn_open id inherited spec s e still starts =
      ap
        (λ (b : Bool).
          if b
          then (e, inl engine_closed)
          else spawn_started v id spec e (start_session v id inherited spec true))
        still
      ∙ ap (spawn_started v id spec e) starts
      ∙ rw (register_open id s e still, spawn_started)
          (ap
            (λ (p : Engine v × (Error ⊎ Session v)).
              (announce v (spawned_event v id spec.command) p.0, inr s))
            (register_open id s e still))

  -- A Spawn of a session that starts, undisturbed by others, puts the session into the registry
  -- under its id, and each subscriber that is not done and has room hears that it was spawned,
  -- behind what it had queued.
  pub find-spawn :
      (id : Bytes) (inherited : List Bytes) (spec : SpawnSpec) (s : Session v) (e : Engine v)
      (i : ℕ)
      → IsAttached e.feed
      → e.closed ≡ false
      → start_session v id inherited spec true ≡ inr s
      → (e.cell i).done ≡ false
      → length (e.cell i).channel.queue < (e.cell i).channel.capacity
      → let e' = (spawn v id inherited spec true e).0 in
        (find v id e'.sessions ≡ some s)
        × ((e'.cell i).channel.queue
            ≡ (e.cell i).channel.queue ++ spawned_event v id spec.command ∷ [])
  find-spawn id inherited spec s e i a still starts open_still room =
      let event = spawned_event v id spec.command in
      rw (spawn_open id inherited spec s e still starts) (
        find_first id s (delete v id e.sessions),
        ap (λ (sub : EventSubscription). sub.channel.queue) (cell-publish event i e.feed a still)
            ∙ (heard event (e.cell i) open_still room).0,
      )

  -- Where a Remove comes between the registration of a session and the announcement of its spawn, a
  -- subscriber with room for both hears of the removal first, and then of the spawn of a session
  -- that is not in the registry.
  pub removed_before_spawned :
      (id command : Bytes) (s : Session v) (e : Engine v) (i : ℕ)
      → IsAttached e.feed
      → e.closed ≡ false
      → (e.cell i).done ≡ false
      → length (e.cell i).channel.queue + 1 < (e.cell i).channel.capacity
      → let e' =
          announce v (spawned_event v id command) (remove_session v id (register v id s e).0).0 in
        (find v id e'.sessions ≡ none)
        × ((e'.cell i).channel.queue
            ≡ (e.cell i).channel.queue ++ plain_event removed id ∷ spawned_event v id command ∷ [])
  unfolding remove_session unregister delete
  removed_before_spawned id command s e i a still open_still room =
      let gone = plain_event removed id in
      let event = spawned_event v id command in
      let first = heard gone (e.cell i) open_still (omega arith) in
      let cell = cell-publish gone i e.feed a still in
      let feed = publish gone e.feed in
      let sub = delivered gone (e.cell i) in
      let second = heard event sub first.1 (
        omega (
          arith,
          ap length first.0,
          length-append (e.cell i).channel.queue (gone ∷ []),
          first.2,
        )) in
      rw (register_open id s e still) (
        rw (find_first id s (delete v id e.sessions), remove_session)
          (
            find-delete id ((id, s) ∷ delete v id e.sessions),
            ap (λ (sub : EventSubscription). sub.channel.queue)
                  (cell-publish event i feed (publish-IsAttached gone e.feed a)
                      (publish_closed gone e.feed ∙ still)
                    ∙ ap (delivered event) cell)
                ∙ second.0
                ∙ ap (λ (queue : List Event). queue ++ event ∷ []) first.0
                ∙ append_assoc (e.cell i).channel.queue (gone ∷ []) (event ∷ []),
          ))
