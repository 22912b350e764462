-- ===== src/Engine/History.antt =====
-- Histories of the engine: its sections under the lock, in any order, and between them what a caller
-- does behind the lock.
use windrunner.Prelude.{
  ℕ, ◌≤◌, ◌≡◌, ◌⊎◌, refl, sym, ap, ◌∙◌, true, false, not, ◌&&◌, ◌||◌, Bytes, List, [], ◌∷◌, ◌++◌,
  length, if_cases, arith,
}
use windrunner.Prelude.Int.{ℤ}
use windrunner.Channel.{fine}
use windrunner.Event.{Event}
use windrunner.Hub.{member, remove}
use windrunner.Session.{Session, Error}
use windrunner.Engine.Events.{IsAttached, publish_closed}
use windrunner.Engine.Leaving.{
  IsServed, publish-IsServed, subscribe-IsServed, leave-IsServed, finish-IsServed, receive-IsServed,
  shut-IsServed,
}
use windrunner.Engine.{
  Engine, Feed, publish, subscribe, leave, finish, receive, new_engine, register, announce, delete,
  unregister, shut,
}
use windrunner.Vt.{Vt}

module _ (v : Vt) where
  -- A step, with who is taken out of the set and still to be finished, in front of it and behind it.
  -- `Spawn`, `Remove` and the end of a child publish in a step of their own.
  pub data Step (e : Engine v) (leaving : List ℕ) : Engine v → List ℕ → Type 0 where
    registers : (id : Bytes) (s : Session v) → Step e leaving (register v id s e).0 leaving
    publishes : (event : Event) → Step e leaving (announce v event e) leaving
    unregisters : (id : Bytes) → Step e leaving (unregister v id e) leaving
    subscribes :
        (i : ℕ) (buffer : ℤ)
        → member i e.subs ≡ false
        → Step e leaving (record e { feed = subscribe i buffer e.feed }) leaving
    leaves : (i : ℕ) → Step e leaving (record e { feed = leave i e.feed }) (i ∷ leaving)
    finishes :
        (i : ℕ)
        → member i leaving ≡ true
        → Step e leaving (record e { feed = finish i e.feed }) (remove i leaving)
    receives : (i : ℕ) → Step e leaving (record e { feed = (receive i e.feed).1 }) leaving
    shuts : Step e leaving (shut v e).0 ((shut v e).2 ++ leaving)

  pub data Reach : Engine v → List ℕ → Type 0 where
    start : Reach (new_engine v) []
    later :
        {e e' : Engine v} {leaving leaving' : List ℕ}
        → Reach e leaving
        → Step e leaving e' leaving'
        → Reach e' leaving'

  pub no_events-IsAttached : IsAttached (new_engine v).feed
  no_events-IsAttached = record {
    sound = λ i. record {
      healthy = refl;
      bounded = omega arith;
      closed_if_done = refl;
      lagged_is_done = λ lagged. cc;
    };
    attached = λ i open_still. cc;
    distinct = tt;
  }

  Step-IsServed :
      {e e' : Engine v} {leaving leaving' : List ℕ}
      → Step e leaving e' leaving'
      → IsServed e.feed leaving
      → IsServed e'.feed leaving'
  unfolding register unregister shut
  Step-IsServed {e} {leaving = leaving} (registers id s) a =
      if_cases (λ (p : Engine v × (Error ⊎ Session v)). IsServed p.0.feed leaving) e.closed _ _
        (λ _. a) (λ _. a)
  Step-IsServed {e} {leaving = leaving} (publishes event) a =
      publish-IsServed leaving event e.feed a
  Step-IsServed (unregisters id) a = a
  Step-IsServed {e} {leaving = leaving} (subscribes i buffer absent) a =
      subscribe-IsServed leaving i buffer e.feed absent a
  Step-IsServed {e} {leaving = leaving} (leaves i) a = leave-IsServed leaving i e.feed a
  Step-IsServed {e} {leaving = leaving} (finishes i due) a = finish-IsServed leaving i e.feed a
  Step-IsServed {e} {leaving = leaving} (receives i) a = receive-IsServed leaving i e.feed a
  Step-IsServed {e} {leaving = leaving} shuts a = shut-IsServed leaving e.feed a

  Reach-IsServed : {e : Engine v} {leaving : List ℕ} → Reach e leaving → IsServed e.feed leaving
  Reach-IsServed start = record {
    sound = no_events-IsAttached.sound;
    served = λ i open_still. cc;
    distinct = tt;
  }
  Reach-IsServed (later reached step) = Step-IsServed step (Reach-IsServed reached)

  -- However event subscriptions come, go and fall behind, no event is sent on a closed channel and
  -- none is closed again, no queue outgrows its buffer, a channel is closed exactly if its
  -- subscription is done, one dropped for lag is done, and what is not done is in the set that
  -- events go to, or has been taken out of it and is still to be finished.
  pub Reach-feed_healthy :
      {e : Engine v} {leaving : List ℕ}
      → Reach e leaving
      → (i : ℕ)
      → ((e.cell i).channel.health ≡ fine)
        × (length (e.cell i).channel.queue ≤ (e.cell i).channel.capacity)
        × ((e.cell i).channel.closed ≡ (e.cell i).done)
        × ((e.cell i).lagged && not (e.cell i).done ≡ false)
        × ((e.cell i).done || (member i e.subs || member i leaving) ≡ true)
  Reach-feed_healthy {e} reached i =
      let a = Reach-IsServed reached in
      let s = a.sound i in
      (
        s.healthy,
        s.bounded,
        s.closed_if_done,
        ground (arith, s.lagged_is_done),
        ground (arith, a.served i),
      )

  -- Nothing is left and nobody listens.
  record IsOver (e : Engine v) : Type 0 where
    no_sessions : e.sessions ≡ []
    no_subs : e.subs ≡ []

  register-IsOver :
      (id : Bytes) (s : Session v) (e : Engine v)
      → e.closed ≡ true
      → IsOver e
      → IsOver (register v id s e).0
  unfolding register
  register-IsOver id s e over h =
      if_cases (λ (p : Engine v × (Error ⊎ Session v)). IsOver p.0) e.closed _ _ (λ _. h)
        (λ still. absurd (ground arith))

  publish-IsOver :
      (event : Event) (e : Engine v) → e.closed ≡ true → IsOver e → IsOver (announce v event e)
  unfolding publish
  publish-IsOver event e over h =
      if_cases (λ (feed : Feed). IsOver (record e { feed = feed })) e.closed _ _ (λ _. h)
        (λ still. absurd (ground arith))

  register_closed :
      (id : Bytes) (s : Session v) (e : Engine v) → (register v id s e).0.closed ≡ e.closed
  unfolding register
  register_closed id s e = ground arith

  subscribe-IsOver :
      (i : ℕ) (buffer : ℤ) (e : Engine v)
      → e.closed ≡ true
      → IsOver e
      → IsOver (record e { feed = subscribe i buffer e.feed })
  unfolding subscribe
  subscribe-IsOver i buffer e over h =
      if_cases (λ (feed : Feed). IsOver (record e { feed = feed })) e.closed _ _
        (λ _. record { no_sessions = h.no_sessions; no_subs = h.no_subs })
        (λ still. absurd (ground arith))

  subscribe_closed :
      (i : ℕ) (buffer : ℤ) (feed : Feed) → (subscribe i buffer feed).closed ≡ feed.closed
  unfolding subscribe
  subscribe_closed i buffer feed = ground arith

  Step-IsOver :
      {e e' : Engine v} {leaving leaving' : List ℕ}
      → Step e leaving e' leaving'
      → (e.closed ≡ true → IsOver e)
      → e'.closed ≡ true
      → IsOver e'
  unfolding shut unregister delete receive remove
  Step-IsOver {e} (registers id s) h over =
      let was = sym (register_closed id s e) ∙ over in register-IsOver id s e was (h was)
  Step-IsOver {e} (publishes event) h over =
      let was = sym (publish_closed event e.feed) ∙ over in publish-IsOver event e was (h was)
  Step-IsOver (unregisters id) h over = record {
    no_sessions = ap (delete v id) (h over).no_sessions;
    no_subs = (h over).no_subs;
  }
  Step-IsOver {e} (subscribes i buffer absent) h over =
      let was = sym (subscribe_closed i buffer e.feed) ∙ over in
      subscribe-IsOver i buffer e was (h was)
  Step-IsOver (leaves i) h over = record {
    no_sessions = (h over).no_sessions;
    no_subs = ap (remove i) (h over).no_subs;
  }
  Step-IsOver (finishes i due) h over = record {
    no_sessions = (h over).no_sessions;
    no_subs = (h over).no_subs;
  }
  Step-IsOver (receives i) h over = record {
    no_sessions = (h over).no_sessions;
    no_subs = (h over).no_subs;
  }
  Step-IsOver shuts h over = record { no_sessions = refl; no_subs = refl }

  Reach-IsOver : {e : Engine v} {leaving : List ℕ} → Reach e leaving → e.closed ≡ true → IsOver e
  Reach-IsOver start over = cc
  Reach-IsOver (later reached step) over = Step-IsOver step (Reach-IsOver reached) over

  -- Once the engine is closed it has no sessions and nobody is in the set that events go to, and
  -- every event subscription is done but for those that have been taken out of the set and are
  -- still to be finished, whatever happens then: also if a Spawn was under way, if somebody
  -- subscribes, and if sessions publish.
  pub Reach-closed :
      {e : Engine v} {leaving : List ℕ}
      → Reach e leaving
      → e.closed ≡ true
      → (e.sessions ≡ []) × (e.subs ≡ []) × ((i : ℕ) → (e.cell i).done || member i leaving ≡ true)
  unfolding member
  Reach-closed {e} {leaving} reached over =
      let empty = (Reach-IsOver reached over).no_subs in
      (
        (Reach-IsOver reached over).no_sessions,
        empty,
        λ i.
            ground
              (arith, (Reach-IsServed reached).served i, ap (λ (is : List ℕ). member i is) empty),
      )
