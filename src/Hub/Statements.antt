-- ===== src/Hub/Statements.antt =====
-- What happens to the statements of size: a delivery can take some of them away, and then a goroutine
-- is on its way that settles the size.
use windrunner.Prelude.{ℕ, ◌≤◌, ◌<◌, ◌≡◌, ◌⊎◌, inl, inr, refl, ◌∙◌, Bool, List, [], ◌∷◌, arith}
use windrunner.Channel
use windrunner.Hub.{
  Message, Snapshot, Hub, put, retire_viewer, arm_resync_retry, deliver, deliver_each, deliver_all,
  finish_sub, finish_each, close_mark, close_subscription, flush_sub, flush_each, flush_resyncs,
}

-- From `hub` to `hub'` the statements stand, or else a settlement is due.
pub record Settles (hub hub' : Hub) : Type 0 where
  pub still : hub'.closed ≡ hub.closed
  pub more : hub.settling ≤ hub'.settling
  pub due : ((hub'.views ≡ hub.views) × (hub'.settling ≡ hub.settling)) ⊎ (0 < hub'.settling)

pub unchanged :
    (hub hub' : Hub)
    → hub'.closed ≡ hub.closed
    → hub'.views ≡ hub.views
    → hub'.settling ≡ hub.settling
    → Settles hub hub'
unchanged hub hub' still views settling = record {
  still = still;
  more = omega arith;
  due = inl (views, settling);
}

pub retire_viewer-Settles : (i : ℕ) (hub : Hub) → Settles hub (retire_viewer i hub)
unfolding retire_viewer
retire_viewer-Settles i hub = record {
  still = ground arith;
  more = ground arith;
  due = ground arith;
}

arm-Settles : (hub : Hub) → Settles hub (arm_resync_retry hub)
unfolding arm_resync_retry
arm-Settles hub = record { still = ground arith; more = ground arith; due = ground arith }

deliver-Settles : (message : Message) (i : ℕ) (hub : Hub) → Settles hub (deliver message i hub)
unfolding deliver Channel.try_send retire_viewer arm_resync_retry
deliver-Settles message i hub = record {
  still = ground arith;
  more = ground arith;
  due = ground arith;
}

pub compose : (a b c : Hub) → Settles a b → Settles b c → Settles a c
compose a b c s t = record {
  still = t.still ∙ s.still;
  more = omega (arith, s.more, t.more);
  due = elim t.due [
    | inr later ↦ inr later
    | inl (views, settling) ↦ elim s.due [
      | inr due ↦ inr (omega arith)
      | inl (views', settling') ↦ inl (views ∙ views', settling ∙ settling')
    ]
  ];
}

deliver_each-Settles :
    (message : Message) (is : List ℕ) (hub : Hub) → Settles hub (deliver_each message is hub)
unfolding deliver_each
deliver_each-Settles message [] hub = unchanged hub hub refl refl refl
deliver_each-Settles message (i ∷ is) hub =
    compose hub (deliver message i hub) (deliver_each message is (deliver message i hub))
      (deliver-Settles message i hub) (deliver_each-Settles message is (deliver message i hub))

pub deliver_all-Settles : (message : Message) (hub : Hub) → Settles hub (deliver_all message hub)
unfolding deliver_all
deliver_all-Settles message hub = deliver_each-Settles message hub.subs hub

flush_each-Settles :
    (force : Bool) (state : Snapshot) (is : List ℕ) (hub : Hub)
    → Settles hub (flush_each force state is hub).0
unfolding flush_each
flush_each-Settles force state [] hub = unchanged hub hub refl refl refl
flush_each-Settles force state (i ∷ is) hub =
    let hub' = put hub i (flush_sub force state (hub.cell i)).0 in
    let s = flush_each-Settles force state is hub' in
    record { still = s.still; more = s.more; due = s.due }

pub flush_resyncs-Settles :
    (force : Bool) (state : Snapshot) (hub : Hub) → Settles hub (flush_resyncs force state hub)
unfolding flush_resyncs arm_resync_retry
flush_resyncs-Settles force state hub =
    let s = flush_each-Settles force state hub.subs hub in
    record {
      still = ground (arith, s.still);
      more = ground (arith, s.more);
      due = ground (arith, s.due);
    }

pub finish_each-Settles : (is : List ℕ) (hub : Hub) → Settles hub (finish_each is hub)
unfolding finish_each
finish_each-Settles [] hub = unchanged hub hub refl refl refl
finish_each-Settles (i ∷ is) hub =
    let s = finish_each-Settles is (put hub i (finish_sub (hub.cell i))) in
    record { still = s.still; more = s.more; due = s.due }

pub close_subscription-Settles : (i : ℕ) (hub : Hub) → Settles hub (close_subscription i hub)
unfolding close_subscription close_mark
close_subscription-Settles i hub =
    let hub' = (close_mark i hub).0 in
    let s = retire_viewer-Settles i hub' in
    record {
      still = ground (arith, s.still);
      more = ground (arith, s.more);
      due = ground (arith, s.due);
    }
