-- ===== src/Hub.antt =====
-- session.go: Subscription with its `deliver`, `finish` and `Close`, and the part of Session that
-- these share: who is subscribed, who has stated a size, and the resync timer. A subscription is
-- known by a number, its address; `cell` holds them all.
pub mod Invariant
pub mod Sets
pub mod Attached
pub mod Flush
pub mod Statements
use windrunner.Prelude.{
  ℕ, ◌+◌, Bool, true, false, not, ◌&&◌, ◌||◌, Bytes, List, [], ◌∷◌, ◌++◌, Option, none, some, ◌==◌,
  if◌then◌else◌,
}
use windrunner.Prelude.Int.{ℤ}
use windrunner.Channel
use windrunner.Channel.{Channel}

pub record Resize : Type 0 where
  pub cols : ℤ
  pub rows : ℤ

pub record Snapshot : Type 0 where
  pub cols : ℤ
  pub rows : ℤ
  pub ansi : Bytes

pub record Message : Type 0 where
  pub bytes : Bytes
  pub resize : Option Resize
  pub resync : Option Snapshot

-- `Message{Resync: snapshot}`
abbrev pub resync_message : Snapshot → Message
resync_message state = record { bytes = []; resize = none; resync = some state }

pub record ViewSize : Type 0 where
  pub cols : ℤ
  pub rows : ℤ
  pub seq : ℕ

pub record Subscription : Type 0 where
  pub channel : Channel Message
  pub resync : Bool
  pub retire : Bool  -- is the function `retire` set
  pub done : Bool
  pub lagged : Bool
  pub missed : Bool

pub record Hub : Type 0 where
  pub subs : List ℕ
  pub cell : ℕ → Subscription
  pub views : List (ℕ × ViewSize)
  pub settling : ℕ  -- goroutines `go s.settleSize()` that have not run yet
  pub resync_timer : Bool
  pub closed : Bool

-- An assignment to the fields of subscription `i`.
abbrev pub update : (ℕ → Subscription) → ℕ → Subscription → ℕ → Subscription
update cell i sub j = if i == j then sub else cell j

abbrev pub put : Hub → ℕ → Subscription → Hub
put hub i sub = record hub { cell = update hub.cell i sub }

-- Sets of subscriptions, and the map of statements. `delete` of what is not there changes nothing.
unfoldable pub member : ℕ → List ℕ → Bool
member i [] = false
member i (j ∷ js) = i == j || member i js

unfoldable pub remove : ℕ → List ℕ → List ℕ
remove i [] = []
remove i (j ∷ js) = if i == j then remove i js else j ∷ remove i js

unfoldable pub spoke : ℕ → List (ℕ × ViewSize) → Bool
spoke i [] = false
spoke i ((j, v) ∷ vs) = i == j || spoke i vs

unfoldable pub withdraw : ℕ → List (ℕ × ViewSize) → List (ℕ × ViewSize)
withdraw i [] = []
withdraw i ((j, v) ∷ vs) = if i == j then withdraw i vs else (j, v) ∷ withdraw i vs

-- `armResyncRetryLocked`
unfoldable pub arm_resync_retry : Hub → Hub
arm_resync_retry hub =
    if hub.closed || hub.resync_timer then hub else record hub { resync_timer = true }

-- `retireViewerLocked`
unfoldable pub retire_viewer : ℕ → Hub → Hub
unfolding remove spoke withdraw
retire_viewer i hub =
    if not (spoke i hub.views) then record hub { subs = remove i hub.subs } else record hub {
      subs = remove i hub.subs;
      views = withdraw i hub.views;
      settling = hub.settling + 1;
    }

-- The end of `deliver`, behind the `select`: what its `default` falls through to.
lagging : ℕ → Subscription → Hub → Hub
unfolding retire_viewer arm_resync_retry
lagging i sub hub =
    if not sub.resync
    then retire_viewer i (
        put hub i (record sub {
          lagged = true;
          done = true;
          retire = false;
          channel = Channel.close sub.channel;
        }))
    else arm_resync_retry (put hub i (record sub { missed = true }))

sent_or_lagging : ℕ → Subscription → Hub → Channel Message × Bool → Hub
unfolding lagging
sent_or_lagging i sub hub (channel, true) = put hub i (record sub { channel = channel })
sent_or_lagging i sub hub (channel, false) = lagging i (record sub { channel = channel }) hub

unfoldable pub deliver : Message → ℕ → Hub → Hub
unfolding sent_or_lagging
deliver message i hub =
    let sub = hub.cell i in
    if sub.done
    then hub
    else if sub.missed
    then hub
    else sent_or_lagging i sub hub (Channel.try_send sub.channel message)

-- `for sub := range s.subs { sub.deliver(message, s) }`, over the subscriptions at its start.
unfoldable pub deliver_each : Message → List ℕ → Hub → Hub
unfolding deliver
deliver_each message [] hub = hub
deliver_each message (i ∷ is) hub = deliver_each message is (deliver message i hub)

unfoldable pub deliver_all : Message → Hub → Hub
unfolding deliver_each
deliver_all message hub = deliver_each message hub.subs hub

-- `(*Subscription).finish`
unfoldable pub finish_sub : Subscription → Subscription
finish_sub sub =
    if not sub.done
    then record sub { done = true; missed = false; channel = Channel.close sub.channel }
    else sub

unfoldable pub finish_each : List ℕ → Hub → Hub
unfolding finish_sub
finish_each [] hub = hub
finish_each (i ∷ is) hub = finish_each is (put hub i (finish_sub (hub.cell i)))

-- The part of `(*Subscription).Close` under the subscription's lock, and whether it calls `retire`.
unfoldable pub close_mark : ℕ → Hub → Hub × Bool
unfolding finish_sub
close_mark i hub =
    let sub = hub.cell i in (put hub i (record (finish_sub sub) { retire = false }), sub.retire)

-- `(*Subscription).Close`
unfoldable pub close_subscription : ℕ → Hub → Hub
unfolding close_mark retire_viewer
close_subscription i hub =
    let (hub', retires) = close_mark i hub in if retires then retire_viewer i hub' else hub'

-- A reader's `<-sub.Output()`.
unfoldable pub receive : ℕ → Hub → Option Message × Hub
unfolding Channel.receive
receive i hub =
    let sub = hub.cell i in
    let (message, channel) = Channel.receive sub.channel in
    (message, put hub i (record sub { channel = channel }))

-- One subscription of `flushResyncsLocked`: the subscription behind it, and whether it stays owed.
unfoldable pub flush_sub : Bool → Snapshot → Subscription → Subscription × Bool
flush_sub force state sub =
    if sub.done || not sub.missed
    then (sub, false)
    else if Channel.has_room sub.channel
    then (
      record sub { channel = Channel.send sub.channel (resync_message state); missed = false },
      false,
    )
    else if force
    then (
      record sub {
        channel = Channel.send (Channel.evict sub.channel) (resync_message state);
        missed = false;
      },
      false,
    )
    else (sub, true)

unfoldable pub flush_each : Bool → Snapshot → List ℕ → Hub → Hub × Bool
unfolding flush_sub
flush_each force state [] hub = (hub, false)
flush_each force state (i ∷ is) hub =
    let (sub, owed) = flush_sub force state (hub.cell i) in
    let (hub', later) = flush_each force state is (put hub i sub) in (hub', owed || later)

-- `flushResyncsLocked`; `state` is the one snapshot that it serializes, if it needs one.
unfoldable pub flush_resyncs : Bool → Snapshot → Hub → Hub
unfolding flush_each arm_resync_retry
flush_resyncs force state hub =
    let (hub', owed) = flush_each force state hub.subs hub in
    if owed then arm_resync_retry hub' else hub'
