-- ===== src/Viewers/History.antt =====
-- What holds in every history of a session.
use windrunner.Prelude.{
  ℕ, ◌≡◌, true, false, inl, inr, arith, Bool-cases, ◌&&◌, ◌||◌, length, ◌≤◌, not,
}
use windrunner.Channel.{fine}
use windrunner.Hub.{member}
use windrunner.Session.{Session, end_stream}
use windrunner.Vt.{Vt}
use windrunner.Viewers.Exact.{now}
use windrunner.Viewers.Final.{queue-end_stream, queue-shut}
use windrunner.Viewers.Replica.{Replica, paint_all}
use windrunner.Viewers.{shut}
use windrunner.Viewers.Steps.{Reach, Reach-AllSound, Reach-IsExact}

module _ {v : Vt} (replica : Replica v) where
  open replica use {Screen, paint}

  -- After any history of a session that has started (output, the ends of output and of the child,
  -- resizes, settlements, timer rounds, attachments, detachments, receives, the sections of the
  -- close, in any order, with pty.Setsize failing anywhere), as long as the session is not closed,
  -- a viewer that is neither done nor owed a resync shows, once it has painted what is queued for
  -- it, just what the session's terminal shows, for every emulator and every client that obey the
  -- laws of Replica, which are about what an emulator renders, with any bytes behind it that set
  -- just the modes and margins that are tracked.
  pub Reach-shows :
      (i : ℕ) {s : Session v} {r : Screen}
      → Reach replica i s r
      → s.closed ≡ false
      → (s.cell i).done ≡ false
      → (s.cell i).missed ≡ false
      → paint_all replica r (s.cell i).channel.queue ≡ now replica s
  Reach-shows i reached still open_still current =
      (Reach-IsExact replica i reached still).exact open_still current

  -- In every such history no channel is sent to or closed once it is closed, no send under the lock
  -- finds its channel full, no queue outgrows its buffer, a channel is closed exactly if its
  -- subscription is done, and what is not done is subscribed, unless the session is closed.
  pub Reach-healthy :
      (i : ℕ) {s : Session v} {r : Screen}
      → Reach replica i s r
      → (j : ℕ)
      → ((s.cell j).channel.health ≡ fine)
        × (length (s.cell j).channel.queue ≤ (s.cell j).channel.capacity)
        × ((s.cell j).channel.closed ≡ (s.cell j).done)
        × (s.closed || ((s.cell j).done || member j s.subs) ≡ true)
  Reach-healthy i {s} reached j =
      let sound = Reach-AllSound replica i reached j in
      (
        sound.healthy,
        sound.bounded,
        sound.closed_if_done,
        elim (Bool-cases s.closed) [
          | inl over ↦ ground arith
          | inr still ↦ ground (arith, (Reach-IsExact replica i reached still).attached.attached j)
        ],
      )

  -- In every such history a subscription that resyncs is never dropped for lag, one that does not
  -- is never owed a resync, one that was dropped is done, and none that is done is owed a resync.
  pub Reach-lag :
      (i : ℕ) {s : Session v} {r : Screen}
      → Reach replica i s r
      → (j : ℕ)
      → let sub = s.cell j in
        (sub.lagged && sub.resync ≡ false)
        × (sub.missed && not sub.resync ≡ false)
        × (sub.lagged && not sub.done ≡ false)
        × (sub.missed && sub.done ≡ false)
  Reach-lag i {s} reached j =
      let sound = Reach-AllSound replica i reached j in
      (
        ground (arith, sound.lagged_never_resyncs),
        ground (arith, sound.owed_resyncs),
        ground (arith, sound.lagged_is_done),
        ground (arith, sound.owed_is_open),
      )

  -- In such a history, as long as the session is not closed, a viewer that is not done gets the
  -- last word: where the stream of output ends, it is left a queue that brings its screen to the
  -- session's last state, behind which its channel is closed, and where the session is closed, it
  -- is left a queue that brings its screen to the state at that moment, is owed nothing, and is
  -- among those that are still to be finished, also if it was owed a resync and its queue was full.
  pub Reach-last_call :
      (i : ℕ) {s : Session v} {r : Screen}
      → Reach replica i s r
      → s.closed ≡ false
      → (s.cell i).done ≡ false
      → ((paint_all replica r ((end_stream v s).cell i).channel.queue
            ≡ now replica (end_stream v s))
          × (((end_stream v s).cell i).done ≡ true)
          × (((end_stream v s).cell i).channel.closed ≡ true))
        × ((paint_all replica r ((shut v s).0.cell i).channel.queue ≡ now replica s)
            × (((shut v s).0.cell i).missed ≡ false)
            × (member i (shut v s).1 ≡ true))
  Reach-last_call i {s} {r} reached still open_still =
      let e = Reach-IsExact replica i reached still in
      (queue-end_stream replica i r s e open_still, queue-shut replica i r s e still open_still)
