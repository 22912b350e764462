-- ===== src/Client/Replica.antt =====
-- client/client.go: a viewer that paints what it reads from an attachment, in front of a session.
use windrunner.Prelude.{
  ℕ, ◌≤◌, ◌≡◌, refl, ap, ◌∙◌, false, Bytes, List, [], ◌∷◌, ◌++◌, Option, none, some, All, length,
}
use windrunner.Hub
use windrunner.Hub.{Resize, Snapshot}
use windrunner.Json.{Text}
use windrunner.Session.{Session}
use windrunner.Vt.{Vt}
use windrunner.Viewers.Replica.{Replica, paint_all}
use windrunner.Viewers.Exact.{now}
use windrunner.Viewers.History.{Reach-shows}
use windrunner.Viewers.Steps.{Reach}
use windrunner.Wire.RoundTrip.{encodings}
use windrunner.Server.{snapshot_payload}
use windrunner.Server.Attach.{pump, resize_payload}
use windrunner.Client.Attachment.{Message, Stream, output, resizes, resyncs, read_loop}
use windrunner.Client.Streams.{seen, seen_all, IsCarriedMessage, read_loop-pump}

-- A client that is handed the messages of an attachment, in which a size comes apart from its
-- repaint, and whose screen does with them what a replica does with the session's own messages.
pub record Pane {v : Vt} (replica : Replica v) : Type 1 where
  pub State : Type 0
  pub apply : State → Message → State
  pub screen : State → Replica.Screen replica
  pub output_painted :
      (p : State) (bytes : Bytes)
      → screen (apply p (output bytes))
        ≡ Replica.paint replica (screen p) (record { bytes = bytes; resize = none; resync = none })
  pub repaint_painted :
      (p : State) (moved : Resize) (bytes : Bytes)
      → screen (apply (apply p (resizes (resize_payload moved))) (output bytes))
        ≡ Replica.paint replica
            (screen p)
            (record { bytes = bytes; resize = some moved; resync = none })
  pub resync_painted :
      (p : State) (bytes : Bytes) (resize : Option Resize) (state : Snapshot)
      → screen (apply p (resyncs (snapshot_payload state)))
        ≡ Replica.paint replica
            (screen p)
            (record { bytes = bytes; resize = resize; resync = some state })

module _ {v : Vt} {replica : Replica v} (pane : Pane replica) where
  open pane use {State, apply, screen}

  abbrev pub apply_all : State → List Message → State
  apply_all p [] = p
  apply_all p (m ∷ ms) = apply_all (apply p m) ms

  apply_all-append :
      (p : State) (ms ns : List Message) → apply_all p (ms ++ ns) ≡ apply_all (apply_all p ms) ns
  apply_all-append p [] ns = refl
  apply_all-append p (m ∷ ms) ns = apply_all-append (apply p m) ms ns

  painted-parts :
      (p : State) (bytes : Bytes) (resize : Option Resize) (resync : Option Snapshot)
      → let message : Hub.Message = record { bytes = bytes; resize = resize; resync = resync } in
        screen (apply_all p (seen message)) ≡ Replica.paint replica (screen p) message
  unfolding seen
  painted-parts p bytes none none = pane.output_painted p bytes
  painted-parts p bytes (some moved) none = pane.repaint_painted p moved bytes
  painted-parts p bytes resize (some state) = pane.resync_painted p bytes resize state

  -- What the client has painted is what a replica of the session has.
  painted-seen_all :
      (ms : List Hub.Message) (p : State)
      → screen (apply_all p (seen_all ms)) ≡ paint_all replica (screen p) ms
  unfolding seen_all
  painted-seen_all [] p = refl
  painted-seen_all (m ∷ ms) p =
      ap screen (apply_all-append p (seen m) (seen_all ms))
      ∙ painted-seen_all ms (apply_all p (seen m))
      ∙ ap (λ r. paint_all replica r ms) (painted-parts p m.bytes m.resize m.resync)

  -- In every history of a session that has started, a client that paints as a replica does, and
  -- that has what the replica of a viewer has painted, shows just what the session's terminal shows
  -- once it has applied what its readLoop hands on of the frames that serveAttach writes of the
  -- messages queued for that viewer, where the session is not closed, the viewer is neither done
  -- nor owed a resync, the sizes are Go ints, and each frame is within the limit.
  pub Reach-read_loop :
      (text : Text) (i : ℕ) {s : Session v} (p : State) (fuel : ℕ)
      → Reach replica i s (screen p)
      → s.closed ≡ false
      → (s.cell i).done ≡ false
      → (s.cell i).missed ≡ false
      → All (IsCarriedMessage text) (s.cell i).channel.queue
      → length (pump text (s.cell i).channel.queue none) ≤ fuel
      → let stream = read_loop text fuel (encodings (pump text (s.cell i).channel.queue none)) in
        screen (apply_all p stream.output) ≡ now replica s
  Reach-read_loop text i {s} p fuel reached still open_still current c enough =
      ap (λ (stream : Stream). screen (apply_all p stream.output))
        (read_loop-pump text (s.cell i).channel.queue none fuel c tt enough)
      ∙ painted-seen_all (s.cell i).channel.queue p
      ∙ Reach-shows replica i reached still open_still current
