-- ===== src/Client/Streams.antt =====
-- client/client.go against server/server.go: what the daemon writes to an attachment or a
-- subscription is what the client's read loops hand on.
use windrunner.Prelude.{
  ℕ, zero, suc, ◌≤◌, ◌≡◌, refl, sym, ap, ◌∙◌, subst, Bytes, List, [], ◌∷◌, ◌++◌, Option, none, some,
  All, All-append, length, arith,
}
use windrunner.Prelude.Int.{ℤ}
use windrunner.Json.{Text}
use windrunner.Wire.Payloads.Responses.RoundTrip.{opt}
use windrunner.Hub
use windrunner.Hub.{Snapshot, Resize}
use windrunner.Wire.{Frame, Result, ok, err, read_frame, read_full}
use windrunner.Wire.RoundTrip.{Fits, encodings, read_frame-encoding}
use windrunner.Wire.Payloads.Fields.{IsInt64}
use windrunner.Wire.Payloads.RoundTrip.{unmarshal-snapshot, unmarshal-resize, unmarshal-exited}
use windrunner.Server.{snapshot_payload}
use windrunner.Server.Attach.{
  snapshot_frame, resize_frame, exited_frame, message_frames, pump, write_all, resize_payload,
}
use windrunner.Client.Attachment.{
  Message, output, resizes, resyncs, Stream, no_stream, yields, attached, not_attached, attach,
  opened, first_frame, unreadable, take_frame, after_resync, after_resize, after_exit, read_loop,
}

-- A message as the client sees it: a size comes apart from its repaint.
abbrev pub size_messages : Option Resize → List Message
size_messages none = []
size_messages (some moved) = resizes (resize_payload moved) ∷ []

unfoldable pub seen : Hub.Message → List Message
seen message = elim message.resync [
  | none ↦ size_messages message.resize ++ output message.bytes ∷ []
  | some state ↦ resyncs (snapshot_payload state) ∷ []
]

unfoldable pub seen_all : List Hub.Message → List Message
unfolding seen
seen_all [] = []
seen_all (message ∷ messages) = seen message ++ seen_all messages

abbrev yields_all : List Message → Stream → Stream
yields_all messages later = record later { output = messages ++ later.output }

abbrev pub IsSize : ℤ → ℤ → Type 0
IsSize cols rows = IsInt64 cols × IsInt64 rows

abbrev pub IsSized : Option Resize → Type 0
IsSized none = Unit {0}
IsSized (some moved) = IsSize moved.cols moved.rows

module _ (text : Text) where
  -- A message whose sizes are Go ints and whose frames are within the limit.
  pub record IsCarriedMessage (message : Hub.Message) : Type 0 where
    pub resize : IsSized message.resize
    pub resync : All (λ (state : Snapshot). IsSize state.cols state.rows) (opt message.resync)
    pub fits : All Fits (message_frames text message)

  abbrev take_all : List Frame → Stream
  unfolding take_frame
  take_all [] = no_stream
  take_all (f ∷ fs) = take_frame text f (take_all fs)

  read_loop-encodings :
      (fs : List Frame) (fuel : ℕ)
      → All Fits fs
      → length fs ≤ fuel
      → read_loop text fuel (encodings fs) ≡ take_all fs
  unfolding read_loop take_all read_frame read_full
  read_loop-encodings [] zero fits enough = refl
  read_loop-encodings [] (suc fuel) fits enough = refl
  read_loop-encodings (f ∷ fs) zero fits enough = absurd (omega arith)
  read_loop-encodings (f ∷ fs) (suc fuel) fits enough =
      ap
        (λ (result : Result (Frame × Bytes)). elim result [
          | err error ↦ no_stream
          | ok (f, rest) ↦ take_frame text f (read_loop text fuel rest)
        ])
        (read_frame-encoding f (encodings fs) fits.0)
      ∙ ap (take_frame text f) (read_loop-encodings fs fuel fits.1 (omega arith))

  take_frame-snapshot :
      (state : Snapshot) (later : Stream)
      → IsSize state.cols state.rows
      → take_frame text (snapshot_frame text state) later
        ≡ yields (resyncs (snapshot_payload state)) later
  unfolding take_frame after_resync
  take_frame-snapshot state later size =
      ap (λ p. after_resync text p later)
        (unmarshal-snapshot text (snapshot_payload state) size.0 size.1)

  take_frame-resize :
      (moved : Resize) (later : Stream)
      → IsSize moved.cols moved.rows
      → take_frame text (resize_frame text moved) later
        ≡ yields (resizes (resize_payload moved)) later
  unfolding take_frame after_resize
  take_frame-resize moved later size =
      ap (λ p. after_resize text p later)
        (unmarshal-resize text (resize_payload moved) size.0 size.1)

  take_frame-exited :
      (code : ℤ) (later : Stream)
      → IsInt64 code
      → take_frame text (exited_frame text code) later ≡ record later { exited = some code }
  unfolding take_frame after_exit
  take_frame-exited code later fits =
      ap (λ p. after_exit text p later) (unmarshal-exited text (record { exit_code = code }) fits)

  take_all-parts :
      (bytes : Bytes) (resize : Option Resize) (resync : Option Snapshot) (fs : List Frame)
      → IsSized resize
      → All (λ (state : Snapshot). IsSize state.cols state.rows) (opt resync)
      → let message : Hub.Message = record { bytes = bytes; resize = resize; resync = resync } in
        take_all (message_frames text message ++ fs) ≡ yields_all (seen message) (take_all fs)
  unfolding take_all message_frames seen take_frame
  take_all-parts bytes none none fs c w = refl
  take_all-parts bytes (some moved) none fs c w =
      take_frame-resize moved (yields (output bytes) (take_all fs)) c
  take_all-parts bytes resize (some state) fs c w = take_frame-snapshot state (take_all fs) w.0

  take_all-message :
      (message : Hub.Message) (fs : List Frame)
      → IsCarriedMessage message
      → take_all (message_frames text message ++ fs) ≡ yields_all (seen message) (take_all fs)
  take_all-message message fs c =
      take_all-parts message.bytes message.resize message.resync fs c.resize c.resync

  pub write_all-Fits : (fs later : List Frame) → All Fits fs → write_all fs later ≡ fs ++ later
  unfolding write_all
  write_all-Fits [] later fits = refl
  write_all-Fits (f ∷ fs) later fits =
      ground (arith, fits.0.within_limit, write_all-Fits fs later fits.1)

  -- An exit code that an attachment can be told of.
  abbrev pub IsCarriedCode : Option ℤ → Type 0
  IsCarriedCode none = Unit {0}
  IsCarriedCode (some code) = IsInt64 code × Fits (exited_frame text code)

  pump-Fits :
      (ms : List Hub.Message) (code : Option ℤ)
      → All IsCarriedMessage ms
      → IsCarriedCode code
      → All Fits (pump text ms code)
  unfolding pump
  pump-Fits [] none c w = tt
  pump-Fits [] (some code) c w =
      subst (All Fits) (sym (write_all-Fits (exited_frame text code ∷ []) [] (w.1, tt))) (w.1, tt)
  pump-Fits (m ∷ ms) code c w =
      subst (All Fits) (sym (write_all-Fits (message_frames text m) (pump text ms code) c.0.fits)) (
        All-append Fits (message_frames text m) (pump text ms code) c.0.fits
          (pump-Fits ms code c.1 w))

  take_all-pump :
      (ms : List Hub.Message) (code : Option ℤ)
      → All IsCarriedMessage ms
      → IsCarriedCode code
      → take_all (pump text ms code) ≡ record { output = seen_all ms; exited = code }
  unfolding take_all pump seen_all
  take_all-pump [] none c w = refl
  take_all-pump [] (some code) c w =
      ap take_all (write_all-Fits (exited_frame text code ∷ []) [] (w.1, tt))
      ∙ take_frame-exited code no_stream w.0
  take_all-pump (m ∷ ms) code c w =
      ap take_all (write_all-Fits (message_frames text m) (pump text ms code) c.0.fits)
      ∙ take_all-message m (pump text ms code) c.0
      ∙ ap (yields_all (seen m)) (take_all-pump ms code c.1 w)

  pub read_loop-pump :
      (ms : List Hub.Message) (code : Option ℤ) (fuel : ℕ)
      → All IsCarriedMessage ms
      → IsCarriedCode code
      → length (pump text ms code) ≤ fuel
      → read_loop text fuel (encodings (pump text ms code))
        ≡ record { output = seen_all ms; exited = code }
  read_loop-pump ms code fuel c w enough =
      read_loop-encodings (pump text ms code) fuel (pump-Fits ms code c w) enough
      ∙ take_all-pump ms code c w

  -- Of what serveAttach writes (the snapshot, what the subscription yields, and the exit code where
  -- it comes to that) AttachWith takes the snapshot, and the client's readLoop hands on each
  -- message in order, a size in front of the repaint that it came with, and the exit code, where
  -- sizes and code are Go ints and each frame is within the limit.
  pub attach-read_loop :
      (state : Snapshot) (ms : List Hub.Message) (code : Option ℤ) (fuel : ℕ)
      → IsSize state.cols state.rows
      → Fits (snapshot_frame text state)
      → All IsCarriedMessage ms
      → IsCarriedCode code
      → length (pump text ms code) ≤ fuel
      → let rest = encodings (pump text ms code) in
        (attach text (encodings (snapshot_frame text state ∷ pump text ms code))
          ≡ attached (snapshot_payload state) rest)
        × (read_loop text fuel rest ≡ record { output = seen_all ms; exited = code })
  unfolding attach first_frame opened
  attach-read_loop state ms code fuel size fits c w enough = (
    ap
          (λ (result : Result (Frame × Bytes)). elim result [
            | err error ↦ not_attached (unreadable error)
            | ok (f, rest) ↦ first_frame text f rest
          ])
          (read_frame-encoding (snapshot_frame text state) (encodings (pump text ms code)) fits)
        ∙ ap (λ p. opened text p (encodings (pump text ms code)))
            (unmarshal-snapshot text (snapshot_payload state) size.0 size.1),
    read_loop-pump ms code fuel c w enough,
  )
