-- ===== src/Client/Events.antt =====
-- client/client.go against server/server.go: the feed of events.
use windrunner.Prelude.{
  ℕ, zero, suc, ◌<◌, ◌==◌, ◌≡◌, refl, ap, ◌∙◌, Bool, true, false, not, Bytes, List, [], ◌∷◌, ◌++◌,
  All, codes, length, if◌then◌else◌, arith,
}
use windrunner.Json.{Text, IsAscii}
use windrunner.Event.{Event, EventType, spawned, exited, removed, idle, busy}
use windrunner.Wire.{Frame, Result, ok, err, read_frame, read_full}
use windrunner.Wire.RoundTrip.{Fits, encoding, encodings, read_frame-encoding}
use windrunner.Wire.Payloads.{EventPayload, event_fields, no_event, unmarshal}
use windrunner.Wire.Payloads.Fields.{IsInt64}
use windrunner.Wire.Payloads.RoundTrip.{unmarshal-event}
use windrunner.Server.Connection.{error_frame, response_frame}
use windrunner.Server.{succeeded}
use windrunner.Server.Attach.{event_frame, event_type, event_payload, feed, serve_subscribe}
use windrunner.Client.Attachment.{subscribe, subscribed, read_events, after_event}
use windrunner.Client.Streams.{write_all-Fits}

abbrev pub event_payloads : List Event → List EventPayload
event_payloads [] = []
event_payloads (event ∷ events) = event_payload event ∷ event_payloads events

event_type-IsAscii : (type : EventType) → IsAscii (event_type type)
event_type-IsAscii spawned = ground arith
event_type-IsAscii exited = ground arith
event_type-IsAscii removed = ground arith
event_type-IsAscii idle = ground arith
event_type-IsAscii busy = ground arith

module _ (text : Text) where
  pub record IsCarriedEvent (event : Event) : Type 0 where
    pub session_id : IsAscii event.session_id
    pub command : IsAscii event.command
    pub exit_code : IsInt64 event.exit_code
    pub fits : Fits (event_frame text event)

  abbrev pub lag_frame : Frame
  lag_frame = error_frame text (codes "event subscriber lagged; subscribe again")

  read_events-cons :
      (f : Frame) (fs : List Frame) (fuel : ℕ)
      → Fits f
      → read_events text (suc fuel) (encoding f ++ encodings fs) ≡ (
          if not (f.frame_type == 11)
          then []
          else after_event text
              (unmarshal text false event_fields f.payload no_event)
              (read_events text fuel (encodings fs)))
  unfolding read_events
  read_events-cons f fs fuel fits =
      ap
        (λ (result : Result (Frame × Bytes)). elim result [
          | err error ↦ []
          | ok (f, rest) ↦
              if not (f.frame_type == 11)
              then []
              else after_event text (unmarshal text false event_fields f.payload no_event)
                  (read_events text fuel rest)
        ])
        (read_frame-encoding f (encodings fs) fits)

  no_more : (fuel : ℕ) → read_events text fuel [] ≡ []
  unfolding read_events read_frame read_full
  no_more zero = refl
  no_more (suc fuel) = refl

  read_events-feed :
      (events : List Event) (lagged : Bool) (fuel : ℕ)
      → All IsCarriedEvent events
      → Fits lag_frame
      → length events < fuel
      → read_events text fuel (encodings (feed text events lagged)) ≡ event_payloads events
  unfolding feed after_event
  read_events-feed events lagged zero c lag enough = absurd (omega arith)
  read_events-feed [] false (suc fuel) c lag enough = no_more (suc fuel)
  read_events-feed [] true (suc fuel) c lag enough = read_events-cons lag_frame [] fuel lag
  read_events-feed (event ∷ events) lagged (suc fuel) c lag enough =
      ap (λ fs. read_events text (suc fuel) (encodings fs))
        (write_all-Fits text (event_frame text event ∷ []) (feed text events lagged) (c.0.fits, tt))
      ∙ read_events-cons (event_frame text event) (feed text events lagged) fuel c.0.fits
      ∙ ap (λ p. after_event text p (read_events text fuel (encodings (feed text events lagged))))
          (unmarshal-event text (event_payload event) (event_type-IsAscii event.type) c.0.session_id
            c.0.command c.0.exit_code)
      ∙ ap (◌∷◌ (event_payload event)) (read_events-feed events lagged fuel c.1 lag (omega arith))

  abbrev pub ack_frame : Frame
  ack_frame = response_frame text succeeded

  -- Subscribe takes the ack of serveSubscribe, and the client's readLoop hands on each event that
  -- the subscription yields, in order, and nothing behind them, lagged or not, where ids and
  -- commands are ASCII, the codes are Go ints, and the frames are within the limit.
  pub subscribe-read_events :
      (events : List Event) (lagged : Bool) (fuel : ℕ)
      → All IsCarriedEvent events
      → Fits ack_frame
      → Fits lag_frame
      → length events < fuel
      → let rest = encodings (feed text events lagged) in
        (subscribe text (encodings (serve_subscribe text events lagged)) ≡ subscribed rest)
        × (read_events text fuel rest ≡ event_payloads events)
  unfolding subscribe
  subscribe-read_events events lagged fuel c ack lag enough = (
    rw (read_frame-encoding ack_frame (encodings (feed text events lagged)) ack, subscribe) refl,
    read_events-feed events lagged fuel c lag enough,
  )
