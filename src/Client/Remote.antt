-- ===== src/Client/Remote.antt =====
-- client/client.go against server/server.go: a call over a connection to the daemon.
use windrunner.Prelude.{
  ℕ, zero, suc, ◌≤◌, ◌≡◌, refl, sym, ap, ap₂, ◌∙◌, Bool, true, Bytes, List, [], ◌∷◌, ◌++◌,
  append-nil, none, length, arith,
}
use windrunner.Json.{Text}
use windrunner.Engine.{Engine}
use windrunner.Vt.{Vt}
use windrunner.Wire.{
  Frame, ok, Writer, header, write_frame, read_frame, read_full, max_frame, frame_control,
}
use windrunner.Wire.RoundTrip.{encoding, encodings, read_frame-encoding}
use windrunner.Wire.Payloads.{marshal}
use windrunner.Wire.Payloads.Requests.{Request, request_members}
use windrunner.Wire.Payloads.Requests.RoundTrip.{IsSendable, as_read}
use windrunner.Wire.Payloads.Responses.{Response}
use windrunner.Wire.Payloads.Responses.RoundTrip.{IsSendableResponse, unmarshal-response}
use windrunner.Server.{Outcome}
use windrunner.Server.Handle.{handle}
use windrunner.Server.Decoding.{decode_request-marshal}
use windrunner.Server.Connection.{Turn, Served, serve, answer, response_frame, goes_out}
use windrunner.Server.Loop.{serve-control}
use windrunner.Client.{judged, call, sent, received, answered}

-- A connection that carries all that is written to it.
abbrev pub link : Writer
link = record { State = Bytes; write = λ s bytes. (s ++ bytes, true) }

write-link :
    (f : Frame)
    → length f.payload ≤ max_frame
    → write_frame link [] f.frame_type f.payload ≡ (encoding f, none)
unfolding write_frame header
write-link f fits = ground arith

module _ (text : Text) (v : Vt) (audited : Bool) (turns : ℕ → Turn v) (e : Engine v) where
  -- All that the daemon sends on a connection that it has read these bytes of.
  abbrev pub daemon : Bytes → Bytes
  daemon s = encodings (serve text v audited (suc (length s)) turns 0 e s).sent

  -- The request is carried out by the daemon's engine as it stands then.
  abbrev pub carried_out : Request → Outcome v
  carried_out r = handle text v audited (turns 0).answers (as_read r) ((turns 0).meanwhile e)

  abbrev pub request_frame : Request → Frame
  request_frame r = record {
    frame_type = frame_control;
    payload = marshal text (request_members text r);
  }

  pub record IsCarried (r : Request) : Type 0 where
    pub request : IsSendable r
    pub request_fits : length (marshal text (request_members text r)) ≤ max_frame
    pub response : IsSendableResponse (carried_out r).response
    pub goes_out : goes_out text v audited (turns 0) (carried_out r).response ≡ true

  nothing_more : (fuel n : ℕ) (e : Engine v) → (serve text v audited fuel turns n e []).sent ≡ []
  unfolding serve read_frame read_full
  nothing_more zero n e = refl
  nothing_more (suc fuel) n e = refl

  answer-request :
      (r : Request)
      → IsCarried r
      → answer text v audited (turns 0) ((turns 0).meanwhile e) (request_frame r).payload
        ≡ carried_out r
  unfolding answer
  answer-request r c = rw (decode_request-marshal text r c.request, answer) refl

  -- The daemon's side of a call.
  serve-call :
      (r : Request)
      → IsCarried r
      → (serve text v audited
          (suc (length (encoding (request_frame r))))
          turns
          0
          e
          (encoding (request_frame r))).sent
        ≡ response_frame text (carried_out r).response ∷ []
  unfolding serve answer
  serve-call r c =
      let f = request_frame r in
      let read =
        ap read_frame (sym (append-nil (encoding f)))
        ∙ read_frame-encoding f []
            (record { type_is_byte = ground arith; within_limit = c.request_fits }) in
      let o = answer-request r c in
      ap (λ (served : Served v). served.sent)
        (serve-control text v audited turns (length (encoding f)) 0 e (encoding f) f [] read refl
          (ap (λ (o : Outcome v). goes_out text v audited (turns 0) o.response) o ∙ c.goes_out))
      ∙ ap₂ (λ (o : Outcome v) (later : List Frame). response_frame text o.response ∷ later) o
          (nothing_more (length (encoding f)) 1 _)

  -- The client's.
  received-response :
      (response : Response)
      → IsSendableResponse response
      → received text (ok (response_frame text response, [])) ≡ judged response
  unfolding received answered
  received-response response s = ap (answered text) (unmarshal-response text response s)

  -- For every request whose strings are ASCII and whose numbers are of their types, a call over a
  -- connection to the daemon, which marshals, frames, decodes, carries out, and sends back, returns
  -- just what handle returns on the daemon's engine for that request with its empty lists as nil,
  -- where the request and the response are within the limit of a frame, the response goes as JSON
  -- without loss, and the client takes what is written to it.
  pub call-handle :
      (r : Request) → IsCarried r → call text link daemon [] r ≡ judged (carried_out r).response
  unfolding call sent
  call-handle r c =
      let f = request_frame r in
      let response = (carried_out r).response in
      ap (sent text link daemon) (write-link f c.request_fits)
      ∙ ap (λ (frames : List Frame). received text (read_frame (encodings frames))) (serve-call r c)
      ∙ ap (received text) (
          read_frame-encoding (response_frame text response) []
            (record { type_is_byte = ground arith; within_limit = ground (arith, c.goes_out) }))
      ∙ received-response response c.response
