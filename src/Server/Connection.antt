-- ===== src/Server/Connection.antt =====
-- server/server.go: `serveConn`, on all the bytes that a client sends until it hangs up. Between two
-- requests the engine moves on, by other connections and by its sessions.
use windrunner.Prelude.{
  ℕ, zero, suc, ◌==◌, Bool, true, false, not, ◌&&◌, Bytes, List, [], ◌∷◌, ◌++◌, Option, none, some,
  codes, ltb, length, if◌then◌else◌, inl, inr,
}
use windrunner.Json.{Text, JsonError}
use windrunner.Engine.{Engine}
use windrunner.Vt.{Vt}
use windrunner.Wire.{
  Frame, ok, err, read_frame, max_frame, frame_control, frame_response, frame_attach,
  frame_subscribe, frame_error,
}
use windrunner.Wire.Payloads.{
  AttachRequest, SubscribeRequest, attach_fields, subscribe_fields, no_attach, no_subscribe,
  error_members, marshal, unmarshal,
}
use windrunner.Wire.Payloads.Responses.{Response, response_members}
use windrunner.Server.{Answers, Effect, Outcome, outcome, failed}
use windrunner.Server.Handle.{handle}
use windrunner.Server.Requests.{decode_request}

-- What surrounds one round of the loop: how the engine has moved on, the answers of the system, and
-- whether the client takes what is written to it.
pub record Turn (v : Vt) : Type 0 where
  pub meanwhile : Engine v → Engine v
  pub answers : Answers
  pub takes : Bool

-- How the loop ends; an attachment or a subscription goes on with the bytes behind its request.
pub data Ending : Type 0 where
  hung_up write_failed refused out_of_fuel : Ending
  attaches : AttachRequest → Bytes → Ending
  subscribes : SubscribeRequest → Bytes → Ending

pub record Served (v : Vt) : Type 0 where
  pub engine : Engine v
  pub sent : List Frame
  pub effects : List Effect
  pub ending : Ending

-- A frame that is within the limit is sent.
abbrev pub if_fits : Frame → List Frame
if_fits f = if ltb max_frame (length f.payload) then [] else f ∷ []

module _ (text : Text) where
  abbrev pub response_frame : Response → Frame
  response_frame response = record {
    frame_type = frame_response;
    payload = marshal text (response_members text response);
  }

  abbrev pub error_frame : Bytes → Frame
  error_frame message = record {
    frame_type = frame_error;
    payload = marshal text (error_members (record { error = message }));
  }

module _ (text : Text) (v : Vt) (audited : Bool) where
  abbrev ends : Engine v → Ending → Served v
  ends e ending = record { engine = e; sent = []; effects = []; ending = ending }

  -- `respondError`, and the connection is closed.
  abbrev refuses : Engine v → Bytes → Served v
  refuses e message = record {
    engine = e;
    sent = if_fits (error_frame text message);
    effects = [];
    ending = refused;
  }

  -- A control frame.
  unfoldable pub answer : Turn v → Engine v → Bytes → Outcome v
  unfolding decode_request handle
  answer turn e payload = elim (decode_request text payload) [
    | inl error ↦ outcome e (failed error)
    | inr r ↦ handle text v audited turn.answers r e
  ]

  unfoldable pub opens_attachment :
      Engine v → Bytes → AttachRequest × Option JsonError → Bytes → Served v
  opens_attachment e payload (r, none) rest = ends e (attaches r rest)
  opens_attachment e payload (r, some error) rest =
      refuses e (codes "malformed attach: " ++ Text.reason text payload error)

  unfoldable pub opens_subscription :
      Engine v → Bytes → SubscribeRequest × Option JsonError → Bytes → Served v
  opens_subscription e payload (r, none) rest = ends e (subscribes r rest)
  opens_subscription e payload (r, some error) rest =
      refuses e (codes "malformed subscribe: " ++ Text.reason text payload error)

  -- A first frame that is no control frame.
  unfoldable pub other_frame : Engine v → Frame → Bytes → Served v
  unfolding opens_attachment opens_subscription unmarshal
  other_frame e f rest =
      if f.frame_type == frame_attach
      then opens_attachment e f.payload (unmarshal text false attach_fields f.payload no_attach)
          rest
      else if f.frame_type == frame_subscribe
      then opens_subscription e f.payload
          (unmarshal text false subscribe_fields f.payload no_subscribe) rest
      else refuses e (codes "unexpected frame before attach")

  -- A response is written, unless it is too large or the client is gone.
  abbrev pub goes_out : Turn v → Response → Bool
  goes_out turn response =
      turn.takes && not (ltb max_frame (length (response_frame text response).payload))

  abbrev pub behind_answer : Outcome v → Served v → Served v
  behind_answer o later = record later {
    sent = response_frame text o.response ∷ later.sent;
    effects = o.effects ++ later.effects;
  }

  -- `serveConn`; round `n` is surrounded by `turns n`.
  unfoldable pub serve : ℕ → (ℕ → Turn v) → ℕ → Engine v → Bytes → Served v
  unfolding read_frame answer other_frame
  serve zero turns n e s = ends e out_of_fuel
  serve (suc fuel) turns n e s = elim (read_frame s) [
    | err _ ↦ ends e hung_up
    | ok (f, rest) ↦
        let turn = turns n in
        let e' = turn.meanwhile e in
        elim (f.frame_type == frame_control) [
          | false ↦ other_frame e' f rest
          | true ↦
              let o = answer turn e' f.payload in
              elim (goes_out turn o.response) [
                | false ↦ record (ends o.engine write_failed) { effects = o.effects }
                | true ↦ behind_answer o (serve fuel turns (suc n) o.engine rest)
              ]
        ]
  ]
