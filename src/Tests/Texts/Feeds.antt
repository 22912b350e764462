-- ===== src/Tests/Texts/Feeds.antt =====
-- What a daemon writes to an attachment and to a subscription, read by a client.
use windrunner.Prelude.{◌≤◌, ◌≡◌, refl, true, [], ◌∷◌, codes, length, none, some, arith}
use windrunner.Prelude.Int.{pos}
use windrunner.Event.{Event, spawned}
use windrunner.Hub
use windrunner.Hub.{Snapshot}
use windrunner.Wire.RoundTrip.{Fits, encodings}
use windrunner.Server.{snapshot_payload}
use windrunner.Server.Attach.{
  snapshot_frame, pump, feed, serve_subscribe, write_all, message_frames,
}
use windrunner.Client.Attachment.{attach, attached, read_loop, read_events, subscribe, subscribed}
use windrunner.Client.Streams.{seen_all, attach-read_loop, IsCarriedMessage, IsCarriedCode}
use windrunner.Client.Events.{
  IsCarriedEvent, lag_frame, ack_frame, event_payloads, subscribe-read_events,
}
use windrunner.Tests.Texts.{tokens, print_json, print_chars, encode}

abbrev blank : Snapshot
blank = record { cols = pos 80; rows = pos 24; ansi = [] }

abbrev moved : Hub.Message
moved = record {
  bytes = codes "$";
  resize = some (record { cols = pos 100; rows = pos 30 });
  resync = none;
}

moved-IsCarried : IsCarriedMessage tokens moved
unfolding tokens print_json print_chars message_frames
moved-IsCarried = record {
  resize = (refl, refl);
  resync = tt;
  fits = (
    record { type_is_byte = omega arith; within_limit = omega arith },
    (record { type_is_byte = omega arith; within_limit = omega arith }, tt),
  );
}

code-IsCarried : IsCarriedCode tokens (some (pos 0))
unfolding tokens print_json print_chars
code-IsCarried = (refl, record { type_is_byte = omega arith; within_limit = omega arith })

blank-Fits : Fits (snapshot_frame tokens blank)
unfolding tokens print_json print_chars encode
blank-Fits = record { type_is_byte = omega arith; within_limit = omega arith }

three_frames : length (pump tokens (moved ∷ []) (some (pos 0))) ≤ 3
unfolding pump write_all message_frames tokens print_json print_chars
three_frames = omega arith

attach-read_loop_example :
    (attach tokens
        (encodings (snapshot_frame tokens blank ∷ pump tokens (moved ∷ []) (some (pos 0))))
      ≡ attached (snapshot_payload blank) (encodings (pump tokens (moved ∷ []) (some (pos 0)))))
    × (read_loop tokens 3 (encodings (pump tokens (moved ∷ []) (some (pos 0))))
        ≡ record { output = seen_all (moved ∷ []); exited = some (pos 0) })
attach-read_loop_example =
    attach-read_loop tokens blank (moved ∷ []) (some (pos 0)) 3 (refl, refl) blank-Fits
      (moved-IsCarried, tt) code-IsCarried three_frames

abbrev birth : Event
birth = record { type = spawned; session_id = codes "id"; command = codes "sh"; exit_code = pos 0 }

birth-IsCarried : IsCarriedEvent tokens birth
unfolding tokens print_json print_chars
birth-IsCarried = record {
  session_id = ground arith;
  command = ground arith;
  exit_code = refl;
  fits = record { type_is_byte = omega arith; within_limit = omega arith };
}

lag-Fits : Fits (lag_frame tokens)
unfolding tokens print_json print_chars
lag-Fits = record { type_is_byte = omega arith; within_limit = omega arith }

ack-Fits : Fits (ack_frame tokens)
unfolding tokens print_json print_chars
ack-Fits = record { type_is_byte = omega arith; within_limit = omega arith }

subscribe-read_events_example :
    (subscribe tokens (encodings (serve_subscribe tokens (birth ∷ []) true))
      ≡ subscribed (encodings (feed tokens (birth ∷ []) true)))
    × (read_events tokens 2 (encodings (feed tokens (birth ∷ []) true))
        ≡ event_payloads (birth ∷ []))
subscribe-read_events_example =
    subscribe-read_events tokens (birth ∷ []) true 2 (birth-IsCarried, tt) ack-Fits lag-Fits
      (omega arith)
