-- ===== src/Server/Loop.antt =====
-- server/server.go: the loop of `serveConn`, and how much it reads.
use windrunner.Prelude.{ℕ, zero, suc, ◌<◌, ◌≡◌, refl, Bytes, Bool, true, false, arith, length, ◌==◌}
use windrunner.Json.{Text}
use windrunner.Engine.{Engine}
use windrunner.Vt.{Vt}
use windrunner.Wire.{Frame, ok, read_frame, frame_control}
use windrunner.Wire.RoundTrip.{length-read_frame}
use windrunner.Server.Connection.{
  Turn, Ending, out_of_fuel, serve, answer, goes_out, behind_answer, other_frame, opens_attachment,
  opens_subscription,
}

abbrev pub ran_out : Ending → Bool
ran_out out_of_fuel = true
ran_out _ = false

module _ (text : Text) (v : Vt) (audited : Bool) (turns : ℕ → Turn v) where
  other_frame_ends :
      (e : Engine v) (f : Frame) (rest : Bytes)
      → ran_out (other_frame text v audited e f rest).ending ≡ false
  unfolding other_frame opens_attachment opens_subscription
  other_frame_ends e f rest = ground arith

  comes_to_end :
      (fuel n : ℕ) (e : Engine v) (s : Bytes)
      → length s < fuel
      → ran_out (serve text v audited fuel turns n e s).ending ≡ false
  unfolding serve
  comes_to_end zero n e s h = absurd (omega arith)
  comes_to_end (suc fuel) n e s h =
      grind (arith, other_frame_ends, length-read_frame s, comes_to_end fuel (suc n))

  serve_fuel :
      (fuel fuel' n : ℕ) (e : Engine v) (s : Bytes)
      → length s < fuel
      → length s < fuel'
      → serve text v audited fuel turns n e s ≡ serve text v audited fuel' turns n e s
  unfolding serve
  serve_fuel zero fuel' n e s h h' = absurd (omega arith)
  serve_fuel (suc fuel) zero n e s h h' = absurd (omega arith)
  serve_fuel (suc fuel) (suc fuel') n e s h h' =
      grind (arith, length-read_frame s, serve_fuel fuel fuel' (suc n))

  -- On whatever bytes a client sends, and however the engine moves on meanwhile, the loop of
  -- serveConn comes to its end by itself within one round more than there are bytes, and any larger
  -- bound on the rounds gives the same frames, effects and engine.
  pub serve_ends :
      (fuel fuel' n : ℕ) (e : Engine v) (s : Bytes)
      → length s < fuel
      → length s < fuel'
      → (ran_out (serve text v audited fuel turns n e s).ending ≡ false)
        × (serve text v audited fuel turns n e s ≡ serve text v audited fuel' turns n e s)
  serve_ends fuel fuel' n e s h h' = (comes_to_end fuel n e s h, serve_fuel fuel fuel' n e s h h')

  -- A round with a control frame whose response goes out.
  pub serve-control :
      (fuel n : ℕ) (e : Engine v) (s : Bytes) (f : Frame) (rest : Bytes)
      → read_frame s ≡ ok (f, rest)
      → (f.frame_type == frame_control) ≡ true
      → let o = answer text v audited (turns n) ((turns n).meanwhile e) f.payload in
        goes_out text v audited (turns n) o.response ≡ true
        → serve text v audited (suc fuel) turns n e s
          ≡ behind_answer text v audited o (serve text v audited fuel turns (suc n) o.engine rest)
  unfolding serve
  serve-control fuel n e s f rest read control out = rw (read, serve) (rw (control, out) refl)
