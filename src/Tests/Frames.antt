-- ===== src/Tests/Frames.antt =====
-- wire/wire.go, run on small frames.
use windrunner.Prelude.{◌≡◌, refl, ◌++◌, [], ◌∷◌, codes, take, arith}
use windrunner.Wire.{Frame, WireError, err, read_frame, header}
use windrunner.Wire.RoundTrip.{Fits, encoding, encoding-read_frame, read_frame_truncated}

abbrev hello : Frame
hello = record { frame_type = 5; payload = codes "hello" }

hello-Fits : Fits hello
hello-Fits = record { type_is_byte = omega arith; within_limit = omega arith }

encoding-read_frame_example :
    Fits hello × ((5 ∷ 0 ∷ 0 ∷ 0 ∷ 5 ∷ codes "hello") ≡ encoding hello ++ [])
unfolding read_frame
encoding-read_frame_example =
    encoding-read_frame (5 ∷ 0 ∷ 0 ∷ 0 ∷ 5 ∷ codes "hello") (ground arith) refl

read_frame_truncated_example : (e : WireError) × (read_frame (take 7 (encoding hello)) ≡ err e)
unfolding header
read_frame_truncated_example = read_frame_truncated hello 7 hello-Fits (omega arith)
