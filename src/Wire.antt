-- ===== src/Wire.antt =====
-- wire/wire.go: the frame types, `WriteFrame` and `ReadFrame`. JSON payloads are bytes here.
pub mod RoundTrip
pub mod Payloads
use windrunner.Prelude.{
  ℕ, ◌+◌, ◌*◌, ◌/◌, ◌%◌, ◌^◌, Bool, true, false, Bytes, [], ◌∷◌, ◌++◌, Option, none, some, ltb,
  take, drop, length, if◌then◌else◌,
}

-- `FrameType` is a byte. Any byte may stand in a header, so these are names for eleven of them.
abbrev pub frame_control : ℕ
frame_control = 1

abbrev pub frame_response : ℕ
frame_response = 2

abbrev pub frame_attach : ℕ
frame_attach = 3

abbrev pub frame_snapshot : ℕ
frame_snapshot = 4

abbrev pub frame_output : ℕ
frame_output = 5

abbrev pub frame_input : ℕ
frame_input = 6

abbrev pub frame_resize : ℕ
frame_resize = 7

abbrev pub frame_exited : ℕ
frame_exited = 8

abbrev pub frame_error : ℕ
frame_error = 9

abbrev pub frame_subscribe : ℕ
frame_subscribe = 10

abbrev pub frame_event : ℕ
frame_event = 11

-- `32 << 20`
abbrev pub max_frame : ℕ
max_frame = 32 * 2 ^ 20

pub record Frame : Type 0 where
  pub frame_type : ℕ
  pub payload : Bytes

pub data WireError : Type 0 where
  too_large : ℕ → WireError
  eof unexpected_eof broken : WireError

-- A `(value, error)` pair.
pub data Result {ℓ} (A : Type ℓ) : Type ℓ where
  ok : A → Result A
  err : WireError → Result A

-- `io.Writer`: the state behind it, and its one operation. `true` says that all was written.
pub record Writer : Type 1 where
  pub State : Type 0
  pub write : State → Bytes → State × Bool

-- `binary.BigEndian.PutUint32` of a number below 2^32
unfoldable pub put_u32 : ℕ → Bytes
put_u32 n = (n / 2 ^ 24 % 256) ∷ (n / 2 ^ 16 % 256) ∷ (n / 2 ^ 8 % 256) ∷ (n % 256) ∷ []

-- `binary.BigEndian.Uint32`
unfoldable pub get_u32 : ℕ → ℕ → ℕ → ℕ → ℕ
get_u32 a b c d = a * 2 ^ 24 + b * 2 ^ 16 + c * 2 ^ 8 + d

-- The five bytes in front of a payload; `uint32(len(payload))` cuts to 32 bits.
unfoldable pub header : ℕ → Bytes → Bytes
unfolding put_u32
header frame_type payload = frame_type % 256 ∷ put_u32 (length payload % 2 ^ 32)

module _ (w : Writer) where
  open w use {State, write}

  write_payload : Bytes → State × Bool → State × Option WireError
  write_payload payload (s, false) = (s, some broken)
  write_payload payload (s, true) =
      let (s', done) = write s payload in (s', if done then none else some broken)

  unfoldable pub write_frame : State → ℕ → Bytes → State × Option WireError
  unfolding write_payload header
  write_frame s frame_type payload =
      if ltb max_frame (length payload)
      then (s, some (too_large (length payload)))
      else write_payload payload (write s (header frame_type payload))

-- `io.ReadFull` for `n` bytes of a stream that ends behind `s`.
unfoldable pub read_full : ℕ → Bytes → Result (Bytes × Bytes)
read_full n s =
    if ltb (length s) n
    then (if ltb 0 (length s) then err unexpected_eof else err eof)
    else ok (take n s, drop n s)

read_payload : ℕ → ℕ → Bytes → Result (Frame × Bytes)
unfolding read_full
read_payload frame_type n s = if ltb max_frame n then err (too_large n) else elim (read_full n s) [
  | ok (payload, rest) ↦ ok (record { frame_type = frame_type; payload = payload }, rest)
  | err e ↦ err e
]

read_header : Bytes → Bytes → Result (Frame × Bytes)
unfolding get_u32 read_payload
read_header (t ∷ a ∷ b ∷ c ∷ d ∷ []) s = read_payload t (get_u32 a b c d) s
read_header _ s = err unexpected_eof

unfoldable pub read_frame : Bytes → Result (Frame × Bytes)
unfolding read_full read_header
read_frame s = elim (read_full 5 s) [ ok (head, rest) ↦ read_header head rest | err e ↦ err e ]
