-- ===== src/Wire/RoundTrip.antt =====
-- The frames of a stream: `ReadFrame` against `WriteFrame`.
use windrunner.Prelude.{
  ℕ, zero, suc, ◌/◌, ◌%◌, ◌^◌, ◌≤◌, ◌<◌, ◌≡◌, refl, ap, ◌∙◌, true, Bytes, List, [], ◌∷◌, ◌++◌, none,
  ltb, take, length, sym, length-take, arith, All, take-append, drop-append, take-append-drop,
  length-append, append_assoc, Bool-cases, inl, inr,
}
use windrunner.Wire.{
  Frame, WireError, too_large, eof, unexpected_eof, Result, ok, err, Writer, max_frame, put_u32,
  get_u32, header, write_frame, read_full, read_header, read_payload, read_frame,
}

abbrev pub IsByte : ℕ → Type 0
IsByte b = b < 256

-- A frame that the protocol can carry.
pub record Fits (f : Frame) : Type 0 where
  pub type_is_byte : f.frame_type < 256
  pub within_limit : length f.payload ≤ max_frame

-- The bytes of one frame on a stream.
abbrev pub encoding : Frame → Bytes
encoding f = header f.frame_type f.payload ++ f.payload

pub read_full-append : (p rest : Bytes) → read_full (length p) (p ++ rest) ≡ ok (p, rest)
unfolding read_full
read_full-append p rest =
    ground (arith, length-append p rest, take-append p rest, drop-append p rest)

get-put :
    (n : ℕ)
    → n < 2 ^ 32
    → get_u32 (n / 2 ^ 24 % 256) (n / 2 ^ 16 % 256) (n / 2 ^ 8 % 256) (n % 256) ≡ n
unfolding get_u32
get-put n h = omega arith

read_frame_step :
    (t a b c d : ℕ) (s : Bytes)
    → read_frame (t ∷ a ∷ b ∷ c ∷ d ∷ s) ≡ read_payload t (get_u32 a b c d) s
unfolding read_frame read_full read_header
read_frame_step t a b c d s = ground arith

read_payload_step :
    (t n : ℕ) (p rest : Bytes)
    → n ≡ length p
    → length p ≤ max_frame
    → read_payload t n (p ++ rest) ≡ ok (record { frame_type = t; payload = p }, rest)
unfolding read_payload
read_payload_step t n p rest e h = ground (arith, read_full-append p rest)

-- A frame whose type is a byte and whose payload is within the limit is read back whole by
-- ReadFrame from a stream that starts with its encoding, and the stream stands behind it.
pub read_frame-encoding :
    (f : Frame) (rest : Bytes) → Fits f → read_frame (encoding f ++ rest) ≡ ok (f, rest)
unfolding header put_u32
read_frame-encoding f rest h =
    read_frame_step _ _ _ _ _ (f.payload ++ rest)
    ∙ rw (get-put (length f.payload % 2 ^ 32) (omega arith)) (
        rw (small f.frame_type h.type_is_byte) (
          read_payload_step f.frame_type (length f.payload % 2 ^ 32) f.payload rest (omega arith)
            h.within_limit))
  where
    small : (n : ℕ) → n < 256 → n % 256 ≡ n
    small n lt = omega arith

-- The frames on a stream one after the other.
abbrev pub encodings : List Frame → Bytes
encodings [] = []
encodings (f ∷ fs) = encoding f ++ encodings fs

-- A reader's loop of `n` reads; the connections' loops read this way until the stream ends.
unfoldable pub read_frames : ℕ → Bytes → Result (List Frame × Bytes)
read_frames zero s = ok ([], s)
read_frames (suc n) s = elim (read_frame s) [
  | ok (f, rest) ↦ elim (read_frames n rest) [ ok (fs, rest') ↦ ok (f ∷ fs, rest') | err e ↦ err e ]
  | err e ↦ err e
]

read_frames-cons :
    (n : ℕ) (s : Bytes) (f : Frame) (fs : List Frame) {rest rest' : Bytes}
    → read_frame s ≡ ok (f, rest)
    → read_frames n rest ≡ ok (fs, rest')
    → read_frames (suc n) s ≡ ok (f ∷ fs, rest')
unfolding read_frames
read_frames-cons n s f fs e es = rw (e, read_frames) (rw (es, read_frames) refl)

-- Any number of frames that fit, written one behind the other, are read back in order by as many
-- reads.
pub read_frames-encodings :
    (fs : List Frame) (rest : Bytes)
    → All Fits fs
    → read_frames (length fs) (encodings fs ++ rest) ≡ ok (fs, rest)
unfolding read_frames
read_frames-encodings [] rest h = refl
read_frames-encodings (f ∷ fs) rest h = rw (append_assoc (encoding f) (encodings fs) rest) (
    read_frames-cons (length fs) _ f fs (read_frame-encoding f (encodings fs ++ rest) h.0)
      (read_frames-encodings fs rest h.1))

-- Bytes 4 to 1 of a length, read and written again.
put-get :
    (a b c d : ℕ)
    → a < 256
    → b < 256
    → c < 256
    → d < 256
    → put_u32 (get_u32 a b c d) ≡ a ∷ b ∷ c ∷ d ∷ []
unfolding put_u32 get_u32
put-get a b c d ha hb hc hd = ground (arith)

read_payload_inv :
    (t n : ℕ) (s : Bytes) {f : Frame} {rest : Bytes}
    → read_payload t n s ≡ ok (f, rest)
    → (f.frame_type ≡ t) × (length f.payload ≡ n) × (n ≤ max_frame) × (s ≡ f.payload ++ rest)
unfolding read_payload read_full
read_payload_inv t n s e = ground (arith, length-take n s, take-append-drop n s)

-- Where ReadFrame reads a frame off a stream of bytes, the frame is within the limits of the
-- protocol and the stream is its encoding and what is left.
pub encoding-read_frame :
    (s : Bytes) {f : Frame} {rest : Bytes}
    → All IsByte s
    → read_frame s ≡ ok (f, rest)
    → Fits f × (s ≡ encoding f ++ rest)
unfolding read_frame read_full read_header header put_u32
encoding-read_frame [] bytes e = ground arith
encoding-read_frame (t ∷ []) bytes e = ground arith
encoding-read_frame (t ∷ a ∷ []) bytes e = ground arith
encoding-read_frame (t ∷ a ∷ b ∷ []) bytes e = ground arith
encoding-read_frame (t ∷ a ∷ b ∷ c ∷ []) bytes e = ground arith
encoding-read_frame (t ∷ a ∷ b ∷ c ∷ d ∷ s) {f} {rest} bytes e =
    let read = sym (read_frame_step t a b c d s) ∙ e in
    let (same_type, size, fits, split) = read_payload_inv t (get_u32 a b c d) s read in
    let big_endian = put-get a b c d bytes.1.0 bytes.1.1.0 bytes.1.1.1.0 bytes.1.1.1.1.0 in
    (
      record { type_is_byte = rw same_type bytes.0; within_limit = omega arith },
      rw (same_type, size)
          (rw (cut t bytes.0, cut32 (get_u32 a b c d) (omega arith))
            (ap (λ (l : Bytes). t ∷ (l ++ s)) (sym big_endian)
              ∙ ap (λ (l : Bytes). t ∷ (put_u32 (get_u32 a b c d) ++ l)) split)),
    )
  where
    cut : (n : ℕ) → n < 256 → n % 256 ≡ n
    cut n lt = omega arith

    cut32 : (n : ℕ) → n < 2 ^ 32 → n % 2 ^ 32 ≡ n
    cut32 n lt = omega arith

-- A frame that has been read has taken its header off the stream.
pub length-read_frame :
    (s : Bytes) {rest : Bytes} {f : Frame} → read_frame s ≡ ok (f, rest) → length rest < length s
unfolding read_frame read_full read_header
length-read_frame [] h = ground arith
length-read_frame (t ∷ []) h = ground arith
length-read_frame (t ∷ a ∷ []) h = ground arith
length-read_frame (t ∷ a ∷ b ∷ []) h = ground arith
length-read_frame (t ∷ a ∷ b ∷ c ∷ []) h = ground arith
length-read_frame (t ∷ a ∷ b ∷ c ∷ d ∷ s) {rest} {f} h =
    let read = read_payload_inv t (get_u32 a b c d) s (sym (read_frame_step t a b c d s) ∙ h) in
    omega (arith, ap length read.3, length-append f.payload rest)

read_payload_short :
    (t n : ℕ) (s : Bytes) → length s < n → (e : WireError) × (read_payload t n s ≡ err e)
unfolding read_payload read_full
read_payload_short t n s h = elim (Bool-cases (ltb max_frame n)) [
  | inl big ↦ (too_large n, ground arith)
  | inr fits ↦ elim (Bool-cases (ltb 0 (length s))) [
    | inl some_bytes ↦ (unexpected_eof, ground arith)
    | inr no_bytes ↦ (eof, ground arith)
  ]
]

-- A stream that ends inside the encoding of a frame gives an error, and never a frame.
pub read_frame_truncated :
    (f : Frame) (k : ℕ)
    → Fits f
    → k < length (encoding f)
    → (e : WireError) × (read_frame (take k (encoding f)) ≡ err e)
unfolding read_frame read_full header put_u32
read_frame_truncated f zero h short = (eof, refl)
read_frame_truncated f (suc zero) h short = (unexpected_eof, refl)
read_frame_truncated f (suc (suc zero)) h short = (unexpected_eof, refl)
read_frame_truncated f (suc (suc (suc zero))) h short = (unexpected_eof, refl)
read_frame_truncated f (suc (suc (suc (suc zero)))) h short = (unexpected_eof, refl)
read_frame_truncated f (suc (suc (suc (suc (suc k))))) h short =
    rw (read_frame_step _ _ _ _ _ (take k f.payload)) (
      rw (get-put (length f.payload % 2 ^ 32) (omega arith)) (
        read_payload_short (f.frame_type % 256) (length f.payload % 2 ^ 32) (take k f.payload)
          (omega (arith, h.within_limit, length-take k f.payload))))

module _ (w : Writer) where
  open w use {State, write}

  -- On a writer that appends what it reports as written, a frame that WriteFrame reports as written
  -- has been appended as its encoding, and its payload is within the limit.
  pub write_frame-encoding :
      (sent : State → Bytes)
      → ((s : State) (p : Bytes) → (write s p).1 ≡ true → sent (write s p).0 ≡ sent s ++ p)
      → (s : State) (f : Frame) → (write_frame w s f.frame_type f.payload).1 ≡ none
      → (sent (write_frame w s f.frame_type f.payload).0 ≡ sent s ++ encoding f)
        × (length f.payload ≤ max_frame)
  unfolding write_frame
  write_frame-encoding sent appends s f done = ground (
    arith,
    appends s (header f.frame_type f.payload),
    appends (write s (header f.frame_type f.payload)).0 f.payload,
    append_assoc (sent s) (header f.frame_type f.payload) f.payload,
  )
