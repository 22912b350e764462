-- ===== src/Boundary.antt =====
-- session.go: `completeBoundary`, `incompleteRuneTail`, and how `readLoop` cuts what it reads from
-- the PTY into writes. What a write does to the session is in Session.
pub mod Scan
pub mod Runes
pub mod Sequences
pub mod Stream
pub mod Holdback
use mathlib.Core.List.{reverse}
use windrunner.Prelude.{
  ℕ, zero, suc, ◌+◌, ◌-◌, ◌*◌, bit_and, Bool, true, false, ◌&&◌, ◌||◌, Bytes, List, [], ◌∷◌, ◌++◌,
  Option, none, some, ltb, leb, ◌==◌, take, drop, length, if◌then◌else◌,
}

-- The states of the scanner in `completeBoundary`; `ground_state` is its `ground`.
pub data ScanState : Type 0 where
  ground_state escape csi str str_escape : ScanState

abbrev pub is_ground : ScanState → Bool
is_ground ground_state = true
is_ground _ = false

-- One round of the loop: the next state.
unfoldable pub scan_byte : ScanState → ℕ → ScanState
scan_byte ground_state b = if b == 0x1b then escape else ground_state
scan_byte escape b =
    if b == b'['
    then csi
    else if b == b']' || b == b'P' || b == b'^' || b == b'_' || b == b'X'
    then str
    else if leb 0x20 b && leb b 0x2f
    then escape
    else ground_state
scan_byte csi b = if leb 0x40 b && leb b 0x7e then ground_state else csi
scan_byte str b = if b == 0x07 then ground_state else if b == 0x1b then str_escape else str
scan_byte str_escape b = if b == b'\\' then ground_state else str

-- An ESC in the ground state starts a sequence: `start = index`.
abbrev pub moved_start : ScanState → ℕ → ℕ → ℕ → ℕ
moved_start ground_state start index b = if b == 0x1b then index else start
moved_start _ start index b = start

-- The loop over `chunk` from `index` on, with the values of `state` and `start` behind it.
unfoldable pub scan_loop : ScanState → ℕ → ℕ → Bytes → ScanState × ℕ
unfolding scan_byte
scan_loop state start index [] = (state, start)
scan_loop state start index (b ∷ rest) =
    scan_loop (scan_byte state b) (moved_start state start index b) (suc index) rest

-- How many bytes a rune has that starts with `b`; `none` is for a byte that starts none.
unfoldable pub rune_need : ℕ → Option ℕ
rune_need b =
    if bit_and b 0x80 == 0
    then some 1
    else if bit_and b 0xe0 == 0xc0
    then some 2
    else if bit_and b 0xf0 == 0xe0
    then some 3
    else if bit_and b 0xf8 == 0xf0
    then some 4
    else none

abbrev pub held_back : Option ℕ → ℕ → ℕ
held_back none back = 0
held_back (some need) back = if ltb back need then back else 0

-- The loop of `incompleteRuneTail`: `rounds` are left, and the bytes come from the end.
unfoldable pub rune_tail_loop : ℕ → ℕ → Bytes → ℕ
unfolding rune_need
rune_tail_loop zero back bs = 0
rune_tail_loop (suc rounds) back [] = 0
rune_tail_loop (suc rounds) back (b ∷ bs) =
    if bit_and b 0xc0 == 0x80
    then rune_tail_loop rounds (suc back) bs
    else held_back (rune_need b) back

unfoldable pub incomplete_rune_tail : Bytes → ℕ
unfolding rune_tail_loop
incomplete_rune_tail chunk = rune_tail_loop 3 1 (reverse chunk)

abbrev pub boundary_at : ScanState × ℕ → Bytes → ℕ
boundary_at (state, start) chunk =
    if is_ground state then length chunk - incomplete_rune_tail chunk else start

unfoldable pub complete_boundary : Bytes → ℕ
unfolding scan_loop
complete_boundary chunk = boundary_at (scan_loop ground_state 0 0 chunk) chunk

abbrev pub max_holdback : ℕ
max_holdback = 64 * 1024

-- The size of the buffer that `readLoop` reads into.
abbrev pub read_buffer : ℕ
read_buffer = 32 * 1024

-- Where `readLoop` cuts a chunk: a pathological unterminated sequence is flushed whole.
unfoldable pub cut_of : Bytes → ℕ
cut_of chunk =
    let cut = complete_boundary chunk in
    if cut == 0 && ltb max_holdback (length chunk) then length chunk else cut

-- One read of `readLoop`: what is written, if anything, and what is held back.
unfoldable pub read_step : Bytes → Bytes → Option Bytes × Bytes
unfolding cut_of
read_step pending buf =
    let chunk = pending ++ buf in
    let cut = cut_of chunk in (if ltb 0 cut then some (take cut chunk) else none, drop cut chunk)

-- The end of the stream flushes what is held back.
unfoldable pub read_end : Bytes → Option Bytes
read_end [] = none
read_end (b ∷ bs) = some (b ∷ bs)

abbrev pub cons_write : Option Bytes → List Bytes → List Bytes
cons_write none ws = ws
cons_write (some w) ws = w ∷ ws

-- The writes of `readLoop` over all its reads.
unfoldable pub read_loop : Bytes → List Bytes → List Bytes
unfolding read_end read_step
read_loop pending [] = cons_write (read_end pending) []
read_loop pending (buf ∷ reads) =
    let (written, pending') = read_step pending buf in cons_write written (read_loop pending' reads)
