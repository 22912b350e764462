-- ===== src/Boundary/Stream.antt =====
-- The writes of `readLoop` against the bytes that it read.
use windrunner.Prelude.{
  ℕ, zero, suc, ◌-◌, ◌≤◌, ◌<◌, ◌≡◌, ◌⊎◌, refl, sym, ap, ap₂, ◌∙◌, Bool, true, Bytes, List, [], ◌∷◌,
  ◌++◌, Option, none, some, ltb, take, drop, length, if◌then◌else◌, arith, length-append,
  append_assoc, append-nil, take-append-drop, take-append,
}
use windrunner.Boundary.Scan.{scan, scan-append, complete_boundary_ground}
use windrunner.Boundary.Sequences.{Place, Reads}
use windrunner.Boundary.Runes.{IsByte, EndsOpen, incomplete_rune_tail-split}
use windrunner.Boundary.{
  ScanState, ground_state, escape, is_ground, scan_byte, complete_boundary, incomplete_rune_tail,
  cut_of, read_step, read_end, cons_write, read_loop,
}

abbrev pub joined : List Bytes → Bytes
joined [] = []
joined (w ∷ ws) = w ++ joined ws

joined-cons_write :
    (w : Option Bytes) (ws : List Bytes)
    → joined (cons_write w ws) ≡ joined (cons_write w []) ++ joined ws
joined-cons_write none ws = refl
joined-cons_write (some w) ws = ap (λ (l : Bytes). l ++ joined ws) (sym (append-nil w))

positive : (n : ℕ) → ltb 0 (suc n) ≡ true
positive n = ground arith

-- One read: what is written and what is held back are what was held back and what was read.
pub read_step_splits :
    (pending buf : Bytes)
    → joined (cons_write (read_step pending buf).0 []) ++ (read_step pending buf).1 ≡ pending ++ buf
unfolding read_step
read_step_splits pending buf = split (cut_of (pending ++ buf))
  where
    split :
        (cut : ℕ)
        → joined (cons_write (if ltb 0 cut then some (take cut (pending ++ buf)) else none) [])
            ++ drop cut (pending ++ buf)
          ≡ pending ++ buf
    split zero = refl
    split (suc cut) =
        ap
          (λ (b : Bool).
            joined (cons_write (if b then some (take (suc cut) (pending ++ buf)) else none) [])
            ++ drop (suc cut) (pending ++ buf))
          (positive cut)
        ∙ ap (λ (l : Bytes). l ++ drop (suc cut) (pending ++ buf))
            (append-nil (take (suc cut) (pending ++ buf)))
        ∙ take-append-drop (suc cut) (pending ++ buf)

read_end_all : (pending : Bytes) → joined (cons_write (read_end pending) []) ≡ pending
unfolding read_end
read_end_all [] = refl
read_end_all (b ∷ bs) = append-nil (b ∷ bs)

-- However the reads of the PTY fall, the writes of readLoop joined are what was held back and then
-- all that was read: no byte is lost, doubled or moved.
pub joined-read_loop :
    (pending : Bytes) (reads : List Bytes)
    → joined (read_loop pending reads) ≡ pending ++ joined reads
unfolding read_loop
joined-read_loop pending [] = read_end_all pending ∙ sym (append-nil pending)
joined-read_loop pending (buf ∷ reads) =
    let (written, pending') = read_step pending buf in
    joined-cons_write written (read_loop pending' reads)
    ∙ ap (◌++◌ (joined (cons_write written []))) (joined-read_loop pending' reads)
    ∙ sym (append_assoc (joined (cons_write written [])) pending' (joined reads))
    ∙ ap (λ (l : Bytes). l ++ joined reads) (read_step_splits pending buf)
    ∙ append_assoc pending buf (joined reads)

-- Bytes from 0x80 on end no sequence but one that has just begun.
abbrev IsHigh : ℕ → Type 0
IsHigh b = 0x80 ≤ b

abbrev IsInside : ScanState → Type 0
IsInside ground_state = ⊥
IsInside escape = ⊥
IsInside _ = Unit {0}

-- What the scanner makes of what stands in front of a cut: it is in the ground state, or the bytes
-- held back for a rune stand directly behind the start of an escape sequence.
abbrev IsCut : Bytes → ℕ → Type 0
IsCut chunk cut =
    (scan ground_state (take cut chunk) ≡ ground_state)
    ⊎ ((scan ground_state (take cut chunk) ≡ escape) × EndsOpen chunk (length chunk - cut))

-- What stands in front of the cut: text and whole sequences, unless the bytes held back for a rune
-- stand directly behind the start of an escape sequence.
abbrev pub WholeBefore : Bytes → ℕ → Type 0
WholeBefore chunk cut =
    Reads Place.text (take cut chunk) Place.text
    ⊎ (Reads Place.text (take cut chunk) Place.escape × EndsOpen chunk (length chunk - cut))

torn_tail :
    (before : Bytes) (first : ℕ)
    → IsByte first
    → 0xc0 ≤ first
    → first < 0xf8
    → incomplete_rune_tail (before ++ 0x1b ∷ first ∷ []) ≡ 1
torn_tail before first byte lo hi =
    ap incomplete_rune_tail (sym (append_assoc before (0x1b ∷ []) (first ∷ [])))
    ∙ incomplete_rune_tail-split (before ++ 0x1b ∷ []) [] first byte (λ c. omega arith) tt
        (omega arith)
    ∙ ground arith

torn_scan :
    (before : Bytes) (first : ℕ)
    → scan ground_state before ≡ ground_state
    → 0xc0 ≤ first
    → scan ground_state (before ++ 0x1b ∷ first ∷ []) ≡ ground_state
unfolding scan_byte
torn_scan before first whole lo =
    scan-append before (0x1b ∷ first ∷ []) ground_state
    ∙ ap (λ (s : ScanState). scan s (0x1b ∷ first ∷ [])) whole
    ∙ ground arith

-- Where whole sequences are followed by an ESC and the first byte of a long rune, the cut falls
-- between these two: the ESC is written although it ends no sequence.
pub complete_boundary_torn :
    (before : Bytes) (first : ℕ)
    → scan ground_state before ≡ ground_state
    → IsByte first
    → 0xc0 ≤ first
    → first < 0xf8
    → let chunk = before ++ 0x1b ∷ first ∷ [] in
      (complete_boundary chunk ≡ suc (length before))
      × (scan ground_state (take (complete_boundary chunk) chunk) ≡ escape)
unfolding scan_byte
complete_boundary_torn before first whole byte lo hi =
    let chunk = before ++ 0x1b ∷ first ∷ [] in
    let cut : complete_boundary chunk ≡ suc (length before) =
      complete_boundary_ground chunk (ap is_ground (torn_scan before first whole lo))
      ∙ omega
          (arith, torn_tail before first byte lo hi, length-append before (0x1b ∷ first ∷ [])) in
    let begun : length (before ++ 0x1b ∷ []) ≡ suc (length before) =
      omega (arith, length-append before (0x1b ∷ [])) in
    let front : take (suc (length before)) chunk ≡ before ++ 0x1b ∷ [] =
      ap₂ take (sym begun) (sym (append_assoc before (0x1b ∷ []) (first ∷ [])))
      ∙ take-append (before ++ 0x1b ∷ []) (first ∷ []) in
    (
      cut,
      ap (λ (n : ℕ). scan ground_state (take n chunk)) cut
          ∙ ap (scan ground_state) front
          ∙ scan-append before (0x1b ∷ []) ground_state
          ∙ ap (λ (s : ScanState). scan s (0x1b ∷ [])) whole
          ∙ refl,
    )
