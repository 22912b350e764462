-- ===== src/Boundary/Holdback.antt =====
-- How much `readLoop` can hold back between two reads.
use windrunner.Prelude.{
  ℕ, zero, suc, ◌+◌, ◌≤◌, ◌<◌, ◌≡◌, ◌≢◌, ◌⊎◌, inl, inr, sym, ap, subst, ◌∙◌, true, false, Bytes,
  List, [], ◌∷◌, ◌++◌, ltb, leb, ◌==◌, take, drop, length, arith, Bool-cases, length-append, All,
  drop-length, length-drop,
}
use windrunner.Boundary.Scan.{
  scan, NeverGround, Opened, complete_boundary_open, complete_boundary_ground,
  incomplete_rune_tail-le,
}
use windrunner.Boundary.{
  ScanState, ground_state, is_ground, scan_byte, complete_boundary, max_holdback, read_buffer,
  cut_of, read_step,
}

NeverGround-take :
    (state : ScanState) (xs ys : Bytes) (k : ℕ)
    → NeverGround state xs
    → 0 < k
    → k ≤ length xs
    → is_ground (scan state (take k (xs ++ ys))) ≡ false
NeverGround-take state xs ys zero h pos le = absurd (omega arith)
NeverGround-take state [] ys (suc k) h pos le = absurd (omega arith)
NeverGround-take state (x ∷ xs) ys (suc zero) h pos le = h.0
NeverGround-take state (x ∷ xs) ys (suc (suc k)) h pos le =
    NeverGround-take (scan_byte state x) xs ys (suc k) h.1 (omega arith) (omega arith)

true≢false : true ≢ false
true≢false h = cc

-- The start of a rune, or the start of a sequence that no later byte has ended.
abbrev pub IsHeld : Bytes → Type 0
IsHeld pending =
    (length pending ≤ 3) ⊎ (NeverGround ground_state pending × (length pending ≤ max_holdback))

module _ (pending buf : Bytes) (held : IsHeld pending) (fits : length buf ≤ read_buffer) where
  chunk : Bytes
  chunk = pending ++ buf

  short-IsHeld : (cut : ℕ) → length chunk ≤ cut + 3 → IsHeld (drop cut chunk)
  unfolding chunk
  short-IsHeld cut h = inl (omega (arith, length-drop cut chunk))

  ground-IsHeld : is_ground (scan ground_state chunk) ≡ true → IsHeld (drop (cut_of chunk) chunk)
  unfolding cut_of
  ground-IsHeld whole =
      short-IsHeld (cut_of chunk)
        (ground (arith, complete_boundary_ground chunk whole, incomplete_rune_tail-le chunk))

  open_behind-le :
      Opened ground_state chunk 0 (complete_boundary chunk)
      → 0 < complete_boundary chunk
      → length (drop (complete_boundary chunk) chunk) ≤ max_holdback
  unfolding chunk
  open_behind-le o pos = elim held [
    | inl short ↦
        omega (arith, length-drop (complete_boundary chunk) chunk, length-append pending buf)
    | inr (never, _) ↦ elim (Bool-cases (leb (complete_boundary chunk) (length pending))) [
      | inl within ↦ absurd (
          true≢false (
            sym (ap is_ground o.whole_before)
            ∙ NeverGround-take ground_state pending buf o.before never (omega (arith, o.start_is))
                (ground (arith, o.start_is))))
      | inr beyond ↦
          ground (arith, length-drop (complete_boundary chunk) chunk, length-append pending buf)
    ]
  ]

  open-IsHeld : is_ground (scan ground_state chunk) ≡ false → IsHeld (drop (cut_of chunk) chunk)
  unfolding cut_of
  open-IsHeld torn =
      let o = complete_boundary_open chunk torn in
      let never : NeverGround ground_state (drop (complete_boundary chunk) chunk) =
        subst (λ (n : ℕ). NeverGround ground_state (drop n chunk)) (omega (arith, o.start_is))
          o.open_behind in
      elim (Bool-cases (complete_boundary chunk == 0)) [
        | inl none_cut ↦ elim (Bool-cases (ltb max_holdback (length chunk))) [
          | inl flushed ↦ rw (none_cut, flushed) (inl (rw (drop-length chunk) (omega arith)))
          | inr kept ↦
              rw (none_cut, kept)
                (inr (never, ground (arith, length-drop (complete_boundary chunk) chunk)))
        ]
        | inr some_cut ↦ rw some_cut (inr (never, open_behind-le o (ground arith)))
      ]

  -- What is held back is bounded: reads of the buffer's size keep it under the limit.
  pub read_step-IsHeld : IsHeld (read_step pending buf).1
  unfolding read_step chunk
  read_step-IsHeld = elim (Bool-cases (is_ground (scan ground_state chunk))) [
    | inl whole ↦ ground-IsHeld whole
    | inr torn ↦ open-IsHeld torn
  ]

-- What is held back behind some reads.
abbrev pub held_after : Bytes → List Bytes → Bytes
held_after pending [] = pending
held_after pending (buf ∷ reads) = held_after (read_step pending buf).1 reads

held_after-IsHeld :
    (pending : Bytes) (reads : List Bytes)
    → IsHeld pending
    → All (λ (buf : Bytes). length buf ≤ read_buffer) reads
    → IsHeld (held_after pending reads)
held_after-IsHeld pending [] h fits = h
held_after-IsHeld pending (buf ∷ reads) h fits =
    held_after-IsHeld (read_step pending buf).1 reads (read_step-IsHeld pending buf h fits.0) fits.1

-- After any reads of at most the size of its buffer, readLoop holds back at most maxHoldback bytes.
pub length-held_after :
    (reads : List Bytes)
    → All (λ (buf : Bytes). length buf ≤ read_buffer) reads
    → length (held_after [] reads) ≤ max_holdback
length-held_after reads fits = elim (held_after-IsHeld [] reads (inl (omega arith)) fits) [
  | inl short ↦ omega arith
  | inr (_, bounded) ↦ bounded
]
