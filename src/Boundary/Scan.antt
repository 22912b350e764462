-- ===== src/Boundary/Scan.antt =====
-- Where `completeBoundary` cuts.
use mathlib.Core.List.{reverse, reverse-cons}
use windrunner.Prelude.{
  ℕ, zero, suc, ◌+◌, ◌-◌, ◌≤◌, ◌<◌, ◌≡◌, ◌≢◌, ◌⊎◌, inl, inr, refl, sym, ap, subst, ◌∙◌, Bool, true,
  false, Bytes, [], ◌∷◌, ◌++◌, Option, none, some, ◌==◌, take, drop, length, if◌then◌else◌, arith,
  Bool-cases, if_cases, bit_and, length-append,
}
use windrunner.Boundary.{
  ScanState, ground_state, escape, csi, str, str_escape, is_ground, scan_byte, moved_start,
  scan_loop, rune_need, rune_tail_loop, incomplete_rune_tail, complete_boundary, held_back,
}

-- The scanner's state behind some bytes, without the position.
abbrev pub scan : ScanState → Bytes → ScanState
scan state [] = state
scan state (b ∷ rest) = scan (scan_byte state b) rest

pub scan-append :
    (xs ys : Bytes) (state : ScanState) → scan state (xs ++ ys) ≡ scan (scan state xs) ys
scan-append [] ys state = refl
scan-append (x ∷ xs) ys state = scan-append xs ys (scan_byte state x)

scan_loop-scan :
    (xs : Bytes) (state : ScanState) (start index : ℕ)
    → (scan_loop state start index xs).0 ≡ scan state xs
unfolding scan_loop
scan_loop-scan [] state start index = refl
scan_loop-scan (x ∷ xs) state start index = scan_loop-scan xs _ _ (suc index)

rune_tail_loop-le :
    (rounds back : ℕ) (bs : Bytes)
    → 1 ≤ back
    → (rune_tail_loop rounds back bs + 1 ≤ back + length bs)
      × (rune_tail_loop rounds back bs + 1 ≤ rounds + back)
unfolding rune_tail_loop rune_need
rune_tail_loop-le zero back bs h = omega arith
rune_tail_loop-le (suc rounds) back [] h = omega arith
rune_tail_loop-le (suc rounds) back (b ∷ bs) h =
    if_cases (λ (r : ℕ). (r + 1 ≤ back + suc (length bs)) × (r + 1 ≤ suc rounds + back))
      (bit_and b 0xc0 == 0x80) _ _
      (λ _. omega (arith, rune_tail_loop-le rounds (suc back) bs (omega arith)))
      (λ _. held_back-le (rune_need b))
  where
    held_back-le :
        (need : Option ℕ)
        → (held_back need back + 1 ≤ back + suc (length bs))
          × (held_back need back + 1 ≤ suc rounds + back)
    held_back-le none = omega arith
    held_back-le (some need) = ground arith

length-reverse : (xs : Bytes) → length (reverse xs) ≡ length xs
length-reverse [] = refl
length-reverse (x ∷ xs) =
    omega
      (arith, ap length (reverse-cons x xs), length-append (reverse xs) (x ∷ []), length-reverse xs)

-- At most three bytes are held back for a rune, and no more than there are.
pub incomplete_rune_tail-le :
    (chunk : Bytes) → (incomplete_rune_tail chunk ≤ 3) × (incomplete_rune_tail chunk ≤ length chunk)
unfolding incomplete_rune_tail
incomplete_rune_tail-le chunk =
    omega (arith, rune_tail_loop-le 3 1 (reverse chunk) (omega arith), length-reverse chunk)

-- No prefix of `xs` but the empty one leads from `state` to the ground state.
abbrev pub NeverGround : ScanState → Bytes → Type 0
NeverGround state [] = Unit {0}
NeverGround state (b ∷ rest) =
    (is_ground (scan_byte state b) ≡ false) × NeverGround (scan_byte state b) rest

-- `start` stands before the ESC of the sequence that the scanner is in.
pub record Opened (state : ScanState) (xs : Bytes) (index start : ℕ) : Type 0 where
  pub before : ℕ
  pub start_is : start ≡ index + before
  pub inside : before < length xs
  pub whole_before : scan state (take before xs) ≡ ground_state
  pub open_behind : NeverGround ground_state (drop before xs)

Opened-cons :
    (state : ScanState) (x : ℕ) (xs : Bytes) (index start : ℕ)
    → Opened (scan_byte state x) xs (suc index) start
    → Opened state (x ∷ xs) index start
Opened-cons state x xs index start o = record {
  before = suc o.before;
  start_is = omega (arith, o.start_is);
  inside = omega (arith, o.inside);
  whole_before = o.whole_before;
  open_behind = o.open_behind;
}

Opened-here :
    (x : ℕ) (xs : Bytes) (index : ℕ)
    → NeverGround ground_state (x ∷ xs)
    → Opened ground_state (x ∷ xs) index index
Opened-here x xs index h = record {
  before = 0;
  start_is = omega arith;
  inside = omega arith;
  whole_before = refl;
  open_behind = h;
}

true≢false : true ≢ false
true≢false h = cc

scan_loop-Opened :
    (xs : Bytes) (state : ScanState) (start index : ℕ)
    → is_ground (scan state xs) ≡ false
    → ((is_ground state ≡ false)
        × ((scan_loop state start index xs).1 ≡ start)
        × NeverGround state xs)
      ⊎ Opened state xs index (scan_loop state start index xs).1
unfolding scan_loop
scan_loop-Opened [] state start index h = inl (h, refl, tt)
scan_loop-Opened (x ∷ xs) state start index h =
    step state h (scan_loop-Opened xs _ (moved_start state start index x) (suc index) h)
  where
    step :
        (s : ScanState)
        → is_ground (scan s (x ∷ xs)) ≡ false
        → ((is_ground (scan_byte s x) ≡ false)
            × ((scan_loop (scan_byte s x) (moved_start s start index x) (suc index) xs).1
                ≡ moved_start s start index x)
            × NeverGround (scan_byte s x) xs)
          ⊎ Opened
              (scan_byte s x)
              xs
              (suc index)
              (scan_loop (scan_byte s x) (moved_start s start index x) (suc index) xs).1
        → ((is_ground s ≡ false)
            × ((scan_loop s start index (x ∷ xs)).1 ≡ start)
            × NeverGround s (x ∷ xs))
          ⊎ Opened s (x ∷ xs) index (scan_loop s start index (x ∷ xs)).1
    step s e (inr o) = inr (Opened-cons s x xs index _ o)
    step ground_state e (inl (out, at, never)) = elim (Bool-cases (x == 0x1b)) [
      | inl hit ↦ inr (
          subst (Opened ground_state (x ∷ xs) index) (sym (at ∙ rw hit refl))
            (Opened-here x xs index (out, never)))
      | inr miss ↦ absurd (
          true≢false
            (subst (λ (b : Bool). is_ground (if b then escape else ground_state) ≡ false) miss out))
    ]
    step escape e (inl (out, at, never)) = inl (refl, at, (out, never))
    step csi e (inl (out, at, never)) = inl (refl, at, (out, never))
    step str e (inl (out, at, never)) = inl (refl, at, (out, never))
    step str_escape e (inl (out, at, never)) = inl (refl, at, (out, never))

module _ (chunk : Bytes) where
  -- Behind a sequence that is not whole, the cut is before its ESC: what is in front is whole, and no
  -- longer prefix is.
  pub complete_boundary_open :
      is_ground (scan ground_state chunk) ≡ false
      → Opened ground_state chunk 0 (complete_boundary chunk)
  unfolding complete_boundary
  complete_boundary_open h = elim (scan_loop-Opened chunk ground_state 0 0 h) [
    | inl (out, _, _) ↦ absurd (true≢false out)
    | inr o ↦ rw (scan_loop-scan chunk ground_state 0 0) (rw h o)
  ]

  pub complete_boundary_ground :
      is_ground (scan ground_state chunk) ≡ true
      → complete_boundary chunk ≡ length chunk - incomplete_rune_tail chunk
  unfolding complete_boundary
  complete_boundary_ground h = rw (scan_loop-scan chunk ground_state 0 0) (rw h refl)

  -- The cut lies in the chunk.
  pub complete_boundary-le : complete_boundary chunk ≤ length chunk
  complete_boundary-le = elim (Bool-cases (is_ground (scan ground_state chunk))) [
    | inl whole ↦ omega (arith, complete_boundary_ground whole)
    | inr torn ↦ let o = complete_boundary_open torn in omega (arith, o.start_is, o.inside)
  ]
