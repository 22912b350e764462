-- ===== src/Boundary/Runes.antt =====
-- `incompleteRuneTail` in the terms of UTF-8.
use mathlib.Core.List.{reverse, reverse-cons, reverse-append, reverse-reverse}
use windrunner.Prelude.{
  ℕ, zero, suc, ◌+◌, ◌≤◌, ◌<◌, ◌≡◌, ◌⊎◌, inl, inr, refl, sym, ap, ap₂, subst, ◌∙◌, Bool, true,
  false, ◌&&◌, Bytes, [], ◌∷◌, ◌++◌, Option, none, some, ltb, leb, ◌==◌, ==_iff, length,
  if◌then◌else◌, arith, if_cases, bit_and, length-append, append_assoc, append-nil, All, All-append,
}
use windrunner.Boundary.{rune_need, rune_tail_loop, incomplete_rune_tail, held_back}

abbrev pub IsByte : ℕ → Type 0
IsByte b = b < 256

abbrev pub IsContinuation : ℕ → Type 0
IsContinuation b = (0x80 ≤ b) × (b < 0xc0)

-- The length of a rune by its first byte.
abbrev pub rune_length : ℕ → Option ℕ
rune_length b =
    if ltb b 0x80
    then some 1
    else if ltb b 0xc0
    then none
    else if ltb b 0xe0
    then some 2
    else if ltb b 0xf0
    then some 3
    else if ltb b 0xf8
    then some 4
    else none

-- A test on all bytes under a bound, as a table that can be run.
holds_under : (ℕ → Bool) → ℕ → Bool
holds_under test zero = true
holds_under test (suc bound) = holds_under test bound && test bound

under_table :
    (test : ℕ → Bool) (bound : ℕ) {b : ℕ}
    → b < bound
    → holds_under test bound ≡ true
    → test b ≡ true
unfolding holds_under
under_table test zero small all = absurd (omega arith)
under_table test (suc bound) {b} small all = ground (arith, under_table test bound {b = b})

same_bool : Bool → Bool → Bool
same_bool true b = b
same_bool false true = false
same_bool false false = true

same_bool→eq : (a b : Bool) → same_bool a b ≡ true → a ≡ b
unfolding same_bool
same_bool→eq a b h = ground arith

same_option : Option ℕ → Option ℕ → Bool
same_option none none = true
same_option (some a) (some b) = a == b
same_option _ _ = false

same_option→eq : (a b : Option ℕ) → same_option a b ≡ true → a ≡ b
unfolding same_option
same_option→eq none none h = refl
same_option→eq (some a) (some b) h = ap some ((==_iff a b).0 h)
same_option→eq none (some b) h = cc
same_option→eq (some a) none h = cc

-- The two masks, over every byte.
continuation_table :
    holds_under (λ b. same_bool (bit_and b 0xc0 == 0x80) (leb 0x80 b && ltb b 0xc0)) 256 ≡ true
unfolding holds_under same_bool
continuation_table = refl

need_table : holds_under (λ b. same_option (rune_need b) (rune_length b)) 256 ≡ true
unfolding holds_under same_option rune_need
need_table = refl

continuation_mask : (b : ℕ) → IsByte b → (bit_and b 0xc0 == 0x80) ≡ (leb 0x80 b && ltb b 0xc0)
continuation_mask b h = same_bool→eq _ _ (
    under_table (λ b. same_bool (bit_and b 0xc0 == 0x80) (leb 0x80 b && ltb b 0xc0)) 256 h
      continuation_table)

pub rune_need-rune_length : (b : ℕ) → IsByte b → rune_need b ≡ rune_length b
rune_need-rune_length b h =
    same_option→eq _ _
      (under_table (λ b. same_option (rune_need b) (rune_length b)) 256 h need_table)

-- Bytes that end in the start of a rune whose rest is missing.
pub record EndsOpen (chunk : Bytes) (held : ℕ) : Type 0 where
  pub before : Bytes
  pub first : ℕ
  pub following : Bytes
  pub needed : ℕ
  pub splits : chunk ≡ before ++ first ∷ following
  pub counts : held ≡ suc (length following)
  pub first_is : rune_length first ≡ some needed
  pub continue : All IsContinuation following
  pub missing : held < needed

All-reverse {κ} : (P : ℕ → Type κ) (xs : Bytes) → All P xs → All P (reverse xs)
All-reverse P [] h = h
All-reverse P (x ∷ xs) h =
    subst (All P) (sym (reverse-cons x xs))
      (All-append P (reverse xs) (x ∷ []) (All-reverse P xs h.1) (h.0, tt))

reverse_move : (b : ℕ) (bs acc : Bytes) → reverse (b ∷ bs) ++ acc ≡ reverse bs ++ (b ∷ acc)
reverse_move b bs acc =
    ap (λ (l : Bytes). l ++ acc) (reverse-cons b bs) ∙ append_assoc (reverse bs) (b ∷ []) acc

abbrev Held : Bytes → ℕ → Type 0
Held chunk held = (held ≡ 0) ⊎ EndsOpen chunk held

held_back-Held :
    (need : Option ℕ) (b : ℕ) (before acc : Bytes)
    → rune_length b ≡ need
    → All IsContinuation acc
    → Held (before ++ b ∷ acc) (held_back need (suc (length acc)))
held_back-Held none b before acc e c = inl refl
held_back-Held (some n) b before acc e c =
    if_cases (Held (before ++ b ∷ acc)) (ltb (suc (length acc)) n) _ _
      (λ less. inr (record {
        before = before;
        first = b;
        following = acc;
        needed = n;
        splits = refl;
        counts = refl;
        first_is = e;
        continue = c;
        missing = ground arith;
      }))
      (λ _. inl refl)

rune_tail_loop-Held :
    (rounds : ℕ) (bs acc : Bytes)
    → All IsByte bs
    → All IsContinuation acc
    → Held (reverse bs ++ acc) (rune_tail_loop rounds (suc (length acc)) bs)
unfolding rune_tail_loop
rune_tail_loop-Held zero bs acc h c = inl refl
rune_tail_loop-Held (suc rounds) [] acc h c = inl refl
rune_tail_loop-Held (suc rounds) (b ∷ bs) acc h c =
    subst (λ (l : Bytes). Held l (rune_tail_loop (suc rounds) (suc (length acc)) (b ∷ bs)))
      (sym (reverse_move b bs acc))
      (if_cases (Held (reverse bs ++ (b ∷ acc))) (bit_and b 0xc0 == 0x80) _ _
        (λ more.
          rune_tail_loop-Held rounds bs (b ∷ acc) h.1 (ground (arith, continuation_mask b h.0), c))
        (λ _.
          held_back-Held (rune_need b) b (reverse bs) acc (sym (rune_need-rune_length b h.0)) c))

-- Where incompleteRuneTail holds back bytes of a chunk, they are the start of a rune whose
-- remainder is missing.
pub incomplete_rune_tail-EndsOpen :
    (chunk : Bytes)
    → All IsByte chunk
    → (incomplete_rune_tail chunk ≡ 0) ⊎ EndsOpen chunk (incomplete_rune_tail chunk)
unfolding incomplete_rune_tail
incomplete_rune_tail-EndsOpen chunk h =
    subst (λ (l : Bytes). Held l (rune_tail_loop 3 1 (reverse chunk)))
      (append-nil (reverse (reverse chunk)) ∙ reverse-reverse chunk)
      (rune_tail_loop-Held 3 (reverse chunk) [] (All-reverse IsByte chunk h) tt)

is_continuation : (b : ℕ) → IsContinuation b → (bit_and b 0xc0 == 0x80) ≡ true
is_continuation b c = continuation_mask b (omega arith) ∙ ground arith

not_continuation : (b : ℕ) → IsByte b → ¬ IsContinuation b → (bit_and b 0xc0 == 0x80) ≡ false
not_continuation b byte lead = continuation_mask b byte ∙ ground arith

rune_tail_loop_following :
    (cs bs : Bytes) (rounds back b : ℕ)
    → IsByte b
    → ¬ IsContinuation b
    → All IsContinuation cs
    → length cs < rounds
    → rune_tail_loop rounds back (cs ++ b ∷ bs) ≡ held_back (rune_length b) (back + length cs)
unfolding rune_tail_loop
rune_tail_loop_following cs bs zero back b byte lead c enough = absurd (omega arith)
rune_tail_loop_following [] bs (suc rounds) back b byte lead c enough =
    rw (not_continuation b byte lead) (ap₂ held_back (rune_need-rune_length b byte) (omega arith))
rune_tail_loop_following (x ∷ cs) bs (suc rounds) back b byte lead c enough =
    rw (is_continuation x c.0) (
      rune_tail_loop_following cs bs rounds (suc back) b byte lead c.1 (omega arith)
      ∙ ap (held_back (rune_length b)) (omega arith))

length-reverse : (xs : Bytes) → length (reverse xs) ≡ length xs
length-reverse [] = refl
length-reverse (x ∷ xs) =
    omega
      (arith, ap length (reverse-cons x xs), length-append (reverse xs) (x ∷ []), length-reverse xs)

-- A first byte and the at most two continuation bytes behind it that end a chunk are held back
-- exactly while the rune needs more bytes.
pub incomplete_rune_tail-split :
    (before following : Bytes) (first : ℕ)
    → IsByte first
    → ¬ IsContinuation first
    → All IsContinuation following
    → length following ≤ 2
    → incomplete_rune_tail (before ++ first ∷ following)
      ≡ held_back (rune_length first) (suc (length following))
unfolding incomplete_rune_tail
incomplete_rune_tail-split before following first byte lead c short =
    ap (rune_tail_loop 3 1) (
      reverse-append before (first ∷ following)
      ∙ ap (λ (l : Bytes). l ++ reverse before) (reverse-cons first following)
      ∙ append_assoc (reverse following) (first ∷ []) (reverse before))
    ∙ rune_tail_loop_following (reverse following) (reverse before) 3 1 first byte lead
        (All-reverse IsContinuation following c) (omega (arith, length-reverse following))
    ∙ ap (held_back (rune_length first)) (omega (arith, length-reverse following))
