-- ===== src/Prelude/Decimal.antt =====
-- The verb %d of package fmt, and what reads its digits back.
use mathlib.Core.Logic.{dite, ite}
use mathlib.Core.WellFounded.{Acc, WellFounded, Acc-prop, induction}
use Prim.Native.Nat.{ℕ, zero, suc, ◌+◌, ◌-◌, ◌*◌, ◌/◌, ◌%◌, ◌^◌, ◌≤◌, ◌<◌}
use mathlib.Core.Path.{◌≡◌, refl}
use mathlib.Core.List.{[], ◌∷◌}
use mathlib.Core.Logic.{◌≢◌}
use native.Mathlib.Omega.{arith}
use native.Mathlib.Decide.{dec_lt}
use windrunner.Prelude.Tests.{ltb, if◌then◌else◌}
use windrunner.Prelude.Lists.{All}
use windrunner.Prelude.Text.{Bytes}

Acc-below : (k n : ℕ) → n < k → Acc ◌<◌ n
Acc-below zero n h = elim h [ ]
Acc-below (suc k) n h = Acc.intro n (λ m hm. Acc-below k m (omega arith))

lt_wf : WellFounded ◌<◌
unfolding Acc-below
lt_wf = record { apply = λ n. Acc-below (suc n) n (omega arith) }

tenth_lt : {n : ℕ} → 9 < n → n / 10 < n
tenth_lt h = omega arith

-- The digits of `n` in front of `out`, lowest last.
digits_acc : (n : ℕ) → Acc ◌<◌ n → Bytes → Bytes
digits_acc n (Acc.intro _ smaller) out =
    dite (dec_lt 9 n)
      (λ h. digits_acc (n / 10) (smaller (n / 10) (tenth_lt h)) ((b'0' + n % 10) ∷ out))
      (λ _. (b'0' + n) ∷ out)

digits : ℕ → Bytes → Bytes
digits n = digits_acc n (lt_wf.apply n)

unfoldable pub decimal : ℕ → Bytes
unfolding digits digits_acc lt_wf dec_lt tenth_lt
decimal n = digits n []

-- An `int` by its 64 bits, as %d prints it.
unfoldable pub print_int : ℕ → Bytes
unfolding decimal
print_int n = if ltb n (2 ^ 63) then decimal n else b'-' ∷ decimal (2 ^ 64 - n)

digits_acc_step :
    (n : ℕ) (w : Acc ◌<◌ n) (w' : Acc ◌<◌ (n / 10)) (out : Bytes)
    → digits_acc n w out
      ≡ ite (dec_lt 9 n) (digits_acc (n / 10) w' ((b'0' + n % 10) ∷ out)) ((b'0' + n) ∷ out)
unfolding digits_acc
digits_acc_step n (Acc.intro _ smaller) w' out = λ i.
    dite (dec_lt 9 n)
      (λ h.
        digits_acc (n / 10) (Acc-prop (smaller (n / 10) (tenth_lt h)) w' i) ((b'0' + n % 10) ∷ out))
      (λ _. (b'0' + n) ∷ out)

digits_step :
    (n : ℕ) (out : Bytes)
    → digits n out ≡ ite (dec_lt 9 n) (digits (n / 10) ((b'0' + n % 10) ∷ out)) ((b'0' + n) ∷ out)
unfolding digits
digits_step n = digits_acc_step n _ _

abbrev pub IsDigit : ℕ → Type 0
IsDigit c = (b'0' ≤ c) × (c ≤ b'9')

-- A reader that takes digits from the left, `n*10 + d` in the 64 bits of an `int`.
abbrev pub read_digits : ℕ → Bytes → ℕ
read_digits n [] = n
read_digits n (c ∷ s) = read_digits ((n * 10 + (c - b'0')) % 2 ^ 64) s

read-digits : (n : ℕ) (out : Bytes) → n < 2 ^ 64 → read_digits 0 (digits n out) ≡ read_digits n out
read-digits n =
    induction lt_wf
      {C = λ m. (out : Bytes) → m < 2 ^ 64 → read_digits 0 (digits m out) ≡ read_digits m out} n
      λ m ih out fits. grind (arith, digits_step m out, ih (m / 10) _ ((b'0' + m % 10) ∷ out))

-- Every value is read back from its print.
pub read-decimal : (n : ℕ) → n < 2 ^ 64 → read_digits 0 (decimal n) ≡ n
unfolding decimal
read-decimal n fits = read-digits n [] fits

digits-All : (n : ℕ) (out : Bytes) → All IsDigit out → All IsDigit (digits n out)
digits-All n =
    induction lt_wf {C = λ m. (out : Bytes) → All IsDigit out → All IsDigit (digits m out)} n
      λ m ih out h. grind (arith, digits_step m out, ih (m / 10))

pub decimal-All : (n : ℕ) → All IsDigit (decimal n)
unfolding decimal
decimal-All n = digits-All n [] tt

digits-ne-nil : (n : ℕ) (out : Bytes) → digits n out ≢ []
digits-ne-nil n =
    induction lt_wf {C = λ m. (out : Bytes) → digits m out ≢ []} n
      λ m ih out. grind (arith, digits_step m out, ih (m / 10))

-- A print is not empty.
pub decimal_cons : (n : ℕ) → (d : ℕ) × (s : Bytes) × (decimal n ≡ d ∷ s)
unfolding decimal
decimal_cons n = split (digits n []) refl
  where
    split : (l : Bytes) → digits n [] ≡ l → (d : ℕ) × (s : Bytes) × (digits n [] ≡ d ∷ s)
    split [] e = absurd (digits-ne-nil n [] e)
    split (d ∷ s) e = (d, s, e)

pub print_int-decimal : (n : ℕ) → n < 2 ^ 63 → print_int n ≡ decimal n
unfolding print_int
print_int-decimal n h = ground arith
