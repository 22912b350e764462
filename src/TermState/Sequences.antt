-- ===== src/TermState/Sequences.antt =====
-- `observe` over one escape sequence: it applies it and goes on with the byte behind it.
use windrunner.Prelude.{
  ℕ, suc, ◌+◌, ◌-◌, ◌*◌, ◌%◌, ◌^◌, ◌≤◌, ◌<◌, ◌≡◌, refl, sym, ap, ap₂, subst, ◌∙◌, Bool, true, false,
  Bytes, [], ◌∷◌, ◌++◌, append_assoc, length, if◌then◌else◌, arith, All, length-append,
}
use windrunner.Prelude.Decimal.{
  decimal, IsDigit, read_digits, print_int-decimal, read-decimal, decimal-All, decimal_cons,
}
use windrunner.TermState.{
  TermState, esc, apply, Csi, no_csi, csi_byte, last_params, csi_loop, observe_from, span, flag,
}

-- Bytes that `index` has been moved past are not read.
pub observe_from-skip :
    (xs rest : Bytes) (t : TermState)
    → observe_from (length xs) t (xs ++ rest) ≡ observe_from 0 t rest
unfolding observe_from
observe_from-skip [] rest t = refl
observe_from-skip (x ∷ xs) rest t = observe_from-skip xs rest t

-- A CSI sequence that `observeCSI` reads whole.
pub observe_from-csi :
    (body rest : Bytes) (t t' : TermState)
    → csi_loop t 0 no_csi (body ++ rest) ≡ (t', length body)
    → observe_from 0 t (esc ∷ b'[' ∷ (body ++ rest)) ≡ observe_from 0 t' rest
unfolding observe_from
observe_from-csi body rest t t' e = rw (e, observe_from) (observe_from-skip body rest t')

abbrev holding : Csi → ℕ → Csi
holding v n = record v { current = n; has_current = true }

csi_loop_digit :
    (c : ℕ) (rest : Bytes) (t : TermState) (index : ℕ) (v : Csi)
    → IsDigit c
    → csi_loop t index v (c ∷ rest)
      ≡ csi_loop t (suc index) (holding v ((v.current * 10 + (c - b'0')) % 2 ^ 64)) rest
unfolding csi_loop csi_byte
csi_loop_digit c rest t index v h = ground arith

-- A run of digits is read into `current`.
csi_loop_digits :
    (c : ℕ) (ds rest : Bytes) (t : TermState) (index : ℕ) (v : Csi)
    → All IsDigit (c ∷ ds)
    → csi_loop t index v (c ∷ (ds ++ rest))
      ≡ csi_loop t (suc index + length ds) (holding v (read_digits v.current (c ∷ ds))) rest
csi_loop_digits c [] rest t index v h =
    csi_loop_digit c rest t index v h.0
    ∙ ap (λ (i : ℕ). csi_loop t i (holding v (read_digits v.current (c ∷ []))) rest) (omega arith)
csi_loop_digits c (d ∷ ds) rest t index v h =
    csi_loop_digit c (d ∷ (ds ++ rest)) t index v h.0
    ∙ csi_loop_digits d ds rest t (suc index) _ h.1
    ∙ ap (λ (i : ℕ). csi_loop t i (holding v (read_digits v.current (c ∷ d ∷ ds))) rest)
        (omega arith)

-- A printed number is read into `current`.
csi_loop-decimal :
    (n : ℕ) (rest : Bytes) (t : TermState) (index : ℕ) (v : Csi)
    → n < 2 ^ 64
    → v.current ≡ 0
    → csi_loop t index v (decimal n ++ rest)
      ≡ csi_loop t (index + length (decimal n)) (holding v n) rest
csi_loop-decimal n rest t index v fits start =
    let (c, ds, e) = decimal_cons n in
    rw e (
      csi_loop_digits c ds rest t index v (subst (All IsDigit) e (decimal-All n))
      ∙ ap₂ (λ (i m : ℕ). csi_loop t i (holding v m) rest) (omega arith)
          (ap (λ (z : ℕ). read_digits z (c ∷ ds)) start
            ∙ ap (read_digits 0) (sym e)
            ∙ read-decimal n fits))

csi_loop_separator :
    (rest : Bytes) (t : TermState) (index : ℕ) (v : Csi)
    → csi_loop t index v (b';' ∷ rest)
      ≡ csi_loop t
          (suc index)
          (record v { params = v.params ++ v.current ∷ []; current = 0; has_current = false })
          rest
unfolding csi_loop csi_byte
csi_loop_separator rest t index v = refl

csi_loop_final :
    (b : ℕ) (rest : Bytes) (t : TermState) (index : ℕ) (v : Csi)
    → 0x40 ≤ b
    → b ≤ 0x7e
    → csi_loop t index v (b ∷ rest)
      ≡ (apply t v.private v.intermediates (last_params v) b, suc index)
unfolding csi_loop csi_byte
csi_loop_final b rest t index v lo hi = ground arith

module _ (a b final : ℕ) where
  span_body : Bytes
  span_body = decimal a ++ b';' ∷ (decimal b ++ final ∷ [])

  csi_loop-span :
      (rest : Bytes) (t : TermState)
      → a < 2 ^ 63
      → b < 2 ^ 63
      → 0x40 ≤ final
      → final ≤ 0x7e
      → csi_loop t 0 no_csi (span_body ++ rest)
        ≡ (apply t false [] (a ∷ b ∷ []) final, length span_body)
  unfolding span_body
  csi_loop-span rest t fa fb lo hi =
      let v = record no_csi { params = a ∷ [] } in
      let k = length (decimal a) in
      rw (append_assoc (decimal a) (b';' ∷ (decimal b ++ final ∷ [])) rest) (
        rw (append_assoc (decimal b) (final ∷ []) rest) (
          csi_loop-decimal a _ t 0 no_csi (omega arith) refl
          ∙ csi_loop_separator _ t (0 + k) (holding no_csi a)
          ∙ csi_loop-decimal b _ t (suc (0 + k)) v (omega arith) refl
          ∙ csi_loop_final final rest t (suc (0 + k) + length (decimal b)) (holding v b) lo hi
          ∙ ap (λ (i : ℕ). (apply t false [] (a ∷ b ∷ []) final, i))
              (omega (
                arith,
                length-append (decimal a) (b';' ∷ (decimal b ++ final ∷ [])),
                length-append (decimal b) (final ∷ []),
              ))))

  -- `observe` applies a sequence of two numbers with those numbers.
  pub observe-span :
      (rest : Bytes) (t : TermState)
      → a < 2 ^ 63
      → b < 2 ^ 63
      → 0x40 ≤ final
      → final ≤ 0x7e
      → observe_from 0 t (span a b final ++ rest)
        ≡ observe_from 0 (apply t false [] (a ∷ b ∷ []) final) rest
  unfolding span span_body
  observe-span rest t fa fb lo hi =
      rw (print_int-decimal a fa, print_int-decimal b fb)
        (observe_from-csi span_body rest t (apply t false [] (a ∷ b ∷ []) final)
          (csi_loop-span rest t fa fb lo hi))

abbrev pub set_final : Bool → ℕ
set_final set = if set then b'h' else b'l'

module _ (mode : ℕ) (set : Bool) where
  flag_body : Bytes
  flag_body = b'?' ∷ (decimal mode ++ set_final set ∷ [])

  csi_loop-private :
      (rest : Bytes) (t : TermState)
      → csi_loop t 0 no_csi (b'?' ∷ rest) ≡ csi_loop t 1 (record no_csi { private = true }) rest
  unfolding csi_loop csi_byte
  csi_loop-private rest t = refl

  csi_loop-flag :
      (rest : Bytes) (t : TermState)
      → mode < 2 ^ 63
      → csi_loop t 0 no_csi (flag_body ++ rest)
        ≡ (apply t true [] (mode ∷ []) (set_final set), length flag_body)
  unfolding flag_body
  csi_loop-flag rest t fits =
      let v = record no_csi { private = true } in
      rw (append_assoc (decimal mode) (set_final set ∷ []) rest) (
        csi_loop-private _ t
        ∙ csi_loop-decimal mode _ t 1 v (omega arith) refl
        ∙ csi_loop_final (set_final set) rest t (1 + length (decimal mode)) (holding v mode)
            (ground arith) (ground arith)
        ∙ ap (λ (i : ℕ). (apply t true [] (mode ∷ []) (set_final set), i))
            (omega (arith, length-append (decimal mode) (set_final set ∷ []))))

  -- `observe` applies a mode switch with its mode.
  pub observe-flag :
      (rest : Bytes) (t : TermState)
      → mode < 2 ^ 63
      → observe_from 0 t (flag mode set ++ rest)
        ≡ observe_from 0 (apply t true [] (mode ∷ []) (set_final set)) rest
  unfolding flag flag_body
  observe-flag rest t fits = rw (print_int-decimal mode fits) (
      observe_from-csi flag_body rest t (apply t true [] (mode ∷ []) (set_final set))
        (csi_loop-flag rest t fits))
