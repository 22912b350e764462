-- ===== src/TermState/Replay.antt =====
-- `replay` against `observe`.
use windrunner.Prelude.{
  ℕ, ◌^◌, ◌≤◌, ◌<◌, ◌≡◌, refl, ap, ◌∙◌, Bool, true, false, not, ◌&&◌, ◌||◌, ◌⊎◌, inl, inr, Bytes,
  [], ◌∷◌, ◌++◌, append_assoc, ltb, if◌then◌else◌, arith,
}
use windrunner.Prelude.Word.{int_ltb}
use windrunner.TermState.Sequences.{observe-span, observe-flag, set_final}
use windrunner.TermState.{
  TermState, initial, apply, set_mode, observe_from, observe, span, flag, replay,
}

-- No margins, or two that are in order and positive as an `int`.
abbrev pub IsMargin : ℕ → ℕ → Type 0
IsMargin a b = ((a ≡ 0) × (b ≡ 0)) ⊎ ((1 ≤ a) × (a < b) × (b < 2 ^ 63))

-- What `observe` keeps up: margins in order, and none for columns while DECLRMM is off.
pub record IsWellFormed (t : TermState) : Type 0 where
  pub rows : IsMargin t.top t.bottom
  pub columns : IsMargin t.left t.right
  pub no_columns : t.lr_enabled ≡ false → t.left ≡ 0

-- A terminal in state `r` behind the sequences of `replay t`.
abbrev pub replayed : TermState → TermState → TermState
replayed r t = record {
  top = if ltb 0 t.top then t.top else r.top;
  bottom = if ltb 0 t.top then t.bottom else r.bottom;
  lr_enabled = t.lr_enabled || r.lr_enabled;
  left = if t.lr_enabled && ltb 0 t.left then t.left else r.left;
  right = if t.lr_enabled && ltb 0 t.left then t.right else r.right;
  origin = t.origin || r.origin;
  autowrap_off = t.autowrap_off;
  cursor_hide = t.cursor_hide;
  alt = r.alt;
}

apply-flag :
    (r : TermState) (mode : ℕ) (set : Bool)
    → apply r true [] (mode ∷ []) (set_final set) ≡ set_mode r set mode
unfolding apply
apply-flag r mode true = refl
apply-flag r mode false = refl

apply-span :
    (r : TermState) (a b : ℕ)
    → 1 ≤ a
    → a < b
    → b < 2 ^ 63
    → (apply r false [] (a ∷ b ∷ []) b'r' ≡ record r { top = a; bottom = b })
      × (r.lr_enabled ≡ true
          → apply r false [] (a ∷ b ∷ []) b's' ≡ record r { left = a; right = b })
unfolding apply
apply-span r a b pos order fits = (ground arith, λ on. ground arith)

margin_tests : (a b : ℕ) → 1 ≤ a → a < b → b < 2 ^ 63 → (int_ltb 0 a ≡ true) × (ltb 0 a ≡ true)
margin_tests a b pos order fits = (ground arith, ground arith)

-- One piece of `replay` behind another.
module _ (rest : Bytes) (r : TermState) where
  observe-mode :
      (mode : ℕ) (set : Bool)
      → mode < 2 ^ 63
      → observe_from 0 r (flag mode set ++ rest) ≡ observe_from 0 (set_mode r set mode) rest
  observe-mode mode set fits =
      observe-flag mode set rest r fits
      ∙ ap (λ (t : TermState). observe_from 0 t rest) (apply-flag r mode set)

  observe-wrap :
      (off : Bool)
      → observe_from 0 r (flag 7 (not off) ++ rest)
        ≡ observe_from 0 (record r { autowrap_off = off }) rest
  unfolding set_mode
  observe-wrap true = observe-mode 7 false (omega arith)
  observe-wrap false = observe-mode 7 true (omega arith)

  observe-cursor :
      (hidden : Bool)
      → observe_from 0 r (flag 25 (not hidden) ++ rest)
        ≡ observe_from 0 (record r { cursor_hide = hidden }) rest
  unfolding set_mode
  observe-cursor true = observe-mode 25 false (omega arith)
  observe-cursor false = observe-mode 25 true (omega arith)

  observe-rows :
      (a b : ℕ)
      → IsMargin a b
      → observe_from 0 r ((if int_ltb 0 a then span a b b'r' else []) ++ rest)
        ≡ observe_from 0
            (record r {
              top = if ltb 0 a then a else r.top;
              bottom = if ltb 0 a then b else r.bottom;
            })
            rest
  observe-rows a b (inl (none_top, _)) = rw none_top refl
  observe-rows a b (inr (pos, order, fits)) = rw (margin_tests a b pos order fits).0 (
      rw (margin_tests a b pos order fits).1 (
        observe-span a b b'r' rest r (omega arith) fits (omega arith) (omega arith)
        ∙ ap (λ (t : TermState). observe_from 0 t rest) (apply-span r a b pos order fits).0))

  observe-left :
      (a b : ℕ)
      → IsMargin a b
      → r.lr_enabled ≡ true
      → observe_from 0 r ((if int_ltb 0 a then span a b b's' else []) ++ rest)
        ≡ observe_from 0
            (record r {
              left = if ltb 0 a then a else r.left;
              right = if ltb 0 a then b else r.right;
            })
            rest
  observe-left a b (inl (none_left, _)) on = rw none_left refl
  observe-left a b (inr (pos, order, fits)) on = rw (margin_tests a b pos order fits).0 (
      rw (margin_tests a b pos order fits).1 (
        observe-span a b b's' rest r (omega arith) fits (omega arith) (omega arith)
        ∙ ap (λ (t : TermState). observe_from 0 t rest) ((apply-span r a b pos order fits).1 on)))

  observe-origin :
      (set : Bool)
      → observe_from 0 r ((if set then flag 6 true else []) ++ rest)
        ≡ observe_from 0 (record r { origin = set || r.origin }) rest
  unfolding set_mode
  observe-origin true = observe-mode 6 true (omega arith)
  observe-origin false = refl

observe-columns :
    (rest : Bytes) (r : TermState) (on : Bool) (a b : ℕ)
    → IsMargin a b
    → observe_from 0 r
        ((if on then flag 69 true ++ (if int_ltb 0 a then span a b b's' else []) else []) ++ rest)
      ≡ observe_from 0
          (record r {
            lr_enabled = on || r.lr_enabled;
            left = if on && ltb 0 a then a else r.left;
            right = if on && ltb 0 a then b else r.right;
          })
          rest
unfolding set_mode
observe-columns rest r true a b m =
    rw (append_assoc (flag 69 true) (if int_ltb 0 a then span a b b's' else []) rest) (
      observe-mode _ r 69 true (omega arith)
      ∙ observe-left rest (record r { lr_enabled = true }) a b m refl)
observe-columns rest r false a b m = refl

-- On any terminal, `replay t` sets the modes of `t`, and its margins and flags where `t` has them.
pub observe-replay-on :
    (r t : TermState) (rest : Bytes)
    → IsWellFormed t
    → observe_from 0 r (replay t ++ rest) ≡ observe_from 0 (replayed r t) rest
unfolding replay set_mode
observe-replay-on r t rest w =
    let r₁ = record r { autowrap_off = t.autowrap_off } in
    let r₂ = record r₁ { cursor_hide = t.cursor_hide } in
    let r₃ : TermState = record r₂ {
      lr_enabled = t.lr_enabled || r.lr_enabled;
      left = if t.lr_enabled && ltb 0 t.left then t.left else r.left;
      right = if t.lr_enabled && ltb 0 t.left then t.right else r.right;
    } in
    let r₄ : TermState = record r₃ {
      top = if ltb 0 t.top then t.top else r.top;
      bottom = if ltb 0 t.top then t.bottom else r.bottom;
    } in
    simp append_assoc (
      observe-wrap _ r t.autowrap_off
      ∙ observe-cursor _ r₁ t.cursor_hide
      ∙ observe-columns _ r₂ t.lr_enabled t.left t.right w.columns
      ∙ observe-rows _ r₃ t.top t.bottom w.rows
      ∙ observe-origin rest r₄ t.origin)

pub observe-alt :
    (set : Bool) (rest : Bytes)
    → observe_from 0 initial ((if set then flag 1049 true else []) ++ rest)
      ≡ observe_from 0 (record initial { alt = set }) rest
unfolding set_mode
observe-alt true rest = observe-mode rest initial 1049 true (omega arith)
observe-alt false rest = refl

-- A fresh terminal that is sent the switch to the alternate screen, if it is in use, and then the
-- replay of a well-formed state, observes what that state observes: it is in the state.
pub observe-replay :
    (t : TermState) (rest : Bytes)
    → IsWellFormed t
    → observe initial ((if t.alt then flag 1049 true else []) ++ (replay t ++ rest))
      ≡ observe t rest
unfolding observe
observe-replay t rest w =
    observe-alt t.alt (replay t ++ rest)
    ∙ observe-replay-on (record initial { alt = t.alt }) t rest w
    ∙ ap (λ (s : TermState). observe_from 0 s rest) (ground (arith, w.no_columns))

-- A terminal in a well-formed state that is sent its own replay stays in the state.
pub observe-replay_again :
    (t : TermState) (rest : Bytes) → IsWellFormed t → observe t (replay t ++ rest) ≡ observe t rest
unfolding observe
observe-replay_again t rest w =
    observe-replay-on t t rest w
    ∙ ap (λ (s : TermState). observe_from 0 s rest) (ground (arith, w.no_columns))
