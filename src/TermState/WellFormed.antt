-- ===== src/TermState/WellFormed.antt =====
-- `observe` keeps the margins in order, whatever bytes it reads.
use windrunner.Prelude.{
  ℕ, zero, suc, ◌≡◌, refl, Bool, not, ◌&&◌, ◌||◌, inl, inr, Bytes, List, [], ◌∷◌, ◌++◌, ◌==◌, arith,
  Bool-cases, if_cases, All, All-append,
}
use windrunner.Prelude.Word.{IsInt}
use windrunner.TermState.Replay.{IsWellFormed, IsMargin}
use windrunner.TermState.{
  TermState, initial, set_mode, set_modes, margins, is_soft_reset, apply, Csi, no_csi, more, whole,
  stop, Next, csi_byte, last_params, csi_loop, observe_escape, observe_from, observe, resize, esc,
}

pub initial-IsWellFormed : IsWellFormed initial
initial-IsWellFormed = record {
  rows = inl (refl, refl);
  columns = inl (refl, refl);
  no_columns = λ _. refl;
}

set_mode-IsWellFormed :
    (t : TermState) (set : Bool) (mode : ℕ) → IsWellFormed t → IsWellFormed (set_mode t set mode)
unfolding set_mode
set_mode-IsWellFormed t set mode w = ground (arith, w.no_columns)

set_modes-IsWellFormed :
    (t : TermState) (set : Bool) (modes : List ℕ)
    → IsWellFormed t
    → IsWellFormed (set_modes t set modes)
unfolding set_modes
set_modes-IsWellFormed t set [] w = w
set_modes-IsWellFormed t set (m ∷ ms) w =
    set_modes-IsWellFormed (set_mode t set m) set ms (set_mode-IsWellFormed t set m w)

margins-IsMargin : (ps : List ℕ) → All IsInt ps → IsMargin (margins ps).0 (margins ps).1
unfolding margins
margins-IsMargin [] h = inl (refl, refl)
margins-IsMargin (a ∷ []) h = inl (refl, refl)
margins-IsMargin (a ∷ b ∷ ps) h = ground arith

apply-IsWellFormed :
    (t : TermState) (private : Bool) (inter : Bytes) (params : List ℕ) (final : ℕ)
    → All IsInt params
    → IsWellFormed t
    → IsWellFormed (apply t private inter params final)
unfolding apply is_soft_reset
apply-IsWellFormed t private [] params final h w =
    if_cases IsWellFormed (not private && final == b'r') _ _
      (λ _. record {
        rows = margins-IsMargin params h;
        columns = w.columns;
        no_columns = w.no_columns;
      })
      λ _.
        if_cases IsWellFormed (not private && final == b's' && t.lr_enabled) _ _
          (λ on. record {
            rows = w.rows;
            columns = margins-IsMargin params h;
            no_columns = ground arith;
          })
          λ _.
            if_cases IsWellFormed (private && (final == b'h' || final == b'l')) _ _
              (λ _. set_modes-IsWellFormed t (final == b'h') params w) (λ _. w)
apply-IsWellFormed t private (b ∷ []) params final h w = ground (arith, initial-IsWellFormed, w)
apply-IsWellFormed t private (b ∷ c ∷ bs) params final h w = w

-- The parameters that `observeCSI` has read are in the range of an `int`.
record Bounded (v : Csi) : Type 0 where
  params_are : All IsInt v.params
  current_is : IsInt v.current

with_last-All : (v : Csi) → Bounded v → All IsInt (v.params ++ v.current ∷ [])
with_last-All v h = All-append IsInt v.params (v.current ∷ []) h.params_are (h.current_is, tt)

csi_byte-Bounded :
    (index : ℕ) (v : Csi) (b : ℕ) {v' : Csi} → Bounded v → csi_byte index v b ≡ more v' → Bounded v'
unfolding csi_byte
csi_byte-Bounded index v b h e = ground (arith, with_last-All v h)

csi_loop-IsWellFormed :
    (rest : Bytes) (t : TermState) (index : ℕ) (v : Csi)
    → Bounded v
    → IsWellFormed t
    → IsWellFormed (csi_loop t index v rest).0
unfolding csi_loop
csi_loop-IsWellFormed [] t index v h w = w
csi_loop-IsWellFormed (b ∷ rest) t index v h w =
    split (csi_byte index v b) refl (csi_loop-IsWellFormed rest t (suc index))
  where
    split :
        (n : Next)
        → csi_byte index v b ≡ n
        → ((v' : Csi)
            → Bounded v'
            → IsWellFormed t
            → IsWellFormed (csi_loop t (suc index) v' rest).0)
        → IsWellFormed (csi_loop t index v (b ∷ rest)).0
    split (more v') e later = rw (e, csi_loop) (later v' (csi_byte-Bounded index v b h e) w)
    split whole e later =
        rw (e, csi_loop)
          (apply-IsWellFormed t v.private v.intermediates (last_params v) b
            (ground (arith, with_last-All v h, h.params_are)) w)
    split stop e later = rw (e, csi_loop) w

observe_escape-IsWellFormed :
    (t : TermState) (rest : Bytes) → IsWellFormed t → IsWellFormed (observe_escape t rest).0
unfolding observe_escape
observe_escape-IsWellFormed t [] w = w
observe_escape-IsWellFormed t (c ∷ rest) w =
    if_cases (λ (r : TermState × ℕ). IsWellFormed r.0) (c == b'c') _ _ (λ _. initial-IsWellFormed)
      λ _.
        if_cases (λ (r : TermState × ℕ). IsWellFormed r.0) (c == b'[') _ _
          (λ _.
            csi_loop-IsWellFormed rest t 0 no_csi
              (record { params_are = tt; current_is = omega arith }) w)
          (λ _. w)

observe_from-IsWellFormed :
    (chunk : Bytes) (skip : ℕ) (t : TermState)
    → IsWellFormed t
    → IsWellFormed (observe_from skip t chunk)
unfolding observe_from
observe_from-IsWellFormed [] zero t w = w
observe_from-IsWellFormed [] (suc skip) t w = w
observe_from-IsWellFormed (b ∷ rest) (suc skip) t w = observe_from-IsWellFormed rest skip t w
observe_from-IsWellFormed (b ∷ rest) zero t w = elim (Bool-cases (b == esc)) [
  | inl hit ↦
      rw (hit, observe_from)
        (observe_from-IsWellFormed rest (observe_escape t rest).1 (observe_escape t rest).0
          (observe_escape-IsWellFormed t rest w))
  | inr miss ↦ rw (miss, observe_from) (observe_from-IsWellFormed rest 0 t w)
]

-- Whatever bytes a process writes, the tracked state stays well formed: margins are in order and
-- positive as a Go int, and there are none for columns while DECLRMM is off.
pub observe-IsWellFormed :
    (t : TermState) (chunk : Bytes) → IsWellFormed t → IsWellFormed (observe t chunk)
unfolding observe
observe-IsWellFormed t chunk w = observe_from-IsWellFormed chunk 0 t w

pub resize-IsWellFormed : (t : TermState) → IsWellFormed t → IsWellFormed (resize t)
unfolding resize
resize-IsWellFormed t w = record {
  rows = inl (refl, refl);
  columns = inl (refl, refl);
  no_columns = λ _. refl;
}
