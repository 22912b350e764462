-- ===== src/TermState/Settings.antt =====
-- Bytes that only set modes and margins, and what `replay` writes as such.
use windrunner.Prelude.{
  ℕ, ◌≡◌, ◌⊎◌, inl, inr, refl, sym, ap, subst, ◌∙◌, Bool, true, false, not, Bytes, [], ◌++◌,
  append_assoc, append-nil, if◌then◌else◌, if_cases, arith,
}
use windrunner.Prelude.Word.{int_ltb}
use windrunner.TermState.{TermState, initial, observe_from, flag, span, replay}
use windrunner.TermState.Replay.{IsWellFormed, observe-replay-on}

-- Origin mode, autowrap, the visible cursor, and margins of columns: modes that touch no cell.
abbrev IsMode : ℕ → Type 0
IsMode n = (n ≡ 6) ⊎ (n ≡ 7) ⊎ (n ≡ 25) ⊎ (n ≡ 69)

-- DECSET and DECRST of these modes, and DECSTBM and DECSLRM.
pub data IsSettings : Bytes → Type 0 where
  nothing : IsSettings []
  mode :
      {bytes : Bytes} (n : ℕ) (set : Bool)
      → IsMode n
      → IsSettings bytes
      → IsSettings (flag n set ++ bytes)
  margins :
      {bytes : Bytes} (first last final : ℕ)
      → (final ≡ b'r') ⊎ (final ≡ b's')
      → IsSettings bytes
      → IsSettings (span first last final ++ bytes)

-- Sent to a terminal in the state `t`, the bytes leave it in the state `u`, whatever comes behind.
abbrev pub BringsTo : TermState → Bytes → TermState → Type 0
BringsTo t bytes u = (rest : Bytes) → observe_from 0 t (bytes ++ rest) ≡ observe_from 0 u rest

if_set :
    (b : Bool) (bytes rest : Bytes)
    → IsSettings rest
    → IsSettings (bytes ++ rest)
    → IsSettings ((if b then bytes else []) ++ rest)
if_set true bytes rest h k = k
if_set false bytes rest h k = h

pub replay-IsSettings : (t : TermState) → IsSettings (replay t)
unfolding replay
replay-IsSettings t =
    mode 7 (not t.autowrap_off) (inr (inl refl))
      (mode 25 (not t.cursor_hide) (inr (inr (inl refl))) columns)
  where
    region : IsSettings (if t.origin then flag 6 true else [])
    region =
        if_cases IsSettings t.origin _ _
          (λ _. subst IsSettings (append-nil (flag 6 true)) (mode 6 true (inl refl) nothing))
          (λ _. nothing)

    rows : IsSettings (
        (if int_ltb 0 t.top then span t.top t.bottom b'r' else [])
        ++ (if t.origin then flag 6 true else []))
    rows = if_set (int_ltb 0 t.top) _ _ region (margins t.top t.bottom b'r' (inl refl) region)

    inner : IsSettings (
        (if int_ltb 0 t.left then span t.left t.right b's' else [])
        ++ ((if int_ltb 0 t.top then span t.top t.bottom b'r' else [])
            ++ (if t.origin then flag 6 true else [])))
    inner = if_set (int_ltb 0 t.left) _ _ rows (margins t.left t.right b's' (inr refl) rows)

    columns : IsSettings (
        (if t.lr_enabled
          then flag 69 true ++ (if int_ltb 0 t.left then span t.left t.right b's' else [])
          else [])
        ++ ((if int_ltb 0 t.top then span t.top t.bottom b'r' else [])
            ++ (if t.origin then flag 6 true else [])))
    columns = if_set t.lr_enabled _ _ rows (
        subst IsSettings (sym (append_assoc (flag 69 true) _ _))
          (mode 69 true (inr (inr (inr refl))) inner))

pub replay-BringsTo :
    (t : TermState) → IsWellFormed t → BringsTo (record initial { alt = t.alt }) (replay t) t
replay-BringsTo t w rest =
    observe-replay-on (record initial { alt = t.alt }) t rest w
    ∙ ap (λ (s : TermState). observe_from 0 s rest) (ground (arith, w.no_columns))

pub replay-BringsTo_lifted :
    (t : TermState) → IsWellFormed t → BringsTo (record t { top = 0; bottom = 0 }) (replay t) t
replay-BringsTo_lifted t w rest =
    observe-replay-on (record t { top = 0; bottom = 0 }) t rest w
    ∙ ap (λ (s : TermState). observe_from 0 s rest) (ground (arith, w.rows, w.no_columns))
