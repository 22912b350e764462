-- ===== src/TermState.antt =====
-- termstate.go: the shadow of the emulator's modes and margins. `observe` reads output, `replay`
-- writes the sequences that bring a fresh terminal to the same state.
pub mod Sequences
pub mod Replay
pub mod WellFormed
pub mod Settings
use windrunner.Prelude.{
  ℕ, zero, suc, ◌+◌, ◌-◌, ◌*◌, ◌%◌, ◌^◌, Bool, true, false, not, ◌&&◌, ◌||◌, Bytes, List, [], ◌∷◌,
  ◌++◌, codes, ltb, leb, ◌==◌, length, if◌then◌else◌,
}
use windrunner.Prelude.Decimal.{print_int}
use windrunner.Prelude.Word.{int_ltb, int_leb}

pub record TermState : Type 0 where
  pub top : ℕ
  pub bottom : ℕ
  pub lr_enabled : Bool
  pub left : ℕ
  pub right : ℕ
  pub origin : Bool
  pub autowrap_off : Bool
  pub cursor_hide : Bool
  pub alt : Bool

-- `termState{}`
abbrev pub initial : TermState
initial = record {
  top = 0;
  bottom = 0;
  lr_enabled = false;
  left = 0;
  right = 0;
  origin = false;
  autowrap_off = false;
  cursor_hide = false;
  alt = false;
}

abbrev pub esc : ℕ
esc = 0x1b

set_mode : TermState → Bool → ℕ → TermState
set_mode t set mode =
    if mode == 6
    then record t { origin = set }
    else if mode == 7
    then record t { autowrap_off = not set }
    else if mode == 25
    then record t { cursor_hide = not set }
    else if mode == 47 || mode == 1047 || mode == 1049
    then record t { alt = set }
    else if mode == 69
    then (if set
        then record t { lr_enabled = true }
        else record t { lr_enabled = false; left = 0; right = 0 })
    else t

-- `for _, mode := range params`
set_modes : TermState → Bool → List ℕ → TermState
set_modes t set [] = t
set_modes t set (mode ∷ modes) = set_modes (set_mode t set mode) set modes

-- The new margins of DECSTBM and DECSLRM: two parameters in order, or else none.
margins : List ℕ → ℕ × ℕ
margins (a ∷ b ∷ _) = if int_leb 1 a && int_ltb a b then (a, b) else (0, 0)
margins _ = (0, 0)

abbrev set_rows : TermState → ℕ × ℕ → TermState
set_rows t (a, b) = record t { top = a; bottom = b }

abbrev set_columns : TermState → ℕ × ℕ → TermState
set_columns t (a, b) = record t { left = a; right = b }

-- `len(intermediates) == 1 && intermediates[0] == '!' && final == 'p'`
is_soft_reset : Bytes → ℕ → Bool
is_soft_reset (b ∷ []) final = b == b'!' && final == b'p'
is_soft_reset _ final = false

abbrev is_empty : Bytes → Bool
is_empty [] = true
is_empty (b ∷ bs) = false

unfoldable pub apply : TermState → Bool → Bytes → List ℕ → ℕ → TermState
unfolding set_mode set_modes margins is_soft_reset
apply t private intermediates params final =
    if is_soft_reset intermediates final
    then initial
    else if not (is_empty intermediates)
    then t
    else if not private && final == b'r'
    then set_rows t (margins params)
    else if not private && final == b's' && t.lr_enabled
    then set_columns t (margins params)
    else if private && (final == b'h' || final == b'l')
    then set_modes t (final == b'h') params
    else t

-- The local variables of `observeCSI`.
pub record Csi : Type 0 where
  pub private : Bool
  pub params : List ℕ
  pub current : ℕ
  pub has_current : Bool
  pub intermediates : Bytes

abbrev pub no_csi : Csi
no_csi = record {
  private = false;
  params = [];
  current = 0;
  has_current = false;
  intermediates = [];
}

-- What one byte does: the loop goes on, the sequence is whole, or it is given up.
pub data Next : Type 0 where
  more : Csi → Next
  whole : Next
  stop : Next

unfoldable pub csi_byte : ℕ → Csi → ℕ → Next
csi_byte index v b =
    if b == b'?' && index == 0
    then more (record v { private = true })
    else if leb b'0' b && leb b b'9'
    then more (record v { current = (v.current * 10 + (b - b'0')) % 2 ^ 64; has_current = true })
    else if b == b';'
    then more (record v { params = v.params ++ v.current ∷ []; current = 0; has_current = false })
    else if leb 0x20 b && leb b 0x2f
    then more (record v { intermediates = v.intermediates ++ b ∷ [] })
    else if leb 0x40 b && leb b 0x7e
    then whole
    else stop

abbrev last_params : Csi → List ℕ
last_params v = if v.has_current then v.params ++ v.current ∷ [] else v.params

-- The loop of `observeCSI` from `index` on; the count is of all bytes read, from index 0.
unfoldable pub csi_loop : TermState → ℕ → Csi → Bytes → TermState × ℕ
csi_loop t index v [] = (t, index)
csi_loop t index v (b ∷ rest) = elim (csi_byte index v b) [
  | more v' ↦ csi_loop t (suc index) v' rest
  | whole ↦ (apply t v.private v.intermediates (last_params v) b, suc index)
  | stop ↦ (t, suc index)
]

unfoldable pub observe_csi : TermState → Bytes → TermState × ℕ
unfolding csi_loop
observe_csi t rest = csi_loop t 0 no_csi rest

after_csi : TermState × ℕ → TermState × ℕ
after_csi (t, consumed) = (t, suc consumed)

-- The body of the loop of `observe` at an ESC, with the bytes behind it: the new state, and by how
-- much `index` is moved on.
observe_escape : TermState → Bytes → TermState × ℕ
unfolding observe_csi after_csi
observe_escape t [] = (t, 0)
observe_escape t (c ∷ rest) =
    if c == b'c' then (initial, 1) else if c == b'[' then after_csi (observe_csi t rest) else (t, 0)

-- The loop of `observe`. `skip` counts the bytes that `index` has been moved past already.
unfoldable pub observe_from : ℕ → TermState → Bytes → TermState
unfolding observe_escape
observe_from skip t [] = t
observe_from (suc skip) t (b ∷ rest) = observe_from skip t rest
observe_from zero t (b ∷ rest) =
    let seen = observe_escape t rest in
    elim (b == esc) [ true ↦ observe_from seen.1 seen.0 rest | false ↦ observe_from 0 t rest ]

unfoldable pub observe : TermState → Bytes → TermState
unfolding observe_from
observe = observe_from 0

unfoldable pub resize : TermState → TermState
resize t = record t { top = 0; bottom = 0; left = 0; right = 0 }

-- `fmt.Sprintf("\x1b[?%d%c", mode, final)`
unfoldable pub flag : ℕ → Bool → Bytes
flag mode set = esc ∷ b'[' ∷ b'?' ∷ (print_int mode ++ (if set then b'h' else b'l') ∷ [])

-- `fmt.Sprintf("\x1b[%d;%d…", a, b)`
unfoldable pub span : ℕ → ℕ → ℕ → Bytes
span a b final = esc ∷ b'[' ∷ (print_int a ++ b';' ∷ (print_int b ++ final ∷ []))

unfoldable pub replay : TermState → Bytes
replay t =
    flag 7 (not t.autowrap_off)
    ++ (flag 25 (not t.cursor_hide)
        ++ ((if t.lr_enabled
              then flag 69 true ++ (if int_ltb 0 t.left then span t.left t.right b's' else [])
              else [])
            ++ ((if int_ltb 0 t.top then span t.top t.bottom b'r' else [])
                ++ (if t.origin then flag 6 true else []))))
