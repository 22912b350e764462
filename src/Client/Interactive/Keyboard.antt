-- ===== src/Client/Interactive/Keyboard.antt =====
-- client/interactive.go: what of the keyboard's input goes to the session.
use windrunner.Prelude.{
  ℕ, ◌==◌, ◌≡◌, refl, sym, ◌∙◌, Bool, true, false, Bytes, List, [], ◌∷◌, ◌++◌, append-nil, ◌||◌,
  inl, inr, Bool-cases, if◌then◌else◌, arith,
}
use windrunner.Boundary.Stream.{joined}
use windrunner.Json.Struct.{is_empty}
use windrunner.Client.Interactive.{until_key, sends, keyboard}

-- The input in front of the first detach key.
unfoldable pub before_key : ℕ → Bytes → Bytes
before_key key [] = []
before_key key (c ∷ s) = if c == key then [] else c ∷ before_key key s

-- What is read up to the first chunk that `Write` fails on, which is in it.
unfoldable pub up_to_failure : List (Bytes × Bool) → Bytes
up_to_failure [] = []
up_to_failure (([], written) ∷ reads) = up_to_failure reads
up_to_failure ((c ∷ chunk, written) ∷ reads) =
    (c ∷ chunk) ++ (if written then up_to_failure reads else [])

before_key-append :
    (key : ℕ) (chunk s : Bytes)
    → before_key key (chunk ++ s) ≡ (
        if (until_key key chunk).1
        then (until_key key chunk).0 ++ before_key key s
        else (until_key key chunk).0)
unfolding before_key until_key
before_key-append key [] s = refl
before_key-append key (c ∷ chunk) s = ground (arith, before_key-append key chunk s)

joined-sends :
    (p : Bytes × Bool) (written : Bool) (later : List Bytes)
    → joined (sends p written later)
      ≡ (if p.1 then p.0 ++ (if written || is_empty p.0 then joined later else []) else p.0)
unfolding sends
joined-sends ([], true) true later = refl
joined-sends ([], true) false later = refl
joined-sends (c ∷ front, true) true later = refl
joined-sends (c ∷ front, true) false later = refl
joined-sends ([], false) written later = refl
joined-sends (c ∷ front, false) written later = append-nil (c ∷ front)

whole_if_on :
    (key : ℕ) (chunk : Bytes) → (until_key key chunk).1 ≡ true → (until_key key chunk).0 ≡ chunk
unfolding until_key
whole_if_on key [] on = refl
whole_if_on key (c ∷ chunk) on = ground (arith, whole_if_on key chunk)

nonempty_read :
    (key c : ℕ) (chunk : Bytes) (written : Bool) (sent rest : Bytes)
    → sent ≡ before_key key rest
    → let p = until_key key (c ∷ chunk) in
      (if p.1 then p.0 ++ (if written || is_empty p.0 then sent else []) else p.0)
      ≡ (if p.1 then p.0 ++ before_key key (if written then rest else []) else p.0)
unfolding before_key
nonempty_read key c chunk written sent rest same = elim (Bool-cases (until_key key (c ∷ chunk)).1) [
  | inl on ↦ ground (arith, same, whole_if_on key (c ∷ chunk) on)
  | inr off ↦ rw off refl
]

-- However the input from the keyboard is cut into reads, Interactive hands to Write just the bytes
-- in front of the first detach key, in order, of what it has read up to the first chunk that Write
-- fails on.
pub joined-keyboard :
    (key : ℕ) (reads : List (Bytes × Bool))
    → joined (keyboard key reads) ≡ before_key key (up_to_failure reads)
unfolding keyboard before_key up_to_failure until_key sends
joined-keyboard key [] = refl
joined-keyboard key (([], written) ∷ reads) = joined-keyboard key reads
joined-keyboard key ((c ∷ chunk, written) ∷ reads) =
    joined-sends (until_key key (c ∷ chunk)) written (keyboard key reads)
    ∙ nonempty_read key c chunk written (joined (keyboard key reads)) (up_to_failure reads)
        (joined-keyboard key reads)
    ∙ sym (before_key-append key (c ∷ chunk) (if written then up_to_failure reads else []))
