-- ===== src/Json/Struct.antt =====
-- Unmarshal of an object into a struct: keys match without regard to case, the first error is kept
-- and does not stop the rest, and null leaves a field alone that is no pointer, slice or map.
use windrunner.Prelude.{
  ℕ, ◌+◌, ◌^◌, Bool, true, false, ◌&&◌, Bytes, List, [], ◌∷◌, Option, none, some, ltb, leb, equal,
  ◌==◌, if◌then◌else◌,
}
use windrunner.Prelude.Int.{ℤ, pos, negsuc}
use windrunner.Json.{
  Json, null, bool, num, str, arr, obj, Items, no_items, item, Members, no_members, member,
  JsonError, mismatch, unknown_field,
}

abbrev lower : ℕ → ℕ
lower c = if leb b'A' c && leb c b'Z' then c + 32 else c

-- A key as it is compared: ASCII letters in lower case, and the long s (in two bytes) and the Kelvin
-- sign (in three) as the letters that they fold to.
unfoldable pub fold_key : Bytes → Bytes
fold_key [] = []
fold_key (c ∷ []) = lower c ∷ []
fold_key (c ∷ d ∷ []) = elim (c == 0xc5 && d == 0xbf) [
  | true ↦ b's' ∷ []
  | false ↦ lower c ∷ fold_key (d ∷ [])
]
fold_key (c ∷ d ∷ e ∷ t) = elim (c == 0xc5 && d == 0xbf) [
  | true ↦ b's' ∷ fold_key (e ∷ t)
  | false ↦ elim (c == 0xe2 && (d == 0x84 && e == 0xaa)) [
    | true ↦ b'k' ∷ fold_key t
    | false ↦ lower c ∷ fold_key (d ∷ e ∷ t)
  ]
]

-- A field of a struct: the name of its tag, and what a value does to it; `false` is a mismatch.
pub record Field {ℓ} (R : Type ℓ) : Type ℓ where
  pub name : Bytes
  pub set : Json → R → R × Bool

unfoldable pub keep_first : Option JsonError → JsonError → Option JsonError
keep_first none error = some error
keep_first (some first) error = some first

module _ {ℓ} {R : Type ℓ} where
  unfoldable pub lookup : Bytes → List (Field R) → Option (Field R)
  unfolding fold_key
  lookup key [] = none
  lookup key (field ∷ fields) =
      if equal (fold_key key) (fold_key field.name) then some field else lookup key fields

  unfoldable pub assign : Field R → Json → R × Option JsonError → R × Option JsonError
  unfolding keep_first
  assign field j (r, error) =
      let (r', fits) = field.set j r in (r', if fits then error else keep_first error mismatch)

  -- One member of the object; `strict` is DisallowUnknownFields.
  unfoldable pub take_member :
      Bool → List (Field R) → Bytes → Json → R × Option JsonError → R × Option JsonError
  unfolding lookup assign keep_first
  take_member strict fields key j (r, error) = elim (lookup key fields) [
    | none ↦ (r, if strict then keep_first error (unknown_field key) else error)
    | some field ↦ assign field j (r, error)
  ]

  unfoldable pub take_members :
      Bool → List (Field R) → Members → R × Option JsonError → R × Option JsonError
  unfolding take_member
  take_members strict fields no_members state = state
  take_members strict fields (member key j rest) state =
      take_members strict fields rest (take_member strict fields key j state)

  unfoldable pub into_struct :
      Bool → List (Field R) → Json → R × Option JsonError → R × Option JsonError
  unfolding take_members keep_first
  into_struct strict fields null state = state
  into_struct strict fields (obj rest) state = take_members strict fields rest state
  into_struct strict fields _ (r, error) = (r, keep_first error mismatch)

-- The values that fields take.
abbrev pub is_int64 : ℤ → Bool
is_int64 (pos n) = ltb n (2 ^ 63)
is_int64 (negsuc n) = ltb n (2 ^ 63)

pub data Value {ℓ} (A : Type ℓ) : Type ℓ where
  absent wrong : Value A
  given : A → Value A

unfoldable pub to_int : Json → Value ℤ
to_int null = absent
to_int (num z) = if is_int64 z then given z else wrong
to_int _ = wrong

unfoldable pub to_uint64 : Json → Value ℕ
to_uint64 null = absent
to_uint64 (num (pos n)) = if ltb n (2 ^ 64) then given n else wrong
to_uint64 _ = wrong

unfoldable pub to_bool : Json → Value Bool
to_bool null = absent
to_bool (bool b) = given b
to_bool _ = wrong

unfoldable pub to_string : Json → Value Bytes
to_string null = absent
to_string (str s) = given s
to_string _ = wrong

-- An element that is null leaves the zero value.
unfoldable pub to_strings : Items → Option (List Bytes)
to_strings no_items = some []
to_strings (item (str s) rest) = elim (to_strings rest) [ none ↦ none | some ss ↦ some (s ∷ ss) ]
to_strings (item null rest) = elim (to_strings rest) [ none ↦ none | some ss ↦ some ([] ∷ ss) ]
to_strings (item _ rest) = none

-- A []string, where null is nil.
unfoldable pub to_list : Json → Value (Option (List Bytes))
unfolding to_strings
to_list null = given none
to_list (arr js) = elim (to_strings js) [ none ↦ wrong | some ss ↦ given (some ss) ]
to_list _ = wrong

-- A map with a new value for a key.
unfoldable pub put_key : Bytes → Bytes → List (Bytes × Bytes) → List (Bytes × Bytes)
put_key key value [] = (key, value) ∷ []
put_key key value ((k, x) ∷ rest) =
    if equal k key then (key, value) ∷ rest else (k, x) ∷ put_key key value rest

unfoldable pub to_map : Members → List (Bytes × Bytes) → Option (List (Bytes × Bytes))
unfolding put_key
to_map no_members map = some map
to_map (member key (str s) rest) map = to_map rest (put_key key s map)
to_map (member key null rest) map = to_map rest (put_key key [] map)
to_map (member key _ rest) map = none

-- The setter of a field by the value that it takes.
unfoldable pub setter {ℓ κ} :
    {R : Type ℓ} {A : Type κ} → (Json → Value A) → (R → A → R) → Json → R → R × Bool
setter read update j r = elim (read j) [
  | absent ↦ (r, true)
  | wrong ↦ (r, false)
  | given a ↦ (update r a, true)
]

-- What Marshal writes of a field with omitempty, in front of the fields behind it.
abbrev pub unless : Bool → Bytes → Json → Members → Members
unless empty name j rest = if empty then rest else member name j rest

abbrev pub is_empty {ℓ} : {A : Type ℓ} → List A → Bool
is_empty [] = true
is_empty (a ∷ rest) = false

abbrev pub strings : List Bytes → Items
strings [] = no_items
strings (s ∷ ss) = item (str s) (strings ss)

abbrev pub string_members : List (Bytes × Bytes) → Members
string_members [] = no_members
string_members ((key, s) ∷ rest) = member key (str s) (string_members rest)
