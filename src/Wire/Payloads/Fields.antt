-- ===== src/Wire/Payloads/Fields.antt =====
-- One field of a payload behind the other, as Unmarshal takes what Marshal has written.
use windrunner.Prelude.{
  ◌≡◌, refl, sym, ap, subst, ◌∙◌, Bool, true, false, not, ◌&&◌, Bytes, List, [], ◌∷◌, none, some,
  ltb, arith,
}
use windrunner.Prelude.Int.{ℤ, pos, eqb_ℤ_iff}
use windrunner.Json.{
  Json, num, str, bool, obj, Members, no_members, member, Text, IsAscii, IsPlain, HasPlain, syntax,
}
use windrunner.Json.Laws.{HasPlain-unless, take-always, take-unless, take-given, setter-given}
use windrunner.Json.Struct.{
  Field, Value, wrong, given, setter, lookup, take_members, into_struct, unless, is_empty, to_int,
  to_bool, to_string, is_int64,
}
use windrunner.Wire.Payloads.{is_zero, to_bytes, marshal, unmarshal}

-- A Go int.
abbrev pub IsInt64 : ℤ → Type 0
IsInt64 z = is_int64 z ≡ true

-- The members of an object turn `r` into `q`, without an error.
pub record Takes {ℓ} {R : Type ℓ} (strict : Bool) (fields : List (Field R)) (ms : Members) (r q : R)
    : Type ℓ where
  pub plain : HasPlain ms
  pub taken : take_members strict fields ms (r, none) ≡ (q, none)

-- The field that a key stands for, and one with a setter.
pub record FindsField {ℓ} {R : Type ℓ} (fields : List (Field R)) (key : Bytes) (field : Field R)
    : Type ℓ where
  pub ascii : IsAscii key
  pub found : lookup key fields ≡ some field

pub record Finds {ℓ κ} {R : Type ℓ} {A : Type κ} (fields : List (Field R)) (key : Bytes)
    (read : Json → Value A) (update : R → A → R) : Type (ℓ ⊔ κ) where
  pub ascii : IsAscii key
  pub found : lookup key fields ≡ some (record { name = key; set = setter read update })

abbrev pub is_ascii : Bytes → Bool
is_ascii [] = true
is_ascii (c ∷ s) = ltb c 128 && is_ascii s

is_ascii-IsAscii : (s : Bytes) → is_ascii s ≡ true → IsAscii s
is_ascii-IsAscii [] h = tt
is_ascii-IsAscii (c ∷ s) h = (ground arith, is_ascii-IsAscii s (ground arith))

pub finds {ℓ κ} :
    {R : Type ℓ} {A : Type κ} {fields : List (Field R)} {key : Bytes} {read : Json → Value A}
    {update : R → A → R}
    → lookup key fields ≡ some (record { name = key; set = setter read update })
    → is_ascii key ≡ true
    → Finds fields key read update
finds found ascii = record { ascii = is_ascii-IsAscii _ ascii; found = found }

pub finds-field {ℓ} :
    {R : Type ℓ} {fields : List (Field R)} {key : Bytes} {field : Field R}
    → lookup key fields ≡ some field
    → is_ascii key ≡ true
    → FindsField fields key field
finds-field found ascii = record { ascii = is_ascii-IsAscii _ ascii; found = found }

pub unmarshal-marshal {ℓ} :
    {R : Type ℓ} (text : Text) (strict : Bool) (fields : List (Field R)) (ms : Members) (r q : R)
    → Takes strict fields ms r q
    → unmarshal text strict fields (marshal text ms) r ≡ (q, none)
unfolding unmarshal into_struct
unmarshal-marshal text strict fields ms r q takes =
    ap (λ o. elim o [ none ↦ (r, some syntax) | some j ↦ into_struct strict fields j (r, none) ])
      (text.parse-print (obj ms) takes.plain)
    ∙ takes.taken

pub is_empty_nil {ℓ} : {A : Type ℓ} (l : List A) → is_empty l ≡ true → l ≡ []
is_empty_nil [] h = refl
is_empty_nil (a ∷ l) h = cc

is_false : (b : Bool) → not b ≡ true → b ≡ false
is_false b h = ground arith

to_bytes-base64 : (text : Text) (s : Bytes) → to_bytes text (str (Text.base64 text s)) ≡ given s
unfolding to_bytes
to_bytes-base64 text s =
    ap (λ o. elim o [ none ↦ wrong | some bytes ↦ given bytes ]) (text.unbase64-base64 s)

module _ {ℓ} {R : Type ℓ} {strict : Bool} {fields : List (Field R)} where
  pub takes-nil : {r : R} → Takes strict fields no_members r r
  unfolding take_members
  takes-nil = record { plain = tt; taken = refl }

  pub takes-from :
      {rest : Members} {r r' q : R}
      → r ≡ r'
      → Takes strict fields rest r' q
      → Takes strict fields rest r q
  takes-from {rest = rest} {q = q} e others =
      subst (λ r. Takes strict fields rest r q) (sym e) others

  module _ {key : Bytes} {rest : Members} {r q : R} where
    -- A field of any kind.
    pub takes-set :
        {j : Json} (field : Field R) (r' : R)
        → FindsField fields key field
        → field.set j r ≡ (r', true)
        → IsPlain j
        → Takes strict fields rest r' q
        → Takes strict fields (member key j rest) r q
    takes-set {j = j} field r' f fits plain others = record {
      plain = (f.ascii, plain, others.plain);
      taken =
          take-always strict fields key rest r r' j
            (take-given strict fields field key j r r' f.found fits) others.taken;
    }

    pub takes-set-unless :
        {j : Json} {empty : Bool} (field : Field R) (r' : R)
        → FindsField fields key field
        → field.set j r ≡ (r', true)
        → IsPlain j
        → (empty ≡ true → r ≡ r')
        → Takes strict fields rest r' q
        → Takes strict fields (unless empty key j rest) r q
    takes-set-unless {j = j} {empty = empty} field r' f fits plain left_out others = record {
      plain = HasPlain-unless empty key j rest f.ascii plain others.plain;
      taken =
          take-unless strict fields key rest r r' empty j left_out
            (take-given strict fields field key j r r' f.found fits) others.taken;
    }

    pub takes {κ} :
        {A : Type κ} {read : Json → Value A} {update : R → A → R} {j : Json} (a : A)
        → Finds fields key read update
        → read j ≡ given a
        → IsPlain j
        → Takes strict fields rest (update r a) q
        → Takes strict fields (member key j rest) r q
    takes {read = read} {update = update} {j = j} a f reads plain others =
        takes-set _ (update r a) (record { ascii = f.ascii; found = f.found })
          (setter-given read update j a r reads) plain others

    pub takes-unless {κ} :
        {A : Type κ} {read : Json → Value A} {update : R → A → R} {j : Json} {empty : Bool} (a : A)
        → Finds fields key read update
        → read j ≡ given a
        → IsPlain j
        → (empty ≡ true → r ≡ update r a)
        → Takes strict fields rest (update r a) q
        → Takes strict fields (unless empty key j rest) r q
    takes-unless {read = read} {update = update} {j = j} a f reads plain left_out others =
        takes-set-unless _ (update r a) (record { ascii = f.ascii; found = f.found })
          (setter-given read update j a r reads) plain left_out others

    module _ {update : R → ℤ → R} (z : ℤ) (f : Finds fields key to_int update)
        (fits : IsInt64 z) where
      pub takes-int :
          Takes strict fields rest (update r z) q
          → Takes strict fields (member key (num z) rest) r q
      unfolding to_int
      takes-int others = takes z f (rw fits refl) tt others

      pub takes-nonzero :
          r ≡ update r (pos 0)
          → Takes strict fields rest (update r z) q
          → Takes strict fields (unless (is_zero z) key (num z) rest) r q
      unfolding to_int
      takes-nonzero blank others =
          takes-unless z f (rw fits refl) tt
            (λ zero. blank ∙ ap (update r) (sym ((eqb_ℤ_iff z (pos 0)).0 zero))) others

    module _ {update : R → Bytes → R} (s : Bytes) (f : Finds fields key to_string update)
        (ascii : IsAscii s) where
      pub takes-string :
          Takes strict fields rest (update r s) q
          → Takes strict fields (member key (str s) rest) r q
      unfolding to_string
      takes-string others = takes s f refl ascii others

      pub takes-nonempty :
          r ≡ update r []
          → Takes strict fields rest (update r s) q
          → Takes strict fields (unless (is_empty s) key (str s) rest) r q
      unfolding to_string
      takes-nonempty blank others =
          takes-unless s f refl ascii (λ empty. blank ∙ ap (update r) (sym (is_empty_nil s empty)))
            others

    module _ {update : R → Bool → R} (b : Bool) (f : Finds fields key to_bool update) where
      pub takes-bool :
          Takes strict fields rest (update r b) q
          → Takes strict fields (member key (bool b) rest) r q
      unfolding to_bool
      takes-bool others = takes b f refl tt others

      pub takes-true :
          r ≡ update r false
          → Takes strict fields rest (update r b) q
          → Takes strict fields (unless (not b) key (bool b) rest) r q
      unfolding to_bool
      takes-true blank others =
          takes-unless b f refl tt (λ h. blank ∙ ap (update r) (sym (is_false b h))) others

    module _ (text : Text) {update : R → Bytes → R} (s : Bytes)
        (f : Finds fields key (to_bytes text) update) where
      open text use {base64, unbase64}

      pub takes-bytes :
          Takes strict fields rest (update r s) q
          → Takes strict fields (member key (str (base64 s)) rest) r q
      takes-bytes others = takes s f (to_bytes-base64 text s) (text.base64-IsAscii s) others

      pub takes-some-bytes :
          r ≡ update r []
          → Takes strict fields rest (update r s) q
          → Takes strict fields (unless (is_empty s) key (str (base64 s)) rest) r q
      takes-some-bytes blank others =
          takes-unless s f (to_bytes-base64 text s) (text.base64-IsAscii s)
            (λ empty. blank ∙ ap (update r) (sym (is_empty_nil s empty))) others
