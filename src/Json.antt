-- ===== src/Json.antt =====
-- encoding/json, as far as wire/wire.go and its users depend on it: values as trees, the fields of a
-- struct, and what Unmarshal makes of an object. The text of a tree, and the base64 that a []byte
-- takes in it, are the parameter Text, as is how fmt quotes a string.
pub mod Struct
pub mod Laws
use windrunner.Prelude.{
  ℕ, ◌<◌, ◌≡◌, ◌≢◌, Bool, true, false, Bytes, List, [], ◌∷◌, ◌++◌, Option, none, some, All, codes,
  if◌then◌else◌,
}
use windrunner.Prelude.Int.{ℤ}

mutual
  pub data Json : Type 0 where
    null : Json
    bool : Bool → Json
    num : ℤ → Json
    real : Bytes → Json  -- a number that is no integer, by its text
    str : Bytes → Json
    arr : Items → Json
    obj : Members → Json

  pub data Items : Type 0 where
    no_items : Items
    item : Json → Items → Items

  pub data Members : Type 0 where
    no_members : Members
    member : Bytes → Json → Members → Members

abbrev pub IsAscii : Bytes → Type 0
IsAscii s = All (λ (c : ℕ). c < 128) s

-- A tree whose strings are ASCII; others are replaced by Marshal where they are not UTF-8.
abbrev mutual
  pub IsPlain : Json → Type 0
  IsPlain (str s) = IsAscii s
  IsPlain (real s) = ⊥
  IsPlain (arr js) = ArePlain js
  IsPlain (obj fields) = HasPlain fields
  IsPlain _ = Unit {0}

  pub ArePlain : Items → Type 0
  ArePlain no_items = Unit {0}
  ArePlain (item j js) = IsPlain j × ArePlain js

  pub HasPlain : Members → Type 0
  HasPlain no_members = Unit {0}
  HasPlain (member key j fields) = IsAscii key × IsPlain j × HasPlain fields

pub data JsonError : Type 0 where
  syntax mismatch : JsonError
  unknown_field : Bytes → JsonError

-- Text that %q only puts between quotes: printable ASCII without a quote or a backslash.
abbrev pub IsPlainText : Bytes → Type 0
IsPlainText s = All (λ (c : ℕ). (31 < c) × (c < 127) × (c ≢ b'"') × (c ≢ b'\\')) s

pub record Text : Type 0 where
  pub print : Json → Bytes
  -- `none` is for text that is no JSON.
  pub parse : Bytes → Option Json
  -- `Decoder.Decode`, which leaves what stands behind the first value.
  pub parse_first : Bytes → Option Json
  pub base64 : Bytes → Bytes
  pub unbase64 : Bytes → Option Bytes
  -- The verb %q of package fmt.
  pub quote : Bytes → Bytes
  -- The text of the error that a payload has been refused with.
  pub reason : Bytes → JsonError → Bytes
  pub parse-print : (j : Json) → IsPlain j → parse (print j) ≡ some j
  pub parse_first-print : (j : Json) → IsPlain j → parse_first (print j) ≡ some j
  pub unbase64-base64 : (s : Bytes) → unbase64 (base64 s) ≡ some s
  pub base64-IsAscii : (s : Bytes) → IsAscii (base64 s)
  pub quote-IsPlainText : (s : Bytes) → IsPlainText s → quote s ≡ b'"' ∷ s ++ b'"' ∷ []
  pub reason-unknown_field :
      (payload key : Bytes)
      → reason payload (unknown_field key) ≡ codes "json: unknown field " ++ quote key
