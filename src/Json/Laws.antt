-- ===== src/Json/Laws.antt =====
-- Members of an object that are taken one behind the other.
use windrunner.Prelude.{
  ◌≡◌, refl, ap, ◌∙◌, Bool, true, false, Bytes, List, Option, none, some, if◌then◌else◌,
}
use windrunner.Json.{
  Json, Members, member, IsAscii, IsPlain, HasPlain, JsonError, mismatch, unknown_field,
}
use windrunner.Json.Struct.{
  Field, keep_first, lookup, assign, Value, absent, wrong, given, setter, take_member, take_members,
  unless,
}

module _ {ℓ} {R : Type ℓ} (strict : Bool) (fields : List (Field R)) where
  -- A member whose field takes the value.
  pub take-given :
      (field : Field R) (key : Bytes) (j : Json) (r r' : R)
      → lookup key fields ≡ some field
      → field.set j r ≡ (r', true)
      → take_member strict fields key j (r, none) ≡ (r', none)
  unfolding take_member assign
  take-given field key j r r' found fits =
      ap
        (λ o. elim o [
          | none ↦ (r, if strict then keep_first none (unknown_field key) else none)
          | some field ↦ assign field j (r, none)
        ])
        found
      ∙ ap (λ (p : R × Bool). (p.0, if p.1 then none else keep_first none mismatch)) fits

  module _ {q : R × Option JsonError} (key : Bytes) (rest : Members) (r r' : R) where
    -- A member that is always there, and one that is left out where it is empty.
    pub take-always :
        (j : Json)
        → take_member strict fields key j (r, none) ≡ (r', none)
        → take_members strict fields rest (r', none) ≡ q
        → take_members strict fields (member key j rest) (r, none) ≡ q
    unfolding take_members
    take-always j taken others = ap (take_members strict fields rest) taken ∙ others

    pub take-unless :
        (empty : Bool) (j : Json)
        → (empty ≡ true → r ≡ r')
        → take_member strict fields key j (r, none) ≡ (r', none)
        → take_members strict fields rest (r', none) ≡ q
        → take_members strict fields (unless empty key j rest) (r, none) ≡ q
    take-unless true j left_out taken others =
        ap (λ (r : R). take_members strict fields rest (r, none)) (left_out refl) ∙ others
    take-unless false j left_out taken others = take-always j taken others

pub setter-given {ℓ κ} :
    {R : Type ℓ} {A : Type κ} (read : Json → Value A) (update : R → A → R) (j : Json) (a : A)
    (r : R)
    → read j ≡ given a
    → setter read update j r ≡ (update r a, true)
unfolding setter
setter-given read update j a r h =
    ap
      (λ value. elim value [
        | absent ↦ (r, true)
        | wrong ↦ (r, false)
        | given a ↦ (update r a, true)
      ])
      h

pub HasPlain-unless :
    (empty : Bool) (key : Bytes) (j : Json) (rest : Members)
    → IsAscii key
    → IsPlain j
    → HasPlain rest
    → HasPlain (unless empty key j rest)
HasPlain-unless true key j rest hk hj h = h
HasPlain-unless false key j rest hk hj h = (hk, hj, h)
