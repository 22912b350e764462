-- ===== src/Wire/Payloads.antt =====
-- wire/wire.go: the payloads that go as JSON, with the tags of their fields, except for Request
-- and Response. The order of a map's members has no meaning.
pub mod Requests
pub mod Responses
pub mod Fields
pub mod RoundTrip
use windrunner.Prelude.{
  ◌$◌, Bool, true, false, not, Bytes, List, [], ◌∷◌, ◌++◌, Option, none, some, codes, if◌then◌else◌,
}
use windrunner.Prelude.Int.{ℤ, pos, eqb_ℤ}
use windrunner.Json
use windrunner.Json.{
  Json, null, bool, num, str, arr, obj, Members, no_members, member, Text, JsonError, syntax,
}
use windrunner.Json.Struct.{
  Field, Value, absent, wrong, given, setter, into_struct, unless, is_empty, to_int, to_bool,
  to_string,
}

pub record SnapshotPayload : Type 0 where
  pub cols : ℤ
  pub rows : ℤ
  pub ansi : Bytes

pub record ResizePayload : Type 0 where
  pub cols : ℤ
  pub rows : ℤ

pub record ExitedPayload : Type 0 where
  pub exit_code : ℤ

pub record ErrorPayload : Type 0 where
  pub error : Bytes

pub record EventPayload : Type 0 where
  pub type : Bytes
  pub session_id : Bytes
  pub command : Bytes
  pub exit_code : ℤ

pub record SubscribeRequest : Type 0 where
  pub buffer : ℤ

pub record AttachRequest : Type 0 where
  pub id : Bytes
  pub buffer : ℤ
  pub resync : Bool
  pub cols : ℤ
  pub rows : ℤ

abbrev pub is_zero : ℤ → Bool
is_zero z = eqb_ℤ z (pos 0)

-- A field that takes an int, a bool or a string.
abbrev pub int_field {ℓ} : {R : Type ℓ} → Bytes → (R → ℤ → R) → Field R
int_field name update = record { name = name; set = setter to_int update }

abbrev pub bool_field {ℓ} : {R : Type ℓ} → Bytes → (R → Bool → R) → Field R
bool_field name update = record { name = name; set = setter to_bool update }

abbrev pub string_field {ℓ} : {R : Type ℓ} → Bytes → (R → Bytes → R) → Field R
string_field name update = record { name = name; set = setter to_string update }

abbrev pub resize_fields : List (Field ResizePayload)
resize_fields =
    int_field (codes "cols") (λ r z. record r { cols = z })
    ∷ int_field (codes "rows") (λ r z. record r { rows = z })
    ∷ []

abbrev pub exited_fields : List (Field ExitedPayload)
exited_fields = int_field (codes "exit_code") (λ r z. record r { exit_code = z }) ∷ []

abbrev pub error_fields : List (Field ErrorPayload)
error_fields = string_field (codes "error") (λ r s. record r { error = s }) ∷ []

abbrev pub event_fields : List (Field EventPayload)
event_fields =
    string_field (codes "type") (λ r s. record r { type = s })
    ∷ string_field (codes "session_id") (λ r s. record r { session_id = s })
    ∷ string_field (codes "command") (λ r s. record r { command = s })
    ∷ int_field (codes "exit_code") (λ r z. record r { exit_code = z })
    ∷ []

abbrev pub subscribe_fields : List (Field SubscribeRequest)
subscribe_fields = int_field (codes "buffer") (λ r z. record r { buffer = z }) ∷ []

abbrev pub attach_fields : List (Field AttachRequest)
attach_fields =
    string_field (codes "id") (λ r s. record r { id = s })
    ∷ int_field (codes "buffer") (λ r z. record r { buffer = z })
    ∷ bool_field (codes "resync") (λ r b. record r { resync = b })
    ∷ int_field (codes "cols") (λ r z. record r { cols = z })
    ∷ int_field (codes "rows") (λ r z. record r { rows = z })
    ∷ []

abbrev pub resize_members : ResizePayload → Members
resize_members r =
    member (codes "cols") (num r.cols) (member (codes "rows") (num r.rows) no_members)

abbrev pub exited_members : ExitedPayload → Members
exited_members r = member (codes "exit_code") (num r.exit_code) no_members

abbrev pub error_members : ErrorPayload → Members
error_members r = member (codes "error") (str r.error) no_members

abbrev pub event_members : EventPayload → Members
event_members r =
    member (codes "type") (str r.type)
    $ member (codes "session_id") (str r.session_id)
    $ unless (is_empty r.command) (codes "command") (str r.command)
    $ unless (is_zero r.exit_code) (codes "exit_code") (num r.exit_code) no_members

abbrev pub subscribe_members : SubscribeRequest → Members
subscribe_members r = unless (is_zero r.buffer) (codes "buffer") (num r.buffer) no_members

abbrev pub attach_members : AttachRequest → Members
attach_members r =
    member (codes "id") (str r.id)
    $ unless (is_zero r.buffer) (codes "buffer") (num r.buffer)
    $ unless (not r.resync) (codes "resync") (bool r.resync)
    $ unless (is_zero r.cols) (codes "cols") (num r.cols)
    $ unless (is_zero r.rows) (codes "rows") (num r.rows) no_members

abbrev pub no_snapshot : SnapshotPayload
no_snapshot = record { cols = pos 0; rows = pos 0; ansi = [] }

abbrev pub no_resize : ResizePayload
no_resize = record { cols = pos 0; rows = pos 0 }

abbrev pub no_exit : ExitedPayload
no_exit = record { exit_code = pos 0 }

abbrev pub no_error : ErrorPayload
no_error = record { error = [] }

abbrev pub no_event : EventPayload
no_event = record { type = []; session_id = []; command = []; exit_code = pos 0 }

abbrev pub no_subscribe : SubscribeRequest
no_subscribe = record { buffer = pos 0 }

abbrev pub no_attach : AttachRequest
no_attach = record { id = []; buffer = pos 0; resync = false; cols = pos 0; rows = pos 0 }

module _ (text : Text) where
  open text use {print, parse, base64, unbase64}

  -- A []byte.
  unfoldable pub to_bytes : Json → Value Bytes
  to_bytes null = given []
  to_bytes (str s) = elim (unbase64 s) [ none ↦ wrong | some bytes ↦ given bytes ]
  to_bytes _ = wrong

  abbrev pub bytes_field {ℓ} : {R : Type ℓ} → Bytes → (R → Bytes → R) → Field R
  bytes_field name update = record { name = name; set = setter to_bytes update }

  abbrev pub snapshot_fields : List (Field SnapshotPayload)
  snapshot_fields =
      int_field (codes "cols") (λ r z. record r { cols = z })
      ∷ int_field (codes "rows") (λ r z. record r { rows = z })
      ∷ bytes_field (codes "ansi") (λ r s. record r { ansi = s })
      ∷ []

  abbrev pub snapshot_members : SnapshotPayload → Members
  snapshot_members r =
      member (codes "cols") (num r.cols)
      $ member (codes "rows") (num r.rows)
      $ member (codes "ansi") (str (base64 r.ansi)) no_members

  -- `json.Marshal`
  abbrev pub marshal : Members → Bytes
  marshal fields = print (obj fields)

  -- `json.Unmarshal(payload, &r)`: what it leaves in `r`, and its error.
  unfoldable pub unmarshal {ℓ} :
      {R : Type ℓ} → Bool → List (Field R) → Bytes → R → R × Option JsonError
  unfolding into_struct
  unmarshal strict fields payload r = elim (parse payload) [
    | none ↦ (r, some syntax)
    | some j ↦ into_struct strict fields j (r, none)
  ]
