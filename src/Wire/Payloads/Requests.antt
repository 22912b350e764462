-- ===== src/Wire/Payloads/Requests.antt =====
-- wire/wire.go: Request, its fields and tags.
pub mod Lists
pub mod RoundTrip
use windrunner.Prelude.{
  ◌$◌, ℕ, Bool, true, false, not, Bytes, List, [], ◌∷◌, ◌++◌, Option, none, some, codes,
  if◌then◌else◌,
}
use windrunner.Prelude.Int.{ℤ, pos}
use windrunner.Json.{Json, null, bool, num, str, arr, obj, Members, no_members, member, Text}
use windrunner.Json.Struct.{
  Field, Value, absent, wrong, given, setter, unless, is_empty, strings, string_members, to_list,
  to_map, to_uint64,
}
use windrunner.Wire.Payloads.{is_zero, int_field, bool_field, string_field, bytes_field}

-- A slice is `none` where it is nil, if somebody asks for that; a map and a []byte never are.
pub record Request : Type 0 where
  pub op : Bytes
  pub command : Bytes
  pub args : Option (List Bytes)
  pub dir : Bytes
  pub env : Option (List Bytes)
  pub env_override : Option (List Bytes)
  pub scrollback : ℤ
  pub metadata : List (Bytes × Bytes)
  pub idle_after_ms : ℤ
  pub peer : Bool
  pub cols : ℤ
  pub rows : ℤ
  pub id : Bytes
  pub bytes : Bytes
  pub from : Bytes
  pub if_revision : Option ℕ

abbrev pub no_request : Request
no_request = record {
  op = [];
  command = [];
  args = none;
  dir = [];
  env = none;
  env_override = none;
  scrollback = pos 0;
  metadata = [];
  idle_after_ms = pos 0;
  peer = false;
  cols = pos 0;
  rows = pos 0;
  id = [];
  bytes = [];
  from = [];
  if_revision = none;
}

abbrev pub list_of : Option (List Bytes) → List Bytes
list_of none = []
list_of (some ss) = ss

abbrev pub revisions : Option ℕ → List ℕ
revisions none = []
revisions (some n) = n ∷ []

-- A map that is set already takes the members of another object as well.
unfoldable pub set_map {ℓ} :
    {R : Type ℓ} → (R → List (Bytes × Bytes)) → (R → List (Bytes × Bytes) → R) → Json → R → R × Bool
set_map current update null r = (update r [], true)
set_map current update (obj fields) r = elim (to_map fields (current r)) [
  | none ↦ (r, false)
  | some map ↦ (update r map, true)
]
set_map current update _ r = (r, false)

-- A *uint64, where null is nil.
unfoldable pub to_revision : Json → Value (Option ℕ)
to_revision j = elim (to_uint64 j) [
  | absent ↦ given none
  | wrong ↦ wrong
  | given n ↦ given (some n)
]

abbrev list_field : Bytes → (Request → Option (List Bytes) → Request) → Field Request
list_field name update = record { name = name; set = setter to_list update }

abbrev pub revision_member : Option ℕ → Members
revision_member none = no_members
revision_member (some n) = member (codes "if_revision") (num (pos n)) no_members

module _ (text : Text) where
  abbrev pub request_fields : List (Field Request)
  request_fields =
      string_field (codes "op") (λ r s. record r { op = s })
      ∷ string_field (codes "command") (λ r s. record r { command = s })
      ∷ list_field (codes "args") (λ r l. record r { args = l })
      ∷ string_field (codes "dir") (λ r s. record r { dir = s })
      ∷ list_field (codes "env") (λ r l. record r { env = l })
      ∷ list_field (codes "env_override") (λ r l. record r { env_override = l })
      ∷ int_field (codes "scrollback") (λ r z. record r { scrollback = z })
      ∷ record {
        name = codes "metadata";
        set = set_map (λ r. r.metadata) (λ r m. record r { metadata = m });
      }
      ∷ int_field (codes "idle_after_ms") (λ r z. record r { idle_after_ms = z })
      ∷ bool_field (codes "peer") (λ r b. record r { peer = b })
      ∷ int_field (codes "cols") (λ r z. record r { cols = z })
      ∷ int_field (codes "rows") (λ r z. record r { rows = z })
      ∷ string_field (codes "id") (λ r s. record r { id = s })
      ∷ bytes_field text (codes "bytes") (λ r s. record r { bytes = s })
      ∷ string_field (codes "from") (λ r s. record r { from = s })
      ∷ record {
        name = codes "if_revision";
        set = setter to_revision (λ r n. record r { if_revision = n });
      }
      ∷ []

  abbrev pub request_members : Request → Members
  request_members r =
      member (codes "op") (str r.op)
      $ unless (is_empty r.command) (codes "command") (str r.command)
      $ unless (is_empty (list_of r.args)) (codes "args") (arr (strings (list_of r.args)))
      $ unless (is_empty r.dir) (codes "dir") (str r.dir)
      $ unless (is_empty (list_of r.env)) (codes "env") (arr (strings (list_of r.env)))
      $ unless (is_empty (list_of r.env_override)) (codes "env_override")
          (arr (strings (list_of r.env_override)))
      $ unless (is_zero r.scrollback) (codes "scrollback") (num r.scrollback)
      $ unless (is_empty r.metadata) (codes "metadata") (obj (string_members r.metadata))
      $ unless (is_zero r.idle_after_ms) (codes "idle_after_ms") (num r.idle_after_ms)
      $ unless (not r.peer) (codes "peer") (bool r.peer)
      $ unless (is_zero r.cols) (codes "cols") (num r.cols)
      $ unless (is_zero r.rows) (codes "rows") (num r.rows)
      $ unless (is_empty r.id) (codes "id") (str r.id)
      $ unless (is_empty r.bytes) (codes "bytes") (str (Text.base64 text r.bytes))
      $ unless (is_empty r.from) (codes "from") (str r.from)
      $ revision_member r.if_revision
