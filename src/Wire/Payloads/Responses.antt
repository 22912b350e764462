-- ===== src/Wire/Payloads/Responses.antt =====
-- wire/wire.go: SessionInfo and Response, their fields and tags.
pub mod RoundTrip
use windrunner.Prelude.{
  ◌$◌, ℕ, Bool, true, false, not, ◌&&◌, Bytes, List, [], ◌∷◌, ◌++◌, Option, none, some, codes,
  if◌then◌else◌,
}
use windrunner.Prelude.Int.{ℤ, pos}
use windrunner.Json.{
  Json, null, bool, num, str, arr, obj, Items, no_items, item, Members, no_members, member, Text,
  JsonError,
}
use windrunner.Json.Struct.{
  Field, Value, absent, wrong, given, setter, into_struct, unless, is_empty, string_members,
  to_uint64,
}
use windrunner.Wire.Payloads.{
  SnapshotPayload, no_snapshot, snapshot_fields, snapshot_members, is_zero, int_field, bool_field,
  string_field,
}
use windrunner.Wire.Payloads.Requests.{set_map}

pub record SessionInfo : Type 0 where
  pub id : Bytes
  pub command : Bytes
  pub alive : Bool
  pub exit_code : ℤ
  pub cols : ℤ
  pub rows : ℤ
  pub title : Bytes
  pub peer : Bool
  pub metadata : List (Bytes × Bytes)
  pub revision : ℕ

pub record Response : Type 0 where
  pub ok : Bool
  pub error : Bytes
  pub session : Option SessionInfo
  pub sessions : List SessionInfo
  pub snapshot : Option SnapshotPayload
  pub conflict : Bool

abbrev pub no_info : SessionInfo
no_info = record {
  id = [];
  command = [];
  alive = false;
  exit_code = pos 0;
  cols = pos 0;
  rows = pos 0;
  title = [];
  peer = false;
  metadata = [];
  revision = 0;
}

abbrev pub no_response : Response
no_response = record {
  ok = false;
  error = [];
  session = none;
  sessions = [];
  snapshot = none;
  conflict = false;
}

abbrev pub info_fields : List (Field SessionInfo)
info_fields =
    string_field (codes "id") (λ r s. record r { id = s })
    ∷ string_field (codes "command") (λ r s. record r { command = s })
    ∷ bool_field (codes "alive") (λ r b. record r { alive = b })
    ∷ int_field (codes "exit_code") (λ r z. record r { exit_code = z })
    ∷ int_field (codes "cols") (λ r z. record r { cols = z })
    ∷ int_field (codes "rows") (λ r z. record r { rows = z })
    ∷ string_field (codes "title") (λ r s. record r { title = s })
    ∷ bool_field (codes "peer") (λ r b. record r { peer = b })
    ∷ record {
      name = codes "metadata";
      set = set_map (λ r. r.metadata) (λ r m. record r { metadata = m });
    }
    ∷ record { name = codes "revision"; set = setter to_uint64 (λ r n. record r { revision = n }) }
    ∷ []

abbrev pub info_members : SessionInfo → Members
info_members r =
    member (codes "id") (str r.id)
    $ member (codes "command") (str r.command)
    $ member (codes "alive") (bool r.alive)
    $ member (codes "exit_code") (num r.exit_code)
    $ member (codes "cols") (num r.cols)
    $ member (codes "rows") (num r.rows)
    $ unless (is_empty r.title) (codes "title") (str r.title)
    $ unless (not r.peer) (codes "peer") (bool r.peer)
    $ unless (is_empty r.metadata) (codes "metadata") (obj (string_members r.metadata))
    $ member (codes "revision") (num (pos r.revision)) no_members

abbrev pub went_well : Option JsonError → Bool
went_well none = true
went_well (some error) = false

-- What a pointer leads to, or a new zero value.
abbrev pub target {ℓ} : {A : Type ℓ} → A → Option A → A
target zero none = zero
target zero (some a) = a

-- A pointer to a struct, where null is nil.
unfoldable pub set_pointer {ℓ κ} :
    {R : Type ℓ} {A : Type κ}
    → List (Field A)
    → A
    → (R → Option A)
    → (R → Option A → R)
    → Json
    → R
    → R × Bool
unfolding into_struct
set_pointer fields zero current update null r = (update r none, true)
set_pointer fields zero current update j r =
    let (a, error) = into_struct false fields j (target zero (current r), none) in
    (update r (some a), went_well error)

unfoldable pub to_infos : Items → List SessionInfo × Bool
unfolding into_struct
to_infos no_items = ([], true)
to_infos (item j rest) =
    let (info, error) = into_struct false info_fields j (no_info, none) in
    let (infos, fit) = to_infos rest in (info ∷ infos, went_well error && fit)

-- A []SessionInfo.
unfoldable pub set_infos : Json → Response → Response × Bool
unfolding to_infos
set_infos null r = (record r { sessions = [] }, true)
set_infos (arr js) r = let (infos, fit) = to_infos js in (record r { sessions = infos }, fit)
set_infos _ r = (r, false)

abbrev pub info_items : List SessionInfo → Items
info_items [] = no_items
info_items (info ∷ infos) = item (obj (info_members info)) (info_items infos)

abbrev pub session_member : Option SessionInfo → Members → Members
session_member none rest = rest
session_member (some info) rest = member (codes "session") (obj (info_members info)) rest

module _ (text : Text) where
  abbrev pub response_fields : List (Field Response)
  response_fields =
      bool_field (codes "ok") (λ r b. record r { ok = b })
      ∷ string_field (codes "error") (λ r s. record r { error = s })
      ∷ record {
        name = codes "session";
        set = set_pointer info_fields no_info (λ r. r.session) (λ r i. record r { session = i });
      }
      ∷ record { name = codes "sessions"; set = set_infos }
      ∷ record {
        name = codes "snapshot";
        set =
            set_pointer (snapshot_fields text) no_snapshot (λ r. r.snapshot)
              (λ r s. record r { snapshot = s });
      }
      ∷ bool_field (codes "conflict") (λ r b. record r { conflict = b })
      ∷ []

  abbrev pub snapshot_member : Option SnapshotPayload → Members → Members
  snapshot_member none rest = rest
  snapshot_member (some state) rest =
      member (codes "snapshot") (obj (snapshot_members text state)) rest

  abbrev pub response_members : Response → Members
  response_members r =
      member (codes "ok") (bool r.ok)
      $ unless (is_empty r.error) (codes "error") (str r.error)
      $ session_member r.session
      $ unless (is_empty r.sessions) (codes "sessions") (arr (info_items r.sessions))
      $ snapshot_member r.snapshot
      $ unless (not r.conflict) (codes "conflict") (bool r.conflict) no_members
