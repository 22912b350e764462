-- ===== src/Wire/Payloads/Responses/RoundTrip.antt =====
-- wire/wire.go: a Response as the client reads it from the daemon's JSON.
use windrunner.Prelude.{
  ◌^◌, ◌≡◌, ◌$◌, refl, ap, ap₂, ◌∙◌, Bool, true, false, not, ◌&&◌, Bytes, List, [], ◌∷◌, Option,
  none, some, codes, equal, ltb, All,
}
use windrunner.Json.{
  bool, arr, obj, Members, no_members, member, IsAscii, ArePlain, Text, JsonError,
}
use windrunner.Json.Struct.{Field, lookup, fold_key, into_struct, unless, is_empty, to_uint64}
use windrunner.Wire.Payloads.{SnapshotPayload, no_snapshot, snapshot_fields, marshal, unmarshal}
use windrunner.Wire.Payloads.Responses.{
  SessionInfo, Response, no_info, no_response, info_fields, info_members, info_items, went_well,
  set_pointer, to_infos, set_infos, session_member, snapshot_member, response_fields,
  response_members,
}
use windrunner.Wire.Payloads.Requests.Lists.{is_map, IsAsciiMap, takes-metadata}
use windrunner.Wire.Payloads.RoundTrip.{takes-snapshot}
use windrunner.Wire.Payloads.Fields.{
  IsInt64, Takes, FindsField, finds, finds-field, takes-from, takes-set, takes-set-unless,
  is_empty_nil, unmarshal-marshal, takes, takes-nil, takes-int, takes-string, takes-nonempty,
  takes-bool, takes-true,
}

-- A description that goes as JSON without loss.
pub record IsSendableInfo (r : SessionInfo) : Type 0 where
  pub id : IsAscii r.id
  pub command : IsAscii r.command
  pub exit_code : IsInt64 r.exit_code
  pub cols : IsInt64 r.cols
  pub rows : IsInt64 r.rows
  pub title : IsAscii r.title
  pub metadata : IsAsciiMap r.metadata
  pub metadata_is_map : is_map r.metadata ≡ true
  pub revision : ltb r.revision (2 ^ 64) ≡ true

abbrev pub opt {ℓ} : {A : Type ℓ} → Option A → List A
opt none = []
opt (some a) = a ∷ []

pub record IsSendableResponse (r : Response) : Type 0 where
  pub error : IsAscii r.error
  pub session : All IsSendableInfo (opt r.session)
  pub sessions : All IsSendableInfo r.sessions
  pub snapshot : All (λ (s : SnapshotPayload). IsInt64 s.cols × IsInt64 s.rows) (opt r.snapshot)

takes-info :
    (r : SessionInfo) → IsSendableInfo r → Takes false info_fields (info_members r) no_info r
unfolding lookup fold_key equal to_uint64
takes-info r s =
    takes-string r.id (finds refl refl) s.id
    $ takes-string r.command (finds refl refl) s.command
    $ takes-bool r.alive (finds refl refl)
    $ takes-int r.exit_code (finds refl refl) s.exit_code
    $ takes-int r.cols (finds refl refl) s.cols
    $ takes-int r.rows (finds refl refl) s.rows
    $ takes-nonempty r.title (finds refl refl) s.title refl
    $ takes-true r.peer (finds refl refl) refl
    $ takes-metadata (λ r. r.metadata) (λ r m. record r { metadata = m }) r.metadata refl refl refl
        refl s.metadata s.metadata_is_map
    $ takes r.revision (finds refl refl) (rw (s.revision) refl) tt takes-nil

-- A pointer to a struct that is taken in full.
takes-pointer {ℓ κ} :
    {R : Type ℓ} {A : Type κ} {strict : Bool} {fields : List (Field R)} {key : Bytes}
    {rest ms : Members} {r q : R} (into : List (Field A)) (zero : A) (current : R → Option A)
    (update : R → Option A → R) (a : A)
    → FindsField fields key (record { name = key; set = set_pointer into zero current update })
    → current r ≡ none
    → Takes false into ms zero a
    → Takes strict fields rest (update r (some a)) q
    → Takes strict fields (member key (obj ms) rest) r q
unfolding set_pointer into_struct
takes-pointer {ms = ms} {r = r} into zero current update a f blank inner others =
    takes-set _ (update r (some a)) f (rw (blank, inner.taken) refl) inner.plain others

to_infos-info_items :
    (infos : List SessionInfo)
    → All IsSendableInfo infos
    → to_infos (info_items infos) ≡ (infos, true)
unfolding to_infos into_struct
to_infos-info_items [] h = refl
to_infos-info_items (info ∷ infos) h =
    ap₂
      (λ (p : SessionInfo × Option JsonError) (q : List SessionInfo × Bool).
        (p.0 ∷ q.0, went_well p.1 && q.1))
      (takes-info info h.0).taken (to_infos-info_items infos h.1)

info_items-ArePlain :
    (infos : List SessionInfo) → All IsSendableInfo infos → ArePlain (info_items infos)
info_items-ArePlain [] h = tt
info_items-ArePlain (info ∷ infos) h = ((takes-info info h.0).plain, info_items-ArePlain infos h.1)

module _ (text : Text) where
  takes-conflict :
      (r : Response)
      → Takes false
          (response_fields text)
          (unless (not r.conflict) (codes "conflict") (bool r.conflict) no_members)
          (record r { conflict = false })
          r
  unfolding lookup fold_key equal
  takes-conflict r = takes-true r.conflict (finds refl refl) refl takes-nil

  takes-state :
      (o : Option SnapshotPayload) {rest : Members} {r q : Response}
      → All (λ (s : SnapshotPayload). IsInt64 s.cols × IsInt64 s.rows) (opt o)
      → r ≡ record r { snapshot = none }
      → Takes false (response_fields text) rest (record r { snapshot = o }) q
      → Takes false (response_fields text) (snapshot_member text o rest) r q
  unfolding lookup fold_key equal
  takes-state none h blank others = takes-from blank others
  takes-state (some s) h blank others =
      takes-pointer (snapshot_fields text) no_snapshot (λ r. r.snapshot)
        (λ r s. record r { snapshot = s }) s (finds-field refl refl) (ap (λ r. r.snapshot) blank)
        (takes-snapshot text s h.0.0 h.0.1) others

  takes-session :
      (o : Option SessionInfo) {rest : Members} {r q : Response}
      → All IsSendableInfo (opt o)
      → r ≡ record r { session = none }
      → Takes false (response_fields text) rest (record r { session = o }) q
      → Takes false (response_fields text) (session_member o rest) r q
  unfolding lookup fold_key equal
  takes-session none h blank others = takes-from blank others
  takes-session (some info) h blank others =
      takes-pointer info_fields no_info (λ r. r.session) (λ r i. record r { session = i }) info
        (finds-field refl refl) (ap (λ r. r.session) blank) (takes-info info h.0) others

  takes-infos :
      (infos : List SessionInfo) {rest : Members} {r q : Response}
      → All IsSendableInfo infos
      → r ≡ record r { sessions = [] }
      → lookup (codes "sessions") (response_fields text)
        ≡ some (record { name = codes "sessions"; set = set_infos })
      → Takes false (response_fields text) rest (record r { sessions = infos }) q
      → Takes false
          (response_fields text)
          (unless (is_empty infos) (codes "sessions") (arr (info_items infos)) rest)
          r
          q
  unfolding set_infos
  takes-infos infos {r = r} h blank found others =
      takes-set-unless _ (record r { sessions = infos }) (finds-field found refl)
        (rw (to_infos-info_items infos h, set_infos) refl) (info_items-ArePlain infos h)
        (λ empty. blank ∙ rw (is_empty_nil infos empty) refl) others

  takes-response :
      (r : Response)
      → IsSendableResponse r
      → Takes false (response_fields text) (response_members text r) no_response r
  unfolding lookup fold_key equal set_infos
  takes-response r s =
      takes-bool r.ok (finds refl refl)
      $ takes-nonempty r.error (finds refl refl) s.error refl
      $ takes-session r.session s.session refl
      $ takes-infos r.sessions s.sessions refl refl
      $ takes-state r.snapshot s.snapshot refl (takes-conflict r)

  -- A response whose strings are ASCII and whose numbers are of their types comes back whole.
  pub unmarshal-response :
      (r : Response)
      → IsSendableResponse r
      → unmarshal text false
          (response_fields text)
          (marshal text (response_members text r))
          no_response
        ≡ (r, none)
  unmarshal-response r s =
      unmarshal-marshal text false (response_fields text) (response_members text r) no_response r
        (takes-response r s)
