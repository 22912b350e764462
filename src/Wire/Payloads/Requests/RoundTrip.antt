-- ===== src/Wire/Payloads/Requests/RoundTrip.antt =====
-- wire/wire.go: a Request as the daemon reads it from the client's JSON.
use windrunner.Prelude.{
  ℕ, ◌^◌, ◌≡◌, ◌$◌, refl, ◌∙◌, Bool, true, Bytes, List, [], ◌∷◌, Option, none, some, codes, equal,
  ltb, All,
}
use windrunner.Json.{arr, Members, IsAscii, Text}
use windrunner.Json.Struct.{Field, lookup, fold_key, unless, is_empty, strings, to_list, to_uint64}
use windrunner.Wire.Payloads.Requests.{
  Request, revisions, no_request, list_of, to_revision, revision_member, request_fields,
  request_members,
}
use windrunner.Wire.Payloads.Requests.Lists.{
  to_list-strings, strings-ArePlain, is_map, IsAsciiMap, takes-metadata,
}
use windrunner.Wire.Payloads.Fields.{
  IsInt64, Takes, Finds, finds, takes-from, takes, takes-nil, takes-nonzero, takes-string,
  takes-nonempty, takes-true, takes-some-bytes,
}

-- A request that goes as JSON without loss: ASCII strings, numbers of their types.
pub record IsSendable (r : Request) : Type 0 where
  pub op : IsAscii r.op
  pub command : IsAscii r.command
  pub args : All IsAscii (list_of r.args)
  pub dir : IsAscii r.dir
  pub env : All IsAscii (list_of r.env)
  pub env_override : All IsAscii (list_of r.env_override)
  pub scrollback : IsInt64 r.scrollback
  pub metadata : IsAsciiMap r.metadata
  pub metadata_is_map : is_map r.metadata ≡ true
  pub idle_after_ms : IsInt64 r.idle_after_ms
  pub cols : IsInt64 r.cols
  pub rows : IsInt64 r.rows
  pub id : IsAscii r.id
  pub from : IsAscii r.from
  pub if_revision : All (λ (n : ℕ). ltb n (2 ^ 64) ≡ true) (revisions r.if_revision)

-- An empty list is sent as none at all.
abbrev pub nil_if_empty : Option (List Bytes) → Option (List Bytes)
nil_if_empty none = none
nil_if_empty (some []) = none
nil_if_empty (some (s ∷ ss)) = some (s ∷ ss)

abbrev pub as_read : Request → Request
as_read r = record r {
  args = nil_if_empty r.args;
  env = nil_if_empty r.env;
  env_override = nil_if_empty r.env_override;
}

module _ {strict : Bool} {fields : List (Field Request)} {key : Bytes} {rest : Members}
    {r q : Request} where
  takes-list :
      {update : Request → Option (List Bytes) → Request} (l : Option (List Bytes))
      → Finds fields key to_list update
      → All IsAscii (list_of l)
      → r ≡ update r none
      → Takes strict fields rest (update r (nil_if_empty l)) q
      → Takes strict fields (unless (is_empty (list_of l)) key (arr (strings (list_of l))) rest) r q
  takes-list none f ascii blank others = takes-from blank others
  takes-list (some []) f ascii blank others = takes-from blank others
  takes-list (some (s ∷ ss)) f ascii blank others =
      takes (some (s ∷ ss)) f (to_list-strings (s ∷ ss)) (strings-ArePlain (s ∷ ss) ascii) others

takes-revision :
    {strict : Bool} {fields : List (Field Request)} {r q : Request}
    {update : Request → Option ℕ → Request} (n : Option ℕ)
    → Finds fields (codes "if_revision") to_revision update
    → All (λ (n : ℕ). ltb n (2 ^ 64) ≡ true) (revisions n)
    → r ≡ update r none
    → update r n ≡ q
    → Takes strict fields (revision_member n) r q
unfolding to_revision to_uint64
takes-revision none f fits blank e = takes-from (blank ∙ e) takes-nil
takes-revision (some n) f fits blank e =
    takes (some n) f (rw (fits.0, to_revision, to_uint64) refl) tt (takes-from e takes-nil)

pub takes-request :
    (text : Text) (r : Request)
    → IsSendable r
    → Takes true (request_fields text) (request_members text r) no_request (as_read r)
unfolding lookup fold_key equal
takes-request text r s =
    takes-string r.op (finds refl refl) s.op
    $ takes-nonempty r.command (finds refl refl) s.command refl
    $ takes-list r.args (finds refl refl) s.args refl
    $ takes-nonempty r.dir (finds refl refl) s.dir refl
    $ takes-list r.env (finds refl refl) s.env refl
    $ takes-list r.env_override (finds refl refl) s.env_override refl
    $ takes-nonzero r.scrollback (finds refl refl) s.scrollback refl
    $ takes-metadata (λ r. r.metadata) (λ r m. record r { metadata = m }) r.metadata refl refl refl
        refl s.metadata s.metadata_is_map
    $ takes-nonzero r.idle_after_ms (finds refl refl) s.idle_after_ms refl
    $ takes-true r.peer (finds refl refl) refl
    $ takes-nonzero r.cols (finds refl refl) s.cols refl
    $ takes-nonzero r.rows (finds refl refl) s.rows refl
    $ takes-nonempty r.id (finds refl refl) s.id refl
    $ takes-some-bytes text r.bytes (finds refl refl) refl
    $ takes-nonempty r.from (finds refl refl) s.from refl
    $ takes-revision r.if_revision (finds refl refl) s.if_revision refl refl
