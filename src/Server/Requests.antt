-- ===== src/Server/Requests.antt =====
-- server/server.go: `decodeRequest` and `unknownField`.
use windrunner.Prelude.{
  ℕ, true, Bytes, [], ◌∷◌, ◌++◌, Option, none, some, codes, has_prefix, drop, length, ◌==◌,
  if◌then◌else◌, ◌⊎◌, inl, inr,
}
use windrunner.Json.{Text, JsonError, syntax}
use windrunner.Json.Struct.{into_struct}
use windrunner.Wire.Payloads.Requests.{Request, no_request, request_fields}

-- What stands behind the first `marker` in a message.
unfoldable pub behind : Bytes → Bytes → Option Bytes
behind marker [] = if has_prefix [] marker then some [] else none
behind marker (c ∷ s) =
    if has_prefix (c ∷ s) marker then some (drop (length marker) (c ∷ s)) else behind marker s

-- `strings.Trim(s, "\"")`: quotes are taken off the left, and off the right.
unfoldable pub trim_left : Bytes → Bytes
trim_left [] = []
trim_left (c ∷ s) = if c == b'"' then trim_left s else c ∷ s

abbrev add_unless_quote : ℕ → Bytes → Bytes
add_unless_quote c [] = if c == b'"' then [] else c ∷ []
add_unless_quote c (d ∷ s) = c ∷ d ∷ s

unfoldable pub trim_right : Bytes → Bytes
trim_right [] = []
trim_right (c ∷ s) = add_unless_quote c (trim_right s)

-- `unknownField`, of the text of an error
unfoldable pub unknown_field_in : Bytes → Option Bytes
unfolding behind trim_left trim_right
unknown_field_in message = elim (behind (codes "unknown field ") message) [
  | none ↦ none
  | some rest ↦ some (trim_right (trim_left rest))
]

module _ (text : Text) where
  open text use {parse_first, quote, reason}

  unfoldable pub refusal : Bytes → JsonError → Bytes
  unfolding unknown_field_in
  refusal payload error = elim (unknown_field_in (reason payload error)) [
    | none ↦ codes "malformed request: " ++ reason payload error
    | some field ↦
        codes "this daemon does not understand "
        ++ (quote field
            ++ codes "; it is older than the client talking to it, and restarting it will fix that")
  ]

  unfoldable pub decoded : Bytes → Request × Option JsonError → Bytes ⊎ Request
  unfolding refusal
  decoded payload (r, none) = inr r
  decoded payload (r, some error) = inl (refusal payload error)

  -- `decodeRequest`: the text of its error, or the request.
  unfoldable pub decode_request : Bytes → Bytes ⊎ Request
  unfolding refusal decoded into_struct
  decode_request payload = elim (parse_first payload) [
    | none ↦ inl (refusal payload syntax)
    | some j ↦ decoded payload (into_struct true (request_fields text) j (no_request, none))
  ]
