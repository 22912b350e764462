-- ===== src/Server/Decoding.antt =====
-- server/server.go: `decodeRequest` on what a client has marshalled, and on what it does not know.
use windrunner.Prelude.{
  ◌==◌, ◌≡◌, refl, ap, ◌∙◌, Bool, true, false, Bytes, List, [], ◌∷◌, ◌++◌, Option, none, some,
  codes, has_prefix, All, inl, inr, arith, if◌then◌else◌,
}
use windrunner.Json.{
  Json, obj, Members, no_members, member, IsAscii, IsPlain, HasPlain, IsPlainText, Text, JsonError,
  unknown_field,
}
use windrunner.Json.Struct.{
  Field, lookup, take_member, take_members, into_struct, keep_first, assign,
}
use windrunner.Wire.Payloads.{marshal}
use windrunner.Wire.Payloads.Fields.{Takes}
use windrunner.Wire.Payloads.Requests.{Request, no_request, request_fields, request_members}
use windrunner.Wire.Payloads.Requests.RoundTrip.{IsSendable, as_read, takes-request}
use windrunner.Server.Requests.{
  behind, trim_left, trim_right, unknown_field_in, refusal, decoded, decode_request,
}

abbrev pub chain : Members → Members → Members
chain no_members others = others
chain (member key j rest) others = member key j (chain rest others)

chain-HasPlain : (ms others : Members) → HasPlain ms → HasPlain others → HasPlain (chain ms others)
chain-HasPlain no_members others h h' = h'
chain-HasPlain (member key j rest) others h h' = (h.0, h.1, chain-HasPlain rest others h.2 h')

module _ {ℓ} {R : Type ℓ} (strict : Bool) (fields : List (Field R)) where
  take_members-chain :
      (ms others : Members) (state : R × Option JsonError)
      → take_members strict fields (chain ms others) state
        ≡ take_members strict fields others (take_members strict fields ms state)
  unfolding take_members
  take_members-chain no_members others state = refl
  take_members-chain (member key j rest) others state =
      take_members-chain rest others (take_member strict fields key j state)

  -- The first error is kept.
  member_keeps :
      (key : Bytes) (j : Json) (state : R × Option JsonError) (error : JsonError)
      → state.1 ≡ some error
      → (take_member strict fields key j state).1 ≡ some error
  unfolding take_member assign keep_first
  member_keeps key j state error h = ground arith

  take_member-unknown :
      (key : Bytes) (j : Json) (r : R)
      → lookup key fields ≡ none
      → (take_member strict fields key j (r, none)).1
        ≡ (if strict then some (unknown_field key) else none)
  unfolding take_member keep_first
  take_member-unknown key j r unknown = ground arith

  keeps :
      (ms : Members) (state : R × Option JsonError) (error : JsonError)
      → state.1 ≡ some error
      → (take_members strict fields ms state).1 ≡ some error
  unfolding take_members
  keeps no_members state error h = h
  keeps (member key j rest) state error h =
      keeps rest (take_member strict fields key j state) error (member_keeps key j state error h)

trim_right-append : (s : Bytes) → All (λ c. (c == b'"') ≡ false) s → trim_right (s ++ b'"' ∷ []) ≡ s
unfolding trim_right
trim_right-append [] h = refl
trim_right-append (c ∷ []) h = ground (arith, h.0)
trim_right-append (c ∷ d ∷ s) h = rw (trim_right-append (d ∷ s) h.1) refl

trim-quoted :
    (s : Bytes)
    → All (λ c. (c == b'"') ≡ false) s
    → trim_right (trim_left (b'"' ∷ s ++ b'"' ∷ [])) ≡ s
unfolding trim_left trim_right
trim-quoted [] h = refl
trim-quoted (c ∷ s) h = rw h.0 (trim_right-append (c ∷ s) h)

no_quotes : (s : Bytes) → IsPlainText s → All (λ c. (c == b'"') ≡ false) s
no_quotes [] h = tt
no_quotes (c ∷ s) h = (ground (arith, h.0), no_quotes s h.1)

plain-IsAscii : (s : Bytes) → IsPlainText s → IsAscii s
plain-IsAscii [] h = tt
plain-IsAscii (c ∷ s) h = (omega (arith, h.0), plain-IsAscii s h.1)

found-unknown :
    (key : Bytes)
    → IsPlainText key
    → unknown_field_in (codes "json: unknown field " ++ b'"' ∷ key ++ b'"' ∷ []) ≡ some key
unfolding unknown_field_in behind has_prefix
found-unknown key plain = ap some (trim-quoted key (no_quotes key plain))

-- What the daemon says of a field that it does not know.
abbrev pub too_old : Bytes → Bytes
too_old key =
    codes "this daemon does not understand "
    ++ ((b'"' ∷ key ++ b'"' ∷ [])
        ++ codes "; it is older than the client talking to it, and restarting it will fix that")

module _ (text : Text) where
  -- What a client marshals of a request is what the daemon decodes; an empty list is read as none.
  pub decode_request-marshal :
      (r : Request)
      → IsSendable r
      → decode_request text (marshal text (request_members text r)) ≡ inr (as_read r)
  unfolding decode_request decoded into_struct
  decode_request-marshal r s =
      let takes = takes-request text r s in
      rw (text.parse_first-print (obj (request_members text r)) takes.plain, decode_request)
        (ap (decoded text _) takes.taken)

  refusal-unknown :
      (payload key : Bytes)
      → IsPlainText key
      → refusal text payload (unknown_field key) ≡ too_old key
  unfolding refusal
  refusal-unknown payload key plain =
      let quoted = text.quote-IsPlainText key plain in
      rw (text.reason-unknown_field payload key, quoted, found-unknown key plain, refusal)
        (ap
          (λ (q : Bytes).
            codes "this daemon does not understand "
            ++ (q
                ++ codes
                    "; it is older than the client talking to it, and restarting it will fix that"))
          quoted)

  decoded-some :
      (payload : Bytes) (state : Request × Option JsonError) (error : JsonError)
      → state.1 ≡ some error
      → decoded text payload state ≡ inl (refusal text payload error)
  unfolding decoded
  decoded-some payload state error h = ground arith

  -- A request with a field that the daemon does not know, behind any fields that it takes and in
  -- front of any others, is refused with an error that says which field it was and that a restart
  -- will fix it, where the key is printable ASCII without quotes and backslashes.
  pub decode_request-unknown :
      (before after : Members) (key : Bytes) (j : Json) (r : Request)
      → Takes true (request_fields text) before no_request r
      → lookup key (request_fields text) ≡ none
      → IsPlainText key
      → IsPlain j
      → HasPlain after
      → decode_request text (marshal text (chain before (member key j after))) ≡ inl (too_old key)
  unfolding decode_request into_struct take_members
  decode_request-unknown before after key j r known unknown plain value others =
      let ms = chain before (member key j after) in
      let fields = request_fields text in
      let refused =
        ap (λ (state : Request × Option JsonError). state.1)
          (take_members-chain true fields before (member key j after) (no_request, none)
            ∙ ap (take_members true fields (member key j after)) known.taken)
        ∙ keeps true fields after (take_member true fields key j (r, none)) (unknown_field key)
            (take_member-unknown true fields key j r unknown) in
      rw
        (
          text.parse_first-print (obj ms) (
              chain-HasPlain before (member key j after) known.plain
                (plain-IsAscii key plain, value, others)),
          decode_request,
        )
        (decoded-some _ (take_members true fields ms (no_request, none)) (unknown_field key) refused
          ∙ ap inl (refusal-unknown _ key plain))
