-- ===== src/Server/Replies.antt =====
-- server/server.go: what the response of an operation has in it.
use windrunner.Prelude.{
  ◌≡◌, sym, subst, equal_iff, Bool, true, false, not, ◌&&◌, ◌||◌, Bytes, codes, equal, Option, none,
  some, arith,
}
use windrunner.Json.{Text}
use windrunner.Vt.{Vt}
use windrunner.Engine.{Engine}
use windrunner.Wire.Payloads.Requests.{Request}
use windrunner.Wire.Payloads.Responses.{Response}
use windrunner.Server.{Answers}
use windrunner.Server.Handle.{
  handle, handle_cases, handle_spawn, spawned, handle_list, handle_info, handle_kill, handle_remove,
  handle_resize, resized, handle_set_metadata, set_conditionally, set_session_metadata,
  input_session, handle_input, handle_snapshot,
}

abbrev pub is_some {ℓ} : {A : Type ℓ} → Option A → Bool
is_some none = false
is_some (some a) = true

-- The operations whose reply describes the session.
abbrev pub describes : Bytes → Bool
describes op =
    equal op (codes "spawn") || (equal op (codes "info") || equal op (codes "set_metadata"))

-- The fields are there that a client takes from the reply.
pub record IsComplete (op : Bytes) (response : Response) : Type 0 where
  pub session : response.ok && describes op ≡ true → is_some response.session ≡ true
  pub snapshot :
      response.ok && equal op (codes "snapshot") ≡ true → is_some response.snapshot ≡ true
  pub conflict : response.conflict ≡ true → is_some response.session && not response.ok ≡ true

module _ (text : Text) (v : Vt) (audited : Bool) (a : Answers) (r : Request) where
  named :
      (name : Bytes) {response : Response}
      → IsComplete name response
      → equal r.op name ≡ true
      → IsComplete r.op response
  named name {response = response} c same =
      subst (λ op. IsComplete op response) (sym ((equal_iff r.op name).0 same)) c

  spawn-IsComplete :
      (e : Engine v) → IsComplete (codes "spawn") (handle_spawn text v audited a r e).response
  unfolding handle_spawn spawned equal
  spawn-IsComplete e = ground arith

  info-IsComplete :
      (e : Engine v) → IsComplete (codes "info") (handle_info text v audited a r e).response
  unfolding handle_info equal
  info-IsComplete e = ground arith

  list-IsComplete :
      (e : Engine v) → IsComplete (codes "list") (handle_list text v audited a r e).response
  unfolding handle_list equal
  list-IsComplete e = ground arith

  set_metadata-IsComplete :
      (e : Engine v)
      → IsComplete (codes "set_metadata") (handle_set_metadata text v audited a r e).response
  unfolding handle_set_metadata set_session_metadata set_conditionally equal
  set_metadata-IsComplete e = ground arith

  kill-IsComplete :
      (e : Engine v) → IsComplete (codes "kill") (handle_kill text v audited a r e).response
  unfolding handle_kill equal
  kill-IsComplete e = ground arith

  remove-IsComplete :
      (e : Engine v) → IsComplete (codes "remove") (handle_remove text v audited a r e).response
  unfolding handle_remove equal
  remove-IsComplete e = ground arith

  resize-IsComplete :
      (e : Engine v) → IsComplete (codes "resize") (handle_resize text v audited a r e).response
  unfolding handle_resize resized equal
  resize-IsComplete e = ground arith

  input-IsComplete :
      (e : Engine v) → IsComplete (codes "input") (handle_input text v audited a r e).response
  unfolding handle_input input_session equal
  input-IsComplete e = ground arith

  snapshot-IsComplete :
      (e : Engine v) → IsComplete (codes "snapshot") (handle_snapshot text v audited a r e).response
  unfolding handle_snapshot equal
  snapshot-IsComplete e = ground arith

  pub handle-IsComplete : (e : Engine v) → IsComplete r.op (handle text v audited a r e).response
  handle-IsComplete e =
      handle_cases text v audited a r (λ o. IsComplete r.op o.response) e
        (named (codes "spawn") (spawn-IsComplete e)) (named (codes "list") (list-IsComplete e))
        (named (codes "info") (info-IsComplete e)) (named (codes "kill") (kill-IsComplete e))
        (named (codes "remove") (remove-IsComplete e))
        (named (codes "resize") (resize-IsComplete e))
        (named (codes "set_metadata") (set_metadata-IsComplete e))
        (named (codes "input") (input-IsComplete e))
        (named (codes "snapshot") (snapshot-IsComplete e))
        (λ _. record { session = λ h. cc; snapshot = λ h. cc; conflict = λ h. cc })
