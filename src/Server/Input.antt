-- ===== src/Server/Input.antt =====
-- server/server.go: what reaches a PTY, and what stands in the audit log.
use windrunner.Prelude.{
  ℕ, ◌+◌, ◌≡◌, refl, sym, subst, Bool, true, false, ◌&&◌, Bytes, List, [], ◌∷◌, take, codes, equal,
  equal_iff, Option, none, some, if◌then◌else◌, arith,
}
use windrunner.Json.{Text}
use windrunner.Session.{Session}
use windrunner.Vt.{Vt}
use windrunner.Engine.{Engine, find}
use windrunner.Wire.Payloads.Requests.{Request}
use windrunner.Wire.Payloads.Responses.{Response}
use windrunner.Server.{Answers, Effect, pty_write, audit_line, Outcome, outcome}
use windrunner.Server.Handle.{
  handle, handle_cases, handle_spawn, spawned, handle_list, handle_info, handle_kill, handle_remove,
  handle_resize, resized, handle_set_metadata, set_conditionally, set_session_metadata,
  input_session, handle_input, handle_snapshot,
}
use windrunner.Server.Replies.{is_some}

-- The writes to a PTY, and the lines of the log.
abbrev pub writes : List Effect → List (Bytes × Bytes)
writes [] = []
writes (pty_write id bytes ∷ effects) = (id, bytes) ∷ writes effects
writes (_ ∷ effects) = writes effects

abbrev pub lines : List Effect → ℕ
lines [] = 0
lines (audit_line line ∷ effects) = lines effects + 1
lines (_ ∷ effects) = lines effects

module _ {v : Vt} where
  abbrev pub accepts : Option (Session v) → Bool
  accepts none = false
  accepts (some s) = s.peer

-- What is written where a request is carried out.
abbrev pub expected_writes : Answers → Request → Bool → List (Bytes × Bytes)
expected_writes a r accepted =
    if accepted then (r.id, if a.written then r.bytes else take a.accepted r.bytes) ∷ [] else []

module _ (text : Text) (v : Vt) (audited : Bool) (a : Answers) (r : Request) where
  -- The writes and the lines of an outcome, for the operation of that name.
  record Gate (e : Engine v) (op : Bytes) (o : Outcome v) : Type 0 where
    written :
        writes o.effects
        ≡ expected_writes a r (equal op (codes "input") && accepts (find v r.id e.sessions))
    logged : lines o.effects ≡ (
        if audited && (equal op (codes "input") && is_some (find v r.id e.sessions)) then 1 else 0)

  spawn-Gate : (e : Engine v) → Gate e (codes "spawn") (handle_spawn text v audited a r e)
  unfolding handle_spawn spawned equal
  spawn-Gate e = ground arith

  list-Gate : (e : Engine v) → Gate e (codes "list") (handle_list text v audited a r e)
  unfolding handle_list equal
  list-Gate e = ground arith

  info-Gate : (e : Engine v) → Gate e (codes "info") (handle_info text v audited a r e)
  unfolding handle_info equal
  info-Gate e = ground arith

  kill-Gate : (e : Engine v) → Gate e (codes "kill") (handle_kill text v audited a r e)
  unfolding handle_kill equal
  kill-Gate e = ground arith

  remove-Gate : (e : Engine v) → Gate e (codes "remove") (handle_remove text v audited a r e)
  unfolding handle_remove equal
  remove-Gate e = ground arith

  resize-Gate : (e : Engine v) → Gate e (codes "resize") (handle_resize text v audited a r e)
  unfolding handle_resize resized equal
  resize-Gate e = ground arith

  set_metadata-Gate :
      (e : Engine v) → Gate e (codes "set_metadata") (handle_set_metadata text v audited a r e)
  unfolding handle_set_metadata set_session_metadata set_conditionally equal
  set_metadata-Gate e = ground arith

  input-Gate : (e : Engine v) → Gate e (codes "input") (handle_input text v audited a r e)
  unfolding handle_input input_session equal
  input-Gate e = ground arith

  snapshot-Gate : (e : Engine v) → Gate e (codes "snapshot") (handle_snapshot text v audited a r e)
  unfolding handle_snapshot equal
  snapshot-Gate e = ground arith

  named :
      (name : Bytes) {e : Engine v} {o : Outcome v}
      → Gate e name o
      → equal r.op name ≡ true
      → Gate e r.op o
  named name {e = e} {o = o} g same =
      subst (λ op. Gate e op o) (sym ((equal_iff r.op name).0 same)) g

  unknown-Gate :
      (e : Engine v) (response : Response)
      → equal r.op (codes "input") ≡ false
      → Gate e r.op (outcome e response)
  unknown-Gate e response other = record {
    written = rw other refl;
    logged = rw other (ground arith);
  }

  handle-Gate : (e : Engine v) → Gate e r.op (handle text v audited a r e)
  handle-Gate e =
      handle_cases text v audited a r (Gate e r.op) e (named (codes "spawn") (spawn-Gate e))
        (named (codes "list") (list-Gate e)) (named (codes "info") (info-Gate e))
        (named (codes "kill") (kill-Gate e)) (named (codes "remove") (remove-Gate e))
        (named (codes "resize") (resize-Gate e))
        (named (codes "set_metadata") (set_metadata-Gate e)) (named (codes "input") (input-Gate e))
        (named (codes "snapshot") (snapshot-Gate e)) (unknown-Gate e _)

  -- Of all the requests only an input for a session in the registry that accepts peers is written
  -- to a PTY: to that session's, and all of its bytes, or what a failing write accepts of them.
  -- Where there is an audit log an input for a session in the registry, also a refused or a failed
  -- one, leaves one line in it, and nothing else leaves any.
  pub handle-writes :
      (e : Engine v)
      → let o = handle text v audited a r e in
        let inputs = equal r.op (codes "input") in
        (writes o.effects ≡ expected_writes a r (inputs && accepts (find v r.id e.sessions)))
        × (lines o.effects
            ≡ (if audited && (inputs && is_some (find v r.id e.sessions)) then 1 else 0))
  handle-writes e = let g = handle-Gate e in (g.written, g.logged)
