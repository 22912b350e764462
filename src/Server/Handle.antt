-- ===== src/Server/Handle.antt =====
-- server/server.go: the operations of `handle`, undisturbed by other connections.
use windrunner.Prelude.{
  ℕ, Bool, true, false, not, Bytes, List, [], ◌∷◌, ◌++◌, Option, none, some, codes, equal, take,
  if◌then◌else◌, ◌⊎◌, inl, inr, ◌≡◌, ap, if_cases,
}
use windrunner.Prelude.Decimal.{decimal}
use windrunner.Json.{Text}
use windrunner.Session.{Session, Error, snapshot, set_metadata, set_metadata_if}
use windrunner.Viewers
use windrunner.Viewers.{kill_signals}
use windrunner.Engine.{Engine, find, spawn, remove_session}
use windrunner.Engine.Sessions.{sorted_sessions}
use windrunner.Vt.{Vt}
use windrunner.Wire.Payloads.Requests.{Request}
use windrunner.Wire.Payloads.Responses.{Response}
use windrunner.Server.{
  Answers, Effect, sigkill, hang_up, pty_write, audit_line, Outcome, outcome, error_text,
  spawn_spec, audit_send, failed, succeeded, unknown_session, snapshot_payload, store, describe,
  describe_each, described,
}

module _ (text : Text) (v : Vt) (audited : Bool) (a : Answers) (r : Request) where
  -- The line of `auditSend`, where `cfg.audit` is set.
  abbrev pub audit : Bytes → List Effect
  audit result = if audited then audit_line (audit_send text r result) ∷ [] else []

  -- `engine.Session(request.ID)` and the refusal where it finds none.
  abbrev pub with_session : Engine v → (Session v → Outcome v) → Outcome v
  with_session e act = elim (find v r.id e.sessions) [
    | none ↦ outcome e (unknown_session r.id)
    | some s ↦ act s
  ]

  unfoldable pub spawned : Engine v × (Error ⊎ Session v) → Outcome v
  unfolding error_text describe
  spawned (e, inl error) = outcome e (failed (error_text r.command a.failure error))
  spawned (e, inr s) = outcome e (described s)

  unfoldable pub handle_spawn : Engine v → Outcome v
  unfolding spawned spawn spawn_spec
  handle_spawn e = elim a.new_id [
    | none ↦ outcome e (failed (codes "windrunner: generate session id: " ++ a.failure))
    | some id ↦ spawned (spawn v id a.environ (spawn_spec r) a.started e)
  ]

  unfoldable pub handle_list : Engine v → Outcome v
  unfolding sorted_sessions describe
  handle_list e =
      outcome e (record succeeded { sessions = describe_each (sorted_sessions e.sessions) })

  unfoldable pub handle_info : Engine v → Outcome v
  unfolding find describe
  handle_info e = with_session e (λ s. outcome e (described s))

  unfoldable pub handle_kill : Engine v → Outcome v
  unfolding find
  handle_kill e = with_session e (λ s.
      if not (kill_signals v s)
      then outcome e succeeded
      else if not a.signalled
      then outcome e (failed a.failure)
      else record { engine = e; response = succeeded; effects = sigkill r.id ∷ [] })

  -- What `close` does to the process and the PTY of the session.
  abbrev pub ended : Option (Session v) → List Effect
  ended none = []
  ended (some s) =
      if s.closed
      then []
      else if kill_signals v s
      then sigkill r.id ∷ hang_up r.id ∷ []
      else hang_up r.id ∷ []

  unfoldable pub handle_remove : Engine v → Outcome v
  unfolding find remove_session
  handle_remove e = record {
    engine = (remove_session v r.id e).0;
    response = succeeded;
    effects = ended (find v r.id e.sessions);
  }

  unfoldable pub resized : Engine v → Session v × Option Error → Outcome v
  unfolding error_text
  resized e (s, none) = outcome (store r.id s e) succeeded
  resized e (s, some error) =
      outcome (store r.id s e) (failed (error_text r.command a.failure error))

  unfoldable pub handle_resize : Engine v → Outcome v
  unfolding find resized Viewers.resize
  handle_resize e = with_session e (λ s. resized e (Viewers.resize v a.sized r.cols r.rows s))

  abbrev pub stale : Session v → ℕ → ℕ → Response
  stale s expected current = record (described s) {
    ok = false;
    error =
        codes "metadata revision "
        ++ (decimal expected
            ++ (codes " of session "
                ++ (r.id ++ (codes " is stale; it is at " ++ decimal current))));
    conflict = true;
  }

  unfoldable pub set_conditionally : Engine v → ℕ → Session v × ℕ × Bool → Outcome v
  unfolding describe
  set_conditionally e expected (s, current, true) = outcome (store r.id s e) (described s)
  set_conditionally e expected (s, current, false) =
      outcome (store r.id s e) (stale s expected current)

  unfoldable pub set_session_metadata : Engine v → Session v → Outcome v
  unfolding describe set_metadata set_metadata_if set_conditionally
  set_session_metadata e s = elim r.if_revision [
    | none ↦ (let (s', _) = set_metadata v r.metadata s in outcome (store r.id s' e) (described s'))
    | some expected ↦ set_conditionally e expected (set_metadata_if v expected r.metadata s)
  ]

  unfoldable pub handle_set_metadata : Engine v → Outcome v
  unfolding find set_session_metadata
  handle_set_metadata e = with_session e (set_session_metadata e)

  unfoldable pub input_session : Engine v → Session v → Outcome v
  input_session e s =
      if not s.peer
      then record {
        engine = e;
        response =
            failed
              (codes "session " ++ (r.id ++ codes " does not accept peer input (opt in at spawn)"));
        effects = audit (codes "refused: no peer access");
      }
      else if not a.written
      then record {
        engine = e;
        response = failed a.failure;
        effects = pty_write r.id (take a.accepted r.bytes) ∷ audit (codes "failed: " ++ a.failure);
      }
      else record {
        engine = e;
        response = succeeded;
        effects = pty_write r.id r.bytes ∷ audit (codes "delivered");
      }

  unfoldable pub handle_input : Engine v → Outcome v
  unfolding find input_session
  handle_input e = with_session e (input_session e)

  unfoldable pub handle_snapshot : Engine v → Outcome v
  unfolding find snapshot
  handle_snapshot e =
      with_session e
        (λ s. outcome e (record succeeded { snapshot = some (snapshot_payload (snapshot v s)) }))

  -- `handle`
  unfoldable pub handle : Engine v → Outcome v
  handle e =
      if equal r.op (codes "spawn")
      then handle_spawn e
      else if equal r.op (codes "list")
      then handle_list e
      else if equal r.op (codes "info")
      then handle_info e
      else if equal r.op (codes "kill")
      then handle_kill e
      else if equal r.op (codes "remove")
      then handle_remove e
      else if equal r.op (codes "resize")
      then handle_resize e
      else if equal r.op (codes "set_metadata")
      then handle_set_metadata e
      else if equal r.op (codes "input")
      then handle_input e
      else if equal r.op (codes "snapshot")
      then handle_snapshot e
      else outcome e (failed (codes "unknown op: " ++ r.op))

  -- `handle` has a property if each operation has it that the request can name.
  pub handle_cases {κ} :
      (P : Outcome v → Type κ) (e : Engine v)
      → (equal r.op (codes "spawn") ≡ true → P (handle_spawn e))
      → (equal r.op (codes "list") ≡ true → P (handle_list e))
      → (equal r.op (codes "info") ≡ true → P (handle_info e))
      → (equal r.op (codes "kill") ≡ true → P (handle_kill e))
      → (equal r.op (codes "remove") ≡ true → P (handle_remove e))
      → (equal r.op (codes "resize") ≡ true → P (handle_resize e))
      → (equal r.op (codes "set_metadata") ≡ true → P (handle_set_metadata e))
      → (equal r.op (codes "input") ≡ true → P (handle_input e))
      → (equal r.op (codes "snapshot") ≡ true → P (handle_snapshot e))
      → (equal r.op (codes "input") ≡ false → P (outcome e (failed (codes "unknown op: " ++ r.op))))
      → P (handle e)
  unfolding handle
  handle_cases P e spawn list info kill remove resize set input snapshot unknown =
      if_cases P _ _ _ spawn λ _. if_cases P _ _ _ list λ _. if_cases P _ _ _ info λ _.
        if_cases P _ _ _ kill λ _. if_cases P _ _ _ remove λ _. if_cases P _ _ _ resize λ _.
          if_cases P _ _ _ set
            λ _. if_cases P _ _ _ input λ other. if_cases P _ _ _ snapshot λ _. unknown other

  pub with_session-some :
      (e : Engine v) (s : Session v) (act : Session v → Outcome v)
      → find v r.id e.sessions ≡ some s
      → with_session e act ≡ act s
  unfolding find
  with_session-some e s act found =
      ap (λ o. elim o [ none ↦ outcome e (unknown_session r.id) | some s ↦ act s ]) found

  pub with_session-none :
      (e : Engine v) (act : Session v → Outcome v)
      → find v r.id e.sessions ≡ none
      → with_session e act ≡ outcome e (unknown_session r.id)
  unfolding find
  with_session-none e act absent =
      ap (λ o. elim o [ none ↦ outcome e (unknown_session r.id) | some s ↦ act s ]) absent
