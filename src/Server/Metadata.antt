-- ===== src/Server/Metadata.antt =====
-- server/server.go: `set_metadata` with a revision.
use windrunner.Prelude.{
  ℕ, ◌==◌, ◌≡◌, refl, ap, ◌∙◌, Bool, true, Bytes, List, [], ◌∷◌, codes, equal, equal_iff,
  Bool-cases, inl, inr, some, if◌then◌else◌, arith,
}
use windrunner.Json.{Text}
use windrunner.Session.{Session, set_metadata_if, next_seq}
use windrunner.Vt.{Vt}
use windrunner.Engine.{Engine, find}
use windrunner.Wire.Payloads.Requests.{Request}
use windrunner.Server.{Answers, outcome, replace, store, described}
use windrunner.Server.Handle.{
  handle, handle_set_metadata, set_session_metadata, with_session-some, set_conditionally, stale,
}

module _ {v : Vt} where
  -- What is found in the registry behind a change of one session.
  pub find-replace :
      (id other : Bytes) (s s' : Session v) (sessions : List (Bytes × Session v))
      → find v id sessions ≡ some s
      → find v other (replace id s' sessions)
        ≡ (if equal id other then some s' else find v other sessions)
  unfolding find replace
  find-replace id other s s' [] h = cc
  find-replace id other s s' ((key, t) ∷ sessions) h =
      grind (arith, equal_iff, find-replace id other s s' sessions)

  -- A session that has not changed.
  replace-same :
      (id : Bytes) (s : Session v) (sessions : List (Bytes × Session v))
      → find v id sessions ≡ some s
      → replace id s sessions ≡ sessions
  unfolding find replace
  replace-same id s [] h = refl
  replace-same id s ((key, t) ∷ sessions) h = ground (arith, replace-same id s sessions)

module _ (text : Text) (v : Vt) (audited : Bool) (a : Answers) (r : Request) where
  handle_named :
      equal r.op (codes "set_metadata") ≡ true
      → (e : Engine v) → handle text v audited a r e ≡ handle_set_metadata text v audited a r e
  unfolding handle equal
  handle_named h e = rw ((equal_iff r.op (codes "set_metadata")).0 h, handle) refl

  -- A conditional write is refused exactly if the revision is stale.
  pub handle-set_metadata_if :
      (e : Engine v) (s : Session v) (expected : ℕ)
      → equal r.op (codes "set_metadata") ≡ true
      → find v r.id e.sessions ≡ some s
      → r.if_revision ≡ some expected
      → handle text v audited a r e ≡ (
          let s' = record s { metadata = r.metadata; revision = next_seq s.revision } in
          if s.revision == expected
          then outcome (store r.id s' e) (described s')
          else outcome e (stale text v audited a r s expected s.revision))
  unfolding handle_set_metadata set_session_metadata set_metadata_if set_conditionally
  handle-set_metadata_if e s expected op found conditional =
      handle_named op e
      ∙ with_session-some text v audited a r e s _ found
      ∙ rw (conditional, set_session_metadata)
          (elim (Bool-cases (s.revision == expected)) [
            | inl same ↦ rw (same, set_metadata_if) refl
            | inr other ↦
                rw (other, set_metadata_if)
                  (ap
                    (λ sessions.
                      outcome (record e { sessions = sessions })
                        (stale text v audited a r s expected s.revision))
                    (replace-same r.id s e.sessions found))
          ])
