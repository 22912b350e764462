-- ===== src/Client/Calls.antt =====
-- client/client.go: what the calls make of the daemon's responses.
use windrunner.Prelude.{
  ℕ, ◌==◌, ◌≡◌, refl, sym, ap, subst, ◌∙◌, Bool, true, false, ◌&&◌, Bytes, List, [], codes, equal,
  equal_self, some, if◌then◌else◌, Bool-cases, inl, inr, arith,
}
use windrunner.Json.{Text}
use windrunner.Session.{Session, next_seq}
use windrunner.Engine.{Engine, find}
use windrunner.Vt.{Vt}
use windrunner.Wire.Payloads.Requests.{Request}
use windrunner.Wire.Payloads.Requests.RoundTrip.{as_read}
use windrunner.Wire.Payloads.Responses.{Response}
use windrunner.Server.{describe}
use windrunner.Server.Connection.{Turn}
use windrunner.Server.Replies.{describes, IsComplete, handle-IsComplete}
use windrunner.Server.Metadata.{handle-set_metadata_if}
use windrunner.Client.{
  Called, Reply, value, conflict, nil_panic, judged, call, session_of, snapshot_of, unless_conflict,
  conditional_request, set_metadata_if,
}
use windrunner.Client.Remote.{link, daemon, carried_out, IsCarried, call-handle}

abbrev pub panics {ℓ} : {A : Type ℓ} → Reply A → Bool
panics nil_panic = true
panics _ = false

-- What a client takes from a reply that is complete is there.
judged_complete :
    (op : Bytes) (response : Response)
    → IsComplete op response
    → (describes op && panics (session_of (judged response)) ≡ false)
      × (describes op && panics (unless_conflict (judged response)) ≡ false)
      × (equal op (codes "snapshot") && panics (snapshot_of (judged response)) ≡ false)
unfolding session_of unless_conflict snapshot_of
judged_complete op response c = ground (arith, c.session, c.snapshot)

module _ (text : Text) (v : Vt) (audited : Bool) (turns : ℕ → Turn v) (e : Engine v) where
  abbrev pub ask : Request → Called
  ask r = call text link (daemon text v audited turns e) [] r

  -- Over such a connection no call dereferences nil: a spawn, an info and a set_metadata that went
  -- well come with the session, a conflict does too, and a snapshot with the snapshot.
  pub call_complete :
      (r : Request)
      → IsCarried text v audited turns e r
      → (describes r.op && panics (session_of (ask r)) ≡ false)
        × (describes r.op && panics (unless_conflict (ask r)) ≡ false)
        × (equal r.op (codes "snapshot") && panics (snapshot_of (ask r)) ≡ false)
  call_complete r c =
      subst
        (λ (called : Called).
          (describes r.op && panics (session_of called) ≡ false)
          × (describes r.op && panics (unless_conflict called) ≡ false)
          × (equal r.op (codes "snapshot") && panics (snapshot_of called) ≡ false))
        (sym (call-handle text v audited turns e r c))
        (judged_complete r.op (carried_out text v audited turns e r).response
          (handle-IsComplete text v audited (turns 0).answers (as_read r) ((turns 0).meanwhile e)))

  -- Over such a connection SetMetadataIf on a session that the daemon has returns, if the revision
  -- is the session's, the session with the new metadata at the next revision, and otherwise a
  -- Conflict with the session as it stands.
  pub set_metadata_if-call :
      (id : Bytes) (metadata : List (Bytes × Bytes)) (revision : ℕ) (s : Session v)
      → IsCarried text v audited turns e (conditional_request id metadata revision)
      → find v id ((turns 0).meanwhile e).sessions ≡ some s
      → set_metadata_if ask id metadata revision ≡ (
          if s.revision == revision
          then value (describe (record s { metadata = metadata; revision = next_seq s.revision }))
          else conflict (describe s))
  unfolding set_metadata_if unless_conflict session_of
  set_metadata_if-call id metadata revision s c found =
      let r = conditional_request id metadata revision in
      ap unless_conflict (
        call-handle text v audited turns e r c
        ∙ ap (λ o. judged o.response)
            (handle-set_metadata_if text v audited (turns 0).answers (as_read r)
              ((turns 0).meanwhile e) s revision (equal_self (codes "set_metadata")) found refl))
      ∙ elim (Bool-cases (s.revision == revision)) [
        | inl same ↦ rw same refl
        | inr other ↦ rw other refl
      ]
