-- ===== src/Session/Revisions.antt =====
-- The compare-and-swap of a session's metadata against the writes of others.
use windrunner.Prelude.{
  ℕ, ◌+◌, ◌%◌, ◌^◌, ◌≤◌, ◌<◌, ◌≡◌, refl, ◌∙◌, true, List, [], ◌∷◌, length, ◌==◌, if◌then◌else◌,
  arith,
}
use windrunner.Session.{Session, Metadata, next_seq, set_metadata, set_metadata_if}
use windrunner.Vt.{Vt}

-- A call of `SetMetadata` or `SetMetadataIf`, by anybody.
pub data Write : Type 0 where
  always : Metadata → Write
  only_if : ℕ → Metadata → Write

module _ {v : Vt} where
  abbrev pub perform : Write → Session v → Session v
  perform (always metadata) s = (set_metadata v metadata s).0
  perform (only_if expected metadata) s = (set_metadata_if v expected metadata s).0

  abbrev pub run : List Write → Session v → Session v
  run [] s = s
  run (w ∷ ws) s = run ws (perform w s)

  -- Does the call change the metadata.
  wrote : Write → Session v → ℕ
  wrote (always metadata) s = 1
  wrote (only_if expected metadata) s = if s.revision == expected then 1 else 0

  writes : List Write → Session v → ℕ
  writes [] s = 0
  writes (w ∷ ws) s = wrote w s + writes ws (perform w s)

  perform-revision :
      (w : Write) (s : Session v)
      → s.revision < 2 ^ 64
      → ((perform w s).revision ≡ (s.revision + wrote w s) % 2 ^ 64) × (wrote w s ≤ 1)
  unfolding set_metadata set_metadata_if wrote
  perform-revision (always metadata) s fits = (refl, omega arith)
  perform-revision (only_if expected metadata) s fits = (ground arith, ground arith)

  perform-metadata :
      (w : Write) (s : Session v) → wrote w s ≡ 0 → (perform w s).metadata ≡ s.metadata
  unfolding set_metadata set_metadata_if wrote
  perform-metadata (always metadata) s none = absurd (omega arith)
  perform-metadata (only_if expected metadata) s none = ground arith

  run-revision :
      (ws : List Write) (s : Session v)
      → s.revision < 2 ^ 64
      → ((run ws s).revision ≡ (s.revision + writes ws s) % 2 ^ 64) × (writes ws s ≤ length ws)
  unfolding writes
  run-revision [] s fits = (omega arith, omega arith)
  run-revision (w ∷ ws) s fits =
      let (step, one) = perform-revision w s fits in
      let (rest, bound) = run-revision ws (perform w s) (omega arith) in
      (rest ∙ omega arith, omega arith)

  run-metadata :
      (ws : List Write) (s : Session v) → writes ws s ≡ 0 → (run ws s).metadata ≡ s.metadata
  unfolding writes
  run-metadata [] s none = refl
  run-metadata (w ∷ ws) s none =
      run-metadata ws (perform w s) (omega arith) ∙ perform-metadata w s (omega arith)

  -- A writer that has read the metadata at some revision, and whose SetMetadataIf with that
  -- revision is accepted after fewer than 2^64 calls of others, overwrites just the metadata that
  -- it has read, and the revision goes one further.
  pub set_metadata_if-run :
      (ws : List Write) (s : Session v) (metadata : Metadata)
      → s.revision < 2 ^ 64
      → length ws < 2 ^ 64
      → (set_metadata_if v s.revision metadata (run ws s)).2 ≡ true
      → ((run ws s).metadata ≡ s.metadata)
        × ((set_metadata_if v s.revision metadata (run ws s)).0.metadata ≡ metadata)
        × ((set_metadata_if v s.revision metadata (run ws s)).0.revision ≡ next_seq s.revision)
  unfolding set_metadata_if
  set_metadata_if-run ws s metadata fits few accepted =
      let same : (run ws s).revision ≡ s.revision = ground arith in
      let (counted, bound) = run-revision ws s fits in
      (run-metadata ws s (omega arith), ground arith, ground arith)
