-- ===== src/Engine/Sessions.antt =====
-- engine.go: `Sessions`, in the order of their ids.
pub mod Laws
use windrunner.Prelude.{Bool, true, false, Bytes, List, [], ◌∷◌, ltb, ◌==◌, if◌then◌else◌}
use windrunner.Session.{Session}
use windrunner.Vt.{Vt}

-- Go's `<` on strings.
unfoldable pub less : Bytes → Bytes → Bool
less s [] = false
less [] (d ∷ t) = true
less (c ∷ s) (d ∷ t) = if ltb c d then true else if c == d then less s t else false

module _ {v : Vt} where
  unfoldable pub insert : Session v → List (Session v) → List (Session v)
  unfolding less
  insert s [] = s ∷ []
  insert s (t ∷ sessions) = if less t.id s.id then t ∷ insert s sessions else s ∷ t ∷ sessions

  unfoldable pub sorted_sessions : List (Bytes × Session v) → List (Session v)
  unfolding insert
  sorted_sessions [] = []
  sorted_sessions ((id, s) ∷ sessions) = insert s (sorted_sessions sessions)
