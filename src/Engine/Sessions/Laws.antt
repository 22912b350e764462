-- ===== src/Engine/Sessions/Laws.antt =====
-- engine.go: the order of `Sessions`.
use mathlib.Core.List.{Perm}
use mathlib.Core.List.Perm
use windrunner.Prelude.{◌≡◌, refl, true, false, Bytes, List, [], ◌∷◌, Bool-cases, inl, inr, arith}
use windrunner.Session.{Session}
use windrunner.Vt.{Vt}
use windrunner.Engine.Sessions.{less, insert, sorted_sessions}

less_asym : (s t : Bytes) → less s t ≡ true → less t s ≡ false
unfolding less
less_asym s [] h = ground arith
less_asym [] (d ∷ t) h = refl
less_asym (c ∷ s) (d ∷ t) h = ground (arith, less_asym s t)

module _ {v : Vt} where
  -- None of the ids comes before the one in front of it.
  abbrev pub IsAscending : List (Session v) → Type 0
  IsAscending [] = Unit {0}
  IsAscending (s ∷ []) = Unit {0}
  IsAscending (s ∷ t ∷ rest) = (less t.id s.id ≡ false) × IsAscending (t ∷ rest)

  abbrev pub values : List (Bytes × Session v) → List (Session v)
  values [] = []
  values ((id, s) ∷ sessions) = s ∷ values sessions

  insert-perm : (s : Session v) (l : List (Session v)) → Perm (insert s l) (s ∷ l)
  unfolding insert
  insert-perm s [] = Perm.rfl
  insert-perm s (t ∷ l) = elim (Bool-cases (less t.id s.id)) [
    | inl before ↦
        rw (before, insert) (Perm.trans (Perm.cons t (insert-perm s l)) (Perm.swap s t l))
    | inr behind ↦ rw (behind, insert) Perm.rfl
  ]

  insert-IsAscending :
      (s : Session v) (l : List (Session v)) → IsAscending l → IsAscending (insert s l)
  unfolding insert
  insert-IsAscending s [] h = tt
  insert-IsAscending s (t ∷ []) h = ground (arith, less_asym t.id s.id)
  insert-IsAscending s (t ∷ u ∷ l) h =
      ground (arith, less_asym t.id s.id, insert-IsAscending s (u ∷ l) h.1)

  -- Sessions lists each session of the registry once, and no session's id comes before the id of
  -- the one in front of it.
  pub sorted_sessions-IsAscending :
      (sessions : List (Bytes × Session v))
      → IsAscending (sorted_sessions sessions) × Perm (sorted_sessions sessions) (values sessions)
  unfolding sorted_sessions
  sorted_sessions-IsAscending [] = (tt, Perm.rfl)
  sorted_sessions-IsAscending ((id, s) ∷ sessions) =
      let (ascending, same) = sorted_sessions-IsAscending sessions in
      (
        insert-IsAscending s (sorted_sessions sessions) ascending,
        Perm.trans (insert-perm s (sorted_sessions sessions)) (Perm.cons s same),
      )
