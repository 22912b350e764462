-- ===== src/Tests/Environments.antt =====
-- session.go, the environment of a child that is spawned from inside another session.
use windrunner.Prelude.{◌≡◌, ◌≢◌, refl, ◌++◌, [], ◌∷◌, codes, Bytes, List, none, some}
use windrunner.Environment.{assignment, child_environment, cut_name, session_variable}
use windrunner.Environment.Laws.{
  entries_of, entries_of-child_environment, child_environment-override,
}

abbrev outer : List Bytes
outer = codes "PATH=/bin" ∷ codes "WINDRUNNER_SESSION=grandparent" ∷ codes "TERM=dumb" ∷ []

entries_of-child_environment_example :
    entries_of (child_environment (codes "id") outer none []) session_variable
    ≡ (assignment session_variable ++ codes "id") ∷ []
entries_of-child_environment_example = entries_of-child_environment (codes "id") outer none []

named : cut_name (codes "TERM=vt100") ≡ some (codes "TERM")
unfolding cut_name
named = refl

not_empty : codes "TERM" ≢ []
not_empty h = cc

not_session : codes "TERM" ≢ session_variable
not_session h = cc

abbrev path_entry : List Bytes
path_entry = codes "PATH=/usr/bin" ∷ []

path_other : cut_name (codes "PATH=/usr/bin") ≢ some (codes "TERM")
unfolding cut_name
path_other h = cc

child_environment-override_example :
    entries_of
      (child_environment
        (codes "id")
        outer
        none
        ((codes "TERM=ansi" ∷ []) ++ codes "TERM=vt100" ∷ path_entry))
      (codes "TERM")
    ≡ codes "TERM=vt100" ∷ []
child_environment-override_example =
    child_environment-override (codes "TERM=vt100") (codes "TERM") named (codes "id") outer none
      (codes "TERM=ansi" ∷ []) path_entry not_empty not_session (path_other, tt)
