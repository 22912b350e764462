-- ===== src/Environment.antt =====
-- session.go: the child's environment in `startSession`, `envWithout` and `envHas`.
pub mod Laws
use windrunner.Prelude.{
  ℕ, Bool, true, false, not, ◌||◌, Bytes, List, [], ◌∷◌, ◌++◌, Option, none, some, codes, equal,
  has_prefix, ◌==◌, if◌then◌else◌,
}

abbrev pub assignment : Bytes → Bytes
assignment name = name ++ codes "="

-- `kept` in order; an entry that names the variable is dropped.
unfoldable pub env_without : List Bytes → Bytes → List Bytes
env_without [] name = []
env_without (entry ∷ env) name =
    if has_prefix entry (assignment name)
    then env_without env name
    else entry ∷ env_without env name

unfoldable pub env_has : List Bytes → Bytes → Bool
env_has [] name = false
env_has (entry ∷ env) name = has_prefix entry (assignment name) || env_has env name

-- `strings.Cut(entry, "=")` as far as it is used: the name in front, if there is an equals sign.
unfoldable pub cut_name : Bytes → Option Bytes
cut_name [] = none
cut_name (c ∷ rest) =
    if c == b'='
    then some []
    else elim (cut_name rest) [ none ↦ none | some name ↦ some (c ∷ name) ]

-- One round of the loop over `spec.EnvOverride`.
override_by : List Bytes → Bytes → Option Bytes → List Bytes
unfolding env_without
override_by env entry none = env
override_by env entry (some []) = env
override_by env entry (some (c ∷ name)) = env_without env (c ∷ name) ++ entry ∷ []

unfoldable pub override : List Bytes → List Bytes → List Bytes
unfolding override_by cut_name
override env [] = env
override env (entry ∷ entries) = override (override_by env entry (cut_name entry)) entries

abbrev pub term_default : Bytes
term_default = codes "TERM=xterm-256color"

abbrev pub session_variable : Bytes
session_variable = codes "WINDRUNNER_SESSION"

with_term : List Bytes → List Bytes
unfolding env_has
with_term env = if not (env_has env (codes "TERM")) then env ++ term_default ∷ [] else env

base_environment : List Bytes → Option (List Bytes) → List Bytes
base_environment inherited none = inherited
base_environment inherited (some env) = env

-- The environment of the child: `spec_env` is `spec.Env`, `none` where it is nil.
unfoldable pub child_environment :
    Bytes → List Bytes → Option (List Bytes) → List Bytes → List Bytes
unfolding override with_term env_without base_environment
child_environment id inherited spec_env overrides =
    env_without (with_term (override (base_environment inherited spec_env) overrides))
      session_variable
    ++ (assignment session_variable ++ id) ∷ []
