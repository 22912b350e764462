-- ===== src/Environment/Laws.antt =====
-- What the child of a session finds in its environment.
use windrunner.Prelude.{
  ℕ, ◌≡◌, ◌≢◌, ◌⊎◌, inl, inr, refl, sym, ap, subst, ◌∙◌, true, false, not, Bytes, List, [], ◌∷◌,
  ◌++◌, Option, none, some, All, codes, has_prefix, has_prefix-append, ◌==◌, if◌then◌else◌,
  if_cases, Bool-cases, Option-cases, arith,
}
use windrunner.Environment.{
  assignment, env_without, env_has, cut_name, override, override_by, with_term, base_environment,
  child_environment, term_default, session_variable,
}

-- The entries that set a variable.
unfoldable pub entries_of : List Bytes → Bytes → List Bytes
entries_of [] name = []
entries_of (entry ∷ env) name =
    if has_prefix entry (assignment name) then entry ∷ entries_of env name else entries_of env name

entries_of-append :
    (env env' : List Bytes) (name : Bytes)
    → entries_of (env ++ env') name ≡ entries_of env name ++ entries_of env' name
unfolding entries_of
entries_of-append [] env' name = refl
entries_of-append (entry ∷ env) env' name = ground (arith, entries_of-append env env' name)

entries_of-env_without :
    (env : List Bytes) (name : Bytes) → entries_of (env_without env name) name ≡ []
unfolding entries_of env_without
entries_of-env_without [] name = refl
entries_of-env_without (entry ∷ env) name = ground (arith, entries_of-env_without env name)

entries_of-one :
    (entry name : Bytes)
    → has_prefix entry (assignment name) ≡ true
    → entries_of (entry ∷ []) name ≡ entry ∷ []
unfolding entries_of
entries_of-one entry name h = ground arith

-- The environment of a session's child sets WINDRUNNER_SESSION once, to the session's own id,
-- whatever it inherits, is given or overrides.
pub entries_of-child_environment :
    (id : Bytes) (inherited : List Bytes) (spec_env : Option (List Bytes)) (overrides : List Bytes)
    → entries_of (child_environment id inherited spec_env overrides) session_variable
      ≡ (assignment session_variable ++ id) ∷ []
unfolding child_environment
entries_of-child_environment id inherited spec_env overrides =
    let env = with_term (override (base_environment inherited spec_env) overrides) in
    entries_of-append (env_without env session_variable) ((assignment session_variable ++ id) ∷ [])
      session_variable
    ∙ ap
        (λ (l : List Bytes).
          l ++ entries_of ((assignment session_variable ++ id) ∷ []) session_variable)
        (entries_of-env_without env session_variable)
    ∙ entries_of-one (assignment session_variable ++ id) session_variable
        (has_prefix-append (assignment session_variable) id)

-- The name in front of the first equals sign.
cut_name-cons :
    (c : ℕ) (entry : Bytes) {name : Bytes}
    → cut_name (c ∷ entry) ≡ some name
    → ((c ≡ b'=') × (name ≡ []))
      ⊎ ((c ≢ b'=') × (rest : Bytes) × (cut_name entry ≡ some rest) × (name ≡ c ∷ rest))
unfolding cut_name
cut_name-cons c entry h = elim (Bool-cases (c == b'=')) [
  | inl hit ↦ inl (ground arith, ground arith)
  | inr miss ↦ elim (Option-cases (cut_name entry)) [
    | inl absent ↦ absurd (ground arith)
    | inr (rest, e) ↦ inr (λ same. ground arith, rest, e, ground arith)
  ]
]

cut_name-has_prefix :
    (entry : Bytes) {name : Bytes}
    → cut_name entry ≡ some name
    → has_prefix entry (assignment name) ≡ true
unfolding cut_name has_prefix
cut_name-has_prefix [] h = ground arith
cut_name-has_prefix (c ∷ entry) {name} h = elim (cut_name-cons c entry h) [
  | inl (equals, empty) ↦ rw empty (ground arith)
  | inr (other, rest, e, named) ↦ rw named (ground (arith, cut_name-has_prefix entry e))
]

cut_name-nil : {name : Bytes} → cut_name [] ≡ some name → ⊥
unfolding cut_name
cut_name-nil h = cc

-- An entry sets one variable: the one that it is cut to.
has_prefix-cut_name :
    (entry other : Bytes) {name name' : Bytes}
    → cut_name entry ≡ some name
    → cut_name other ≡ some name'
    → has_prefix entry (assignment name') ≡ true
    → name ≡ name'
unfolding has_prefix
has_prefix-cut_name entry [] h h' p = absurd (cut_name-nil h')
has_prefix-cut_name [] (d ∷ other) h h' p = absurd (cut_name-nil h)
has_prefix-cut_name (c ∷ entry) (d ∷ other) {name} {name'} h h' p = elim (cut_name-cons c entry h) [
  | inl (equals, empty) ↦ elim (cut_name-cons d other h') [
    | inl (equals', empty') ↦ empty ∙ sym empty'
    | inr (differs', rest', e', named') ↦
        absurd (differs' (sym (first rest' (read named')) ∙ equals))
  ]
  | inr (differs, rest, e, named) ↦ elim (cut_name-cons d other h') [
    | inl (equals', empty') ↦ absurd (differs (at_end (read empty')))
    | inr (differs', rest', e', named') ↦
        named
        ∙ ap (◌∷◌ c) (has_prefix-cut_name entry other e e' (later rest' (read named')))
        ∙ ap (λ (k : ℕ). k ∷ rest') (first rest' (read named'))
        ∙ sym named'
  ]
]
  where
    read : {n : Bytes} → name' ≡ n → has_prefix (c ∷ entry) (assignment n) ≡ true
    read same = subst (λ (n : Bytes). has_prefix (c ∷ entry) (assignment n) ≡ true) same p

    first : (n : Bytes) → has_prefix (c ∷ entry) (assignment (d ∷ n)) ≡ true → c ≡ d
    first n q = ground arith

    later :
        (n : Bytes)
        → has_prefix (c ∷ entry) (assignment (d ∷ n)) ≡ true
        → has_prefix entry (assignment n) ≡ true
    later n q = ground arith

    at_end : has_prefix (c ∷ entry) (assignment []) ≡ true → c ≡ b'='
    at_end q = ground arith

override-append :
    (env entries later : List Bytes)
    → override env (entries ++ later) ≡ override (override env entries) later
unfolding override
override-append env [] later = refl
override-append env (first ∷ entries) later =
    override-append (override_by env first (cut_name first)) entries later

entries_of-override_by :
    (env : List Bytes) (entry name : Bytes)
    → cut_name entry ≡ some name
    → name ≢ []
    → entries_of (override_by env entry (some name)) name ≡ entry ∷ []
unfolding override_by
entries_of-override_by env entry [] h named = absurd (named refl)
entries_of-override_by env entry (c ∷ name) h named =
    entries_of-append (env_without env (c ∷ name)) (entry ∷ []) (c ∷ name)
    ∙ ap (λ (l : List Bytes). l ++ entries_of (entry ∷ []) (c ∷ name))
        (entries_of-env_without env (c ∷ name))
    ∙ entries_of-one entry (c ∷ name) (cut_name-has_prefix entry h)

entries_of-env_has :
    (env : List Bytes) (entry name : Bytes)
    → entries_of env name ≡ entry ∷ []
    → env_has env name ≡ true
unfolding entries_of env_has
entries_of-env_has [] entry name h = cc
entries_of-env_has (first ∷ env) entry name h = ground (arith, entries_of-env_has env entry name)

-- Dropping the entries of one variable and picking those of another commute.
env_without-entries_of :
    (env : List Bytes) (name other : Bytes)
    → entries_of (env_without env other) name ≡ env_without (entries_of env name) other
unfolding entries_of env_without
env_without-entries_of [] name other = refl
env_without-entries_of (entry ∷ env) name other =
    ground (arith, env_without-entries_of env name other)

entries_of-none :
    (entry name : Bytes)
    → has_prefix entry (assignment name) ≡ false
    → entries_of (entry ∷ []) name ≡ []
unfolding entries_of
entries_of-none entry name h = ground arith

env_without-none :
    (entry name : Bytes)
    → has_prefix entry (assignment name) ≡ false
    → env_without (entry ∷ []) name ≡ entry ∷ []
unfolding env_without
env_without-none entry name h = ground arith

cut_term : cut_name term_default ≡ some (codes "TERM")
unfolding cut_name
cut_term = refl

cut_session : (id : Bytes) → cut_name (assignment session_variable ++ id) ≡ some session_variable
unfolding cut_name
cut_session id = refl

true≢false : true ≢ false
true≢false h = cc

-- Entries that are cut to different names are not of one variable.
has_prefix-other :
    (entry other : Bytes) {name name' : Bytes}
    → cut_name entry ≡ some name
    → cut_name other ≡ some name'
    → name ≢ name'
    → has_prefix entry (assignment name') ≡ false
has_prefix-other entry other {name} {name'} h h' differ =
    elim (Bool-cases (has_prefix entry (assignment name'))) [
      | inl same ↦ absurd (differ (has_prefix-cut_name entry other h h' same))
      | inr none_of_it ↦ none_of_it
    ]

module _ (entry name : Bytes) (is : cut_name entry ≡ some name) where
  -- An entry for another variable leaves those of this one.
  entries_of-other :
      (env : List Bytes) (other : Bytes) (cut : Option Bytes)
      → cut_name other ≡ cut
      → cut ≢ some name
      → entries_of env name ≡ entry ∷ []
      → entries_of (override_by env other cut) name ≡ entry ∷ []
  unfolding override_by
  entries_of-other env other none at differs h = h
  entries_of-other env other (some []) at differs h = h
  entries_of-other env other (some (c ∷ n)) at differs h =
      entries_of-append (env_without env (c ∷ n)) (other ∷ []) name
      ∙ ap (λ (l : List Bytes). l ++ entries_of (other ∷ []) name)
          (env_without-entries_of env name (c ∷ n)
            ∙ ap (λ (l : List Bytes). env_without l (c ∷ n)) h
            ∙ env_without-none entry (c ∷ n)
                (has_prefix-other entry other is at (λ same. differs (ap some (sym same)))))
      ∙ ap (λ (l : List Bytes). entry ∷ l)
          (entries_of-none other name
            (has_prefix-other other entry at is (λ same. differs (ap some same))))

  entries_of-override :
      (env later : List Bytes)
      → All (λ (e : Bytes). cut_name e ≢ some name) later
      → entries_of env name ≡ entry ∷ []
      → entries_of (override env later) name ≡ entry ∷ []
  unfolding override
  entries_of-override env [] others h = h
  entries_of-override env (e ∷ later) others h =
      entries_of-override (override_by env e (cut_name e)) later others.1
        (entries_of-other env e (cut_name e) refl others.0 h)

  entries_of-with_term :
      (env : List Bytes)
      → entries_of env name ≡ entry ∷ []
      → entries_of (with_term env) name ≡ entry ∷ []
  unfolding with_term
  entries_of-with_term env h =
      if_cases (λ (l : List Bytes). entries_of l name ≡ entry ∷ [])
        (not (env_has env (codes "TERM"))) _ _
        (λ no_term.
          entries_of-append env (term_default ∷ []) name
          ∙ ap (λ (l : List Bytes). l ++ entries_of (term_default ∷ []) name) h
          ∙ ap (λ (l : List Bytes). entry ∷ l)
              (entries_of-none term_default name (
                has_prefix-other term_default entry cut_term is (λ is_term. true≢false (
                  sym
                    (entries_of-env_has env entry (codes "TERM") (ap (entries_of env) is_term ∙ h))
                  ∙ ground arith)))))
        (λ _. h)

  -- An entry of EnvOverride that names a variable, which is not WINDRUNNER_SESSION, and behind
  -- which no entry of EnvOverride names it again, is the only entry for it in the environment of
  -- the child, whatever is inherited, given, or overridden besides, and for TERM as well.
  pub child_environment-override :
      (id : Bytes) (inherited : List Bytes) (spec_env : Option (List Bytes))
      (overrides later : List Bytes)
      → name ≢ []
      → name ≢ session_variable
      → All (λ (e : Bytes). cut_name e ≢ some name) later
      → entries_of (child_environment id inherited spec_env (overrides ++ entry ∷ later)) name
        ≡ entry ∷ []
  unfolding child_environment override
  child_environment-override id inherited spec_env overrides later named other others =
      let base = base_environment inherited spec_env in
      let env = override base (overrides ++ entry ∷ later) in
      let own = assignment session_variable ++ id in
      let overridden : entries_of env name ≡ entry ∷ [] =
        ap (λ (l : List Bytes). entries_of l name) (override-append base overrides (entry ∷ later))
        ∙ entries_of-override (override_by (override base overrides) entry (cut_name entry)) later
            others
            (ap (λ o. entries_of (override_by (override base overrides) entry o) name) is
              ∙ entries_of-override_by (override base overrides) entry name is named) in
      entries_of-append (env_without (with_term env) session_variable) (own ∷ []) name
      ∙ ap (λ (l : List Bytes). l ++ entries_of (own ∷ []) name)
          (env_without-entries_of (with_term env) name session_variable
            ∙ ap (λ (l : List Bytes). env_without l session_variable)
                (entries_of-with_term env overridden)
            ∙ env_without-none entry session_variable
                (has_prefix-other entry own is (cut_session id) other))
      ∙ ap (λ (l : List Bytes). entry ∷ l)
          (entries_of-none own name
            (has_prefix-other own entry (cut_session id) is (λ same. other (sym same))))
