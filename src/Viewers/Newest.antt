-- ===== src/Viewers/Newest.antt =====
-- Which statement `effectiveLocked` picks.
use windrunner.Prelude.{
  ℕ, ◌≤◌, ◌≡◌, ◌⊎◌, ◌↔◌, inl, inr, refl, sym, ap, subst, List, [], ◌∷◌, ltb, if◌then◌else◌,
  Bool-cases, arith,
}
use windrunner.Hub.{ViewSize}
use windrunner.Viewers.{newest_of}

abbrev pub Occurs : ViewSize → List (ℕ × ViewSize) → Type 0
Occurs e [] = ⊥
Occurs e ((i, view) ∷ views) = (e ≡ view) ⊎ Occurs e views

-- A statement of a viewer, or the base.
abbrev pub Stated : ViewSize → List (ℕ × ViewSize) → ViewSize → Type 0
Stated floor views e = (e ≡ floor) ⊎ Occurs e views

-- A statement that none is newer than.
abbrev pub IsNewest : ViewSize → List (ℕ × ViewSize) → ViewSize → Type 0
IsNewest floor views n =
    Stated floor views n × ((e : ViewSize) → Stated floor views e → e.seq ≤ n.seq)

-- effectiveLocked picks the base or the statement of a viewer, and none of them is newer.
pub newest_of-IsNewest :
    (floor : ViewSize) (views : List (ℕ × ViewSize)) → IsNewest floor views (newest_of floor views)
unfolding newest_of
newest_of-IsNewest floor [] = (inl refl, bound)
  where
    bound : (e : ViewSize) → Stated floor [] e → e.seq ≤ floor.seq
    bound e (inl same) = rw same (omega arith)
    bound e (inr absent) = elim absent [ ]
newest_of-IsNewest floor ((i, view) ∷ views) = elim (Bool-cases (ltb floor.seq view.seq)) [
  | inl newer ↦
      let (is, bound) = newest_of-IsNewest view views in
      subst (IsNewest floor ((i, view) ∷ views))
        (ap (λ b. newest_of (if b then view else floor) views) (sym newer))
        (
          elim is [ inl first ↦ inr (inl first) | inr rest ↦ inr (inr rest) ],
          λ e. λ (s : Stated floor ((i, view) ∷ views) e). elim s [
            | inl same ↦ rw same (ground (arith, bound view (inl refl)))
            | inr (inl same) ↦ bound e (inl same)
            | inr (inr rest) ↦ bound e (inr rest)
          ],
        )
  | inr older ↦
      let (is, bound) = newest_of-IsNewest floor views in
      subst (IsNewest floor ((i, view) ∷ views))
        (ap (λ b. newest_of (if b then view else floor) views) (sym older))
        (
          elim is [ inl first ↦ inl first | inr rest ↦ inr (inr rest) ],
          λ e. λ (s : Stated floor ((i, view) ∷ views) e). elim s [
            | inl same ↦ bound e (inl same)
            | inr (inl same) ↦ rw same (ground (arith, bound floor (inl refl)))
            | inr (inr rest) ↦ bound e (inr rest)
          ],
        )
]

-- Where statements of the same number are the same, effectiveLocked picks the same size in whatever
-- order the map of the viewers' statements is gone through.
pub newest_of-order :
    (floor : ViewSize) (views views' : List (ℕ × ViewSize))
    → ((e : ViewSize) → Occurs e views ↔ Occurs e views')
    → ((e e' : ViewSize) → Stated floor views e → Stated floor views e' → e.seq ≡ e'.seq → e ≡ e')
    → newest_of floor views ≡ newest_of floor views'
newest_of-order floor views views' same distinct =
    let (is, bound) = newest_of-IsNewest floor views in
    let (is', bound') = newest_of-IsNewest floor views' in
    let back : Stated floor views (newest_of floor views') = elim is' [
      | inl first ↦ inl first
      | inr rest ↦ inr ((same (newest_of floor views')).1 rest)
    ] in
    let forth : Stated floor views' (newest_of floor views) = elim is [
      | inl first ↦ inl first
      | inr rest ↦ inr ((same (newest_of floor views)).0 rest)
    ] in
    let le = bound (newest_of floor views') back in
    let ge = bound' (newest_of floor views) forth in
    distinct (newest_of floor views) (newest_of floor views') is back (omega arith)
