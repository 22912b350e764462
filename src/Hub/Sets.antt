-- ===== src/Hub/Sets.antt =====
-- The sets of subscriptions and the map of statements.
use windrunner.Prelude.{ℕ, ◌≡◌, false, List, [], ◌∷◌, ◌==◌, if◌then◌else◌, arith}
use windrunner.Hub.{ViewSize, member, remove, spoke, withdraw}

pub member-remove :
    (i j : ℕ) (is : List ℕ) → member i (remove j is) ≡ (if i == j then false else member i is)
unfolding member remove
member-remove i j [] = ground arith
member-remove i j (k ∷ is) = ground (arith, member-remove i j is)

pub spoke-withdraw :
    (i j : ℕ) (views : List (ℕ × ViewSize))
    → spoke i (withdraw j views) ≡ (if i == j then false else spoke i views)
unfolding spoke withdraw
spoke-withdraw i j [] = ground arith
spoke-withdraw i j ((k, view) ∷ views) = ground (arith, spoke-withdraw i j views)

-- No subscription stands twice.
abbrev pub IsDistinct : List ℕ → Type 0
IsDistinct [] = Unit {0}
IsDistinct (i ∷ is) = (member i is ≡ false) × IsDistinct is

pub remove-IsDistinct : (j : ℕ) (is : List ℕ) → IsDistinct is → IsDistinct (remove j is)
unfolding remove
remove-IsDistinct j [] d = d
remove-IsDistinct j (i ∷ is) d = ground (arith, remove-IsDistinct j is d.1, member-remove i j is)
