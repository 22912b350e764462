-- ===== src/Tests/Sizes.antt =====
-- session.go, the sizes, the metadata and a late attachment, run on a small session.
use windrunner.Prelude.{
  ℕ, ◌≡◌, refl, sym, ◌∙◌, [], ◌∷◌, codes, List, true, false, ◌||◌, arith, inl, inr,
}
use windrunner.Prelude.Int.{pos}
use windrunner.Hub.{ViewSize, member, deliver_all}
use windrunner.Boundary.{read_step, complete_boundary, incomplete_rune_tail}
use windrunner.Channel
use windrunner.Session.{Session, next_seq, read_output, set_metadata_if, wait_exit, exit_error}
use windrunner.Session.Revisions.{Write, only_if, run, set_metadata_if-run}
use windrunner.Viewers.Steps.{no_hub-IsAttached}
use windrunner.Viewers.Late.{attach_with-late}
use windrunner.Viewers.Newest.{IsNewest, Stated, newest_of-IsNewest, newest_of-order}
use windrunner.Viewers.Pty.{IsPty, Reach-IsPty}
use windrunner.Viewers.Settled.{AllSet, IsTaken, Reach-size}
use windrunner.Viewers.{attach_with, effective, newest_of}
use windrunner.Tests.Histories.{plain, mode_replica, first, spoken, reached, options}

all_set : AllSet mode_replica 0 reached
unfolding AllSet IsTaken
all_set = ((tt, refl), tt)

calm : spoken.settling ≡ 0
unfolding attach_with read_output deliver_all read_step complete_boundary incomplete_rune_tail
    Channel.try_send
calm = refl

alive : spoken.exited || spoken.closed ≡ false
unfolding attach_with read_output deliver_all read_step complete_boundary incomplete_rune_tail
    Channel.try_send
alive = refl

Reach-size_example :
    (spoken.cols ≡ (effective plain spoken).cols) × (spoken.rows ≡ (effective plain spoken).rows)
Reach-size_example = Reach-size mode_replica 0 reached all_set alive calm

abbrev floor : ViewSize
floor = record { cols = pos 80; rows = pos 24; seq = 0 }

abbrev view : ViewSize
view = record { cols = pos 100; rows = pos 30; seq = 1 }

abbrev views : List (ℕ × ViewSize)
views = (0, view) ∷ []

newest_of-IsNewest_example : IsNewest floor views (newest_of floor views)
newest_of-IsNewest_example = newest_of-IsNewest floor views

distinct :
    (e e' : ViewSize) → Stated floor views e → Stated floor views e' → e.seq ≡ e'.seq → e ≡ e'
distinct e e' (inl a) (inl b) same = a ∙ sym b
distinct e e' (inl a) (inr (inl b)) same = absurd (ground (arith, a, b))
distinct e e' (inl a) (inr (inr b)) same = elim b [ ]
distinct e e' (inr (inl a)) (inl b) same = absurd (ground (arith, a, b))
distinct e e' (inr (inl a)) (inr (inl b)) same = a ∙ sym b
distinct e e' (inr (inl a)) (inr (inr b)) same = elim b [ ]
distinct e e' (inr (inr a)) s same = elim a [ ]

newest_of-order_example : newest_of floor views ≡ newest_of floor ((1, view) ∷ [])
newest_of-order_example =
    newest_of-order floor views ((1, view) ∷ []) (λ e. (λ o. o, λ o. o)) distinct

abbrev ended : Session plain
ended = record first { reading = false }

nobody : member 0 [] ≡ false
unfolding member
nobody = refl

attach_with-late_example :
    let t = wait_exit plain (exit_error (pos 7)) (attach_with plain true 0 options ended).0 in
    (t.exited ≡ true) × ((t.cell 0).done ≡ false) × (t.reading ≡ false)
attach_with-late_example =
    attach_with-late 0 true options (exit_error (pos 7)) ended (no_hub-IsAttached mode_replica)
      nobody refl refl

abbrev stale : List Write
stale = only_if 7 ((codes "key", codes "other") ∷ []) ∷ []

accepted : (set_metadata_if plain first.revision [] (run stale first)).2 ≡ true
unfolding set_metadata_if
accepted = refl

set_metadata_if-run_example :
    ((run stale first).metadata ≡ first.metadata)
    × ((set_metadata_if plain first.revision [] (run stale first)).0.metadata ≡ [])
    × ((set_metadata_if plain first.revision [] (run stale first)).0.revision
        ≡ next_seq first.revision)
set_metadata_if-run_example =
    set_metadata_if-run stale first [] (omega arith) (omega arith) accepted

Reach-IsPty_example : IsPty spoken
Reach-IsPty_example = Reach-IsPty mode_replica 0 reached
