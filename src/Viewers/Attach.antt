-- ===== src/Viewers/Attach.antt =====
-- `AttachWith` and the replicas: the new viewer's, and those of the others.
use windrunner.Prelude.{
  ℕ, ◌≡◌, ◌≢◌, ◌<◌, refl, sym, ap, subst, ◌∙◌, Bool, true, false, not, ◌&&◌, ◌||◌, ◌∷◌, Option,
  arith, if_cases, ◌==◌,
}
use windrunner.Prelude.Int.{ℤ, eqb_ℤ}
use windrunner.Hub.Attached.{IsAttached}
use windrunner.Hub.Invariant.{IsSound, finish_sub-IsSound}
use windrunner.Hub.{Hub, Subscription, Snapshot, member, put, finish_sub, resync_message}
use windrunner.TermState
use windrunner.Session.{Session, Error, too_small, snapshot}
use windrunner.Vt.{Vt}
use windrunner.TermState.Replay.{IsWellFormed}
use windrunner.TermState.WellFormed.{resize-IsWellFormed}
use windrunner.Viewers.Replica.{Replica, repaint_exact, resync_exact}
use windrunner.Viewers.Exact.{
  now, ExactAt, IsExact, broadcast-ExactAt, follow-IsExact, restated_view-IsExact,
}
use windrunner.Viewers.{
  AttachOptions, buffer_of, fresh_subscription, enlisted, restated_view, resized, repaint_message,
  announce_size, apply_size, effective, follow, attach_with,
}

buffer_of_pos : (n : ℤ) → 0 < buffer_of n
buffer_of_pos n = ground arith

pub fresh-IsSound :
    (options : AttachOptions) (retire : Bool)
    → IsSound (record (fresh_subscription options) { retire = retire })
fresh-IsSound options retire = record {
  healthy = refl;
  bounded = omega arith;
  roomy = buffer_of_pos options.buffer;
  closed_if_done = refl;
  owed_is_open = λ owed. cc;
  owed_resyncs = λ owed. cc;
  lagged_is_done = λ lagged. cc;
  lagged_never_resyncs = λ lagged. cc;
}

-- A set with one more subscription, that was not in it.
pub enlisted-IsAttached :
    (hub : Hub) (i : ℕ) (sub : Subscription)
    → IsAttached hub
    → IsSound sub
    → member i hub.subs ≡ false
    → IsAttached (record (put hub i sub) { subs = i ∷ hub.subs })
unfolding member
enlisted-IsAttached hub i sub a sound fresh = record {
  sound = λ j. if_cases IsSound (i == j) _ _ (λ _. sound) (λ _. a.sound j);
  attached = λ j open_still. ground (arith, a.attached j);
  distinct = (fresh, a.distinct);
}

finished-IsAttached :
    (hub : Hub) (i : ℕ) (sub : Subscription)
    → IsAttached hub
    → IsSound sub
    → sub.done ≡ true
    → IsAttached (put hub i sub)
finished-IsAttached hub i sub a sound ended = record {
  sound = λ j. if_cases IsSound (i == j) _ _ (λ _. sound) (λ _. a.sound j);
  attached = λ j open_still. ground (arith, a.attached j);
  distinct = a.distinct;
}

module _ {v : Vt} (replica : Replica v) where
  open replica use {Screen, paint, shows}

  other_cell :
      (hub : Hub) (i j : ℕ) (sub : Subscription) → i ≢ j → (put hub j sub).cell i ≡ hub.cell i
  other_cell hub i j sub other = ground arith

  own_cell : (hub : Hub) (i : ℕ) (sub : Subscription) → (put hub i sub).cell i ≡ sub
  own_cell hub i sub = ground arith

  pub attach_with_other :
      (i : ℕ) (r : Screen) (set : Bool) (j : ℕ) (options : AttachOptions) (s : Session v)
      → i ≢ j
      → member j s.subs ≡ false
      → IsExact replica i r s
      → IsExact replica i r (attach_with v set j options s).0
  unfolding attach_with finish_sub
  attach_with_other i r set j options s other fresh e =
      if_cases (λ (p : Session v × Snapshot). IsExact replica i r p.0) (s.exited || s.closed) _ _
        (λ _. record {
          attached =
              finished-IsAttached s.hub j _ e.attached
                (finish_sub-IsSound _ (fresh-IsSound options false)) refl;
          tracked = e.tracked;
          exact = rw (other_cell s.hub i j (finish_sub (fresh_subscription options)) other) e.exact;
        })
        λ _.
          if_cases (IsExact replica i r) (not (too_small options.cols options.rows)) _ _
            (λ _.
              follow-IsExact replica i r set
                (restated_view v j options.cols options.rows (enlisted v j options s))
                (restated_view-IsExact replica i r j options.cols options.rows
                  (enlisted v j options s) enlisted_exact))
            (λ _. enlisted_exact)
    where
      enlisted_exact : IsExact replica i r (enlisted v j options s)
      enlisted_exact = record {
        attached = enlisted-IsAttached s.hub j _ e.attached (fresh-IsSound options true) fresh;
        tracked = e.tracked;
        exact =
            rw (other_cell s.hub i j (record (fresh_subscription options) { retire = true }) other)
              e.exact;
      }

  -- A viewer with nothing queued, that starts from what is shown at the end.
  follow_fresh :
      (i : ℕ) (set : Bool) (s : Session v)
      → ((x : Screen) → ExactAt replica i x s.hub x s.state)
      → IsExact replica i (now replica (follow v set s).0) (follow v set s).0
  unfolding follow apply_size announce_size
  follow_fresh i set s e =
      let c = (effective v s).cols in
      let w = (effective v s).rows in
      let P : Session v × Option Error → Type 0 = λ p. IsExact replica i (now replica p.0) p.0 in
      if_cases P (eqb_ℤ c s.cols && eqb_ℤ w s.rows) _ _ (λ _. e (now replica s))
        λ _.
          if_cases P (not set) _ _ (λ _. e (now replica s))
            λ _.
              let y = now replica (resized v c w s) in
              broadcast-ExactAt replica i y y y (repaint_message v (resized v c w s)) s.hub (e y)
                (resize-IsWellFormed s.state (e y).tracked)
                (repaint_exact replica (Vt.resize v s.emu c w) (TermState.resize s.state) c w
                  (resize-IsWellFormed s.state (e y).tracked))

  attach_with-now :
      (i : ℕ) (set : Bool) (options : AttachOptions) (s : Session v)
      → member i s.subs ≡ false
      → IsAttached s.hub
      → IsWellFormed s.state
      → IsExact replica i
          (now replica (attach_with v set i options s).0)
          (attach_with v set i options s).0
  unfolding attach_with finish_sub
  attach_with-now i set options s fresh a well =
      let P : Session v × Snapshot → Type 0 = λ p. IsExact replica i (now replica p.0) p.0 in
      let Q : Session v → Type 0 = λ t. IsExact replica i (now replica t) t in
      if_cases P (s.exited || s.closed) _ _
        (λ _. record {
          attached =
              finished-IsAttached s.hub i _ a (finish_sub-IsSound _ (fresh-IsSound options false))
                refl;
          tracked = well;
          exact =
              rw (own_cell s.hub i (finish_sub (fresh_subscription options))) (λ open_still. cc);
        })
        λ _.
          if_cases Q (not (too_small options.cols options.rows)) _ _
            (λ _.
              follow_fresh i set
                (restated_view v i options.cols options.rows (enlisted v i options s)) stated)
            (λ _. started (now replica s))
    where
      started : (x : Screen) → ExactAt replica i x (enlisted v i options s).hub x s.state
      started x = record {
        attached = enlisted-IsAttached s.hub i _ a (fresh-IsSound options true) fresh;
        tracked = well;
        exact =
            rw (own_cell s.hub i (record (fresh_subscription options) { retire = true }))
              (λ _. λ _. refl);
      }

      stated :
          (x : Screen)
          → ExactAt replica i x
              (restated_view v i options.cols options.rows (enlisted v i options s)).hub
              x
              s.state
      stated x = record {
        attached = record {
          sound = (started x).attached.sound;
          attached = (started x).attached.attached;
          distinct = (started x).attached.distinct;
        };
        tracked = well;
        exact = (started x).exact;
      }

  attach_with-snapshot :
      (set : Bool) (i : ℕ) (options : AttachOptions) (s : Session v)
      → (attach_with v set i options s).1 ≡ snapshot v (attach_with v set i options s).0
  unfolding attach_with
  attach_with-snapshot set i options s =
      if_cases (λ (p : Session v × Snapshot). p.1 ≡ snapshot v p.0) (s.exited || s.closed) _ _
        (λ _. refl) (λ _. refl)

  -- Whatever the new viewer's screen held, once it has painted the snapshot that `AttachWith` hands
  -- back, it agrees with the session.
  pub attach_with-IsExact :
      (set : Bool) (i : ℕ) (options : AttachOptions) (s : Session v) (r : Screen)
      → member i s.subs ≡ false
      → IsAttached s.hub
      → IsWellFormed s.state
      → IsExact replica i
          (paint r (resync_message (attach_with v set i options s).1))
          (attach_with v set i options s).0
  unfolding snapshot
  attach_with-IsExact set i options s r fresh a well =
      let t = (attach_with v set i options s).0 in
      let exact = attach_with-now i set options s fresh a well in
      subst (λ (x : Screen). IsExact replica i x t)
        (sym (
          ap (λ (p : Snapshot). paint r (resync_message p)) (attach_with-snapshot set i options s)
          ∙ resync_exact replica r t.emu t.state t.cols t.rows exact.tracked))
        exact
