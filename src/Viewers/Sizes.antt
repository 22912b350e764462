-- ===== src/Viewers/Sizes.antt =====
-- The size of the terminal against the statements of its viewers.
use windrunner.Prelude.{
  ℕ, ◌<◌, ◌≡◌, ◌⊎◌, inl, inr, refl, sym, ap, ap₂, ◌∙◌, Bool, true, false, not, ◌&&◌, ◌||◌, Bytes,
  List, Option, none, some, ◌==◌, if_cases, arith, Bool-cases,
}
use windrunner.Prelude.Int.{ℤ, eqb_ℤ, eqb_ℤ_iff}
use windrunner.Boundary.{read_step, read_end}
use windrunner.Hub.Statements.{
  Settles, compose, deliver_all-Settles, flush_resyncs-Settles, finish_each-Settles,
  close_subscription-Settles,
}
use windrunner.Hub.{ViewSize, Snapshot, member, flush_resyncs, finish_each}
use windrunner.Session.{
  Session, Error, Metadata, too_small, take_output, write, write_some, read_output, write_rest,
  end_stream, snapshot, go_idle, set_metadata_if,
}
use windrunner.Viewers.{
  AttachOptions, newest_of, base, effective, resized, repaint_message, announce_size, apply_size,
  follow, restated_base, resize, restated_view, resize_viewer, woken, settle_size, resync_tick,
  enlisted, attach_with, detach, shut,
}
use windrunner.Vt.{Vt}

module _ {v : Vt} where
  abbrev pub over : Session v → Bool
  over s = s.exited || s.closed

  abbrev pub AtSize : Session v → Type 0
  AtSize s =
      (s.cols ≡ (newest_of (base v s) s.views).cols)
      × (s.rows ≡ (newest_of (base v s) s.views).rows)

  -- The terminal has the size that the statements resolve to, or a settlement is due.
  abbrev pub IsSettled : Session v → Type 0
  IsSettled s = (over s ≡ true) ⊎ (0 < s.settling) ⊎ AtSize s

  -- What an operation does that changes no statement but by a retirement, and not the size.
  record Keeps (s s' : Session v) : Type 0 where
    size : (s'.cols ≡ s.cols) × (s'.rows ≡ s.rows)
    floor : base v s' ≡ base v s
    over_is : over s ≡ true → over s' ≡ true
    settles : Settles s.hub s'.hub

  Keeps-IsSettled : (s s' : Session v) → Keeps s s' → IsSettled s → IsSettled s'
  Keeps-IsSettled s s' k (inl ended) = inl (k.over_is ended)
  Keeps-IsSettled s s' k (inr (inl due)) = inr (inl (omega (arith, k.settles.more)))
  Keeps-IsSettled s s' k (inr (inr (c, w))) = elim k.settles.due [
    | inr due ↦ inr (inl due)
    | inl (views, _) ↦
        let same : newest_of (base v s) s.views ≡ newest_of (base v s') s'.views =
          ap₂ newest_of (sym k.floor) (sym views) in
        inr (
          inr (
            k.size.0 ∙ c ∙ ap (λ (e : ViewSize). e.cols) same,
            k.size.1 ∙ w ∙ ap (λ (e : ViewSize). e.rows) same,
          ))
  ]

  -- `applySizeLocked` with what the statements resolve to, where the PTY takes the size.
  pub follow-IsSettled : (s : Session v) → IsSettled (follow v true s).0
  unfolding follow apply_size announce_size effective
  follow-IsSettled s =
      let c = (effective v s).cols in
      let w = (effective v s).rows in
      elim (Bool-cases (eqb_ℤ c s.cols && eqb_ℤ w s.rows)) [
        | inl same ↦ rw same (
            inr (
              inr (
                sym ((eqb_ℤ_iff c s.cols).0 (ground arith)),
                sym ((eqb_ℤ_iff w s.rows).0 (ground arith)),
              )))
        | inr moves ↦
            rw moves (elim (deliver_all-Settles (repaint_message v (resized v c w s)) s.hub).due [
              | inl (views, _) ↦
                  let same = ap (newest_of (base v s)) (sym views) in
                  inr (inr (ap (λ (e : ViewSize). e.cols) same, ap (λ (e : ViewSize). e.rows) same))
              | inr due ↦ inr (inl due)
            ])
      ]

  -- An operation that keeps all but the hub and what has no part in sizes.
  pub hub_keeps :
      (s s' : Session v)
      → (s'.cols ≡ s.cols) × (s'.rows ≡ s.rows)
      → base v s' ≡ base v s
      → s'.exited ≡ s.exited
      → Settles s.hub s'.hub
      → IsSettled s
      → IsSettled s'
  hub_keeps s s' size floor alive settles h =
      Keeps-IsSettled s s'
        (record {
          size = size;
          floor = floor;
          over_is = λ ended. ap₂ ◌||◌ alive settles.still ∙ ended;
          settles = settles;
        })
        h

  write_some-IsSettled :
      (written : Option Bytes) (s : Session v) → IsSettled s → IsSettled (write_some v written s)
  unfolding write_some write take_output
  write_some-IsSettled none s h = h
  write_some-IsSettled (some chunk) s h =
      let taken = take_output v chunk s in
      let h' = hub_keeps s taken (refl, refl) refl refl (deliver_all-Settles _ s.hub) h in
      if_cases IsSettled (not s.busy && not s.exited) _ _ (λ _. h') (λ _. h')

  pub read_output-IsSettled :
      (buf : Bytes) (s : Session v) → IsSettled s → IsSettled (read_output v buf s)
  unfolding read_output
  read_output-IsSettled buf s h = write_some-IsSettled (read_step s.pending buf).0 s h

  pub end_stream-IsSettled : (s : Session v) → IsSettled s → IsSettled (end_stream v s)
  unfolding end_stream
  end_stream-IsSettled s h =
      let flushed = flush_resyncs true (snapshot v s) s.hub in
      let f = flush_resyncs-Settles true (snapshot v s) s.hub in
      let g = finish_each-Settles flushed.subs flushed in
      let both = compose s.hub flushed (finish_each flushed.subs flushed) f g in
      hub_keeps s (end_stream v s) (refl, refl) refl refl
        (record { still = both.still; more = both.more; due = both.due }) h

  pub write_rest-IsSettled : (s : Session v) → IsSettled s → IsSettled (write_rest v s)
  unfolding write_rest
  write_rest-IsSettled s h = write_some-IsSettled (read_end s.pending) s h

  pub resize-IsSettled : (c w : ℤ) (s : Session v) → IsSettled s → IsSettled (resize v true c w s).0
  unfolding resize
  resize-IsSettled c w s h =
      if_cases (λ (p : Session v × Option Error). IsSettled p.0) (too_small c w) _ _ (λ _. h)
        (λ _. follow-IsSettled (restated_base v c w s))

  pub resize_viewer-IsSettled :
      (i : ℕ) (c w : ℤ) (s : Session v) → IsSettled s → IsSettled (resize_viewer v true i c w s).0
  unfolding resize_viewer
  resize_viewer-IsSettled i c w s h =
      if_cases (λ (p : Session v × Option Error). IsSettled p.0) (too_small c w) _ _ (λ _. h)
        λ _.
          if_cases (λ (p : Session v × Option Error). IsSettled p.0) (not (member i s.subs)) _ _
            (λ _. h) (λ _. follow-IsSettled (restated_view v i c w s))

  pub settle_size-IsSettled : (s : Session v) → IsSettled (settle_size v true s)
  unfolding settle_size
  settle_size-IsSettled s =
      if_cases IsSettled (s.closed || s.exited) _ _ (λ ended. inl (ground arith))
        (λ _. follow-IsSettled (woken v s))

  pub resync_tick-IsSettled : (s : Session v) → IsSettled s → IsSettled (resync_tick v s)
  unfolding resync_tick
  resync_tick-IsSettled s h =
      let idle = record s { hub = record s.hub { resync_timer = false } } in
      if_cases IsSettled s.closed _ _ (λ _. h)
        λ _.
          hub_keeps idle (record idle { hub = flush_resyncs false (snapshot v idle) idle.hub })
            (refl, refl) refl refl (flush_resyncs-Settles false (snapshot v idle) idle.hub) h

  pub attach_with-IsSettled :
      (i : ℕ) (options : AttachOptions) (s : Session v)
      → IsSettled s
      → IsSettled (attach_with v true i options s).0
  unfolding attach_with
  attach_with-IsSettled i options s h =
      if_cases (λ (p : Session v × Snapshot). IsSettled p.0) (s.exited || s.closed) _ _ (λ _. h)
        λ _.
          if_cases IsSettled (not (too_small options.cols options.rows)) _ _
            (λ _.
              follow-IsSettled
                (restated_view v i options.cols options.rows (enlisted v i options s)))
            (λ _. h)

  pub detach-IsSettled : (i : ℕ) (s : Session v) → IsSettled s → IsSettled (detach v i s)
  detach-IsSettled i s h =
      hub_keeps s (detach v i s) (refl, refl) refl refl (close_subscription-Settles i s.hub) h

  pub shut-IsSettled : (s : Session v) → IsSettled s → IsSettled (shut v s).0
  unfolding shut
  shut-IsSettled s h =
      if_cases (λ (p : Session v × List ℕ). IsSettled p.0) s.closed _ _ (λ _. h)
        (λ _. inl (ground arith))

  pub go_idle-IsSettled : (s : Session v) → IsSettled s → IsSettled (go_idle v s)
  unfolding go_idle
  go_idle-IsSettled s h =
      if_cases IsSettled (s.closed || (s.exited || not s.busy)) _ _ (λ _. h) (λ _. h)

  pub set_metadata_if-IsSettled :
      (expected : ℕ) (metadata : Metadata) (s : Session v)
      → IsSettled s
      → IsSettled (set_metadata_if v expected metadata s).0
  unfolding set_metadata_if
  set_metadata_if-IsSettled expected metadata s h =
      if_cases (λ (p : Session v × ℕ × Bool). IsSettled p.0) (not (s.revision == expected)) _ _
        (λ _. h) (λ _. h)
