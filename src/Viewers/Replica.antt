-- ===== src/Viewers/Replica.antt =====
-- A viewer's copy of the terminal, as README.md describes it: it starts from the snapshot, paints
-- what it receives, and is replaced by a resync. What is asked of the emulator and of the client
-- that paints is stated as laws; the program has to see to the rest.
use windrunner.Prelude.{
  codes, ◌&&◌, if◌then◌else◌, ◌≡◌, refl, Bool, false, Bytes, List, [], ◌∷◌, ◌++◌, none, some, arith,
}
use windrunner.Prelude.Int.{ℤ, eqb_ℤ}
use windrunner.Channel
use windrunner.Hub.Invariant.{IsSound, delivered}
use windrunner.Hub.{Message, Subscription, resync_message, flush_sub}
use windrunner.Screen.{snapshot_bytes, screen_repaint, scrollback_lines, carriage_returns, cursor}
use windrunner.Session.{Session, snapshot}
use windrunner.TermState
use windrunner.TermState.{TermState, initial, esc, replay}
use windrunner.TermState.Replay.{IsWellFormed}
use windrunner.TermState.WellFormed.{resize-IsWellFormed}
use windrunner.TermState.Settings.{
  IsSettings, BringsTo, replay-IsSettings, replay-BringsTo, replay-BringsTo_lifted,
}
use windrunner.Vt.{Vt}

module _ (v : Vt) where
  abbrev pub output_message : Bytes → Message
  output_message chunk = record { bytes = chunk; resize = none; resync = none }

  abbrev pub size_message : ℤ → ℤ → Bytes → Message
  size_message c w bytes = record {
    bytes = bytes;
    resize = some (record { cols = c; rows = w });
    resync = none;
  }

  abbrev pub resized_message : Vt.Emulator v → TermState → ℤ → ℤ → Message
  resized_message e t c w = size_message c w (screen_repaint v e t)

  abbrev pub state_message : Vt.Emulator v → TermState → ℤ → ℤ → Message
  state_message e t c w =
      resync_message (record { cols = c; rows = w; ansi = snapshot_bytes v e t })

  -- The bytes of a picture: history, the screen that is in use, rows, modes, and the cursor.
  abbrev pub pictured : Vt.Emulator v → TermState → Bytes → Bytes
  pictured e t modes =
      scrollback_lines (Vt.scrollback v e)
      ++ ((if t.alt then esc ∷ codes "[?1049h" else [])
          ++ (carriage_returns (Vt.render v e) ++ (modes ++ cursor v e t)))

  -- A terminal that is cleared, with margins lifted, and painted anew.
  abbrev pub repainted : Vt.Emulator v → TermState → Bytes → Bytes
  repainted e t modes =
      (esc ∷ codes "[0m")
      ++ ((esc ∷ codes "[r")
          ++ ((esc ∷ codes "[H")
              ++ ((esc ∷ codes "[2J")
                  ++ (carriage_returns (Vt.render v e) ++ (modes ++ cursor v e t)))))

  abbrev pub lifted : TermState → TermState
  lifted t = record t { top = 0; bottom = 0 }

  -- `shows` is what of a terminal a screen has: the emulator, the tracked state, and the size. The
  -- laws are about a terminal that is sent what an emulator renders, with any bytes that set just the
  -- modes and margins that are tracked.
  pub record Replica : Type 1 where
    pub Screen : Type 0
    pub paint : Screen → Message → Screen
    pub shows : Vt.Emulator v → TermState → ℤ → ℤ → Screen
    -- A picture of a terminal on a fresh screen, in its modes, replaces whatever was there.
    pub picture_exact :
        (r : Screen) (e : Vt.Emulator v) (t : TermState) (c w : ℤ) (modes : Bytes)
        → IsSettings modes
        → BringsTo (record initial { alt = t.alt }) modes t
        → paint r (resync_message (record { cols = c; rows = w; ansi = pictured e t modes }))
          ≡ shows e t c w
    -- The same bytes take the same terminal to the same state.
    pub output_exact :
        (e : Vt.Emulator v) (t : TermState) (c w : ℤ) (chunk : Bytes)
        → paint (shows e t c w) (output_message chunk)
          ≡ shows (Vt.write v e chunk) (TermState.observe t chunk) c w
    -- A terminal that is resized, to another size, and painted anew, in the modes of the other one, shows what that
    -- does, from the terminal before the resize,
    pub moved_exact :
        (e : Vt.Emulator v) (t : TermState) (c w c' w' : ℤ) (modes : Bytes)
        → let e' = Vt.resize v e c' w' in
          let t' = TermState.resize t in
          eqb_ℤ c' c && eqb_ℤ w' w ≡ false
          → IsSettings modes
          → BringsTo (lifted t') modes t'
          → paint (shows e t c w) (size_message c' w' (repainted e' t' modes)) ≡ shows e' t' c' w'
    -- and from the one that is there already.
    pub stays_exact :
        (e : Vt.Emulator v) (t : TermState) (c w : ℤ) (modes : Bytes)
        → IsSettings modes
        → BringsTo (lifted t) modes t
        → paint (shows e t c w) (size_message c w (repainted e t modes)) ≡ shows e t c w

module _ {v : Vt} (replica : Replica v) where
  open replica use {Screen, paint, shows}

  pub resync_exact :
      (r : Screen) (e : Vt.Emulator v) (t : TermState) (c w : ℤ)
      → IsWellFormed t
      → paint r (state_message v e t c w) ≡ shows e t c w
  unfolding snapshot_bytes
  resync_exact r e t c w well =
      replica.picture_exact r e t c w (replay t) (replay-IsSettings t) (replay-BringsTo t well)

  pub resize_exact :
      (e : Vt.Emulator v) (t : TermState) (c w c' w' : ℤ)
      → IsWellFormed t
      → eqb_ℤ c' c && eqb_ℤ w' w ≡ false
      → paint (shows e t c w) (resized_message v (Vt.resize v e c' w') (TermState.resize t) c' w')
        ≡ shows (Vt.resize v e c' w') (TermState.resize t) c' w'
  unfolding screen_repaint
  resize_exact e t c w c' w' well moves =
      let t' = TermState.resize t in
      replica.moved_exact e t c w c' w' (replay t') moves (replay-IsSettings t')
        (replay-BringsTo_lifted t' (resize-IsWellFormed t well))

  pub repaint_exact :
      (e : Vt.Emulator v) (t : TermState) (c w : ℤ)
      → IsWellFormed t
      → paint (shows e t c w) (resized_message v e t c w) ≡ shows e t c w
  unfolding screen_repaint
  repaint_exact e t c w well =
      replica.stays_exact e t c w (replay t) (replay-IsSettings t) (replay-BringsTo_lifted t well)

  abbrev pub paint_all : Screen → List Message → Screen
  paint_all r [] = r
  paint_all r (m ∷ ms) = paint_all (paint r m) ms

  pub paint_all-append :
      (ms : List Message) (r : Screen) (m : Message)
      → paint_all r (ms ++ m ∷ []) ≡ paint (paint_all r ms) m
  paint_all-append [] r m = refl
  paint_all-append (x ∷ ms) r m = paint_all-append ms (paint r x) m

  -- A replica that paints what is queued shows `x`, unless it is dropped or owed state.
  abbrev pub Shows : Screen → Subscription → Screen → Type 0
  Shows r sub x = sub.done ≡ false → sub.missed ≡ false → paint_all r sub.channel.queue ≡ x

  pub delivered-Shows :
      (r x y : Screen) (message : Message) (sub : Subscription)
      → Shows r sub x
      → paint x message ≡ y
      → Shows r (delivered message sub) y
  unfolding delivered
  delivered-Shows r x y message sub shown painted open_still current =
      ground (arith, shown, paint_all-append sub.channel.queue r message)

  pub flush_sub-Shows :
      (force : Bool) (r : Screen) (s : Session v) (sub : Subscription)
      → IsSound sub
      → IsWellFormed s.state
      → Shows r sub (shows s.emu s.state s.cols s.rows)
      → Shows r (flush_sub force (snapshot v s) sub).0 (shows s.emu s.state s.cols s.rows)
  unfolding flush_sub snapshot Channel.send Channel.evict
  flush_sub-Shows force r s sub sound well shown open_still current =
      let m = state_message v s.emu s.state s.cols s.rows in
      let q = sub.channel.queue in
      let q' = Channel.behind_first sub.channel.queue in
      ground (
        arith,
        shown,
        sound.owed_is_open,
        paint_all-append q r m,
        paint_all-append q' r m,
        resync_exact (paint_all r q) s.emu s.state s.cols s.rows well,
        resync_exact (paint_all r q') s.emu s.state s.cols s.rows well,
        Channel.length-behind_first q,
      )
