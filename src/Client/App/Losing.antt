-- ===== src/Client/App/Losing.antt =====
-- How long the client waits for a server that has fallen silent.
use Prim.Native.String.{String}
use embedded_client_server_v.Prelude.{
  ℕ, zero, suc, ◌+◌, ◌-◌, ◌≤◌, ◌<◌, ◌≡◌, refl, sym, ◌∙◌, ◌⊎◌, inl, inr, [], ◌∷◌, ℤ, pos, Option,
  some, none, arith, ltb, ltb→lt, Bool-cases, subst, Returns, Returns-pure,
}
use embedded_client_server_v.Posix.{Posix, Laws, error, again, milliseconds}
use embedded_client_server_v.Client.Config
use embedded_client_server_v.Client.Desktop.{Desktop}
use embedded_client_server_v.Client.Reporter.{CycleReporter, begin_cycle, end_cycle}
use embedded_client_server_v.Client.Socket.{send, receive}
use embedded_client_server_v.Client.App.{
  ClientApp, LoopExit, link_broken, display_and_poll_key, after_receive, exchange_frame, cycle,
  run_session,
}
use embedded_client_server_v.Client.App.Drawing.{Passes, drawn, drawn-Passes, end_cycle-Passes}
use embedded_client_server_v.Client.App.Staying.{NeverQuits}

-- The window takes nothing from the connections, and the clock does not go back meanwhile.
pub record Draws (os : Posix) (laws : Laws os) (desk : Desktop os) : Type 0 where
  pub imshow_pending :
      (fd : ℤ) (name : String) (m : desk.Mat) (w : os.World)
      → laws.pending fd (desk.imshow name m w) ≡ laws.pending fd w
  pub wait_key_pending :
      (fd : ℤ) (ms : ℕ) (w : os.World) → laws.pending fd (desk.wait_key ms w).1 ≡ laws.pending fd w
  pub imshow_time :
      (name : String) (m : desk.Mat) (w : os.World) → laws.time w ≤ laws.time (desk.imshow name m w)
  pub wait_key_time : (ms : ℕ) (w : os.World) → laws.time w ≤ laws.time (desk.wait_key ms w).1

-- The peer takes each request, but neither answers nor closes: a receive times out.
pub record IsSilent (os : Posix) (laws : Laws os) (fd : ℤ) : Type 0 where
  pub takes : (command : ℕ) (w : os.World) → (os.send fd (command ∷ []) w).0 ≡ pos 1
  pub waits : (w : os.World) → laws.pending fd w ≡ [] → (os.recv fd 1 w).0 ≡ error again

abbrev pub link_limit : ℕ
link_limit = milliseconds Config.link_timeout_ms

module _ (os : Posix) (desk : Desktop os) (laws : Laws os) where
  -- The link is given up for lost: at least its delay after the last answer, with nothing changed
  -- but the statistics and the world.
  abbrev pub GivesUp : ClientApp os desk → LoopExit → ClientApp os desk → Type 0
  GivesUp a reason b =
      (reason ≡ link_broken)
      × (a.last_response + link_limit ≤ laws.time b.world)
      × (b ≡ record a { reporter = b.reporter; world = b.world })

module _ (os : Posix) (desk : Desktop os) (laws : Laws os) (draws : Draws os laws desk)
    (stays : NeverQuits os desk) (start : ClientApp os desk)
    (silent : IsSilent os laws start.client.fd) where
  open os use {World}

  abbrev fd : ℤ
  fd = start.client.fd

  -- From one world to a later one in which still nothing is on its way.
  abbrev Later : World → World → Type 0
  Later w v = (laws.time w ≤ laws.time v) × (laws.pending fd v ≡ laws.pending fd w)

  later : Passes os desk Later
  later = record {
    same = λ w. (omega arith, refl);
    both = λ u v w p q. (omega (arith, p.0, q.0), q.1 ∙ p.1);
    by_now = λ w. (omega (arith, laws.now_reads w), laws.now_pending fd w);
    by_imshow = λ name m w. (draws.imshow_time name m w, draws.imshow_pending fd name m w);
    by_wait_key = λ ms w. (draws.wait_key_time ms w, draws.wait_key_pending fd ms w);
  }

  -- The silent session goes on.
  abbrev at' : CycleReporter → World → ClientApp os desk
  at' r w = record start { reporter = r; world = w }

  abbrev waited : World → World
  waited w = (os.recv fd 1 (os.send fd (1 ∷ []) w).1).1

  exchange_expires :
      (fuel : ℕ) (r : CycleReporter) (w : World)
      → laws.pending fd w ≡ []
      → exchange_frame os desk fuel (at' r w)
        ≡ some (
          ltb (os.now (waited w)).0 (start.last_response + link_limit),
          at' r (os.now (waited w)).1,
        )
  unfolding exchange_frame send receive after_receive
  exchange_expires fuel r w empty =
      rw
        (
          silent.takes 1 w,
          silent.waits (os.send fd (1 ∷ []) w).1 (laws.send_pending fd (1 ∷ []) w ∙ empty),
          exchange_frame,
          receive,
          after_receive,
        )
        refl

  waited-Later :
      (w : World)
      → laws.pending fd w ≡ []
      → (laws.time w < laws.time (waited w)) × (laws.pending fd (waited w) ≡ laws.pending fd w)
  waited-Later w empty =
      let w1 = (os.send fd (1 ∷ []) w).1 in
      let r = silent.waits w1 (laws.send_pending fd (1 ∷ []) w ∙ empty) in
      (
        omega (arith, laws.send_time fd (1 ∷ []) w, laws.recv_again fd 1 w1 r),
        laws.recv_error fd 1 w1 r ∙ laws.send_pending fd (1 ∷ []) w,
      )

  -- What a cycle with the silent server comes to: the limit has been reached, or the next one runs
  -- later.
  abbrev Cycled : World → Option LoopExit → ClientApp os desk → Type 0
  Cycled w reason b =
      (b ≡ at' b.reporter b.world)
      × (laws.pending fd b.world ≡ [])
      × (((reason ≡ some link_broken) × (start.last_response + link_limit ≤ laws.time b.world))
          ⊎ ((reason ≡ none)
              × (laws.time w < laws.time b.world)
              × (laws.time w < start.last_response + link_limit)))

  cycle-Cycled :
      (fuel : ℕ) (r : CycleReporter) (w : World)
      → laws.pending fd w ≡ []
      → Returns (cycle os desk fuel (at' r w)) (Cycled w)
  unfolding cycle begin_cycle display_and_poll_key
  cycle-Cycled fuel r w empty =
      let (r1, w1) = begin_cycle os r w in
      let begun : Later w w1 = later.by_now w in
      let empty1 = begun.1 ∙ empty in
      let (longer, left) = waited-Later w1 empty1 in
      let w2 = waited w1 in
      let (t, w3) = os.now w2 in
      let reads = laws.now_reads w2 in
      let empty3 = laws.now_pending fd w2 ∙ left ∙ empty1 in
      let b = at' r1 w3 in
      elim (Bool-cases (ltb t (start.last_response + link_limit))) [
        | inr over ↦
            rw (exchange_expires fuel r1 w1 empty1, over, cycle)
              (Returns-pure (Cycled w) (some link_broken) b
                (refl, empty3, inl (refl, ground (arith, over, reads))))
        | inl early ↦
            let shown = drawn-Passes os desk Later later Config.cycle_period_ms b in
            let ended =
              end_cycle-Passes os desk Later later r1 (drawn os desk Config.cycle_period_ms b) in
            rw (exchange_expires fuel r1 w1 empty1, early, stays.other_keys _ _, cycle)
              (Returns-pure (Cycled w) none
                (at' (end_cycle os r1 (drawn os desk Config.cycle_period_ms b)).0.0
                  (end_cycle os r1 (drawn os desk Config.cycle_period_ms b)).1)
                (
                  refl,
                  ended.1 ∙ shown.1 ∙ empty3,
                  inr (
                    refl,
                    omega (arith, begun.0, longer, reads, shown.0, ended.0),
                    omega (arith, begun.0, longer, reads, ltb→lt _ _ early),
                  ),
                ))
      ]

  run_session-GivesUp :
      (fuel : ℕ) (r : CycleReporter) (w : World)
      → (start.last_response + link_limit) - laws.time w < fuel
      → laws.pending fd w ≡ []
      → Returns (run_session os desk fuel (at' r w)) (GivesUp os desk laws start)
  unfolding run_session
  run_session-GivesUp zero r w enough empty = absurd (omega arith)
  run_session-GivesUp (suc fuel) r w enough empty =
      let c = cycle-Cycled fuel r w empty in
      let (same, empty', ends) = c.holds in
      elim ends [
        | inl (lost, late) ↦
            rw (c.runs, lost, run_session)
              (Returns-pure (GivesUp os desk laws start) link_broken c.state (refl, late, same))
        | inr (on, later, early) ↦
            rw (c.runs, on, run_session)
              (subst (λ b. Returns (run_session os desk fuel b) (GivesUp os desk laws start))
                (sym same)
                (run_session-GivesUp fuel c.state.reporter c.state.world (omega arith) empty'))
      ]

module _ (os : Posix) (desk : Desktop os) (laws : Laws os) (draws : Draws os laws desk)
    (stays : NeverQuits os desk) where
  -- While the user presses neither q nor Q, a session with a server that takes the requests but has
  -- nothing on its way, sends nothing and does not close ends by itself as LINK_BROKEN, with fuel
  -- above the nanoseconds that are left of the link's delay. It does not end before this delay has
  -- passed since the last answer; until then only the statistics and the world have changed: the
  -- window's state, the image and its number are still those of the last answer.
  pub run_session_silent :
      (fuel : ℕ) (a : ClientApp os desk)
      → IsSilent os laws a.client.fd
      → laws.pending a.client.fd a.world ≡ []
      → (a.last_response + link_limit) - laws.time a.world < fuel
      → Returns (run_session os desk fuel a) (GivesUp os desk laws a)
  run_session_silent fuel a silent empty enough =
      run_session-GivesUp os desk laws draws stays a silent fuel a.reporter a.world enough empty
