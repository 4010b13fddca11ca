-- ===== src/Client/App/Staying.antt =====
-- What does not end the client: it stays until the user quits.
use embedded_client_server_v.Prelude.{
  ℕ, zero, suc, ◌+◌, ◌≢◌, ◌≡◌, refl, Bool, true, false, inl, inr, Option, some, none, Bool-cases,
  ltb, Ensures, Ensures-pure, Ensures-none,
}
use embedded_client_server_v.Posix.{Posix, milliseconds}
use embedded_client_server_v.Client.Config
use embedded_client_server_v.Client.Desktop.{Desktop}
use embedded_client_server_v.Client.Reporter.{begin_cycle}
use embedded_client_server_v.Client.App.{
  ClientApp, LoopExit, user_quit, link_broken, link_lost, is_quit_key, compose_frame,
  display_and_poll_key, wait_until, attempt, connect_loop, connect_to_server, set_state,
  exchange_frame, cycle, run_session, restart, run_loop, run,
}

module _ (os : Posix) (desk : Desktop os) where
  -- The user presses neither q nor Q.
  pub record NeverQuits : Type 0 where
    pub other_keys : (ms : ℕ) (w : os.World) → is_quit_key (desk.wait_key ms w).0 ≡ false

module _ (os : Posix) (desk : Desktop os) (stays : NeverQuits os desk) where
  abbrev App : Type 0
  App = ClientApp os desk

  polls :
      (ms : ℕ) (a : App) → Ensures (display_and_poll_key os desk ms a) (λ quits _. quits ≡ false)
  unfolding display_and_poll_key
  polls ms a = Ensures-pure (λ quits _. quits ≡ false) _ _ (stays.other_keys ms _)

  wait_until_stays :
      (fuel next : ℕ) (a : App)
      → Ensures (wait_until os desk fuel next a) (λ quits _. quits ≡ false)
  unfolding wait_until display_and_poll_key
  wait_until_stays zero next a = Ensures-none _
  wait_until_stays (suc fuel) next a = elim (Bool-cases (ltb (os.now a.world).0 next)) [
    | inr over ↦ rw (over, wait_until) (Ensures-pure (λ quits _. quits ≡ false) false _ refl)
    | inl early ↦ rw (early, stays.other_keys _ _, wait_until) (wait_until_stays fuel next _)
  ]

  -- A round of connect_loop in which the attempt failed.
  retry_stays :
      (fuel next : ℕ) (c : App)
      → ((b : App) → Ensures (connect_loop os desk fuel b) (λ connected _. connected ≡ true))
      → (r : Option (Bool × App)) → wait_until os desk fuel next c ≡ r
      → Ensures
          (elim r [
            | none ↦ none
            | some (quits, d) ↦ elim quits [
              | true ↦ some (false, d)
              | false ↦ connect_loop os desk fuel d
            ]
          ])
          (λ connected (_ : App). connected ≡ true)
  retry_stays fuel next c later none e = Ensures-none _
  retry_stays fuel next c later (some (true, d)) e =
      absurd (cc (wait_until_stays fuel next c true d e))
  retry_stays fuel next c later (some (false, d)) e = later d

  connect_loop_stays :
      (fuel : ℕ) (a : App) → Ensures (connect_loop os desk fuel a) (λ connected _. connected ≡ true)
  unfolding connect_loop display_and_poll_key
  connect_loop_stays zero a = Ensures-none _
  connect_loop_stays (suc fuel) a =
      let (image, w) = compose_frame os desk a in
      let polled = (desk.wait_key Config.ui_poll_ms (desk.imshow Config.window_name image w)).1 in
      let t = (os.now polled).0 in
      let b = record a { world = (os.now polled).1 } in
      let c = (attempt os desk b).1 in
      elim (Bool-cases (attempt os desk b).0) [
        | inl got ↦
            rw (stays.other_keys _ _, got, connect_loop)
              (Ensures-pure (λ connected _. connected ≡ true) true c refl)
        | inr failed ↦
            rw (stays.other_keys _ _, failed, connect_loop)
              (retry_stays fuel (t + milliseconds Config.reconnect_period_ms) c
                (connect_loop_stays fuel) _ refl)
      ]

  -- A cycle, by what its exchange came to.
  cycle_stays :
      (fuel : ℕ) (a : App) (r : Option (Bool × App))
      → exchange_frame os desk fuel (record a {
        reporter = (begin_cycle os a.reporter a.world).0;
        world = (begin_cycle os a.reporter a.world).1;
      })
        ≡ r
      → Ensures (cycle os desk fuel a) (λ reason _. reason ≢ some user_quit)
  unfolding cycle display_and_poll_key
  cycle_stays fuel a none e = rw (e, cycle) (Ensures-none _)
  cycle_stays fuel a (some (false, b)) e =
      rw (e, cycle)
        (Ensures-pure (λ reason _. reason ≢ some user_quit) (some link_broken) b (λ h. cc h))
  cycle_stays fuel a (some (true, b)) e =
      rw (e, stays.other_keys _ _, cycle)
        (Ensures-pure (λ reason _. reason ≢ some user_quit) none _ (λ h. cc h))

  session_round :
      (fuel : ℕ) (a : App)
      → ((b : App) → Ensures (run_session os desk fuel b) (λ reason _. reason ≡ link_broken))
      → (r : Option (Option LoopExit × App)) → cycle os desk fuel a ≡ r
      → Ensures (run_session os desk (suc fuel) a) (λ reason _. reason ≡ link_broken)
  unfolding run_session
  session_round fuel a later none e = rw (e, run_session) (Ensures-none _)
  session_round fuel a later (some (none, b)) e = rw (e, run_session) (later b)
  session_round fuel a later (some (some link_broken, b)) e =
      rw (e, run_session) (Ensures-pure (λ reason _. reason ≡ link_broken) link_broken b refl)
  session_round fuel a later (some (some user_quit, b)) e =
      absurd (cycle_stays fuel a _ refl (some user_quit) b e refl)

  run_session_stays :
      (fuel : ℕ) (a : App) → Ensures (run_session os desk fuel a) (λ reason _. reason ≡ link_broken)
  unfolding run_session
  run_session_stays zero a = Ensures-none _
  run_session_stays (suc fuel) a = session_round fuel a (run_session_stays fuel) _ refl

  -- A round of run_loop: the connection is there, and the session ends as LINK_LOST.
  loop_session :
      (fuel : ℕ) (a b : App)
      → ((c : App) → run_loop os desk fuel c ≡ none)
      → connect_to_server os desk fuel a ≡ some (true, b)
      → (r : Option (LoopExit × App)) → run_session os desk fuel (restart os desk b) ≡ r
      → run_loop os desk (suc fuel) a ≡ none
  unfolding run_loop
  loop_session fuel a b later e none s = rw (e, s, run_loop) refl
  loop_session fuel a b later e (some (user_quit, c)) s =
      absurd (cc (run_session_stays fuel _ user_quit c s))
  loop_session fuel a b later e (some (link_broken, c)) s = rw (e, s, run_loop) (later _)

  loop_round :
      (fuel : ℕ) (a : App)
      → ((c : App) → run_loop os desk fuel c ≡ none)
      → (r : Option (Bool × App)) → connect_to_server os desk fuel a ≡ r
      → run_loop os desk (suc fuel) a ≡ none
  unfolding run_loop connect_to_server
  loop_round fuel a later none e = rw (e, run_loop) refl
  loop_round fuel a later (some (false, b)) e =
      absurd (cc (connect_loop_stays fuel (set_state os desk link_lost a) false b e))
  loop_round fuel a later (some (true, b)) e = loop_session fuel a b later e _ refl

  run_loop_stays : (fuel : ℕ) (a : App) → run_loop os desk fuel a ≡ none
  unfolding run_loop
  run_loop_stays zero a = refl
  run_loop_stays (suc fuel) a = loop_round fuel a (run_loop_stays fuel) _ refl

  -- A client whose user presses neither q nor Q never ends by itself, whatever the connection and
  -- the server do: run returns after no number of rounds.
  pub run_stays : (fuel : ℕ) (a : App) → run os desk fuel a ≡ none
  unfolding run
  run_stays fuel a = rw (run_loop_stays fuel a, run) refl
