-- ===== src/Client/App/Connecting.antt =====
-- The sockets of the process from the first attempt to connect to the end of run.
use embedded_client_server_v.Prelude.{
  ℕ, zero, suc, ◌+◌, ◌≡◌, refl, sym, ◌∙◌, inl, inr, Bool, true, false, Option, some, none, ltb,
  Bool-cases, Ensures-none,
}
use embedded_client_server_v.Posix.{Posix, Descriptors, Held, milliseconds}
use embedded_client_server_v.Client.Config
use embedded_client_server_v.Client.Desktop.{Desktop}
use embedded_client_server_v.Client.Reporter.{reset}
use embedded_client_server_v.Client.Socket.Descriptors.{connect-Balanced, close-held, none_owned}
use embedded_client_server_v.Client.App.{
  ClientApp, LoopExit, link_broken, user_quit, link_lost, display_and_poll_key, wait_until, attempt,
  connect_loop, connect_to_server, run_session, restart, hang_up, run_loop, run, shut_down,
}
use embedded_client_server_v.Client.App.Owning.{LeavesSockets, Owns, Keeps, kept, set_state-Owns}
use embedded_client_server_v.Client.App.Holding.{
  display_and_poll_key-Keeps, run_session-Keeps, request_shutdown-Keeps,
}
use embedded_client_server_v.Client.Protocol

module _ (os : Posix) (desk : Desktop os) (d : Descriptors os) (quiet : LeavesSockets os d desk)
    (others : Held) where
  open os use {World}

  abbrev App : Type 0
  App = ClientApp os desk

  wait_round :
      (fuel next : ℕ) (a : App)
      → ltb (os.now a.world).0 next ≡ true
      → ((b : App)
          → Owns os desk d others b
          → Keeps os desk d others (wait_until os desk fuel next b))
      → (r : Option (Bool × App))
      → display_and_poll_key os desk Config.ui_poll_ms (record a { world = (os.now a.world).1 }) ≡ r
      → Keeps os desk d others r
      → Keeps os desk d others (wait_until os desk (suc fuel) next a)
  unfolding wait_until
  wait_round fuel next a early later none e k = rw (early, e, wait_until) (Ensures-none _)
  wait_round fuel next a early later (some (true, b)) e k =
      rw (early, e, wait_until) (kept os desk d quiet others true b (k true b refl))
  wait_round fuel next a early later (some (false, b)) e k =
      rw (early, e, wait_until) (later b (k false b refl))

  wait_until-Keeps :
      (fuel next : ℕ) (a : App)
      → Owns os desk d others a
      → Keeps os desk d others (wait_until os desk fuel next a)
  unfolding wait_until
  wait_until-Keeps zero next a h = Ensures-none _
  wait_until-Keeps (suc fuel) next a h =
      let b = record a { world = (os.now a.world).1 } in
      let owns : Owns os desk d others b = d.now_held a.world ∙ h in
      elim (Bool-cases (ltb (os.now a.world).0 next)) [
        | inr over ↦ rw (over, wait_until) (kept os desk d quiet others false b owns)
        | inl early ↦
            wait_round fuel next a early (wait_until-Keeps fuel next) _ refl
              (display_and_poll_key-Keeps os desk d quiet others Config.ui_poll_ms b owns)
      ]

  attempt-Owns : (a : App) → Owns os desk d others a → Owns os desk d others (attempt os desk a).1
  unfolding attempt
  attempt-Owns a h =
      (connect-Balanced os d others a.client Config.server_ip Protocol.port Config.recv_timeout_ms
        Config.connect_timeout_ms a.world h).0

  -- The app after the clock has been read for an attempt.
  abbrev timed : App → App
  timed b = record b { world = (os.now b.world).1 }

  -- What follows a failed attempt.
  retry :
      (fuel : ℕ) (a b : App)
      → display_and_poll_key os desk Config.ui_poll_ms a ≡ some (false, b)
      → (attempt os desk (timed b)).0 ≡ false
      → ((c : App) → Owns os desk d others c → Keeps os desk d others (connect_loop os desk fuel c))
      → (r : Option (Bool × App))
      → wait_until os desk fuel
          ((os.now b.world).0 + milliseconds Config.reconnect_period_ms)
          (attempt os desk (timed b)).1
        ≡ r
      → Keeps os desk d others r
      → Keeps os desk d others (connect_loop os desk (suc fuel) a)
  unfolding connect_loop
  retry fuel a b e failed later none f k = rw (e, failed, f, connect_loop) (Ensures-none _)
  retry fuel a b e failed later (some (true, c)) f k =
      rw (e, failed, f, connect_loop) (kept os desk d quiet others false c (k true c refl))
  retry fuel a b e failed later (some (false, c)) f k =
      rw (e, failed, f, connect_loop) (later c (k false c refl))

  connect_round :
      (fuel : ℕ) (a : App)
      → ((c : App) → Owns os desk d others c → Keeps os desk d others (connect_loop os desk fuel c))
      → (r : Option (Bool × App)) → display_and_poll_key os desk Config.ui_poll_ms a ≡ r
      → Keeps os desk d others r
      → Keeps os desk d others (connect_loop os desk (suc fuel) a)
  unfolding connect_loop
  connect_round fuel a later none e k = rw (e, connect_loop) (Ensures-none _)
  connect_round fuel a later (some (true, b)) e k =
      rw (e, connect_loop) (kept os desk d quiet others false b (k true b refl))
  connect_round fuel a later (some (false, b)) e k =
      let owns = attempt-Owns (timed b) (d.now_held b.world ∙ k false b refl) in
      elim (Bool-cases (attempt os desk (timed b)).0) [
        | inl got ↦
            rw (e, got, connect_loop)
              (kept os desk d quiet others true (attempt os desk (timed b)).1 owns)
        | inr failed ↦ retry fuel a b e failed later _ refl (wait_until-Keeps fuel _ _ owns)
      ]

  connect_loop-Keeps :
      (fuel : ℕ) (a : App)
      → Owns os desk d others a
      → Keeps os desk d others (connect_loop os desk fuel a)
  unfolding connect_loop
  connect_loop-Keeps zero a h = Ensures-none _
  connect_loop-Keeps (suc fuel) a h =
      connect_round fuel a (connect_loop-Keeps fuel) _ refl
        (display_and_poll_key-Keeps os desk d quiet others Config.ui_poll_ms a h)

  connect_to_server-Keeps :
      (fuel : ℕ) (a : App)
      → Owns os desk d others a
      → Keeps os desk d others (connect_to_server os desk fuel a)
  unfolding connect_to_server
  connect_to_server-Keeps fuel a h =
      connect_loop-Keeps fuel _ (set_state-Owns os desk d quiet others link_lost a h)

  hang_up-Owns :
      (a : App)
      → Owns os desk d others a
      → Owns os desk d others (hang_up os desk a) × (d.held (hang_up os desk a).world ≡ others)
  unfolding hang_up
  hang_up-Owns a h =
      let (gone, closed) = close-held os d others a.client a.world h in
      (gone ∙ sym (none_owned os d others (hang_up os desk a).client closed), gone)

  restart-Owns : (a : App) → Owns os desk d others a → Owns os desk d others (restart os desk a)
  unfolding restart reset
  restart-Owns a h = d.now_held (os.now a.world).1 ∙ d.now_held a.world ∙ h

  session_end :
      (fuel : ℕ) (a b : App)
      → connect_to_server os desk fuel a ≡ some (true, b)
      → ((c : App) → Owns os desk d others c → Keeps os desk d others (run_loop os desk fuel c))
      → (r : Option (LoopExit × App)) → run_session os desk fuel (restart os desk b) ≡ r
      → Keeps os desk d others r
      → Keeps os desk d others (run_loop os desk (suc fuel) a)
  unfolding run_loop
  session_end fuel a b e later none f k = rw (e, f, run_loop) (Ensures-none _)
  session_end fuel a b e later (some (user_quit, c)) f k =
      rw (e, f, run_loop)
        (request_shutdown-Keeps os desk d quiet others fuel c (k user_quit c refl))
  session_end fuel a b e later (some (link_broken, c)) f k =
      rw (e, f, run_loop) (later _ (hang_up-Owns c (k link_broken c refl)).0)

  run_round :
      (fuel : ℕ) (a : App)
      → ((c : App) → Owns os desk d others c → Keeps os desk d others (run_loop os desk fuel c))
      → (r : Option (Bool × App)) → connect_to_server os desk fuel a ≡ r
      → Keeps os desk d others r
      → Keeps os desk d others (run_loop os desk (suc fuel) a)
  unfolding run_loop
  run_round fuel a later none e k = rw (e, run_loop) (Ensures-none _)
  run_round fuel a later (some (false, b)) e k =
      rw (e, run_loop) (kept os desk d quiet others tt b (k false b refl))
  run_round fuel a later (some (true, b)) e k =
      session_end fuel a b e later _ refl
        (run_session-Keeps os desk d quiet others fuel _ (restart-Owns b (k true b refl)))

  run_loop-Keeps :
      (fuel : ℕ) (a : App)
      → Owns os desk d others a
      → Keeps os desk d others (run_loop os desk fuel a)
  unfolding run_loop
  run_loop-Keeps zero a h = Ensures-none _
  run_loop-Keeps (suc fuel) a h =
      run_round fuel a (run_loop-Keeps fuel) _ refl (connect_to_server-Keeps fuel a h)

  pub run-Keeps :
      (fuel : ℕ) (a : App) → Owns os desk d others a → Keeps os desk d others (run os desk fuel a)
  unfolding run
  run-Keeps fuel a h = ended _ refl (run_loop-Keeps fuel a h)
    where
      ended :
          (r : Option (Unit {0} × App))
          → run_loop os desk fuel a ≡ r
          → Keeps os desk d others r
          → Keeps os desk d others (elim r [
            | none ↦ none
            | some (_, b) ↦ some (tt, record b { world = desk.destroy_all_windows b.world })
          ])
      ended none e k = Ensures-none _
      ended (some (_, b)) e k =
          kept os desk d quiet others tt _ (quiet.destroy_held b.world ∙ k tt b refl)

  pub shut_down_held : (a : App) → Owns os desk d others a → d.held (shut_down os desk a) ≡ others
  unfolding shut_down
  shut_down_held a h = (hang_up-Owns a h).1
