-- ===== src/Client/App/Holding.antt =====
-- The sockets of the process through a session of the client and its end.
use embedded_client_server_v.Prelude.{
  ℕ, zero, suc, if◌then◌else◌, ◌≡◌, refl, ◌∙◌, inl, inr, Bool, true, false, [], ◌∷◌, Option, some,
  none, ltb, ◌==◌, Bool-cases, Ensures-none, pure,
}
use embedded_client_server_v.Posix.{Posix, Descriptors, Held}
use embedded_client_server_v.Client.Config
use embedded_client_server_v.Client.Protocol
use embedded_client_server_v.Client.Desktop.{Desktop}
use embedded_client_server_v.Client.Reporter.{begin_cycle}
use embedded_client_server_v.Client.Socket.{
  RecvResult, received, timeout, disconnected, send, receive,
}
use embedded_client_server_v.Client.App.{
  ClientApp, LoopExit, link_broken, user_quit, display_and_poll_key, handle_response,
  exchange_frame, await_ack, shutdown_loop, request_shutdown, cycle, run_session,
}
use embedded_client_server_v.Client.App.Drawing.{Passes, drawn, drawn-Passes, end_cycle-Passes}
use embedded_client_server_v.Client.App.Owning.{
  LeavesSockets, Owns, Keeps, kept, handle_response-Keeps, after_receive-Keeps,
}

module _ (os : Posix) (desk : Desktop os) (d : Descriptors os) (quiet : LeavesSockets os d desk)
    (others : Held) where
  open os use {World}

  abbrev App : Type 0
  App = ClientApp os desk

  exchange_frame-Keeps :
      (fuel : ℕ) (a : App)
      → Owns os desk d others a
      → Keeps os desk d others (exchange_frame os desk fuel a)
  unfolding exchange_frame send receive
  exchange_frame-Keeps fuel a h =
      let asked = d.send_held a.client.fd (1 ∷ []) a.world ∙ h in
      elim (Bool-cases (send os a.client 1 a.world).0) [
        | inr refused ↦ rw (refused, exchange_frame) (kept os desk d quiet others false _ asked)
        | inl sent ↦
            rw (sent, exchange_frame)
              (after_receive-Keeps os desk d quiet others fuel _ _ _
                (d.recv_held a.client.fd 1 _ ∙ asked))
      ]

  -- No call of the display and of the statistics opens or closes a socket.
  abbrev Level : World → World → Type 0
  Level w v = d.held v ≡ d.held w

  level : Passes os desk Level
  level = record {
    same = λ w. refl;
    both = λ u v w p q. q ∙ p;
    by_now = d.now_held;
    by_imshow = quiet.imshow_held;
    by_wait_key = quiet.wait_key_held;
  }

  pub display_and_poll_key-Keeps :
      (ms : ℕ) (a : App)
      → Owns os desk d others a
      → Keeps os desk d others (display_and_poll_key os desk ms a)
  unfolding display_and_poll_key
  display_and_poll_key-Keeps ms a h =
      kept os desk d quiet others _ (record a { world = drawn os desk ms a })
        (drawn-Passes os desk Level level ms a ∙ h)

  begun : App → App
  begun a = let (r, w) = begin_cycle os a.reporter a.world in record a { reporter = r; world = w }

  -- The end of a cycle, by the keys.
  cycle_end :
      (fuel : ℕ) (a b : App)
      → exchange_frame os desk fuel (begun a) ≡ some (true, b)
      → (r : Option (Bool × App)) → display_and_poll_key os desk Config.cycle_period_ms b ≡ r
      → Keeps os desk d others r
      → Keeps os desk d others (cycle os desk fuel a)
  unfolding cycle begun
  cycle_end fuel a b e none f k = rw (e, f, cycle) (Ensures-none _)
  cycle_end fuel a b e (some (true, c)) f k =
      rw (e, f, cycle) (kept os desk d quiet others (some user_quit) c (k true c refl))
  cycle_end fuel a b e (some (false, c)) f k =
      rw (e, f, cycle)
        (kept os desk d quiet others none _
          (end_cycle-Passes os desk Level level c.reporter c.world ∙ k false c refl))

  cycle_exchange :
      (fuel : ℕ) (a : App) (r : Option (Bool × App))
      → exchange_frame os desk fuel (begun a) ≡ r
      → Keeps os desk d others r
      → Keeps os desk d others (cycle os desk fuel a)
  unfolding cycle begun
  cycle_exchange fuel a none e k = rw (e, cycle) (Ensures-none _)
  cycle_exchange fuel a (some (false, b)) e k =
      rw (e, cycle) (kept os desk d quiet others (some link_broken) b (k false b refl))
  cycle_exchange fuel a (some (true, b)) e k =
      cycle_end fuel a b e _ refl
        (display_and_poll_key-Keeps Config.cycle_period_ms b (k true b refl))

  cycle-Keeps :
      (fuel : ℕ) (a : App) → Owns os desk d others a → Keeps os desk d others (cycle os desk fuel a)
  unfolding begun begin_cycle
  cycle-Keeps fuel a h =
      cycle_exchange fuel a _ refl (exchange_frame-Keeps fuel (begun a) (d.now_held a.world ∙ h))

  session_round :
      (fuel : ℕ) (a : App)
      → ((b : App) → Owns os desk d others b → Keeps os desk d others (run_session os desk fuel b))
      → (r : Option (Option LoopExit × App)) → cycle os desk fuel a ≡ r
      → Keeps os desk d others r
      → Keeps os desk d others (run_session os desk (suc fuel) a)
  unfolding run_session
  session_round fuel a later none e k = rw (e, run_session) (Ensures-none _)
  session_round fuel a later (some (none, b)) e k = rw (e, run_session) (later b (k none b refl))
  session_round fuel a later (some (some reason, b)) e k =
      rw (e, run_session) (kept os desk d quiet others reason b (k (some reason) b refl))

  pub run_session-Keeps :
      (fuel : ℕ) (a : App)
      → Owns os desk d others a
      → Keeps os desk d others (run_session os desk fuel a)
  unfolding run_session
  run_session-Keeps zero a h = Ensures-none _
  run_session-Keeps (suc fuel) a h =
      session_round fuel a (run_session-Keeps fuel) _ refl (cycle-Keeps fuel a h)

  acknowledged :
      (fuel : ℕ) (r : RecvResult) (response : ℕ) (b : App)
      → Owns os desk d others b
      → Keeps os desk d others (elim r [
        | timeout ↦ pure true b
        | disconnected ↦ pure false b
        | received ↦
            if response == Protocol.stop_ack
            then pure false b
            else handle_response os desk fuel response b
      ])
  acknowledged fuel timeout response b h = kept os desk d quiet others true b h
  acknowledged fuel disconnected response b h = kept os desk d quiet others false b h
  acknowledged fuel received response b h = elim (Bool-cases (response == Protocol.stop_ack)) [
    | inl over ↦ rw over (kept os desk d quiet others false b h)
    | inr answer ↦ rw answer (handle_response-Keeps os desk d quiet others fuel response b h)
  ]

  await_ack-Keeps :
      (fuel : ℕ) (a : App)
      → Owns os desk d others a
      → Keeps os desk d others (await_ack os desk fuel a)
  unfolding await_ack receive
  await_ack-Keeps fuel a h =
      let ((r, response), w) = receive os a.client 0 a.world in
      acknowledged fuel r response (record a { world = w }) (d.recv_held a.client.fd 1 a.world ∙ h)

  shutdown_round :
      (fuel deadline : ℕ) (a : App)
      → ltb (os.now a.world).0 deadline ≡ true
      → ((b : App)
          → Owns os desk d others b
          → Keeps os desk d others (shutdown_loop os desk fuel deadline b))
      → (r : Option (Bool × App))
      → await_ack os desk fuel (record a { world = (os.now a.world).1 }) ≡ r
      → Keeps os desk d others r
      → Keeps os desk d others (shutdown_loop os desk (suc fuel) deadline a)
  unfolding shutdown_loop
  shutdown_round fuel deadline a early later none e k =
      rw (early, e, shutdown_loop) (Ensures-none _)
  shutdown_round fuel deadline a early later (some (true, b)) e k =
      rw (early, e, shutdown_loop) (later b (k true b refl))
  shutdown_round fuel deadline a early later (some (false, b)) e k =
      rw (early, e, shutdown_loop) (kept os desk d quiet others tt b (k false b refl))

  shutdown_loop-Keeps :
      (fuel deadline : ℕ) (a : App)
      → Owns os desk d others a
      → Keeps os desk d others (shutdown_loop os desk fuel deadline a)
  unfolding shutdown_loop
  shutdown_loop-Keeps zero deadline a h = Ensures-none _
  shutdown_loop-Keeps (suc fuel) deadline a h =
      let b = record a { world = (os.now a.world).1 } in
      let owns : Owns os desk d others b = d.now_held a.world ∙ h in
      elim (Bool-cases (ltb (os.now a.world).0 deadline)) [
        | inr over ↦ rw (over, shutdown_loop) (kept os desk d quiet others tt b owns)
        | inl early ↦
            shutdown_round fuel deadline a early (shutdown_loop-Keeps fuel deadline) _ refl
              (await_ack-Keeps fuel b owns)
      ]

  pub request_shutdown-Keeps :
      (fuel : ℕ) (a : App)
      → Owns os desk d others a
      → Keeps os desk d others (request_shutdown os desk fuel a)
  unfolding request_shutdown send
  request_shutdown-Keeps fuel a h =
      shutdown_loop-Keeps fuel _ _
        (d.now_held (send os a.client 2 a.world).1 ∙ d.send_held a.client.fd (2 ∷ []) a.world ∙ h)
