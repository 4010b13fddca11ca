-- ===== src/Server/Main/Exit.antt =====
-- How the server's program ends, and what it then still holds.
use embedded_client_server_v.Prelude.{
  ℕ, zero, suc, ◌≡◌, refl, sym, subst, arith, ◌∙◌, ◌⊎◌, inl, inr, true, false, Option, some, none,
  Bool-cases, is_negative, Ensures, Ensures-pure, Ensures-none,
}
use embedded_client_server_v.Posix.{Posix, Descriptors, Held}
use embedded_client_server_v.Server.Hardware.{Hardware, LeavesSockets}
use embedded_client_server_v.Server.Socket
use embedded_client_server_v.Server.Socket.{wait_for_client}
use embedded_client_server_v.Server.Socket.Descriptors.{
  Lives, started, waited, hung_up, worked, shut_down-Lives,
}
use embedded_client_server_v.Server.Button
use embedded_client_server_v.Server.Camera
use embedded_client_server_v.Server.Light
use embedded_client_server_v.Server.App
use embedded_client_server_v.Server.App.{
  ServerApp, SessionOutcome, stop_requested, gone, serve_client, run_loop,
}
use embedded_client_server_v.Server.App.Holding.{serve_client-Keeps}
use embedded_client_server_v.Server.App.Ending.{Stopped, run_stop}
use embedded_client_server_v.Server.Main.{main, run_app}
use embedded_client_server_v.Server.Main.Parts
use embedded_client_server_v.Server.Config
use embedded_client_server_v.Protocol
use embedded_client_server_v.Server.Main

module _ (os : Posix) (hw : Hardware os) (d : Descriptors os) (quiet : LeavesSockets os d hw)
    (others : Held) where
  open os use {World}

  -- An app whose server lives, and what the process holds.
  abbrev Running : ServerApp os hw → Type 0
  Running a = Lives os d others a.server a.world

  -- It waits for a client.
  abbrev Idle : ServerApp os hw → Type 0
  Idle a = Running a × (is_negative a.server.client_fd ≡ true)

  close_client-Idle : (a : ServerApp os hw) → Running a → Idle (App.close_client os hw a)
  unfolding App.close_client Socket.close_client
  close_client-Idle a l = (
    hung_up l,
    elim (Bool-cases (is_negative a.server.client_fd)) [
      | inl closed ↦ rw (closed, Socket.close_client) closed
      | inr opened ↦ rw (opened, Socket.close_client) refl
    ],
  )

  refused_fd :
      (a : ServerApp os hw)
      → (wait_for_client os a.server a.world).0.1 ≡ false
      → is_negative (wait_for_client os a.server a.world).0.0.client_fd ≡ true
  unfolding wait_for_client
  refused_fd a e = elim (Bool-cases (is_negative (os.accept a.server.listen_fd a.world).0)) [
    | inl refused ↦ rw (refused, wait_for_client) refused
    | inr accepted ↦ absurd (cc (rw (accepted, wait_for_client) at e))
  ]

  serve_client-Running :
      (fuel : ℕ) (a : ServerApp os hw)
      → Running a
      → Ensures (serve_client os hw fuel a) (λ _ b. Running b)
  serve_client-Running fuel a l o b e =
      let (same, count) =
        serve_client-Keeps os hw d quiet a.server (d.held a.world) fuel a (refl, refl) o b e in
      subst (λ s. Lives os d others s b.world) (sym same) (worked l count)

  -- A round of run_loop in which a client came.
  session-Running :
      (fuel : ℕ) (a b : ServerApp os hw)
      → Running b
      → ((c : ServerApp os hw) → Idle c → Ensures (run_loop os hw fuel c) (λ _ e. Running e))
      → ((o : SessionOutcome) (c : ServerApp os hw)
          → serve_client os hw fuel b ≡ some (o, c)
          → Running c)
      → b ≡ record a {
        server = (wait_for_client os a.server a.world).0.0;
        world = (wait_for_client os a.server a.world).1;
      }
      → (wait_for_client os a.server a.world).0.1 ≡ true
      → (r : Option (SessionOutcome × ServerApp os hw)) → serve_client os hw fuel b ≡ r
      → Ensures (run_loop os hw (suc fuel) a) (λ _ c. Running c)
  unfolding run_loop
  session-Running fuel a b l later served same came none e =
      rw (came, ← same, e, run_loop) (Ensures-none _)
  session-Running fuel a b l later served same came (some (stop_requested, c)) e =
      rw (came, ← same, e, run_loop)
        (Ensures-pure (λ _ c'. Running c') tt (App.close_client os hw c)
          (close_client-Idle c (served stop_requested c e)).0)
  session-Running fuel a b l later served same came (some (gone, c)) e =
      rw (came, ← same, e, run_loop) (later _ (close_client-Idle c (served gone c e)))

  run_loop-Running :
      (fuel : ℕ) (a : ServerApp os hw) → Idle a → Ensures (run_loop os hw fuel a) (λ _ b. Running b)
  unfolding run_loop
  run_loop-Running zero a l = Ensures-none _
  run_loop-Running (suc fuel) a (l, free) =
      let came = (wait_for_client os a.server a.world).0.1 in
      let server = (wait_for_client os a.server a.world).0.0 in
      let w = (wait_for_client os a.server a.world).1 in
      let b = record a { server = server; world = w } in
      let alive : Running b = waited l free in
      elim (Bool-cases came) [
        | inr nobody ↦ rw (nobody, run_loop) (run_loop-Running fuel b (alive, refused_fd a nobody))
        | inl someone ↦
            session-Running fuel a b alive (run_loop-Running fuel)
              (serve_client-Running fuel b alive) refl someone _ refl
      ]

  new_client_fd :
      (port recv_timeout_ms : ℕ) (w : World)
      → is_negative (Socket.new os port recv_timeout_ms w).0.client_fd ≡ true
  unfolding Socket.new Socket.bind_port Socket.start_listening
  new_client_fd port recv_timeout_ms w = ground arith

  -- The members but the socket.
  parts_held :
      (w : World)
      → let w1 = Camera.new os hw 0 w in
        let w2 =
          (Button.new os hw Config.gpio_chip Config.gpio_line Config.button_active_low
            Config.button_debounce_ms Config.button_poll_us w1).1 in
        let w3 =
          (Light.new os hw Config.light_sensor_path Config.light_raw_threshold
            Config.light_raw_rises
            (hw.of_ℕ Config.image_dark_threshold)
            Config.state_hold_ms
            w2).1 in
        d.held (os.now w3).1 ≡ d.held w
  parts_held w =
      d.now_held _
      ∙ Parts.light_held os hw d quiet _ _ _ _ _ _
      ∙ Parts.button_held os hw d quiet _ _ _ _ _ _
      ∙ Parts.camera_held os hw d quiet 0 w

  started-Idle : (w : World) → d.held w ≡ others → Idle (Main.started os hw w)
  unfolding Main.started App.new
  started-Idle w e =
      let w' = os.ignore_sigpipe w in
      (
        worked (started Protocol.port Config.recv_timeout_ms (d.ignore_sigpipe_held w ∙ e))
            (parts_held _),
        new_client_fd Protocol.port Config.recv_timeout_ms w',
      )

  shut_down-Running : (a : ServerApp os hw) → Running a → d.held (App.shut_down os hw a) ≡ others
  unfolding App.shut_down
  shut_down-Running a l =
      shut_down-Lives os d others a.server _
        (worked l (quiet.release_held _ ∙ Parts.button_end_held os hw d quiet a.button a.world))

  -- The app of the program when its loop begins.
  abbrev pub looping : World → ServerApp os hw
  looping w = let a = Main.started os hw w in record a { world = (os.silence_stderr a.world).1 }

  -- Why the program ended with this code.
  abbrev pub Ended : World → ℕ → Type 0
  Ended w code =
      ((code ≡ 1) × (App.valid os hw (Main.started os hw w) ≡ false))
      ⊎ ((code ≡ 0) × (App.valid os hw (Main.started os hw w) ≡ true) × Stopped os hw (looping w))

  run-Running :
      (fuel : ℕ) (a : ServerApp os hw) → Idle a → Ensures (App.run os hw fuel a) (λ _ b. Running b)
  unfolding App.run
  run-Running fuel a (l, free) =
      run_loop-Running fuel _ (worked l (d.silence_stderr_held a.world), free)

  run_app-Ended :
      (fuel : ℕ) (w : World)
      → Idle (Main.started os hw w)
      → App.valid os hw (Main.started os hw w) ≡ true
      → (r : Option (Unit {0} × ServerApp os hw)) → App.run os hw fuel (Main.started os hw w) ≡ r
      → Ensures
          (run_app os hw fuel (Main.started os hw w))
          (λ code w'. (d.held w' ≡ others) × Ended w code)
  unfolding run_app
  run_app-Ended fuel w l valid none e = rw (e, run_app) (Ensures-none _)
  run_app-Ended fuel w l valid (some (x, b)) e =
      rw (e, run_app)
        (Ensures-pure (λ code w'. (d.held w' ≡ others) × Ended w code) 0 (App.shut_down os hw b)
          (
            shut_down-Running b (run-Running fuel _ l x b e),
            inr (refl, valid, run_stop os hw fuel _ b e),
          ))

  -- When the program of the server ends it holds exactly the sockets that it held at its start,
  -- each so often: it has closed all that it opened. Its exit code is 1 if the server is not listening or the camera not open after the start; else it is 0,
  -- and then in some client's session the byte received next was a STOP, after all sessions
  -- before it had ended as DISCONNECTED.
  pub main-Ended :
      (fuel code : ℕ) (w w' : World)
      → d.held w ≡ others
      → main os hw fuel w ≡ some (code, w')
      → (d.held w' ≡ others) × Ended w code
  unfolding main
  main-Ended fuel code w w' e h =
      let a = Main.started os hw w in
      let l = started-Idle w e in
      elim (Bool-cases (App.valid os hw a)) [
        | inl valid ↦ run_app-Ended fuel w l valid _ refl code w' (rw (valid, main) at h)
        | inr broken ↦
            Ensures-pure (λ code' u. (d.held u ≡ others) × Ended w code') 1 (App.shut_down os hw a)
              (shut_down-Running a l.0, inl (refl, broken)) code w' (rw (broken, main) at h)
      ]
