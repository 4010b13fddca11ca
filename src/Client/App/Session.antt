-- ===== src/Client/App/Session.antt =====
-- Client/src/client_app.cpp: connectToServer, the cycles of a session, requestShutdown and run.
use embedded_client_server_v.Prelude.{
  ℕ, zero, suc, ◌+◌, Bool, true, false, Option, none, some, ◌==◌, ltb, if◌then◌else◌, M, pure,
}
use embedded_client_server_v.Client.Protocol
use embedded_client_server_v.Posix.{Posix, milliseconds}
use embedded_client_server_v.Client.Config
use embedded_client_server_v.Client.Desktop.{Desktop}
use embedded_client_server_v.Client.Reporter.{CycleReporter, Report, begin_cycle, end_cycle}
use embedded_client_server_v.Client.Reporter
use embedded_client_server_v.Client.Socket.{TcpClient, RecvResult, received, timeout, disconnected}
use embedded_client_server_v.Client.Socket
use embedded_client_server_v.Client.App.State.{
  LoopExit, ClientApp, set_state, display_and_poll_key, link_lost, user_quit, link_broken,
}
use embedded_client_server_v.Client.App.Answers.{handle_response, exchange_frame}

module _ (os : Posix) (desk : Desktop os) where
  open os use {World}

  -- One round of the loop of requestShutdown within its delay; whether it goes on.
  unfoldable pub await_ack : ℕ → M (ClientApp os desk) Bool
  await_ack fuel a =
      let ((result, response), w) = Socket.receive os a.client 0 a.world in
      let b = record a { world = w } in
      elim result [
        | timeout ↦ pure true b
        | disconnected ↦ pure false b
        | received ↦
            if response == Protocol.stop_ack
            then pure false b
            else handle_response os desk fuel response b
      ]

  unfoldable pub shutdown_loop : ℕ → ℕ → M (ClientApp os desk) (Unit {0})
  shutdown_loop zero deadline a = none
  shutdown_loop (suc fuel) deadline a =
      let (t, w) = os.now a.world in
      let b = record a { world = w } in
      elim (ltb t deadline) [
        | false ↦ some (tt, b)
        | true ↦ elim (await_ack fuel b) [
          | none ↦ none
          | some (goes_on, c) ↦ elim goes_on [
            | true ↦ shutdown_loop fuel deadline c
            | false ↦ some (tt, c)
          ]
        ]
      ]

  unfoldable pub request_shutdown : ℕ → M (ClientApp os desk) (Unit {0})
  request_shutdown fuel a =
      let (_, w) = Socket.send os a.client Protocol.stop a.world in
      let (t, w') = os.now w in
      shutdown_loop fuel (t + milliseconds Config.shutdown_timeout_ms) (record a { world = w' })

  -- The wait between two attempts: whether the user asked to quit.
  unfoldable pub wait_until : ℕ → ℕ → M (ClientApp os desk) Bool
  wait_until zero next a = none
  wait_until (suc fuel) next a =
      let (t, w) = os.now a.world in
      let b = record a { world = w } in
      elim (ltb t next) [
        | false ↦ some (false, b)
        | true ↦ elim (display_and_poll_key os desk Config.ui_poll_ms b) [
          | none ↦ none
          | some (quits, c) ↦ elim quits [ true ↦ some (true, c) | false ↦ wait_until fuel next c ]
        ]
      ]

  unfoldable pub attempt : ClientApp os desk → Bool × ClientApp os desk
  attempt a =
      let ((client, connected), w) =
        Socket.connect os a.client Config.server_ip Protocol.port Config.recv_timeout_ms
          Config.connect_timeout_ms a.world in
      (connected, record a { client = client; world = w })

  unfoldable pub connect_loop : ℕ → M (ClientApp os desk) Bool
  unfolding attempt
  connect_loop zero a = none
  connect_loop (suc fuel) a = elim (display_and_poll_key os desk Config.ui_poll_ms a) [
    | none ↦ none
    | some (quits, b) ↦
        let (t, w) = os.now b.world in
        let (connected, c) = attempt (record b { world = w }) in
        elim quits [
          | true ↦ some (false, b)
          | false ↦ elim connected [
            | true ↦ some (true, c)
            | false ↦ elim (wait_until fuel (t + milliseconds Config.reconnect_period_ms) c) [
              | none ↦ none
              | some (quits', d) ↦ elim quits' [
                | true ↦ some (false, d)
                | false ↦ connect_loop fuel d
              ]
            ]
          ]
        ]
  ]

  unfoldable pub connect_to_server : ℕ → M (ClientApp os desk) Bool
  connect_to_server fuel a = connect_loop fuel (set_state os desk link_lost a)

  -- One cycle: the reason to leave the session, if there is one.
  unfoldable pub cycle : ℕ → M (ClientApp os desk) (Option LoopExit)
  cycle fuel a =
      let (started, w) = begin_cycle os a.reporter a.world in
      elim (exchange_frame os desk fuel (record a { reporter = started; world = w })) [
        | none ↦ none
        | some (false, b) ↦ some (some link_broken, b)
        | some (true, b) ↦ elim (display_and_poll_key os desk Config.cycle_period_ms b) [
          | none ↦ none
          | some (true, c) ↦ some (some user_quit, c)
          | some (false, c) ↦
              let ((reporter, _), w') = end_cycle os c.reporter c.world in
              some (none, record c { reporter = reporter; world = w' })
        ]
      ]

  unfoldable pub run_session : ℕ → M (ClientApp os desk) LoopExit
  run_session zero a = none
  run_session (suc fuel) a = elim (cycle fuel a) [
    | none ↦ none
    | some (none, b) ↦ run_session fuel b
    | some (some reason, b) ↦ some (reason, b)
  ]

  -- run after a connection: both clocks start again.
  unfoldable pub restart : ClientApp os desk → ClientApp os desk
  restart a =
      let (t, w) = os.now a.world in
      let (reporter, w') = Reporter.reset os a.reporter w in
      record a { last_response = t; reporter = reporter; world = w' }

  unfoldable pub hang_up : ClientApp os desk → ClientApp os desk
  hang_up a =
      let (client, w) = Socket.close os a.client a.world in record a { client = client; world = w }

  unfoldable pub run_loop : ℕ → M (ClientApp os desk) (Unit {0})
  unfolding restart hang_up
  run_loop zero a = none
  run_loop (suc fuel) a = elim (connect_to_server fuel a) [
    | none ↦ none
    | some (false, b) ↦ some (tt, b)
    | some (true, b) ↦ elim (run_session fuel (restart b)) [
      | none ↦ none
      | some (user_quit, c) ↦ request_shutdown fuel c
      | some (link_broken, c) ↦ run_loop fuel (hang_up c)
    ]
  ]

  -- The destructor: that of the socket closes the connection.
  unfoldable pub shut_down : ClientApp os desk → World
  unfolding hang_up
  shut_down a = (hang_up a).world

  unfoldable pub run : ℕ → M (ClientApp os desk) (Unit {0})
  run fuel a = elim (run_loop fuel a) [
    | none ↦ none
    | some (_, b) ↦ some (tt, record b { world = desk.destroy_all_windows b.world })
  ]
