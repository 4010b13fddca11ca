-- ===== src/Server/App/Holding.antt =====
-- The sockets of the process through the handlers of the server: none is opened or closed.
use embedded_client_server_v.Prelude.{
  ℕ, zero, suc, ◌+◌, ◌∙◌, inl, inr, Bool, true, false, Option, some, Bool-cases, ltb, Ensures-none,
  Ensures-bind,
}
use embedded_client_server_v.Posix.{Posix, Descriptors, Held}
use embedded_client_server_v.Server.Hardware.{Hardware, LeavesSockets}
use embedded_client_server_v.Server.Socket.{
  TcpServer, RecvResult, received, timeout, disconnected, receive_command,
}
use embedded_client_server_v.Server.App.{
  ServerApp, after_receive, process_next_command, serve_loop, serve_client, SessionOutcome, gone,
}
use embedded_client_server_v.Server.App.Untouched.{
  Untouched, Holds, Keeps, kept, dispatch_command-Keeps,
}

module _ (os : Posix) (hw : Hardware os) (d : Descriptors os) (quiet : LeavesSockets os d hw)
    (server : TcpServer) (count : Held) where
  open os use {World}

  untouched : Untouched os hw server.client_fd d.held
  untouched = record {
    by_now = d.now_held;
    by_send = d.send_held server.client_fd;
    by_read = quiet.read_held;
    by_read_number = quiet.read_number_held;
  }

  after_receive-Keeps :
      (r : RecvResult) (cmd : ℕ) (o : SessionOutcome) (a : ServerApp os hw)
      → Holds os hw d.held server count a
      → Keeps os hw d.held server count (after_receive os hw r cmd o a)
  unfolding after_receive
  after_receive-Keeps received cmd o a e =
      dispatch_command-Keeps os hw d.held server untouched count cmd o _
        (e.0, d.now_held a.world ∙ e.1)
  after_receive-Keeps disconnected cmd o a e =
      kept os hw d.held server untouched count (false, gone) a e
  after_receive-Keeps timeout cmd o a e =
      let (t, w) = os.now a.world in
      let still : Holds os hw d.held server count (record a { world = w }) =
        (e.0, d.now_held a.world ∙ e.1) in
      elim (Bool-cases (ltb t (a.last_command + 1000000000))) [
        | inl early ↦
            rw (early, after_receive)
              (kept os hw d.held server untouched count (true, o) (record a { world = w }) still)
        | inr late ↦
            rw (late, after_receive)
              (kept os hw d.held server untouched count (false, gone) (record a { world = w })
                still)
      ]

  process_next_command-Keeps :
      (o : SessionOutcome) (a : ServerApp os hw)
      → Holds os hw d.held server count a
      → Keeps os hw d.held server count (process_next_command os hw o a)
  unfolding process_next_command receive_command
  process_next_command-Keeps o a e =
      after_receive-Keeps _ _ o _ (e.0, d.recv_held a.server.client_fd 1 a.world ∙ e.1)

  -- The rest of the loop after a command.
  abbrev continue_with :
      ℕ → Bool × SessionOutcome → ServerApp os hw → Option (SessionOutcome × ServerApp os hw)
  continue_with fuel x b = elim x.0 [ true ↦ serve_loop os hw fuel x.1 b | false ↦ some (x.1, b) ]

  continue_with-Keeps :
      (fuel : ℕ)
      → ((o : SessionOutcome) (a : ServerApp os hw)
          → Holds os hw d.held server count a
          → Keeps os hw d.held server count (serve_loop os hw fuel o a))
      → (x : Bool × SessionOutcome) (b : ServerApp os hw) → Holds os hw d.held server count b
      → Keeps os hw d.held server count (continue_with fuel x b)
  continue_with-Keeps fuel later (true, o) b e = later o b e
  continue_with-Keeps fuel later (false, o) b e = kept os hw d.held server untouched count o b e

  serve_loop-Keeps :
      (fuel : ℕ) (o : SessionOutcome) (a : ServerApp os hw)
      → Holds os hw d.held server count a
      → Keeps os hw d.held server count (serve_loop os hw fuel o a)
  unfolding serve_loop
  serve_loop-Keeps zero o a e = Ensures-none _
  serve_loop-Keeps (suc fuel) o a e =
      Ensures-bind (process_next_command os hw o a) (continue_with fuel) _ _
        (process_next_command-Keeps o a e) (continue_with-Keeps fuel (serve_loop-Keeps fuel))

  pub serve_client-Keeps :
      (fuel : ℕ) (a : ServerApp os hw)
      → Holds os hw d.held server count a
      → Keeps os hw d.held server count (serve_client os hw fuel a)
  unfolding serve_client
  serve_client-Keeps fuel a e = serve_loop-Keeps fuel gone _ (e.0, d.now_held a.world ∙ e.1)
