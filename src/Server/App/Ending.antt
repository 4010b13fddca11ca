-- ===== src/Server/App/Ending.antt =====
-- What ends the server: run over the sessions of all its clients.
use embedded_client_server_v.Prelude.{
  ℕ, zero, suc, ◌≡◌, refl, inl, inr, Bool, true, false, Option, some, none, Bool-cases,
}
use embedded_client_server_v.Posix.{Posix}
use embedded_client_server_v.Server.Hardware.{Hardware}
use embedded_client_server_v.Server.Socket.{wait_for_client}
use embedded_client_server_v.Server.App.{
  ServerApp, SessionOutcome, stop_requested, gone, serve_client, close_client, run_loop, run,
}
use embedded_client_server_v.Server.App.Sessions.{StopWasRead, starting, serve_client_stop}

module _ (os : Posix) (hw : Hardware os) where
  -- Whether a client came, and the app after waiting for one.
  abbrev pub came : ServerApp os hw → Bool
  came a = (wait_for_client os a.server a.world).0.1

  abbrev pub admitted : ServerApp os hw → ServerApp os hw
  admitted a =
      let ((server, _), w) = wait_for_client os a.server a.world in
      record a { server = server; world = w }

  -- The states in which the app waits for a client: at first, after waiting in vain, and after a
  -- session that ended as DISCONNECTED.
  pub data Waits (a : ServerApp os hw) : ServerApp os hw → Type 0 where
    at_first : Waits a a
    in_vain : {b : ServerApp os hw} → Waits a b → came b ≡ false → Waits a (admitted b)
    after_session :
        {b c : ServerApp os hw} (fuel : ℕ)
        → Waits a b
        → came b ≡ true
        → serve_client os hw fuel (admitted b) ≡ some (gone, c)
        → Waits a (close_client os hw c)

  -- In one of the sessions the byte received next was a STOP.
  abbrev pub Stopped : ServerApp os hw → Type 0
  Stopped a =
      (b : ServerApp os hw) × Waits a b
      × (came b ≡ true)
      × StopWasRead os hw (starting os hw (admitted b))

  session_stop :
      (fuel : ℕ) (start a end' : ServerApp os hw)
      → Waits start a
      → came a ≡ true
      → ((c : ServerApp os hw)
          → Waits start c
          → run_loop os hw fuel c ≡ some (tt, end')
          → Stopped start)
      → (r : Option (SessionOutcome × ServerApp os hw)) → serve_client os hw fuel (admitted a) ≡ r
      → run_loop os hw (suc fuel) a ≡ some (tt, end')
      → Stopped start
  unfolding run_loop
  session_stop fuel start a end' s arrived later none e h =
      absurd (cc (rw (arrived, e, run_loop) at h))
  session_stop fuel start a end' s arrived later (some (stop_requested, c)) e h =
      (a, s, arrived, serve_client_stop os hw fuel (admitted a) c e)
  session_stop fuel start a end' s arrived later (some (gone, c)) e h =
      later (close_client os hw c) (after_session fuel s arrived e) (rw (arrived, e, run_loop) at h)

  run_from :
      (fuel : ℕ) (start a end' : ServerApp os hw)
      → Waits start a
      → run_loop os hw fuel a ≡ some (tt, end')
      → Stopped start
  unfolding run_loop
  run_from zero start a end' s h = absurd (cc h)
  run_from (suc fuel) start a end' s h = elim (Bool-cases (came a)) [
    | inl arrived ↦
        session_stop fuel start a end' s arrived (λ c s' h'. run_from fuel start c end' s' h') _
          refl h
    | inr nobody ↦
        run_from fuel start (admitted a) end' (in_vain s nobody) (rw (nobody, run_loop) at h)
  ]

  -- If run returns, then in the session of one of the clients that came, after the sessions before
  -- it had all ended as DISCONNECTED, the byte received next was a STOP.
  pub run_stop :
      (fuel : ℕ) (a end' : ServerApp os hw)
      → run os hw fuel a ≡ some (tt, end')
      → Stopped (record a { world = (os.silence_stderr a.world).1 })
  unfolding run
  run_stop fuel a end' h = run_from fuel _ _ end' at_first h
