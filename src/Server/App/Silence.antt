-- ===== src/Server/App/Silence.antt =====
-- How long the server keeps a client that has fallen silent.
use embedded_client_server_v.Prelude.{
  ℕ, zero, suc, ◌+◌, ◌-◌, ◌≤◌, ◌<◌, ◌≡◌, refl, ◌∙◌, inl, inr, Bool, true, false, [], ℤ, some, arith,
  ltb, ltb→lt, Bool-cases, Returns, Returns-pure, Returns-mono, pure, if◌then◌else◌,
}
use embedded_client_server_v.Posix.{Posix, Laws, error, again, milliseconds}
use embedded_client_server_v.Server.Config
use embedded_client_server_v.Server.Hardware.{Hardware}
use embedded_client_server_v.Server.Socket.{receive_command}
use embedded_client_server_v.Server.App.{
  ServerApp, SessionOutcome, gone, after_receive, process_next_command, serve_loop, serve_client,
}

module _ (os : Posix) (laws : Laws os) where
  open os use {World}

  -- The peer neither sends nor closes: a receive finds nothing and times out.
  pub record IsSilent (fd : ℤ) : Type 0 where
    pub waits : (w : World) → laws.pending fd w ≡ [] → (os.recv fd 1 w).0 ≡ error again

module _ (os : Posix) (hw : Hardware os) (laws : Laws os) where
  open os use {World}

  abbrev pub idle_limit : ℕ
  idle_limit = milliseconds Config.client_idle_timeout_ms

  -- The session over which a silent client is given up: nothing but the clock has moved.
  abbrev pub GivesUp : ServerApp os hw → ℕ → SessionOutcome → ServerApp os hw → Type 0
  GivesUp a since outcome b =
      (outcome ≡ gone)
      × (since + idle_limit ≤ laws.time b.world)
      × (b ≡ record a { last_command = since; world = b.world })
      × (laws.sent a.server.client_fd b.world ≡ laws.sent a.server.client_fd a.world)

  -- The state after a receive that has timed out.
  abbrev expired : ServerApp os hw → ServerApp os hw
  expired a = record a { world = (os.now (os.recv a.server.client_fd 1 a.world).1).1 }

  continued :
      (b : Bool) (a : ServerApp os hw)
      → (if b
          then pure {A = Bool × SessionOutcome} (true, gone) a
          else pure {A = Bool × SessionOutcome} (false, gone) a)
        ≡ some ((b, gone), a)
  continued true a = refl
  continued false a = refl

  pub expiry :
      (a : ServerApp os hw)
      → (os.recv a.server.client_fd 1 a.world).0 ≡ error again
      → let t = (os.now (os.recv a.server.client_fd 1 a.world).1).0 in
        process_next_command os hw gone a
        ≡ some ((ltb t (a.last_command + idle_limit), gone), expired a)
  unfolding process_next_command receive_command after_receive
  expiry a r = rw (r, receive_command, process_next_command) (continued _ _)

  module _ (start : ServerApp os hw) (silent : IsSilent os laws start.server.client_fd) where
    -- The session of the silent client goes on from a world.
    abbrev at' : World → ServerApp os hw
    at' w = record start { world = w }

    pub serve_loop-GivesUp :
        (fuel : ℕ) (w : World)
        → (start.last_command + idle_limit) - laws.time w < fuel
        → laws.pending start.server.client_fd w ≡ []
        → laws.sent start.server.client_fd w ≡ laws.sent start.server.client_fd start.world
        → Returns (serve_loop os hw fuel gone (at' w)) (GivesUp start start.last_command)
    unfolding serve_loop
    serve_loop-GivesUp zero w enough empty kept = absurd (omega arith)
    serve_loop-GivesUp (suc fuel) w enough empty kept =
        let c = start.server.client_fd in
        let w' = (os.recv c 1 w).1 in
        let t = (os.now w').0 in
        let w'' = (os.now w').1 in
        let r = silent.waits w empty in
        let (before, after) = laws.now_reads w' in
        let same = laws.now_sent c w' ∙ laws.recv_sent c 1 w ∙ kept in
        elim (Bool-cases (ltb t (start.last_command + idle_limit))) [
          | inl early ↦
              rw (expiry (at' w) r, serve_loop)
                (rw (early, serve_loop)
                  (serve_loop-GivesUp fuel w''
                    (omega (arith, before, after, laws.recv_again c 1 w r, ltb→lt _ _ early))
                    (laws.now_pending c w' ∙ laws.recv_error c 1 w r ∙ empty) same))
          | inr late ↦
              rw (expiry (at' w) r, serve_loop)
                (rw (late, serve_loop)
                  (Returns-pure (GivesUp start start.last_command) gone (at' w'')
                    (refl, ground (arith, before, after), refl, same)))
        ]

  -- A session with a client that has nothing on its way, sends nothing and does not close ends by
  -- itself as DISCONNECTED, with one round of fuel more than the nanoseconds of the idle limit.
  -- It does not end before this limit has passed since its start, nothing has been sent, and of the
  -- app only the world and the time of the last command, which is the start, have changed.
  pub serve_client-GivesUp :
      (extra : ℕ) (a : ServerApp os hw)
      → IsSilent os laws a.server.client_fd
      → laws.pending a.server.client_fd a.world ≡ []
      → Returns (serve_client os hw (suc idle_limit + extra) a) (GivesUp a (os.now a.world).0)
  unfolding serve_client
  serve_client-GivesUp extra a silent empty =
      let c = a.server.client_fd in
      let (t, w) = os.now a.world in
      let start = record a { last_command = t; world = w } in
      let same = laws.now_sent c a.world in
      Returns-mono (GivesUp start t) (GivesUp a t)
        (λ o b (ends, late, only, kept). (ends, late, only, kept ∙ same))
        (serve_loop-GivesUp start silent (suc idle_limit + extra) w
          (omega (arith, (laws.now_reads a.world).1)) (laws.now_pending c a.world ∙ empty) refl)
