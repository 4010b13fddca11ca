-- ===== src/Server/App/Patience.antt =====
-- How long a silent client keeps the server at most.
use embedded_client_server_v.Prelude.{
  ℕ, zero, suc, ◌+◌, ◌≤◌, ◌<◌, ◌≡◌, ◌∙◌, inl, inr, [], ℤ, arith, ltb, ltb→lt, Bool-cases, Ensures,
  Ensures-pure, Ensures-none, Returns, Returns-mono, Returns-Ensures, ◌-◌, refl,
}
use embedded_client_server_v.Posix.{Posix, Laws}
use embedded_client_server_v.Server.Hardware.{Hardware}
use embedded_client_server_v.Server.App.{ServerApp, SessionOutcome, gone, serve_loop}
use embedded_client_server_v.Server.App.Silence.{IsSilent, idle_limit, expiry, serve_loop-GivesUp}

-- A receive takes at most so many nanoseconds, and reading the clock at most so many.
pub record IsPrompt (os : Posix) (laws : Laws os) (fd : ℤ) (receiving reading : ℕ) : Type 0 where
  pub recv_within : (w : os.World) → laws.time (os.recv fd 1 w).1 ≤ laws.time w + receiving
  pub now_within : (w : os.World) → laws.time (os.now w).1 ≤ laws.time w + reading

module _ (os : Posix) (hw : Hardware os) (laws : Laws os) (receiving reading : ℕ)
    (start : ServerApp os hw) (silent : IsSilent os laws start.server.client_fd)
    (prompt : IsPrompt os laws start.server.client_fd receiving reading) where
  open os use {World}

  -- By when the session is over.
  abbrev Within : SessionOutcome → ServerApp os hw → Type 0
  Within o b =
      laws.time b.world ≤ start.last_command + idle_limit os hw laws + receiving + reading + reading

  serve_loop-Within :
      (fuel : ℕ) (w : World)
      → laws.time w ≤ start.last_command + idle_limit os hw laws + reading
      → laws.pending start.server.client_fd w ≡ []
      → Ensures (serve_loop os hw fuel gone (record start { world = w })) Within
  unfolding serve_loop
  serve_loop-Within zero w early empty = Ensures-none Within
  serve_loop-Within (suc fuel) w early empty =
      let c = start.server.client_fd in
      let w' = (os.recv c 1 w).1 in
      let (t, w'') = os.now w' in
      let r = silent.waits w empty in
      let reads = laws.now_reads w' in
      let step = prompt.recv_within w in
      let step' = prompt.now_within w' in
      let a = record start { world = w } in
      elim (Bool-cases (ltb t (start.last_command + idle_limit os hw laws))) [
        | inl more ↦
            rw (expiry os hw laws a r, serve_loop)
              (rw (more, serve_loop)
                (serve_loop-Within fuel w'' (omega (arith, reads, step', ltb→lt _ _ more))
                  (laws.now_pending c w' ∙ laws.recv_error c 1 w r ∙ empty)))
        | inr over ↦
            rw (expiry os hw laws a r, serve_loop)
              (rw (over, serve_loop)
                (Ensures-pure Within gone (record start { world = w'' })
                  (omega (arith, early, step, step'))))
      ]

module _ (os : Posix) (hw : Hardware os) (laws : Laws os) (receiving reading : ℕ) where
  -- Where a session with a silent client ends: not before the idle limit, and not long after it.
  abbrev pub EndsInTime : ServerApp os hw → SessionOutcome → ServerApp os hw → Type 0
  EndsInTime a o b =
      let limit = a.last_command + idle_limit os hw laws in
      (o ≡ gone)
      × (limit ≤ laws.time b.world)
      × (laws.time b.world ≤ limit + receiving + reading + reading)

  -- The client falls silent in the middle of a session: nothing is on its way any more, and it
  -- neither sends nor closes. A receive takes at most `receiving` nanoseconds, a reading of the
  -- clock at most `reading`, and the idle limit since the last command has not been overrun by more
  -- than such a reading. With fuel above the nanoseconds left of the limit, the session then ends
  -- as DISCONNECTED, not before the limit since the last command, and no later after it than one
  -- receive and two readings of the clock take.
  pub serve_loop-EndsInTime :
      (fuel : ℕ) (a : ServerApp os hw)
      → IsSilent os laws a.server.client_fd
      → IsPrompt os laws a.server.client_fd receiving reading
      → laws.pending a.server.client_fd a.world ≡ []
      → laws.time a.world ≤ a.last_command + idle_limit os hw laws + reading
      → (a.last_command + idle_limit os hw laws) - laws.time a.world < fuel
      → Returns (serve_loop os hw fuel gone a) (EndsInTime a)
  serve_loop-EndsInTime fuel a silent prompt empty early enough =
      Returns-mono _ _ (λ o b (gives_up, within). (gives_up.0, gives_up.1, within))
        (Returns-Ensures _ _ (serve_loop-GivesUp os hw laws a silent fuel a.world enough empty refl)
          (serve_loop-Within os hw laws receiving reading a silent prompt fuel a.world early empty))
