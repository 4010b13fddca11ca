-- ===== src/Server/App/Sessions.antt =====
-- What ends a session of the server.
use embedded_client_server_v.Prelude.{
  ℕ, zero, suc, ◌≡◌, refl, ap, ◌⊎◌, inl, inr, Bool, true, false, List, Option, [], ◌∷◌, some, none,
  arith,
}
use embedded_client_server_v.Posix.{
  Posix, Received, bytes, error, again, would_block, in_progress, fault,
}
use embedded_client_server_v.Server.Hardware.{Hardware}
use embedded_client_server_v.Server.Socket.{
  receive_command, one_byte, received, timeout, disconnected, RecvResult,
}
use embedded_client_server_v.Server.App.{
  ServerApp, SessionOutcome, stop_requested, gone, dispatch_command, after_receive,
  process_next_command, serve_loop, serve_client,
}

module _ (os : Posix) (hw : Hardware os) where
  open os use {World}

  -- The states that a session goes through, one processed command or expiry after the other.
  pub data Serves (a : ServerApp os hw) : ServerApp os hw → Type 0 where
    here : Serves a a
    next :
        {b c : ServerApp os hw}
        → Serves a b
        → process_next_command os hw gone b ≡ some ((true, gone), c)
        → Serves a c

  -- The next byte from the client is a STOP.
  abbrev pub ReadsStop : ServerApp os hw → Type 0
  ReadsStop a = (c : List ℕ) × ((os.recv a.server.client_fd 1 a.world).0 ≡ bytes (2 ∷ c))

  dispatch_outcome :
      (cmd : ℕ) (a b : ServerApp os hw) (g : Bool) (o : SessionOutcome)
      → dispatch_command os hw cmd gone a ≡ some ((g, o), b)
      → (o ≡ gone) ⊎ ((cmd ≡ 2) × (g ≡ false))
  unfolding dispatch_command
  dispatch_outcome cmd a b g o h = ground arith

  after_receive_outcome :
      (r : RecvResult) (cmd : ℕ) (a b : ServerApp os hw) (g : Bool) (o : SessionOutcome)
      → after_receive os hw r cmd gone a ≡ some ((g, o), b)
      → (o ≡ gone) ⊎ ((r ≡ received) × (cmd ≡ 2) × (g ≡ false))
  unfolding after_receive
  after_receive_outcome received cmd a b g o h = ground (
    arith,
    dispatch_outcome cmd
        (record a { last_command = (os.now a.world).0; world = (os.now a.world).1 }) b g o,
  )
  after_receive_outcome timeout cmd a b g o h = ground arith
  after_receive_outcome disconnected cmd a b g o h = ground arith

  one_byte_received :
      (r : Received) (cmd : ℕ)
      → (one_byte os 0 r).0 ≡ received
      → (one_byte os 0 r).1 ≡ cmd
      → (c : List ℕ) × (r ≡ bytes (cmd ∷ c))
  one_byte_received (bytes []) cmd h e = absurd (cc h)
  one_byte_received (bytes (b ∷ c)) cmd h e = (c, ap (λ x. bytes (x ∷ c)) e)
  one_byte_received (error again) cmd h e = absurd (cc h)
  one_byte_received (error would_block) cmd h e = absurd (cc h)
  one_byte_received (error in_progress) cmd h e = absurd (cc h)
  one_byte_received (error fault) cmd h e = absurd (cc h)

  process_outcome :
      (a b : ServerApp os hw) (g : Bool) (o : SessionOutcome)
      → process_next_command os hw gone a ≡ some ((g, o), b)
      → (o ≡ gone) ⊎ (ReadsStop a × (g ≡ false))
  unfolding process_next_command receive_command
  process_outcome a b g o h =
      let r = (os.recv a.server.client_fd 1 a.world).0 in
      elim (after_receive_outcome (one_byte os 0 r).0 (one_byte os 0 r).1
        (record a { world = (os.recv a.server.client_fd 1 a.world).1 }) b g o h) [
          | inl e ↦ inl e
          | inr (ok, two, ends) ↦ inr (one_byte_received r 2 ok two, ends)
        ]

  abbrev pub StopWasRead : ServerApp os hw → Type 0
  StopWasRead a = (t : ServerApp os hw) × Serves a t × ReadsStop t

  -- One round of the session's loop that ends in a stop: it read one, or a later round did.
  round_stop :
      (fuel : ℕ) (start a b : ServerApp os hw)
      → Serves start a
      → ((c : ServerApp os hw)
          → Serves start c
          → serve_loop os hw fuel gone c ≡ some (stop_requested, b)
          → StopWasRead start)
      → (r : Option ((Bool × SessionOutcome) × ServerApp os hw))
      → process_next_command os hw gone a ≡ r
      → serve_loop os hw (suc fuel) gone a ≡ some (stop_requested, b)
      → StopWasRead start
  unfolding serve_loop
  round_stop fuel start a b s later none e h = absurd (cc (rw (e, serve_loop) at h))
  round_stop fuel start a b s later (some ((true, stop_requested), c)) e h =
      elim (process_outcome a c true stop_requested e) [
        | inl never ↦ absurd (cc never)
        | inr (_, never) ↦ absurd (cc never)
      ]
  round_stop fuel start a b s later (some ((true, gone), c)) e h =
      later c (next s e) (rw (e, serve_loop) at h)
  round_stop fuel start a b s later (some ((false, o), c)) e h =
      let over = rw (e, serve_loop) at h in
      elim (process_outcome a c false o e) [
        | inl o_gone ↦ absurd (cc (o_gone, over))
        | inr (stop, _) ↦ (a, s, stop)
      ]

  serve_loop_stop :
      (fuel : ℕ) (start a b : ServerApp os hw)
      → Serves start a
      → serve_loop os hw fuel gone a ≡ some (stop_requested, b)
      → StopWasRead start
  unfolding serve_loop
  serve_loop_stop zero start a b s h = absurd (cc h)
  serve_loop_stop (suc fuel) start a b s h =
      round_stop fuel start a b s (λ c s' h'. serve_loop_stop fuel start c b s' h') _ refl h

  -- The state in which a session starts.
  abbrev pub starting : ServerApp os hw → ServerApp os hw
  starting a = let (t, w) = os.now a.world in record a { last_command = t; world = w }

  -- A session that asks the server to end has processed commands and expiries up to a state in
  -- which the byte received next from the client is STOP.
  pub serve_client_stop :
      (fuel : ℕ) (a b : ServerApp os hw)
      → serve_client os hw fuel a ≡ some (stop_requested, b)
      → StopWasRead (starting a)
  unfolding serve_client
  serve_client_stop fuel a b h = serve_loop_stop fuel (starting a) (starting a) b here h
