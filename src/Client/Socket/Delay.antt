-- ===== src/Client/Socket/Delay.antt =====
-- How long receiveAll waits at most.
use embedded_client_server_v.Prelude.{
  ℕ, zero, suc, ◌+◌, ◌-◌, ◌≤◌, ◌<◌, ◌≡◌, ap, inl, inr, List, [], ◌∷◌, ◌++◌, ℤ, arith, ltb, ltb→lt,
  length, length-append, Bool-cases, Ensures, Ensures-pure, Ensures-none, Returns, Returns-mono,
  Returns-Ensures,
}
use embedded_client_server_v.Posix.{Posix, Laws, Received-cases, milliseconds}
use embedded_client_server_v.Client.Socket.Receiving.{receive_all-Receives}
use embedded_client_server_v.Client.Socket.{
  TcpClient, RecvResult, received, disconnected, is_timeout, receive_rest, receive_all,
}

-- A receive takes at most so many nanoseconds, and reading the clock at most so many.
pub record IsPrompt (os : Posix) (laws : Laws os) (receiving reading : ℕ) : Type 0 where
  pub recv_within :
      (fd : ℤ) (n : ℕ) (w : os.World) → laws.time (os.recv fd n w).1 ≤ laws.time w + receiving
  pub now_within : (w : os.World) → laws.time (os.now w).1 ≤ laws.time w + reading

-- So many rounds of so many nanoseconds.
pub rounds : ℕ → ℕ → ℕ
rounds zero each = 0
rounds (suc k) each = each + rounds k each

rounds_mono : (k n each : ℕ) → k < n → each + rounds k each ≤ rounds n each
unfolding rounds
rounds_mono k zero each h = absurd (omega arith)
rounds_mono zero (suc n) each h = omega arith
rounds_mono (suc k) (suc n) each h = omega (arith, rounds_mono k n each (omega arith))

module _ (os : Posix) (laws : Laws os) (receiving reading : ℕ)
    (prompt : IsPrompt os laws receiving reading) (fd : ℤ) (size deadline : ℕ) where
  open os use {World}

  abbrev Within : ℕ → RecvResult × List ℕ → World → Type 0
  Within limit r w = laws.time w ≤ limit

  -- `base` is a time after which no expired receive is tried again.
  receive_rest-Within :
      (base limit fuel : ℕ) (buffer : List ℕ) (w : World)
      → laws.time w ≤ base
      → deadline + reading ≤ base
      → base + rounds (suc (size - length buffer)) (receiving + reading) ≤ limit
      → Ensures (receive_rest os fuel fd size deadline buffer w) (Within limit)
  unfolding receive_rest rounds
  receive_rest-Within base limit zero buffer w now late room = Ensures-none (Within limit)
  receive_rest-Within base limit (suc fuel) buffer w now late room =
      let n = size - length buffer in
      let w' = (os.recv fd n w).1 in
      let (t, w'') = os.now w' in
      let step = prompt.recv_within fd n w in
      let step' = prompt.now_within w' in
      let reads = laws.now_reads w' in
      elim (Bool-cases (ltb (length buffer) size)) [
        | inr full ↦
            rw (full, receive_rest) (Ensures-pure (Within limit) (received, buffer) w (omega arith))
        | inl more ↦ elim (Received-cases (os.recv fd n w).0) [
          | inl r ↦
              rw (more, r, receive_rest)
                (Ensures-pure (Within limit) (disconnected, buffer) w' (omega arith))
          | inr (inl (b, c, r)) ↦
              let fewer =
                rounds_mono (size - length (buffer ++ b ∷ c)) n (receiving + reading)
                  (omega (arith, length-append buffer (b ∷ c), ltb→lt _ _ more)) in
              rw (more, r, receive_rest)
                (receive_rest-Within (base + receiving) limit fuel (buffer ++ b ∷ c) w'
                  (omega arith) (omega arith) (omega (arith, fewer)))
          | inr (inr (er, r)) ↦ elim (Bool-cases (is_timeout er)) [
            | inr broken ↦
                rw (more, r, broken, receive_rest)
                  (Ensures-pure (Within limit) (disconnected, buffer) w' (omega arith))
            | inl expired ↦ elim (Bool-cases (ltb t deadline)) [
              | inr over ↦
                  rw (more, r, expired, over, receive_rest)
                    (Ensures-pure (Within limit) (disconnected, buffer) w'' (omega arith))
              | inl early ↦
                  rw (more, r, expired, early, receive_rest)
                    (receive_rest-Within base limit fuel buffer w''
                      (omega (arith, ltb→lt _ _ early)) late room)
            ]
          ]
        ]
      ]

module _ (os : Posix) (laws : Laws os) (receiving reading : ℕ)
    (prompt : IsPrompt os laws receiving reading) where
  -- A receive takes at most `receiving` nanoseconds, and a reading of the clock at most `reading`.
  -- With fuel above the number of bytes asked for plus the nanoseconds of its delay, receiveAll
  -- returns, and no later than its delay, two readings of the clock, and one receive and one
  -- reading for each byte asked for and one more. The delay alone is no bound: it is looked at only
  -- when a receive expires.
  pub receive_all-Within :
      (fuel : ℕ) (c : TcpClient) (size timeout_ms : ℕ) (w : os.World)
      → size + milliseconds timeout_ms < fuel
      → Returns (receive_all os fuel c size timeout_ms w) (λ r w'.
        laws.time w'
        ≤ laws.time w
          + milliseconds timeout_ms
          + reading
          + reading
          + rounds (suc size) (receiving + reading))
  unfolding receive_all
  receive_all-Within fuel c size timeout_ms w enough =
      let (t, w1) = os.now w in
      let reads = laws.now_reads w in
      let step = prompt.now_within w in
      let whole : size - length {A = ℕ} [] ≡ size = omega arith in
      Returns-mono _ _ (λ r w' h. h.1)
        (Returns-Ensures _ _ (receive_all-Receives os laws fuel c size timeout_ms w enough) (
          receive_rest-Within os laws receiving reading prompt c.fd size
            (t + milliseconds timeout_ms)
            (laws.time w + milliseconds timeout_ms + reading + reading) _ fuel [] w1 (omega arith)
            (omega (arith, reads, step))
            (omega (arith, ap (λ k. rounds (suc k) (receiving + reading)) whole))))
