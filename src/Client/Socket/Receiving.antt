-- ===== src/Client/Socket/Receiving.antt =====
-- What receiveAll takes from the connection, and that it returns.
use embedded_client_server_v.Prelude.{
  ℕ, zero, suc, ◌+◌, ◌-◌, ◌≤◌, ◌<◌, ◌≡◌, refl, sym, ap, ◌∙◌, ◌⊎◌, inl, inr, Bool, true, false, List,
  [], ◌∷◌, ◌++◌, append_assoc, append-nil, ℤ, arith, ltb, ltb→lt, length, length-append, Bool-cases,
  subst, Returns, Returns-pure, Returns-mono, Returns-both, append_cut,
}
pub use embedded_client_server_v.Posix.{IsReliable}
use embedded_client_server_v.Posix.{
  Posix, Laws, bytes, error, Received-cases, Errno, again, would_block, in_progress, fault,
  milliseconds,
}
use embedded_client_server_v.Client.Socket.{
  TcpClient, RecvResult, received, timeout, disconnected, is_timeout, receive_rest, receive_all,
}

-- The outcomes of a call of receiveAll for so many bytes. There is no timeout among them.
abbrev pub Outcome : ℕ → RecvResult → List ℕ → Type 0
Outcome size received buffer = length buffer ≡ size
Outcome size timeout buffer = ⊥
Outcome size disconnected buffer = length buffer < size

-- The buffer holds the next bytes of the connection, `size` of them or fewer.
abbrev pub Receives : ℕ → List ℕ → RecvResult × List ℕ → List ℕ → Type 0
Receives size before (result, buffer) after =
    (before ≡ buffer ++ after) × Outcome size result buffer

module _ (os : Posix) (laws : Laws os) (fd : ℤ) where
  open os use {World}

  -- A receive that times out takes time.
  waited :
      (n : ℕ) (w : World) (e : Errno)
      → (os.recv fd n w).0 ≡ error e
      → is_timeout e ≡ true
      → laws.time w < laws.time (os.recv fd n w).1
  waited n w again r h = laws.recv_again fd n w r
  waited n w would_block r h = laws.recv_would_block fd n w r
  waited n w in_progress r h = absurd (cc h)
  waited n w fault r h = absurd (cc h)

  -- A receive that returns bytes appends the next ones.
  appended :
      (n : ℕ) (w : World) (before buffer c : List ℕ)
      → before ≡ buffer ++ laws.pending fd w
      → (os.recv fd n w).0 ≡ bytes c
      → (length c ≤ n) × (before ≡ (buffer ++ c) ++ laws.pending fd (os.recv fd n w).1)
  appended n w before buffer c e r =
      let (fits, next) = laws.recv_bytes fd n w r in
      (fits, e ∙ ap (◌++◌ buffer) next ∙ sym (append_assoc buffer c _))

  module _ (size deadline : ℕ) (before : List ℕ) where
    abbrev Done : RecvResult × List ℕ → World → Type 0
    Done r w = Receives size before r (laws.pending fd w)

    receive_rest-Receives :
        (fuel : ℕ) (buffer : List ℕ) (w : World)
        → size - length buffer + (deadline - laws.time w) < fuel
        → length buffer ≤ size
        → before ≡ buffer ++ laws.pending fd w
        → Returns (receive_rest os fuel fd size deadline buffer w) Done
    unfolding receive_rest
    receive_rest-Receives zero buffer w enough fits e = absurd (omega arith)
    receive_rest-Receives (suc fuel) buffer w enough fits e =
        elim (Bool-cases (ltb (length buffer) size)) [
          | inr full ↦
              rw (full, receive_rest) (Returns-pure Done (received, buffer) w (e, ground arith))
          | inl more ↦
              let n = size - length buffer in
              let w' = (os.recv fd n w).1 in
              let short = ltb→lt _ _ more in
              rw (more, receive_rest)
                (elim (Received-cases (os.recv fd n w).0) [
                  | inl r ↦
                      let kept = appended n w before buffer [] e r in
                      rw r (
                        Returns-pure Done (disconnected, buffer) w'
                          (
                            subst (λ xs. before ≡ xs ++ laws.pending fd w') (append-nil buffer)
                                kept.1,
                            short,
                          ))
                  | inr (inl (b, c, r)) ↦
                      let more' = appended n w before buffer (b ∷ c) e r in
                      rw r (
                        receive_rest-Receives fuel (buffer ++ b ∷ c) w'
                          (omega (arith, length-append buffer (b ∷ c), laws.recv_time fd n w))
                          (omega (arith, length-append buffer (b ∷ c), more'.0)) more'.1)
                  | inr (inr (er, r)) ↦
                      let kept = e ∙ ap (◌++◌ buffer) (sym (laws.recv_error fd n w r)) in
                      let t = (os.now w').0 in
                      let w'' = (os.now w').1 in
                      let kept' = kept ∙ ap (◌++◌ buffer) (sym (laws.now_pending fd w')) in
                      rw r (elim (Bool-cases (is_timeout er)) [
                        | inr broken ↦
                            rw broken (Returns-pure Done (disconnected, buffer) w' (kept, short))
                        | inl late ↦ rw late (elim (Bool-cases (ltb t deadline)) [
                          | inr over ↦
                              rw over (Returns-pure Done (disconnected, buffer) w'' (kept', short))
                          | inl early ↦
                              let waits = waited n w er r late in
                              let reads = laws.now_reads w' in
                              rw early (
                                receive_rest-Receives fuel buffer w''
                                  (omega (arith, ltb→lt _ _ early)) fits kept')
                        ])
                      ])
                ])
        ]

module _ (os : Posix) (laws : Laws os) where
  open os use {World}

  -- receiveAll returns, whatever the connection does, with fuel above the number of bytes asked
  -- for plus the nanoseconds of its delay. What it has taken from the connection is in the buffer:
  -- with OK the next `size` bytes, with DISCONNECTED the next bytes but fewer than `size`. It never
  -- returns TIMEOUT.
  pub receive_all-Receives :
      (fuel : ℕ) (c : TcpClient) (size timeout_ms : ℕ) (w : World)
      → size + milliseconds timeout_ms < fuel
      → Returns
          (receive_all os fuel c size timeout_ms w)
          (λ r w'. Receives size (laws.pending c.fd w) r (laws.pending c.fd w'))
  unfolding receive_all
  receive_all-Receives fuel c size timeout_ms w enough =
      receive_rest-Receives os laws c.fd size ((os.now w).0 + milliseconds timeout_ms)
        (laws.pending c.fd w) fuel [] (os.now w).1 (omega (arith, laws.now_reads w)) (omega arith)
        (sym (laws.now_pending c.fd w))

module _ (os : Posix) (laws : Laws os) (fd : ℤ) (reliable : IsReliable os laws fd) where
  open os use {World}

  receive_rest_reliable :
      (fuel size deadline : ℕ) (buffer : List ℕ) (w : World)
      → size - length buffer < fuel
      → size - length buffer ≤ length (laws.pending fd w)
      → Returns (receive_rest os fuel fd size deadline buffer w) (λ r w'. r.0 ≡ received)
  unfolding receive_rest
  receive_rest_reliable zero size deadline buffer w enough there = absurd (omega arith)
  receive_rest_reliable (suc fuel) size deadline buffer w enough there =
      elim (Bool-cases (ltb (length buffer) size)) [
        | inr full ↦ rw (full, receive_rest) (Returns-pure _ (received, buffer) w refl)
        | inl more ↦
            let n = size - length buffer in
            let short = ltb→lt _ _ more in
            let (b, c, r) = reliable n w (omega arith) (omega arith) in
            let (fits, next) = laws.recv_bytes fd n w r in
            let longer = length-append buffer (b ∷ c) in
            let left =
              ap length next ∙ length-append (b ∷ c) (laws.pending fd (os.recv fd n w).1) in
            rw (more, r, receive_rest)
              (receive_rest_reliable fuel size deadline (buffer ++ b ∷ c) (os.recv fd n w).1
                (omega arith) (omega arith))
      ]

  receive_all_reliable :
      (fuel : ℕ) (c : TcpClient) (size timeout_ms : ℕ) (w : World)
      → c.fd ≡ fd
      → size < fuel
      → size ≤ length (laws.pending fd w)
      → Returns (receive_all os fuel c size timeout_ms w) (λ r w'. r.0 ≡ received)
  unfolding receive_all
  receive_all_reliable fuel c size timeout_ms w e enough there = rw e (
      receive_rest_reliable fuel size ((os.now w).0 + milliseconds timeout_ms) [] (os.now w).1
        (omega arith) (omega (arith, ap length (laws.now_pending fd w))))

-- What a receive of the bytes `x`, with `y` behind them, comes to: they arrive, or the connection,
-- which is then not a reliable one, breaks.
abbrev pub Reads : List ℕ → List ℕ → Bool → RecvResult × List ℕ → List ℕ → Type 0
Reads x y reliable (result, buffer) after =
    ((result ≡ received) × (buffer ≡ x) × (after ≡ y))
    ⊎ ((result ≡ disconnected) × (reliable ≡ false))

module _ (os : Posix) (laws : Laws os) (fd : ℤ) (reliable : Bool)
    (promise : reliable ≡ true → IsReliable os laws fd) where
  open os use {World}

  Receives-Reads :
      (x y : List ℕ) (before : List ℕ) (r : RecvResult) (buffer after : List ℕ)
      → before ≡ x ++ y
      → (reliable ≡ false) ⊎ (r ≡ received)
      → Receives (length x) before (r, buffer) after
      → Reads x y reliable (r, buffer) after
  Receives-Reads x y before received buffer after e d (cut, whole) =
      let parts = append_cut buffer after x y whole (sym cut ∙ e) in inl (refl, parts.0, parts.1)
  Receives-Reads x y before timeout buffer after e d (cut, never) = absurd never
  Receives-Reads x y before disconnected buffer after e (inl weak) (cut, short) = inr (refl, weak)
  Receives-Reads x y before disconnected buffer after e (inr r) (cut, short) = absurd (cc r)

  receive_all_dependable :
      (fuel : ℕ) (c : TcpClient) (size timeout_ms : ℕ) (w : World)
      → c.fd ≡ fd
      → size + milliseconds timeout_ms < fuel
      → size ≤ length (laws.pending fd w)
      → Returns
          (receive_all os fuel c size timeout_ms w)
          (λ r w'. (reliable ≡ false) ⊎ (r.0 ≡ received))
  receive_all_dependable fuel c size timeout_ms w e enough there = elim (Bool-cases reliable) [
    | inl strong ↦
        Returns-mono _ _ (λ r w' h. inr h)
          (receive_all_reliable os laws fd (promise strong) fuel c size timeout_ms w e (omega arith)
            there)
    | inr weak ↦
        Returns-mono _ _ (λ r w' h. inl weak)
          (receive_all-Receives os laws fuel c size timeout_ms w enough)
  ]

  pub receive_all-Reads :
      (fuel : ℕ) (c : TcpClient) (timeout_ms : ℕ) (w : World) (x y : List ℕ)
      → c.fd ≡ fd
      → length x + milliseconds timeout_ms < fuel
      → laws.pending fd w ≡ x ++ y
      → Returns
          (receive_all os fuel c (length x) timeout_ms w)
          (λ r w'. Reads x y reliable r (laws.pending fd w'))
  receive_all-Reads fuel c timeout_ms w x y e enough there =
      Returns-mono _ _
        (λ r w' h.
          Receives-Reads x y (laws.pending fd w) r.0 r.1 (laws.pending fd w') there h.1
            (rw (← e) h.0))
        (Returns-both _ _ (receive_all-Receives os laws fuel c (length x) timeout_ms w enough) (
          receive_all_dependable fuel c (length x) timeout_ms w e enough
            (omega (arith, ap length there, length-append x y))))
