-- ===== src/Client/App/Shutdown.antt =====
-- requestShutdown: the answers that are still on their way when the user quits.
use embedded_client_server_v.Prelude.{
  ℕ, zero, suc, ◌+◌, ◌≤◌, ◌<◌, ◌≡◌, refl, sym, ap, ◌∙◌, inl, inr, true, false, List, [], ◌∷◌, ◌++◌,
  ℤ, arith, length, length-append, ltb, Bool-cases, Returns, Returns-pure, Returns-mono, ◌==◌,
}
use embedded_client_server_v.Client.Protocol
use embedded_client_server_v.Protocol.Bytes.{net_bytes}
use embedded_client_server_v.Protocol.Message.{
  Message, frame, press, dark, mismatch, acknowledge, IsAnswer, header, after_id, id_of, encode,
  encode_parts,
}
use embedded_client_server_v.Protocol.Stream.{AreAnswers}
use embedded_client_server_v.Posix.{Posix, Laws, milliseconds}
use embedded_client_server_v.Client.Config
use embedded_client_server_v.Client.Desktop.{Desktop, IsLocal}
use embedded_client_server_v.Client.Socket.{receive, send}
use embedded_client_server_v.Client.Socket.Receiving.{IsReliable}
use embedded_client_server_v.Client.App.{ClientApp, await_ack, shutdown_loop, request_shutdown}
use embedded_client_server_v.Client.App.Arrival.{recv_byte, certain, Shows-leaves, send_pending_on}
use embedded_client_server_v.Client.App.Decoding.{Shows-world, handle_response-Ends}
use embedded_client_server_v.Client.App.Showing.{Shows, Suffices}

-- Answers on their way, the acknowledgement of STOP, and whatever follows it.
abbrev pub stream : List Message → List ℕ → List ℕ
stream [] rest = 102 ∷ rest
stream (m ∷ ms) rest = encode m ++ stream ms rest

module _ (os : Posix) (desk : Desktop os) (laws : Laws os) (fd : ℤ) (rest : List ℕ)
    (deadline : ℕ) where
  -- What a shutdown comes to: answer after answer is shown, until the acknowledgement has been
  -- read or the deadline has passed.
  pub data Drains : List Message → ClientApp os desk → ClientApp os desk → Type 0 where
    acknowledged :
        {a b : ClientApp os desk}
        → b ≡ record a { world = b.world }
        → laws.pending fd b.world ≡ rest
        → Drains [] a b
    expired :
        {ms : List Message} {a b : ClientApp os desk}
        → deadline ≤ laws.time b.world
        → b ≡ record a { world = b.world }
        → laws.pending fd b.world ≡ stream ms rest
        → Drains ms a b
    shown :
        {m : Message} {ms : List Message} {a b c : ClientApp os desk}
        → Shows os desk laws fd m (stream ms rest) a c
        → Drains ms c b
        → Drains (m ∷ ms) a b

module _ (os : Posix) (desk : Desktop os) (laws : Laws os) (local : IsLocal os laws desk) (fd : ℤ)
    (reliable : IsReliable os laws fd) where
  open os use {World}

  not_ack : (m : Message) → IsAnswer m → (header m == Protocol.stop_ack) ≡ false
  not_ack (frame id jpeg) h = refl
  not_ack (press id jpeg) h = refl
  not_ack (dark id) h = refl
  not_ack (mismatch id) h = refl
  not_ack acknowledge h = absurd h

  size_of :
      (m : Message) (ms : List Message)
      → IsAnswer m
      → length (stream (m ∷ ms) []) ≡ 5 + length (after_id m) + length (stream ms [])
  unfolding net_bytes
  size_of m ms h =
      let parts = ap length (encode_parts m h) in
      omega (arith, parts, length-append (encode m) (stream ms []))

  module _ (rest : List ℕ) (deadline : ℕ) where
    abbrev Outcome : List Message → ClientApp os desk → Unit {0} → ClientApp os desk → Type 0
    Outcome ms a _ b = Drains os desk laws fd rest deadline ms a b

    Drains-world :
        (ms : List Message) (a : ClientApp os desk) (w : World) (b : ClientApp os desk)
        → Drains os desk laws fd rest deadline ms (record a { world = w }) b
        → Drains os desk laws fd rest deadline ms a b
    Drains-world ms a w b (acknowledged k p) = acknowledged k p
    Drains-world ms a w b (expired l k p) = expired l k p
    Drains-world ms a w b (shown {m} {ms = later} s d) =
        shown (Shows-world os desk laws local fd true (λ _. reliable) m (stream later rest) a w _ s)
          d

    -- Behind the byte of the round's receive: the acknowledgement, or the head of an answer.
    ack_round :
        (fuel : ℕ) (a : ClientApp os desk)
        → a.client.fd ≡ fd
        → laws.pending fd a.world ≡ 102 ∷ rest
        → Returns (await_ack os desk fuel a) (λ goes_on b. (goes_on ≡ false) × Outcome [] a tt b)
    unfolding await_ack receive
    ack_round fuel a e there =
        let (r, left) =
          recv_byte os desk laws local fd reliable a.client.fd a.world 102 rest e there in
        rw (r, r, await_ack, receive) (Returns-pure _ false _ (refl, acknowledged refl left))

    answer_round :
        (fuel : ℕ) (m : Message) (ms : List Message) (a : ClientApp os desk)
        → a.client.fd ≡ fd
        → IsAnswer m
        → Suffices fuel m
        → laws.pending fd a.world ≡ encode m ++ stream ms rest
        → Returns
            (await_ack os desk fuel a)
            (λ goes_on b. (goes_on ≡ true) × Shows os desk laws fd m (stream ms rest) a b)
    unfolding await_ack receive
    answer_round fuel m ms a e h enough there =
        let y = (net_bytes (id_of m) ++ after_id m) ++ stream ms rest in
        let split = there ∙ ap (λ x. x ++ stream ms rest) (encode_parts m h) in
        let (r, left) =
          recv_byte os desk laws local fd reliable a.client.fd a.world (header m) y e split in
        let w = (os.recv a.client.fd 1 a.world).1 in
        let whole = ap (◌∷◌ (header m)) left ∙ sym split ∙ there in
        rw (r, r, not_ack m h, await_ack, receive)
          (Returns-mono _ _
            (λ done b ends.
              certain os desk laws local fd reliable m (stream ms rest) a w done b ends)
            (handle_response-Ends os desk laws local fd true (λ _. reliable) fuel m (stream ms rest)
              (record a { world = w }) e h enough whole))

    too_late :
        (fuel : ℕ) (ms : List Message) (a : ClientApp os desk)
        → laws.pending fd a.world ≡ stream ms rest
        → ltb (os.now a.world).0 deadline ≡ false
        → Returns (shutdown_loop os desk (suc fuel) deadline a) (Outcome ms a)
    unfolding shutdown_loop
    too_late fuel ms a there over =
        rw (over, shutdown_loop)
          (Returns-pure (Outcome ms a) tt (record a { world = (os.now a.world).1 })
            (expired (ground (arith, laws.now_reads a.world)) refl
              (laws.now_pending fd a.world ∙ there)))

    shutdown_loop-Drains :
        (fuel : ℕ) (ms : List Message) (a : ClientApp os desk)
        → a.client.fd ≡ fd
        → AreAnswers ms
        → length (stream ms []) + milliseconds Config.link_timeout_ms < fuel
        → laws.pending fd a.world ≡ stream ms rest
        → Returns (shutdown_loop os desk fuel deadline a) (Outcome ms a)
    unfolding shutdown_loop
    shutdown_loop-Drains zero ms a e h enough there = absurd (omega arith)
    shutdown_loop-Drains (suc fuel) [] a e h enough there =
        elim (Bool-cases (ltb (os.now a.world).0 deadline)) [
          | inr over ↦ too_late fuel [] a there over
          | inl early ↦
              let w = (os.now a.world).1 in
              let b = record a { world = w } in
              let run = ack_round fuel b e (laws.now_pending fd a.world ∙ there) in
              rw (early, run.runs, run.holds.0, shutdown_loop)
                (Returns-pure (Outcome [] a) tt run.state
                  (Drains-world [] a w run.state run.holds.1))
        ]
    shutdown_loop-Drains (suc fuel) (m ∷ ms) a e h enough there =
        elim (Bool-cases (ltb (os.now a.world).0 deadline)) [
          | inr over ↦ too_late fuel (m ∷ ms) a there over
          | inl early ↦
              let w = (os.now a.world).1 in
              let b = record a { world = w } in
              let size = size_of m ms h.0 in
              let run =
                answer_round fuel m ms b e h.0 (omega (arith, size))
                  (laws.now_pending fd a.world ∙ there) in
              let (same, left) =
                Shows-leaves os desk laws local fd reliable m (stream ms rest) b run.state
                  run.holds.1 in
              rw (early, run.runs, run.holds.0, shutdown_loop)
                (Returns-mono (Outcome ms run.state) (Outcome (m ∷ ms) a)
                  (λ _ c drains. Drains-world (m ∷ ms) a w c (shown run.holds.1 drains))
                  (shutdown_loop-Drains fuel ms run.state (ap (λ x. x.fd) same ∙ e) h.1
                    (omega (arith, size)) left))
        ]

  Drains-sooner :
      (rest : List ℕ) (late soon : ℕ)
      → soon ≤ late
      → (ms : List Message) (a b : ClientApp os desk) → Drains os desk laws fd rest late ms a b
      → Drains os desk laws fd rest soon ms a b
  Drains-sooner rest late soon h ms a b (acknowledged k p) = acknowledged k p
  Drains-sooner rest late soon h ms a b (expired l k p) = expired (omega arith) k p
  Drains-sooner rest late soon h ms a b (shown {ms = later} {c} s d) =
      shown s (Drains-sooner rest late soon h later c b d)

  -- The user quits while answers, with numbers and sizes below 2^32, are still on their way, with
  -- the acknowledgement of STOP behind them, over a reliable connection. With fuel above the number
  -- of these bytes plus the nanoseconds of the link's delay, requestShutdown returns. It has shown
  -- these answers one after the other in full; either all of them and exactly the acknowledgement
  -- behind them has been read, or the delay of the shutdown has passed since the call and the
  -- answers not shown are still unread, none of them in part.
  pub request_shutdown-Drains :
      (fuel : ℕ) (ms : List Message) (rest : List ℕ) (a : ClientApp os desk)
      → a.client.fd ≡ fd
      → AreAnswers ms
      → length (stream ms []) + milliseconds Config.link_timeout_ms < fuel
      → laws.pending fd a.world ≡ stream ms rest
      → Returns (request_shutdown os desk fuel a) (λ _ b.
        Drains os desk laws fd rest
          (laws.time a.world + milliseconds Config.shutdown_timeout_ms)
          ms
          a
          b)
  unfolding request_shutdown send
  request_shutdown-Drains fuel ms rest a e h enough there =
      let w = (os.send a.client.fd (Protocol.stop ∷ []) a.world).1 in
      let t = (os.now w).0 in
      let w' = (os.now w).1 in
      let kept =
        laws.now_pending fd w
        ∙ send_pending_on os desk laws local fd reliable a.client.fd (Protocol.stop ∷ []) a.world
            e in
      let later : laws.time a.world + milliseconds Config.shutdown_timeout_ms
          ≤ t + milliseconds Config.shutdown_timeout_ms =
        omega (arith, laws.send_time a.client.fd (Protocol.stop ∷ []) a.world, laws.now_reads w) in
      Returns-mono
        (Outcome rest (t + milliseconds Config.shutdown_timeout_ms) ms (record a { world = w' })) _
        (λ _ b drains. Drains-world rest _ ms a w' b (Drains-sooner rest _ _ later ms _ b drains))
        (shutdown_loop-Drains rest (t + milliseconds Config.shutdown_timeout_ms) fuel ms
          (record a { world = w' }) e h enough (kept ∙ there))
