-- ===== src/Client/Socket/Unread.antt =====
-- What receiveAll leaves alone: any view of the world that neither the clock nor recv changes.
use embedded_client_server_v.Prelude.{
  ℕ, zero, suc, ◌+◌, ◌-◌, ◌≡◌, refl, ◌∙◌, inl, inr, List, [], ◌∷◌, ◌++◌, ℤ, ltb, length, Bool-cases,
  Ensures, Ensures-pure, Ensures-none, Ensures-mono,
}
use embedded_client_server_v.Posix.{Posix, Received-cases, milliseconds}
use embedded_client_server_v.Client.Socket.{
  TcpClient, RecvResult, received, disconnected, is_timeout, receive_rest, receive_all,
}

pub record Unread (os : Posix) {X : Type 0} (view : os.World → X) : Type 0 where
  pub by_now : (w : os.World) → view (os.now w).1 ≡ view w
  pub by_recv : (fd : ℤ) (n : ℕ) (w : os.World) → view (os.recv fd n w).1 ≡ view w

-- Nothing at all is seen.
pub blind : (os : Posix) → Unread os {X = Unit {0}} (λ _. tt)
blind os = record { by_now = λ w. refl; by_recv = λ fd n w. refl }

module _ (os : Posix) {X : Type 0} (view : os.World → X) (unread : Unread os view) where
  open os use {World}

  abbrev Same : World → RecvResult × List ℕ → World → Type 0
  Same w r w' = view w' ≡ view w

  receive_rest-Same :
      (fuel : ℕ) (fd : ℤ) (size deadline : ℕ) (buffer : List ℕ) (w : World)
      → Ensures (receive_rest os fuel fd size deadline buffer w) (Same w)
  unfolding receive_rest
  receive_rest-Same zero fd size deadline buffer w = Ensures-none (Same w)
  receive_rest-Same (suc fuel) fd size deadline buffer w =
      let n = size - length buffer in
      let w' = (os.recv fd n w).1 in
      let (t, w'') = os.now w' in
      let kept = unread.by_recv fd n w in
      let kept' = unread.by_now w' ∙ kept in
      elim (Bool-cases (ltb (length buffer) size)) [
        | inr full ↦ rw (full, receive_rest) (Ensures-pure (Same w) (received, buffer) w refl)
        | inl more ↦ elim (Received-cases (os.recv fd n w).0) [
          | inl r ↦
              rw (more, r, receive_rest) (Ensures-pure (Same w) (disconnected, buffer) w' kept)
          | inr (inl (b, c, r)) ↦
              rw (more, r, receive_rest)
                (Ensures-mono (Same w') (Same w) (λ _ u e. e ∙ kept)
                  (receive_rest-Same fuel fd size deadline (buffer ++ b ∷ c) w'))
          | inr (inr (er, r)) ↦ elim (Bool-cases (is_timeout er)) [
            | inr broken ↦
                rw (more, r, broken, receive_rest)
                  (Ensures-pure (Same w) (disconnected, buffer) w' kept)
            | inl late ↦ elim (Bool-cases (ltb t deadline)) [
              | inr over ↦
                  rw (more, r, late, over, receive_rest)
                    (Ensures-pure (Same w) (disconnected, buffer) w'' kept')
              | inl early ↦
                  rw (more, r, late, early, receive_rest)
                    (Ensures-mono (Same w'') (Same w) (λ _ u e. e ∙ kept')
                      (receive_rest-Same fuel fd size deadline buffer w''))
            ]
          ]
        ]
      ]

  pub receive_all-Same :
      (fuel : ℕ) (c : TcpClient) (size timeout_ms : ℕ) (w : World)
      → Ensures (receive_all os fuel c size timeout_ms w) (λ _ w'. view w' ≡ view w)
  unfolding receive_all
  receive_all-Same fuel c size timeout_ms w =
      let (t, w') = os.now w in
      Ensures-mono (Same w') (Same w) (λ _ u e. e ∙ unread.by_now w)
        (receive_rest-Same fuel c.fd size (t + milliseconds timeout_ms) [] w')
