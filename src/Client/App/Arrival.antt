-- ===== src/Client/App/Arrival.antt =====
-- What the proofs about the client's exchanges share: the first byte of what a reliable connection
-- delivers, and what is left of it.
use embedded_client_server_v.Prelude.{
  ℕ, ◌≡◌, sym, ap, ◌∙◌, inl, inr, Bool, true, List, [], ◌∷◌, ℤ, arith, length, append_cut,
}
use embedded_client_server_v.Protocol.Message.{Message, frame, press, dark, mismatch, acknowledge}
use embedded_client_server_v.Posix.{Posix, Laws, bytes}
use embedded_client_server_v.Client.Desktop.{Desktop, IsLocal}
use embedded_client_server_v.Client.Socket.Receiving.{IsReliable}
use embedded_client_server_v.Client.App.{ClientApp}
use embedded_client_server_v.Client.App.Decoding.{Shows-world}
use embedded_client_server_v.Client.App.Showing.{Ends, Shows}

module _ (os : Posix) (desk : Desktop os) (laws : Laws os) (local : IsLocal os laws desk) (fd : ℤ)
    (reliable : IsReliable os laws fd) where
  open os use {World}

  pub recv_byte :
      (c : ℤ) (w : World) (b : ℕ) (y : List ℕ)
      → c ≡ fd
      → laws.pending fd w ≡ b ∷ y
      → ((os.recv c 1 w).0 ≡ bytes (b ∷ [])) × (laws.pending fd (os.recv c 1 w).1 ≡ y)
  recv_byte c w b y e there =
      let (b', more, r) = reliable 1 w (omega arith) (omega (arith, ap length there)) in
      let (fits, next) = laws.recv_bytes fd 1 w r in
      let (one, left) =
        append_cut (b' ∷ more) (laws.pending fd (os.recv fd 1 w).1) (b ∷ []) y (omega arith)
          (sym next ∙ there) in
      rw e (r ∙ ap bytes one, left)

  -- A reliable connection does not fail.
  pub certain :
      (m : Message) (y : List ℕ) (a : ClientApp os desk) (w : World) (done : Bool)
      (b : ClientApp os desk)
      → Ends os desk true (Shows os desk laws fd m y (record a { world = w })) done b
      → (done ≡ true) × Shows os desk laws fd m y a b
  certain m y a w done b (inl (ok, s)) =
      (ok, Shows-world os desk laws local fd true (λ _. reliable) m y a w b s)
  certain m y a w done b (inr (_, never)) = absurd (cc never)

  pub Shows-leaves :
      (m : Message) (y : List ℕ) (a b : ClientApp os desk)
      → Shows os desk laws fd m y a b
      → (b.client ≡ a.client) × (laws.pending fd b.world ≡ y)
  Shows-leaves (frame id jpeg) y a b s = s.3
  Shows-leaves (press id jpeg) y a b s = s.3
  Shows-leaves (dark id) y a b s = s.3
  Shows-leaves (mismatch id) y a b s = s.3
  Shows-leaves acknowledge y a b s = absurd s

  pub send_pending_on :
      (c : ℤ) (data' : List ℕ) (w : World)
      → c ≡ fd
      → laws.pending fd (os.send c data' w).1 ≡ laws.pending fd w
  send_pending_on c data' w e = rw e (laws.send_pending fd data' w)
