-- ===== src/Client/App/Asking.antt =====
-- What the client sends during a session.
use Prim.Native.String.{String}
use embedded_client_server_v.Prelude.{
  ℕ, zero, suc, length, is_negative, ◌≡◌, refl, sym, ap, ◌∙◌, inl, inr, true, not, List, [], ◌∷◌,
  ◌++◌, append_assoc, append-nil, ℤ, pos, negsuc, none, some, arith, length, Bool-cases, subst,
}
use embedded_client_server_v.Posix.{Posix, Laws}
use embedded_client_server_v.Client.Desktop.{Desktop}
use embedded_client_server_v.Client.Reporter.{begin_cycle}
use embedded_client_server_v.Client.Store.{ImageStore}
use embedded_client_server_v.Client.Socket.{TcpClient, send, receive}
use embedded_client_server_v.Client.App.{ClientApp, exchange_frame, cycle}
use embedded_client_server_v.Client.App.Cycling.{Cycles, here, next, cycle-GoesOn, begun}
use embedded_client_server_v.Client.App.Drawing.{Passes}
use embedded_client_server_v.Client.App.Handling.{Aside, after_receive-Keeps}

-- Neither receives nor the window nor the files send anything.
pub record SendsNothing (os : Posix) (laws : Laws os) (desk : Desktop os) : Type 0 where
  pub recv_sent :
      (fd other : ℤ) (n : ℕ) (w : os.World) → laws.sent fd (os.recv other n w).1 ≡ laws.sent fd w
  pub imshow_sent :
      (fd : ℤ) (name : String) (m : desk.Mat) (w : os.World)
      → laws.sent fd (desk.imshow name m w) ≡ laws.sent fd w
  pub wait_key_sent :
      (fd : ℤ) (ms : ℕ) (w : os.World) → laws.sent fd (desk.wait_key ms w).1 ≡ laws.sent fd w
  pub open_sent :
      (fd : ℤ) (path : List ℕ) (w : os.World)
      → laws.sent fd (desk.open_truncated path w).1 ≡ laws.sent fd w
  pub write_sent :
      (fd : ℤ) (path content : List ℕ) (w : os.World)
      → laws.sent fd (desk.write path content w).1 ≡ laws.sent fd w

-- So many requests for an image.
abbrev pub asks : ℕ → List ℕ
asks zero = []
asks (suc n) = 1 ∷ asks n

pub length-asks : (n : ℕ) → length (asks n) ≡ n
length-asks zero = refl
length-asks (suc n) = ap suc (length-asks n)

asks_last : (n : ℕ) → asks n ++ 1 ∷ [] ≡ asks (suc n)
asks_last zero = refl
asks_last (suc n) = ap (◌∷◌ 1) (asks_last n)

module _ (os : Posix) (desk : Desktop os) (laws : Laws os) (mute : SendsNothing os laws desk)
    (fd : ℤ) where
  open os use {World}

  aside : Aside os desk (laws.sent fd)
  aside = record {
    unread = record { by_now = laws.now_sent fd; by_recv = mute.recv_sent fd };
    by_open = mute.open_sent fd;
    by_write = mute.write_sent fd;
  }

  -- A request that has left is on the connection.
  request_sent :
      (w : World) (r : ℤ)
      → (os.send fd (1 ∷ []) w).0 ≡ r
      → not (is_negative r) ≡ true
      → laws.sent fd (os.send fd (1 ∷ []) w).1 ≡ laws.sent fd w ++ 1 ∷ []
  request_sent w (pos zero) e left =
      absurd (omega (arith, laws.send_some fd (1 ∷ []) w (omega arith) e))
  request_sent w (pos (suc zero)) e left = (laws.send_accepts fd (1 ∷ []) w e).1
  request_sent w (pos (suc (suc k))) e left =
      absurd (omega (arith, (laws.send_accepts fd (1 ∷ []) w e).0))
  request_sent w (negsuc k) e left = absurd (cc left)

  sends : Passes os desk (λ w v. laws.sent fd v ≡ laws.sent fd w)
  sends = record {
    same = λ w. refl;
    both = λ u v w p q. q ∙ p;
    by_now = laws.now_sent fd;
    by_imshow = mute.imshow_sent fd;
    by_wait_key = mute.wait_key_sent fd;
  }

module _ (os : Posix) (desk : Desktop os) (laws : Laws os) (mute : SendsNothing os laws desk) where
  -- What has been sent over the connection, which is still this one.
  abbrev Sent : TcpClient → List ℕ → TcpClient → ImageStore → List ℕ → Type 0
  Sent c s c' store s' = (c' ≡ c) × (s' ≡ s)

  exchange_frame-Sent :
      (f : ℕ) (a b : ClientApp os desk)
      → exchange_frame os desk f a ≡ some (true, b)
      → (b.client ≡ a.client)
        × (laws.sent a.client.fd b.world ≡ laws.sent a.client.fd a.world ++ 1 ∷ [])
  unfolding exchange_frame send receive
  exchange_frame-Sent f a b run =
      let fd = a.client.fd in
      let w = (os.send fd (1 ∷ []) a.world).1 in
      elim (Bool-cases (send os a.client 1 a.world).0) [
        | inr refused ↦ absurd (cc (rw (refused, exchange_frame) at run))
        | inl asked ↦
            let sent = request_sent os desk laws mute fd a.world _ refl asked in
            after_receive-Keeps os desk (laws.sent fd) (aside os desk laws mute fd)
              (Sent a.client (laws.sent fd a.world ++ 1 ∷ [])) f _ _ _
              (refl, mute.recv_sent fd fd 1 w ∙ sent) true b (rw (asked, exchange_frame) at run)
      ]

  cycle-Sent :
      (f : ℕ) (a c : ClientApp os desk)
      → cycle os desk f a ≡ some (none, c)
      → (c.client ≡ a.client)
        × (laws.sent a.client.fd c.world ≡ laws.sent a.client.fd a.world ++ 1 ∷ [])
  unfolding begin_cycle
  cycle-Sent f a c run =
      let fd = a.client.fd in
      let g = cycle-GoesOn os desk _ (sends os desk laws mute fd) f a c run in
      let (s, p) = exchange_frame-Sent f (begun os desk a) g.exchanged g.ran in
      (
        ap (λ b. b.client) g.keeps ∙ s,
        g.drew ∙ p ∙ ap (λ x. x ++ 1 ∷ []) (laws.now_sent fd a.world),
      )

  -- As long as a session of the client goes on, it has sent exactly one GET_FRAME in each cycle,
  -- and nothing else, over the same socket, whatever comes back; if neither receives nor the window
  -- nor the files send anything.
  pub Cycles-asks :
      (fuel : ℕ) (a : ClientApp os desk) (n : ℕ) (b : ClientApp os desk)
      → Cycles os desk fuel a n b
      → (b.client ≡ a.client)
        × (laws.sent a.client.fd b.world ≡ laws.sent a.client.fd a.world ++ asks n)
  Cycles-asks fuel a n b here = (refl, sym (append-nil _))
  Cycles-asks fuel a (suc n) c (next {b} f s more run) =
      let (same, sent) = Cycles-asks fuel a n b s in
      let (kept, request) = cycle-Sent f b c run in
      let fd = a.client.fd in
      (
        kept ∙ same,
        subst (λ x. laws.sent x.fd c.world ≡ laws.sent x.fd b.world ++ 1 ∷ []) same request
            ∙ ap (λ x. x ++ 1 ∷ []) sent
            ∙ append_assoc (laws.sent fd a.world) (asks n) (1 ∷ [])
            ∙ ap (◌++◌ (laws.sent fd a.world)) (asks_last n),
      )
