-- ===== src/Client/App/Taking.antt =====
-- One exchange of a session: an answer is handled with success, or nothing has happened.
use embedded_client_server_v.Prelude.{
  ℕ, ◌≡◌, refl, sym, ap, ◌∙◌, ◌⊎◌, inl, inr, Bool, true, false, List, [], ◌∷◌, ◌++◌, ℤ, some, arith,
  append_cut, Bool-cases, Ensures-pure, Returns, Returns_at,
}
use embedded_client_server_v.Protocol.Bytes.{net_bytes}
use embedded_client_server_v.Protocol.Message.{
  Message, IsAnswer, header, after_id, id_of, encode, encode_parts,
}
use embedded_client_server_v.Posix.{
  Posix, Laws, Received, Errno, bytes, error, again, would_block, in_progress, fault,
}
use embedded_client_server_v.Client.Desktop.{Desktop}
use embedded_client_server_v.Client.Socket.{receive, send, one_byte, timeout}
use embedded_client_server_v.Client.Socket.Unread.{Unread}
use embedded_client_server_v.Client.App.{ClientApp, after_receive, exchange_frame, handle_response}
use embedded_client_server_v.Client.App.Showing.{Ends}

-- A view of the world that an exchange leaves alone when no answer comes.
pub record Unasked (os : Posix) {X : Type 0} (view : os.World → X) : Type 0 where
  pub unread : Unread os view
  pub by_send : (fd : ℤ) (data' : List ℕ) (w : os.World) → view (os.send fd data' w).1 ≡ view w

module _ (os : Posix) (desk : Desktop os) (laws : Laws os) {X : Type 0} (view : os.World → X) where
  -- Nothing has been read, and only the statistics and the world have changed.
  abbrev pub Idle : ClientApp os desk → ClientApp os desk → Type 0
  Idle a b =
      (b ≡ record a { reporter = b.reporter; world = b.world })
      × (laws.pending a.client.fd b.world ≡ laws.pending a.client.fd a.world)
      × (view b.world ≡ view a.world)

module _ (os : Posix) (desk : Desktop os) (laws : Laws os) {X : Type 0} (view : os.World → X)
    (aside : Unasked os view) where
  open os use {World}

  abbrev request : ClientApp os desk → World
  request a = (os.send a.client.fd (1 ∷ []) a.world).1

  -- The receive of the header byte expired.
  expired-Idle :
      (f : ℕ) (a b : ClientApp os desk) (e : Errno)
      → (os.recv a.client.fd 1 a.world).0 ≡ error e
      → after_receive os desk f timeout 0 (record a { world = (os.recv a.client.fd 1 a.world).1 })
        ≡ some (true, b)
      → Idle os desk laws view a b
  unfolding after_receive
  expired-Idle f a b e r run =
      let fd = a.client.fd in
      let w = (os.recv fd 1 a.world).1 in
      Ensures-pure {S = ClientApp os desk} {A = Bool} (λ _ b. Idle os desk laws view a b) _
        (record a { world = (os.now w).1 })
        (
          refl,
          laws.now_pending fd w ∙ laws.recv_error fd 1 a.world r,
          aside.unread.by_now w ∙ aside.unread.by_recv fd 1 a.world,
        )
        true b run

  -- The receive of a byte when there is none.
  nothing-Idle :
      (f : ℕ) (a b : ClientApp os desk) (r : Received)
      → (os.recv a.client.fd 1 a.world).0 ≡ r
      → laws.pending a.client.fd a.world ≡ []
      → after_receive os desk f
          (one_byte os 0 r).0
          (one_byte os 0 r).1
          (record a { world = (os.recv a.client.fd 1 a.world).1 })
        ≡ some (true, b)
      → Idle os desk laws view a b
  unfolding after_receive
  nothing-Idle f a b (bytes []) r empty run = absurd (cc run)
  nothing-Idle f a b (bytes (x ∷ xs)) r empty run =
      absurd (cc (sym empty ∙ (laws.recv_bytes a.client.fd 1 a.world r).1))
  nothing-Idle f a b (error again) r empty run = expired-Idle f a b again r run
  nothing-Idle f a b (error would_block) r empty run = expired-Idle f a b would_block r run
  nothing-Idle f a b (error in_progress) r empty run = absurd (cc run)
  nothing-Idle f a b (error fault) r empty run = absurd (cc run)

  -- An exchange that succeeds has sent its request and gone on behind the receive.
  asked_run :
      (f : ℕ) (a b : ClientApp os desk)
      → exchange_frame os desk f a ≡ some (true, b)
      → after_receive os desk f
          (one_byte os 0 (os.recv a.client.fd 1 (request a)).0).0
          (one_byte os 0 (os.recv a.client.fd 1 (request a)).0).1
          (record a { world = (os.recv a.client.fd 1 (request a)).1 })
        ≡ some (true, b)
  unfolding exchange_frame send receive
  asked_run f a b run = elim (Bool-cases (send os a.client 1 a.world).0) [
    | inr refused ↦ absurd (cc (rw (refused, exchange_frame) at run))
    | inl asked ↦ rw (asked, exchange_frame) at run
  ]

  -- What is idle behind the request is so before it.
  request-Idle :
      (a b : ClientApp os desk)
      → Idle os desk laws view (record a { world = request a }) b
      → Idle os desk laws view a b
  request-Idle a b (same, left, seen) = (
    same,
    left ∙ laws.send_pending a.client.fd (1 ∷ []) a.world,
    seen ∙ aside.by_send a.client.fd (1 ∷ []) a.world,
  )

  -- With nothing on its way, an exchange that succeeds changes nothing.
  pub exchange_frame-Idle :
      (f : ℕ) (a b : ClientApp os desk)
      → laws.pending a.client.fd a.world ≡ []
      → exchange_frame os desk f a ≡ some (true, b)
      → Idle os desk laws view a b
  exchange_frame-Idle f a b empty run = request-Idle a b (
      nothing-Idle f (record a { world = request a }) b _ refl
        (laws.send_pending a.client.fd (1 ∷ []) a.world ∙ empty) (asked_run f a b run))

  -- With an answer on its way, an exchange that succeeds has handled it with success, or changed
  -- nothing.
  module _ (f : ℕ) (m : Message) (y : List ℕ) (a b : ClientApp os desk)
      (Q : ClientApp os desk → Type 0)
      (handles : (t : ℕ) (w : World)
        → laws.pending a.client.fd w ≡ (net_bytes (id_of m) ++ after_id m) ++ y
        → view w ≡ view a.world
        → Returns
            (handle_response os desk f (header m) (record a { last_response = t; world = w }))
            (Ends os desk false Q)) where
    handled :
        (t : ℕ) (w : World)
        → laws.pending a.client.fd w ≡ (net_bytes (id_of m) ++ after_id m) ++ y
        → view w ≡ view a.world
        → handle_response os desk f (header m) (record a { last_response = t; world = w })
          ≡ some (true, b)
        → Q b
    handled t w there seen run = elim (Returns_at _ true b (handles t w there seen) run) [
      | inl (ok, q) ↦ q
      | inr (failed, weak) ↦ absurd (cc failed)
    ]

    received-Took :
        (v : World) (r : Received)
        → (os.recv a.client.fd 1 v).0 ≡ r
        → IsAnswer m
        → laws.pending a.client.fd v ≡ encode m ++ y
        → view v ≡ view a.world
        → after_receive os desk f
            (one_byte os 0 r).0
            (one_byte os 0 r).1
            (record a { world = (os.recv a.client.fd 1 v).1 })
          ≡ some (true, b)
        → Q b ⊎ Idle os desk laws view (record a { world = v }) b
    unfolding after_receive
    received-Took v (bytes []) r h there seen run = absurd (cc run)
    received-Took v (bytes (x ∷ xs)) r h there seen run =
        let fd = a.client.fd in
        let w = (os.recv fd 1 v).1 in
        let (fits, read) = laws.recv_bytes fd 1 v r in
        let z = (net_bytes (id_of m) ++ after_id m) ++ y in
        let (one, left) =
          append_cut (x ∷ xs) (laws.pending fd w) (header m ∷ []) z (omega (arith, fits))
            (sym read ∙ there ∙ ap (λ q. q ++ y) (encode_parts m h)) in
        let first : x ≡ header m = ground (arith, one) in
        inl (
          handled (os.now w).0 (os.now w).1 (laws.now_pending fd w ∙ left)
            (aside.unread.by_now w ∙ aside.unread.by_recv fd 1 v ∙ seen) (rw first at run))
    received-Took v (error again) r h there seen run =
        inr (expired-Idle f (record a { world = v }) b again r run)
    received-Took v (error would_block) r h there seen run =
        inr (expired-Idle f (record a { world = v }) b would_block r run)
    received-Took v (error in_progress) r h there seen run = absurd (cc run)
    received-Took v (error fault) r h there seen run = absurd (cc run)

    pub exchange_frame-Took :
        IsAnswer m
        → laws.pending a.client.fd a.world ≡ encode m ++ y
        → exchange_frame os desk f a ≡ some (true, b)
        → Q b ⊎ Idle os desk laws view a b
    exchange_frame-Took h there run =
        elim (received-Took (request a) _ refl h
          (laws.send_pending a.client.fd (1 ∷ []) a.world ∙ there)
          (aside.by_send a.client.fd (1 ∷ []) a.world) (asked_run f a b run)) [
            | inl q ↦ inl q
            | inr idle ↦ inr (request-Idle a b idle)
          ]
