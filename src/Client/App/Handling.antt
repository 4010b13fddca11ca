-- ===== src/Client/App/Handling.antt =====
-- What the client keeps while it handles a response: anything about its socket, its directory and a
-- view of the world that neither the clock nor recv nor the files change.
use embedded_client_server_v.Prelude.{
  ℕ, ◌≡◌, refl, ◌∙◌, inl, inr, Bool, true, false, ◌&&◌, List, [], Option, some, ltb, ◌==◌,
  Bool-cases, if◌then◌else◌, M, pure, ◌>>=◌, sym, subst, Ensures, Ensures-pure, Ensures-bind,
}
use embedded_client_server_v.Posix.{Posix}
use embedded_client_server_v.Protocol.Bytes.{of_net_bytes}
use embedded_client_server_v.Client.Config
use embedded_client_server_v.Client.Desktop.{Desktop}
use embedded_client_server_v.Client.Store.{ImageStore, save, image_path}
use embedded_client_server_v.Client.Socket.{
  RecvResult, TcpClient, received, timeout, disconnected, receive_all,
}
use embedded_client_server_v.Client.Socket.Unread.{Unread, receive_all-Same}
use embedded_client_server_v.Client.App.{
  ClientApp, DisplayState, normal, no_light, sensor_error, same, set_state, is_ok, is_answer,
  on_world, keep_image, receive_bytes, receive_content, receive_image, receive_body, with_frame_id,
  receive_answer, handle_response, after_receive,
}

-- A view of the world that handling a response leaves alone.
pub record Aside (os : Posix) (desk : Desktop os) {X : Type 0} (view : os.World → X) : Type 0 where
  pub unread : Unread os view
  pub by_open : (path : List ℕ) (w : os.World) → view (desk.open_truncated path w).1 ≡ view w
  pub by_write :
      (path content : List ℕ) (w : os.World) → view (desk.write path content w).1 ≡ view w

module _ (os : Posix) (desk : Desktop os) {X : Type 0} (view : os.World → X)
    (P : TcpClient → ImageStore → X → Type 0) where
  abbrev pub Holds : ClientApp os desk → Type 0
  Holds a = P a.client a.store (view a.world)

  abbrev pub Keeps : {A : Type 0} → Option (A × ClientApp os desk) → Type 0
  Keeps r = Ensures r (λ _ b. Holds b)

module _ (os : Posix) (desk : Desktop os) {X : Type 0} (view : os.World → X)
    (aside : Aside os desk view) (P : TcpClient → ImageStore → X → Type 0) where
  open os use {World}

  abbrev App : Type 0
  App = ClientApp os desk

  pub stopped :
      {A : Type 0} (x : A) (a : App) → Holds os desk view P a → Keeps os desk view P (pure x a)
  stopped x a h = Ensures-pure (λ _ b. Holds os desk view P b) x a h

  -- Another world that looks the same.
  pub same_view :
      (c : TcpClient) (s : ImageStore) (w v : World)
      → view v ≡ view w
      → P c s (view w)
      → P c s (view v)
  same_view c s w v e h = subst (P c s) (sym e) h

  -- A receive, and what is done with the bytes.
  reads-Keeps :
      (fuel size : ℕ) (k : List ℕ → M App Bool) (a : App)
      → Holds os desk view P a
      → ((x : List ℕ) (b : App) → Holds os desk view P b → Keeps os desk view P (k x b))
      → Keeps os desk view P (
          (on_world os desk (receive_all os fuel a.client size Config.link_timeout_ms) >>= λ r.
          if is_ok r.0 then k r.1 else pure false)
            a)
  reads-Keeps fuel size k a h later =
      Ensures-bind (on_world os desk (receive_all os fuel a.client size Config.link_timeout_ms) a)
        (λ r. if is_ok r.0 then k r.1 else pure false) (λ _ b. Holds os desk view P b) _
        (Ensures-bind (receive_all os fuel a.client size Config.link_timeout_ms a.world)
          (λ x w. some (x, record a { world = w })) _ _
          (receive_all-Same os view aside.unread fuel a.client size Config.link_timeout_ms a.world)
          (λ x w e. stopped x (record a { world = w }) (same_view a.client a.store a.world w e h)))
        next
    where
      next :
          (r : RecvResult × List ℕ) (b : App)
          → Holds os desk view P b
          → Keeps os desk view P ((if is_ok r.0 then k r.1 else pure false) b)
      next (received, x) b e = later x b e
      next (timeout, x) b e = stopped false b e
      next (disconnected, x) b e = stopped false b e

  save_view :
      (a : App) (jpeg : List ℕ)
      → view (save os desk a.store a.frame_id jpeg a.world).1 ≡ view a.world
  unfolding save
  save_view a jpeg =
      let path = image_path a.store a.frame_id in
      let w1 = (desk.open_truncated path a.world).1 in
      elim (Bool-cases (desk.open_truncated path a.world).0) [
        | inl opened ↦ rw (opened, save) (aside.by_write path jpeg w1 ∙ aside.by_open path a.world)
        | inr failed ↦ rw (failed, save) (aside.by_open path a.world)
      ]

  keep_image-Keeps :
      (saves : Bool) (jpeg : List ℕ) (size : ℕ) (a : App)
      → Holds os desk view P a
      → Keeps os desk view P (keep_image os desk saves jpeg size a)
  unfolding keep_image
  keep_image-Keeps saves jpeg size a h =
      stopped true _ (same_view a.client a.store a.world _ (left (saves && ltb 0 size)) h)
    where
      left :
          (b : Bool)
          → view (if b then (save os desk a.store a.frame_id jpeg a.world).1 else a.world)
            ≡ view a.world
      left true = save_view a jpeg
      left false = refl

  receive_content-Keeps :
      (fuel : ℕ) (saves : Bool) (size : ℕ) (a : App)
      → Holds os desk view P a
      → Keeps os desk view P (receive_content os desk fuel saves size a)
  unfolding receive_content receive_bytes
  receive_content-Keeps fuel saves size a h = elim (Bool-cases (ltb 0 size)) [
    | inl some_bytes ↦
        rw (some_bytes, receive_content, receive_bytes)
          (reads-Keeps fuel size (λ x. keep_image os desk saves x size) a h
            (λ x b e. keep_image-Keeps saves x size b e))
    | inr empty ↦ rw (empty, receive_content, receive_bytes) (keep_image-Keeps saves [] size a h)
  ]

  receive_image-Keeps :
      (fuel : ℕ) (saves : Bool) (a : App)
      → Holds os desk view P a
      → Keeps os desk view P (receive_image os desk fuel saves a)
  unfolding receive_image
  receive_image-Keeps fuel saves a h =
      reads-Keeps fuel 4 (λ x. receive_content os desk fuel saves (of_net_bytes x)) a h
        (λ x b e. receive_content-Keeps fuel saves (of_net_bytes x) b e)

  pub set_state-Holds :
      (s : DisplayState) (a : App)
      → Holds os desk view P a
      → Holds os desk view P (set_state os desk s a)
  unfolding set_state
  set_state-Holds s a h = elim (Bool-cases (same s a.state)) [
    | inl e ↦ rw e h
    | inr e ↦ rw e (same_view a.client a.store a.world _ (aside.unread.by_now a.world) h)
  ]

  receive_body-Keeps :
      (fuel response : ℕ) (a : App)
      → Holds os desk view P a
      → Keeps os desk view P (receive_body os desk fuel response a)
  unfolding receive_body
  receive_body-Keeps fuel response a h = elim (Bool-cases (response == 101)) [
    | inl e ↦ rw (e, receive_body) (receive_image-Keeps fuel false _ (set_state-Holds normal a h))
    | inr e ↦ elim (Bool-cases (response == 200)) [
      | inl f ↦
          rw (e, f, receive_body) (receive_image-Keeps fuel true _ (set_state-Holds normal a h))
      | inr f ↦ elim (Bool-cases (response == 201)) [
        | inl g ↦ rw (e, f, g, receive_body) (stopped true _ (set_state-Holds no_light a h))
        | inr g ↦ rw (e, f, g, receive_body) (stopped true _ (set_state-Holds sensor_error a h))
      ]
    ]
  ]

  pub handle_response-Keeps :
      (fuel response : ℕ) (a : App)
      → Holds os desk view P a
      → Keeps os desk view P (handle_response os desk fuel response a)
  unfolding handle_response receive_answer with_frame_id
  handle_response-Keeps fuel response a h = elim (Bool-cases (is_answer response)) [
    | inr e ↦ rw (e, handle_response) (stopped true a h)
    | inl e ↦
        rw (e, handle_response)
          (reads-Keeps fuel 4
            (λ x b. receive_body os desk fuel response (with_frame_id os desk (of_net_bytes x) b)) a
            h
            (λ x b k.
              receive_body-Keeps fuel response (with_frame_id os desk (of_net_bytes x) b) k))
  ]

  pub after_receive-Keeps :
      (fuel : ℕ) (r : RecvResult) (response : ℕ) (a : App)
      → Holds os desk view P a
      → Keeps os desk view P (after_receive os desk fuel r response a)
  unfolding after_receive
  after_receive-Keeps fuel timeout response a h =
      stopped _ (record a { world = (os.now a.world).1 })
        (same_view a.client a.store a.world _ (aside.unread.by_now a.world) h)
  after_receive-Keeps fuel disconnected response a h = stopped false a h
  after_receive-Keeps fuel received response a h =
      handle_response-Keeps fuel response _
        (same_view a.client a.store a.world _ (aside.unread.by_now a.world) h)
