-- ===== src/Client/App/Showing.antt =====
-- What a message shows, and receiveImage against the layout of an image on the wire.
use embedded_client_server_v.Prelude.{
  ℕ, ◌+◌, ◌<◌, ◌≡◌, refl, ◌∙◌, ◌⊎◌, inl, inr, Bool, true, false, ◌&&◌, List, [], ◌∷◌, ◌++◌, ℤ,
  arith, length, ltb, lt→ltb, if◌then◌else◌, M, pure, ◌>>=◌, Returns, Returns-pure, Returns-bind,
  Returns-Ensures,
}
use embedded_client_server_v.Protocol.Bytes.{
  net_bytes, of_net_bytes, of_net_bytes-net_bytes, u32_mod,
}
use embedded_client_server_v.Protocol.Message.{
  Message, frame, press, dark, mismatch, acknowledge, after_id,
}
use embedded_client_server_v.Posix.{Posix, Laws, milliseconds}
use embedded_client_server_v.Client.Config
use embedded_client_server_v.Client.Desktop.{Desktop, IsLocal}
use embedded_client_server_v.Client.Store.{save, image_path}
use embedded_client_server_v.Client.Socket.{RecvResult, receive_all}
use embedded_client_server_v.Client.Socket.Receiving.{IsReliable, Reads, receive_all-Reads}
use embedded_client_server_v.Client.Socket.Unread.{Unread, blind, receive_all-Same}
use embedded_client_server_v.Client.App.{
  ClientApp, draw_frame_id, normal, no_light, sensor_error, on_world, is_ok, keep_image,
  receive_bytes, receive_content, receive_image,
}

-- The image shown after an image message: the decoded one with its number, if it decodes.
abbrev pub picture : {os : Posix} (desk : Desktop os) → ℕ → List ℕ → desk.Mat → desk.Mat
picture {os} desk id jpeg old =
    let decoded = desk.imdecode jpeg in
    if desk.is_empty decoded then old else draw_frame_id os desk decoded id

-- The fuel that a message needs.
abbrev pub Suffices : ℕ → Message → Type 0
Suffices fuel m = length (after_id m) + 4 + milliseconds Config.link_timeout_ms < fuel

module _ (os : Posix) (desk : Desktop os) where
  abbrev pub App : Type 0
  App = ClientApp os desk

  -- Success with this postcondition, or a failure, which no reliable connection causes.
  abbrev pub Ends : Bool → (App → Type 0) → Bool → App → Type 0
  Ends reliable P done b = ((done ≡ true) × P b) ⊎ ((done ≡ false) × (reliable ≡ false))

module _ (os : Posix) (desk : Desktop os) (laws : Laws os) (fd : ℤ) where
  -- What is left to read, over the same connection.
  abbrev pub Leaves : List ℕ → ClientApp os desk → ClientApp os desk → Type 0
  Leaves rest a b = (b.client ≡ a.client) × (laws.pending fd b.world ≡ rest)

  abbrev pub ShowsImage : List ℕ → List ℕ → ClientApp os desk → ClientApp os desk → Type 0
  ShowsImage jpeg rest a b =
      (b.frame_id ≡ a.frame_id)
      × (b.state ≡ a.state)
      × (b.frame ≡ picture desk a.frame_id jpeg a.frame)
      × Leaves rest a b

  -- What the app shows after a message, when `rest` comes behind it.
  abbrev pub Shows : Message → List ℕ → ClientApp os desk → ClientApp os desk → Type 0
  Shows (frame id jpeg) rest a b =
      (b.frame_id ≡ id)
      × (b.state ≡ normal)
      × (b.frame ≡ picture desk id jpeg a.frame)
      × Leaves rest a b
  Shows (press id jpeg) rest a b =
      (b.frame_id ≡ id)
      × (b.state ≡ normal)
      × (b.frame ≡ picture desk id jpeg a.frame)
      × Leaves rest a b
  Shows (dark id) rest a b =
      (b.frame_id ≡ id) × (b.state ≡ no_light) × (b.frame ≡ a.frame) × Leaves rest a b
  Shows (mismatch id) rest a b =
      (b.frame_id ≡ id) × (b.state ≡ sensor_error) × (b.frame ≡ a.frame) × Leaves rest a b
  Shows acknowledge rest a b = ⊥

module _ (os : Posix) (desk : Desktop os) (laws : Laws os) (local : IsLocal os laws desk) (fd : ℤ)
    (reliable : Bool) (promise : reliable ≡ true → IsReliable os laws fd) where
  open os use {World}

  -- A receive of the bytes `x`, and what is done with them, over a view of the world that the
  -- receive leaves alone.
  pub read_then :
      {X : Type 0} (view : World → X) (unread : Unread os view) (fuel : ℕ) (a : (ClientApp os desk))
      (x y : List ℕ) (P : (ClientApp os desk) → Type 0) (k : List ℕ → M (ClientApp os desk) Bool)
      → a.client.fd ≡ fd
      → length x + milliseconds Config.link_timeout_ms < fuel
      → laws.pending fd a.world ≡ x ++ y
      → ((w : World)
          → laws.pending fd w ≡ y
          → view w ≡ view a.world
          → Returns (k x (record a { world = w })) (Ends os desk reliable P))
      → Returns
          ((on_world os desk (receive_all os fuel a.client (length x) Config.link_timeout_ms)
              >>= λ r. if is_ok r.0 then k r.1 else pure false)
            a)
          (Ends os desk reliable P)
  read_then view unread fuel a x y P k e enough there rest =
      let run =
        Returns-Ensures _ _
          (receive_all-Reads os laws fd reliable promise fuel a.client Config.link_timeout_ms
            a.world x y e enough there)
          (receive_all-Same os view unread fuel a.client (length x) Config.link_timeout_ms
            a.world) in
      Returns-bind
        (on_world os desk (receive_all os fuel a.client (length x) Config.link_timeout_ms))
        (λ r. if is_ok r.0 then k r.1 else pure false) a
        (λ r b.
          Reads x y reliable r (laws.pending fd b.world)
          × (b ≡ record a { world = b.world })
          × (view b.world ≡ view a.world))
        (Ends os desk reliable P)
        (record {
          value = run.value;
          state = record a { world = run.state };
          runs = rw (run.runs, on_world);
          holds = (run.holds.0, refl, run.holds.1);
        })
        next
    where
      next :
          (r : RecvResult × List ℕ) (b : (ClientApp os desk))
          → Reads x y reliable r (laws.pending fd b.world)
            × (b ≡ record a { world = b.world })
            × (view b.world ≡ view a.world)
          → Returns ((if is_ok r.0 then k r.1 else pure false) b) (Ends os desk reliable P)
      next (r, buffer) b (inl (ok, whole, left), keeps, same) =
          rw (ok, whole, keeps) (rest b.world left same)
      next (r, buffer) b (inr (broken, weak), _, _) =
          rw broken (Returns-pure (Ends os desk reliable P) false b (inr (refl, weak)))

  save_pending :
      (a : (ClientApp os desk)) (jpeg : List ℕ)
      → laws.pending fd (save os desk a.store a.frame_id jpeg a.world).1 ≡ laws.pending fd a.world
  unfolding save
  save_pending a jpeg = ground (
    arith,
    local.open_pending fd (image_path a.store a.frame_id) a.world,
    local.write_pending fd (image_path a.store a.frame_id) jpeg
        (desk.open_truncated (image_path a.store a.frame_id) a.world).1,
  )

  keep_image-Ends :
      (saves : Bool) (jpeg rest : List ℕ) (size : ℕ) (a : (ClientApp os desk))
      → laws.pending fd a.world ≡ rest
      → Returns
          (keep_image os desk saves jpeg size a)
          (Ends os desk reliable (ShowsImage os desk laws fd jpeg rest a))
  unfolding keep_image
  keep_image-Ends saves jpeg rest size a e =
      Returns-pure _ true _ (inl (refl, (refl, refl, refl, (refl, left (saves && ltb 0 size)))))
    where
      left :
          (b : Bool)
          → laws.pending fd
              (if b then (save os desk a.store a.frame_id jpeg a.world).1 else a.world)
            ≡ rest
      left true = save_pending a jpeg ∙ e
      left false = e

  receive_content-Ends :
      (fuel : ℕ) (saves : Bool) (jpeg rest : List ℕ) (a : (ClientApp os desk))
      → a.client.fd ≡ fd
      → length jpeg + milliseconds Config.link_timeout_ms < fuel
      → laws.pending fd a.world ≡ jpeg ++ rest
      → Returns
          (receive_content os desk fuel saves (length jpeg) a)
          (Ends os desk reliable (ShowsImage os desk laws fd jpeg rest a))
  unfolding receive_content receive_bytes
  receive_content-Ends fuel saves [] rest a e enough there = keep_image-Ends saves [] rest 0 a there
  receive_content-Ends fuel saves (j ∷ js) rest a e enough there =
      rw (lt→ltb 0 (length (j ∷ js)) (omega arith), receive_content, receive_bytes)
        (read_then (λ _. tt) (blind os) fuel a (j ∷ js) rest
          (ShowsImage os desk laws fd (j ∷ js) rest a)
          (λ x. keep_image os desk saves x (length (j ∷ js))) e enough there
          (λ w left _.
            keep_image-Ends saves (j ∷ js) rest (length (j ∷ js)) (record a { world = w }) left))

  pub receive_image-Ends :
      (fuel : ℕ) (saves : Bool) (jpeg rest : List ℕ) (a : (ClientApp os desk))
      → a.client.fd ≡ fd
      → length jpeg < u32_mod
      → length jpeg + 4 + milliseconds Config.link_timeout_ms < fuel
      → laws.pending fd a.world ≡ net_bytes (length jpeg) ++ (jpeg ++ rest)
      → Returns
          (receive_image os desk fuel saves a)
          (Ends os desk reliable (ShowsImage os desk laws fd jpeg rest a))
  unfolding receive_image net_bytes
  receive_image-Ends fuel saves jpeg rest a e small enough there =
      read_then (λ _. tt) (blind os) fuel a (net_bytes (length jpeg)) (jpeg ++ rest)
        (ShowsImage os desk laws fd jpeg rest a)
        (λ x. receive_content os desk fuel saves (of_net_bytes x)) e (omega arith) there
        (λ w left _.
          rw (of_net_bytes-net_bytes (length jpeg) small) (
            receive_content-Ends fuel saves jpeg rest (record a { world = w }) e (omega arith)
              left))
