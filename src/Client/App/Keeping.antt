-- ===== src/Client/App/Keeping.antt =====
-- What the client saves: the image of an answer to a press, and nothing else.
use embedded_client_server_v.Prelude.{
  ℕ, ◌+◌, ◌<◌, ◌≡◌, refl, ap, ◌∙◌, Bool, true, false, List, [], ◌∷◌, ◌++◌, ℤ, arith, length,
  append_assoc, length-append, pure, Bool-cases, ◌⊎◌, inl, inr, Returns, Returns-pure, Returns-mono,
}
use embedded_client_server_v.Protocol.Bytes.{
  net_bytes, of_net_bytes, of_net_bytes-net_bytes, u32_mod,
}
use embedded_client_server_v.Protocol.Message.{
  Message, frame, press, dark, mismatch, acknowledge, IsAnswer, header, after_id, id_of,
  id_of_bound, encode, encode_parts,
}
use embedded_client_server_v.Posix.{Posix, Laws, milliseconds}
use embedded_client_server_v.Client.Config
use embedded_client_server_v.Client.Protocol
use embedded_client_server_v.Client.Desktop.{Desktop, IsLocal}
use embedded_client_server_v.Client.Store.{ImageStore, image_path}
use embedded_client_server_v.Client.Store.Files.{FileSystem, HasRoom, Saved}
use embedded_client_server_v.Client.Socket.Receiving.{IsReliable}
use embedded_client_server_v.Client.App.{
  ClientApp, normal, DisplayState, no_light, sensor_error, same, set_state, receive_image,
  receive_body, with_frame_id, receive_answer, handle_response, after_receive, exchange_frame,
}
use embedded_client_server_v.Client.App.Arrival.{recv_byte, send_pending_on}
use embedded_client_server_v.Client.Socket.{send, receive}
use embedded_client_server_v.Client.App.Decoding.{is_answer-header}
use embedded_client_server_v.Client.App.Showing.{Suffices, read_then}
use embedded_client_server_v.Client.App.Saving.{Contents, KeepsImage, After, receive_image-After}

-- The files before a message and behind it.
abbrev pub Files : ImageStore → Message → Contents → Contents → Type 0
Files store (press id (j ∷ js)) before after = Saved (image_path store id) (j ∷ js) before after
Files store (press id []) before after = after ≡ before
Files store (frame id jpeg) before after = after ≡ before
Files store (dark id) before after = after ≡ before
Files store (mismatch id) before after = after ≡ before
Files store acknowledge before after = after ≡ before

module _ (os : Posix) (desk : Desktop os) (disk : FileSystem os desk) (store : ImageStore) where
  -- What an exchange leaves in the files, if its request leaves or not.
  abbrev pub Keeps : Message → ClientApp os desk → Bool → ClientApp os desk → Type 0
  Keeps m a done b =
      let asked = (send os a.client Protocol.get_frame a.world).0 in
      ((asked ≡ true) × (done ≡ true) × Files store m (disk.files a.world) (disk.files b.world))
      ⊎ ((asked ≡ false) × (done ≡ false) × (disk.files b.world ≡ disk.files a.world))

module _ (os : Posix) (desk : Desktop os) (laws : Laws os) (local : IsLocal os laws desk) (fd : ℤ)
    (reliable : Bool) (promise : reliable ≡ true → IsReliable os laws fd)
    (disk : FileSystem os desk) (store : ImageStore) (room : HasRoom os desk store) where
  open os use {World}

  -- setState leaves the rest alone.
  record StateOnly (a b : ClientApp os desk) : Type 0 where
    number : b.frame_id ≡ a.frame_id
    connection : b.client ≡ a.client
    directory : b.store ≡ a.store
    left : laws.pending fd b.world ≡ laws.pending fd a.world
    unchanged : disk.files b.world ≡ disk.files a.world

  set_state-StateOnly :
      (s : DisplayState) (a : ClientApp os desk) → StateOnly a (set_state os desk s a)
  unfolding set_state
  set_state-StateOnly s a = elim (Bool-cases (same s a.state)) [
    | inl e ↦
        rw e record {
          number = refl;
          connection = refl;
          directory = refl;
          left = refl;
          unchanged = refl;
        }
    | inr e ↦ rw e record {
      number = refl;
      connection = refl;
      directory = refl;
      left = laws.now_pending fd a.world;
      unchanged = disk.unread.by_now a.world;
    }
  ]

  image_body-After :
      (fuel : ℕ) (saves : Bool) (id : ℕ) (jpeg rest : List ℕ) (a : ClientApp os desk) (w : World)
      → a.client.fd ≡ fd
      → length jpeg < u32_mod
      → length jpeg + 4 + milliseconds Config.link_timeout_ms < fuel
      → laws.pending fd a.world ≡ (net_bytes (length jpeg) ++ jpeg) ++ rest
      → a.store ≡ store
      → disk.files a.world ≡ disk.files w
      → Returns
          (receive_image os desk fuel saves (set_state os desk normal (with_frame_id os desk id a)))
          (After os desk laws local fd reliable promise disk store room
            (KeepsImage store saves id jpeg)
            w)
  unfolding with_frame_id
  image_body-After fuel saves id jpeg rest a w e small enough there s f =
      let k = set_state-StateOnly normal (record a { frame_id = id }) in
      receive_image-After os desk laws local fd reliable promise disk store room fuel saves id jpeg
        rest (set_state os desk normal (record a { frame_id = id })) w
        (ap (λ c. c.fd) k.connection ∙ e) small enough
        (k.left ∙ there ∙ append_assoc (net_bytes (length jpeg)) jpeg rest) (k.directory ∙ s)
        k.number (k.unchanged ∙ f)

  state_body-After :
      (s : DisplayState) (m : Message) (a : ClientApp os desk) (w : World)
      → (disk.files (set_state os desk s (with_frame_id os desk (id_of m) a)).world ≡ disk.files w
          → Files store m
              (disk.files w)
              (disk.files (set_state os desk s (with_frame_id os desk (id_of m) a)).world))
      → disk.files a.world ≡ disk.files w
      → Returns
          (pure true (set_state os desk s (with_frame_id os desk (id_of m) a)))
          (After os desk laws local fd reliable promise disk store room (Files store m) w)
  unfolding with_frame_id
  state_body-After s m a w kept f =
      let k = set_state-StateOnly s (record a { frame_id = id_of m }) in
      Returns-pure _ true _ (inl (refl, kept (k.unchanged ∙ f)))

  receive_body-After :
      (fuel : ℕ) (m : Message) (rest : List ℕ) (a : ClientApp os desk) (w : World)
      → a.client.fd ≡ fd
      → IsAnswer m
      → Suffices fuel m
      → laws.pending fd a.world ≡ after_id m ++ rest
      → a.store ≡ store
      → disk.files a.world ≡ disk.files w
      → Returns
          (receive_body os desk fuel (header m) (with_frame_id os desk (id_of m) a))
          (After os desk laws local fd reliable promise disk store room (Files store m) w)
  unfolding receive_body
  receive_body-After fuel (frame id jpeg) rest a w e h enough there s f =
      image_body-After fuel false id jpeg rest a w e h.1
        (omega (arith, length-append (net_bytes (length jpeg)) jpeg)) there s f
  receive_body-After fuel (press id []) rest a w e h enough there s f =
      image_body-After fuel true id [] rest a w e h.1 (omega arith) there s f
  receive_body-After fuel (press id (j ∷ js)) rest a w e h enough there s f =
      image_body-After fuel true id (j ∷ js) rest a w e h.1
        (omega (arith, length-append (net_bytes (length (j ∷ js))) (j ∷ js))) there s f
  receive_body-After fuel (dark id) rest a w e h enough there s f =
      state_body-After no_light (dark id) a w (λ k. k) f
  receive_body-After fuel (mismatch id) rest a w e h enough there s f =
      state_body-After sensor_error (mismatch id) a w (λ k. k) f
  receive_body-After fuel acknowledge rest a w e h enough there s f = absurd h

  receive_answer-After :
      (fuel : ℕ) (m : Message) (rest : List ℕ) (a : ClientApp os desk) (w : World)
      → a.client.fd ≡ fd
      → IsAnswer m
      → Suffices fuel m
      → laws.pending fd a.world ≡ net_bytes (id_of m) ++ (after_id m ++ rest)
      → a.store ≡ store
      → disk.files a.world ≡ disk.files w
      → Returns
          (receive_answer os desk fuel (header m) a)
          (After os desk laws local fd reliable promise disk store room (Files store m) w)
  unfolding receive_answer net_bytes
  receive_answer-After fuel m rest a w e h enough there s f =
      read_then os desk laws local fd reliable promise disk.files disk.unread fuel a
        (net_bytes (id_of m)) (after_id m ++ rest)
        (λ b. Files store m (disk.files w) (disk.files b.world))
        (λ x b. receive_body os desk fuel (header m) (with_frame_id os desk (of_net_bytes x) b)) e
        (omega arith) there
        (λ v left kept.
          rw (of_net_bytes-net_bytes (id_of m) (id_of_bound m h)) (
            receive_body-After fuel m rest (record a { world = v }) w e h enough left s (kept ∙ f)))

  pub handle_response-After :
      (fuel : ℕ) (m : Message) (rest : List ℕ) (a : ClientApp os desk) (w : World)
      → a.client.fd ≡ fd
      → IsAnswer m
      → Suffices fuel m
      → laws.pending fd a.world ≡ (net_bytes (id_of m) ++ after_id m) ++ rest
      → a.store ≡ store
      → disk.files a.world ≡ disk.files w
      → Returns
          (handle_response os desk fuel (header m) a)
          (After os desk laws local fd reliable promise disk store room (Files store m) w)
  unfolding handle_response
  handle_response-After fuel m rest a w e h enough there s f =
      rw (is_answer-header m h, handle_response)
        (receive_answer-After fuel m rest a w e h enough
          (there ∙ append_assoc (net_bytes (id_of m)) (after_id m) rest) s f)

module _ (os : Posix) (desk : Desktop os) (laws : Laws os) (local : IsLocal os laws desk) (fd : ℤ)
    (reliable : IsReliable os laws fd) (disk : FileSystem os desk) (store : ImageStore)
    (room : HasRoom os desk store) where
  -- An answer whose number and size are below 2^32, then `rest`, is what a reliable connection
  -- delivers, and the directory of the images can be written. With enough fuel for it (as for
  -- handleResponse), exchangeFrame returns. If the send of GET_FRAME succeeds, the image of an
  -- answer BUTTON_PRESS, if it has bytes, is afterwards, byte for byte, the content of the file
  -- that is named after its number, and no other file has changed; any other answer, and a failed
  -- send, leave all files unchanged.
  pub exchange_frame-Keeps :
      (fuel : ℕ) (m : Message) (rest : List ℕ) (a : ClientApp os desk)
      → a.client.fd ≡ fd
      → a.store ≡ store
      → IsAnswer m
      → Suffices fuel m
      → laws.pending fd a.world ≡ encode m ++ rest
      → Returns (exchange_frame os desk fuel a) (Keeps os desk disk store m a)
  unfolding exchange_frame send receive after_receive
  exchange_frame-Keeps fuel m rest a e s h enough there =
      let w1 = (os.send a.client.fd (Protocol.get_frame ∷ []) a.world).1 in
      let y = (net_bytes (id_of m) ++ after_id m) ++ rest in
      let split = there ∙ ap (λ x. x ++ rest) (encode_parts m h) in
      let kept =
        send_pending_on os desk laws local fd reliable a.client.fd (Protocol.get_frame ∷ []) a.world
          e in
      let same = disk.send_files a.client.fd (Protocol.get_frame ∷ []) a.world in
      elim (Bool-cases (send os a.client Protocol.get_frame a.world).0) [
        | inr refused ↦
            rw (refused, exchange_frame) (Returns-pure _ false _ (inr (refused, refl, same)))
        | inl asked ↦
            let (r, left) =
              recv_byte os desk laws local fd reliable a.client.fd w1 (header m) y e
                (kept ∙ split) in
            let w2 = (os.recv a.client.fd 1 w1).1 in
            let (t, w3) = os.now w2 in
            rw (asked, r, exchange_frame, receive, after_receive)
              (Returns-mono _ _
                (λ done b ends. elim ends [
                  | inl (ok, files) ↦ inl (asked, ok, files)
                  | inr (_, never) ↦ absurd (cc never)
                ])
                (handle_response-After os desk laws local fd true (λ _. reliable) disk store room
                  fuel m rest (record a { last_response = t; world = w3 }) a.world e h enough
                  (laws.now_pending fd w2 ∙ left) s
                  (disk.unread.by_now w2 ∙ disk.unread.by_recv a.client.fd 1 w1 ∙ same)))
      ]
