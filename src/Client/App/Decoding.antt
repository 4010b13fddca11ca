-- ===== src/Client/App/Decoding.antt =====
-- handleResponse against the protocol: what the client makes of a message.
use embedded_client_server_v.Prelude.{
  ℕ, ◌+◌, ◌<◌, ◌≡◌, refl, ap, Bool-cases, ◌∙◌, inl, inr, Bool, true, false, List, [], ◌∷◌, ◌++◌, ℤ,
  append_assoc, arith, length, length-append, append_cut, pure, Returns, Returns-pure, Returns-mono,
}
use embedded_client_server_v.Protocol.Bytes.{
  net_bytes, of_net_bytes, of_net_bytes-net_bytes, u32_mod,
}
use embedded_client_server_v.Protocol.Message.{
  Message, frame, press, dark, mismatch, acknowledge, IsAnswer, header, after_id, id_of,
  id_of_bound, encode, encode_parts,
}
use embedded_client_server_v.Posix.{Posix, Laws, milliseconds}
use embedded_client_server_v.Client.Config
use embedded_client_server_v.Client.Desktop.{Desktop, IsLocal}
use embedded_client_server_v.Client.Socket.Receiving.{IsReliable}
use embedded_client_server_v.Client.Socket.Unread.{blind}
use embedded_client_server_v.Client.App.{
  ClientApp, DisplayState, normal, no_light, sensor_error, same, set_state, is_answer,
  receive_image, receive_body, with_frame_id, receive_answer, handle_response,
}
use embedded_client_server_v.Client.App.Showing.{
  picture, Suffices, Ends, Leaves, Shows, read_then, receive_image-Ends,
}

same_eq : (s t : DisplayState) → same s t ≡ true → t ≡ s
same_eq s t h = ground arith

pub is_answer-header : (m : Message) → IsAnswer m → is_answer (header m) ≡ true
is_answer-header (frame id jpeg) h = refl
is_answer-header (press id jpeg) h = refl
is_answer-header (dark id) h = refl
is_answer-header (mismatch id) h = refl
is_answer-header acknowledge h = absurd h

module _ (os : Posix) (desk : Desktop os) (laws : Laws os) (local : IsLocal os laws desk) (fd : ℤ)
    (reliable : Bool) (promise : reliable ≡ true → IsReliable os laws fd) where
  open os use {World}

  -- setState reaches the state and leaves frame, number and connection.
  set_state_fields :
      (s : DisplayState) (a : (ClientApp os desk))
      → let b = set_state os desk s a in
        (b.frame_id ≡ a.frame_id)
        × (b.state ≡ s)
        × (b.frame ≡ a.frame)
        × ((b.client ≡ a.client) × (laws.pending fd b.world ≡ laws.pending fd a.world))
  unfolding set_state
  set_state_fields s a = elim (Bool-cases (same s a.state)) [
    | inl e ↦ rw e (refl, same_eq s a.state e, refl, (refl, refl))
    | inr e ↦ rw e (refl, refl, refl, (refl, laws.now_pending fd a.world))
  ]

  Ends-mono :
      (P Q : (ClientApp os desk) → Type 0)
      → ((b : (ClientApp os desk)) → P b → Q b)
      → (done : Bool) (b : (ClientApp os desk)) → Ends os desk reliable P done b
      → Ends os desk reliable Q done b
  Ends-mono P Q f done b (inl (e, p)) = inl (e, f b p)
  Ends-mono P Q f done b (inr q) = inr q

  image_body-Ends :
      (fuel : ℕ) (saves : Bool) (id : ℕ) (jpeg rest : List ℕ) (a : (ClientApp os desk))
      → a.client.fd ≡ fd
      → length jpeg < u32_mod
      → length jpeg + 4 + milliseconds Config.link_timeout_ms < fuel
      → laws.pending fd a.world ≡ (net_bytes (length jpeg) ++ jpeg) ++ rest
      → Returns
          (receive_image os desk fuel saves (set_state os desk normal (with_frame_id os desk id a)))
          (Ends os desk reliable (Shows os desk laws fd (frame id jpeg) rest a))
  unfolding with_frame_id
  image_body-Ends fuel saves id jpeg rest a e small enough there =
      let old_frame = (set_state os desk normal (record a { frame_id = id })).frame in
      let (number, state, old, leaves) = set_state_fields normal (record a { frame_id = id }) in
      let (client, left) = leaves in
      Returns-mono _ _
        (Ends-mono _ _ λ b shows. (
          shows.0 ∙ number,
          shows.1 ∙ state,
          shows.2 ∙ ap (λ n. picture desk n jpeg old_frame) number ∙ ap (picture desk id jpeg) old,
          (shows.3.0 ∙ client, shows.3.1),
        ))
        (receive_image-Ends os desk laws local fd reliable promise fuel saves jpeg rest
          (set_state os desk normal (record a { frame_id = id })) (ap (λ c. c.fd) client ∙ e) small
          enough (left ∙ there ∙ append_assoc (net_bytes (length jpeg)) jpeg rest))

  state_body-Ends :
      (s : DisplayState) (id : ℕ) (rest : List ℕ) (a : (ClientApp os desk))
      → laws.pending fd a.world ≡ rest
      → Returns (pure true (set_state os desk s (with_frame_id os desk id a))) (
          Ends os desk reliable λ b.
            (b.frame_id ≡ id)
            × (b.state ≡ s)
            × (b.frame ≡ a.frame)
            × Leaves os desk laws fd rest a b)
  unfolding with_frame_id
  state_body-Ends s id rest a there =
      let (number, state, old, leaves) = set_state_fields s (record a { frame_id = id }) in
      Returns-pure _ true _ (inl (refl, (number, state, old, (leaves.0, leaves.1 ∙ there))))

  receive_body-Ends :
      (fuel : ℕ) (m : Message) (rest : List ℕ) (a : (ClientApp os desk))
      → a.client.fd ≡ fd
      → IsAnswer m
      → Suffices fuel m
      → laws.pending fd a.world ≡ after_id m ++ rest
      → Returns
          (receive_body os desk fuel (header m) (with_frame_id os desk (id_of m) a))
          (Ends os desk reliable (Shows os desk laws fd m rest a))
  unfolding receive_body
  receive_body-Ends fuel (frame id jpeg) rest a e h enough there =
      image_body-Ends fuel false id jpeg rest a e h.1
        (omega (arith, length-append (net_bytes (length jpeg)) jpeg)) there
  receive_body-Ends fuel (press id jpeg) rest a e h enough there =
      image_body-Ends fuel true id jpeg rest a e h.1
        (omega (arith, length-append (net_bytes (length jpeg)) jpeg)) there
  receive_body-Ends fuel (dark id) rest a e h enough there =
      state_body-Ends no_light id rest a there
  receive_body-Ends fuel (mismatch id) rest a e h enough there =
      state_body-Ends sensor_error id rest a there
  receive_body-Ends fuel acknowledge rest a e h enough there = absurd h

  pub Shows-world :
      (m : Message) (rest : List ℕ) (a : (ClientApp os desk)) (w : World) (b : (ClientApp os desk))
      → Shows os desk laws fd m rest (record a { world = w }) b
      → Shows os desk laws fd m rest a b
  Shows-world (frame id jpeg) rest a w b s = s
  Shows-world (press id jpeg) rest a w b s = s
  Shows-world (dark id) rest a w b s = s
  Shows-world (mismatch id) rest a w b s = s
  Shows-world acknowledge rest a w b s = s

  receive_answer-Ends :
      (fuel : ℕ) (m : Message) (rest : List ℕ) (a : (ClientApp os desk))
      → a.client.fd ≡ fd
      → IsAnswer m
      → Suffices fuel m
      → laws.pending fd a.world ≡ net_bytes (id_of m) ++ (after_id m ++ rest)
      → Returns
          (receive_answer os desk fuel (header m) a)
          (Ends os desk reliable (Shows os desk laws fd m rest a))
  unfolding receive_answer net_bytes
  receive_answer-Ends fuel m rest a e h enough there =
      read_then os desk laws local fd reliable promise (λ _. tt) (blind os) fuel a
        (net_bytes (id_of m)) (after_id m ++ rest) (Shows os desk laws fd m rest a)
        (λ x b. receive_body os desk fuel (header m) (with_frame_id os desk (of_net_bytes x) b)) e
        (omega arith) there
        (λ w left _. rw (of_net_bytes-net_bytes (id_of m) (id_of_bound m h)) (
          Returns-mono _ _ (Ends-mono _ _ (Shows-world m rest a w))
            (receive_body-Ends fuel m rest (record a { world = w }) e h enough left)))

  -- The header byte of an answer, whose number and size are below 2^32, has been read, and the rest
  -- of that answer, then `rest`, is what the connection delivers next. With fuel above the rest's
  -- length plus the nanoseconds of the link's delay plus 4, handleResponse returns. If it succeeds
  -- the window's state, the image, and the number are those of the message (an image that does not
  -- decode leaves the old one), the client's socket is the same, and exactly `rest` is left to be
  -- read. It fails only on a connection that is not reliable.
  pub handle_response-Ends :
      (fuel : ℕ) (m : Message) (rest : List ℕ) (a : (ClientApp os desk))
      → a.client.fd ≡ fd
      → IsAnswer m
      → Suffices fuel m
      → header m ∷ laws.pending fd a.world ≡ encode m ++ rest
      → Returns
          (handle_response os desk fuel (header m) a)
          (Ends os desk reliable (Shows os desk laws fd m rest a))
  unfolding handle_response
  handle_response-Ends fuel m rest a e h enough there =
      rw (is_answer-header m h, handle_response)
        (receive_answer-Ends fuel m rest a e h enough (
          (append_cut (header m ∷ []) (laws.pending fd a.world) (header m ∷ [])
            ((net_bytes (id_of m) ++ after_id m) ++ rest) refl
            (there ∙ ap (λ x. x ++ rest) (encode_parts m h))).1
          ∙ append_assoc (net_bytes (id_of m)) (after_id m) rest))
