-- ===== src/Client/App/Answers.antt =====
-- Client/src/client_app.cpp from exchangeFrame to receiveImage: one request and what the client makes
-- of the answer.
use embedded_client_server_v.Prelude.{
  ℕ, ◌+◌, Bool, true, false, ◌||◌, ◌&&◌, List, [], ◌==◌, ltb, if◌then◌else◌, M, pure, ◌>>=◌,
}
use embedded_client_server_v.Client.Protocol
use embedded_client_server_v.Protocol.Bytes.{of_net_bytes}
use embedded_client_server_v.Posix.{Posix, milliseconds}
use embedded_client_server_v.Client.Config
use embedded_client_server_v.Client.Desktop.{Desktop}
use embedded_client_server_v.Client.Store.{save}
use embedded_client_server_v.Client.Socket.{TcpClient, RecvResult, received, timeout, disconnected}
use embedded_client_server_v.Client.Socket
use embedded_client_server_v.Client.App.State.{
  ClientApp, draw_frame_id, on_world, set_state, normal, no_light, sensor_error,
}

abbrev pub is_ok : RecvResult → Bool
is_ok received = true
is_ok timeout = false
is_ok disconnected = false

-- `response` is one of the four headers that a frame number follows.
abbrev pub is_answer : ℕ → Bool
is_answer response =
    response == Protocol.frame_hdr
    || (response == Protocol.button_press
        || (response == Protocol.no_light || response == Protocol.sensor_error))

module _ (os : Posix) (desk : Desktop os) where
  open os use {World}

  -- The image that receiveImage has read, from its save on.
  unfoldable pub keep_image : Bool → List ℕ → ℕ → M (ClientApp os desk) Bool
  keep_image saves jpeg jpeg_size a =
      let (_, saved) = save os desk a.store a.frame_id jpeg a.world in
      let w = if saves && ltb 0 jpeg_size then saved else a.world in
      let decoded = desk.imdecode jpeg in
      let frame =
        if desk.is_empty decoded then a.frame else draw_frame_id os desk decoded a.frame_id in
      pure true (record a { frame = frame; world = w })

  -- The bytes of the image, if there are any.
  unfoldable pub receive_bytes : ℕ → ℕ → M (ClientApp os desk) (RecvResult × List ℕ)
  receive_bytes fuel size a = elim (ltb 0 size) [
    | true ↦ on_world os desk (Socket.receive_all os fuel a.client size Config.link_timeout_ms) a
    | false ↦ pure (received, []) a
  ]

  unfoldable pub receive_content : ℕ → Bool → ℕ → M (ClientApp os desk) Bool
  receive_content fuel saves jpeg_size = do
    (result, jpeg) ← receive_bytes fuel jpeg_size
    if is_ok result then keep_image saves jpeg jpeg_size else pure false

  unfoldable pub receive_image : ℕ → Bool → M (ClientApp os desk) Bool
  receive_image fuel saves a =
      (do
        (result, bytes) ←
            on_world os desk (Socket.receive_all os fuel a.client 4 Config.link_timeout_ms)
        if is_ok result then receive_content fuel saves (of_net_bytes bytes) else pure false)
        a

  -- The second `switch` of handleResponse.
  unfoldable pub receive_body : ℕ → ℕ → M (ClientApp os desk) Bool
  receive_body fuel response a =
      if response == Protocol.frame_hdr
      then receive_image fuel false (set_state os desk normal a)
      else if response == Protocol.button_press
      then receive_image fuel true (set_state os desk normal a)
      else if response == Protocol.no_light
      then pure true (set_state os desk no_light a)
      else pure true (set_state os desk sensor_error a)

  unfoldable pub with_frame_id : ℕ → ClientApp os desk → ClientApp os desk
  with_frame_id id a = record a { frame_id = id }

  unfoldable pub receive_answer : ℕ → ℕ → M (ClientApp os desk) Bool
  receive_answer fuel response a =
      (do
        (result, bytes) ←
            on_world os desk (Socket.receive_all os fuel a.client 4 Config.link_timeout_ms)
        let body = λ (b : ClientApp os desk).
            receive_body fuel response (with_frame_id (of_net_bytes bytes) b)
        if is_ok result then body else pure false)
        a

  unfoldable pub handle_response : ℕ → ℕ → M (ClientApp os desk) Bool
  handle_response fuel response =
      if is_answer response then receive_answer fuel response else pure true

  unfoldable pub after_receive : ℕ → RecvResult → ℕ → M (ClientApp os desk) Bool
  after_receive fuel timeout response a =
      let (t, w) = os.now a.world in
      pure (ltb t (a.last_response + milliseconds Config.link_timeout_ms)) (record a { world = w })
  after_receive fuel disconnected response a = pure false a
  after_receive fuel received response a =
      let (t, w) = os.now a.world in
      handle_response fuel response (record a { last_response = t; world = w })

  unfoldable pub exchange_frame : ℕ → M (ClientApp os desk) Bool
  exchange_frame fuel a =
      let (sent, w) = Socket.send os a.client Protocol.get_frame a.world in
      let ((result, response), w') = Socket.receive os a.client 0 w in
      elim sent [
        | false ↦ pure false (record a { world = w })
        | true ↦ after_receive fuel result response (record a { world = w' })
      ]
