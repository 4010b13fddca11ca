-- ===== src/System.antt =====
-- Serveur/src/server_app.cpp and Client/src/client_app.cpp together: the answer that one program
-- sends, read by the other.
pub mod Timing
pub mod Press
pub mod Session
mod Examples
use embedded_client_server_v.Prelude.{
  ℕ, ◌+◌, ◌<◌, ◌≡◌, refl, sym, ap, ◌∙◌, Bool, true, false, List, ◌++◌, ℤ, some, none, subst, arith,
  length, length-append, append_cut, Returns, Returns_at,
}
use embedded_client_server_v.Protocol.Bytes.{net_bytes, u32_mod}
use embedded_client_server_v.Protocol.Message.{
  Message, frame, press, dark, mismatch, acknowledge, IsAnswer, encode, encode_parts, after_id,
  id_of,
}
use embedded_client_server_v.Posix.{Posix, Laws, milliseconds}
use embedded_client_server_v.Server.Hardware.{Hardware}
use embedded_client_server_v.Server.Hardware
use embedded_client_server_v.Server.Camera.{Capture, capture_jpeg}
use embedded_client_server_v.Server.Light.{SceneState, normal, no_light, sensor_error, update}
use embedded_client_server_v.Server.App.{ServerApp, handle_get_frame}
use embedded_client_server_v.Server.App.Answers.{answer, Answers, handle_get_frame-Answers}
use embedded_client_server_v.Client.Config
use embedded_client_server_v.Client.Desktop.{Desktop}
use embedded_client_server_v.Client.Desktop
use embedded_client_server_v.Client.Socket.Receiving.{IsReliable}
use embedded_client_server_v.Client.App.{ClientApp, exchange_frame}
use embedded_client_server_v.Client.App.Showing.{Suffices}
use embedded_client_server_v.Client.App.Exchange.{Exchanges, exchange_frame-Exchanges}

pub answer-IsAnswer :
    (state : SceneState) (pressed : Bool) (id : ℕ) (jpeg : List ℕ)
    → id < u32_mod
    → length jpeg < u32_mod
    → IsAnswer (answer state pressed id jpeg)
answer-IsAnswer normal true id jpeg h k = (omega arith, k)
answer-IsAnswer normal false id jpeg h k = (omega arith, k)
answer-IsAnswer no_light pressed id jpeg h k = h
answer-IsAnswer sensor_error pressed id jpeg h k = h

pub enough_for :
    (fuel : ℕ) (m : Message)
    → IsAnswer m
    → length (encode m) + milliseconds Config.link_timeout_ms < fuel
    → Suffices fuel m
unfolding net_bytes
enough_for fuel m h enough = omega (arith, ap length (encode_parts m h))

module _ (os : Posix) (hw : Hardware os) (laws : Laws os)
    (local : Hardware.IsLocal os laws hw) where
  -- The bytes that a successful handleGetFrame has sent are those of its answer.
  pub sent_answer :
      (a b : ServerApp os hw) (capture : Capture os hw) (w : os.World) (x : List ℕ)
      → capture_jpeg os hw a.world ≡ (some capture, w)
      → handle_get_frame os hw a ≡ some (true, b)
      → laws.sent a.server.client_fd b.world ≡ laws.sent a.server.client_fd a.world ++ x
      → x
        ≡ encode (
            answer
              (update os hw a.light capture.brightness w).0.1
              a.button.pressed
              a.frame_id
              capture.jpeg)
  sent_answer a b capture w x captured ran left =
      let ((light, state), w') = update os hw a.light capture.brightness w in
      let m = answer state a.button.pressed a.frame_id capture.jpeg in
      let (sent, _) =
        subst (λ r. Answers os hw laws a r true b) captured
          (Returns_at _ true b (handle_get_frame-Answers os hw laws local a) ran) in
      let before = laws.sent a.server.client_fd a.world in
      (append_cut before x before (encode m) refl (sym left ∙ sent)).1

module _ (os : Posix) (hw : Hardware os) (laws : Laws os) (local : Hardware.IsLocal os laws hw)
    (client_os : Posix) (desk : Desktop client_os) (client_laws : Laws client_os)
    (client_local : Desktop.IsLocal client_os client_laws desk) (fd : ℤ)
    (reliable : IsReliable client_os client_laws fd) where
  -- A successful handleGetFrame after a successful capture, with the last number and the size of
  -- the image below 2^32, has sent the bytes x to the client, whose reliable connection delivers
  -- them, then `rest`. With fuel above the length of x plus the nanoseconds of the link's delay,
  -- the client's exchangeFrame returns. If its request leaves it succeeds: for a normal scene the
  -- client is in the normal state, has the server's new number, and the image shown is the one
  -- captured, if it decodes; for another scene it is in that scene's state, with the old number
  -- and its old image. Exactly `rest` is left to be read. If the request does not leave it fails.
  pub exchange_frame-handle_get_frame :
      (fuel : ℕ) (a b : ServerApp os hw) (capture : Capture os hw) (w : os.World)
      (c : ClientApp client_os desk) (x rest : List ℕ)
      → a.frame_id < u32_mod
      → length capture.jpeg < u32_mod
      → capture_jpeg os hw a.world ≡ (some capture, w)
      → handle_get_frame os hw a ≡ some (true, b)
      → laws.sent a.server.client_fd b.world ≡ laws.sent a.server.client_fd a.world ++ x
      → c.client.fd ≡ fd
      → client_laws.pending fd c.world ≡ x ++ rest
      → length x + milliseconds Config.link_timeout_ms < fuel
      → let ((_, state), _) = update os hw a.light capture.brightness w in
        Returns (exchange_frame client_os desk fuel c) (
          Exchanges client_os desk client_laws fd
            (answer state a.button.pressed a.frame_id capture.jpeg)
            rest
            c)
  exchange_frame-handle_get_frame fuel a b capture w c x rest small fits captured ran left e there
        enough =
      let ((light, state), w') = update os hw a.light capture.brightness w in
      let m = answer state a.button.pressed a.frame_id capture.jpeg in
      let same = sent_answer os hw laws local a b capture w x captured ran left in
      let valid = answer-IsAnswer state a.button.pressed a.frame_id capture.jpeg small fits in
      exchange_frame-Exchanges client_os desk client_laws client_local fd reliable fuel m rest c e
        valid (enough_for fuel m valid (omega (arith, ap length same, enough)))
        (there ∙ ap (λ y. y ++ rest) same)
