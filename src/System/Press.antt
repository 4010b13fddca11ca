-- ===== src/System/Press.antt =====
-- Both programs together: what becomes of a press of the button.
use embedded_client_server_v.Prelude.{
  ℕ, ◌+◌, ◌<◌, ◌≡◌, ap, ◌∙◌, ◌⊎◌, inl, inr, Bool, true, false, List, [], ◌∷◌, ◌++◌, ℤ, some, arith,
  length, Returns, Returns-mono,
}
use embedded_client_server_v.Protocol.Bytes.{u32_mod}
use embedded_client_server_v.Protocol.Message.{press, encode}
use embedded_client_server_v.Posix.{Posix, Laws, milliseconds}
use embedded_client_server_v.Server.Hardware.{Hardware}
use embedded_client_server_v.Server.Hardware
use embedded_client_server_v.Server.Camera.{Capture, capture_jpeg}
use embedded_client_server_v.Server.Light.{normal, update}
use embedded_client_server_v.Server.App.{ServerApp, next_id, handle_get_frame}
use embedded_client_server_v.Server.App.Answers.{answer}
use embedded_client_server_v.Client.Config
use embedded_client_server_v.Client.Protocol
use embedded_client_server_v.Client.Desktop.{Desktop}
use embedded_client_server_v.Client.Desktop
use embedded_client_server_v.Client.Socket.{send}
use embedded_client_server_v.Client.Socket.Receiving.{IsReliable}
use embedded_client_server_v.Client.Store.{ImageStore, image_path}
use embedded_client_server_v.Client.Store.Files.{FileSystem, HasRoom, Saved}
use embedded_client_server_v.Client.App.{ClientApp, exchange_frame}
use embedded_client_server_v.Client.App.Saving.{Contents}
use embedded_client_server_v.Client.App.Keeping.{Files, exchange_frame-Keeps}
use embedded_client_server_v.System.{sent_answer, answer-IsAnswer, enough_for}

Files-Saved :
    (store : ImageStore) (id : ℕ) (jpeg : List ℕ) (before after : Contents)
    → 0 < length jpeg
    → Files store (press id jpeg) before after
    → Saved (image_path store id) jpeg before after
Files-Saved store id [] before after h f = absurd (omega arith)
Files-Saved store id (j ∷ js) before after h f = f

module _ (os : Posix) (desk : Desktop os) (disk : FileSystem os desk) (store : ImageStore) where
  -- What the press has come to at the client.
  abbrev pub Delivered : ℕ → List ℕ → ClientApp os desk → Bool → ClientApp os desk → Type 0
  Delivered id jpeg c done d =
      let asked = (send os c.client Protocol.get_frame c.world).0 in
      ((asked ≡ true)
        × (done ≡ true)
        × Saved (image_path store id) jpeg (disk.files c.world) (disk.files d.world))
      ⊎ ((asked ≡ false) × (done ≡ false) × (disk.files d.world ≡ disk.files c.world))

module _ (os : Posix) (hw : Hardware os) (laws : Laws os) (local : Hardware.IsLocal os laws hw)
    (client_os : Posix) (desk : Desktop client_os) (client_laws : Laws client_os)
    (client_local : Desktop.IsLocal client_os client_laws desk) (fd : ℤ)
    (reliable : IsReliable client_os client_laws fd) (disk : FileSystem client_os desk)
    (store : ImageStore) (room : HasRoom client_os desk store) where
  -- A press is pending and the scene is normal when a handleGetFrame succeeds after a successful
  -- capture, with the last number below 2^32 and an image of at least a byte and below 2^32 bytes.
  -- The bytes that it has sent are what the client's reliable connection delivers, then `rest`.
  -- With fuel above their length plus the nanoseconds of the link's delay, and a directory of
  -- images that can be written, the client's exchangeFrame returns. If its request leaves it
  -- succeeds, and the file that is named after the server's new number holds exactly the bytes of
  -- the image captured; no other file has changed. If the request does not leave it fails and no
  -- file has changed.
  pub exchange_frame-Delivered :
      (fuel : ℕ) (a b : ServerApp os hw) (capture : Capture os hw) (w : os.World)
      (c : ClientApp client_os desk) (x rest : List ℕ)
      → a.frame_id < u32_mod
      → 0 < length capture.jpeg
      → length capture.jpeg < u32_mod
      → a.button.pressed ≡ true
      → capture_jpeg os hw a.world ≡ (some capture, w)
      → (update os hw a.light capture.brightness w).0.1 ≡ normal
      → handle_get_frame os hw a ≡ some (true, b)
      → laws.sent a.server.client_fd b.world ≡ laws.sent a.server.client_fd a.world ++ x
      → c.client.fd ≡ fd
      → c.store ≡ store
      → client_laws.pending fd c.world ≡ x ++ rest
      → length x + milliseconds Config.link_timeout_ms < fuel
      → Returns
          (exchange_frame client_os desk fuel c)
          (Delivered client_os desk disk store (next_id a.frame_id) capture.jpeg c)
  exchange_frame-Delivered fuel a b capture w c x rest small some_bytes fits pressed captured bright
        ran left e s there enough =
      let m = press (next_id a.frame_id) capture.jpeg in
      let same =
        sent_answer os hw laws local a b capture w x captured ran left
        ∙ ap (λ state. encode (answer state a.button.pressed a.frame_id capture.jpeg)) bright
        ∙ ap (λ p. encode (answer normal p a.frame_id capture.jpeg)) pressed in
      let valid = answer-IsAnswer normal true a.frame_id capture.jpeg small fits in
      Returns-mono _ _
        (λ done d keeps. elim keeps [
          | inl (asked, ok, files) ↦
              inl (
                asked,
                ok,
                Files-Saved store (next_id a.frame_id) capture.jpeg _ _ some_bytes files,
              )
          | inr failed ↦ inr failed
        ])
        (exchange_frame-Keeps client_os desk client_laws client_local fd reliable disk store room
          fuel m rest c e s valid (enough_for fuel m valid (omega (arith, ap length same, enough)))
          (there ∙ ap (λ y. y ++ rest) same))
