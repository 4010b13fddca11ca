-- ===== src/Server/App/Answers.antt =====
-- handleGetFrame against the protocol: which message answers a GET_FRAME.
use embedded_client_server_v.Prelude.{
  ℕ, ◌≡◌, refl, ◌∙◌, Bool, true, false, List, Option, none, some, ℤ, arith, subst, if◌then◌else◌,
  Returns, Returns-pure, Returns-mono,
}
use embedded_client_server_v.Protocol.Message.{
  Message, frame, press, dark, mismatch, encode, with_image,
}
use embedded_client_server_v.Posix.{Posix, Laws}
use embedded_client_server_v.Server.Hardware.{Hardware, IsLocal}
use embedded_client_server_v.Server.Camera.{Capture, capture_jpeg}
use embedded_client_server_v.Server.Button.{take_press}
use embedded_client_server_v.Server.Light.{
  LightMonitor, SceneState, normal, no_light, sensor_error, classify, track, adopt, update,
}
use embedded_client_server_v.Server.Socket.Sending.{Transmits}
use embedded_client_server_v.Server.App.{
  ServerApp, next_id, send_image, send_state, answer_state, answer_capture, handle_get_frame,
}
use embedded_client_server_v.Server.App.Sending.{Sends, send_header-Sends, send_frame-Sends}

-- The message for a scene, a flag of the button, the number of the last image and an image.
abbrev pub answer : SceneState → Bool → ℕ → List ℕ → Message
answer normal true id jpeg = press (next_id id) jpeg
answer normal false id jpeg = frame (next_id id) jpeg
answer no_light pressed id jpeg = dark id
answer sensor_error pressed id jpeg = mismatch id

-- Images alone are counted.
abbrev pub id_after : SceneState → ℕ → ℕ
id_after normal id = next_id id
id_after no_light id = id
id_after sensor_error id = id

image_bytes :
    (p : Bool) (id : ℕ) (jpeg : List ℕ)
    → with_image (if p then 200 else 101) (next_id id) jpeg ≡ encode (answer normal p id jpeg)
unfolding encode with_image
image_bytes true id jpeg = refl
image_bytes false id jpeg = refl

module _ (os : Posix) (hw : Hardware os) (laws : Laws os) where
  -- A message for the app, and the app after it.
  abbrev pub Answered :
      ServerApp os hw → LightMonitor os hw → SceneState → List ℕ → Bool → ServerApp os hw → Type 0
  Answered a light state jpeg done b =
      Transmits (laws.sent a.server.client_fd a.world)
        (encode (answer state a.button.pressed a.frame_id jpeg)) done
        (laws.sent a.server.client_fd b.world)
      × (b ≡ record a {
        button = record a.button { pressed = false };
        light = light;
        frame_id = id_after state a.frame_id;
        world = b.world;
      })

  -- What handleGetFrame does after a capture, or after its failure.
  abbrev pub Answers :
      ServerApp os hw → Option (Capture os hw) × os.World → Bool → ServerApp os hw → Type 0
  Answers a (none, w) done b =
      (done ≡ true)
      × (b ≡ record a { world = w })
      × (laws.sent a.server.client_fd b.world ≡ laws.sent a.server.client_fd a.world)
  Answers a (some c, w) done b =
      let ((light, state), _) = update os hw a.light c.brightness w in
      Answered a light state c.jpeg done b

module _ (os : Posix) (hw : Hardware os) (laws : Laws os) (local : IsLocal os laws hw) where
  open os use {World}

  capture_jpeg_sent : (fd : ℤ) (w : World) → laws.sent fd (capture_jpeg os hw w).1 ≡ laws.sent fd w
  unfolding capture_jpeg
  capture_jpeg_sent fd w = ground (arith, local.read_sent fd w)

  track_sent :
      (fd : ℤ) (m : LightMonitor os hw) (x : SceneState) (w : World)
      → laws.sent fd (track os hw m x w).1 ≡ laws.sent fd w
  unfolding track
  track_sent fd m x w = ground (arith, laws.now_sent fd w)

  adopt_sent :
      (fd : ℤ) (m : LightMonitor os hw) (w : World)
      → laws.sent fd (adopt os hw m w).1 ≡ laws.sent fd w
  unfolding adopt
  adopt_sent fd m w = ground (arith, laws.now_sent fd w)

  update_sent :
      (fd : ℤ) (m : LightMonitor os hw) (x : hw.Double) (w : World)
      → laws.sent fd (update os hw m x w).1 ≡ laws.sent fd w
  unfolding update classify
  update_sent fd m x w =
      adopt_sent fd _ _ ∙ track_sent fd m _ _ ∙ local.read_number_sent fd m.path w

  -- What a transmission of the answer's bytes by a prepared app says of the answer.
  Sends-Answered :
      (a : ServerApp os hw) (light : LightMonitor os hw) (state : SceneState) (jpeg bytes : List ℕ)
      (r : Option (Bool × ServerApp os hw))
      → bytes ≡ encode (answer state a.button.pressed a.frame_id jpeg)
      → Returns r (
          Sends os hw laws a.server.client_fd
            (record a {
              button = record a.button { pressed = false };
              light = light;
              frame_id = id_after state a.frame_id;
            })
            bytes)
      → Returns r (Answered os hw laws a light state jpeg)
  Sends-Answered a light state jpeg bytes r e = Returns-mono _ _ λ done b s. (
    subst
        (λ x.
          Transmits (laws.sent a.server.client_fd a.world) x done
            (laws.sent a.server.client_fd b.world))
        e s.transmits,
    s.keeps,
  )

  answer_state-Answered :
      (a : ServerApp os hw) (state : SceneState) (c : Capture os hw)
      → Returns (answer_state os hw state c a) (Answered os hw laws a a.light state c.jpeg)
  unfolding answer_state send_image send_state take_press encode
  answer_state-Answered a normal c =
      Sends-Answered a a.light normal c.jpeg _ _ (image_bytes a.button.pressed a.frame_id c.jpeg)
        (send_frame-Sends os hw laws _ c.jpeg _)
  answer_state-Answered a no_light c =
      Sends-Answered a a.light no_light c.jpeg _ _ refl (send_header-Sends os hw laws 201 _)
  answer_state-Answered a sensor_error c =
      Sends-Answered a a.light sensor_error c.jpeg _ _ refl (send_header-Sends os hw laws 202 _)

  answer_capture-Answers :
      (a : ServerApp os hw) (r : Option (Capture os hw)) (w : World)
      → laws.sent a.server.client_fd w ≡ laws.sent a.server.client_fd a.world
      → Returns (answer_capture os hw r (record a { world = w })) (Answers os hw laws a (r, w))
  unfolding answer_capture
  answer_capture-Answers a none w e = Returns-pure _ true (record a { world = w }) (refl, refl, e)
  answer_capture-Answers a (some c) w e =
      let ((light, state), w') = update os hw a.light c.brightness w in
      Returns-mono _ _
        (λ done b s. (
          subst
              (λ x.
                Transmits x (encode (answer state a.button.pressed a.frame_id c.jpeg)) done
                  (laws.sent a.server.client_fd b.world))
              (update_sent a.server.client_fd a.light c.brightness w ∙ e) s.0,
          s.1,
        ))
        (answer_state-Answered (record a { light = light; world = w' }) state c)

  -- handleGetFrame always returns. If the capture fails it succeeds without sending anything, and
  -- changes only the world: a pending press stays pending. Otherwise the scene's new state s is
  -- that of the light monitor's update, and the bytes on the client's connection are those of the
  -- message that protocol.h lays out for s: NO_LIGHT or SENSOR_ERROR with the unchanged number of
  -- the last image; for a normal scene the image behind BUTTON_PRESS if a press was pending, else
  -- FRAME_HDR, with that number plus 1 modulo 2^32. All of them if it succeeds, a proper beginning
  -- if it fails. In both cases the pending press is gone, the number sent is the number kept, and
  -- server, time of the last command and the rest of the button are unchanged.
  pub handle_get_frame-Answers :
      (a : ServerApp os hw)
      → Returns (handle_get_frame os hw a) (Answers os hw laws a (capture_jpeg os hw a.world))
  unfolding handle_get_frame
  handle_get_frame-Answers a =
      answer_capture-Answers a (capture_jpeg os hw a.world).0 (capture_jpeg os hw a.world).1
        (capture_jpeg_sent a.server.client_fd a.world)
