-- ===== src/Server/Camera.antt =====
-- Serveur/src/camera.cpp and Serveur/inc/camera.h: opening and setting up the camera, one capture.
pub mod Images
use embedded_client_server_v.Prelude.{ℕ, Bool, not, ◌||◌, List, Option, none, some, if◌then◌else◌}
use embedded_client_server_v.Posix.{Posix}
use embedded_client_server_v.Server.Hardware.{Hardware, fourcc_code, frame_width, frame_height, fps}
use embedded_client_server_v.Server.Config

module _ (os : Posix) (hw : Hardware os) where
  open os use {World}
  open hw use {Double, Mat}

  pub record Capture : Type 0 where
    pub jpeg : List ℕ
    pub brightness : Double

  -- The constructor: the device is set up if it could be opened.
  unfoldable pub set_up : World → World
  set_up w = hw.set_property fps (hw.of_ℕ Config.camera_fps) (
      hw.set_property frame_height (hw.of_ℕ Config.frame_height) (
        hw.set_property frame_width (hw.of_ℕ Config.frame_width)
          (hw.set_property fourcc_code (hw.fourcc b'M' b'J' b'P' b'G') w)))

  unfoldable pub new : ℕ → World → World
  unfolding set_up
  new device w = let w' = hw.open_device device w in if hw.is_opened w' then set_up w' else w'

  abbrev pub is_opened : World → Bool
  is_opened = hw.is_opened

  -- The mean over all channels of all pixels.
  unfoldable pub brightness_of : Mat → Double
  brightness_of frame =
      let channel_means = hw.mean frame in
      hw.divide (hw.add (hw.add channel_means.0 channel_means.1) channel_means.2) (hw.of_ℕ 3)

  encoded : Mat → Option (List ℕ) → Option Capture
  encoded frame none = none
  encoded frame (some jpeg) = some (record { jpeg = jpeg; brightness = brightness_of frame })

  unfoldable pub capture_jpeg : World → Option Capture × World
  unfolding encoded
  capture_jpeg w =
      let (r, w') = hw.read w in
      if not r.0 || hw.is_empty r.1 then (none, w') else (encoded r.1 (hw.imencode r.1), w')
