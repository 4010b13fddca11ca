-- ===== src/Server/Main/Parts.antt =====
-- The members of the server's app that are not sockets open and close none.
use Prim.Native.String.{String}
use embedded_client_server_v.Prelude.{ℕ, ◌≡◌, ◌∙◌, Bool, true, false, if◌then◌else◌, ℤ, arith}
use embedded_client_server_v.Posix.{Posix, Descriptors}
use embedded_client_server_v.Server.Hardware.{Hardware, LeavesSockets}
use embedded_client_server_v.Server.Config
use embedded_client_server_v.Server.Camera
use embedded_client_server_v.Server.Camera.{set_up}
use embedded_client_server_v.Server.Button
use embedded_client_server_v.Server.Button.{
  ButtonMonitor, initial, find_line, request_line, release_line, close_chip,
}
use embedded_client_server_v.Server.Light

module _ (os : Posix) (hw : Hardware os) (d : Descriptors os) (quiet : LeavesSockets os d hw) where
  open os use {World}

  set_up_held : (w : World) → d.held (set_up os hw w) ≡ d.held w
  unfolding set_up
  set_up_held w =
      quiet.set_property_held _ _ _
      ∙ quiet.set_property_held _ _ _
      ∙ quiet.set_property_held _ _ _
      ∙ quiet.set_property_held _ _ _

  pub camera_held : (device : ℕ) (w : World) → d.held (Camera.new os hw device w) ≡ d.held w
  unfolding Camera.new
  camera_held device w =
      ground (arith, set_up_held (hw.open_device device w), quiet.open_device_held device w)

  request_line_held : (b : ButtonMonitor) (w : World) → d.held (request_line os hw b w).1 ≡ d.held w
  unfolding request_line
  request_line_held b w =
      let consumer = Config.gpio_consumer in
      ground (
        arith,
        quiet.request_held consumer w,
        quiet.start_worker_held (hw.line_request_input consumer w).1,
      )

  find_line_held :
      (b : ButtonMonitor) (offset : ℕ) (w : World)
      → d.held (find_line os hw b offset w).1 ≡ d.held w
  unfolding find_line
  find_line_held b offset w =
      ground
        (arith, quiet.get_line_held offset w, request_line_held b (hw.chip_get_line offset w).1)

  pub button_held :
      (chip : String) (offset : ℕ) (low : Bool) (debounce_ms poll_us : ℕ) (w : World)
      → d.held (Button.new os hw chip offset low debounce_ms poll_us w).1 ≡ d.held w
  unfolding Button.new
  button_held chip offset low debounce_ms poll_us w =
      let w' = (hw.chip_open_by_name chip w).1 in
      let b = record (initial os hw low debounce_ms poll_us) { has_chip = true } in
      ground (arith, quiet.chip_open_held chip w, find_line_held b offset w')

  pub light_held :
      (path : String) (raw : ℤ) (rises : Bool) (image : hw.Double) (hold_ms : ℕ) (w : World)
      → d.held (Light.new os hw path raw rises image hold_ms w).1 ≡ d.held w
  unfolding Light.new
  light_held path raw rises image hold_ms w = quiet.read_number_held path _ ∙ d.now_held w

  pub button_end_held :
      (b : ButtonMonitor) (w : World) → d.held (Button.shut_down os hw b w) ≡ d.held w
  unfolding Button.shut_down release_line close_chip
  button_end_held b w =
      let joined = if b.has_line then hw.join_worker false w else w in
      let released = if b.has_line then hw.line_release joined else joined in
      ground (
        arith,
        quiet.join_worker_held w,
        quiet.line_release_held joined,
        quiet.chip_close_held released,
      )
