-- ===== src/Server/Config.antt =====
-- Serveur/inc/config.h. The brightness threshold, a double in the source, is a whole number there.
use Prim.Native.String.{String}
use embedded_client_server_v.Prelude.{ℕ, Bool, true, false, ℤ, pos}

abbrev pub recv_timeout_ms : ℕ
recv_timeout_ms = 60

abbrev pub client_idle_timeout_ms : ℕ
client_idle_timeout_ms = 1000

abbrev pub frame_width : ℕ
frame_width = 800

abbrev pub frame_height : ℕ
frame_height = 600

abbrev pub camera_fps : ℕ
camera_fps = 30

abbrev pub gpio_chip : String
gpio_chip = "gpiochip1"

abbrev pub gpio_line : ℕ
gpio_line = 92

abbrev pub gpio_consumer : String
gpio_consumer = "ele4205-bouton"

abbrev pub button_active_low : Bool
button_active_low = true

abbrev pub button_poll_us : ℕ
button_poll_us = 1000

abbrev pub button_debounce_ms : ℕ
button_debounce_ms = 200

abbrev pub light_sensor_path : String
light_sensor_path = "/sys/bus/iio/devices/iio:device0/in_voltage0_raw"

abbrev pub light_raw_threshold : ℤ
light_raw_threshold = pos 968

abbrev pub light_raw_rises : Bool
light_raw_rises = false

abbrev pub image_dark_threshold : ℕ
image_dark_threshold = 40

abbrev pub state_hold_ms : ℕ
state_hold_ms = 200
