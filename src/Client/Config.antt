-- ===== src/Client/Config.antt =====
-- Client/inc/config.h.
use Prim.Native.String.{String}
use embedded_client_server_v.Prelude.{ℕ}

abbrev pub server_ip : String
server_ip = "192.168.7.2"

abbrev pub recv_timeout_ms : ℕ
recv_timeout_ms = 60

abbrev pub link_timeout_ms : ℕ
link_timeout_ms = 3000

abbrev pub reconnect_period_ms : ℕ
reconnect_period_ms = 500

abbrev pub connect_timeout_ms : ℕ
connect_timeout_ms = 400

abbrev pub ui_poll_ms : ℕ
ui_poll_ms = 30

abbrev pub cycle_period_ms : ℕ
cycle_period_ms = 1

abbrev pub window_name : String
window_name = "Surveillance vidéo"

abbrev pub frame_width : ℕ
frame_width = 800

abbrev pub frame_height : ℕ
frame_height = 600

abbrev pub image_dir : String
image_dir = "images"

abbrev pub image_prefix : String
image_prefix = "capture_frame_"

abbrev pub image_extension : String
image_extension = ".jpg"

abbrev pub no_light_message : String
no_light_message = "Lumiere insuffisante"

abbrev pub sensor_error_message : String
sensor_error_message = "Capteur errone"

abbrev pub connection_lost_message : String
connection_lost_message = "CONNEXION PERDUE"

abbrev pub shutdown_timeout_ms : ℕ
shutdown_timeout_ms = 2000
