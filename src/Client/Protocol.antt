-- ===== src/Client/Protocol.antt =====
-- Client/inc/protocol.h: the client's copy of the identifiers of the messages.
use embedded_client_server_v.Prelude.{ℕ}

abbrev pub port : ℕ
port = 4099

abbrev pub get_frame : ℕ
get_frame = 1

abbrev pub stop : ℕ
stop = 2

abbrev pub frame_hdr : ℕ
frame_hdr = 101

abbrev pub stop_ack : ℕ
stop_ack = 102

abbrev pub button_press : ℕ
button_press = 200

abbrev pub no_light : ℕ
no_light = 201

abbrev pub sensor_error : ℕ
sensor_error = 202
