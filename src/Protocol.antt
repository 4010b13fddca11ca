-- ===== src/Protocol.antt =====
-- Serveur/inc/protocol.h: the identifiers of the messages. Its children are the byte order of
-- numbers, the messages as the file describes them, and sequences of them. The client has a copy,
-- Client/Protocol.
pub mod Bytes
pub mod Message
pub mod Stream
use embedded_client_server_v.Prelude.{ℕ}

abbrev pub port : ℕ
port = 4099

abbrev pub get_frame : ℕ
get_frame = 1

abbrev pub stop : ℕ
stop = 2

abbrev pub frame_hdr : ℕ
frame_hdr = 101

abbrev pub stop_ack : ℕ
stop_ack = 102

abbrev pub button_press : ℕ
button_press = 200

abbrev pub no_light : ℕ
no_light = 201

abbrev pub sensor_error : ℕ
sensor_error = 202
