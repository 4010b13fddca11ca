-- ===== src/Server/App/Examples.antt =====
-- The theorems on whole sessions of the server at concrete inputs.
use mathlib.Core.Bool.{xor}
use embedded_client_server_v.Prelude.{◌%◌, ◌≡◌, refl, true, false, [], ◌∷◌, some, pos}
use embedded_client_server_v.Posix.{script, script_laws, milliseconds}
use embedded_client_server_v.Server.Hardware.{Hardware, IsLocal}
use embedded_client_server_v.Server.Camera.{capture_jpeg, brightness_of}
use embedded_client_server_v.Protocol.Bytes.{net_bytes}
use embedded_client_server_v.Server.Socket.{TcpServer, send_all}
use embedded_client_server_v.Server.Light.{
  LightMonitor, normal, update, track, adopt, classify, judge, sensor_dark,
}
use embedded_client_server_v.Server.Button.{take_press}
use embedded_client_server_v.Server.Socket.{
  receive_command, send_response, start_listening, bind_port, wait_for_client, close_client,
  shut_down,
}
use embedded_client_server_v.Server.Socket
use embedded_client_server_v.Server.App.{
  ServerApp, dispatch_command, after_receive, process_next_command, handle_get_frame, gone,
  send_header, send_jpeg, send_frame, send_image, answer_state, answer_capture,
}
use embedded_client_server_v.Server.App.Conversation.{Conversed}
use embedded_client_server_v.Server.App.Trace.{Serves-Conversed}
use embedded_client_server_v.Server.Button.{Watch, Sample, start_watch, watch_round}
use embedded_client_server_v.Server.Button.Watching.{debounced, releases, changes}
use embedded_client_server_v.Server.App.Pressing
use embedded_client_server_v.Server.App.Pressing.{
  watched, command, round, Answered, Interleaves-Answered,
}
use embedded_client_server_v.Server.App.Sessions.{here, next}
use embedded_client_server_v.Server.Examples.{board, board-IsLocal, bright, socket, button, app}

-- A GET_FRAME with a press pending, and an unknown command.
abbrev talking : ServerApp script board
talking = record app { world = record bright { incoming = 1 ∷ 7 ∷ [] } }

abbrev replied : ServerApp script board
replied = record app {
  button = record button { pressed = false };
  frame_id = 42;
  last_command = 5000000000;
  world = record bright {
    incoming = 7 ∷ [];
    written = 1 ∷ 200 ∷ 0 ∷ 0 ∷ 0 ∷ 42 ∷ 0 ∷ 0 ∷ 0 ∷ 2 ∷ 90 ∷ 9 ∷ [];
  };
}

abbrev ignored : ServerApp script board
ignored = record replied { world = record replied.world { incoming = [] } }

replying : process_next_command script board gone talking ≡ some ((true, gone), replied)
unfolding process_next_command receive_command after_receive dispatch_command handle_get_frame
    capture_jpeg answer_capture update answer_state send_image send_frame send_header send_jpeg
    send_all send_response track adopt classify take_press judge sensor_dark xor brightness_of
    Socket.send_rest net_bytes
replying = refl

ignoring : process_next_command script board gone replied ≡ some ((true, gone), ignored)
unfolding process_next_command receive_command after_receive dispatch_command
ignoring = refl

Serves-Conversed_example : Conversed script board script_laws talking ignored
Serves-Conversed_example =
    Serves-Conversed script board script_laws board-IsLocal talking ignored
      (next (next here replying) ignoring)

-- An encoder whose images have two bytes.
abbrev pub camera : Hardware script
camera = record board { imencode = λ m. some (m % 256 ∷ 9 ∷ []) }

pub camera-IsLocal : IsLocal script script_laws camera
camera-IsLocal = record {
  read_sent = λ fd w. refl;
  read_number_sent = λ fd path w. refl;
  read_pending = λ fd w. refl;
  read_number_pending = λ fd path w. refl;
}

abbrev watching : LightMonitor script camera
watching = record {
  path = "in_voltage0_raw";
  raw_threshold = pos 968;
  raw_rises = false;
  image_threshold = 40;
  hold = milliseconds 200;
  available = true;
  state = normal;
  candidate = normal;
  candidate_since = 5000000000;
}

abbrev pub filming : ServerApp script camera
filming = record {
  server = socket;
  button = button;
  light = watching;
  frame_id = 4294967295;
  last_command = 0;
  world = record bright { incoming = 1 ∷ [] };
}

-- The number wraps.
abbrev pub filmed : ServerApp script camera
filmed = record filming {
  button = record button { pressed = false };
  frame_id = 0;
  last_command = 5000000000;
  world = record bright { written = 1 ∷ 200 ∷ 0 ∷ 0 ∷ 0 ∷ 0 ∷ 0 ∷ 0 ∷ 0 ∷ 2 ∷ 90 ∷ 9 ∷ [] };
}

pub filmed_image : process_next_command script camera gone filming ≡ some ((true, gone), filmed)
unfolding process_next_command receive_command after_receive dispatch_command handle_get_frame
    capture_jpeg answer_capture update answer_state send_image send_frame send_header send_jpeg
    send_all send_response track adopt classify take_press judge sensor_dark xor brightness_of
    Socket.send_rest net_bytes
filmed_image = refl

-- A press that is answered, and then another one: the line goes to the pressed level and back.
abbrev start : Watch
start = start_watch button (pos 1)

abbrev down : Sample
down = record { value = pos 0; now = 6000000000 }

abbrev up : Sample
up = record { value = pos 1; now = 7000000000 }

abbrev pressing : ServerApp script camera
pressing = watched script camera filmed start down

abbrev released : ServerApp script camera
released = watched script camera pressing (watch_round filmed.button start down).1 up

Interleaves-Answered_example :
    Answered script camera script_laws filming
      (debounced button.debounce button.last_accepted
        (releases button.pressed_level (changes start.previous (down ∷ up ∷ []))))
      released
Interleaves-Answered_example =
    Interleaves-Answered script camera script_laws camera-IsLocal filming (pos 1) (down ∷ up ∷ [])
      released (command filmed_image (round (round Pressing.here)))

-- A request, a STOP, and one more byte.
abbrev quitting : ServerApp script camera
quitting = record filming { world = record bright { incoming = 1 ∷ 2 ∷ 33 ∷ [] } }
