-- ===== src/Server/Examples.antt =====
-- The server's theorems at concrete inputs.
use embedded_client_server_v.Prelude.{
  ℕ, suc, arith, ◌+◌, ◌≤◌, ◌/◌, ◌≡◌, refl, ap, Bool, true, false, List, [], ◌∷◌, some, none, pos,
  negsuc, ltb, length, Returns,
}
use embedded_client_server_v.Posix.{
  counting, counted, Table, holding, only, Machine, deliver, script, script_laws, milliseconds,
}
use embedded_client_server_v.Server.Hardware.{Hardware, IsLocal}
use embedded_client_server_v.Server.Camera.{capture_jpeg}
use embedded_client_server_v.Server.Socket.{TcpServer, send_all}
use embedded_client_server_v.Server.Socket.Descriptors.{
  Lives, started, waited, hung_up, shut_down-Lives,
}
use embedded_client_server_v.Server.Socket.Sending.{Transmits, send_all-Transmits}
use embedded_client_server_v.Server.Light.{LightMonitor, normal, new}
use embedded_client_server_v.Server.Light.Filter.{reported, updates, updates-reported}
use embedded_client_server_v.Server.Button.{
  ButtonMonitor, Sample, Action, sampled, taken, start_watch, watch_loop, interleave,
}
use embedded_client_server_v.Server.Button.Watching.{
  changes, releases, debounced, flag_after, last_after, AreSpaced, watch_loop-accepted,
}
use embedded_client_server_v.Server.Button.Reports.{waiting, samples_of, interleave_reports}
use embedded_client_server_v.Server.Socket.{
  receive_command, send_response, start_listening, bind_port, wait_for_client, close_client,
  shut_down,
}
use embedded_client_server_v.Server.Socket
use embedded_client_server_v.Server.App.{
  ServerApp, stop_requested, handle_stop, dispatch_command, after_receive, process_next_command,
  serve_loop, serve_client, run_loop, run, handle_get_frame, gone, send_header, send_jpeg,
  send_frame, send_image, answer_state, answer_capture,
}
use embedded_client_server_v.Server.App
use embedded_client_server_v.Server.App.Ending.{Stopped, run_stop}
use embedded_client_server_v.Server.App.Patience.{IsPrompt, EndsInTime, serve_loop-EndsInTime}
use embedded_client_server_v.Server.App.Sessions.{StopWasRead, starting, serve_client_stop}
use embedded_client_server_v.Server.App.Silence.{
  IsSilent, GivesUp, idle_limit, serve_client-GivesUp,
}
use embedded_client_server_v.Server.App.Answers.{Answers, handle_get_frame-Answers}

-- Brightness is a number; the image of a scene is its brightness and one more byte.
abbrev pub board : Hardware script
board = record {
  Double = ℕ;
  of_ℕ = λ n. n;
  add = λ a b. a + b;
  divide = λ a b. a / b;
  less = λ a b. ltb a b;
  Mat = ℕ;
  is_opened = λ w. true;
  read = λ w. ((true, w.scene), w);
  is_empty = λ m. false;
  mean = λ m. (m, m, m);
  imencode = λ m. some (m ∷ 9 ∷ []);
  open_device = λ device w. w;
  fourcc = λ a b c d. a;
  set_property = λ property value w. w;
  release = λ w. w;
  read_number = λ path w. (w.raw, w);
  chip_open_by_name = λ name w. (true, w);
  chip_get_line = λ offset w. (true, w);
  line_request_input = λ consumer w. (pos 0, w);
  line_release = λ w. w;
  chip_close = λ w. w;
  start_worker = λ w. w;
  join_worker = λ reads w. w;
}

pub board-IsLocal : IsLocal script script_laws board
board-IsLocal = record {
  read_sent = λ fd w. refl;
  read_number_sent = λ fd path w. refl;
  read_pending = λ fd w. refl;
  read_number_pending = λ fd path w. refl;
}

abbrev pub bright : Machine
bright = record {
  clock = 5000000000;
  incoming = [];
  written = 1 ∷ [];
  scene = 90;
  raw = some (pos 10);
  disk = λ path. none;
}

abbrev pub socket : TcpServer
socket = record { listen_fd = pos 3; client_fd = pos 4; recv_timeout_ms = 60 }

abbrev pub button : ButtonMonitor
button = record {
  has_chip = true;
  has_line = true;
  running = true;
  pressed_level = pos 0;
  poll_period = 1000000;
  debounce = milliseconds 200;
  last_accepted = 0;
  pressed = true;
}

abbrev pub monitor : LightMonitor script board
monitor = record {
  path = "in_voltage0_raw";
  raw_threshold = pos 968;
  raw_rises = false;
  image_threshold = 40;
  hold = milliseconds 200;
  available = true;
  state = normal;
  candidate = normal;
  candidate_since = 5000000000;
}

abbrev fresh : LightMonitor script board
fresh = (new script board "in_voltage0_raw" (pos 968) false 40 200 bright).0

abbrev pub app : ServerApp script board
app = record {
  server = socket;
  button = button;
  light = monitor;
  frame_id = 41;
  last_command = 0;
  world = bright;
}

send_all-Transmits_example :
    Returns
      (send_all script socket (1 ∷ 2 ∷ 3 ∷ 4 ∷ 5 ∷ 6 ∷ 7 ∷ []) bright)
      (λ done w'. Transmits (1 ∷ []) (1 ∷ 2 ∷ 3 ∷ 4 ∷ 5 ∷ 6 ∷ 7 ∷ []) done w'.written)
send_all-Transmits_example =
    send_all-Transmits script script_laws socket (1 ∷ 2 ∷ 3 ∷ 4 ∷ 5 ∷ 6 ∷ 7 ∷ []) bright

updates-reported_example :
    let (m', history) =
      updates script board fresh []
        ((3, bright) ∷ (3, record bright { clock = 5200000000 }) ∷ []) in
    m'.state ≡ reported 5000000000 (milliseconds 200) history
updates-reported_example =
    updates-reported script board "in_voltage0_raw" (pos 968) false 40 200 bright
      ((3, bright) ∷ (3, record bright { clock = 5200000000 }) ∷ [])

-- A press, a bounce, a release, a failed reading, and a second press within the debounce time.
abbrev readings : List Sample
readings =
    record { value = pos 0; now = 900000000 }
    ∷ record { value = pos 1; now = 901000000 }
    ∷ record { value = negsuc 0; now = 902000000 }
    ∷ record { value = pos 0; now = 903000000 }
    ∷ record { value = pos 1; now = 904000000 }
    ∷ []

watch_loop-accepted_example :
    let b' = (watch_loop button (start_watch button (pos 1)) readings).0 in
    let times = debounced (milliseconds 200) 0 (releases (pos 0) (changes (pos 1) readings)) in
    (b'.pressed ≡ flag_after true times)
    × (b'.last_accepted ≡ last_after 0 times)
    × AreSpaced (milliseconds 200) 0 times
watch_loop-accepted_example = watch_loop-accepted button (pos 1) readings

abbrev actions : List Action
actions =
    taken
    ∷ sampled (record { value = pos 0; now = 900000000 })
    ∷ sampled (record { value = pos 1; now = 901000000 })
    ∷ taken
    ∷ taken
    ∷ []

interleave_reports_example :
    let (n, b') = interleave button (start_watch button (pos 1)) actions in
    n + waiting b'
    ≤ 1
      + length (
          debounced
            (milliseconds 200)
            0
            (releases (pos 0) (changes (start_watch button (pos 1)).previous (samples_of actions))))
interleave_reports_example = interleave_reports button (pos 1) actions

handle_get_frame-Answers_example :
    Returns
      (handle_get_frame script board app)
      (Answers script board script_laws app (capture_jpeg script board bright))
handle_get_frame-Answers_example =
    handle_get_frame-Answers script board script_laws board-IsLocal app

-- An unknown command, and a STOP.
abbrev asked : ServerApp script board
asked = record app { world = record bright { incoming = 7 ∷ 2 ∷ [] } }

abbrev stopped : ServerApp script board
stopped = record app { last_command = 5000000000; world = record bright { written = 1 ∷ 102 ∷ [] } }

stopping : serve_client script board 3 asked ≡ some (stop_requested, stopped)
unfolding serve_client serve_loop process_next_command receive_command after_receive
    dispatch_command handle_stop send_response
stopping = refl

serve_client_stop_example : StopWasRead script board (starting script board asked)
serve_client_stop_example = serve_client_stop script board 3 asked stopped stopping

pub script-IsSilent : IsSilent script script_laws (pos 4)
script-IsSilent = record { waits = λ w empty. ap (λ q. (deliver 1 q w).0) empty }

serve_client-GivesUp_example :
    Returns
      (serve_client script board (suc (idle_limit script board script_laws) + 0) app)
      (GivesUp script board script_laws app 5000000000)
serve_client-GivesUp_example =
    serve_client-GivesUp script board script_laws 0 app script-IsSilent refl

delivered_within : (q : List ℕ) (w : Machine) → (deliver 1 q w).1.clock ≤ w.clock + 60000000
delivered_within [] w = omega arith
delivered_within (b ∷ q) w = omega arith

pub script-IsPrompt : IsPrompt script script_laws (pos 4) 60000000 0
script-IsPrompt = record {
  recv_within = λ w. delivered_within w.incoming w;
  now_within = λ w. omega arith;
}

-- The last command has just been read.
abbrev pub quiet : ServerApp script board
quiet = record app { last_command = 5000000000 }

serve_loop-EndsInTime_example :
    Returns
      (serve_loop script board 1000000001 gone quiet)
      (EndsInTime script board script_laws 60000000 0 quiet)
serve_loop-EndsInTime_example =
    serve_loop-EndsInTime script board script_laws 60000000 0 1000000001 quiet script-IsSilent
      script-IsPrompt refl (omega arith) (omega arith)

-- Another descriptor, then those of the listening socket and of a client.
abbrev begun : TcpServer × Table
begun = Socket.new counting 5000 60 holding

abbrev joined : (TcpServer × Bool) × Table
joined = wait_for_client counting begun.0 begun.1

abbrev left : TcpServer × Table
left = close_client counting joined.0.0 joined.1

life : Lives counting counted (only (pos 9)) left.0 left.1
unfolding Socket.new bind_port start_listening
life = hung_up (waited (started 5000 60 refl) refl)

shut_down-Lives_example : (shut_down counting left.0 left.1).sockets ≡ only (pos 9)
shut_down-Lives_example = shut_down-Lives counting counted (only (pos 9)) left.0 left.1 life

abbrev ended : ServerApp script board
ended = record stopped { server = record socket { client_fd = negsuc 0 } }

ending : run script board 4 asked ≡ some (tt, ended)
unfolding run run_loop wait_for_client close_client App.close_client
ending = rw (stopping, run_loop) refl

run_stop_example : Stopped script board asked
run_stop_example = run_stop script board 4 asked ended ending
