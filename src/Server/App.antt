-- ===== src/Server/App.antt =====
-- Serveur/src/server_app.cpp and Serveur/inc/server_app.h: the sessions, and the commands of the
-- protocol. The output that only logs is left out. A loop takes fuel, a number of rounds.
pub mod Sending
pub mod Answers
pub mod Sessions
pub mod Silence
pub mod Patience
pub mod Ending
pub mod Untouched
pub mod Holding
pub mod Conversation
pub mod Serving
pub mod Trace
pub mod Pressing
pub mod Stopping
pub mod Examples
use embedded_client_server_v.Prelude.{
  ℕ, zero, suc, ◌+◌, ◌%◌, Bool, true, false, not, ◌&&◌, List, ℤ, Option, none, some, ◌==◌, ltb,
  length, if◌then◌else◌, M, pure, call, ◌>>=◌, ◌>>◌, get, put,
}
use embedded_client_server_v.Protocol
use embedded_client_server_v.Protocol.Bytes.{net_bytes, u32_mod}
use embedded_client_server_v.Posix.{Posix, milliseconds}
use embedded_client_server_v.Server.Config
use embedded_client_server_v.Server.Hardware.{Hardware}
use embedded_client_server_v.Server.Socket.{TcpServer, RecvResult, received, timeout, disconnected}
use embedded_client_server_v.Server.Socket
use embedded_client_server_v.Server.Camera
use embedded_client_server_v.Server.Camera.{Capture, capture_jpeg}
use embedded_client_server_v.Server.Button.{ButtonMonitor, take_press}
use embedded_client_server_v.Server.Button
use embedded_client_server_v.Server.Light
use embedded_client_server_v.Server.Light.{
  LightMonitor, SceneState, normal, no_light, sensor_error, update,
}

pub data SessionOutcome : Type 0 where
  stop_requested gone : SessionOutcome

-- `++_frameId` on a uint32_t.
abbrev pub next_id : ℕ → ℕ
next_id id = (id + 1) % u32_mod

module _ (os : Posix) (hw : Hardware os) where
  open os use {World}

  pub record ServerApp : Type 0 where
    pub server : TcpServer
    pub button : ButtonMonitor
    pub light : LightMonitor os hw
    pub frame_id : ℕ
    pub last_command : ℕ
    pub world : World

  abbrev pub install_signal_handlers : World → World
  install_signal_handlers w = os.ignore_sigpipe w

  -- The constructor, with the members in the order of their declaration.
  unfoldable pub new : ℕ → ℕ → World → ServerApp
  new port recv_timeout_ms w =
      let (server, w1) = Socket.new os port recv_timeout_ms w in
      let w2 = Camera.new os hw 0 w1 in
      let (button, w3) =
        Button.new os hw Config.gpio_chip Config.gpio_line Config.button_active_low
          Config.button_debounce_ms Config.button_poll_us w2 in
      let (light, w4) =
        Light.new os hw Config.light_sensor_path Config.light_raw_threshold Config.light_raw_rises
          (hw.of_ℕ Config.image_dark_threshold) Config.state_hold_ms w3 in
      let (t, w5) = os.now w4 in
      record {
        server = server;
        button = button;
        light = light;
        frame_id = 0;
        last_command = t;
        world = w5;
      }

  unfoldable pub valid : ServerApp → Bool
  valid a = Socket.valid a.server && Camera.is_opened os hw a.world

  -- A method of the socket, run on the app's world.
  abbrev pub on_world : {A : Type 0} → M World A → M ServerApp A
  on_world m a = elim (m a.world) [ none ↦ none | some (x, w) ↦ some (x, record a { world = w }) ]

  unfoldable pub send_header : ℕ → M ServerApp Bool
  send_header header a =
      (do
        started ← on_world (call (Socket.send_response os a.server header))
        let rest = on_world (Socket.send_all os a.server (net_bytes a.frame_id))
        if started then rest else pure false)
        a

  -- sendFrame behind a header that has left.
  unfoldable pub send_jpeg : List ℕ → M ServerApp Bool
  send_jpeg jpeg a =
      (do
        sized ← on_world (Socket.send_all os a.server (net_bytes (length jpeg % u32_mod)))
        let rest = on_world (Socket.send_all os a.server jpeg)
        if sized then rest else pure false)
        a

  unfoldable pub send_frame : ℕ → List ℕ → M ServerApp Bool
  send_frame header jpeg = do
    headed ← send_header header
    if headed then send_jpeg jpeg else pure false

  -- handleGetFrame once the scene is known to be normal.
  unfoldable pub send_image : Capture os hw → M ServerApp Bool
  send_image capture a =
      let (pressed, button) = take_press a.button in
      send_frame (if pressed then Protocol.button_press else Protocol.frame_hdr) capture.jpeg
        (record a { frame_id = next_id a.frame_id; button = button })

  -- handleGetFrame once the scene is known not to be: the pending press is dropped.
  pub send_state : ℕ → M ServerApp Bool
  send_state header a = send_header header (record a { button = (take_press a.button).1 })

  unfoldable pub answer_state : SceneState → Capture os hw → M ServerApp Bool
  answer_state normal capture = send_image capture
  answer_state no_light capture = send_state Protocol.no_light
  answer_state sensor_error capture = send_state Protocol.sensor_error

  unfoldable pub answer_capture : Option (Capture os hw) → M ServerApp Bool
  answer_capture none a = pure true a
  answer_capture (some capture) a =
      let ((light, state), w) = update os hw a.light capture.brightness a.world in
      answer_state state capture (record a { light = light; world = w })

  unfoldable pub handle_get_frame : M ServerApp Bool
  handle_get_frame a =
      let (capture, w) = capture_jpeg os hw a.world in
      answer_capture capture (record a { world = w })

  unfoldable pub handle_stop : M ServerApp Bool
  handle_stop a = on_world (call (Socket.send_response os a.server Protocol.stop_ack)) a

  -- The result and the value of `outcome`.
  unfoldable pub dispatch_command : ℕ → SessionOutcome → M ServerApp (Bool × SessionOutcome)
  dispatch_command cmd outcome =
      if cmd == Protocol.get_frame
      then (do alive ← handle_get_frame; pure (alive, (if alive then outcome else gone)))
      else if cmd == Protocol.stop
      then (do _ ← handle_stop; pure (false, stop_requested))
      else pure (true, outcome)

  unfoldable pub after_receive :
      RecvResult → ℕ → SessionOutcome → M ServerApp (Bool × SessionOutcome)
  after_receive timeout cmd outcome a =
      let (t, w) = os.now a.world in
      let b = record a { world = w } in
      if ltb t (a.last_command + milliseconds Config.client_idle_timeout_ms)
      then pure (true, outcome) b
      else pure (false, gone) b
  after_receive disconnected cmd outcome a = pure (false, gone) a
  after_receive received cmd outcome a =
      let (t, w) = os.now a.world in
      dispatch_command cmd outcome (record a { last_command = t; world = w })

  unfoldable pub process_next_command : SessionOutcome → M ServerApp (Bool × SessionOutcome)
  process_next_command outcome a =
      let ((result, cmd), w) = Socket.receive_command os a.server 0 a.world in
      after_receive result cmd outcome (record a { world = w })

  -- `while (processNextCommand(outcome)) {}`
  unfoldable pub serve_loop : ℕ → SessionOutcome → M ServerApp SessionOutcome
  serve_loop zero outcome a = none
  serve_loop (suc fuel) outcome a = elim (process_next_command outcome a) [
    | none ↦ none
    | some ((goes_on, outcome'), a') ↦ elim goes_on [
      | true ↦ serve_loop fuel outcome' a'
      | false ↦ some (outcome', a')
    ]
  ]

  unfoldable pub serve_client : ℕ → M ServerApp SessionOutcome
  serve_client fuel a =
      let (t, w) = os.now a.world in serve_loop fuel gone (record a { last_command = t; world = w })

  unfoldable pub close_client : ServerApp → ServerApp
  close_client a =
      let (server, w) = Socket.close_client os a.server a.world in
      record a { server = server; world = w }

  unfoldable pub run_loop : ℕ → M ServerApp (Unit {0})
  unfolding close_client
  run_loop zero a = none
  run_loop (suc fuel) a =
      let ((server, accepted), w) = Socket.wait_for_client os a.server a.world in
      let b = record a { server = server; world = w } in
      elim accepted [
        | false ↦ run_loop fuel b
        | true ↦ elim (serve_client fuel b) [
          | none ↦ none
          | some (stop_requested, c) ↦ some (tt, close_client c)
          | some (gone, c) ↦ run_loop fuel (close_client c)
        ]
      ]

  -- Interne::silenceJpegWarnings, but for its message
  silence_jpeg_warnings : ServerApp → ServerApp
  silence_jpeg_warnings a = record a { world = (os.silence_stderr a.world).1 }

  unfoldable pub run : ℕ → M ServerApp (Unit {0})
  unfolding silence_jpeg_warnings
  run fuel a = run_loop fuel (silence_jpeg_warnings a)

  -- The destructor destroys the members in the reverse order of their declaration.
  unfoldable pub shut_down : ServerApp → World
  shut_down a =
      let w = Button.shut_down os hw a.button a.world in Socket.shut_down os a.server (hw.release w)
