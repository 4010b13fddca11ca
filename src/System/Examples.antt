-- ===== src/System/Examples.antt =====
-- The theorem on both programs at concrete inputs.
use embedded_client_server_v.Prelude.{
  ap, ◌≡◌, ◌≤◌, ◌-◌, refl, true, false, [], ◌∷◌, some, pos, arith, Returns,
}
use embedded_client_server_v.Protocol.Bytes.{net_bytes}
use embedded_client_server_v.Posix.{script, script_laws}
use embedded_client_server_v.Server.Camera.{Capture, brightness_of, capture_jpeg}
use embedded_client_server_v.Server.Socket.{send_all, send_rest, send_response}
use embedded_client_server_v.Server.Light.{
  normal, update, track, adopt, classify, judge, sensor_dark,
}
use embedded_client_server_v.Server.Button.{take_press}
use embedded_client_server_v.Server.App.{
  ServerApp, gone, serve_loop, handle_get_frame, answer_capture, answer_state, send_image,
  send_frame, send_header, send_jpeg,
}
use embedded_client_server_v.Server.App.Answers.{answer}
use embedded_client_server_v.Server.Examples.{board, board-IsLocal, bright}
use embedded_client_server_v.Server.Examples as OnBoard
use embedded_client_server_v.Client.Examples.{desk, desk-IsLocal, promise, arrived}
use embedded_client_server_v.Client.Examples as OnDesk
use embedded_client_server_v.Client.App.{ClientApp, link_broken, run_session, exchange_frame}
use embedded_client_server_v.System.Timing.{serve_loop-run_session}
use embedded_client_server_v.Client.App.Exchange.{Exchanges}
use embedded_client_server_v.System.Press.{Delivered, exchange_frame-Delivered}
use embedded_client_server_v.System.{exchange_frame-handle_get_frame}

abbrev capture : Capture script board
capture = record { jpeg = 90 ∷ 9 ∷ []; brightness = 90 }

captured : capture_jpeg script board bright ≡ (some capture, bright)
unfolding capture_jpeg brightness_of
captured = refl

judged : update script board OnBoard.monitor 90 bright ≡ ((OnBoard.monitor, normal), bright)
unfolding update track adopt classify judge sensor_dark mathlib.Core.Bool.xor
judged = refl

judged_normal : (update script board OnBoard.monitor 90 bright).0.1 ≡ normal
judged_normal = ap (λ r. r.0.1) judged

abbrev replied : ServerApp script board
replied = record OnBoard.app {
  frame_id = 42;
  button = record OnBoard.button { pressed = false };
  world = record bright { written = 1 ∷ 200 ∷ 0 ∷ 0 ∷ 0 ∷ 42 ∷ 0 ∷ 0 ∷ 0 ∷ 2 ∷ 90 ∷ 9 ∷ [] };
}

ran : handle_get_frame script board OnBoard.app ≡ some (true, replied)
unfolding handle_get_frame answer_capture answer_state send_image send_frame send_header send_jpeg
    send_all send_rest send_response take_press net_bytes
ran = rw (captured, judged, handle_get_frame, answer_capture) refl

-- The client, with the server's reply behind its own request, and one more byte.
abbrev asking : ClientApp script desk
asking = record OnDesk.app {
  world = record arrived { incoming = 200 ∷ 0 ∷ 0 ∷ 0 ∷ 42 ∷ 0 ∷ 0 ∷ 0 ∷ 2 ∷ 90 ∷ 9 ∷ 33 ∷ [] };
}

exchange_frame-handle_get_frame_example : Returns (exchange_frame script desk 3000000100 asking) (
    Exchanges script desk script_laws
      (pos 3)
      (answer (update script board OnBoard.monitor 90 bright).0.1 true 41 (90 ∷ 9 ∷ []))
      (33 ∷ [])
      asking)
exchange_frame-handle_get_frame_example =
    exchange_frame-handle_get_frame script board script_laws board-IsLocal script desk script_laws
      desk-IsLocal (pos 3) (promise refl) 3000000100 OnBoard.app replied capture bright asking
      (200 ∷ 0 ∷ 0 ∷ 0 ∷ 42 ∷ 0 ∷ 0 ∷ 0 ∷ 2 ∷ 90 ∷ 9 ∷ []) (33 ∷ []) (omega arith) (omega arith)
      captured ran refl refl refl (omega arith)

serve_loop-run_session_example :
    Returns (serve_loop script board 1000000001 gone OnBoard.quiet) (λ o b.
      (o ≡ gone)
      × Returns
          (run_session script desk 3000000001 OnDesk.deserted)
          (λ reason d. (reason ≡ link_broken) × (b.world.clock - 5000000000 ≤ d.world.clock - 0)))
serve_loop-run_session_example =
    serve_loop-run_session script board script_laws 60000000 0 script desk script_laws
      OnDesk.desk-Draws OnDesk.desk-NeverQuits 1000000001 3000000001 OnBoard.quiet OnDesk.deserted
      OnBoard.script-IsSilent OnBoard.script-IsPrompt OnDesk.script-IsSilent refl refl (omega arith)
      (omega arith) (omega arith) (omega arith)

exchange_frame-Delivered_example :
    Returns
      (exchange_frame script desk 3000000100 asking)
      (Delivered script desk OnDesk.desk_files OnDesk.images 42 (90 ∷ 9 ∷ []) asking)
exchange_frame-Delivered_example =
    exchange_frame-Delivered script board script_laws board-IsLocal script desk script_laws
      desk-IsLocal (pos 3) (promise refl) OnDesk.desk_files OnDesk.images OnDesk.images-HasRoom
      3000000100 OnBoard.app replied capture bright asking
      (200 ∷ 0 ∷ 0 ∷ 0 ∷ 42 ∷ 0 ∷ 0 ∷ 0 ∷ 2 ∷ 90 ∷ 9 ∷ []) (33 ∷ []) (omega arith) (omega arith)
      (omega arith) refl captured judged_normal ran refl refl refl refl (omega arith)
