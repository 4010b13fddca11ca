-- ===== src/System/Session/Examples.antt =====
-- The theorems on both programs' sessions at concrete inputs.
use mathlib.Core.Option.{some-injective}
use embedded_client_server_v.Prelude.{
  inr, ◌%◌, ap, length, ◌<◌, ℕ, arith, ◌≡◌, refl, List, [], ◌∷◌, ◌++◌, some, none,
}
use embedded_client_server_v.Protocol.Bytes.{net_bytes, of_net_bytes, u32_mod}
use embedded_client_server_v.Posix.{Machine, script, script_laws}
use embedded_client_server_v.Server.App.Sessions.{here, next}
use embedded_client_server_v.Server.App.Examples.{
  camera, camera-IsLocal, filming, filmed, filmed_image,
}
use embedded_client_server_v.Client.Desktop.{codes}
use embedded_client_server_v.Client.Disk.{put_file, content_of}
use embedded_client_server_v.Client.Reporter.{begin_cycle, end_cycle}
use embedded_client_server_v.Client.Store.{image_path, save, to_string}
use embedded_client_server_v.Client.Socket.{send, receive, receive_all, receive_rest}
use embedded_client_server_v.Client.App.{
  ClientApp, normal, set_state, elapsed, compose, compose_frame, display_and_poll_key, receive_body,
  receive_image, receive_content, receive_bytes, keep_image, with_frame_id, receive_answer,
  handle_response, after_receive, exchange_frame, cycle,
}
use embedded_client_server_v.Client.App.Following.{Follows}
use embedded_client_server_v.Client.App.Following.Archive.{DrawsNoFiles, Archives, Cycles-Archives}
use embedded_client_server_v.Protocol.Message.{press, encode, with_image}
use embedded_client_server_v.Protocol.Stream.{encode_all}
use embedded_client_server_v.Client.App.Cycling
use embedded_client_server_v.Client.App.Examples.{desk-SendsNothing}
use embedded_client_server_v.Client.Examples.{
  desk, desk-IsLocal, desk-Draws, desk_files, images-HasRoom, arrived, app, images,
}
use embedded_client_server_v.System.Session.{EncodesSmall, Watches, Cycles-Watches}

-- The server has answered a press; the client has not looked yet.
abbrev viewing : ClientApp script desk
viewing = record app {
  world = record arrived { incoming = 200 ∷ 0 ∷ 0 ∷ 0 ∷ 0 ∷ 0 ∷ 0 ∷ 0 ∷ 2 ∷ 90 ∷ 9 ∷ [] };
}

abbrev opened : Machine
opened = put_file (image_path images 0) [] (record arrived { incoming = []; written = 1 ∷ [] })

abbrev saved : Machine
saved =
    put_file (image_path images 0) (content_of (opened.disk (image_path images 0)) ++ 90 ∷ 9 ∷ [])
      opened

abbrev viewed : ClientApp script desk
viewed = record app {
  reporter = record app.reporter { cycles_since_report = 1 };
  frame_id = 0;
  frame = (90 ∷ 9 ∷ []) ++ (codes "Frame " ++ to_string 0);
  state = normal;
  world = saved;
}

look : cycle script desk 3000000100 viewing ≡ some (none, viewed)
unfolding begin_cycle end_cycle send receive receive_all receive_rest set_state elapsed compose
    compose_frame display_and_poll_key receive_body receive_image receive_content receive_bytes
    keep_image save with_frame_id receive_answer handle_response after_receive exchange_frame cycle
    of_net_bytes
look = refl

desk-DrawsNoFiles : DrawsNoFiles script desk desk_files
desk-DrawsNoFiles = record { by_imshow = λ name m w. refl; by_wait_key = λ ms w. refl }

made_small : (m : ℕ) (jpeg : List ℕ) → some (m % 256 ∷ 9 ∷ []) ≡ some jpeg → length jpeg < u32_mod
made_small m jpeg e = omega (arith, ap length (some-injective _ _ e))

camera-EncodesSmall : EncodesSmall script camera
camera-EncodesSmall = record { small = made_small }

Cycles-Watches_example :
    Watches script camera script_laws script desk script_laws desk_files images filming filmed
      viewing 1 viewed
Cycles-Watches_example =
    Cycles-Watches script camera script_laws camera-IsLocal camera-EncodesSmall script desk
      script_laws desk-IsLocal desk-Draws desk-SendsNothing desk_files desk-DrawsNoFiles images
      images-HasRoom 3000000100 1 filming filmed viewing viewed
      (200 ∷ 0 ∷ 0 ∷ 0 ∷ 0 ∷ 0 ∷ 0 ∷ 0 ∷ 2 ∷ 90 ∷ 9 ∷ []) (1 ∷ []) (omega arith)
      (next here filmed_image) refl refl (omega arith) refl refl refl
      (Cycling.next 3000000100 Cycling.here (omega arith) look)

Cycles-Archives_example :
    Follows script desk script_laws
      (Archives script desk desk_files images viewing)
      (press 0 (90 ∷ 9 ∷ []) ∷ [])
      []
      viewing
      1
      viewed
unfolding encode_all encode with_image net_bytes
Cycles-Archives_example =
    Cycles-Archives script desk script_laws desk-IsLocal desk-Draws desk_files desk-DrawsNoFiles
      images images-HasRoom 3000000100 (press 0 (90 ∷ 9 ∷ []) ∷ []) [] viewing refl
      ((omega arith, omega arith), tt) (omega arith) refl 1 viewed (inr refl)
      (Cycling.next 3000000100 Cycling.here (omega arith) look)
