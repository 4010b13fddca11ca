-- ===== src/Client/App/Displaying/Examples.antt =====
-- The theorem on the image in the window at a concrete input.
use embedded_client_server_v.Prelude.{refl, ap, pos, arith, [], ◌∷◌, ◌/◌}
use embedded_client_server_v.Protocol.Bytes.{net_bytes}
use embedded_client_server_v.Protocol.Message.{dark, encode}
use embedded_client_server_v.Posix.{script, script_laws}
use embedded_client_server_v.Client.Config
use embedded_client_server_v.Client.Desktop.{Desktop, IsLocal, codes}
use embedded_client_server_v.Client.Disk.{put_file, put_file_there, content_of}
use embedded_client_server_v.Client.App.{ClientApp, link_lost}
use embedded_client_server_v.Client.App.Displaying.{Displays, cycle-Displays}
use embedded_client_server_v.Client.App.Images.{Screen}
use embedded_client_server_v.Client.App.Losing.{Draws}
use embedded_client_server_v.Client.App.Progress.{TakesRequests}
use embedded_client_server_v.Client.App.Staying.{NeverQuits}
use embedded_client_server_v.Client.Examples.{desk, arrived, app, promise}

-- A window whose image is kept under its name; the seconds are one code.
abbrev glass : Desktop script
glass = record desk {
  imshow = λ name m w. put_file (codes name) m w;
  print_seconds = λ ns. ns / 1000000000 ∷ [];
}

glass-Screen : Screen script glass
glass-Screen = record {
  screen = λ w. content_of (w.disk (codes Config.window_name));
  by_imshow = λ m w. ap content_of (put_file_there (codes Config.window_name) m w);
  by_wait_key = λ ms w. refl;
  by_now = λ w. refl;
}

glass-IsLocal : IsLocal script script_laws glass
glass-IsLocal = record {
  open_pending = λ fd path w. refl;
  write_pending = λ fd path content w. refl;
}

glass-Draws : Draws script script_laws glass
glass-Draws = record {
  imshow_pending = λ fd name m w. refl;
  wait_key_pending = λ fd ms w. refl;
  imshow_time = λ name m w. omega arith;
  wait_key_time = λ ms w. omega arith;
}

glass-NeverQuits : NeverQuits script glass
glass-NeverQuits = record { other_keys = λ ms w. refl }

glass-TakesRequests : TakesRequests script (pos 3)
glass-TakesRequests = record { takes = λ w. refl }

-- Scenes in the dark are on their way to a client that has just connected.
abbrev facing : ClientApp script glass
facing = record {
  client = app.client;
  reporter = app.reporter;
  store = app.store;
  frame = [];
  frame_id = 0;
  state = link_lost;
  state_since = 0;
  last_response = 0;
  world = record arrived { incoming = 201 ∷ 0 ∷ 0 ∷ 0 ∷ 7 ∷ 33 ∷ [] };
}

cycle-Displays_example :
    Displays script glass script_laws glass-Screen 3000000050 (dark 7) (33 ∷ []) facing
unfolding encode net_bytes
cycle-Displays_example =
    cycle-Displays script glass script_laws glass-Draws glass-Screen glass-IsLocal glass-NeverQuits
      3000000050 (dark 7) (33 ∷ []) facing (promise refl) glass-TakesRequests (omega arith)
      (omega arith) refl
