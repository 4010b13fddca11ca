-- ===== src/Client/Main/Examples.antt =====
-- The theorem on the client's program at a concrete input.
use embedded_client_server_v.Prelude.{
  ℕ, suc, negsuc, ◌==◌, if◌then◌else◌, ◌≡◌, refl, true, false, [], some, pos,
}
use embedded_client_server_v.Posix.{counting, counted, Table, holding, only, with_all, without}
use embedded_client_server_v.Client.Desktop.{Desktop}
use embedded_client_server_v.Client.Reporter
use embedded_client_server_v.Client.Store
use embedded_client_server_v.Client.Socket
use embedded_client_server_v.Client.App
use embedded_client_server_v.Client.App.Owning.{LeavesSockets}
use embedded_client_server_v.Client.Main.{main, run_app}
use embedded_client_server_v.Client.Main.Exit.{main-Closed}

-- A window whose user presses q when the keys are polled for the second time.
abbrev window : Desktop counting
window = record {
  Mat = ℕ;
  imdecode = λ bytes. 0;
  is_empty = λ m. true;
  zeros = λ rows columns. 0;
  put_text = λ m text point colour. m;
  print_seconds = λ ns. [];
  named_window = λ name w. w;
  imshow = λ name m w. w;
  wait_key =
      λ ms w. ((if w.polls == 0 then negsuc 0 else pos b'q'), record w { polls = suc w.polls });
  destroy_all_windows = λ w. w;
  remove_all = λ path w. (false, w);
  create_directories = λ path w. (false, w);
  open_truncated = λ path w. (true, w);
  write = λ path content w. (true, w);
}

window-LeavesSockets : LeavesSockets counting counted window
window-LeavesSockets = record {
  named_window_held = λ name w. refl;
  imshow_held = λ name m w. refl;
  wait_key_held = λ ms w. refl;
  destroy_held = λ w. refl;
  remove_held = λ path w. refl;
  create_held = λ path w. refl;
  open_held = λ path w. refl;
  write_held = λ path content w. refl;
}

-- The first poll finds no key; an attempt to connect opens a socket, is refused, and closes it; then
-- the user quits.
abbrev left : Table
left = record {
  sockets = without (with_all holding.sockets (only (pos 3))) (only (pos 3));
  polls = 2;
}

quitting : main counting window 0 4 holding ≡ some (0, left)
unfolding main run_app App.new App.initialize App.run App.run_loop App.connect_to_server
    App.connect_loop App.set_state App.display_and_poll_key App.compose_frame App.compose
    App.shut_down App.hang_up App.wait_until App.attempt Reporter.new Store.reset Socket.close
    Socket.connect Socket.attempt Socket.conclude Socket.give_up Socket.wait_for_connect
quitting = refl

main-Closed_example : (left.sockets ≡ only (pos 9)) × (◌≡◌ {A = ℕ} 0 0)
unfolding App.new App.initialize Store.reset
main-Closed_example =
    main-Closed counting window counted window-LeavesSockets 0 4 holding 0 left quitting
