-- ===== src/Server/Main/Examples.antt =====
-- The server's program at a concrete input.
use embedded_client_server_v.Prelude.{ℕ, ◌+◌, ◌/◌, ◌≡◌, refl, true, [], ◌∷◌, some, pos, ltb}
use embedded_client_server_v.Posix.{counting, counted, Table, holding, only, with_all, without}
use embedded_client_server_v.Server.Hardware.{Hardware, LeavesSockets}
use embedded_client_server_v.Server.Socket
use embedded_client_server_v.Server.Socket.{
  wait_for_client, close_client, receive_command, send_response,
}
use embedded_client_server_v.Server.Button
use embedded_client_server_v.Server.Camera
use embedded_client_server_v.Server.Light
use embedded_client_server_v.Server.App
use embedded_client_server_v.Server.Main.{main, started, run_app}
use embedded_client_server_v.Server.Main.Exit.{Ended, main-Ended}

abbrev bench : Hardware counting
bench = record {
  Double = ℕ;
  of_ℕ = λ n. n;
  add = λ a b. a + b;
  divide = λ a b. a / b;
  less = λ a b. ltb a b;
  Mat = ℕ;
  is_opened = λ w. true;
  open_device = λ device w. w;
  fourcc = λ a b c d. a;
  set_property = λ property value w. w;
  release = λ w. w;
  read = λ w. ((true, 90), w);
  is_empty = λ m. ltb m 1;
  mean = λ m. (m, m, m);
  imencode = λ m. some (m ∷ []);
  read_number = λ path w. (some (pos 10), w);
  chip_open_by_name = λ name w. (true, w);
  chip_get_line = λ offset w. (true, w);
  line_request_input = λ consumer w. (pos 0, w);
  line_release = λ w. w;
  chip_close = λ w. w;
  start_worker = λ w. w;
  join_worker = λ reads w. w;
}

bench-LeavesSockets : LeavesSockets counting counted bench
bench-LeavesSockets = record {
  open_device_held = λ device w. refl;
  set_property_held = λ property value w. refl;
  read_held = λ w. refl;
  release_held = λ w. refl;
  read_number_held = λ path w. refl;
  chip_open_held = λ name w. refl;
  get_line_held = λ offset w. refl;
  request_held = λ consumer w. refl;
  line_release_held = λ w. refl;
  chip_close_held = λ w. refl;
  start_worker_held = λ w. refl;
  join_worker_held = λ w. refl;
}

-- The first client asks the program to end.
abbrev done : Table
done = record {
  sockets =
      without
        (without (with_all (with_all holding.sockets (only (pos 3))) (only (pos 4))) (only (pos 4)))
        (only (pos 3));
  polls = 0;
}

ending : main counting bench 3 holding ≡ some (0, done)
unfolding main started run_app App.new App.valid App.run App.run_loop App.serve_client
    App.serve_loop App.process_next_command App.after_receive App.dispatch_command App.handle_stop
    App.close_client App.shut_down Socket.new Socket.valid Socket.abandon Socket.bind_port
    Socket.start_listening Socket.shut_down wait_for_client close_client receive_command
    send_response Camera.new Camera.set_up Button.new Button.shut_down Button.initial
    Button.find_line Button.request_line Button.release_line Button.close_chip Light.new
ending = refl

main-Ended_example :
    (done.sockets ≡ only (pos 9))
    × Ended counting bench counted bench-LeavesSockets (only (pos 9)) holding 0
main-Ended_example =
    main-Ended counting bench counted bench-LeavesSockets (only (pos 9)) 3 0 holding done refl
      ending
