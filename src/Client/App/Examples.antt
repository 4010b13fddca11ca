-- ===== src/Client/App/Examples.antt =====
-- The theorems on the client's sessions at concrete inputs.
use embedded_client_server_v.Prelude.{ℕ, pos, List, arith, ◌≡◌, refl, inl, [], ◌∷◌, some, none}
use embedded_client_server_v.Protocol.Bytes.{net_bytes, of_net_bytes}
use embedded_client_server_v.Protocol.Message.{dark, mismatch, encode}
use embedded_client_server_v.Protocol.Stream.{encode_all}
use embedded_client_server_v.Posix.{Machine, deliver, script, script_laws}
use embedded_client_server_v.Client.Reporter.{begin_cycle, end_cycle}
use embedded_client_server_v.Client.Socket.{send, receive, receive_all, receive_rest}
use embedded_client_server_v.Client.App.{
  ClientApp, DisplayState, sensor_error, link_lost, no_light, set_state, elapsed, compose,
  compose_frame, display_and_poll_key, receive_body, with_frame_id, receive_answer, handle_response,
  after_receive, exchange_frame, cycle,
}
use embedded_client_server_v.Client.App.Asking.{SendsNothing, asks, Cycles-asks}
use embedded_client_server_v.Client.App.Cycling.{here, next}
use embedded_client_server_v.Client.App.Following.{Follows}
use embedded_client_server_v.Client.App.Following.Windows.{ShowsThose, Cycles-Follows}
use embedded_client_server_v.Client.App.Timing.{visits, entries, entered, visits-entered}
use embedded_client_server_v.Client.App.Progress.{TakesRequests, ShowsAll, Cycles-ShowsAll}
use embedded_client_server_v.Client.Examples.{
  promise, desk-NeverQuits, desk, desk-IsLocal, desk-Draws, arrived, app,
}

script-TakesRequests : TakesRequests script (pos 3)
script-TakesRequests = record { takes = λ w. refl }

sent_same : (n : ℕ) (q : List ℕ) (w : Machine) → (deliver n q w).1.written ≡ w.written
sent_same n [] w = refl
sent_same n (b ∷ q) w = refl

pub desk-SendsNothing : SendsNothing script script_laws desk
desk-SendsNothing = record {
  recv_sent = λ fd other n w. sent_same n w.incoming w;
  imshow_sent = λ fd name m w. refl;
  wait_key_sent = λ fd ms w. refl;
  open_sent = λ fd path w. refl;
  write_sent = λ fd path content w. refl;
}

-- Two answers without images are on their way, and the acknowledgement behind them.
abbrev watching : ClientApp script desk
watching = record app {
  world = record arrived { incoming = 201 ∷ 0 ∷ 0 ∷ 0 ∷ 7 ∷ 202 ∷ 0 ∷ 0 ∷ 0 ∷ 7 ∷ 102 ∷ [] };
}

abbrev in_dark : ClientApp script desk
in_dark = record app {
  reporter = record app.reporter { cycles_since_report = 1 };
  frame_id = 7;
  state = no_light;
  world = record arrived { incoming = 202 ∷ 0 ∷ 0 ∷ 0 ∷ 7 ∷ 102 ∷ []; written = 1 ∷ [] };
}

first_cycle : cycle script desk 3000000100 watching ≡ some (none, in_dark)
unfolding begin_cycle end_cycle send receive receive_all receive_rest set_state elapsed compose
    compose_frame display_and_poll_key receive_body with_frame_id receive_answer handle_response
    after_receive exchange_frame cycle of_net_bytes
first_cycle = refl

Cycles-Follows_example :
    Follows script desk script_laws
      (ShowsThose script desk watching)
      (dark 7 ∷ mismatch 7 ∷ [])
      (102 ∷ [])
      watching
      1
      in_dark
unfolding encode_all encode net_bytes
Cycles-Follows_example =
    Cycles-Follows script desk script_laws desk-IsLocal desk-Draws 3000000050
      (dark 7 ∷ mismatch 7 ∷ []) (102 ∷ []) watching (omega arith, (omega arith, tt)) (omega arith)
      refl 1 in_dark (inl (omega arith)) (next 3000000100 here (omega arith) first_cycle)

Cycles-ShowsAll_example :
    ShowsAll script desk script_laws 3000000050 (dark 7 ∷ mismatch 7 ∷ []) (102 ∷ []) watching
unfolding encode_all encode net_bytes
Cycles-ShowsAll_example =
    Cycles-ShowsAll script desk script_laws desk-IsLocal desk-Draws desk-NeverQuits (pos 3)
      (promise refl) script-TakesRequests 3000000050 (dark 7 ∷ mismatch 7 ∷ []) (102 ∷ []) watching
      refl (omega arith, (omega arith, tt)) (omega arith) refl

Cycles-asks_example : (in_dark.client ≡ watching.client) × (in_dark.world.written ≡ asks 1)
Cycles-asks_example =
    Cycles-asks script desk script_laws desk-SendsNothing 3000000050 watching 1 in_dark
      (next 3000000100 here (omega arith) first_cycle)

-- The light goes, and stays away; then the sensor fails.
abbrev calls : List (DisplayState × Machine)
calls =
    (no_light, record arrived { clock = 5 })
    ∷ (sensor_error, record arrived { clock = 9 })
    ∷ (sensor_error, record arrived { clock = 12 })
    ∷ []

visits-entered_example :
    let b = visits script desk app calls in
    (b.state, b.state_since)
    ≡ entered (link_lost, 0) ((no_light, 5) ∷ (sensor_error, 9) ∷ (sensor_error, 12) ∷ [])
unfolding entries
visits-entered_example = visits-entered script desk app calls
