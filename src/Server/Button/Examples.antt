-- ===== src/Server/Button/Examples.antt =====
-- The theorem on the constructor and the destructor of the button at a concrete input.
use embedded_client_server_v.Prelude.{
  ℕ, ◌≡◌, refl, ap, true, List, [], ◌∷◌, ◌++◌, pos, ◌==◌, if◌then◌else◌,
}
use embedded_client_server_v.Posix.{script, Machine}
use embedded_client_server_v.Server.Hardware.{Hardware}
use embedded_client_server_v.Server.Button.{ButtonMonitor, find_line, request_line, new, shut_down}
use embedded_client_server_v.Server.Button.Lines.{
  Step, chip_opened, line_requested, worker_started, worker_joined, line_released, chip_closed,
  Records, shut_down-new,
}
use embedded_client_server_v.Server.Examples.{board, bright}

-- A board that notes the steps as numbers.
abbrev note : ℕ → Machine → Machine
note k w = record w { written = w.written ++ (k ∷ []) }

abbrev noting : Hardware script
noting = record board {
  chip_open_by_name = λ name w. (true, note 0 w);
  line_request_input = λ consumer w. (pos 0, note 1 w);
  start_worker = λ w. note 2 w;
  join_worker = λ reads w. if reads then w else note 3 w;
  line_release = λ w. note 4 w;
  chip_close = λ w. note 5 w;
}

abbrev meaning : ℕ → Step
meaning k =
    if k == 0
    then chip_opened
    else if k == 1
    then line_requested
    else if k == 2
    then worker_started
    else if k == 3
    then worker_joined
    else if k == 4
    then line_released
    else chip_closed

abbrev steps_of : List ℕ → List Step
steps_of [] = []
steps_of (k ∷ ks) = meaning k ∷ steps_of ks

noted : (ks : List ℕ) (k : ℕ) → steps_of (ks ++ (k ∷ [])) ≡ steps_of ks ++ (meaning k ∷ [])
noted [] k = refl
noted (j ∷ ks) k = ap (◌∷◌ (meaning j)) (noted ks k)

noting-Records : Records script noting
noting-Records = record {
  steps = λ w. steps_of w.written;
  opens = λ name w. noted w.written 0;
  looks_up = λ offset w. refl;
  requests = λ consumer w. noted w.written 1;
  starts = λ w. noted w.written 2;
  joins = λ w. noted w.written 3;
  releases = λ w. noted w.written 4;
  closes = λ w. noted w.written 5;
}

abbrev made : ButtonMonitor × Machine
made = new script noting "gpiochip1" 83 true 200 1000 (record bright { written = [] })

shut_down-new_example :
    steps_of (shut_down script noting made.0 made.1).written
    ≡ chip_opened ∷ line_requested ∷ worker_started ∷ worker_joined ∷ line_released ∷ chip_closed
      ∷ []
unfolding new find_line request_line shut_down noting-Records
shut_down-new_example =
    shut_down-new script noting noting-Records "gpiochip1" 83 true 200 1000
      (record bright { written = [] }) made.1 made.0 refl refl refl
