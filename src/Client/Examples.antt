-- ===== src/Client/Examples.antt =====
-- The client's theorems at concrete inputs.
use embedded_client_server_v.Prelude.{
  ℕ, ◌+◌, ◌≡◌, ◌≢◌, refl, ap, ◌∙◌, some, Bool, true, false, List, [], ◌∷◌, ◌++◌, none, pos, arith,
  Returns,
}
use embedded_client_server_v.Protocol.Bytes.{net_bytes}
use embedded_client_server_v.Protocol.Message.{press, mismatch, encode, with_image}
use embedded_client_server_v.Posix.{
  counting, counted, Table, holding, only, with_all, Machine, script, script_laws, script_reliable,
  deliver,
}
use embedded_client_server_v.Client.Reporter.{CycleReporter}
use embedded_client_server_v.Client.Reporter.Accounts.{
  AreSeconds, cycles, spent, total_cycles, total_time, cycles-accounts,
}
use embedded_client_server_v.Client.Desktop.{Desktop, IsLocal}
use embedded_client_server_v.Client.Disk.{
  put_file, put_file_there, put_file_others, content_of, deliver_disk,
}
use embedded_client_server_v.Client.Store.Clearing.{Removal, reset_clears}
use embedded_client_server_v.Client.Store.Files.{FileSystem, HasRoom}
use embedded_client_server_v.Client.App.Keeping.{Keeps, exchange_frame-Keeps}
use embedded_client_server_v.Client.Store.{ImageStore, image_path, reset}
use embedded_client_server_v.Client.Store.Names.{image_path_distinct}
use embedded_client_server_v.Client.Socket.{TcpClient, connect, receive_all}
use embedded_client_server_v.Client.Socket.Descriptors.{Balanced, connect-Balanced}
use embedded_client_server_v.Client.Socket.Receiving.{IsReliable, Receives, receive_all-Receives}
use embedded_client_server_v.Client.App.{
  ClientApp, link_lost, handle_response, exchange_frame, request_shutdown, run_session, run,
}
use embedded_client_server_v.Client.App.Staying.{NeverQuits, run_stays}
use embedded_client_server_v.Client.App.Losing.{Draws, IsSilent, GivesUp, run_session_silent}
use embedded_client_server_v.Client.App.Exchange.{Exchanges, exchange_frame-Exchanges}
use embedded_client_server_v.Client.App.Shutdown.{Drains, request_shutdown-Drains}
use embedded_client_server_v.Client.App.Decoding.{handle_response-Ends}
use embedded_client_server_v.Client.App.Showing.{Ends, Shows}

abbrev is_nil : List ℕ → Bool
is_nil [] = true
is_nil (b ∷ rest) = false

-- An image is the list of its bytes, and a text is written behind it.
abbrev pub desk : Desktop script
desk = record {
  Mat = List ℕ;
  imdecode = λ bytes. bytes;
  is_empty = λ m. is_nil m;
  zeros = λ rows columns. [];
  put_text = λ m text point colour. m ++ text;
  print_seconds = λ ns. [];
  named_window = λ name w. w;
  imshow = λ name m w. w;
  wait_key = λ ms w. (pos 0, w);
  destroy_all_windows = λ w. w;
  remove_all = λ path w. (false, record w { disk = λ p. none });
  create_directories = λ path w. (false, w);
  open_truncated = λ path w. (true, put_file path [] w);
  write = λ path content w. (true, put_file path (content_of (w.disk path) ++ content) w);
}

pub desk-IsLocal : IsLocal script script_laws desk
desk-IsLocal = record {
  open_pending = λ fd path w. refl;
  write_pending = λ fd path content w. refl;
}

abbrev pub promise : true ≡ true → IsReliable script script_laws (pos 3)
promise _ = λ n w h k. script_reliable n w.incoming w h k

-- Behind the header byte 200: image 7, two bytes long, and the next answer's header.
abbrev pub arrived : Machine
arrived = record {
  clock = 0;
  incoming = 0 ∷ 0 ∷ 0 ∷ 7 ∷ 0 ∷ 0 ∷ 0 ∷ 2 ∷ 90 ∷ 9 ∷ 101 ∷ [];
  written = [];
  scene = 0;
  raw = none;
  disk = λ path. none;
}

abbrev pub client : TcpClient
client = record { fd = pos 3 }

abbrev pub app : ClientApp script desk
app = record {
  client = client;
  reporter = record { cycle_start = 0; last_report = 0; cycles_since_report = 0; accumulated = 0 };
  store = record { dir = [] };
  frame = [];
  frame_id = 0;
  state = link_lost;
  state_since = 0;
  last_response = 0;
  world = arrived;
}

receive_all-Receives_example :
    Returns
      (receive_all script 3000000006 client 4 3000 arrived)
      (λ r w'. Receives 4 arrived.incoming r w'.incoming)
receive_all-Receives_example =
    receive_all-Receives script script_laws 3000000006 client 4 3000 arrived (omega arith)

handle_response-Ends_example : Returns (handle_response script desk 3000000100 200 app) (
    Ends script desk true
      (Shows script desk script_laws (pos 3) (press 7 (90 ∷ 9 ∷ [])) (101 ∷ []) app))
unfolding encode with_image net_bytes
handle_response-Ends_example =
    handle_response-Ends script desk script_laws desk-IsLocal (pos 3) true promise 3000000100
      (press 7 (90 ∷ 9 ∷ [])) (101 ∷ []) app refl (omega arith, omega arith) (omega arith) refl

-- A saved image and a state are on their way, the acknowledgement behind them, then one more byte.
abbrev leaving : ClientApp script desk
leaving = record app {
  world = record arrived {
    incoming = 200 ∷ 0 ∷ 0 ∷ 0 ∷ 7 ∷ 0 ∷ 0 ∷ 0 ∷ 2 ∷ 90 ∷ 9 ∷ 202 ∷ 0 ∷ 0 ∷ 0 ∷ 7 ∷ 102 ∷ 33 ∷ [];
  };
}

request_shutdown-Drains_example : Returns (request_shutdown script desk 3000000100 leaving) (λ _ b.
    Drains script desk script_laws
      (pos 3)
      (33 ∷ [])
      2000000000
      (press 7 (90 ∷ 9 ∷ []) ∷ mismatch 7 ∷ [])
      leaving
      b)
unfolding encode with_image net_bytes
request_shutdown-Drains_example =
    request_shutdown-Drains script desk script_laws desk-IsLocal (pos 3) (promise refl) 3000000100
      (press 7 (90 ∷ 9 ∷ []) ∷ mismatch 7 ∷ []) (33 ∷ []) leaving refl
      ((omega arith, omega arith), (omega arith, tt)) (omega arith) refl

exchange_frame-Exchanges_example : Returns (exchange_frame script desk 3000000100 leaving) (
    Exchanges script desk script_laws
      (pos 3)
      (press 7 (90 ∷ 9 ∷ []))
      (202 ∷ 0 ∷ 0 ∷ 0 ∷ 7 ∷ 102 ∷ 33 ∷ [])
      leaving)
unfolding encode with_image net_bytes
exchange_frame-Exchanges_example =
    exchange_frame-Exchanges script desk script_laws desk-IsLocal (pos 3) (promise refl) 3000000100
      (press 7 (90 ∷ 9 ∷ [])) (202 ∷ 0 ∷ 0 ∷ 0 ∷ 7 ∷ 102 ∷ 33 ∷ []) leaving refl
      (omega arith, omega arith) (omega arith) refl

image_path_distinct_example :
    image_path (record { dir = 46 ∷ [] }) 1 ≢ image_path (record { dir = 46 ∷ [] }) 4294967295
image_path_distinct_example =
    image_path_distinct (record { dir = 46 ∷ [] }) 1 4294967295 (λ e. absurd (omega (arith, e)))

-- A client that is connected, and one more descriptor.
abbrev linked : Table
linked = record holding { sockets = with_all (only (pos 9)) (only client.fd) }

connect-Balanced_example :
    Balanced counting counted
      (only (pos 9))
      (connect counting client "192.168.7.2" 5000 60 500 linked)
connect-Balanced_example =
    connect-Balanced counting counted (only (pos 9)) client "192.168.7.2" 5000 60 500 linked refl

abbrev reporter : CycleReporter
reporter = record { cycle_start = 0; last_report = 0; cycles_since_report = 0; accumulated = 0 }

-- Two cycles; the second one ends after more than a second.
abbrev moments : List (Machine × Machine)
moments =
    (arrived, record arrived { clock = 600000000 })
    ∷ (record arrived { clock = 700000000 }, record arrived { clock = 1400000000 })
    ∷ []

cycles-accounts_example :
    let (reports, last) = cycles script reporter moments in
    (total_cycles reports + last.cycles_since_report ≡ 0 + 2)
    × (total_time reports + last.accumulated ≡ 0 + spent script moments)
    × AreSeconds reports
cycles-accounts_example = cycles-accounts script reporter moments

pub desk-NeverQuits : NeverQuits script desk
desk-NeverQuits = record { other_keys = λ ms w. refl }

run_stays_example : run script desk 100 app ≡ none
run_stays_example = run_stays script desk desk-NeverQuits 100 app

pub desk-Draws : Draws script script_laws desk
desk-Draws = record {
  imshow_pending = λ fd name m w. refl;
  wait_key_pending = λ fd ms w. refl;
  imshow_time = λ name m w. omega arith;
  wait_key_time = λ ms w. omega arith;
}

pub script-IsSilent : IsSilent script script_laws (pos 3)
script-IsSilent = record {
  takes = λ command w. refl;
  waits = λ w empty. ap (λ q. (deliver 1 q w).0) empty;
}

-- Nothing is on its way.
abbrev pub deserted : ClientApp script desk
deserted = record app { world = record arrived { incoming = [] } }

run_session_silent_example :
    Returns (run_session script desk 3000000001 deserted) (GivesUp script desk script_laws deserted)
run_session_silent_example =
    run_session_silent script desk script_laws desk-Draws desk-NeverQuits 3000000001 deserted
      script-IsSilent refl (omega arith)

pub desk_files : FileSystem script desk
desk_files = record {
  files = λ w. w.disk;
  unread = record { by_now = λ w. refl; by_recv = λ fd n w. deliver_disk n w.incoming w };
  send_files = λ fd data' w. refl;
  open_empties = λ path w ok. put_file_there path [] w;
  open_others = λ path other w differs. put_file_others path [] other w differs;
  write_appends = λ path content old w there ok.
      put_file_there path (content_of (w.disk path) ++ content) w
      ∙ ap (λ f. some (content_of f ++ content)) there;
  write_others = λ path content other w differs.
      put_file_others path (content_of (w.disk path) ++ content) other w differs;
}

abbrev pub images : ImageStore
images = record { dir = [] }

pub images-HasRoom : HasRoom script desk images
images-HasRoom = record { opens = λ id w. refl; writes = λ id content w. refl }

exchange_frame-Keeps_example :
    Returns
      (exchange_frame script desk 3000000100 leaving)
      (Keeps script desk desk_files images (press 7 (90 ∷ 9 ∷ [])) leaving)
unfolding encode with_image net_bytes
exchange_frame-Keeps_example =
    exchange_frame-Keeps script desk script_laws desk-IsLocal (pos 3) (promise refl) desk_files
      images images-HasRoom 3000000100 (press 7 (90 ∷ 9 ∷ [])) (202 ∷ 0 ∷ 0 ∷ 0 ∷ 7 ∷ 102 ∷ 33 ∷ [])
      leaving refl refl (omega arith, omega arith) (omega arith) refl

desk-Removal : Removal script desk (λ w. w.disk)
desk-Removal = record { remove_clears = λ dir name w ok. refl; create_files = λ dir w. refl }

-- The directory has an image of an earlier run.
abbrev used : Machine
used = put_file (image_path images 7) (90 ∷ []) arrived

was_reset : (reset script desk images used).0 ≡ true
unfolding reset
was_reset = refl

reset_clears_example : (reset script desk images used).1.disk (image_path images 7) ≡ none
reset_clears_example = reset_clears script desk (λ w. w.disk) desk-Removal images used 7 was_reset
