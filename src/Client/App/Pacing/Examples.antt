-- ===== src/Client/App/Pacing/Examples.antt =====
-- The waits and attempts of connectToServer at concrete inputs.
use embedded_client_server_v.Prelude.{
  ◌∙◌, Option, suc, ap, Bool, ℕ, ◌+◌, ◌*◌, ◌≡◌, refl, true, false, some, pos, arith, Returns,
}
use embedded_client_server_v.Posix.{Posix, script, script_laws}
use embedded_client_server_v.Client.Desktop.{Desktop}
use embedded_client_server_v.Client.Socket.{unconnected}
use embedded_client_server_v.Client.Socket.Examples.{connected}
use embedded_client_server_v.Client.App.{
  ClientApp, is_quit_key, compose, compose_frame, display_and_poll_key, wait_until, attempt,
  connect_loop,
}
use embedded_client_server_v.Client.Config
use embedded_client_server_v.Client.App.Drawing.{shown}
use embedded_client_server_v.Client.App.Losing.{Draws}
use embedded_client_server_v.Client.App.Waiting.{TakesTime, Waited, wait_until-Waited}
use embedded_client_server_v.Client.App.Pacing.{trying, Paced, connect_loop-Paced}
use embedded_client_server_v.Client.Examples.{desk, app, arrived}

-- A window whose poll of the keys takes its whole time.
abbrev slow : Desktop script
slow = record desk { wait_key = λ ms w. (pos 0, record w { clock = w.clock + ms * 1000000 + 1 }) }

slow-Draws : Draws script script_laws slow
slow-Draws = record {
  imshow_pending = λ fd name m w. refl;
  wait_key_pending = λ fd ms w. refl;
  imshow_time = λ name m w. omega arith;
  wait_key_time = λ ms w. omega arith;
}

slow-TakesTime : TakesTime script script_laws slow
slow-TakesTime = record { waits = λ ms w. omega arith }

abbrev alone : ClientApp script slow
alone = record {
  client = unconnected;
  reporter = app.reporter;
  store = app.store;
  frame = app.frame;
  frame_id = 0;
  state = app.state;
  state_since = 0;
  last_response = 0;
  world = arrived;
}

wait_until-Waited_example :
    Returns
      (wait_until script slow 500000001 500000000 alone)
      (Waited script slow script_laws 500000000 alone)
wait_until-Waited_example =
    wait_until-Waited script slow script_laws slow-Draws slow-TakesTime 500000001 500000000 alone
      (omega arith)

abbrev joined : ClientApp script slow
joined = record alone {
  client = record unconnected { fd = pos 3 };
  world = record arrived { clock = 30000001 };
}

tries : attempt script slow (record alone { world = joined.world }) ≡ (true, joined)
unfolding attempt
tries =
    ap {B = Bool × ClientApp script slow}
      (λ r. (r.0.1, record alone { client = r.0.0; world = r.1 })) (connected joined.world)

first_try :
    (os : Posix) (desk : Desktop os) (fuel : ℕ) (a : ClientApp os desk)
    → is_quit_key (desk.wait_key Config.ui_poll_ms (shown os desk a)).0 ≡ false
    → (attempt os desk (trying os desk a)).0 ≡ true
    → connect_loop os desk (suc fuel) a ≡ some (true, (attempt os desk (trying os desk a)).1)
unfolding display_and_poll_key connect_loop
first_try os desk fuel a stays ok = rw (stays, ok, connect_loop) refl

joins : connect_loop script slow 7 alone ≡ some (true, joined)
unfolding compose compose_frame
joins =
    first_try script slow 6 alone refl (ap (λ r. r.0) tries)
    ∙ ap {B = Option (Bool × ClientApp script slow)} (λ r. some (true, r.1)) tries

connect_loop-Paced_example : Paced script slow script_laws alone true joined
connect_loop-Paced_example =
    connect_loop-Paced script slow script_laws slow-Draws 7 alone true joined joins
