-- ===== src/Client/App/State.antt =====
-- Client/inc/client_app.h, and of Client/src/client_app.cpp what the window shows: the state of the
-- client, initialize, setState and the display.
use Prim.Native.String.{String}
use embedded_client_server_v.Prelude.{
  ℕ, ◌-◌, ◌/◌, Bool, true, false, ◌||◌, List, ◌++◌, none, some, ℤ, pos, eqb_ℤ, if◌then◌else◌, M,
  pure,
}
use embedded_client_server_v.Posix.{Posix}
use embedded_client_server_v.Client.Config
use embedded_client_server_v.Client.Desktop.{Desktop, codes}
use embedded_client_server_v.Client.Store.{ImageStore, save}
use embedded_client_server_v.Client.Store
use embedded_client_server_v.Client.Reporter.{CycleReporter, Report, begin_cycle, end_cycle}
use embedded_client_server_v.Client.Reporter
use embedded_client_server_v.Client.Socket.{TcpClient, RecvResult, received, timeout, disconnected}
use embedded_client_server_v.Client.Socket

pub data DisplayState : Type 0 where
  normal no_light sensor_error link_lost : DisplayState

pub data LoopExit : Type 0 where
  user_quit link_broken : LoopExit

abbrev pub same : DisplayState → DisplayState → Bool
same normal normal = true
same no_light no_light = true
same sensor_error sensor_error = true
same link_lost link_lost = true
same _ _ = false

-- Interne::isQuitKey
abbrev pub is_quit_key : ℤ → Bool
is_quit_key key = eqb_ℤ key (pos b'q') || eqb_ℤ key (pos b'Q')

-- Interne::withElapsed, with the printed seconds
abbrev with_elapsed : List ℕ → List ℕ → List ℕ
with_elapsed message seconds = message ++ (codes " (t = " ++ (seconds ++ codes " s)"))

module _ (os : Posix) (desk : Desktop os) where
  open os use {World}
  open desk use {Mat}

  pub record ClientApp : Type 0 where
    pub client : TcpClient
    pub reporter : CycleReporter
    pub store : ImageStore
    pub frame : Mat
    pub frame_id : ℕ
    pub state : DisplayState
    pub state_since : ℕ
    pub last_response : ℕ
    pub world : World

  -- Interne::createEmptyFrame, drawFrameId and drawMessage
  abbrev pub create_empty_frame : Mat
  create_empty_frame = desk.zeros Config.frame_height Config.frame_width

  abbrev pub draw_frame_id : Mat → ℕ → Mat
  draw_frame_id image frame_id =
      desk.put_text image (codes "Frame " ++ Store.to_string frame_id) (10, 30) (0, 255, 0)

  abbrev pub draw_message : Mat → List ℕ → Mat
  draw_message image message =
      desk.put_text image message (40, Config.frame_height / 2) (255, 255, 255)

  -- The members as they are when initialize is called. A default-constructed image is empty.
  unfoldable pub new : Mat → World → ClientApp
  new no_image w =
      let (reporter, w1) = Reporter.new os w in
      let (since, w2) = os.now w1 in
      let (response, w3) = os.now w2 in
      record {
        client = Socket.unconnected;
        reporter = reporter;
        store = Store.new Config.image_dir;
        frame = no_image;
        frame_id = 0;
        state = link_lost;
        state_since = since;
        last_response = response;
        world = w3;
      }

  abbrev pub on_world : {A : Type 0} → M World A → M ClientApp A
  on_world m a = elim (m a.world) [ none ↦ none | some (x, w) ↦ some (x, record a { world = w }) ]

  unfoldable pub initialize : ClientApp → Bool × ClientApp
  initialize a =
      let (cleared, w) = Store.reset os desk a.store a.world in
      if cleared
      then (
        true,
        record a { frame = create_empty_frame; world = desk.named_window Config.window_name w },
      )
      else (false, record a { world = w })

  unfoldable pub set_state : DisplayState → ClientApp → ClientApp
  set_state state a =
      let (t, w) = os.now a.world in
      if same state a.state then a else record a { state = state; state_since = t; world = w }

  -- elapsedSeconds, in nanoseconds
  unfoldable pub elapsed : ClientApp → ℕ × World
  elapsed a = let (t, w) = os.now a.world in (t - a.state_since, w)

  -- The text for a state with a clock, after so many nanoseconds in it.
  timed_message : String → ℕ → List ℕ
  timed_message message ns = with_elapsed (codes message) (desk.print_seconds ns)

  -- The two states with a clock read it.
  unfoldable pub compose : DisplayState → ClientApp → Mat × World
  unfolding elapsed timed_message
  compose normal a = (a.frame, a.world)
  compose no_light a =
      let (ns, w) = elapsed a in
      (draw_message create_empty_frame (timed_message Config.no_light_message ns), w)
  compose sensor_error a =
      let (ns, w) = elapsed a in
      (draw_message create_empty_frame (timed_message Config.sensor_error_message ns), w)
  compose link_lost a =
      (draw_message create_empty_frame (codes Config.connection_lost_message), a.world)

  unfoldable pub compose_frame : ClientApp → Mat × World
  unfolding compose
  compose_frame a = compose a.state a

  unfoldable pub display_and_poll_key : ℕ → M ClientApp Bool
  display_and_poll_key wait_ms a =
      let (image, w) = compose_frame a in
      let (key, w') = desk.wait_key wait_ms (desk.imshow Config.window_name image w) in
      pure (is_quit_key key) (record a { world = w' })
