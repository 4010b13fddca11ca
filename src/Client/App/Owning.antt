-- ===== src/Client/App/Owning.antt =====
-- The sockets of the process through the exchanges of the client: none is opened or closed.
use Prim.Native.String.{String}
use embedded_client_server_v.Prelude.{ℕ, ◌≡◌, List, Option, pure, Ensures}
use embedded_client_server_v.Posix.{Posix, Descriptors, Held, with_all}
use embedded_client_server_v.Client.Desktop.{Desktop}
use embedded_client_server_v.Client.Store.{ImageStore}
use embedded_client_server_v.Client.Socket.{TcpClient, RecvResult}
use embedded_client_server_v.Client.Socket.Descriptors.{owned}
use embedded_client_server_v.Client.App.Handling.{Aside, stopped}
use embedded_client_server_v.Client.App.Handling
use embedded_client_server_v.Client.App.{
  ClientApp, DisplayState, set_state, handle_response, after_receive,
}

-- The window and the files are not sockets.
pub record LeavesSockets (os : Posix) (d : Descriptors os) (desk : Desktop os) : Type 0 where
  pub named_window_held :
      (name : String) (w : os.World) → d.held (desk.named_window name w) ≡ d.held w
  pub imshow_held :
      (name : String) (m : desk.Mat) (w : os.World) → d.held (desk.imshow name m w) ≡ d.held w
  pub wait_key_held : (ms : ℕ) (w : os.World) → d.held (desk.wait_key ms w).1 ≡ d.held w
  pub destroy_held : (w : os.World) → d.held (desk.destroy_all_windows w) ≡ d.held w
  pub remove_held : (path : List ℕ) (w : os.World) → d.held (desk.remove_all path w).1 ≡ d.held w
  pub create_held :
      (path : List ℕ) (w : os.World) → d.held (desk.create_directories path w).1 ≡ d.held w
  pub open_held : (path : List ℕ) (w : os.World) → d.held (desk.open_truncated path w).1 ≡ d.held w
  pub write_held :
      (path content : List ℕ) (w : os.World) → d.held (desk.write path content w).1 ≡ d.held w

module _ (os : Posix) (desk : Desktop os) (d : Descriptors os) (others : Held) where
  -- The process holds the client's descriptor, if it has one, and the others.
  abbrev pub Owns : ClientApp os desk → Type 0
  Owns a = d.held a.world ≡ with_all others (owned a.client)

  abbrev pub Keeps : {A : Type 0} → Option (A × ClientApp os desk) → Type 0
  Keeps r = Ensures r (λ _ b. Owns b)

module _ (os : Posix) (desk : Desktop os) (d : Descriptors os) (quiet : LeavesSockets os d desk)
    (others : Held) where
  open os use {World}

  abbrev App : Type 0
  App = ClientApp os desk

  aside : Aside os desk d.held
  aside = record {
    unread = record { by_now = d.now_held; by_recv = d.recv_held };
    by_open = quiet.open_held;
    by_write = quiet.write_held;
  }

  abbrev Level : TcpClient → ImageStore → Held → Type 0
  Level c s n = n ≡ with_all others (owned c)

  pub kept :
      {A : Type 0} (x : A) (a : App) → Owns os desk d others a → Keeps os desk d others (pure x a)
  kept x a h = stopped os desk d.held aside Level x a h

  pub handle_response-Keeps :
      (fuel response : ℕ) (a : App)
      → Owns os desk d others a
      → Keeps os desk d others (handle_response os desk fuel response a)
  handle_response-Keeps fuel response a h =
      Handling.handle_response-Keeps os desk d.held aside Level fuel response a h

  pub after_receive-Keeps :
      (fuel : ℕ) (r : RecvResult) (response : ℕ) (a : App)
      → Owns os desk d others a
      → Keeps os desk d others (after_receive os desk fuel r response a)
  after_receive-Keeps fuel r response a h =
      Handling.after_receive-Keeps os desk d.held aside Level fuel r response a h

  pub set_state-Owns :
      (s : DisplayState) (a : App)
      → Owns os desk d others a
      → Owns os desk d others (set_state os desk s a)
  set_state-Owns s a h = Handling.set_state-Holds os desk d.held aside Level s a h
