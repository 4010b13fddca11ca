-- ===== src/Client/App/Starting.antt =====
-- The sockets of the process until initialize has returned.
use embedded_client_server_v.Prelude.{◌≡◌, refl, sym, negsuc, ◌∙◌, inl, inr, Bool-cases}
use embedded_client_server_v.Posix.{Posix, Descriptors, with_all_none}
use embedded_client_server_v.Client.Config
use embedded_client_server_v.Client.Desktop.{Desktop}
use embedded_client_server_v.Client.Reporter
use embedded_client_server_v.Client.Store
use embedded_client_server_v.Client.Store.{ImageStore}
use embedded_client_server_v.Client.App.{new, initialize}
use embedded_client_server_v.Client.App.Owning.{LeavesSockets, Owns}

module _ (os : Posix) (desk : Desktop os) (d : Descriptors os)
    (quiet : LeavesSockets os d desk) where
  open os use {World}

  new_held : (no_image : desk.Mat) (w : World) → Owns os desk d (d.held w) (new os desk no_image w)
  unfolding new Reporter.new
  new_held no_image w =
      d.now_held (os.now (os.now w).1).1
      ∙ d.now_held (os.now w).1
      ∙ d.now_held w
      ∙ sym (with_all_none (d.held w) (negsuc 0) refl)

  reset_held : (s : ImageStore) (w : World) → d.held (Store.reset os desk s w).1 ≡ d.held w
  unfolding Store.reset
  reset_held s w =
      let w1 = (desk.remove_all s.dir w).1 in
      elim (Bool-cases (desk.remove_all s.dir w).0) [
        | inl stays ↦ rw (stays, Store.reset) (quiet.remove_held s.dir w)
        | inr gone ↦ rw (gone, Store.reset) (quiet.create_held s.dir w1 ∙ quiet.remove_held s.dir w)
      ]

  pub initialize-Owns :
      (no_image : desk.Mat) (w : World)
      → Owns os desk d (d.held w) (initialize os desk (new os desk no_image w)).1
  unfolding initialize
  initialize-Owns no_image w =
      let a = new os desk no_image w in
      let cleared = reset_held a.store a.world ∙ new_held no_image w in
      elim (Bool-cases (Store.reset os desk a.store a.world).0) [
        | inl ok ↦ rw (ok, initialize) (quiet.named_window_held Config.window_name _ ∙ cleared)
        | inr failed ↦ rw (failed, initialize) cleared
      ]
