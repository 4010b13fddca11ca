-- ===== src/Client/Main.antt =====
-- Client/src/main.cpp: the program. Its result is the exit code; the object of main is destroyed
-- when it returns.
pub mod Exit
pub mod Examples
use embedded_client_server_v.Prelude.{ℕ, Option, none, some, true, false, M}
use embedded_client_server_v.Posix.{Posix}
use embedded_client_server_v.Client.Desktop.{Desktop}
use embedded_client_server_v.Client.App
use embedded_client_server_v.Client.App.{ClientApp}

module _ (os : Posix) (desk : Desktop os) where
  open os use {World}

  unfoldable pub run_app : ℕ → ClientApp os desk → Option (ℕ × World)
  run_app fuel a = elim (App.run os desk fuel a) [
    | none ↦ none
    | some (_, b) ↦ some (0, App.shut_down os desk b)
  ]

  -- `no_image` is the default-constructed image.
  unfoldable pub main : desk.Mat → ℕ → M World ℕ
  unfolding run_app
  main no_image fuel w =
      let (ready, a) = App.initialize os desk (App.new os desk no_image w) in
      elim ready [ true ↦ run_app fuel a | false ↦ some (1, App.shut_down os desk a) ]
