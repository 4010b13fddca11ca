-- ===== src/Server/Main.antt =====
-- Serveur/src/main.cpp: the program. Its result is the exit code; the objects of main are destroyed
-- when it returns. The output is left out.
pub mod Parts
pub mod Exit
mod Examples
use embedded_client_server_v.Prelude.{ℕ, Option, none, some, M, if◌then◌else◌}
use embedded_client_server_v.Protocol
use embedded_client_server_v.Posix.{Posix}
use embedded_client_server_v.Server.Config
use embedded_client_server_v.Server.Hardware.{Hardware}
use embedded_client_server_v.Server.App
use embedded_client_server_v.Server.App.{ServerApp}

module _ (os : Posix) (hw : Hardware os) where
  open os use {World}

  -- The app of main.
  pub started : World → ServerApp os hw
  started w =
      App.new os hw Protocol.port Config.recv_timeout_ms (App.install_signal_handlers os hw w)

  unfoldable pub run_app : ℕ → ServerApp os hw → Option (ℕ × World)
  run_app fuel a = elim (App.run os hw fuel a) [
    | none ↦ none
    | some (_, b) ↦ some (0, App.shut_down os hw b)
  ]

  unfoldable pub main : ℕ → M World ℕ
  unfolding started run_app
  main fuel w =
      let a = started w in
      if App.valid os hw a then run_app fuel a else some (1, App.shut_down os hw a)
