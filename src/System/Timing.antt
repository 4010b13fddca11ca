-- ===== src/System/Timing.antt =====
-- Serveur/inc/config.h and Client/inc/config.h together: which side gives up a dead link first.
use embedded_client_server_v.Prelude.{ℕ, ◌+◌, ◌-◌, ◌≤◌, ◌<◌, ◌≡◌, [], arith, Returns, Returns-mono}
use embedded_client_server_v.Posix.{Posix, Laws, milliseconds}
use embedded_client_server_v.Server.Hardware.{Hardware}
use embedded_client_server_v.Server.App.{ServerApp, gone, serve_loop}
use embedded_client_server_v.Server.App.Silence
use embedded_client_server_v.Server.App.Silence.{idle_limit}
use embedded_client_server_v.Server.App.Patience.{IsPrompt, serve_loop-EndsInTime}
use embedded_client_server_v.Client.Desktop.{Desktop}
use embedded_client_server_v.Client.App.{ClientApp, link_broken, run_session}
use embedded_client_server_v.Client.App.Staying.{NeverQuits}
use embedded_client_server_v.Client.App.Losing.{Draws, link_limit, run_session_silent}
use embedded_client_server_v.Client.App.Losing

module _ (os : Posix) (hw : Hardware os) (laws : Laws os) (receiving reading : ℕ)
    (client_os : Posix) (desk : Desktop client_os) (client_laws : Laws client_os)
    (draws : Losing.Draws client_os client_laws desk) (stays : NeverQuits client_os desk) where
  -- The link goes dead in the middle of a session, so that each side finds the other silent, and
  -- the user does not quit. One receive and two readings of the clock take the server at most 2 s
  -- together; the limit since its last command has not been overrun by more than such a reading.
  -- With fuel above the nanoseconds left to each side, both sessions end by themselves, and the
  -- server's ends no longer after its last command than the client's ends after its last answer.
  pub serve_loop-run_session :
      (fuel client_fuel : ℕ) (a : ServerApp os hw) (c : ClientApp client_os desk)
      → Silence.IsSilent os laws a.server.client_fd
      → IsPrompt os laws a.server.client_fd receiving reading
      → Losing.IsSilent client_os client_laws c.client.fd
      → laws.pending a.server.client_fd a.world ≡ []
      → client_laws.pending c.client.fd c.world ≡ []
      → laws.time a.world ≤ a.last_command + idle_limit os hw laws + reading
      → receiving + reading + reading ≤ milliseconds 2000
      → (a.last_command + idle_limit os hw laws) - laws.time a.world < fuel
      → (c.last_response + link_limit) - client_laws.time c.world < client_fuel
      → Returns (serve_loop os hw fuel gone a) (λ o b.
        (o ≡ gone)
        × Returns (run_session client_os desk client_fuel c) (λ reason d.
          (reason ≡ link_broken)
          × (laws.time b.world - a.last_command ≤ client_laws.time d.world - c.last_response)))
  serve_loop-run_session fuel client_fuel a c silent prompt client_silent empty client_empty early
        short enough client_enough =
      Returns-mono _ _
        (λ o b server. (
          server.0,
          Returns-mono _ _
              (λ reason d client. (client.0, omega (arith, server.1, server.2, client.1, short)))
              (run_session_silent client_os desk client_laws draws stays client_fuel c client_silent
                client_empty client_enough),
        ))
        (serve_loop-EndsInTime os hw laws receiving reading fuel a silent prompt empty early enough)
