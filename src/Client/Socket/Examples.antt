-- ===== src/Client/Socket/Examples.antt =====
-- The client's socket on the concrete system, whose connections are established at once.
use embedded_client_server_v.Prelude.{
  ℕ, ◌+◌, ◌≤◌, ◌≡◌, refl, true, List, [], ◌∷◌, pos, none, arith, Returns,
}
use embedded_client_server_v.Posix.{Machine, script, script_laws, deliver}
use embedded_client_server_v.Client.Config
use embedded_client_server_v.Client.Protocol
use embedded_client_server_v.Client.Socket.{
  unconnected, TcpClient, receive_all, apply_recv_timeout, close, attempt, conclude, established,
  connect,
}
use embedded_client_server_v.Client.Socket.Delay.{IsPrompt, rounds, receive_all-Within}

pub connected :
    (w : Machine)
    → connect script unconnected Config.server_ip Protocol.port Config.recv_timeout_ms
        Config.connect_timeout_ms w
      ≡ ((record unconnected { fd = pos 3 }, true), w)
unfolding connect attempt conclude established close apply_recv_timeout
connected w = refl

delivered_within : (n : ℕ) (q : List ℕ) (w : Machine) → (deliver n q w).1.clock ≤ w.clock + 60000000
delivered_within n [] w = omega arith
delivered_within n (b ∷ q) w = omega arith

-- Nine bytes are on their way.
abbrev arrived : Machine
arrived = record {
  clock = 0;
  incoming = 0 ∷ 0 ∷ 0 ∷ 7 ∷ 0 ∷ 0 ∷ 0 ∷ 2 ∷ 90 ∷ [];
  written = [];
  scene = 0;
  raw = none;
  disk = λ path. none;
}

abbrev client : TcpClient
client = record { fd = pos 3 }

script-IsPrompt : IsPrompt script script_laws 60000000 0
script-IsPrompt = record {
  recv_within = λ fd n w. delivered_within n w.incoming w;
  now_within = λ w. omega arith;
}

receive_all-Within_example :
    Returns
      (receive_all script 3000000006 client 4 3000 arrived)
      (λ r w'. w'.clock ≤ 0 + 3000000000 + 0 + 0 + rounds 5 60000000)
receive_all-Within_example =
    receive_all-Within script script_laws 60000000 0 script-IsPrompt 3000000006 client 4 3000
      arrived (omega arith)
