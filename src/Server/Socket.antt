-- ===== src/Server/Socket.antt =====
-- Serveur/src/tcp_server.cpp and Serveur/inc/tcp_server.h: the listening socket and the connection
-- to the current client.
pub mod Sending
pub mod Descriptors
use embedded_client_server_v.Prelude.{
  ℕ, zero, suc, ◌+◌, ◌*◌, ◌/◌, ◌%◌, Bool, true, false, not, List, [], ◌∷◌, some, none, ℤ, pos,
  negsuc, is_negative, is_nonpos, to_nat, if◌then◌else◌, ltb, length, drop, M, pure, call,
}
use embedded_client_server_v.Posix.{Posix, Received, bytes, error, again, would_block, Errno}

pub data RecvResult : Type 0 where
  received timeout disconnected : RecvResult

pub record TcpServer : Type 0 where
  pub listen_fd : ℤ
  pub client_fd : ℤ
  pub recv_timeout_ms : ℕ

unfoldable pub valid : TcpServer → Bool
valid s = not (is_negative s.listen_fd)

module _ (os : Posix) where
  open os use {World}

  -- Interne::applyRecvTimeout
  apply_recv_timeout : ℤ → ℕ → World → World
  apply_recv_timeout fd timeout_ms =
      os.set_recv_timeout fd (timeout_ms / 1000) (timeout_ms % 1000 * 1000)

  -- The rest of the constructor once a step has failed: close and forget the socket.
  unfoldable pub abandon : TcpServer → World → TcpServer × World
  abandon s w = (record s { listen_fd = negsuc 0 }, os.close s.listen_fd w)

  unfoldable pub start_listening : TcpServer → World → TcpServer × World
  unfolding abandon
  start_listening s w =
      let (r, w') = os.listen s.listen_fd 1 w in if is_negative r then abandon s w' else (s, w')

  unfoldable pub bind_port : TcpServer → ℕ → World → TcpServer × World
  unfolding abandon start_listening
  bind_port s port w =
      let (r, w') = os.bind s.listen_fd port w in
      if is_negative r then abandon s w' else start_listening s w'

  unfoldable pub new : ℕ → ℕ → World → TcpServer × World
  unfolding abandon bind_port
  new port recv_timeout_ms w =
      let (fd, w') = os.socket w in
      let s : TcpServer = record {
        listen_fd = fd;
        client_fd = negsuc 0;
        recv_timeout_ms = recv_timeout_ms;
      } in
      let (r, w'') = os.set_reuse_addr fd w' in
      if is_negative fd
      then (s, w')
      else if is_negative r
      then abandon s w''
      else bind_port s port w''

  unfoldable pub wait_for_client : TcpServer → World → (TcpServer × Bool) × World
  unfolding apply_recv_timeout
  wait_for_client s w =
      let (fd, w') = os.accept s.listen_fd w in
      let t : TcpServer = record s { client_fd = fd } in
      if is_negative fd
      then ((t, false), w')
      else ((t, true), apply_recv_timeout fd s.recv_timeout_ms w')

  -- What a receive of one byte means: the result, and the variable that the byte is read into.
  abbrev pub one_byte : ℕ → Received → RecvResult × ℕ
  one_byte cmd (bytes []) = (disconnected, cmd)
  one_byte cmd (bytes (b ∷ _)) = (received, b)
  one_byte cmd (error again) = (timeout, cmd)
  one_byte cmd (error would_block) = (timeout, cmd)
  one_byte cmd (error _) = (disconnected, cmd)

  unfoldable pub receive_command : TcpServer → ℕ → World → (RecvResult × ℕ) × World
  receive_command s cmd w = let (r, w') = os.recv s.client_fd 1 w in (one_byte cmd r, w')

  unfoldable pub send_response : TcpServer → ℕ → World → Bool × World
  send_response s response w =
      let (n, w') = os.send s.client_fd (response ∷ []) w in (not (is_negative n), w')

  -- The loop of sendAll, from `sent` bytes on.
  unfoldable pub send_rest : ℕ → ℤ → List ℕ → ℕ → M World Bool
  send_rest zero fd data' sent w = none
  send_rest (suc fuel) fd data' sent w = elim (ltb sent (length data')) [
    | false ↦ some (true, w)
    | true ↦
        let (n, w') = os.send fd (drop sent data') w in
        elim (is_nonpos n) [
          | true ↦ some (false, w')
          | false ↦ send_rest fuel fd data' (sent + to_nat n) w'
        ]
  ]

  -- Each round that goes on sends at least a byte.
  unfoldable pub send_all : TcpServer → List ℕ → M World Bool
  send_all s data' = send_rest (suc (length data')) s.client_fd data' 0

  unfoldable pub close_client : TcpServer → World → TcpServer × World
  close_client s w =
      if is_negative s.client_fd
      then (s, w)
      else (record s { client_fd = negsuc 0 }, os.close s.client_fd w)

  -- The destructor.
  unfoldable pub shut_down : TcpServer → World → World
  unfolding close_client
  shut_down s w =
      let (t, w') = close_client s w in
      if is_negative t.listen_fd then w' else os.close t.listen_fd w'
