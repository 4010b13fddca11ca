-- ===== src/Client/Socket.antt =====
-- Client/src/tcp_client.cpp and Client/inc/tcp_client.h: the connection to the server.
pub mod Examples
pub mod Receiving
pub mod Unread
pub mod Delay
pub mod Descriptors
use Prim.Native.String.{String}
use embedded_client_server_v.Prelude.{
  ℕ, zero, suc, ◌+◌, ◌-◌, ◌*◌, ◌/◌, ◌%◌, Bool, true, false, not, List, [], ◌∷◌, ◌++◌, Option, none,
  some, ℤ, pos, negsuc, is_negative, is_nonpos, eqb_ℤ, if◌then◌else◌, ltb, length, M,
}
use embedded_client_server_v.Posix.{
  Posix, Received, bytes, error, Errno, again, would_block, in_progress, fault, milliseconds,
}

pub data RecvResult : Type 0 where
  received timeout disconnected : RecvResult

pub record TcpClient : Type 0 where
  pub fd : ℤ

abbrev pub unconnected : TcpClient
unconnected = record { fd = negsuc 0 }

-- `errno == EAGAIN || errno == EWOULDBLOCK`
abbrev pub is_timeout : Errno → Bool
is_timeout again = true
is_timeout would_block = true
is_timeout in_progress = false
is_timeout fault = false

module _ (os : Posix) where
  open os use {World}

  -- Interne::applyRecvTimeout
  apply_recv_timeout : ℤ → ℕ → World → World
  apply_recv_timeout fd timeout_ms =
      os.set_recv_timeout fd (timeout_ms / 1000) (timeout_ms % 1000 * 1000)

  -- Interne::waitForConnect
  unfoldable pub wait_for_connect : ℤ → ℕ → World → Bool × World
  wait_for_connect fd timeout_ms w =
      let (n, w') = os.poll fd timeout_ms w in
      let ((r, value), w'') = os.socket_error fd w' in
      if is_nonpos n
      then (false, w')
      else if is_negative r
      then (false, w'')
      else (eqb_ℤ value (pos 0), w'')

  unfoldable pub close : TcpClient → World → TcpClient × World
  close c w = if is_negative c.fd then (c, w) else (record c { fd = negsuc 0 }, os.close c.fd w)

  -- A failed attempt closes the socket.
  unfoldable pub give_up : TcpClient → World → (TcpClient × Bool) × World
  unfolding close
  give_up c w = let (c', w') = close c w in ((c', false), w')

  -- Back to blocking mode.
  established : TcpClient → ℤ → ℕ → World → (TcpClient × Bool) × World
  unfolding apply_recv_timeout
  established c flags recv_timeout_ms w =
      ((c, true), apply_recv_timeout c.fd recv_timeout_ms (os.set_flags c.fd flags w))

  -- What follows a connect that returned so.
  unfoldable pub conclude :
      TcpClient → ℤ → ℕ → ℕ → Option Errno → World → (TcpClient × Bool) × World
  unfolding give_up established
  conclude c flags recv_timeout_ms connect_timeout_ms none w = established c flags recv_timeout_ms w
  conclude c flags recv_timeout_ms connect_timeout_ms (some in_progress) w =
      let (connected, w') = wait_for_connect c.fd connect_timeout_ms w in
      if connected then established c flags recv_timeout_ms w' else give_up c w'
  conclude c flags recv_timeout_ms connect_timeout_ms (some again) w = give_up c w
  conclude c flags recv_timeout_ms connect_timeout_ms (some would_block) w = give_up c w
  conclude c flags recv_timeout_ms connect_timeout_ms (some fault) w = give_up c w

  -- connect from the address on, with an open socket.
  unfoldable pub attempt : TcpClient → String → ℕ → ℕ → ℕ → World → (TcpClient × Bool) × World
  unfolding give_up conclude
  attempt c ip port recv_timeout_ms connect_timeout_ms w =
      let (r, w1) = os.inet_pton ip w in
      let (flags, w2) = os.get_flags c.fd w1 in
      let (e, w3) = os.connect c.fd ip port (os.set_flags c.fd (os.with_non_block flags) w2) in
      if is_nonpos r then give_up c w1 else conclude c flags recv_timeout_ms connect_timeout_ms e w3

  unfoldable pub connect : TcpClient → String → ℕ → ℕ → ℕ → World → (TcpClient × Bool) × World
  unfolding close attempt
  connect c ip port recv_timeout_ms connect_timeout_ms w =
      let (_, w1) = close c w in
      let (fd, w2) = os.socket w1 in
      let c' : TcpClient = record { fd = fd } in
      if is_negative fd
      then ((c', false), w2)
      else attempt c' ip port recv_timeout_ms connect_timeout_ms w2

  unfoldable pub send : TcpClient → ℕ → World → Bool × World
  send c command w = let (n, w') = os.send c.fd (command ∷ []) w in (not (is_negative n), w')

  -- What a receive of one byte means: the result, and the variable that the byte is read into.
  abbrev pub one_byte : ℕ → Received → RecvResult × ℕ
  one_byte response (bytes []) = (disconnected, response)
  one_byte response (bytes (b ∷ _)) = (received, b)
  one_byte response (error e) = ((if is_timeout e then timeout else disconnected), response)

  unfoldable pub receive : TcpClient → ℕ → World → (RecvResult × ℕ) × World
  receive c response w = let (r, w') = os.recv c.fd 1 w in (one_byte response r, w')

  -- The loop of receiveAll; the buffer holds the bytes received so far.
  unfoldable pub receive_rest : ℕ → ℤ → ℕ → ℕ → List ℕ → M World (RecvResult × List ℕ)
  receive_rest zero fd size deadline buffer w = none
  receive_rest (suc fuel) fd size deadline buffer w = elim (ltb (length buffer) size) [
    | false ↦ some ((received, buffer), w)
    | true ↦
        let (r, w') = os.recv fd (size - length buffer) w in
        elim r [
          | bytes [] ↦ some ((disconnected, buffer), w')
          | bytes (b ∷ c) ↦ receive_rest fuel fd size deadline (buffer ++ b ∷ c) w'
          | error e ↦ elim (is_timeout e) [
            | false ↦ some ((disconnected, buffer), w')
            | true ↦
                let (t, w'') = os.now w' in
                elim (ltb t deadline) [
                  | false ↦ some ((disconnected, buffer), w'')
                  | true ↦ receive_rest fuel fd size deadline buffer w''
                ]
          ]
        ]
  ]

  unfoldable pub receive_all : ℕ → TcpClient → ℕ → ℕ → M World (RecvResult × List ℕ)
  receive_all fuel c size timeout_ms w =
      let (t, w') = os.now w in receive_rest fuel c.fd size (t + milliseconds timeout_ms) [] w'
