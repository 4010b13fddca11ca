-- ===== src/Posix/Handles.antt =====
-- The sockets of the process: socket and accept open one when they succeed, close closes one.
use std.Path.{fun_ext}
use Prim.Native.String.{String}
use embedded_client_server_v.Prelude.{
  true, ℕ, arith, pos, some, refl, [], ◌∷◌, ◌+◌, ◌-◌, List, ◌≡◌, ℤ, eqb_ℤ, is_negative,
  if◌then◌else◌,
}
use embedded_client_server_v.Posix.Types.{Posix, bytes, in_progress}

-- How often each descriptor is held.
abbrev pub Held : Type 0
Held = ℤ → ℕ

-- One descriptor, and none for a negative number.
abbrev pub only : ℤ → Held
only fd x = if is_negative fd then 0 else if eqb_ℤ fd x then 1 else 0

abbrev pub with_all : Held → Held → Held
with_all f g x = f x + g x

abbrev pub without : Held → Held → Held
without f g x = f x - g x

pub without-with_all : (f g : Held) → without (with_all f g) g ≡ f
without-with_all f g = fun_ext (λ x. omega arith)

pub with_all_none : (f : Held) (fd : ℤ) → is_negative fd ≡ true → with_all f (only fd) ≡ f
with_all_none f fd closed = fun_ext (λ x. rw closed (omega arith))

-- Which sockets the process holds, and how the calls change that. A close gives the descriptor that
-- it names back, if it is held, and no other.
pub record Descriptors (os : Posix) : Type 0 where
  pub held : os.World → Held
  pub socket_held : (w : os.World) → held (os.socket w).1 ≡ with_all (held w) (only (os.socket w).0)
  pub close_held : (fd : ℤ) (w : os.World) → held (os.close fd w) ≡ without (held w) (only fd)
  pub inet_pton_held : (ip : String) (w : os.World) → held (os.inet_pton ip w).1 ≡ held w
  pub get_flags_held : (fd : ℤ) (w : os.World) → held (os.get_flags fd w).1 ≡ held w
  pub set_flags_held : (fd flags : ℤ) (w : os.World) → held (os.set_flags fd flags w) ≡ held w
  pub connect_held :
      (fd : ℤ) (ip : String) (port : ℕ) (w : os.World) → held (os.connect fd ip port w).1 ≡ held w
  pub poll_held : (fd : ℤ) (ms : ℕ) (w : os.World) → held (os.poll fd ms w).1 ≡ held w
  pub socket_error_held : (fd : ℤ) (w : os.World) → held (os.socket_error fd w).1 ≡ held w
  pub set_recv_timeout_held :
      (fd : ℤ) (s us : ℕ) (w : os.World) → held (os.set_recv_timeout fd s us w) ≡ held w
  pub now_held : (w : os.World) → held (os.now w).1 ≡ held w
  pub ignore_sigpipe_held : (w : os.World) → held (os.ignore_sigpipe w) ≡ held w
  pub silence_stderr_held : (w : os.World) → held (os.silence_stderr w).1 ≡ held w
  pub recv_held : (fd : ℤ) (n : ℕ) (w : os.World) → held (os.recv fd n w).1 ≡ held w
  pub send_held : (fd : ℤ) (data' : List ℕ) (w : os.World) → held (os.send fd data' w).1 ≡ held w
  pub set_reuse_addr_held : (fd : ℤ) (w : os.World) → held (os.set_reuse_addr fd w).1 ≡ held w
  pub bind_held : (fd : ℤ) (port : ℕ) (w : os.World) → held (os.bind fd port w).1 ≡ held w
  pub listen_held : (fd : ℤ) (n : ℕ) (w : os.World) → held (os.listen fd n w).1 ≡ held w
  pub accept_held :
      (fd : ℤ) (w : os.World)
      → held (os.accept fd w).1 ≡ with_all (held w) (only (os.accept fd w).0)

-- What a process holds, and how often it has looked at the keys.
pub record Table : Type 0 where
  pub sockets : Held
  pub polls : ℕ

-- A system that keeps the table of the descriptors, on which a connection is under way and then
-- refused, and whose every read finds a STOP.
abbrev pub counting : Posix
counting = record {
  World = Table;
  now = λ w. (0, w);
  ignore_sigpipe = λ w. w;
  silence_stderr = λ w. (true, w);
  socket = λ w. (pos 3, record w { sockets = with_all w.sockets (only (pos 3)) });
  set_reuse_addr = λ fd w. (pos 0, w);
  set_recv_timeout = λ fd s us w. w;
  bind = λ fd port w. (pos 0, w);
  listen = λ fd n w. (pos 0, w);
  accept = λ fd w. (pos 4, record w { sockets = with_all w.sockets (only (pos 4)) });
  close = λ fd w. record w { sockets = without w.sockets (only fd) };
  inet_pton = λ ip w. (pos 1, w);
  get_flags = λ fd w. (pos 2, w);
  set_flags = λ fd flags w. w;
  with_non_block = λ flags. flags;
  connect = λ fd ip port w. (some in_progress, w);
  poll = λ fd ms w. (pos 1, w);
  socket_error = λ fd w. ((pos 0, pos 111), w);
  recv = λ fd n w. (bytes (2 ∷ []), w);
  send = λ fd data' w. (pos 1, w);
}

abbrev pub counted : Descriptors counting
counted = record {
  held = λ w. w.sockets;
  socket_held = λ w. refl;
  close_held = λ fd w. refl;
  inet_pton_held = λ ip w. refl;
  get_flags_held = λ fd w. refl;
  set_flags_held = λ fd flags w. refl;
  connect_held = λ fd ip port w. refl;
  poll_held = λ fd ms w. refl;
  socket_error_held = λ fd w. refl;
  set_recv_timeout_held = λ fd s us w. refl;
  now_held = λ w. refl;
  ignore_sigpipe_held = λ w. refl;
  silence_stderr_held = λ w. refl;
  recv_held = λ fd n w. refl;
  send_held = λ fd data' w. refl;
  set_reuse_addr_held = λ fd w. refl;
  bind_held = λ fd port w. refl;
  listen_held = λ fd n w. refl;
  accept_held = λ fd w. refl;
}

-- A process that holds the descriptor 9.
abbrev pub holding : Table
holding = record { sockets = only (pos 9); polls = 0 }
