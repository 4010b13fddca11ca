-- ===== src/Posix/Types.antt =====
-- The calls: what they take and what they return.
use Prim.Native.String.{String}
use embedded_client_server_v.Prelude.{
  Bool, ℕ, ◌*◌, ◌≡◌, refl, ◌⊎◌, inl, inr, List, [], ◌∷◌, Option, ℤ,
}

-- The values of errno that the programs tell apart.
pub data Errno : Type 0 where
  again would_block in_progress fault : Errno

-- recv: the bytes read (none when the peer has closed the connection), or -1 with errno.
pub data Received : Type 0 where
  bytes : List ℕ → Received
  error : Errno → Received

pub Received-cases :
    (r : Received)
    → (r ≡ bytes [])
      ⊎ (((b : ℕ) × (c : List ℕ) × (r ≡ bytes (b ∷ c))) ⊎ ((e : Errno) × (r ≡ error e)))
Received-cases (bytes []) = inl refl
Received-cases (bytes (b ∷ c)) = inr (inl (b, c, refl))
Received-cases (error e) = inr (inr (e, refl))

pub record Posix : Type 1 where
  pub World : Type 0
  -- steady_clock::now
  pub now : World → ℕ × World
  -- signal(SIGPIPE, SIG_IGN); freopen of /dev/null on stderr: whether it returned something
  pub ignore_sigpipe : World → World
  pub silence_stderr : World → Bool × World
  -- socket, setsockopt, bind, listen, accept, close
  pub socket : World → ℤ × World
  pub set_reuse_addr : ℤ → World → ℤ × World
  pub set_recv_timeout : ℤ → ℕ → ℕ → World → World
  pub bind : ℤ → ℕ → World → ℤ × World
  pub listen : ℤ → ℕ → World → ℤ × World
  pub accept : ℤ → World → ℤ × World
  pub close : ℤ → World → World
  -- inet_pton on the address text; fcntl with F_GETFL and F_SETFL; flags | O_NONBLOCK
  pub inet_pton : String → World → ℤ × World
  pub get_flags : ℤ → World → ℤ × World
  pub set_flags : ℤ → ℤ → World → World
  pub with_non_block : ℤ → ℤ
  -- connect: none for 0, errno for -1. poll for POLLOUT; getsockopt(SO_ERROR): result and value
  pub connect : ℤ → String → ℕ → World → Option Errno × World
  pub poll : ℤ → ℕ → World → ℤ × World
  pub socket_error : ℤ → World → (ℤ × ℤ) × World
  -- recv of at most so many bytes, send
  pub recv : ℤ → ℕ → World → Received × World
  pub send : ℤ → List ℕ → World → ℤ × World

-- Durations in nanoseconds.
abbrev pub milliseconds : ℕ → ℕ
milliseconds n = n * 1000000
