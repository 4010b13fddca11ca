-- ===== src/Posix/Contract.antt =====
-- What the programs rely on of these calls, as POSIX documents them.
use embedded_client_server_v.Prelude.{
  ℕ, ◌∷◌, ◌≤◌, ◌<◌, ◌≡◌, List, ◌++◌, ℤ, pos, negsuc, length, take,
}
use embedded_client_server_v.Posix.Types.{Posix, Errno, again, would_block, bytes, error}

-- `time` is the clock at a world, `pending` the bytes that a connection is still to deliver,
-- `sent` those that it has accepted so far.
pub record Laws (os : Posix) : Type 0 where
  pub time : os.World → ℕ
  pub pending : ℤ → os.World → List ℕ
  pub sent : ℤ → os.World → List ℕ
  -- The clock is monotonic, and reading it does nothing else.
  pub now_reads : (w : os.World) → (time w ≤ (os.now w).0) × ((os.now w).0 ≤ time (os.now w).1)
  pub now_pending : (fd : ℤ) (w : os.World) → pending fd (os.now w).1 ≡ pending fd w
  pub now_sent : (fd : ℤ) (w : os.World) → sent fd (os.now w).1 ≡ sent fd w
  -- recv returns the next bytes, at most as many as were asked for.
  pub recv_bytes :
      (fd : ℤ) (n : ℕ) (w : os.World) {c : List ℕ}
      → (os.recv fd n w).0 ≡ bytes c
      → (length c ≤ n) × (pending fd w ≡ c ++ pending fd (os.recv fd n w).1)
  pub recv_error :
      (fd : ℤ) (n : ℕ) (w : os.World) {e : Errno}
      → (os.recv fd n w).0 ≡ error e
      → pending fd (os.recv fd n w).1 ≡ pending fd w
  pub recv_time : (fd : ℤ) (n : ℕ) (w : os.World) → time w ≤ time (os.recv fd n w).1
  -- A receive that times out has waited.
  pub recv_again :
      (fd : ℤ) (n : ℕ) (w : os.World)
      → (os.recv fd n w).0 ≡ error again
      → time w < time (os.recv fd n w).1
  pub recv_would_block :
      (fd : ℤ) (n : ℕ) (w : os.World)
      → (os.recv fd n w).0 ≡ error would_block
      → time w < time (os.recv fd n w).1
  pub recv_sent : (fd : ℤ) (n : ℕ) (w : os.World) → sent fd (os.recv fd n w).1 ≡ sent fd w
  -- send accepts a beginning of what it is given, or nothing.
  pub send_accepts :
      (fd : ℤ) (data' : List ℕ) (w : os.World) {n : ℕ}
      → (os.send fd data' w).0 ≡ pos n
      → (n ≤ length data') × (sent fd (os.send fd data' w).1 ≡ sent fd w ++ take n data')
  -- Given at least a byte, a blocking send that succeeds accepts at least one.
  pub send_some :
      (fd : ℤ) (data' : List ℕ) (w : os.World) {n : ℕ}
      → 0 < length data'
      → (os.send fd data' w).0 ≡ pos n
      → 0 < n
  pub send_refuses :
      (fd : ℤ) (data' : List ℕ) (w : os.World) {n : ℕ}
      → (os.send fd data' w).0 ≡ negsuc n
      → sent fd (os.send fd data' w).1 ≡ sent fd w
  pub send_pending :
      (fd : ℤ) (data' : List ℕ) (w : os.World) → pending fd (os.send fd data' w).1 ≡ pending fd w
  pub send_time : (fd : ℤ) (data' : List ℕ) (w : os.World) → time w ≤ time (os.send fd data' w).1

-- A connection that neither ends nor stalls while bytes are to come.
abbrev pub IsReliable : (os : Posix) → Laws os → ℤ → Type 0
IsReliable os laws fd =
    (n : ℕ) (w : os.World)
    → 0 < n
    → 0 < length (laws.pending fd w)
    → (b : ℕ) × (c : List ℕ) × ((os.recv fd n w).0 ≡ bytes (b ∷ c))
