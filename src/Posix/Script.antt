-- ===== src/Posix/Script.antt =====
-- A concrete system for examples, which shows that the contract can be met. Its clock moves when a
-- receive waits; a receive delivers at most three bytes, a send accepts at most five.
use Prim.Native.Nat.{min}
use embedded_client_server_v.Prelude.{
  true, ℕ, zero, suc, ◌+◌, ◌≤◌, ◌<◌, ◌≡◌, refl, sym, ap, ◌∙◌, List, [], ◌∷◌, ◌++◌, Option, none, ℤ,
  pos, negsuc, arith, length, take, drop, take-append-drop, length-take,
}
use embedded_client_server_v.Posix.Types.{Posix, Received, Errno, again, would_block, bytes, error}
use embedded_client_server_v.Posix.Contract.{Laws}

pub record Machine : Type 0 where
  pub clock : ℕ
  pub incoming : List ℕ
  pub written : List ℕ
  pub scene : ℕ
  pub raw : Option ℤ
  -- the content of each file
  pub disk : List ℕ → Option (List ℕ)

abbrev pub deliver : ℕ → List ℕ → Machine → Received × Machine
deliver n [] w = (error again, record w { clock = w.clock + 60000000 })
deliver n (b ∷ rest) w =
    (bytes (take (min n 3) (b ∷ rest)), record w { incoming = drop (min n 3) (b ∷ rest) })

abbrev pub script : Posix
script = record {
  World = Machine;
  now = λ w. (w.clock, w);
  ignore_sigpipe = λ w. w;
  silence_stderr = λ w. (true, w);
  socket = λ w. (pos 3, w);
  set_reuse_addr = λ fd w. (pos 0, w);
  set_recv_timeout = λ fd s us w. w;
  bind = λ fd port w. (pos 0, w);
  listen = λ fd n w. (pos 0, w);
  accept = λ fd w. (pos 4, w);
  close = λ fd w. w;
  inet_pton = λ ip w. (pos 1, w);
  get_flags = λ fd w. (pos 2, w);
  set_flags = λ fd flags w. w;
  with_non_block = λ flags. flags;
  connect = λ fd ip port w. (none, w);
  poll = λ fd ms w. (pos 1, w);
  socket_error = λ fd w. ((pos 0, pos 0), w);
  recv = λ fd n w. deliver n w.incoming w;
  send = λ fd data' w. (
    pos (min (length data') 5),
    record w { written = w.written ++ take (min (length data') 5) data' },
  );
}

pub deliver_bytes :
    (n : ℕ) (q : List ℕ) (w : Machine) (c : List ℕ)
    → (deliver n q w).0 ≡ bytes c
    → (length c ≤ n) × (q ≡ c ++ (deliver n q w).1.incoming)
deliver_bytes n [] w c e = absurd (cc e)
deliver_bytes n (b ∷ q) w c e =
    let whole : take (min n 3) (b ∷ q) ≡ c = ground (arith, e) in
    (
      omega (arith, ap length whole, length-take (min n 3) (b ∷ q)),
      sym (take-append-drop (min n 3) (b ∷ q)) ∙ ap (λ x. x ++ drop (min n 3) (b ∷ q)) whole,
    )

pub deliver_error :
    (n : ℕ) (q : List ℕ) (w : Machine) (e : Errno)
    → (deliver n q w).0 ≡ error e
    → (q ≡ []) × (w.clock < (deliver n q w).1.clock)
deliver_error n [] w e h = (refl, omega arith)
deliver_error n (b ∷ q) w e h = absurd (cc h)

pub deliver_fields :
    (n : ℕ) (q : List ℕ) (w : Machine)
    → (w.clock ≤ (deliver n q w).1.clock) × ((deliver n q w).1.written ≡ w.written)
deliver_fields n [] w = (omega arith, refl)
deliver_fields n (b ∷ q) w = (omega arith, refl)

pub deliver_error_incoming :
    (n : ℕ) (q : List ℕ) (w : Machine) (e : Errno)
    → q ≡ w.incoming
    → (deliver n q w).0 ≡ error e
    → (deliver n q w).1.incoming ≡ w.incoming
deliver_error_incoming n [] w e i h = refl
deliver_error_incoming n (b ∷ q) w e i h = absurd (cc h)

pub accepted_count :
    (data' written : List ℕ) (n : ℕ)
    → pos (min (length data') 5) ≡ pos n
    → (n ≤ length data') × (written ++ take (min (length data') 5) data' ≡ written ++ take n data')
accepted_count data' written n e =
    let count : min (length data') 5 ≡ n = ground (arith, e) in
    (omega arith, ap (λ k. written ++ take k data') count)

pub accepted_some : (k n : ℕ) → 0 < k → pos (min k 5) ≡ pos n → 0 < n
accepted_some k n h e = ground arith

pub never_negative {ℓ} : {A : Type ℓ} (k n : ℕ) → pos (min k 5) ≡ negsuc n → A
never_negative k n e = absurd (cc e)

abbrev pub script_laws : Laws script
script_laws = record {
  time = λ w. w.clock;
  pending = λ fd w. w.incoming;
  sent = λ fd w. w.written;
  now_reads = λ w. (omega arith, omega arith);
  now_pending = λ fd w. refl;
  now_sent = λ fd w. refl;
  recv_bytes = λ fd n w {c} e. deliver_bytes n w.incoming w c e;
  recv_error = λ fd n w {e} h. deliver_error_incoming n w.incoming w e refl h;
  recv_time = λ fd n w. (deliver_fields n w.incoming w).0;
  recv_again = λ fd n w h. (deliver_error n w.incoming w again h).1;
  recv_would_block = λ fd n w h. (deliver_error n w.incoming w would_block h).1;
  recv_sent = λ fd n w. (deliver_fields n w.incoming w).1;
  send_accepts = λ fd data' w {n} e. accepted_count data' w.written n e;
  send_some = λ fd data' w {n} h e. accepted_some (length data') n h e;
  send_refuses = λ fd data' w {n} e. never_negative (length data') n e;
  send_pending = λ fd data' w. refl;
  send_time = λ fd data' w. omega arith;
}

-- The script's connection is a reliable one.
pub script_reliable :
    (n : ℕ) (q : List ℕ) (w : Machine)
    → 0 < n
    → 0 < length q
    → (b : ℕ) × (c : List ℕ) × ((deliver n q w).0 ≡ bytes (b ∷ c))
script_reliable n [] w h k = absurd (omega arith)
script_reliable zero (b ∷ q) w h k = absurd (omega arith)
script_reliable (suc n) (b ∷ q) w h k =
    let count : min (suc n) 3 ≡ suc (min n 2) = omega arith in
    (b, take (min n 2) q, ap (λ m. bytes (take m (b ∷ q))) count)
