-- ===== src/Server/Button.antt =====
-- Serveur/src/button.cpp and Serveur/inc/button.h: the push button. The worker thread samples the
-- line; what libgpiod returns and the clock's readings are arguments. A time is in nanoseconds;
-- `a - b < c` on time points is written `a < b + c`. The worker's rounds and the main thread's
-- takePress meet only in the atomic flag, which a round writes at most once, as its last effect.
pub mod Watching
pub mod Reports
pub mod Lines
pub mod Examples
use Prim.Native.String.{String}
use embedded_client_server_v.Prelude.{
  ℕ, suc, ◌+◌, Bool, true, false, not, ◌||◌, ◌*◌, List, [], ◌∷◌, ℤ, pos, eqb_ℤ, is_negative,
  if◌then◌else◌, ltb,
}
use embedded_client_server_v.Posix.{Posix, milliseconds}
use embedded_client_server_v.Server.Config
use embedded_client_server_v.Server.Hardware.{Hardware}

pub record ButtonMonitor : Type 0 where
  pub has_chip : Bool
  pub has_line : Bool
  pub running : Bool
  pub pressed_level : ℤ
  pub poll_period : ℕ
  pub debounce : ℕ
  pub last_accepted : ℕ
  pub pressed : Bool

module _ (os : Posix) (hw : Hardware os) where
  open os use {World}

  -- The members before the body of the constructor.
  unfoldable pub initial : Bool → ℕ → ℕ → ButtonMonitor
  initial active_low debounce_ms poll_period_us = record {
    has_chip = false;
    has_line = false;
    running = false;
    pressed_level = if active_low then pos 0 else pos 1;
    poll_period = poll_period_us * 1000;
    debounce = milliseconds debounce_ms;
    last_accepted = 0;
    pressed = false;
  }

  -- The body, from the found line on.
  unfoldable pub request_line : ButtonMonitor → World → ButtonMonitor × World
  request_line b w =
      let (r, w') = hw.line_request_input Config.gpio_consumer w in
      if is_negative r
      then (b, w')
      else (record b { has_line = true; running = true }, hw.start_worker w')

  unfoldable pub find_line : ButtonMonitor → ℕ → World → ButtonMonitor × World
  unfolding request_line
  find_line b offset w =
      let (found, w') = hw.chip_get_line offset w in if found then request_line b w' else (b, w')

  unfoldable pub new : String → ℕ → Bool → ℕ → ℕ → World → ButtonMonitor × World
  unfolding initial find_line
  new chip offset active_low debounce_ms poll_period_us w =
      let b = initial active_low debounce_ms poll_period_us in
      let (opened, w') = hw.chip_open_by_name chip w in
      if opened then find_line (record b { has_chip = true }) offset w' else (b, w')

  unfoldable pub release_line : ButtonMonitor → World → World
  release_line b w = if b.has_line then hw.line_release w else w

  unfoldable pub close_chip : ButtonMonitor → World → World
  close_chip b w = if b.has_chip then hw.chip_close w else w

  -- The destructor. The worker can be joined when it was started, with the line; it reads `running`
  -- at the beginning of every round.
  unfoldable pub shut_down : ButtonMonitor → World → World
  unfolding release_line close_chip
  shut_down b w =
      let stopped = record b { running = false } in
      let joined = if b.has_line then hw.join_worker stopped.running w else w in
      close_chip stopped (release_line stopped joined)

abbrev pub valid : ButtonMonitor → Bool
valid b = b.has_line

-- takePress: `_pressed.exchange(false)`.
unfoldable pub take_press : ButtonMonitor → Bool × ButtonMonitor
take_press b = (b.pressed, record b { pressed = false })

-- The local variables of watchLoop.
pub record Watch : Type 0 where
  pub previous : ℤ
  pub press_seen : Bool

-- The variables before the loop, from the first reading.
unfoldable pub start_watch : ButtonMonitor → ℤ → Watch
start_watch b value = record {
  previous = if is_negative value then b.pressed_level else value;
  press_seen = false;
}

-- A reading of the line, with the time at which the round would read the clock.
pub record Sample : Type 0 where
  pub value : ℤ
  pub now : ℕ

-- The release after a press.
accept_release : ButtonMonitor → ℕ → ButtonMonitor
accept_release b now =
    if ltb now (b.last_accepted + b.debounce)
    then b
    else record b { last_accepted = now; pressed = true }

-- One round of the loop of watchLoop.
pub watch_round : ButtonMonitor → Watch → Sample → ButtonMonitor × Watch
unfolding accept_release
watch_round b v s =
    if is_negative s.value || eqb_ℤ s.value v.previous
    then (b, v)
    else if eqb_ℤ s.value b.pressed_level
    then (b, record { previous = s.value; press_seen = true })
    else if not v.press_seen
    then (b, record v { previous = s.value })
    else (accept_release b s.now, record { previous = s.value; press_seen = false })

pub watch_loop : ButtonMonitor → Watch → List Sample → ButtonMonitor × Watch
watch_loop b v [] = (b, v)
watch_loop b v (s ∷ rest) = let (b', v') = watch_round b v s in watch_loop b' v' rest

-- The two threads, one atomic action after the other.
pub data Action : Type 0 where
  sampled : Sample → Action
  taken : Action

-- The number of calls of takePress that returned true, and the monitor after the actions.
pub interleave : ButtonMonitor → Watch → List Action → ℕ × ButtonMonitor
interleave b v [] = (0, b)
interleave b v (sampled s ∷ rest) = let (b', v') = watch_round b v s in interleave b' v' rest
interleave b v (taken ∷ rest) =
    let (press, b') = take_press b in
    let (n, b'') = interleave b' v rest in ((if press then suc n else n), b'')
