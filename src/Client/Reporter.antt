-- ===== src/Client/Reporter.antt =====
-- Client/src/cycle_reporter.cpp and Client/inc/cycle_reporter.h: the statistics of the cycles. The
-- milliseconds that the source keeps as `double` are whole nanoseconds here; the line that it
-- prints is the record of the numbers that it is computed from.
pub mod Accounts
use embedded_client_server_v.Prelude.{ℕ, ◌+◌, ◌-◌, Option, none, some, if◌then◌else◌, ltb}
use embedded_client_server_v.Posix.{Posix, milliseconds}

pub record CycleReporter : Type 0 where
  pub cycle_start : ℕ
  pub last_report : ℕ
  pub cycles_since_report : ℕ
  pub accumulated : ℕ

-- cycles per second are `cycles / since`, the mean cycle is `accumulated / cycles`
pub record Report : Type 0 where
  pub cycles : ℕ
  pub since : ℕ
  pub accumulated : ℕ

module _ (os : Posix) where
  open os use {World}

  -- The members of a new reporter; a default time point is the clock's epoch.
  unfoldable pub new : World → CycleReporter × World
  new w =
      let (t, w') = os.now w in
      (record { cycle_start = 0; last_report = t; cycles_since_report = 0; accumulated = 0 }, w')

  unfoldable pub begin_cycle : CycleReporter → World → CycleReporter × World
  begin_cycle r w = let (t, w') = os.now w in (record r { cycle_start = t }, w')

  unfoldable pub reset : CycleReporter → World → CycleReporter × World
  reset r w =
      let (t, w') = os.now w in
      (record r { last_report = t; cycles_since_report = 0; accumulated = 0 }, w')

  unfoldable pub end_cycle : CycleReporter → World → (CycleReporter × Option Report) × World
  unfolding reset
  end_cycle r w =
      let (now, w1) = os.now w in
      let accumulated = r.accumulated + (now - r.cycle_start) in
      let cycles = r.cycles_since_report + 1 in
      let since = now - r.last_report in
      let counted = record r { accumulated = accumulated; cycles_since_report = cycles } in
      let report : Report = record { cycles = cycles; since = since; accumulated = accumulated } in
      let (cleared, w2) = reset counted w1 in
      if ltb since (milliseconds 1000) then ((counted, none), w1) else ((cleared, some report), w2)
