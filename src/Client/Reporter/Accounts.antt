-- ===== src/Client/Reporter/Accounts.antt =====
-- The reports over a run of cycles.
use embedded_client_server_v.Prelude.{
  ℕ, ◌+◌, ◌-◌, ◌≤◌, ◌≡◌, inl, inr, List, [], ◌∷◌, Option, some, none, arith, length, ltb,
  Bool-cases,
}
use embedded_client_server_v.Posix.{Posix, milliseconds}
use embedded_client_server_v.Client.Reporter.{CycleReporter, Report, begin_cycle, end_cycle, reset}

abbrev reported : Option Report → List Report → List Report
reported none rs = rs
reported (some r) rs = r ∷ rs

pub total_cycles : List Report → ℕ
total_cycles [] = 0
total_cycles (r ∷ rs) = r.cycles + total_cycles rs

pub total_time : List Report → ℕ
total_time [] = 0
total_time (r ∷ rs) = r.accumulated + total_time rs

-- Each report covers at least a second.
abbrev pub AreSeconds : List Report → Type 0
AreSeconds [] = Unit
AreSeconds (r ∷ rs) = (milliseconds 1000 ≤ r.since) × AreSeconds rs

module _ (os : Posix) where
  open os use {World}

  -- Cycles that begin and end at given worlds: the reports, and the reporter afterwards.
  pub cycles : CycleReporter → List (World × World) → List Report × CycleReporter
  cycles r [] = ([], r)
  cycles r ((begin, end') ∷ rest) =
      let (started, _) = begin_cycle os r begin in
      let ((ended, report), _) = end_cycle os started end' in
      let (reports, last) = cycles ended rest in (reported report reports, last)

  -- What the clock says the cycles took.
  pub spent : List (World × World) → ℕ
  spent [] = 0
  spent ((begin, end') ∷ rest) = ((os.now end').0 - (os.now begin).0) + spent rest

  end_cycle-accounts :
      (r : CycleReporter) (w : World) (rs : List Report)
      → let ((ended, report), _) = end_cycle os r w in
        (total_cycles (reported report rs) + ended.cycles_since_report
          ≡ r.cycles_since_report + 1 + total_cycles rs)
        × (total_time (reported report rs) + ended.accumulated
            ≡ r.accumulated + ((os.now w).0 - r.cycle_start) + total_time rs)
        × (AreSeconds rs → AreSeconds (reported report rs))
  unfolding total_cycles total_time end_cycle reset
  end_cycle-accounts r w rs =
      elim (Bool-cases (ltb ((os.now w).0 - r.last_report) (milliseconds 1000))) [
        | inl early ↦ rw (early, end_cycle) (omega arith, omega arith, λ s. s)
        | inr due ↦ rw (due, end_cycle) (omega arith, omega arith, λ s. (ground arith, s))
      ]

  -- The reports of a run of cycles, with what the reporter holds at the end, count every cycle
  -- once and sum up all of the time that the clock says the cycles took, beside what the reporter
  -- held before; and the time that each report covers is a second or more.
  pub cycles-accounts :
      (r : CycleReporter) (ws : List (World × World))
      → let (reports, last) = cycles r ws in
        (total_cycles reports + last.cycles_since_report ≡ r.cycles_since_report + length ws)
        × (total_time reports + last.accumulated ≡ r.accumulated + spent ws)
        × AreSeconds reports
  unfolding cycles spent total_cycles total_time end_cycle begin_cycle reset
  cycles-accounts r [] = (omega arith, omega arith, tt)
  cycles-accounts r ((begin, end') ∷ rest) =
      let started = (begin_cycle os r begin).0 in
      let ended = (end_cycle os started end').0 in
      let (counts, times, seconds) = cycles-accounts ended.0 rest in
      let (count, time, second) = end_cycle-accounts started end' (cycles ended.0 rest).0 in
      (omega (arith, counts, count), omega (arith, times, time), second seconds)
