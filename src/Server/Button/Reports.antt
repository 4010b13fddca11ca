-- ===== src/Server/Button/Reports.antt =====
-- takePress against the worker: however their steps interleave, no press is reported twice.
use embedded_client_server_v.Prelude.{
  ℕ, ◌+◌, ◌≤◌, false, List, [], ◌∷◌, ℤ, inl, inr, length, if◌then◌else◌, arith, ap, refl, ◌≡◌,
}
use embedded_client_server_v.Server.Button.{
  ButtonMonitor, Watch, Sample, Action, sampled, taken, start_watch, watch_round, take_press,
  interleave,
}
use embedded_client_server_v.Server.Button.Watching.{
  accepted, debounced, releases, changes, IsConsistent, round_cases, watch_round-IsConsistent,
}

abbrev pub samples_of : List Action → List Sample
samples_of [] = []
samples_of (sampled s ∷ rest) = s ∷ samples_of rest
samples_of (taken ∷ rest) = samples_of rest

-- One for a flag that is up.
abbrev pub waiting : ButtonMonitor → ℕ
waiting b = if b.pressed then 1 else 0

-- The flag plays no part in what is accepted.
accepted-take :
    (b : ButtonMonitor) (v : Watch) (later : List Sample)
    → accepted (take_press b).1 v later ≡ accepted b v later
unfolding take_press
accepted-take b v later = refl

interleave_bound :
    (b : ButtonMonitor) (v : Watch) (actions : List Action)
    → IsConsistent b v
    → let (n, b') = interleave b v actions in
      n + waiting b' ≤ waiting b + length (accepted b v (samples_of actions))
unfolding interleave take_press
interleave_bound b v [] c = omega arith
interleave_bound b v (sampled s ∷ rest) c =
    let (b', v') = watch_round b v s in
    let later = interleave_bound b' v' rest (watch_round-IsConsistent b v s c) in
    elim (round_cases b v s c) [
      | inl (p, a) ↦ ground (arith, ap length (a (samples_of rest)))
      | inr (p, l, a) ↦ ground (arith, ap length (a (samples_of rest)))
    ]
interleave_bound b v (taken ∷ rest) c =
    let later = interleave_bound (record b { pressed = false }) v rest c in ground arith

-- Over any interleaving of the worker's rounds with calls of takePress, the calls that report a
-- press, together with the one that is still waiting afterwards, are at most the releases that the
-- pipeline accepts from the worker's readings, plus one if the flag was up before.
pub interleave_reports :
    (b : ButtonMonitor) (first : ℤ) (actions : List Action)
    → let v = start_watch b first in
      let (n, b') = interleave b v actions in
      n + waiting b'
      ≤ waiting b
        + length (
            debounced b.debounce b.last_accepted
              (releases b.pressed_level (changes v.previous (samples_of actions))))
unfolding start_watch
interleave_reports b first actions = interleave_bound b (start_watch b first) actions (λ e. cc e)
