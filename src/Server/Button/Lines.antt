-- ===== src/Server/Button/Lines.antt =====
-- What the constructor and the destructor of the button ask of libgpiod and of the thread library.
use Prim.Native.String.{String}
use embedded_client_server_v.Prelude.{
  ℕ, ◌≡◌, refl, sym, ap, ◌∙◌, inl, inr, Bool, true, false, List, [], ◌∷◌, ◌++◌, append_assoc,
  append-nil, Bool-cases, is_negative, if◌then◌else◌,
}
use embedded_client_server_v.Posix.{Posix}
use embedded_client_server_v.Server.Config
use embedded_client_server_v.Server.Hardware.{Hardware}
use embedded_client_server_v.Server.Button.{
  ButtonMonitor, initial, request_line, find_line, new, release_line, close_chip, shut_down,
}

pub data Step : Type 0 where
  chip_opened line_requested worker_started worker_joined line_released chip_closed : Step

-- The calls that have succeeded so far. A call that fails takes nothing, so that there is nothing
-- to give back, and to look a line up takes nothing either.
pub record Records (os : Posix) (hw : Hardware os) : Type 0 where
  pub steps : os.World → List Step
  pub opens :
      (name : String) (w : os.World)
      → steps (hw.chip_open_by_name name w).1
        ≡ steps w ++ (if (hw.chip_open_by_name name w).0 then chip_opened ∷ [] else [])
  pub looks_up : (offset : ℕ) (w : os.World) → steps (hw.chip_get_line offset w).1 ≡ steps w
  pub requests :
      (consumer : String) (w : os.World)
      → steps (hw.line_request_input consumer w).1
        ≡ steps w
          ++ (if is_negative (hw.line_request_input consumer w).0 then [] else line_requested ∷ [])
  pub starts : (w : os.World) → steps (hw.start_worker w) ≡ steps w ++ (worker_started ∷ [])
  pub joins : (w : os.World) → steps (hw.join_worker false w) ≡ steps w ++ (worker_joined ∷ [])
  pub releases : (w : os.World) → steps (hw.line_release w) ≡ steps w ++ (line_released ∷ [])
  pub closes : (w : os.World) → steps (hw.chip_close w) ≡ steps w ++ (chip_closed ∷ [])

-- The steps of a life, by what the constructor has got.
abbrev pub life : Bool → Bool → List Step
life true true =
    chip_opened ∷ line_requested ∷ worker_started ∷ worker_joined ∷ line_released ∷ chip_closed ∷ []
life true false = chip_opened ∷ chip_closed ∷ []
life false has_line = []

abbrev pub beginning : Bool → Bool → List Step
beginning true true = chip_opened ∷ line_requested ∷ worker_started ∷ []
beginning true false = chip_opened ∷ []
beginning false has_line = []

abbrev pub end' : Bool → Bool → List Step
end' true true = worker_joined ∷ line_released ∷ chip_closed ∷ []
end' true false = chip_closed ∷ []
end' false has_line = []

module _ (os : Posix) (hw : Hardware os) (log : Records os hw) where
  open os use {World}

  -- After the constructor the monitor has a line only with a chip, and these steps have been made.
  abbrev Begun : List Step → ButtonMonitor × World → Type 0
  Begun before (b, w) =
      (log.steps w ≡ before ++ beginning b.has_chip b.has_line)
      × (b.has_chip ≡ false → b.has_line ≡ false)

  -- The monitor once the chip is open.
  abbrev opened : ButtonMonitor → ButtonMonitor
  opened b = record b { has_chip = true; has_line = false }

  request_line-Begun :
      (before : List Step) (b : ButtonMonitor) (w : World)
      → log.steps w ≡ before ++ (chip_opened ∷ [])
      → Begun before (request_line os hw (opened b) w)
  unfolding request_line
  request_line-Begun before b w e =
      let (r, w') = hw.line_request_input Config.gpio_consumer w in
      let asked = log.requests Config.gpio_consumer w in
      elim (Bool-cases (is_negative r)) [
        | inl refused ↦
            rw (refused, request_line)
              ((rw (refused) at asked) ∙ append-nil (log.steps w) ∙ e, λ _. refl)
        | inr granted ↦
            let got =
              (rw (granted) at asked)
              ∙ ap (λ x. x ++ (line_requested ∷ [])) e
              ∙ append_assoc before (chip_opened ∷ []) (line_requested ∷ []) in
            rw (granted, request_line)
              (
                log.starts w'
                    ∙ ap (λ x. x ++ (worker_started ∷ [])) got
                    ∙ append_assoc before (chip_opened ∷ line_requested ∷ []) (worker_started ∷ []),
                λ never. absurd (cc never),
              )
      ]

  find_line-Begun :
      (before : List Step) (b : ButtonMonitor) (offset : ℕ) (w : World)
      → log.steps w ≡ before ++ (chip_opened ∷ [])
      → Begun before (find_line os hw (opened b) offset w)
  unfolding find_line
  find_line-Begun before b offset w e =
      let w' = (hw.chip_get_line offset w).1 in
      let same = log.looks_up offset w ∙ e in
      elim (Bool-cases (hw.chip_get_line offset w).0) [
        | inl found ↦ rw (found, find_line) (request_line-Begun before b w' same)
        | inr missing ↦ rw (missing, find_line) (same, λ _. refl)
      ]

  new-Begun :
      (chip : String) (offset : ℕ) (active_low : Bool) (debounce_ms poll_period_us : ℕ) (w : World)
      → Begun (log.steps w) (new os hw chip offset active_low debounce_ms poll_period_us w)
  unfolding new initial
  new-Begun chip offset active_low debounce_ms poll_period_us w =
      let w' = (hw.chip_open_by_name chip w).1 in
      let asked = log.opens chip w in
      elim (Bool-cases (hw.chip_open_by_name chip w).0) [
        | inl found ↦
            rw (found, new)
              (find_line-Begun (log.steps w) (initial os hw active_low debounce_ms poll_period_us)
                offset w' (rw (found) at asked))
        | inr missing ↦ rw (missing, new) ((rw (missing) at asked), λ _. refl)
      ]

  shut_down_steps :
      (b : ButtonMonitor) (w : World)
      → (b.has_chip ≡ false → b.has_line ≡ false)
      → log.steps (shut_down os hw b w) ≡ log.steps w ++ end' b.has_chip b.has_line
  unfolding shut_down release_line close_chip
  shut_down_steps b w only = elim (Bool-cases b.has_chip) [
    | inr none' ↦
        rw (none', only none', shut_down, release_line, close_chip) (sym (append-nil (log.steps w)))
    | inl chip ↦ elim (Bool-cases b.has_line) [
      | inr no_line ↦ rw (chip, no_line, shut_down, release_line, close_chip) (log.closes w)
      | inl line ↦
          rw (chip, line, shut_down, release_line, close_chip)
            (log.closes _
              ∙ ap (λ x. x ++ (chip_closed ∷ []))
                  (log.releases _ ∙ ap (λ x. x ++ (line_released ∷ [])) (log.joins w))
              ∙ ap (λ x. x ++ (chip_closed ∷ []))
                  (append_assoc (log.steps w) (worker_joined ∷ []) (line_released ∷ []))
              ∙ append_assoc (log.steps w) (worker_joined ∷ line_released ∷ []) (chip_closed ∷ []))
    ]
  ]

  life_parts : (chip line : Bool) → beginning chip line ++ end' chip line ≡ life chip line
  life_parts true true = refl
  life_parts true false = refl
  life_parts false line = refl

  -- Whatever fails in the constructor of the button, and whatever else happens before the
  -- destructor, the two together take and give back the same: nothing if the chip does not open,
  -- the chip alone if its line is not there or refused, and otherwise the chip, the line and the
  -- worker, in this order, which the destructor gives back in reverse: the worker has ended before
  -- the line that it reads is released, and the line before its chip is closed.
  pub shut_down-new :
      (chip : String) (offset : ℕ) (active_low : Bool) (debounce_ms poll_period_us : ℕ)
      (w w' : World) (b : ButtonMonitor)
      → let (fresh, started) = new os hw chip offset active_low debounce_ms poll_period_us w in
        log.steps w' ≡ log.steps started
        → b.has_chip ≡ fresh.has_chip
        → b.has_line ≡ fresh.has_line
        → log.steps (shut_down os hw b w') ≡ log.steps w ++ life b.has_chip b.has_line
  shut_down-new chip offset active_low debounce_ms poll_period_us w w' b same has_chip has_line =
      let (begun, only) = new-Begun chip offset active_low debounce_ms poll_period_us w in
      shut_down_steps b w' (λ e. has_line ∙ only (sym has_chip ∙ e))
      ∙ ap (λ x. x ++ end' b.has_chip b.has_line) (same ∙ begun)
      ∙ rw (has_chip, has_line)
          (append_assoc (log.steps w) (beginning _ _) (end' _ _)
            ∙ ap (◌++◌ (log.steps w)) (life_parts _ _))
