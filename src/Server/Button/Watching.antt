-- ===== src/Server/Button/Watching.antt =====
-- What watchLoop recognises, as a pipeline of three stages: the changes of the level, the releases
-- that follow a press, and those of them that are not bounces.
use embedded_client_server_v.Prelude.{
  ℕ, ◌+◌, ◌≤◌, ◌≡◌, refl, ap, ◌∙◌, ◌⊎◌, inl, inr, Bool, true, false, ◌||◌, List, [], ◌∷◌, ℤ, eqb_ℤ,
  is_negative, if◌then◌else◌, ltb, Bool-cases, arith,
}
use embedded_client_server_v.Server.Button.{
  ButtonMonitor, Watch, Sample, start_watch, watch_round, watch_loop,
}

-- The readings that differ from the level before them; failed readings do not count.
abbrev pub changes : ℤ → List Sample → List Sample
changes level [] = []
changes level (s ∷ rest) =
    let same = changes level rest in
    let changed = s ∷ changes s.value rest in
    if is_negative s.value || eqb_ℤ s.value level then same else changed

-- The times of the changes that come right after a change to the pressed level.
abbrev pub releases : ℤ → List Sample → List ℕ
releases pressed_level [] = []
releases pressed_level (s ∷ []) = []
releases pressed_level (s ∷ t ∷ rest) =
    let later = releases pressed_level (t ∷ rest) in
    if eqb_ℤ s.value pressed_level then t.now ∷ later else later

-- Those that are not within the period after the last one kept.
abbrev pub debounced : ℕ → ℕ → List ℕ → List ℕ
debounced period last [] = []
debounced period last (t ∷ rest) =
    let skipped = debounced period last rest in
    let kept = t ∷ debounced period t rest in if ltb t (last + period) then skipped else kept

-- The flag and the time of the last press after presses accepted at these times.
abbrev pub flag_after : Bool → List ℕ → Bool
flag_after pressed [] = pressed
flag_after pressed (_ ∷ _) = true

abbrev pub last_after : ℕ → List ℕ → ℕ
last_after last [] = last
last_after last (t ∷ rest) = last_after t rest

-- The press that a loop in its middle has seen stands in front of the changes to come.
abbrev pub with_press : ButtonMonitor → Watch → List Sample → List Sample
with_press b v later =
    if v.press_seen then record { value = b.pressed_level; now = 0 } ∷ later else later

abbrev pub accepted : ButtonMonitor → Watch → List Sample → List ℕ
accepted b v later =
    debounced b.debounce b.last_accepted
      (releases b.pressed_level (with_press b v (changes v.previous later)))

abbrev pub IsConsistent : ButtonMonitor → Watch → Type 0
IsConsistent b v = v.press_seen ≡ true → v.previous ≡ b.pressed_level

eqb_ℤ_eq : (a b : ℤ) → eqb_ℤ a b ≡ true → a ≡ b
eqb_ℤ_eq a b h = ground arith

eqb_ℤ_refl : (a : ℤ) → eqb_ℤ a a ≡ true
eqb_ℤ_refl a = ground arith

-- Only the value of the first change counts.
releases-head :
    (level : ℤ) (s : Sample) (rest : List Sample)
    → releases level (s ∷ rest) ≡ releases level (record { value = s.value; now = 0 } ∷ rest)
releases-head level s [] = refl
releases-head level s (t ∷ rest) = refl

releases-other :
    (level : ℤ) (s : Sample) (rest : List Sample)
    → eqb_ℤ s.value level ≡ false
    → releases level (s ∷ rest) ≡ releases level rest
releases-other level s [] h = refl
releases-other level s (t ∷ rest) h = rw h

-- A round accepts the next press of the pipeline, or leaves flag and pipeline alone.
abbrev pub Accepts : ButtonMonitor → Watch → Sample → Type 0
Accepts b v s =
    let (b', v') = watch_round b v s in
    (b'.pressed ≡ true)
    × ((later : List Sample) → accepted b v (s ∷ later) ≡ b'.last_accepted ∷ accepted b' v' later)

abbrev pub Passes : ButtonMonitor → Watch → Sample → Type 0
Passes b v s =
    let (b', v') = watch_round b v s in
    (b'.pressed ≡ b.pressed)
    × (b'.last_accepted ≡ b.last_accepted)
    × ((later : List Sample) → accepted b v (s ∷ later) ≡ accepted b' v' later)

module _ (b : ButtonMonitor) (v : Watch) (s : Sample) (c : IsConsistent b v) where
  quiet_lem : is_negative s.value || eqb_ℤ s.value v.previous ≡ true → Passes b v s
  unfolding watch_round
  quiet_lem e = rw e (refl, refl, λ later. refl)

  down_lem :
      is_negative s.value || eqb_ℤ s.value v.previous ≡ false
      → eqb_ℤ s.value b.pressed_level ≡ true
      → Passes b v s
  unfolding watch_round
  down_lem e down =
      rw (e, down)
        (
          refl,
          refl,
          λ later.
              rw unseen (ap (debounced b.debounce b.last_accepted) (first (changes s.value later))),
        )
    where
      level : s.value ≡ b.pressed_level
      level = eqb_ℤ_eq s.value b.pressed_level down

      unseen : v.press_seen ≡ false
      unseen = ground (arith, level, c, eqb_ℤ_refl b.pressed_level)

      first :
          (rest : List Sample)
          → releases b.pressed_level (s ∷ rest)
            ≡ releases b.pressed_level (record { value = b.pressed_level; now = 0 } ∷ rest)
      first rest =
          releases-head b.pressed_level s rest
          ∙ ap (λ n. releases b.pressed_level (record { value = n; now = 0 } ∷ rest)) level

  unseen_lem :
      is_negative s.value || eqb_ℤ s.value v.previous ≡ false
      → eqb_ℤ s.value b.pressed_level ≡ false
      → v.press_seen ≡ false
      → Passes b v s
  unfolding watch_round
  unseen_lem e up unseen =
      rw (e, up, unseen)
        (
          refl,
          refl,
          λ later.
              ap (debounced b.debounce b.last_accepted)
                (releases-other b.pressed_level s (changes s.value later) up),
        )

  -- The pipeline at a release after a press.
  released :
      eqb_ℤ s.value b.pressed_level ≡ false
      → (rest : List Sample)
      → releases b.pressed_level (record { value = b.pressed_level; now = 0 } ∷ s ∷ rest)
        ≡ s.now ∷ releases b.pressed_level rest
  released up rest =
      rw (eqb_ℤ_refl b.pressed_level) (ap (◌∷◌ s.now) (releases-other b.pressed_level s rest up))

  module _ (e : is_negative s.value || eqb_ℤ s.value v.previous ≡ false)
      (up : eqb_ℤ s.value b.pressed_level ≡ false) (seen : v.press_seen ≡ true) where
    bounce_lem : ltb s.now (b.last_accepted + b.debounce) ≡ true → Passes b v s
    unfolding watch_round
    bounce_lem bounce =
        rw (e, up, seen, bounce)
          (
            refl,
            refl,
            λ later.
                ap (debounced b.debounce b.last_accepted) (released up (changes s.value later))
                ∙ rw bounce,
          )

    fresh_lem : ltb s.now (b.last_accepted + b.debounce) ≡ false → Accepts b v s
    unfolding watch_round
    fresh_lem fresh =
        rw (e, up, seen, fresh)
          (
            refl,
            λ later.
                ap (debounced b.debounce b.last_accepted) (released up (changes s.value later))
                ∙ rw fresh,
          )

pub round_cases :
    (b : ButtonMonitor) (v : Watch) (s : Sample) → IsConsistent b v → Accepts b v s ⊎ Passes b v s
round_cases b v s c = elim (Bool-cases (is_negative s.value || eqb_ℤ s.value v.previous)) [
  | inl quiet ↦ inr (quiet_lem b v s c quiet)
  | inr change ↦ elim (Bool-cases (eqb_ℤ s.value b.pressed_level)) [
    | inl down ↦ inr (down_lem b v s c change down)
    | inr up ↦ elim (Bool-cases v.press_seen) [
      | inr unseen ↦ inr (unseen_lem b v s c change up unseen)
      | inl seen ↦ elim (Bool-cases (ltb s.now (b.last_accepted + b.debounce))) [
        | inl bounce ↦ inr (bounce_lem b v s c change up seen bounce)
        | inr fresh ↦ inl (fresh_lem b v s c change up seen fresh)
      ]
    ]
  ]
]

pub watch_round-IsConsistent :
    (b : ButtonMonitor) (v : Watch) (s : Sample)
    → IsConsistent b v
    → let (b', v') = watch_round b v s in IsConsistent b' v'
unfolding watch_round
watch_round-IsConsistent b v s c = ground (arith, eqb_ℤ_eq s.value b.pressed_level)

flag_after-true : (ts : List ℕ) → flag_after true ts ≡ true
flag_after-true [] = refl
flag_after-true (t ∷ ts) = refl

abbrev Latched : ButtonMonitor → ButtonMonitor → List ℕ → Type 0
Latched b b' ts =
    (b'.pressed ≡ flag_after b.pressed ts) × (b'.last_accepted ≡ last_after b.last_accepted ts)

watch_loop-Latched :
    (b : ButtonMonitor) (v : Watch) (samples : List Sample)
    → IsConsistent b v
    → Latched b (watch_loop b v samples).0 (accepted b v samples)
unfolding watch_loop
watch_loop-Latched b v [] c = ground arith
watch_loop-Latched b v (s ∷ rest) c =
    let (b', v') = watch_round b v s in
    let later = watch_loop-Latched b' v' rest (watch_round-IsConsistent b v s c) in
    let ts = accepted b' v' rest in
    elim (round_cases b v s c) [
      | inl (p, a) ↦
          rw (a rest) (later.0 ∙ ap (λ x. flag_after x ts) p ∙ flag_after-true ts, later.1)
      | inr (p, l, a) ↦
          rw (a rest) (later.0 ∙ ap (λ x. flag_after x ts) p, later.1 ∙ ap (λ x. last_after x ts) l)
    ]

-- Each time is at least the period after the one before it.
abbrev pub AreSpaced : ℕ → ℕ → List ℕ → Type 0
AreSpaced period last [] = Unit {0}
AreSpaced period last (t ∷ rest) = (last + period ≤ t) × AreSpaced period t rest

debounced-AreSpaced :
    (period last : ℕ) (ts : List ℕ) → AreSpaced period last (debounced period last ts)
debounced-AreSpaced period last [] = tt
debounced-AreSpaced period last (t ∷ ts) =
    ground (arith, debounced-AreSpaced period last ts, debounced-AreSpaced period t ts)

-- Started on a first reading of the line, the loop of the worker accepts, over any further
-- readings, exactly the releases that directly follow a change to the pressed level among the
-- changes of level (failed readings do not count), less those within the debounce time of the last
-- accepted one: afterwards the flag is up if it was before or if there is such a release, and the
-- time of the last press is that of the last of them. They are spaced by the debounce time.
pub watch_loop-accepted :
    (b : ButtonMonitor) (first : ℤ) (samples : List Sample)
    → let b' = (watch_loop b (start_watch b first) samples).0 in
      let level = if is_negative first then b.pressed_level else first in
      let times =
        debounced b.debounce b.last_accepted (releases b.pressed_level (changes level samples)) in
      (b'.pressed ≡ flag_after b.pressed times)
      × (b'.last_accepted ≡ last_after b.last_accepted times)
      × AreSpaced b.debounce b.last_accepted times
unfolding start_watch
watch_loop-accepted b first samples =
    let run = watch_loop-Latched b (start_watch b first) samples (λ e. cc e) in
    (run.0, run.1, debounced-AreSpaced b.debounce b.last_accepted _)
