-- ===== src/Server/Light/Filter.antt =====
-- The filter of update against a description of it that looks at the whole history.
use Prim.Native.String.{String}
use embedded_client_server_v.Prelude.{
  ℕ, ℤ, inl, inr, Bool-cases, ◌+◌, ◌≡◌, refl, sym, ap, ◌∙◌, Bool, true, false, List, [], ◌∷◌, leb,
  if◌then◌else◌, arith,
}
use embedded_client_server_v.Posix.{Posix, milliseconds}
use embedded_client_server_v.Server.Hardware.{Hardware}
use embedded_client_server_v.Server.Light.{
  SceneState, normal, same, LightMonitor, new, classify, track, adopt, update,
}

-- What one update observed, and the two readings of the clock that it may have made.
pub record Sample : Type 0 where
  pub observed : SceneState
  pub first : ℕ
  pub second : ℕ

-- When the unbroken run of observations of `s` that ends the history began; `start` stands for the
-- construction, which counts as an observation of a normal scene. The newest sample is the head.
abbrev pub began : ℕ → SceneState → ℕ → List Sample → ℕ
began start s otherwise [] = if same s normal then start else otherwise
began start s otherwise (x ∷ older) =
    let earlier = began start s x.first older in if same s x.observed then earlier else otherwise

-- The state to report after a history: the latest observation if its run has lasted for `hold`,
-- else what was reported before.
abbrev pub reported : ℕ → ℕ → List Sample → SceneState
reported start hold [] = normal
reported start hold (x ∷ older) =
    let before = reported start hold older in
    if leb (began start x.observed x.first older + hold) x.second then x.observed else before

same_refl : (s : SceneState) → same s s ≡ true
same_refl normal = refl
same_refl _ = refl

same_eq : (s t : SceneState) → same s t ≡ true → s ≡ t
same_eq s t h = ground arith

began-latest :
    (start otherwise : ℕ) (s : SceneState) (x : Sample) (older : List Sample)
    → s ≡ x.observed
    → began start s otherwise (x ∷ older) ≡ began start x.observed x.first older
began-latest start otherwise s x older e =
    rw (e, same_refl x.observed) (ap (λ t. began start t x.first older) e)

module _ (os : Posix) (hw : Hardware os) where
  open os use {World}
  open hw use {Double}

  abbrev Monitor : Type 0
  Monitor = LightMonitor os hw

  -- What an update at this world sees.
  abbrev pub sample_of : Monitor → Double → World → Sample
  sample_of m brightness w =
      let (observed, w1) = classify os hw m brightness w in
      let (_, w2) = track os hw m observed w1 in
      record { observed = observed; first = (os.now w1).0; second = (os.now w2).0 }

  -- Updates one after the other, each at the world that it finds, with the history that they make.
  pub updates : Monitor → List Sample → List (Double × World) → Monitor × List Sample
  updates m history [] = (m, history)
  updates m history ((brightness, w) ∷ rest) =
      updates (update os hw m brightness w).0.0 (sample_of m brightness w ∷ history) rest

  record Inv (start hold : ℕ) (m : Monitor) (history : List Sample) : Type 0 where
    holds_for : m.hold ≡ hold
    latest : (otherwise : ℕ) → began start m.candidate otherwise history ≡ m.candidate_since
    others :
        (s : SceneState) (otherwise : ℕ)
        → same s m.candidate ≡ false
        → began start s otherwise history ≡ otherwise
    reports : m.state ≡ reported start hold history

  -- The first test of update keeps the candidate at the latest observation, and its start.
  track-began :
      (start hold : ℕ) (m : Monitor) (history : List Sample) (observed : SceneState) (w : World)
      → Inv start hold m history
      → let t = (track os hw m observed w).0 in
        (t.hold ≡ hold)
        × (t.state ≡ m.state)
        × (t.candidate ≡ observed)
        × (t.candidate_since ≡ began start observed (os.now w).0 history)
  unfolding track
  track-began start hold m history observed w v = elim (Bool-cases (same observed m.candidate)) [
    | inl e ↦
        let c = same_eq observed m.candidate e in
        rw e (
          v.holds_for,
          refl,
          sym c,
          sym (v.latest (os.now w).0) ∙ ap (λ s. began start s (os.now w).0 history) (sym c),
        )
    | inr e ↦ rw e (v.holds_for, refl, refl, sym (v.others observed (os.now w).0 e))
  ]

  adopt_fields :
      (m : Monitor) (w : World)
      → let a = (adopt os hw m w).0 in
        (a.hold ≡ m.hold)
        × (a.candidate ≡ m.candidate)
        × (a.candidate_since ≡ m.candidate_since)
        × (a.state
            ≡ (if leb (m.candidate_since + m.hold) (os.now w).0 then m.candidate else m.state))
  unfolding adopt
  adopt_fields m w = ground (arith, same_eq m.candidate m.state)

  update-Inv :
      (start hold : ℕ) (m : Monitor) (history : List Sample) (brightness : Double) (w : World)
      → Inv start hold m history
      → Inv start hold (update os hw m brightness w).0.0 (sample_of m brightness w ∷ history)
  unfolding update
  update-Inv start hold m history brightness w v =
      let observed = (classify os hw m brightness w).0 in
      let w1 = (classify os hw m brightness w).1 in
      let tracked = (track os hw m observed w1).0 in
      let (h1, s1, c1, b1) = track-began start hold m history observed w1 v in
      let (h2, c2, b2, s2) = adopt_fields tracked (track os hw m observed w1).1 in
      record {
        holds_for = h2 ∙ h1;
        latest = λ o.
            began-latest start o _ (sample_of m brightness w) history (c2 ∙ c1) ∙ sym (b2 ∙ b1);
        others = λ s o e. rw (sym (ap (same s) (c2 ∙ c1)) ∙ e);
        reports = s2 ∙ rw (h1, b1, c1, s1, v.reports);
      }

  updates-Inv :
      (start hold : ℕ) (m : Monitor) (history : List Sample) (us : List (Double × World))
      → Inv start hold m history
      → let (m', history') = updates m history us in Inv start hold m' history'
  unfolding updates
  updates-Inv start hold m history [] v = v
  updates-Inv start hold m history ((b, w) ∷ us) v =
      updates-Inv start hold (update os hw m b w).0.0 (sample_of m b w ∷ history) us
        (update-Inv start hold m history b w v)

  -- After any updates of a new monitor, at any worlds, the state that the last one returned is the
  -- one that the whole history calls for: the latest observation, if the unbroken run of equal
  -- observations that ends the history (the construction counts as an observation of a normal
  -- scene) began at least `hold_ms` milliseconds before, and else what was called for before.
  pub updates-reported :
      (path : String) (raw_threshold : ℤ) (raw_rises : Bool) (image_threshold : Double)
      (hold_ms : ℕ) (w : World) (us : List (Double × World))
      → let m = (new os hw path raw_threshold raw_rises image_threshold hold_ms w).0 in
        let (m', history) = updates m [] us in
        m'.state ≡ reported (os.now w).0 (milliseconds hold_ms) history
  unfolding new
  updates-reported path raw_threshold raw_rises image_threshold hold_ms w us =
      (updates-Inv (os.now w).0 (milliseconds hold_ms)
        (new os hw path raw_threshold raw_rises image_threshold hold_ms w).0 [] us first).reports
    where
      first :
          Inv
            (os.now w).0
            (milliseconds hold_ms)
            (new os hw path raw_threshold raw_rises image_threshold hold_ms w).0
            []
      first = record {
        holds_for = refl;
        latest = λ _. refl;
        others = λ s o e. rw e;
        reports = refl;
      }

  -- update returns the state that it leaves.
  update_returns :
      (m : Monitor) (b : Double) (w : World)
      → (update os hw m b w).0.1 ≡ (update os hw m b w).0.0.state
  unfolding update
  update_returns m b w = refl
