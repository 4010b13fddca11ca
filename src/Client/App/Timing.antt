-- ===== src/Client/App/Timing.antt =====
-- setState over a whole history: since when the window has been in its state.
use embedded_client_server_v.Prelude.{
  ℕ, ◌≡◌, subst, refl, sym, ◌∙◌, inl, inr, Bool, true, false, ◌&&◌, List, [], ◌∷◌, arith,
  Bool-cases, if◌then◌else◌,
}
use embedded_client_server_v.Posix.{Posix}
use embedded_client_server_v.Client.Desktop.{Desktop}
use embedded_client_server_v.Client.App.{
  ClientApp, DisplayState, normal, no_light, sensor_error, link_lost, same, set_state,
}

-- A state, and when it was asked for.
abbrev pub Entry : Type 0
Entry = DisplayState × ℕ

-- The entries all have this state.
abbrev pub all_same : DisplayState → List Entry → Bool
all_same s [] = true
all_same s (x ∷ xs) = same x.0 s && all_same s xs

-- Of a history, oldest entry first, the earliest entry from which on the state is always the same.
pub entered : Entry → List Entry → Entry
entered x [] = x
entered x (y ∷ ys) = if all_same x.0 (y ∷ ys) then x else entered y ys

same_refl : (s : DisplayState) → same s s ≡ true
same_refl normal = refl
same_refl no_light = refl
same_refl sensor_error = refl
same_refl link_lost = refl

same_≡ : (s t : DisplayState) → same s t ≡ true → s ≡ t
same_≡ s t h = ground arith

entered_all : (x : Entry) (ys : List Entry) → all_same x.0 ys ≡ true → entered x ys ≡ x
unfolding entered
entered_all x [] h = refl
entered_all x (y ∷ ys) h = rw (h, entered) refl

-- An entry that does not last has no say.
entered_later :
    (x z : Entry) (ys : List Entry)
    → all_same x.0 ys ≡ false
    → x.0 ≡ z.0
    → entered x ys ≡ entered z ys
unfolding entered
entered_later x z [] h e = absurd (cc h)
entered_later x z (y ∷ ys) h e =
    let h' : all_same z.0 (y ∷ ys) ≡ false = subst (λ s. all_same s (y ∷ ys) ≡ false) e h in
    rw (h, h', entered) refl

module _ (os : Posix) (desk : Desktop os) where
  open os use {World}

  -- Calls of setState, each in the world in which it is made.
  pub visits : ClientApp os desk → List (DisplayState × World) → ClientApp os desk
  visits a [] = a
  visits a ((s, w) ∷ rest) = visits (set_state os desk s (record a { world = w })) rest

  unfoldable pub entries : List (DisplayState × World) → List Entry
  entries [] = []
  entries ((s, w) ∷ rest) = (s, (os.now w).0) ∷ entries rest

  -- One call, in front of the entries of those after it.
  set_state-entered :
      (a : ClientApp os desk) (s : DisplayState) (w : World) (later : List Entry)
      → let b = set_state os desk s (record a { world = w }) in
        entered (b.state, b.state_since) later
        ≡ entered (a.state, a.state_since) ((s, (os.now w).0) ∷ later)
  unfolding entered set_state
  set_state-entered a s w later =
      let x : Entry = (a.state, a.state_since) in
      let y : Entry = (s, (os.now w).0) in
      elim (Bool-cases (same s a.state)) [
        | inr differs ↦ rw (differs, set_state, entered) refl
        | inl stays ↦ elim (Bool-cases (all_same a.state later)) [
          | inl all ↦ rw (stays, all, set_state, entered) (entered_all x later all)
          | inr not_all ↦
              rw (stays, not_all, set_state, entered)
                (entered_later x y later not_all (sym (same_≡ s a.state stays)))
        ]
      ]

  -- However often setState is called with whatever states, the window is afterwards in the state
  -- asked for last, and its time is that of the earliest call from which on all calls asked for
  -- this state, or the time it had before the calls, if it was in this state and none asked for
  -- another one: a state that persists keeps its clock.
  pub visits-entered :
      (a : ClientApp os desk) (calls : List (DisplayState × World))
      → let b = visits a calls in
        (b.state, b.state_since) ≡ entered (a.state, a.state_since) (entries calls)
  unfolding visits entries entered
  visits-entered a [] = refl
  visits-entered a ((s, w) ∷ rest) =
      visits-entered (set_state os desk s (record a { world = w })) rest
      ∙ set_state-entered a s w (entries rest)
