-- ===== src/Server/App/Conversation.antt =====
-- A stretch of a session on the wire: the commands read and the answers sent.
use embedded_client_server_v.Prelude.{
  ℕ, suc, ◌+◌, ◌≤◌, ◌≡◌, refl, ap, sym, ◌∙◌, sym, Bool, true, false, List, [], ◌∷◌, ◌++◌, arith,
  ◌==◌, if◌then◌else◌, length, subst,
}
use embedded_client_server_v.Protocol.Message.{Message, frame, press, dark, mismatch, acknowledge}
use embedded_client_server_v.Protocol.Stream.{encode_all}
use embedded_client_server_v.Posix.{Posix, Laws}
use embedded_client_server_v.Server.Hardware.{Hardware}
use embedded_client_server_v.Server.Light.{SceneState, normal, no_light, sensor_error}
use embedded_client_server_v.Server.Camera.Images.{IsPicture}
use embedded_client_server_v.Server.Button.{ButtonMonitor}
use embedded_client_server_v.Server.Button.Reports.{waiting}
use embedded_client_server_v.Server.App.{ServerApp, next_id}
use embedded_client_server_v.Server.App.Answers.{answer, id_after}

-- Answers after the image number n, up to the image number k: each image has the next number, and
-- an answer without an image that of the image before it.
abbrev pub Numbered : ℕ → List Message → ℕ → Type 0
Numbered n [] k = n ≡ k
Numbered n (frame id jpeg ∷ ms) k = (id ≡ next_id n) × Numbered id ms k
Numbered n (press id jpeg ∷ ms) k = (id ≡ next_id n) × Numbered id ms k
Numbered n (dark id ∷ ms) k = (id ≡ n) × Numbered n ms k
Numbered n (mismatch id ∷ ms) k = (id ≡ n) × Numbered n ms k
Numbered n (acknowledge ∷ ms) k = ⊥

pub Numbered-append :
    (n k j : ℕ) (xs ys : List Message) → Numbered n xs k → Numbered k ys j → Numbered n (xs ++ ys) j
Numbered-append n k j [] ys h g = subst (λ x. Numbered x ys j) (sym h) g
Numbered-append n k j (frame id jpeg ∷ xs) ys h g = (h.0, Numbered-append id k j xs ys h.1 g)
Numbered-append n k j (press id jpeg ∷ xs) ys h g = (h.0, Numbered-append id k j xs ys h.1 g)
Numbered-append n k j (dark id ∷ xs) ys h g = (h.0, Numbered-append n k j xs ys h.1 g)
Numbered-append n k j (mismatch id ∷ xs) ys h g = (h.0, Numbered-append n k j xs ys h.1 g)
Numbered-append n k j (acknowledge ∷ xs) ys h g = absurd h

pub answer-Numbered :
    (state : SceneState) (pressed : Bool) (n : ℕ) (jpeg : List ℕ)
    → Numbered n (answer state pressed n jpeg ∷ []) (id_after state n)
answer-Numbered normal true n jpeg = (refl, refl)
answer-Numbered normal false n jpeg = (refl, refl)
answer-Numbered no_light pressed n jpeg = (refl, refl)
answer-Numbered sensor_error pressed n jpeg = (refl, refl)

-- How many of the commands ask for an image.
unfoldable pub requests : List ℕ → ℕ
requests [] = 0
requests (c ∷ cs) = if c == 1 then suc (requests cs) else requests cs

pub requests-append : (xs ys : List ℕ) → requests (xs ++ ys) ≡ requests xs + requests ys
unfolding requests
requests-append [] ys = omega arith
requests-append (x ∷ xs) ys = ground (arith, requests-append xs ys)

pub requests_bound : (cs : List ℕ) → requests cs ≤ length cs
unfolding requests
requests_bound [] = omega arith
requests_bound (c ∷ cs) = ground (arith, requests_bound cs)

-- How many of the messages answer a press.
abbrev pub presses : List Message → ℕ
presses [] = 0
presses (frame id jpeg ∷ ms) = presses ms
presses (press id jpeg ∷ ms) = suc (presses ms)
presses (dark id ∷ ms) = presses ms
presses (mismatch id ∷ ms) = presses ms
presses (acknowledge ∷ ms) = presses ms

pub presses-append : (xs ys : List Message) → presses (xs ++ ys) ≡ presses xs + presses ys
presses-append [] ys = omega arith
presses-append (frame id jpeg ∷ xs) ys = presses-append xs ys
presses-append (press id jpeg ∷ xs) ys = omega (arith, presses-append xs ys)
presses-append (dark id ∷ xs) ys = presses-append xs ys
presses-append (mismatch id ∷ xs) ys = presses-append xs ys
presses-append (acknowledge ∷ xs) ys = presses-append xs ys

pub presses-answer :
    (state : SceneState) (pressed : Bool) (n : ℕ) (jpeg : List ℕ)
    → presses (answer state pressed n jpeg ∷ []) ≤ (if pressed then 1 else 0)
presses-answer normal true n jpeg = omega arith
presses-answer normal false n jpeg = omega arith
presses-answer no_light pressed n jpeg = omega arith
presses-answer sensor_error pressed n jpeg = omega arith

pub only_nil : {A : Type 0} (xs : List A) → length xs ≤ 0 → xs ≡ []
only_nil [] h = refl
only_nil (x ∷ xs) h = absurd (omega arith)

module _ (os : Posix) (hw : Hardware os) where
  -- The images of the messages are pictures.
  abbrev pub Pictured : List Message → Type 0
  Pictured [] = Unit {0}
  Pictured (frame id jpeg ∷ ms) = IsPicture os hw jpeg × Pictured ms
  Pictured (press id jpeg ∷ ms) = IsPicture os hw jpeg × Pictured ms
  Pictured (dark id ∷ ms) = Pictured ms
  Pictured (mismatch id ∷ ms) = Pictured ms
  Pictured (acknowledge ∷ ms) = Pictured ms

  pub Pictured-append : (xs ys : List Message) → Pictured xs → Pictured ys → Pictured (xs ++ ys)
  Pictured-append [] ys p q = q
  Pictured-append (frame id jpeg ∷ xs) ys p q = (p.0, Pictured-append xs ys p.1 q)
  Pictured-append (press id jpeg ∷ xs) ys p q = (p.0, Pictured-append xs ys p.1 q)
  Pictured-append (dark id ∷ xs) ys p q = Pictured-append xs ys p q
  Pictured-append (mismatch id ∷ xs) ys p q = Pictured-append xs ys p q
  Pictured-append (acknowledge ∷ xs) ys p q = Pictured-append xs ys p q

  pub answer-Pictured :
      (state : SceneState) (pressed : Bool) (n : ℕ) (jpeg : List ℕ)
      → IsPicture os hw jpeg
      → Pictured (answer state pressed n jpeg ∷ [])
  answer-Pictured normal true n jpeg p = (p, tt)
  answer-Pictured normal false n jpeg p = (p, tt)
  answer-Pictured no_light pressed n jpeg p = tt
  answer-Pictured sensor_error pressed n jpeg p = tt

module _ (os : Posix) (hw : Hardware os) where
  -- Of the button only the flag has changed, which was up for an answer to a press.
  pub record TakesPress (a b : ServerApp os hw) (answers : List Message) : Type 0 where
    pub button : b.button ≡ record a.button { pressed = b.button.pressed }
    pub flag : presses answers + waiting b.button ≤ waiting a.button

  pub no_press : (a b : ServerApp os hw) → b.button ≡ a.button → TakesPress a b []
  no_press a b e = record {
    button =
        e
        ∙ ap {B = ButtonMonitor} (λ p. record a.button { pressed = p })
            (sym (ap (λ x. x.pressed) e));
    flag = omega (arith, ap waiting e);
  }

  pub taken_press :
      (a b : ServerApp os hw) (state : SceneState) (n : ℕ) (jpeg : List ℕ)
      → b.button ≡ record a.button { pressed = false }
      → TakesPress a b (answer state a.button.pressed n jpeg ∷ [])
  taken_press a b state n jpeg e = record {
    button =
        e
        ∙ ap {B = ButtonMonitor} (λ p. record a.button { pressed = p })
            (sym (ap (λ x. x.pressed) e));
    flag = omega (arith, ap waiting e, presses-answer state a.button.pressed n jpeg);
  }

  pub TakesPress-trans :
      (a b c : ServerApp os hw) (xs ys : List Message)
      → TakesPress a b xs
      → TakesPress b c ys
      → TakesPress a c (xs ++ ys)
  TakesPress-trans a b c xs ys p q = record {
    button =
        q.button ∙ ap {B = ButtonMonitor} (λ x. record x { pressed = c.button.pressed }) p.button;
    flag = omega (arith, p.flag, q.flag, presses-append xs ys);
  }

module _ (os : Posix) (hw : Hardware os) (laws : Laws os) where
  -- From the first state to the second the server has read these commands and sent these answers,
  -- no more of them than commands that ask for one.
  pub record Conversed (a b : ServerApp os hw) : Type 0 where
    pub commands : List ℕ
    pub answers : List Message
    pub same : b.server ≡ a.server
    pub read :
        laws.pending a.server.client_fd a.world
        ≡ commands ++ laws.pending a.server.client_fd b.world
    pub sent :
        laws.sent a.server.client_fd b.world
        ≡ laws.sent a.server.client_fd a.world ++ encode_all answers
    pub numbered : Numbered a.frame_id answers b.frame_id
    pub pictured : Pictured os hw answers
    pub asked : length answers ≤ requests commands
    pub taken : TakesPress os hw a b answers
