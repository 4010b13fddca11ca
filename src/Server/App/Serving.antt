-- ===== src/Server/App/Serving.antt =====
-- What the answer to one command puts on the wire.
use embedded_client_server_v.Prelude.{
  ℕ, ◌≤◌, ◌≡◌, refl, sym, ap, ◌∙◌, inl, inr, true, false, List, [], ◌∷◌, ◌++◌, append-nil, Option,
  some, none, arith, Bool-cases, ◌==◌, if◌then◌else◌, length, subst, Ensures, Ensures-pure,
  Ensures-bind, Returns_at, pure,
}
use embedded_client_server_v.Protocol.Message.{Message}
use embedded_client_server_v.Protocol.Stream.{encode_all}
use embedded_client_server_v.Posix.{Posix, Laws}
use embedded_client_server_v.Server.Hardware.{Hardware, IsLocal}
use embedded_client_server_v.Server.Camera.{Capture, capture_jpeg}
use embedded_client_server_v.Server.Camera.Images.{capture_jpeg-IsPicture}
use embedded_client_server_v.Server.App.{
  ServerApp, gone, stop_requested, handle_stop, handle_get_frame, dispatch_command,
}
use embedded_client_server_v.Server.App.Answers.{answer, Answers, handle_get_frame-Answers}
use embedded_client_server_v.Server.App.Conversation.{
  Numbered, answer-Numbered, requests, TakesPress, no_press, taken_press, Pictured, answer-Pictured,
}

module _ (os : Posix) (hw : Hardware os) (laws : Laws os) where
  -- The answer to a command, if the session goes on.
  pub record Served (cmd : ℕ) (a b : ServerApp os hw) : Type 0 where
    pub answers : List Message
    pub sent :
        laws.sent a.server.client_fd b.world
        ≡ laws.sent a.server.client_fd a.world ++ encode_all answers
    pub numbered : Numbered a.frame_id answers b.frame_id
    pub pictured : Pictured os hw answers
    pub asked : length answers ≤ requests (cmd ∷ [])
    pub taken : TakesPress os hw a b answers

module _ (os : Posix) (hw : Hardware os) (laws : Laws os) (local : IsLocal os laws hw) where
  open os use {World}

  get_frame-Served :
      (a b : ServerApp os hw)
      → (c : Option (Capture os hw)) (w : World) → capture_jpeg os hw a.world ≡ (c, w)
      → Answers os hw laws a (c, w) true b
      → Served os hw laws 1 a b
  unfolding encode_all requests
  get_frame-Served a b none w taken (_, only, kept) = record {
    answers = [];
    sent = kept ∙ sym (append-nil _);
    numbered = ap (λ x. x.frame_id) (sym only);
    pictured = tt;
    asked = omega arith;
    taken = no_press os hw a b (ap (λ x. x.button) only);
  }
  get_frame-Served a b (some c) w taken (whole, only) = record {
    answers = answer _ a.button.pressed a.frame_id c.jpeg ∷ [];
    sent = whole ∙ ap (◌++◌ (laws.sent a.server.client_fd a.world)) (sym (append-nil _));
    numbered =
        subst (Numbered a.frame_id (answer _ a.button.pressed a.frame_id c.jpeg ∷ []))
          (ap (λ x. x.frame_id) (sym only)) (answer-Numbered _ a.button.pressed a.frame_id c.jpeg);
    pictured =
        answer-Pictured os hw _ a.button.pressed a.frame_id c.jpeg
          (capture_jpeg-IsPicture os hw a.world w c taken);
    asked = omega arith;
    taken = taken_press os hw a b _ a.frame_id c.jpeg (ap (λ x. x.button) only);
  }

  is_get : (cmd : ℕ) → (cmd == 1) ≡ true → 1 ≡ cmd
  is_get cmd h = ground arith

  pub dispatch_command-Served :
      (cmd : ℕ) (a : ServerApp os hw)
      → Ensures (dispatch_command os hw cmd gone a) (λ x b. x.0 ≡ true → Served os hw laws cmd a b)
  unfolding dispatch_command encode_all requests
  dispatch_command-Served cmd a = elim (Bool-cases (cmd == 1)) [
    | inl get ↦
        rw (get, dispatch_command)
          (Ensures-bind (handle_get_frame os hw a)
            (λ alive. pure (alive, (if alive then gone else gone)))
            (Answers os hw laws a (capture_jpeg os hw a.world))
            (λ x b. x.0 ≡ true → Served os hw laws cmd a b)
            (λ alive b e. Returns_at _ alive b (handle_get_frame-Answers os hw laws local a) e)
            (λ alive b h.
              Ensures-pure (λ x b. x.0 ≡ true → Served os hw laws cmd a b)
                (alive, (if alive then gone else gone)) b
                (λ e.
                  subst (λ c. Served os hw laws c a b) (is_get cmd get)
                    (get_frame-Served a b _ _ refl
                      (subst (λ d. Answers os hw laws a (capture_jpeg os hw a.world) d b) e h)))))
    | inr other ↦ elim (Bool-cases (cmd == 2)) [
      | inl stop ↦
          rw (other, stop, dispatch_command)
            (Ensures-bind (handle_stop os hw a) (λ _. pure (false, stop_requested))
              (λ _ _. Unit {0}) (λ x b. x.0 ≡ true → Served os hw laws cmd a b) (λ _ _ _. tt)
              (λ _ b _.
                Ensures-pure (λ x b. x.0 ≡ true → Served os hw laws cmd a b) (false, stop_requested)
                  b (λ e. absurd (cc e))))
      | inr unknown ↦
          rw (other, unknown, dispatch_command)
            (Ensures-pure (λ x b. x.0 ≡ true → Served os hw laws cmd a b) (true, gone) a
              (λ _. record {
                answers = [];
                sent = sym (append-nil _);
                numbered = refl;
                pictured = tt;
                asked = omega arith;
                taken = no_press os hw a a refl;
              }))
    ]
  ]
