-- ===== src/Server/App/Trace.antt =====
-- A whole session on the wire: the bytes that the server has sent to its client.
use embedded_client_server_v.Prelude.{
  ℕ, ◌+◌, ◌≡◌, refl, sym, ap, ◌∙◌, inl, inr, Bool, true, [], ◌∷◌, ◌++◌, append_assoc, append-nil,
  some, arith, Bool-cases, ℤ, length-append, subst, Ensures-pure, ltb,
}
use embedded_client_server_v.Protocol.Stream.{encode_all, encode_all-append}
use embedded_client_server_v.Posix.{
  Posix, Laws, Received, bytes, error, again, would_block, in_progress, fault,
}
use embedded_client_server_v.Server.Hardware.{Hardware, IsLocal}
use embedded_client_server_v.Server.Socket.{timeout, receive_command, one_byte}
use embedded_client_server_v.Server.App.{
  ServerApp, SessionOutcome, gone, dispatch_command, after_receive, process_next_command,
}
use embedded_client_server_v.Server.App.Untouched.{Untouched, Holds, dispatch_command-Keeps}
use embedded_client_server_v.Server.App.Sessions.{Serves, here, next}
use embedded_client_server_v.Server.App.Conversation.{
  Numbered, Numbered-append, TakesPress-trans, no_press, requests, requests-append, only_nil,
  Pictured-append, Conversed,
}
use embedded_client_server_v.Server.App.Serving.{Served, dispatch_command-Served}

module _ (os : Posix) (hw : Hardware os) (laws : Laws os) (local : IsLocal os laws hw) where
  open os use {World}

  nothing :
      (a b : ServerApp os hw)
      → b.server ≡ a.server
      → laws.pending a.server.client_fd b.world ≡ laws.pending a.server.client_fd a.world
      → laws.sent a.server.client_fd b.world ≡ laws.sent a.server.client_fd a.world
      → b.frame_id ≡ a.frame_id
      → b.button ≡ a.button
      → Conversed os hw laws a b
  unfolding encode_all requests
  nothing a b e p s n g = record {
    commands = [];
    answers = [];
    same = e;
    read = sym p;
    sent = s ∙ sym (append-nil _);
    numbered = sym n;
    pictured = tt;
    asked = omega arith;
    taken = no_press os hw a b g;
  }

  Conversed-trans :
      (a b c : ServerApp os hw)
      → Conversed os hw laws a b
      → Conversed os hw laws b c
      → Conversed os hw laws a c
  unfolding encode_all
  Conversed-trans a b c p q =
      let fd = a.server.client_fd in
      let read' : laws.pending fd b.world ≡ q.commands ++ laws.pending fd c.world =
        subst
          (λ s. laws.pending s.client_fd b.world ≡ q.commands ++ laws.pending s.client_fd c.world)
          p.same q.read in
      let sent' : laws.sent fd c.world ≡ laws.sent fd b.world ++ encode_all q.answers =
        subst
          (λ s.
            laws.sent s.client_fd c.world ≡ laws.sent s.client_fd b.world ++ encode_all q.answers)
          p.same q.sent in
      record {
        commands = p.commands ++ q.commands;
        answers = p.answers ++ q.answers;
        same = q.same ∙ p.same;
        read = p.read ∙ ap (◌++◌ p.commands) read' ∙ sym (append_assoc p.commands _ _);
        sent =
            sent'
            ∙ ap (λ x. x ++ encode_all q.answers) p.sent
            ∙ append_assoc (laws.sent fd a.world) (encode_all p.answers) (encode_all q.answers)
            ∙ ap (◌++◌ (laws.sent fd a.world)) (sym (encode_all-append p.answers q.answers));
        numbered = Numbered-append _ _ _ p.answers q.answers p.numbered q.numbered;
        pictured = Pictured-append os hw p.answers q.answers p.pictured q.pictured;
        asked = omega (
          arith,
          p.asked,
          q.asked,
          requests-append p.commands q.commands,
          length-append p.answers q.answers,
        );
        taken = TakesPress-trans os hw a b c p.answers q.answers p.taken q.taken;
      }

  pub untouched : (fd : ℤ) → Untouched os hw fd (laws.pending fd)
  untouched fd = record {
    by_now = laws.now_pending fd;
    by_send = laws.send_pending fd;
    by_read = local.read_pending fd;
    by_read_number = local.read_number_pending fd;
  }

  -- A command that has been received, and its answer.
  dispatch_command-Conversed :
      (cmd : ℕ) (a b c : ServerApp os hw)
      → b.server ≡ a.server
      → laws.pending a.server.client_fd a.world ≡ cmd ∷ laws.pending a.server.client_fd b.world
      → laws.sent a.server.client_fd b.world ≡ laws.sent a.server.client_fd a.world
      → b.frame_id ≡ a.frame_id
      → b.button ≡ a.button
      → dispatch_command os hw cmd gone b ≡ some ((true, gone), c)
      → Conversed os hw laws a c
  dispatch_command-Conversed cmd a b c e p s n g run =
      let fd = a.server.client_fd in
      let x : Served os hw laws cmd b c =
        dispatch_command-Served os hw laws local cmd b (true, gone) c run refl in
      let k : Holds os hw (laws.pending fd) a.server (laws.pending fd b.world) c =
        dispatch_command-Keeps os hw (laws.pending fd) a.server (untouched fd)
          (laws.pending fd b.world) cmd gone b (e, refl) (true, gone) c run in
      let sent' : laws.sent fd c.world ≡ laws.sent fd b.world ++ encode_all x.answers =
        subst
          (λ s.
            laws.sent s.client_fd c.world ≡ laws.sent s.client_fd b.world ++ encode_all x.answers)
          e x.sent in
      record {
        commands = cmd ∷ [];
        answers = x.answers;
        same = k.0;
        read = p ∙ ap (◌∷◌ cmd) (sym k.1);
        sent = sent' ∙ ap (λ y. y ++ encode_all x.answers) s;
        pictured = x.pictured;
        numbered = subst (λ m. Numbered m x.answers c.frame_id) n x.numbered;
        asked = x.asked;
        taken = TakesPress-trans os hw a b c [] x.answers (no_press os hw a b g) x.taken;
      }

  -- A receive that expired, before the client counts as idle.
  expired-Conversed :
      (cmd : ℕ) (a c : ServerApp os hw) (w : World)
      → laws.pending a.server.client_fd w ≡ laws.pending a.server.client_fd a.world
      → laws.sent a.server.client_fd w ≡ laws.sent a.server.client_fd a.world
      → after_receive os hw timeout cmd gone (record a { world = w }) ≡ some ((true, gone), c)
      → Conversed os hw laws a c
  unfolding after_receive
  expired-Conversed cmd a c w p s run =
      let fd = a.server.client_fd in
      let b = record a { world = (os.now w).1 } in
      elim (Bool-cases (ltb (os.now w).0 (a.last_command + 1000000000))) [
        | inl early ↦
            Ensures-pure {A = Bool × SessionOutcome} (λ _ b. Conversed os hw laws a b) (true, gone)
              b (nothing a b refl (laws.now_pending fd w ∙ p) (laws.now_sent fd w ∙ s) refl refl)
              (true, gone) c (rw (early, after_receive) at run)
        | inr late ↦ absurd (cc (rw (late, after_receive) at run))
      ]

  after_receive-Conversed :
      (a c : ServerApp os hw) (r : Received)
      → (os.recv a.server.client_fd 1 a.world).0 ≡ r
      → after_receive os hw
          (one_byte os 0 r).0
          (one_byte os 0 r).1
          gone
          (record a { world = (os.recv a.server.client_fd 1 a.world).1 })
        ≡ some ((true, gone), c)
      → Conversed os hw laws a c
  unfolding after_receive
  after_receive-Conversed a c (bytes []) e run = absurd (cc run)
  after_receive-Conversed a c (bytes (cmd ∷ rest)) e run =
      let fd = a.server.client_fd in
      let w = (os.recv fd 1 a.world).1 in
      let (short, read) = laws.recv_bytes fd 1 a.world e in
      let b = record a { last_command = (os.now w).0; world = (os.now w).1 } in
      dispatch_command-Conversed cmd a b c refl
        (read
          ∙ ap (◌∷◌ cmd) (
              ap (λ x. x ++ laws.pending fd w) (only_nil rest (omega (arith, short)))
              ∙ sym (laws.now_pending fd w)))
        (laws.now_sent fd w ∙ laws.recv_sent fd 1 a.world) refl refl run
  after_receive-Conversed a c (error again) e run =
      expired-Conversed 0 a c _ (laws.recv_error a.server.client_fd 1 a.world e)
        (laws.recv_sent a.server.client_fd 1 a.world) run
  after_receive-Conversed a c (error would_block) e run =
      expired-Conversed 0 a c _ (laws.recv_error a.server.client_fd 1 a.world e)
        (laws.recv_sent a.server.client_fd 1 a.world) run
  after_receive-Conversed a c (error in_progress) e run = absurd (cc run)
  after_receive-Conversed a c (error fault) e run = absurd (cc run)

  pub process_next_command-Conversed :
      (a c : ServerApp os hw)
      → process_next_command os hw gone a ≡ some ((true, gone), c)
      → Conversed os hw laws a c
  unfolding process_next_command receive_command
  process_next_command-Conversed a c run = after_receive-Conversed a c _ refl run

  -- As long as a session goes on: the bytes that the server has read from the client are a list of
  -- commands, and those that it has sent are exactly the encodings of whole messages, one behind
  -- the other. There is at most one message for each GET_FRAME among the commands; none is a
  -- STOP_ACK; each image has the number of the image before it plus 1 modulo 2^32, counted from the
  -- server's number at the start, and an answer without image the number of the last image; and
  -- the bytes of each image are a JPEG that the camera's encoder made of some picture. At most one
  -- message is a BUTTON_PRESS, and only if a press was pending at the start and none is afterwards,
  -- while no round of the worker comes between; the rest of the button is unchanged.
  pub Serves-Conversed : (a b : ServerApp os hw) → Serves os hw a b → Conversed os hw laws a b
  Serves-Conversed a b here = nothing a a refl refl refl refl refl
  Serves-Conversed a b (next {b = m} s run) =
      Conversed-trans a m b (Serves-Conversed a m s) (process_next_command-Conversed m b run)
