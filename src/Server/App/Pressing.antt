-- ===== src/Server/App/Pressing.antt =====
-- A session of the server with the rounds of the button's worker between its commands. The flag is
-- touched once in a command, so that a round that falls within a command does what it would do
-- before it or behind it.
use embedded_client_server_v.Prelude.{
  ℕ, ◌+◌, ◌≤◌, ◌≡◌, sym, ap, ◌∙◌, inl, inr, true, List, [], ◌∷◌, ◌++◌, append_assoc, append-nil, ℤ,
  some, arith, length, subst,
}
use embedded_client_server_v.Protocol.Message.{Message}
use embedded_client_server_v.Protocol.Stream.{encode_all, encode_all-append}
use embedded_client_server_v.Posix.{Posix, Laws}
use embedded_client_server_v.Server.Hardware.{Hardware, IsLocal}
use embedded_client_server_v.Server.Button.{Watch, Sample, start_watch, watch_round}
use embedded_client_server_v.Server.Button.Reports.{waiting}
use embedded_client_server_v.Server.Button.Watching.{
  accepted, debounced, releases, changes, IsConsistent, round_cases, watch_round-IsConsistent,
}
use embedded_client_server_v.Server.App.{ServerApp, gone, process_next_command}
use embedded_client_server_v.Server.App.Conversation.{presses, presses-append}
use embedded_client_server_v.Server.App.Trace.{process_next_command-Conversed}

module _ (os : Posix) (hw : Hardware os) where
  -- The button after a round of the worker.
  abbrev pub watched : ServerApp os hw → Watch → Sample → ServerApp os hw
  watched a v s = record a { button = (watch_round a.button v s).0 }

  -- Commands or expiries of a session that goes on, and rounds of the worker with these readings.
  pub data Interleaves : ServerApp os hw → Watch → List Sample → ServerApp os hw → Type 0 where
    here : {a : ServerApp os hw} {v : Watch} → Interleaves a v [] a
    command :
        {a b c : ServerApp os hw} {v : Watch} {samples : List Sample}
        → process_next_command os hw gone a ≡ some ((true, gone), b)
        → Interleaves b v samples c
        → Interleaves a v samples c
    round :
        {a c : ServerApp os hw} {v : Watch} {s : Sample} {samples : List Sample}
        → Interleaves (watched a v s) (watch_round a.button v s).1 samples c
        → Interleaves a v (s ∷ samples) c

module _ (os : Posix) (hw : Hardware os) (laws : Laws os) where
  -- The messages sent, of which no more answer a press, with the one that still waits, than were
  -- accepted or waited before.
  pub record Answered (a : ServerApp os hw) (times : List ℕ) (b : ServerApp os hw) : Type 0 where
    pub answers : List Message
    pub sent :
        laws.sent a.server.client_fd b.world
        ≡ laws.sent a.server.client_fd a.world ++ encode_all answers
    pub once : presses answers + waiting b.button ≤ waiting a.button + length times

module _ (os : Posix) (hw : Hardware os) (laws : Laws os) (local : IsLocal os laws hw) where
  -- What is accepted does not depend on the flag.
  Interleaves-accepted :
      (a : ServerApp os hw) (v : Watch) (samples : List Sample) (b : ServerApp os hw)
      → IsConsistent a.button v
      → Interleaves os hw a v samples b
      → Answered os hw laws a (accepted a.button v samples) b
  unfolding encode_all
  Interleaves-accepted a v samples b c here = record {
    answers = [];
    sent = sym (append-nil _);
    once = omega arith;
  }
  Interleaves-accepted a v samples b c (command {b = d} run rest) =
      let x = process_next_command-Conversed os hw laws local a d run in
      let consistent = subst (λ t. IsConsistent t v) (sym x.taken.button) c in
      let k = Interleaves-accepted d v samples b consistent rest in
      let fd = a.server.client_fd in
      let sent' : laws.sent fd b.world ≡ laws.sent fd d.world ++ encode_all k.answers =
        subst
          (λ s.
            laws.sent s.client_fd b.world ≡ laws.sent s.client_fd d.world ++ encode_all k.answers)
          x.same k.sent in
      let times : length (accepted d.button v samples) ≡ length (accepted a.button v samples) =
        ap (λ t. length (accepted t v samples)) x.taken.button in
      record {
        answers = x.answers ++ k.answers;
        sent =
            sent'
            ∙ ap (λ y. y ++ encode_all k.answers) x.sent
            ∙ append_assoc (laws.sent fd a.world) (encode_all x.answers) (encode_all k.answers)
            ∙ ap (◌++◌ (laws.sent fd a.world)) (sym (encode_all-append x.answers k.answers));
        once = omega (arith, x.taken.flag, k.once, times, presses-append x.answers k.answers);
      }
  Interleaves-accepted a v (s ∷ samples) b c (round rest) =
      let k =
        Interleaves-accepted (watched os hw a v s) (watch_round a.button v s).1 samples b
          (watch_round-IsConsistent a.button v s c) rest in
      record {
        answers = k.answers;
        sent = k.sent;
        once = elim (round_cases a.button v s c) [
          | inl (p, t) ↦ ground (arith, k.once, ap length (t samples))
          | inr (p, l, t) ↦ ground (arith, k.once, ap length (t samples))
        ];
      }

  -- A session of the server goes on while the worker, started on a first reading of the line, takes
  -- further readings, its rounds in any order between the commands: what has been sent are
  -- messages, and those that are a BUTTON_PRESS, together with the press that still waits
  -- afterwards, are at most the releases that the pipeline accepts from these readings, plus one if
  -- a press was pending before.
  pub Interleaves-Answered :
      (a : ServerApp os hw) (first : ℤ) (samples : List Sample) (b : ServerApp os hw)
      → Interleaves os hw a (start_watch a.button first) samples b
      → Answered os hw laws a
          (debounced a.button.debounce a.button.last_accepted (
            releases a.button.pressed_level
              (changes (start_watch a.button first).previous samples)))
          b
  unfolding start_watch
  Interleaves-Answered a first samples b i =
      Interleaves-accepted a (start_watch a.button first) samples b (λ e. cc e) i
