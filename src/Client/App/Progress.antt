-- ===== src/Client/App/Progress.antt =====
-- The cycles of a session while nothing goes wrong: each of them shows an answer.
use embedded_client_server_v.Prelude.{
  ℕ, suc, ◌+◌, ◌<◌, ◌≡◌, refl, ap, ◌∙◌, inl, inr, List, [], ◌∷◌, ◌++◌, append_assoc, ℤ, pos, none,
  some, arith, length, length-append,
}
use embedded_client_server_v.Protocol.Message.{Message, IsAnswer, encode}
use embedded_client_server_v.Protocol.Stream.{encode_all, AreAnswers}
use embedded_client_server_v.Posix.{Posix, Laws, milliseconds}
use embedded_client_server_v.Client.Config
use embedded_client_server_v.Client.Desktop.{Desktop, IsLocal}
use embedded_client_server_v.Client.Reporter.{begin_cycle, end_cycle}
use embedded_client_server_v.Client.Socket.{send}
use embedded_client_server_v.Client.Socket.Receiving.{IsReliable}
use embedded_client_server_v.Client.App.{ClientApp, display_and_poll_key, cycle}
use embedded_client_server_v.Client.App.Cycling.{Cycles, here, next, begun}
use embedded_client_server_v.Client.App.Drawing.{drawn, drawn-Passes, end_cycle-Passes}
use embedded_client_server_v.Client.App.Exchange.{exchange_frame-Exchanges}
use embedded_client_server_v.Client.App.Following.{enough_each}
use embedded_client_server_v.Client.App.Cycling.{Level}
use embedded_client_server_v.Client.App.Following.Windows.{unseen}
use embedded_client_server_v.Client.App.Losing.{Draws}
use embedded_client_server_v.Client.App.Showing.{Suffices}
use embedded_client_server_v.Client.App.Staying.{NeverQuits}
use embedded_client_server_v.Client.App.Window.{window, show_all, Shown, Shows-Shown}

-- The connection takes every request.
pub record TakesRequests (os : Posix) (fd : ℤ) : Type 0 where
  pub takes : (w : os.World) → (os.send fd (1 ∷ []) w).0 ≡ pos 1

module _ (os : Posix) (desk : Desktop os) where
  -- Cycles behind a first one.
  front :
      (fuel : ℕ) (a b : ClientApp os desk)
      → cycle os desk fuel a ≡ some (none, b)
      → (n : ℕ) (c : ClientApp os desk) → Cycles os desk fuel b n c
      → Cycles os desk fuel a (suc n) c
  front fuel a b run n c here = next fuel here (omega arith) run
  front fuel a b run n c (next {n = k} {b = d} f s more last) =
      next f (front fuel a b run k d s) more last

module _ (os : Posix) (desk : Desktop os) (laws : Laws os) (fuel : ℕ) where
  -- All of the answers have been shown, one in each cycle, and `rest` is left to be read.
  pub record ShowsAll (ms : List Message) (rest : List ℕ) (a : ClientApp os desk) : Type 0 where
    pub last : ClientApp os desk
    pub cycles : Cycles os desk fuel a (length ms) last
    pub same : last.client ≡ a.client
    pub shows : window os desk last ≡ show_all os desk ms (window os desk a)
    pub unread : laws.pending a.client.fd last.world ≡ rest

module _ (os : Posix) (desk : Desktop os) (laws : Laws os) (local : IsLocal os laws desk)
    (draws : Draws os laws desk) (stays : NeverQuits os desk) (fd : ℤ)
    (reliable : IsReliable os laws fd) (takes : TakesRequests os fd) where
  -- A cycle shows the answer that is on its way.
  pub cycle-Shown :
      (fuel : ℕ) (m : Message) (y : List ℕ) (a : ClientApp os desk)
      → a.client.fd ≡ fd
      → IsAnswer m
      → Suffices fuel m
      → laws.pending fd a.world ≡ encode m ++ y
      → (c : ClientApp os desk) × (cycle os desk fuel a ≡ some (none, c))
        × Shown os desk laws fd m y a c
  unfolding cycle begin_cycle display_and_poll_key send
  cycle-Shown fuel m y a e h enough there =
      let begins = laws.now_pending fd a.world in
      let x =
        exchange_frame-Exchanges os desk laws local fd reliable fuel m y (begun os desk a) e h
          enough (begins ∙ there) in
      elim x.holds [
        | inr (refused, failed) ↦ absurd (cc (rw (e, takes.takes (os.now a.world).1) at refused))
        | inl (asked, ok, shows) ↦
            let b = x.state in
            let (s, v, p) = Shows-Shown os desk laws fd m y (begun os desk a) b shows in
            let after = drawn os desk Config.cycle_period_ms b in
            let drew =
              drawn-Passes os desk (Level os desk laws (λ _. tt) fd)
                ((unseen os desk laws draws).passes fd) Config.cycle_period_ms b in
            let counted =
              end_cycle-Passes os desk (Level os desk laws (λ _. tt) fd)
                ((unseen os desk laws draws).passes fd) b.reporter after in
            (
              (record b {
                reporter = (end_cycle os b.reporter after).0.0;
                world = (end_cycle os b.reporter after).1;
              }),
              rw (x.runs, ok, stays.other_keys _ _, cycle) refl,
              (s, v, counted.0 ∙ drew.0 ∙ p),
            )
      ]

  -- A reliable connection, which takes every request, delivers answers, with numbers and sizes
  -- below 2^32, and then `rest`, and the user does not quit. With fuel above the number of the
  -- answers' bytes plus the nanoseconds of the link's delay, as many cycles as there are answers
  -- run and go on; each has shown one of them in full, in their order; and exactly `rest` is left to
  -- be read.
  pub Cycles-ShowsAll :
      (fuel : ℕ) (ms : List Message) (rest : List ℕ) (a : ClientApp os desk)
      → a.client.fd ≡ fd
      → AreAnswers ms
      → length (encode_all ms) + milliseconds Config.link_timeout_ms < fuel
      → laws.pending fd a.world ≡ encode_all ms ++ rest
      → ShowsAll os desk laws fuel ms rest a
  unfolding encode_all
  Cycles-ShowsAll fuel [] rest a e h enough there = record {
    last = a;
    cycles = here;
    same = refl;
    shows = refl;
    unread = rw e there;
  }
  Cycles-ShowsAll fuel (m ∷ ms) rest a e h enough there =
      let (b, run, (s, v, p)) =
        cycle-Shown fuel m (encode_all ms ++ rest) a e h.0
          (enough_each os desk laws fuel fuel (m ∷ ms) [] ms m h.0 enough (omega arith) refl)
          (there ∙ append_assoc (encode m) (encode_all ms) rest) in
      let k =
        Cycles-ShowsAll fuel ms rest b (ap (λ c. c.fd) s ∙ e) h.1
          (omega (arith, length-append (encode m) (encode_all ms))) p in
      record {
        last = k.last;
        cycles = front os desk fuel a b run (length ms) k.last k.cycles;
        same = k.same ∙ s;
        shows = k.shows ∙ ap (show_all os desk ms) v;
        unread = rw (← ap (λ c. c.fd) s) k.unread;
      }
