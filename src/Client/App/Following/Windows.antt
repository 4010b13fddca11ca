-- ===== src/Client/App/Following/Windows.antt =====
-- The cycles of a session over the answers of the server: what the window shows after them.
use embedded_client_server_v.Prelude.{
  ℕ, ◌+◌, ◌≤◌, ◌<◌, ◌≡◌, refl, sym, ap, ◌∙◌, ◌⊎◌, inl, inr, false, List, [], ◌∷◌, ◌++◌, none, some,
  length, Returns-mono,
}
use embedded_client_server_v.Protocol.Message.{Message, IsAnswer, header, encode, encode_parts}
use embedded_client_server_v.Protocol.Stream.{encode_all, AreAnswers}
use embedded_client_server_v.Posix.{Posix, Laws, milliseconds}
use embedded_client_server_v.Client.Config
use embedded_client_server_v.Client.Desktop.{Desktop, IsLocal}
use embedded_client_server_v.Client.Socket.Unread.{blind}
use embedded_client_server_v.Client.App.{ClientApp, cycle}
use embedded_client_server_v.Client.App.Cycling.{Cycles, begun}
use embedded_client_server_v.Client.App.Decoding.{handle_response-Ends}
use embedded_client_server_v.Client.App.Losing.{Draws}
use embedded_client_server_v.Client.App.Showing.{Suffices}
use embedded_client_server_v.Client.App.Taking.{Idle}
use embedded_client_server_v.Client.App.Window.{
  window, show, show_all, show_all-append, Shown, Shows-Shown,
}
use embedded_client_server_v.Client.App.Following.{Follows, Carries, all-Follows}
use embedded_client_server_v.Client.App.Cycling.{Seen, cycle-Took}

module _ (os : Posix) (desk : Desktop os) where
  -- The window is the one that the answers make of that of a.
  abbrev pub ShowsThose : ClientApp os desk → List Message → ClientApp os desk → Type 0
  ShowsThose a shown b = window os desk b ≡ show_all os desk shown (window os desk a)

module _ (os : Posix) (desk : Desktop os) (laws : Laws os) (draws : Draws os laws desk) where
  pub unseen : Seen os desk laws {X = Unit {0}} (λ _. tt)
  unseen = record {
    unasked = record { unread = blind os; by_send = λ fd data' w. refl };
    passes = λ fd. record {
      same = λ w. (refl, refl);
      both = λ u v w p q. (q.0 ∙ p.0, refl);
      by_now = λ w. (laws.now_pending fd w, refl);
      by_imshow = λ name m w. (draws.imshow_pending fd name m w, refl);
      by_wait_key = λ ms w. (draws.wait_key_pending fd ms w, refl);
    };
  }

module _ (os : Posix) (desk : Desktop os) (laws : Laws os) (local : IsLocal os laws desk)
    (draws : Draws os laws desk) where
  open os use {World}

  cycle-Shown :
      (f : ℕ) (m : Message) (y : List ℕ) (b c : ClientApp os desk)
      → IsAnswer m
      → Suffices f m
      → laws.pending b.client.fd b.world ≡ encode m ++ y
      → cycle os desk f b ≡ some (none, c)
      → Shown os desk laws b.client.fd m y b c ⊎ Idle os desk laws {X = Unit {0}} (λ _. tt) b c
  cycle-Shown f m y b c h enough there run =
      let fd = b.client.fd in
      cycle-Took os desk laws (λ _. tt) (unseen os desk laws draws) f m y b c
        (Shown os desk laws fd m y b)
        (λ t w left _.
          Returns-mono _ _
            (λ done d ends. elim ends [
              | inl (ok, s) ↦ inl (
                ok,
                Shows-Shown os desk laws fd m y
                    (record (begun os desk b) { last_response = t; world = w }) d s,
              )
              | inr failed ↦ inr failed
            ])
            (handle_response-Ends os desk laws local fd false (λ e. absurd (cc e)) f m y
              (record (begun os desk b) { last_response = t; world = w }) refl h enough
              (ap (◌∷◌ (header m)) left ∙ ap (λ x. x ++ y) (sym (encode_parts m h)))))
        (λ d same level q.
          (ap (λ x. x.client) same ∙ q.0, ap (window os desk) same ∙ q.1, level.0 ∙ q.2))
        h there run

  shows_those :
      (a : ClientApp os desk) → Carries os desk laws (ShowsThose os desk a) {X = Unit {0}} (λ _. tt)
  shows_those a = record {
    still = λ shown b c idle e. ap (window os desk) idle.0 ∙ e;
    handles = λ f m y shown b c h enough there run e.
        elim (cycle-Shown f m y b c h enough there run) [
          | inl (s, v, p) ↦ inl (
            s,
            p,
            v
                ∙ ap (show os desk m) e
                ∙ sym (show_all-append os desk shown (m ∷ []) (window os desk a)),
          )
          | inr idle ↦ inr idle
        ];
  }

  -- The connection delivers answers, with numbers and sizes below 2^32, and then `rest`; it may
  -- time out, fail or lose the server at any point. After n cycles that went on, at most as many
  -- as there are answers unless `rest` is empty, each with fuel above the number of the answers'
  -- bytes plus the nanoseconds of the link's delay: the first answers, at most n, have been shown,
  -- in their order and each in full, and exactly the others are still to be read, with `rest`
  -- behind them, none of them in part. The window's state, image and number are those that the
  -- answers shown make of the ones before (an image that does not decode leaves the old one). The
  -- socket is the same.
  pub Cycles-Follows :
      (fuel : ℕ) (ms : List Message) (rest : List ℕ) (a : ClientApp os desk)
      → AreAnswers ms
      → length (encode_all ms) + milliseconds Config.link_timeout_ms < fuel
      → laws.pending a.client.fd a.world ≡ encode_all ms ++ rest
      → (n : ℕ) (b : ClientApp os desk) → (n ≤ length ms) ⊎ (rest ≡ [])
      → Cycles os desk fuel a n b
      → Follows os desk laws (ShowsThose os desk a) ms rest a n b
  Cycles-Follows fuel ms rest a h enough there n b few cycles =
      all-Follows os desk laws (λ _. tt) (unseen os desk laws draws) (ShowsThose os desk a)
        (shows_those a) ms rest a fuel h enough refl there n b few cycles
