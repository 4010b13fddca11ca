-- ===== src/Client/App/Pacing.antt =====
-- connectToServer: how often it tries, and how it ends.
mod Examples
use embedded_client_server_v.Prelude.{
  ℕ, zero, suc, ◌+◌, ◌*◌, ◌≤◌, ◌≡◌, refl, ◌⊎◌, inl, inr, Bool, true, false, Option, none, some,
  arith, Bool-cases, Ensures-pure, ap,
}
use embedded_client_server_v.Posix.{Posix, Laws, milliseconds}
use embedded_client_server_v.Client.Config
use embedded_client_server_v.Client.Desktop.{Desktop}
use embedded_client_server_v.Client.App.{
  ClientApp, is_quit_key, compose_frame, display_and_poll_key, wait_until, attempt, connect_loop,
}
use embedded_client_server_v.Client.App.Drawing.{drawn}
use embedded_client_server_v.Client.App.Losing.{Draws}
use embedded_client_server_v.Client.App.Waiting.{
  IsQuit, is_quit_key-IsQuit, is_quit_key_other, key_of, polled, Waited, drawn_since,
  wait_until_ends,
}

module _ (os : Posix) (desk : Desktop os) where
  -- The client when it makes an attempt, and the time of it.
  abbrev pub trying : ClientApp os desk → ClientApp os desk
  trying a = record a { world = (os.now (drawn os desk Config.ui_poll_ms a)).1 }

  -- Until when the wait behind a failed attempt lasts.

  abbrev pub retry_at : ClientApp os desk → ℕ
  retry_at a =
      (os.now (drawn os desk Config.ui_poll_ms a)).0 + milliseconds Config.reconnect_period_ms

module _ (os : Posix) (desk : Desktop os) (laws : Laws os) where
  -- No key to quit, an attempt that failed, and the wait behind it, without a key to quit.
  pub record FailedTry (a b : ClientApp os desk) : Type 0 where
    pub stays : ¬ IsQuit (key_of os desk a)
    pub failed : (attempt os desk (trying os desk a)).0 ≡ false
    pub waited :
        Waited os desk laws (retry_at os desk a) (attempt os desk (trying os desk a)).1 false b

  pub data Tries : ClientApp os desk → ℕ → ClientApp os desk → Type 0 where
    here : {a : ClientApp os desk} → Tries a 0 a
    again : {n : ℕ} {a b c : ClientApp os desk} → FailedTry a b → Tries b n c → Tries a (suc n) c

  -- How the last round ends.
  pub data Final (a : ClientApp os desk) : Bool → ClientApp os desk → Type 0 where
    connected :
        {z : ClientApp os desk}
        → ¬ IsQuit (key_of os desk a)
        → attempt os desk (trying os desk a) ≡ (true, z)
        → Final a true z
    quit_before : IsQuit (key_of os desk a) → Final a false (polled os desk a)
    quit_waiting :
        {z : ClientApp os desk}
        → ¬ IsQuit (key_of os desk a)
        → (attempt os desk (trying os desk a)).0 ≡ false
        → Waited os desk laws (retry_at os desk a) (attempt os desk (trying os desk a)).1 true z
        → Final a false z

  -- The loop has made this many attempts in vain, and the waits have taken their time; then an
  -- attempt has succeeded, or the user has quit.
  pub record Paced (a : ClientApp os desk) (r : Bool) (z : ClientApp os desk) : Type 0 where
    pub count : ℕ
    pub last : ClientApp os desk
    pub tries : Tries a count last
    pub spaced :
        laws.time a.world + count * milliseconds Config.reconnect_period_ms ≤ laws.time last.world
    pub ends : Final last r z

module _ (os : Posix) (desk : Desktop os) (laws : Laws os) (draws : Draws os laws desk) where
  open os use {World}

  abbrev Result : ClientApp os desk → Bool → ClientApp os desk → Type 0
  Result a = Paced os desk laws a

  -- No attempt of another round.
  ending : (a z : ClientApp os desk) (r : Bool) → Final os desk laws a r z → Result a r z
  ending a z r ends = record {
    count = 0;
    last = a;
    tries = here;
    spaced = omega arith;
    ends = ends;
  }

  -- Another attempt has failed and its wait is over.
  waiting :
      (a b z : ClientApp os desk) (r : Bool)
      → FailedTry os desk laws a b
      → Result b r z
      → Result a r z
  waiting a b z r try p =
      let drew = drawn_since os desk laws draws Config.ui_poll_ms a in
      let reads = laws.now_reads (drawn os desk Config.ui_poll_ms a) in
      let late : retry_at os desk a ≤ laws.time b.world = elim try.waited.over [
        | inl (never, _, _, _) ↦ absurd (cc never)
        | inr (_, up, _) ↦ up
      ] in
      record {
        count = suc p.count;
        last = p.last;
        tries = again try p.tries;
        spaced = omega (arith, drew, reads, late, p.spaced);
        ends = p.ends;
      }

  after_failure :
      (fuel : ℕ) (a z : ClientApp os desk) (r : Bool)
      → is_quit_key (key_of os desk a) ≡ false
      → (attempt os desk (trying os desk a)).0 ≡ false
      → ((b : ClientApp os desk) → connect_loop os desk fuel b ≡ some (r, z) → Result b r z)
      → (w : Option (Bool × ClientApp os desk))
      → wait_until os desk fuel (retry_at os desk a) (attempt os desk (trying os desk a)).1 ≡ w
      → connect_loop os desk (suc fuel) a ≡ some (r, z)
      → Result a r z
  unfolding connect_loop display_and_poll_key
  after_failure fuel a z r stays failed onwards none e run =
      absurd (cc (rw (stays, failed, e, connect_loop) at run))
  after_failure fuel a z r stays failed onwards (some (true, b)) e run =
      Ensures-pure {S = ClientApp os desk} {A = Bool} (Result a) false b
        (ending a b false (
          quit_waiting (is_quit_key_other _ stays) failed
            (wait_until_ends os desk laws draws fuel _ _ true b e)))
        r z (rw (stays, failed, e, connect_loop) at run)
  after_failure fuel a z r stays failed onwards (some (false, b)) e run =
      waiting a b z r
        (record {
          stays = is_quit_key_other _ stays;
          failed = failed;
          waited = wait_until_ends os desk laws draws fuel _ _ false b e;
        })
        (onwards b (rw (stays, failed, e, connect_loop) at run))

  -- If the loop of connectToServer returns, it has made some number of attempts in vain, each
  -- followed by its whole wait, so that since the start at least this number times the reconnection
  -- period has passed when the last round begins; no poll of the keys so far has found q or Q. In
  -- that round either the attempt has succeeded, and the result is true with what the attempt left;
  -- or the result is false, and the poll before the attempt has found q or Q, or the attempt has
  -- failed and a poll in the wait behind it has.
  pub connect_loop-Paced :
      (fuel : ℕ) (a : ClientApp os desk) (r : Bool) (z : ClientApp os desk)
      → connect_loop os desk fuel a ≡ some (r, z)
      → Paced os desk laws a r z
  unfolding connect_loop display_and_poll_key
  connect_loop-Paced zero a r z run = absurd (cc run)
  connect_loop-Paced (suc fuel) a r z run = elim (Bool-cases (is_quit_key (key_of os desk a))) [
    | inl quits ↦
        Ensures-pure {S = ClientApp os desk} {A = Bool} (Result a) false _
          (ending a _ false (quit_before (is_quit_key-IsQuit _ quits))) r z
          (rw (quits, connect_loop) at run)
    | inr stays ↦ elim (Bool-cases (attempt os desk (trying os desk a)).0) [
      | inr failed ↦
          after_failure fuel a z r stays failed (λ b. connect_loop-Paced fuel b r z) _ refl run
      | inl ok ↦
          let c = (attempt os desk (trying os desk a)).1 in
          Ensures-pure {S = ClientApp os desk} {A = Bool} (Result a) true c
            (ending a c true (connected (is_quit_key_other _ stays) (ap (λ x. (x, c)) ok))) r z
            (rw (stays, ok, connect_loop) at run)
    ]
  ]
