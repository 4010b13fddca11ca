-- ===== src/Client/App/Waiting.antt =====
-- The wait of connectToServer between two attempts: which keys it polls, and when it is over.
use embedded_client_server_v.Prelude.{
  ℕ, zero, suc, ◌-◌, ◌≤◌, ◌<◌, ◌≡◌, refl, ap, ◌⊎◌, inl, inr, Bool, true, false, ℤ, pos, negsuc,
  ◌==◌, arith, ltb, ltb→lt, Bool-cases, Returns, Returns-pure, Returns-mono, Ensures, Ensures-pure,
  Ensures-mono, Ensures-none,
}
use embedded_client_server_v.Posix.{Posix, Laws}
use embedded_client_server_v.Client.Config
use embedded_client_server_v.Client.Desktop.{Desktop}
use embedded_client_server_v.Client.App.{ClientApp, is_quit_key, display_and_poll_key, wait_until}
use embedded_client_server_v.Client.App.Drawing.{Passes, shown, shown-Passes, drawn, drawn-Passes}
use embedded_client_server_v.Client.App.Losing.{Draws}

-- A call of waitKey takes time.
pub record TakesTime (os : Posix) (laws : Laws os) (desk : Desktop os) : Type 0 where
  pub waits : (ms : ℕ) (w : os.World) → laws.time w < laws.time (desk.wait_key ms w).1

-- The keys that end the program.
abbrev pub IsQuit : ℤ → Type 0
IsQuit key = (key ≡ pos b'q') ⊎ (key ≡ pos b'Q')

pub is_quit_key-IsQuit : (key : ℤ) → is_quit_key key ≡ true → IsQuit key
is_quit_key-IsQuit (pos n) e = elim (Bool-cases (n == b'q')) [
  | inl small ↦ inl (ap pos (ground (arith, small)))
  | inr other ↦ inr (ap pos (ground (arith, other, e)))
]
is_quit_key-IsQuit (negsuc n) e = absurd (cc e)

pub is_quit_key_other : (key : ℤ) → is_quit_key key ≡ false → ¬ IsQuit key
is_quit_key_other key e (inl small) = absurd (cc (rw small at e))
is_quit_key_other key e (inr large) = absurd (cc (rw large at e))

module _ (os : Posix) (desk : Desktop os) where
  -- The client once the clock has been read, and once the window has been drawn and the keys polled.
  abbrev pub ticked : ClientApp os desk → ClientApp os desk
  ticked a = record a { world = (os.now a.world).1 }

  abbrev pub key_of : ClientApp os desk → ℤ
  key_of a = (desk.wait_key Config.ui_poll_ms (shown os desk a)).0

  abbrev pub polled : ClientApp os desk → ClientApp os desk
  polled a = record a { world = drawn os desk Config.ui_poll_ms a }

  -- Rounds of the wait until `next`: each begins before that time, and its poll finds no key to quit.
  pub data Polls (until : ℕ) : ClientApp os desk → ClientApp os desk → Type 0 where
    no_poll : {a : ClientApp os desk} → Polls until a a
    unquit :
        {a b : ClientApp os desk}
        → (os.now a.world).0 < until
        → ¬ IsQuit (key_of (ticked a))
        → Polls until (polled (ticked a)) b
        → Polls until a b

module _ (os : Posix) (desk : Desktop os) (laws : Laws os) where
  -- The wait is over after some rounds: the poll of one more has found a key to quit, or the time
  -- has come.
  pub record Waited (until : ℕ) (a : ClientApp os desk) (quits : Bool) (b : ClientApp os desk)
      : Type 0 where
    pub last : ClientApp os desk
    pub polls : Polls os desk until a last
    pub same : b ≡ record a { world = b.world }
    pub over :
        ((quits ≡ true)
          × ((os.now last.world).0 < until)
          × IsQuit (key_of os desk (ticked os desk last))
          × (b ≡ polled os desk (ticked os desk last)))
        ⊎ ((quits ≡ false) × (until ≤ laws.time b.world) × (b ≡ ticked os desk last))

module _ (os : Posix) (desk : Desktop os) (laws : Laws os) (draws : Draws os laws desk) where
  open os use {World}

  abbrev pub Later : World → World → Type 0
  Later w v = laws.time w ≤ laws.time v

  pub later : Passes os desk Later
  later = record {
    same = λ w. omega arith;
    both = λ u v w p q. omega (arith, p, q);
    by_now = λ w. omega (arith, laws.now_reads w);
    by_imshow = λ name m w. draws.imshow_time name m w;
    by_wait_key = λ ms w. draws.wait_key_time ms w;
  }

  pub drawn_since : (ms : ℕ) (a : ClientApp os desk) → Later a.world (drawn os desk ms a)
  drawn_since ms a = drawn-Passes os desk Later later ms a

  time_up :
      (until : ℕ) (a : ClientApp os desk)
      → ltb (os.now a.world).0 until ≡ false
      → Waited os desk laws until a false (ticked os desk a)
  time_up until a over = record {
    last = a;
    polls = no_poll;
    same = refl;
    over = inr (refl, ground (arith, over, laws.now_reads a.world), refl);
  }

  quit_now :
      (until : ℕ) (a : ClientApp os desk)
      → ltb (os.now a.world).0 until ≡ true
      → is_quit_key (key_of os desk (ticked os desk a)) ≡ true
      → Waited os desk laws until a true (polled os desk (ticked os desk a))
  quit_now until a early quits = record {
    last = a;
    polls = no_poll;
    same = refl;
    over = inl (refl, ltb→lt _ _ early, is_quit_key-IsQuit _ quits, refl);
  }

  one_more :
      (until : ℕ) (a : ClientApp os desk)
      → ltb (os.now a.world).0 until ≡ true
      → is_quit_key (key_of os desk (ticked os desk a)) ≡ false
      → (quits : Bool) (b : ClientApp os desk)
      → Waited os desk laws until (polled os desk (ticked os desk a)) quits b
      → Waited os desk laws until a quits b
  one_more until a early stays quits b waited = record {
    last = waited.last;
    polls = unquit (ltb→lt _ _ early) (is_quit_key_other _ stays) waited.polls;
    same = waited.same;
    over = waited.over;
  }

  module _ (takes : TakesTime os laws desk) where
    drawn_later :
        (ms : ℕ) (a : ClientApp os desk) → laws.time a.world < laws.time (drawn os desk ms a)
    drawn_later ms a =
        omega (arith, shown-Passes os desk Later later a, takes.waits ms (shown os desk a))

    -- If a call of waitKey takes time, the wait between two attempts returns, with fuel above the
    -- nanoseconds that are left of it. It has polled the keys in some rounds, each begun before the
    -- time, and found neither q nor Q; then either one more poll, begun before the time, has found
    -- one of them, and the result is true; or the time has come, and the result is false. Only the
    -- world has changed.
    pub wait_until-Waited :
        (fuel until : ℕ) (a : ClientApp os desk)
        → until - laws.time a.world < fuel
        → Returns (wait_until os desk fuel until a) (Waited os desk laws until a)
    unfolding wait_until display_and_poll_key
    wait_until-Waited zero until a enough = absurd (omega arith)
    wait_until-Waited (suc fuel) until a enough =
        let b = ticked os desk a in
        elim (Bool-cases (ltb (os.now a.world).0 until)) [
          | inr over ↦ rw (over, wait_until) (Returns-pure _ false b (time_up until a over))
          | inl early ↦ elim (Bool-cases (is_quit_key (key_of os desk b))) [
            | inl quits ↦
                rw (early, quits, wait_until)
                  (Returns-pure _ true (polled os desk b) (quit_now until a early quits))
            | inr stays ↦
                let left : until - laws.time (polled os desk b).world < fuel = omega (
                  arith,
                  enough,
                  ltb→lt _ _ early,
                  laws.now_reads a.world,
                  drawn_later Config.ui_poll_ms b,
                ) in
                rw (early, stays, wait_until)
                  (Returns-mono _ _ (one_more until a early stays)
                    (wait_until-Waited fuel until (polled os desk b) left))
          ]
        ]

  -- However much fuel the wait has: it ends so, if it returns.
  pub wait_until_ends :
      (fuel until : ℕ) (a : ClientApp os desk)
      → Ensures (wait_until os desk fuel until a) (Waited os desk laws until a)
  unfolding wait_until display_and_poll_key
  wait_until_ends zero until a = Ensures-none _
  wait_until_ends (suc fuel) until a =
      let b = ticked os desk a in
      elim (Bool-cases (ltb (os.now a.world).0 until)) [
        | inr over ↦ rw (over, wait_until) (Ensures-pure _ false b (time_up until a over))
        | inl early ↦ elim (Bool-cases (is_quit_key (key_of os desk b))) [
          | inl quits ↦
              rw (early, quits, wait_until)
                (Ensures-pure _ true (polled os desk b) (quit_now until a early quits))
          | inr stays ↦
              rw (early, stays, wait_until)
                (Ensures-mono _ _ (one_more until a early stays)
                  (wait_until_ends fuel until (polled os desk b)))
        ]
      ]
