-- ===== src/Client/App/Cycling.antt =====
-- The cycles of a session that go on: what one of them is made of, and that it handles the answer
-- on its way, or nothing.
use embedded_client_server_v.Prelude.{
  ℕ, suc, ◌≤◌, ◌≡◌, refl, Bool, true, false, Bool-cases, inl, inr, Option, none, some, Ensures-pure,
  ◌⊎◌, ◌∙◌, List, [], ◌++◌, ℤ, Returns, ap,
}
use embedded_client_server_v.Posix.{Posix, Laws}
use embedded_client_server_v.Client.Config
use embedded_client_server_v.Client.Desktop.{Desktop}
use embedded_client_server_v.Client.Reporter.{begin_cycle, end_cycle}
use embedded_client_server_v.Client.App.{
  ClientApp, LoopExit, is_quit_key, compose_frame, display_and_poll_key, exchange_frame, cycle,
  handle_response,
}
use embedded_client_server_v.Client.App.Drawing.{Passes, drawn, drawn-Passes, end_cycle-Passes}
use embedded_client_server_v.Protocol.Bytes.{net_bytes}
use embedded_client_server_v.Protocol.Message.{Message, IsAnswer, header, after_id, id_of, encode}
use embedded_client_server_v.Client.App.Showing.{Ends}
use embedded_client_server_v.Client.App.Taking.{
  Unasked, Idle, exchange_frame-Took, exchange_frame-Idle,
}

module _ (os : Posix) (desk : Desktop os) where
  -- So many cycles that went on, each with this fuel at least.
  pub data Cycles (fuel : ℕ) (a : ClientApp os desk) : ℕ → ClientApp os desk → Type 0 where
    here : Cycles fuel a 0 a
    next :
        {n : ℕ} {b c : ClientApp os desk} (f : ℕ)
        → Cycles fuel a n b
        → fuel ≤ f
        → cycle os desk f b ≡ some (none, c)
        → Cycles fuel a (suc n) c

  -- The cycle after its exchange has begun.
  abbrev pub begun : ClientApp os desk → ClientApp os desk
  begun a = let (r, w) = begin_cycle os a.reporter a.world in record a { reporter = r; world = w }

module _ (os : Posix) (desk : Desktop os) (R : os.World → os.World → Type 0)
    (passes : Passes os desk R) where
  -- A cycle that goes on has had a successful exchange, and behind it only counts and draws.
  pub record GoesOn (f : ℕ) (a c : ClientApp os desk) : Type 0 where
    pub exchanged : ClientApp os desk
    pub ran : exchange_frame os desk f (begun os desk a) ≡ some (true, exchanged)
    pub keeps : c ≡ record exchanged { reporter = c.reporter; world = c.world }
    pub drew : R exchanged.world c.world

  exchanged_GoesOn :
      (f : ℕ) (a c : ClientApp os desk) (r : Option (Bool × ClientApp os desk))
      → exchange_frame os desk f (begun os desk a) ≡ r
      → cycle os desk f a ≡ some (none, c)
      → GoesOn f a c
  unfolding cycle display_and_poll_key
  exchanged_GoesOn f a c none e run = absurd (cc (rw (e, cycle) at run))
  exchanged_GoesOn f a c (some (false, b)) e run = absurd (cc (rw (e, cycle) at run))
  exchanged_GoesOn f a c (some (true, b)) e run =
      let (image, w) = compose_frame os desk b in
      let shown = desk.imshow Config.window_name image w in
      let key = (desk.wait_key Config.cycle_period_ms shown).0 in
      let after = drawn os desk Config.cycle_period_ms b in
      let (count, left) = end_cycle os b.reporter after in
      elim (Bool-cases (is_quit_key key)) [
        | inl quits ↦ absurd (cc (rw (e, quits, cycle) at run))
        | inr stays ↦
            Ensures-pure {S = ClientApp os desk} {A = Option LoopExit} (λ _ c. GoesOn f a c) none
              (record b { reporter = count.0; world = left })
              (record {
                exchanged = b;
                ran = e;
                keeps = refl;
                drew =
                    passes.both b.world after _
                      (drawn-Passes os desk R passes Config.cycle_period_ms b)
                      (end_cycle-Passes os desk R passes b.reporter after);
              })
              none c (rw (e, stays, cycle) at run)
      ]

  pub cycle-GoesOn :
      (f : ℕ) (a c : ClientApp os desk) → cycle os desk f a ≡ some (none, c) → GoesOn f a c
  cycle-GoesOn f a c run = exchanged_GoesOn f a c _ refl run

module _ (os : Posix) (desk : Desktop os) (laws : Laws os) {X : Type 0} (view : os.World → X) where
  open os use {World}

  -- Nothing of the connection has been read, and the view is the same.
  abbrev pub Level : ℤ → World → World → Type 0
  Level fd w v = (laws.pending fd v ≡ laws.pending fd w) × (view v ≡ view w)

  -- A view of the world that changes only while an answer is handled.
  pub record Seen : Type 0 where
    pub unasked : Unasked os view
    pub passes : (fd : ℤ) → Passes os desk (Level fd)

module _ (os : Posix) (desk : Desktop os) (laws : Laws os) {X : Type 0} (view : os.World → X)
    (seen : Seen os desk laws view) where
  open os use {World}

  -- Statistics and world of the one, and the rest of the other.
  abbrev counted : ClientApp os desk → ClientApp os desk → ClientApp os desk
  counted c b = record b { reporter = c.reporter; world = c.world }

  pub cycle-Idle :
      (f : ℕ) (a c : ClientApp os desk)
      → laws.pending a.client.fd a.world ≡ []
      → cycle os desk f a ≡ some (none, c)
      → Idle os desk laws view a c
  unfolding begin_cycle
  cycle-Idle f a c empty run =
      let fd = a.client.fd in
      let g = cycle-GoesOn os desk (Level os desk laws view fd) (seen.passes fd) f a c run in
      let begins = (seen.passes fd).by_now a.world in
      let (same, left, kept) =
        exchange_frame-Idle os desk laws view seen.unasked f (begun os desk a) g.exchanged
          (begins.0 ∙ empty) g.ran in
      (g.keeps ∙ ap (counted c) same, g.drew.0 ∙ left ∙ begins.0, g.drew.1 ∙ kept ∙ begins.1)

  -- With an answer on its way, a cycle that goes on has handled it with success, or nothing has
  -- happened.
  pub cycle-Took :
      (f : ℕ) (m : Message) (y : List ℕ) (a c : ClientApp os desk) (Q : ClientApp os desk → Type 0)
      → ((t : ℕ) (w : World)
          → laws.pending a.client.fd w ≡ (net_bytes (id_of m) ++ after_id m) ++ y
          → view w ≡ view a.world
          → Returns
              (handle_response os desk f
                (header m)
                (record (begun os desk a) { last_response = t; world = w }))
              (Ends os desk false Q))
      → ((b : ClientApp os desk)
          → c ≡ record b { reporter = c.reporter; world = c.world }
          → Level os desk laws view a.client.fd b.world c.world
          → Q b
          → Q c)
      → IsAnswer m
      → laws.pending a.client.fd a.world ≡ encode m ++ y
      → cycle os desk f a ≡ some (none, c)
      → Q c ⊎ Idle os desk laws view a c
  unfolding begin_cycle
  cycle-Took f m y a c Q handles carry h there run =
      let fd = a.client.fd in
      let g = cycle-GoesOn os desk (Level os desk laws view fd) (seen.passes fd) f a c run in
      let begins = (seen.passes fd).by_now a.world in
      elim (exchange_frame-Took os desk laws view seen.unasked f m y (begun os desk a) g.exchanged Q
        (λ t w left kept. handles t w left (kept ∙ begins.1)) h (begins.0 ∙ there) g.ran) [
          | inl q ↦ inl (carry g.exchanged g.keeps g.drew q)
          | inr (same, left, kept) ↦ inr (
            g.keeps ∙ ap (counted c) same,
            g.drew.0 ∙ left ∙ begins.0,
            g.drew.1 ∙ kept ∙ begins.1,
          )
        ]
