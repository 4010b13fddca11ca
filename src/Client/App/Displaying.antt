-- ===== src/Client/App/Displaying.antt =====
-- composeFrame through a cycle of the client: the image that the window shows.
mod Examples
use Prim.Native.String.{String}
use embedded_client_server_v.Prelude.{
  ℕ, ◌+◌, ◌-◌, ◌≤◌, ◌<◌, ◌≡◌, refl, ap, ◌∙◌, inl, inr, Bool, true, false, Bool-cases, subst, sym,
  ltb, List, ◌++◌, ℤ, Option, none, some, arith, Ensures-pure,
}
use embedded_client_server_v.Protocol.Message.{
  Message, IsAnswer, frame, press, dark, mismatch, acknowledge, encode,
}
use embedded_client_server_v.Posix.{Posix, Laws, milliseconds}
use embedded_client_server_v.Client.Config
use embedded_client_server_v.Client.Desktop.{Desktop, IsLocal, codes}
use embedded_client_server_v.Client.Reporter.{CycleReporter, end_cycle, reset}
use embedded_client_server_v.Client.Socket.Receiving.{IsReliable}
use embedded_client_server_v.Client.App.{
  ClientApp, LoopExit, DisplayState, normal, no_light, sensor_error, link_lost, is_quit_key,
  elapsed, compose, compose_frame, display_and_poll_key, exchange_frame, cycle,
}
use embedded_client_server_v.Client.App.Cycling.{begun}
use embedded_client_server_v.Client.App.Drawing.{Passes, drawn, end_cycle-Passes}
use embedded_client_server_v.Client.App.Losing.{Draws}
use embedded_client_server_v.Client.App.Progress.{TakesRequests, cycle-Shown}
use embedded_client_server_v.Client.App.Showing.{Suffices, picture}
use embedded_client_server_v.Client.App.Staying.{NeverQuits}
use embedded_client_server_v.Client.App.Waiting.{Later, later}
use embedded_client_server_v.Client.App.Window.{Shown, window}
use embedded_client_server_v.Client.App.Images.{Screen, Composed, Composed-later, Answered}

module _ (os : Posix) (desk : Desktop os) (laws : Laws os) where
  compose-Composed :
      (s : DisplayState) (a : ClientApp os desk)
      → let (image, w) = compose os desk s a in
        Composed desk s a.frame a.state_since (laws.time a.world) (laws.time w) image
  unfolding compose elapsed
  compose-Composed normal a = refl
  compose-Composed no_light a =
      let (after, before) = laws.now_reads a.world in
      ((os.now a.world).0 - a.state_since, refl, omega (arith, after), omega (arith, before))
  compose-Composed sensor_error a =
      let (after, before) = laws.now_reads a.world in
      ((os.now a.world).0 - a.state_since, refl, omega (arith, after), omega (arith, before))
  compose-Composed link_lost a = refl

module _ (os : Posix) (desk : Desktop os) (laws : Laws os) (screen : Screen os desk) where
  -- A cycle that has gone on, with the app behind its exchange, and what it has left on the screen.
  record OnScreen (f : ℕ) (a c : ClientApp os desk) : Type 0 where
    exchanged : ClientApp os desk
    ran : exchange_frame os desk f (begun os desk a) ≡ some (true, exchanged)
    composed :
        Composed desk c.state c.frame c.state_since
          (laws.time exchanged.world)
          (laws.time c.world)
          (screen.screen c.world)

  -- A cycle with this answer has run and gone on; the window's record is that of the answer; and the
  -- window shows its image, composed after the exchange.
  pub record Displays (fuel : ℕ) (m : Message) (y : List ℕ) (a : ClientApp os desk) : Type 0 where
    pub last : ClientApp os desk
    pub runs : cycle os desk fuel a ≡ some (none, last)
    pub records : Shown os desk laws a.client.fd m y a last
    pub exchanged : ClientApp os desk
    pub ran : exchange_frame os desk fuel (begun os desk a) ≡ some (true, exchanged)
    pub displays :
        Answered desk m a.frame last.state_since
          (laws.time exchanged.world)
          (laws.time last.world)
          (screen.screen last.world)

module _ (os : Posix) (desk : Desktop os) (laws : Laws os) (draws : Draws os laws desk)
    (screen : Screen os desk) where
  open os use {World}

  abbrev Same : World → World → Type 0
  Same w v = screen.screen v ≡ screen.screen w

  end_cycle_screen : (r : CycleReporter) (w : World) → Same w (end_cycle os r w).1
  unfolding end_cycle reset
  end_cycle_screen r w =
      let (t, v) = os.now w in
      elim (Bool-cases (ltb (t - r.last_report) (milliseconds 1000))) [
        | inl short ↦ rw (short, end_cycle) (screen.by_now w)
        | inr long ↦ rw (long, end_cycle) (screen.by_now v ∙ screen.by_now w)
      ]

  abbrev passes : Passes os desk (Later os desk laws draws)
  passes = later os desk laws draws

  -- The end of a cycle that goes on.
  shown_OnScreen :
      (f : ℕ) (a c : ClientApp os desk) (r : Option (Bool × ClientApp os desk))
      → exchange_frame os desk f (begun os desk a) ≡ r
      → cycle os desk f a ≡ some (none, c)
      → OnScreen os desk laws screen f a c
  unfolding cycle display_and_poll_key compose_frame
  shown_OnScreen f a c none e run = absurd (cc (rw (e, cycle) at run))
  shown_OnScreen f a c (some (false, b)) e run = absurd (cc (rw (e, cycle) at run))
  shown_OnScreen f a c (some (true, b)) e run =
      let (image, w) = compose os desk b.state b in
      let shown = desk.imshow Config.window_name image w in
      let (key, after) = desk.wait_key Config.cycle_period_ms shown in
      let (count, left) = end_cycle os b.reporter after in
      let stays_there =
        end_cycle_screen b.reporter after
        ∙ screen.by_wait_key Config.cycle_period_ms shown
        ∙ screen.by_imshow image w in
      let passed : laws.time w ≤ laws.time left = omega (
        arith,
        passes.by_imshow Config.window_name image w,
        passes.by_wait_key Config.cycle_period_ms shown,
        end_cycle-Passes os desk (Later os desk laws draws) passes b.reporter after,
      ) in
      elim (Bool-cases (is_quit_key key)) [
        | inl quits ↦ absurd (cc (rw (e, quits, cycle) at run))
        | inr stays ↦
            Ensures-pure {S = ClientApp os desk} {A = Option LoopExit}
              (λ _ c. OnScreen os desk laws screen f a c) none
              (record b { reporter = count.0; world = left })
              (record {
                exchanged = b;
                ran = e;
                composed =
                    subst
                      (Composed desk b.state b.frame b.state_since (laws.time b.world)
                        (laws.time left))
                      (sym stays_there)
                      (Composed-later desk b.state b.frame b.state_since _ _ _ image passed
                        (compose-Composed os desk laws b.state b));
              })
              none c (rw (e, stays, cycle) at run)
      ]

  answered :
      (m : Message) (y : List ℕ) (f : ℕ) (a c : ClientApp os desk)
      → Shown os desk laws a.client.fd m y a c
      → (t0 t1 : ℕ) (image : desk.Mat) → Composed desk c.state c.frame c.state_since t0 t1 image
      → IsAnswer m
      → Answered desk m a.frame c.state_since t0 t1 image
  answered (frame id jpeg) y f a c (_, v, _) t0 t1 image on h =
      let on' =
        subst (λ s. Composed desk s c.frame c.state_since t0 t1 image) (ap (λ x. x.state) v) on in
      on' ∙ ap (λ x. x.image) v
  answered (press id jpeg) y f a c (_, v, _) t0 t1 image on h =
      let on' =
        subst (λ s. Composed desk s c.frame c.state_since t0 t1 image) (ap (λ x. x.state) v) on in
      on' ∙ ap (λ x. x.image) v
  answered (dark id) y f a c (_, v, _) t0 t1 image on h =
      subst (λ s. Composed desk s c.frame c.state_since t0 t1 image) (ap (λ x. x.state) v) on
  answered (mismatch id) y f a c (_, v, _) t0 t1 image on h =
      subst (λ s. Composed desk s c.frame c.state_since t0 t1 image) (ap (λ x. x.state) v) on
  answered acknowledge y f a c _ t0 t1 image on h = absurd h

  -- A reliable connection, which takes the request, delivers an answer, with number and size below
  -- 2^32, and then `y`, and the user does not quit. With fuel above the number of the answer's bytes
  -- plus the nanoseconds of the link's delay the cycle runs and goes on, records state, image and
  -- number of the answer and leaves `y` to be read, and what the window then shows has been composed
  -- behind the exchange: for an image message the decoded image with its number, or the image before
  -- it where it does not decode; for the others white text on an empty image, 600 rows of 800, which
  -- says what is wrong and how much time has passed since the record's `state_since`, as it was at
  -- a moment between the end of the exchange and the end of the cycle.
  pub cycle-Displays :
      (local : IsLocal os laws desk) (stays : NeverQuits os desk) (fuel : ℕ) (m : Message)
      (y : List ℕ) (a : ClientApp os desk)
      → IsReliable os laws a.client.fd
      → TakesRequests os a.client.fd
      → IsAnswer m
      → Suffices fuel m
      → laws.pending a.client.fd a.world ≡ encode m ++ y
      → Displays os desk laws screen fuel m y a
  cycle-Displays local stays fuel m y a reliable takes h enough there =
      let (c, run, shown) =
        cycle-Shown os desk laws local draws stays a.client.fd reliable takes fuel m y a refl h
          enough there in
      let on = shown_OnScreen fuel a c _ refl run in
      record {
        last = c;
        runs = run;
        records = shown;
        exchanged = on.exchanged;
        ran = on.ran;
        displays = answered m y fuel a c shown _ _ _ on.composed h;
      }
