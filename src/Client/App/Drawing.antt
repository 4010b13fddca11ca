-- ===== src/Client/App/Drawing.antt =====
-- What goes by while the client draws its window, polls the keys and counts its cycles: any relation
-- of worlds that holds over each of the calls holds over all of them.
use Prim.Native.String.{String}
use embedded_client_server_v.Prelude.{ℕ, ◌-◌, inl, inr, Bool-cases, ltb}
use embedded_client_server_v.Posix.{Posix, milliseconds}
use embedded_client_server_v.Client.Config
use embedded_client_server_v.Client.Desktop.{Desktop}
use embedded_client_server_v.Client.Reporter.{CycleReporter, end_cycle, reset}
use embedded_client_server_v.Client.App.{
  ClientApp, DisplayState, normal, no_light, sensor_error, link_lost, elapsed, compose,
  compose_frame,
}

pub record Passes (os : Posix) (desk : Desktop os) (R : os.World → os.World → Type 0) : Type 0 where
  pub same : (w : os.World) → R w w
  pub both : (u v w : os.World) → R u v → R v w → R u w
  pub by_now : (w : os.World) → R w (os.now w).1
  pub by_imshow : (name : String) (m : desk.Mat) (w : os.World) → R w (desk.imshow name m w)
  pub by_wait_key : (ms : ℕ) (w : os.World) → R w (desk.wait_key ms w).1

module _ (os : Posix) (desk : Desktop os) where
  open os use {World}

  -- The world after the window has been drawn, and after the keys have been polled, too.
  abbrev pub shown : ClientApp os desk → World
  shown a = let (image, w) = compose_frame os desk a in desk.imshow Config.window_name image w

  abbrev pub drawn : ℕ → ClientApp os desk → World
  drawn wait_ms a = (desk.wait_key wait_ms (shown a)).1

  module _ (R : World → World → Type 0) (passes : Passes os desk R) where
    compose-Passes : (s : DisplayState) (a : ClientApp os desk) → R a.world (compose os desk s a).1
    unfolding compose elapsed
    compose-Passes normal a = passes.same a.world
    compose-Passes no_light a = passes.by_now a.world
    compose-Passes sensor_error a = passes.by_now a.world
    compose-Passes link_lost a = passes.same a.world

    pub shown-Passes : (a : ClientApp os desk) → R a.world (shown a)
    unfolding compose_frame
    shown-Passes a =
        let (image, w) = compose_frame os desk a in
        passes.both a.world w _ (compose-Passes a.state a)
          (passes.by_imshow Config.window_name image w)

    pub drawn-Passes : (wait_ms : ℕ) (a : ClientApp os desk) → R a.world (drawn wait_ms a)
    drawn-Passes wait_ms a =
        passes.both a.world (shown a) _ (shown-Passes a) (passes.by_wait_key wait_ms (shown a))

    pub end_cycle-Passes : (r : CycleReporter) (w : World) → R w (end_cycle os r w).1
    unfolding end_cycle reset
    end_cycle-Passes r w =
        let (t, v) = os.now w in
        elim (Bool-cases (ltb (t - r.last_report) (milliseconds 1000))) [
          | inl short ↦ rw (short, end_cycle) (passes.by_now w)
          | inr long ↦ rw (long, end_cycle) (passes.both w v _ (passes.by_now w) (passes.by_now v))
        ]
