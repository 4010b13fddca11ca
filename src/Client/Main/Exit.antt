-- ===== src/Client/Main/Exit.antt =====
-- What the client's program still holds when it ends, and its exit code.
use embedded_client_server_v.Prelude.{
  ℕ, ◌≡◌, refl, inl, inr, Bool-cases, Option, none, some, if◌then◌else◌, Ensures, Ensures-pure,
  Ensures-none,
}
use embedded_client_server_v.Posix.{Posix, Descriptors, Held}
use embedded_client_server_v.Client.Desktop.{Desktop}
use embedded_client_server_v.Client.App
use embedded_client_server_v.Client.App.{ClientApp}
use embedded_client_server_v.Client.App.Owning.{LeavesSockets, Owns, Keeps}
use embedded_client_server_v.Client.App.Starting.{initialize-Owns}
use embedded_client_server_v.Client.App.Connecting.{run-Keeps, shut_down_held}
use embedded_client_server_v.Client.Main.{main, run_app}

module _ (os : Posix) (desk : Desktop os) (d : Descriptors os)
    (quiet : LeavesSockets os d desk) where
  open os use {World}

  -- The process holds the sockets that it held before, and the exit code says whether the program could start.
  abbrev pub Closed : desk.Mat → World → ℕ → World → Type 0
  Closed no_image w code w' =
      let started = (App.initialize os desk (App.new os desk no_image w)).0 in
      (d.held w' ≡ d.held w) × (code ≡ (if started then 0 else 1))

  run_app_held :
      (fuel : ℕ) (others : Held) (a : ClientApp os desk)
      → Owns os desk d others a
      → Ensures (run_app os desk fuel a) (λ code w'. (d.held w' ≡ others) × (code ≡ 0))
  unfolding run_app
  run_app_held fuel others a h = ended _ (run-Keeps os desk d quiet others fuel a h)
    where
      ended :
          (r : Option (Unit {0} × ClientApp os desk))
          → Keeps os desk d others r
          → Ensures {S = World} {A = ℕ}
              (elim r [ none ↦ none | some (_, b) ↦ some (0, App.shut_down os desk b) ])
              (λ code w'. (d.held w' ≡ others) × (code ≡ 0))
      ended none k = Ensures-none _
      ended (some (_, b)) k =
          Ensures-pure (λ code w'. (d.held w' ≡ others) × (code ≡ 0)) 0 _
            (shut_down_held os desk d quiet others b (k tt b refl), refl)

  -- When the client's program ends it holds exactly the sockets that it held at its start, each so
  -- often, whatever happened to its connections in between: it has closed all that it opened. Its exit code is 1 if initialize failed, and 0 if not.
  pub main-Closed :
      (no_image : desk.Mat) (fuel : ℕ) (w : World)
      → Ensures (main os desk no_image fuel w) (Closed no_image w)
  unfolding main
  main-Closed no_image fuel w =
      let a = (App.initialize os desk (App.new os desk no_image w)).1 in
      let owns = initialize-Owns os desk d quiet no_image w in
      elim (Bool-cases (App.initialize os desk (App.new os desk no_image w)).0) [
        | inl ready ↦ rw (ready, main) (run_app_held fuel (d.held w) a owns)
        | inr failed ↦
            rw (failed, main)
              (Ensures-pure (λ code w'. (d.held w' ≡ d.held w) × (code ≡ 1)) 1 _
                (shut_down_held os desk d quiet (d.held w) a owns, refl))
      ]
