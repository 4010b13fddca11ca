-- ===== src/Client/App/Images.antt =====
-- What the window can show: the image of each state, and of each answer.
use Prim.Native.String.{String}
use embedded_client_server_v.Prelude.{ℕ, ◌-◌, ◌≤◌, ◌≡◌, List, ◌++◌, arith}
use embedded_client_server_v.Protocol.Message.{Message, frame, press, dark, mismatch, acknowledge}
use embedded_client_server_v.Posix.{Posix}
use embedded_client_server_v.Client.Config
use embedded_client_server_v.Client.Desktop.{Desktop, codes}
use embedded_client_server_v.Client.App.{DisplayState, normal, no_light, sensor_error, link_lost}
use embedded_client_server_v.Client.App.Showing.{picture}

-- The image in the window: imshow puts it there, and it stays.
pub record Screen (os : Posix) (desk : Desktop os) : Type 0 where
  pub screen : os.World → desk.Mat
  pub by_imshow : (m : desk.Mat) (w : os.World) → screen (desk.imshow Config.window_name m w) ≡ m
  pub by_wait_key : (ms : ℕ) (w : os.World) → screen (desk.wait_key ms w).1 ≡ screen w
  pub by_now : (w : os.World) → screen (os.now w).1 ≡ screen w

module _ {os : Posix} (desk : Desktop os) where
  -- White text on an empty image, 600 rows of 800.
  abbrev pub notice : List ℕ → desk.Mat
  notice text = desk.put_text (desk.zeros 600 800) text (40, 300) (255, 255, 255)

  -- A text with a clock at so many nanoseconds.
  abbrev pub clocked : String → ℕ → desk.Mat
  clocked text ns =
      notice (codes text ++ (codes " (t = " ++ (desk.print_seconds ns ++ codes " s)")))

  -- A text with a clock that runs since then, read between two moments.
  abbrev pub Clock : String → ℕ → ℕ → ℕ → desk.Mat → Type 0
  Clock text since t0 t1 image =
      (ns : ℕ) × (image ≡ clocked text ns) × (t0 - since ≤ ns) × (ns ≤ t1 - since)

  -- The image of a state.
  abbrev pub Composed : DisplayState → desk.Mat → ℕ → ℕ → ℕ → desk.Mat → Type 0
  Composed normal old since t0 t1 image = image ≡ old
  Composed no_light old since t0 t1 image = Clock "Lumiere insuffisante" since t0 t1 image
  Composed sensor_error old since t0 t1 image = Clock "Capteur errone" since t0 t1 image
  Composed link_lost old since t0 t1 image = image ≡ notice (codes "CONNEXION PERDUE")

  -- The image after an answer.
  abbrev pub Answered : Message → desk.Mat → ℕ → ℕ → ℕ → desk.Mat → Type 0
  Answered (frame id jpeg) old since t0 t1 image = image ≡ picture desk id jpeg old
  Answered (press id jpeg) old since t0 t1 image = image ≡ picture desk id jpeg old
  Answered (dark id) old since t0 t1 image = Clock "Lumiere insuffisante" since t0 t1 image
  Answered (mismatch id) old since t0 t1 image = Clock "Capteur errone" since t0 t1 image
  Answered acknowledge old since t0 t1 image = ⊥

  pub Composed-later :
      (s : DisplayState) (old : desk.Mat) (since t0 t1 t2 : ℕ) (image : desk.Mat)
      → t1 ≤ t2
      → Composed s old since t0 t1 image
      → Composed s old since t0 t2 image
  Composed-later normal old since t0 t1 t2 image h c = c
  Composed-later no_light old since t0 t1 t2 image h (ns, e, lo, hi) =
      (ns, e, lo, omega (arith, hi, h))
  Composed-later sensor_error old since t0 t1 t2 image h (ns, e, lo, hi) =
      (ns, e, lo, omega (arith, hi, h))
  Composed-later link_lost old since t0 t1 t2 image h c = c
