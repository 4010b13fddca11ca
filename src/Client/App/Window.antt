-- ===== src/Client/App/Window.antt =====
-- What the window shows after answers.
use embedded_client_server_v.Prelude.{ℕ, ◌≡◌, refl, List, [], ◌∷◌, ◌++◌, ℤ}
use embedded_client_server_v.Protocol.Message.{Message, frame, press, dark, mismatch, acknowledge}
use embedded_client_server_v.Posix.{Posix, Laws}
use embedded_client_server_v.Client.Desktop.{Desktop}
use embedded_client_server_v.Client.App.{ClientApp, DisplayState, normal, no_light, sensor_error}
use embedded_client_server_v.Client.App.Showing.{picture, Shows}

module _ (os : Posix) (desk : Desktop os) where
  -- What decides the window: state, image and number.
  pub record Window : Type 0 where
    pub state : DisplayState
    pub image : desk.Mat
    pub number : ℕ

  abbrev pub window : ClientApp os desk → Window
  window a = record { state = a.state; image = a.frame; number = a.frame_id }

  -- The window after an answer, and after answers one behind the other.
  abbrev pub show : Message → Window → Window
  show (frame id jpeg) v = record {
    state = normal;
    image = picture desk id jpeg v.image;
    number = id;
  }
  show (press id jpeg) v = record {
    state = normal;
    image = picture desk id jpeg v.image;
    number = id;
  }
  show (dark id) v = record v { state = no_light; number = id }
  show (mismatch id) v = record v { state = sensor_error; number = id }
  show acknowledge v = v

  abbrev pub show_all : List Message → Window → Window
  show_all [] v = v
  show_all (m ∷ ms) v = show_all ms (show m v)

  pub show_all-append :
      (xs ys : List Message) (v : Window) → show_all (xs ++ ys) v ≡ show_all ys (show_all xs v)
  show_all-append [] ys v = refl
  show_all-append (x ∷ xs) ys v = show_all-append xs ys (show x v)

module _ (os : Posix) (desk : Desktop os) (laws : Laws os) (fd : ℤ) where
  abbrev App : Type 0
  App = ClientApp os desk

  -- The answer has been shown, and `y` is left to be read.
  abbrev pub Shown : Message → List ℕ → App → App → Type 0
  Shown m y a b =
      (b.client ≡ a.client)
      × (window os desk b ≡ show os desk m (window os desk a))
      × (laws.pending fd b.world ≡ y)

  window_eq :
      (s t : DisplayState) (i j : desk.Mat) (n k : ℕ)
      → n ≡ k
      → s ≡ t
      → i ≡ j
      → ◌≡◌ {A = Window os desk}
          (record { state = s; image = i; number = n })
          (record { state = t; image = j; number = k })
  window_eq s t i j n k e f g = rw (e, f, g) refl

  pub Shows-Shown :
      (m : Message) (y : List ℕ) (a b : App) → Shows os desk laws fd m y a b → Shown m y a b
  Shows-Shown (frame id jpeg) y a b (n, s, i, (c, p)) = (c, window_eq _ _ _ _ _ _ n s i, p)
  Shows-Shown (press id jpeg) y a b (n, s, i, (c, p)) = (c, window_eq _ _ _ _ _ _ n s i, p)
  Shows-Shown (dark id) y a b (n, s, i, (c, p)) = (c, window_eq _ _ _ _ _ _ n s i, p)
  Shows-Shown (mismatch id) y a b (n, s, i, (c, p)) = (c, window_eq _ _ _ _ _ _ n s i, p)
  Shows-Shown acknowledge y a b s = absurd s
