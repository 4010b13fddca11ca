-- ===== src/Client/Desktop.antt =====
-- The window, the image codec and the file system of the workstation, which the client reaches
-- through OpenCV and the C++ library. A parameter of the model. A text is a list of codes.
use Prim.Native.String.{String}
use Prim.Native.Char.{code}
use embedded_client_server_v.Prelude.{ℕ, ◌≡◌, Bool, List, [], ◌∷◌, ℤ}
use embedded_client_server_v.Posix.{Posix, Laws}

abbrev pub codes : String → List ℕ
codes String.[] = []
codes (String.◌∷◌ c s) = code c ∷ codes s

pub record Desktop (os : Posix) : Type 1 where
  -- cv::imdecode, cv::Mat::empty, cv::Mat::zeros of so many rows and columns, cv::putText at a
  -- point, in a colour (blue, green, red), with the font, scale and thickness that both calls have
  pub Mat : Type 0
  pub imdecode : List ℕ → Mat
  pub is_empty : Mat → Bool
  pub zeros : ℕ → ℕ → Mat
  pub put_text : Mat → List ℕ → ℕ × ℕ → ℕ × ℕ × ℕ → Mat
  -- a duration in nanoseconds as a stream prints its seconds, fixed with one digit
  pub print_seconds : ℕ → List ℕ
  -- cv::namedWindow, cv::imshow, cv::waitKey, cv::destroyAllWindows
  pub named_window : String → os.World → os.World
  pub imshow : String → Mat → os.World → os.World
  pub wait_key : ℕ → os.World → ℤ × os.World
  pub destroy_all_windows : os.World → os.World
  -- std::filesystem: whether it failed. std::ofstream: whether the stream is good
  pub remove_all : List ℕ → os.World → Bool × os.World
  pub create_directories : List ℕ → os.World → Bool × os.World
  pub open_truncated : List ℕ → os.World → Bool × os.World
  pub write : List ℕ → List ℕ → os.World → Bool × os.World

-- Writing files takes nothing from the connections.
pub record IsLocal (os : Posix) (laws : Laws os) (desk : Desktop os) : Type 0 where
  pub open_pending :
      (fd : ℤ) (path : List ℕ) (w : os.World)
      → laws.pending fd (desk.open_truncated path w).1 ≡ laws.pending fd w
  pub write_pending :
      (fd : ℤ) (path content : List ℕ) (w : os.World)
      → laws.pending fd (desk.write path content w).1 ≡ laws.pending fd w
