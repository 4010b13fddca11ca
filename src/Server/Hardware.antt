-- ===== src/Server/Hardware.antt =====
-- The devices of the board as the server reaches them, through OpenCV, libgpiod, a file of the
-- kernel and C++ floating point. A parameter of the model.
use Prim.Native.String.{String}
use embedded_client_server_v.Prelude.{ℕ, ◌≡◌, Bool, false, List, Option, ℤ}
use embedded_client_server_v.Posix.{Posix, Laws, Descriptors}

-- What cv::VideoCapture::set sets.
pub data Property : Type 0 where
  fourcc_code frame_width frame_height fps : Property

pub record Hardware (os : Posix) : Type 1 where
  -- `double`: literals, sum, quotient, `<`
  pub Double : Type 0
  pub of_ℕ : ℕ → Double
  pub add : Double → Double → Double
  pub divide : Double → Double → Double
  pub less : Double → Double → Bool
  -- cv::VideoCapture: its constructor, isOpened, set, read and the release of the destructor;
  -- cv::Mat::empty, cv::mean (its first three channels), cv::imencode of a JPEG
  pub Mat : Type 0
  pub is_opened : os.World → Bool
  pub open_device : ℕ → os.World → os.World
  pub fourcc : ℕ → ℕ → ℕ → ℕ → Double
  pub set_property : Property → Double → os.World → os.World
  pub release : os.World → os.World
  pub read : os.World → (Bool × Mat) × os.World
  pub is_empty : Mat → Bool
  pub mean : Mat → Double × Double × Double
  pub imencode : Mat → Option (List ℕ)
  -- opening a file and reading a number from it
  pub read_number : String → os.World → Option ℤ × os.World
  -- gpiod_chip_open_by_name and gpiod_chip_get_line: whether they returned something;
  -- gpiod_line_request_input, gpiod_line_release, gpiod_chip_close. std::thread: start, and join,
  -- with the value of `_running` that the worker reads from then on
  pub chip_open_by_name : String → os.World → Bool × os.World
  pub chip_get_line : ℕ → os.World → Bool × os.World
  pub line_request_input : String → os.World → ℤ × os.World
  pub line_release : os.World → os.World
  pub chip_close : os.World → os.World
  pub start_worker : os.World → os.World
  pub join_worker : Bool → os.World → os.World

-- The camera and the sensor send nothing over the connections and read nothing from them.
pub record IsLocal (os : Posix) (laws : Laws os) (hw : Hardware os) : Type 0 where
  pub read_sent : (fd : ℤ) (w : os.World) → laws.sent fd (hw.read w).1 ≡ laws.sent fd w
  pub read_number_sent :
      (fd : ℤ) (path : String) (w : os.World)
      → laws.sent fd (hw.read_number path w).1 ≡ laws.sent fd w
  pub read_pending : (fd : ℤ) (w : os.World) → laws.pending fd (hw.read w).1 ≡ laws.pending fd w
  pub read_number_pending :
      (fd : ℤ) (path : String) (w : os.World)
      → laws.pending fd (hw.read_number path w).1 ≡ laws.pending fd w

-- The devices are not sockets. A worker that reads false in `_running` ends, so that the join of it
-- returns; nothing is known of a join of a worker that reads true.
pub record LeavesSockets (os : Posix) (d : Descriptors os) (hw : Hardware os) : Type 0 where
  pub open_device_held : (device : ℕ) (w : os.World) → d.held (hw.open_device device w) ≡ d.held w
  pub set_property_held :
      (property : Property) (value : hw.Double) (w : os.World)
      → d.held (hw.set_property property value w) ≡ d.held w
  pub read_held : (w : os.World) → d.held (hw.read w).1 ≡ d.held w
  pub release_held : (w : os.World) → d.held (hw.release w) ≡ d.held w
  pub read_number_held :
      (path : String) (w : os.World) → d.held (hw.read_number path w).1 ≡ d.held w
  pub chip_open_held :
      (name : String) (w : os.World) → d.held (hw.chip_open_by_name name w).1 ≡ d.held w
  pub get_line_held : (offset : ℕ) (w : os.World) → d.held (hw.chip_get_line offset w).1 ≡ d.held w
  pub request_held :
      (consumer : String) (w : os.World) → d.held (hw.line_request_input consumer w).1 ≡ d.held w
  pub line_release_held : (w : os.World) → d.held (hw.line_release w) ≡ d.held w
  pub chip_close_held : (w : os.World) → d.held (hw.chip_close w) ≡ d.held w
  pub start_worker_held : (w : os.World) → d.held (hw.start_worker w) ≡ d.held w
  pub join_worker_held : (w : os.World) → d.held (hw.join_worker false w) ≡ d.held w
