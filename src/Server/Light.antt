-- ===== src/Server/Light.antt =====
-- Serveur/src/light_monitor.cpp and Serveur/inc/light_monitor.h: the state of the scene, from the
-- sensor and the image, and its filter in time. Times are nanoseconds of the monotonic clock;
-- `a - b >= c` on time points is written `b + c <= a`.
pub mod Filter
use mathlib.Core.Bool.{xor}
use Prim.Native.String.{String}
use embedded_client_server_v.Prelude.{
  ℕ, ◌+◌, Bool, true, false, not, ◌&&◌, Option, none, some, ℤ, ltb_ℤ, leb, if◌then◌else◌,
}
use embedded_client_server_v.Posix.{Posix, milliseconds}
use embedded_client_server_v.Server.Hardware.{Hardware}

pub data SceneState : Type 0 where
  normal no_light sensor_error : SceneState

abbrev pub same : SceneState → SceneState → Bool
same normal normal = true
same no_light no_light = true
same sensor_error sensor_error = true
same _ _ = false

module _ (os : Posix) (hw : Hardware os) where
  open os use {World}
  open hw use {Double}

  pub record LightMonitor : Type 0 where
    pub path : String
    pub raw_threshold : ℤ
    pub raw_rises : Bool
    pub image_threshold : Double
    pub hold : ℕ
    pub available : Bool
    pub state : SceneState
    pub candidate : SceneState
    pub candidate_since : ℕ

  pub is_available : Option ℤ → Bool
  is_available none = false
  is_available (some _) = true

  pub read_raw : LightMonitor → World → Option ℤ × World
  read_raw m w = hw.read_number m.path w

  -- The field initialisers run before the body of the constructor.
  unfoldable pub new : String → ℤ → Bool → Double → ℕ → World → LightMonitor × World
  unfolding is_available read_raw
  new path raw_threshold raw_rises image_threshold hold_ms w =
      let (since, w') = os.now w in
      let m : LightMonitor = record {
        path = path;
        raw_threshold = raw_threshold;
        raw_rises = raw_rises;
        image_threshold = image_threshold;
        hold = milliseconds hold_ms;
        available = false;
        state = normal;
        candidate = normal;
        candidate_since = since;
      } in
      let (raw, w'') = read_raw m w' in (record m { available = is_available raw }, w'')

  -- The tests of classify.
  unfoldable pub sensor_dark : LightMonitor → ℤ → Bool
  sensor_dark m raw = if m.raw_rises then ltb_ℤ raw m.raw_threshold else ltb_ℤ m.raw_threshold raw

  unfoldable pub judge : LightMonitor → Option ℤ → Double → SceneState
  judge m none image_brightness = normal
  judge m (some raw) image_brightness =
      let image_dark = hw.less image_brightness m.image_threshold in
      if sensor_dark m raw && image_dark
      then no_light
      else if xor (sensor_dark m raw) image_dark
      then sensor_error
      else normal

  unfoldable pub classify : LightMonitor → Double → World → SceneState × World
  unfolding read_raw
  classify m image_brightness w = let (raw, w') = read_raw m w in (judge m raw image_brightness, w')

  -- The first `if` of update: another observation starts a new candidate.
  unfoldable pub track : LightMonitor → SceneState → World → LightMonitor × World
  track m observed w =
      let (since, w') = os.now w in
      if same observed m.candidate
      then (m, w)
      else (record m { candidate = observed; candidate_since = since }, w')

  -- The second `if`: a candidate that has lasted is adopted. The clock is read for a candidate
  -- that is not the state.
  unfoldable pub adopt : LightMonitor → World → LightMonitor × World
  adopt m w =
      let (t, w') = os.now w in
      if same m.candidate m.state
      then (m, w)
      else if leb (m.candidate_since + m.hold) t
      then (record m { state = m.candidate }, w')
      else (m, w')

  unfoldable pub update : LightMonitor → Double → World → (LightMonitor × SceneState) × World
  unfolding track adopt
  update m image_brightness w =
      let (observed, w1) = classify m image_brightness w in
      let (m1, w2) = track m observed w1 in let (m2, w3) = adopt m1 w2 in ((m2, m2.state), w3)
