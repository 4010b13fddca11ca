-- ===== src/Client/Store.antt =====
-- Client/src/image_store.cpp and Client/inc/image_store.h: the directory of saved images.
pub mod Names
pub mod Paths
pub mod Files
pub mod Clearing
use Prim.Native.String.{String}
use embedded_client_server_v.Prelude.{
  ℕ, zero, suc, ◌+◌, ◌/◌, ◌%◌, Bool, true, false, List, [], ◌∷◌, ◌++◌, if◌then◌else◌, ltb, not,
}
use embedded_client_server_v.Posix.{Posix}
use embedded_client_server_v.Client.Config
use embedded_client_server_v.Client.Desktop.{Desktop, codes}

pub record ImageStore : Type 0 where
  pub dir : List ℕ

-- The constructor.
pub new : String → ImageStore
new directory = record { dir = codes directory }

-- std::to_string: the decimal digits, in front of those already written. One round for each digit
-- is enough fuel, and `n + 1` rounds are more.
pub digits : ℕ → ℕ → List ℕ → List ℕ
digits zero n written = written
digits (suc fuel) n written = elim (ltb n 10) [
  | true ↦ (b'0' + n) ∷ written
  | false ↦ digits fuel (n / 10) ((b'0' + n % 10) ∷ written)
]

pub to_string : ℕ → List ℕ
to_string n = digits (suc n) n []

-- `_dir / (IMAGE_PREFIX + id + IMAGE_EXTENSION)`
pub image_path : ImageStore → ℕ → List ℕ
image_path s frame_id =
    s.dir
    ++ (codes "/"
        ++ (codes Config.image_prefix ++ (to_string frame_id ++ codes Config.image_extension)))

module _ (os : Posix) (desk : Desktop os) where
  open os use {World}

  unfoldable pub reset : ImageStore → World → Bool × World
  reset s w =
      let (kept, w1) = desk.remove_all s.dir w in
      let (missing, w2) = desk.create_directories s.dir w1 in
      if kept then (false, w1) else (not missing, w2)

  unfoldable pub save : ImageStore → ℕ → List ℕ → World → Bool × World
  save s frame_id jpeg w =
      let path = image_path s frame_id in
      let (opened, w1) = desk.open_truncated path w in
      let (written, w2) = desk.write path jpeg w1 in if opened then (written, w2) else (false, w1)
