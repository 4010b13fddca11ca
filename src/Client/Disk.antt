-- ===== src/Client/Disk.antt =====
-- A concrete directory for examples: the disk of the concrete system, whose files can all be
-- written.
use embedded_client_server_v.Prelude.{
  ℕ, ◌≡◌, ◌≢◌, refl, inl, inr, List, [], ◌∷◌, Option, none, some, Bool-cases, if◌then◌else◌,
}
use embedded_client_server_v.Client.Store.Paths.{same_path, same_path_refl, same_path_eq}
use embedded_client_server_v.Posix.{Machine, deliver}

-- A file gets this content.
abbrev pub put_file : List ℕ → List ℕ → Machine → Machine
put_file path content w = record w {
  disk = λ p. if same_path p path then some content else w.disk p;
}

-- What is in a file; nothing if it is missing.
abbrev pub content_of : Option (List ℕ) → List ℕ
content_of none = []
content_of (some content) = content

pub put_file_there :
    (path content : List ℕ) (w : Machine) → (put_file path content w).disk path ≡ some content
put_file_there path content w = rw (same_path_refl path) refl

pub put_file_others :
    (path content other : List ℕ) (w : Machine)
    → other ≢ path
    → (put_file path content w).disk other ≡ w.disk other
put_file_others path content other w differs = elim (Bool-cases (same_path other path)) [
  | inl e ↦ absurd (differs (same_path_eq other path e))
  | inr e ↦ rw e refl
]

pub deliver_disk : (n : ℕ) (q : List ℕ) (w : Machine) → (deliver n q w).1.disk ≡ w.disk
deliver_disk n [] w = refl
deliver_disk n (b ∷ q) w = refl
