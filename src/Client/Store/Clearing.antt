-- ===== src/Client/Store/Clearing.antt =====
-- What reset leaves in the file system.
use embedded_client_server_v.Prelude.{
  ℕ, ◌≡◌, ap, ◌∙◌, inl, inr, true, false, List, ◌++◌, Option, none, Bool-cases,
}
use embedded_client_server_v.Posix.{Posix}
use embedded_client_server_v.Client.Config
use embedded_client_server_v.Client.Desktop.{Desktop, codes}
use embedded_client_server_v.Client.Store.{ImageStore, to_string, image_path, reset}

-- Removing a directory, if it succeeds, leaves no file below it; making directories makes no file.
pub record Removal (os : Posix) (desk : Desktop os) (files : os.World → List ℕ → Option (List ℕ))
    : Type 0 where
  pub remove_clears :
      (dir name : List ℕ) (w : os.World)
      → (desk.remove_all dir w).0 ≡ false
      → files (desk.remove_all dir w).1 (dir ++ (codes "/" ++ name)) ≡ none
  pub create_files :
      (dir : List ℕ) (w : os.World) → files (desk.create_directories dir w).1 ≡ files w

module _ (os : Posix) (desk : Desktop os) (files : os.World → List ℕ → Option (List ℕ))
    (removal : Removal os desk files) where
  -- A reset that succeeds has removed every saved image of earlier runs: no number has a file afterwards.
  pub reset_clears :
      (s : ImageStore) (w : os.World) (id : ℕ)
      → (reset os desk s w).0 ≡ true
      → files (reset os desk s w).1 (image_path s id) ≡ none
  unfolding reset image_path
  reset_clears s w id cleared =
      let w1 = (desk.remove_all s.dir w).1 in
      elim (Bool-cases (desk.remove_all s.dir w).0) [
        | inl stays ↦ absurd (cc (rw (stays, reset) at cleared))
        | inr gone ↦
            rw (gone, reset)
              (ap (λ f. f (image_path s id)) (removal.create_files s.dir w1)
                ∙ removal.remove_clears s.dir
                    (codes Config.image_prefix ++ (to_string id ++ codes Config.image_extension)) w
                    gone)
      ]
