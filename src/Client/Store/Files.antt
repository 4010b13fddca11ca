-- ===== src/Client/Store/Files.antt =====
-- What save leaves in the file system.
use embedded_client_server_v.Prelude.{ℕ, ◌≡◌, ◌≢◌, ◌∙◌, true, List, [], ◌++◌, ℤ, Option, some}
use embedded_client_server_v.Posix.{Posix}
use embedded_client_server_v.Client.Desktop.{Desktop}
use embedded_client_server_v.Client.Socket.Unread.{Unread}
use embedded_client_server_v.Client.Store.{ImageStore, image_path, save}

-- The contents of the files. A file that is opened with trunc is empty or, if it was missing, new;
-- what is then written stands behind what was written before. Other files are not affected, nor is
-- any by the clock and the connections.
pub record FileSystem (os : Posix) (desk : Desktop os) : Type 0 where
  pub files : os.World → List ℕ → Option (List ℕ)
  pub unread : Unread os files
  pub send_files : (fd : ℤ) (data' : List ℕ) (w : os.World) → files (os.send fd data' w).1 ≡ files w
  pub open_empties :
      (path : List ℕ) (w : os.World)
      → (desk.open_truncated path w).0 ≡ true
      → files (desk.open_truncated path w).1 path ≡ some []
  pub open_others :
      (path other : List ℕ) (w : os.World)
      → other ≢ path
      → files (desk.open_truncated path w).1 other ≡ files w other
  pub write_appends :
      (path content old : List ℕ) (w : os.World)
      → files w path ≡ some old
      → (desk.write path content w).0 ≡ true
      → files (desk.write path content w).1 path ≡ some (old ++ content)
  pub write_others :
      (path content other : List ℕ) (w : os.World)
      → other ≢ path
      → files (desk.write path content w).1 other ≡ files w other

-- The directory of the images can be written, and there is room.
pub record HasRoom (os : Posix) (desk : Desktop os) (store : ImageStore) : Type 0 where
  pub opens : (id : ℕ) (w : os.World) → (desk.open_truncated (image_path store id) w).0 ≡ true
  pub writes :
      (id : ℕ) (content : List ℕ) (w : os.World)
      → (desk.write (image_path store id) content w).0 ≡ true

-- From the first contents to the second one, this file has been written and no other has changed.
pub record Saved (path content : List ℕ) (before after : List ℕ → Option (List ℕ)) : Type 0 where
  pub there : after path ≡ some content
  pub others : (other : List ℕ) → other ≢ path → after other ≡ before other

module _ (os : Posix) (desk : Desktop os) (disk : FileSystem os desk) (store : ImageStore)
    (room : HasRoom os desk store) where
  pub save-Saved :
      (id : ℕ) (jpeg : List ℕ) (w : os.World)
      → Saved
          (image_path store id)
          jpeg
          (disk.files w)
          (disk.files (save os desk store id jpeg w).1)
  unfolding save
  save-Saved id jpeg w =
      let path = image_path store id in
      let opened = room.opens id w in
      let w1 = (desk.open_truncated path w).1 in
      rw (opened, save)
        record {
          there =
              disk.write_appends path jpeg [] w1 (disk.open_empties path w opened)
                (room.writes id jpeg w1);
          others = λ other differs.
              disk.write_others path jpeg other w1 differs ∙ disk.open_others path other w differs;
        }
