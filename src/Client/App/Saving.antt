-- ===== src/Client/App/Saving.antt =====
-- receiveImage and the files: what is saved is the image received, byte for byte.
use embedded_client_server_v.Prelude.{
  ℕ, ◌+◌, ◌<◌, ◌≡◌, refl, ◌∙◌, Bool, true, false, List, [], ◌∷◌, ◌++◌, ℤ, Option, arith, length,
  subst, lt→ltb, inl, Returns, Returns-pure,
}
use embedded_client_server_v.Protocol.Bytes.{
  net_bytes, of_net_bytes, of_net_bytes-net_bytes, u32_mod,
}
use embedded_client_server_v.Posix.{Posix, Laws, milliseconds}
use embedded_client_server_v.Client.Config
use embedded_client_server_v.Client.Desktop.{Desktop, IsLocal}
use embedded_client_server_v.Client.Store.{ImageStore, image_path, save}
use embedded_client_server_v.Client.Store.Files.{FileSystem, HasRoom, Saved, save-Saved}
use embedded_client_server_v.Client.Socket.Receiving.{IsReliable}
use embedded_client_server_v.Client.App.{
  ClientApp, keep_image, receive_bytes, receive_content, receive_image,
}
use embedded_client_server_v.Client.App.Showing.{Ends, read_then}

abbrev pub Contents : Type 0
Contents = List ℕ → Option (List ℕ)

-- The image of the number `id` is kept as a file, if it is to be saved and has bytes.
abbrev pub KeepsImage : ImageStore → Bool → ℕ → List ℕ → Contents → Contents → Type 0
KeepsImage store true id (j ∷ js) before after = Saved (image_path store id) (j ∷ js) before after
KeepsImage store true id [] before after = after ≡ before
KeepsImage store false id jpeg before after = after ≡ before

module _ (os : Posix) (desk : Desktop os) (laws : Laws os) (local : IsLocal os laws desk) (fd : ℤ)
    (reliable : Bool) (promise : reliable ≡ true → IsReliable os laws fd)
    (disk : FileSystem os desk) (store : ImageStore) (room : HasRoom os desk store) where
  open os use {World}

  abbrev pub After : (Contents → Contents → Type 0) → World → Bool → ClientApp os desk → Type 0
  After P w = Ends os desk reliable λ b. P (disk.files w) (disk.files b.world)

  keep_image-After :
      (saves : Bool) (jpeg : List ℕ) (a : ClientApp os desk) (w : World)
      → a.store ≡ store
      → disk.files a.world ≡ disk.files w
      → Returns
          (keep_image os desk saves jpeg (length jpeg) a)
          (After (KeepsImage store saves a.frame_id jpeg) w)
  unfolding keep_image
  keep_image-After false jpeg a w s e = Returns-pure _ true _ (inl (refl, e))
  keep_image-After true [] a w s e = Returns-pure _ true _ (inl (refl, e))
  keep_image-After true (j ∷ js) a w s e =
      rw (lt→ltb 0 (length (j ∷ js)) (omega arith), s, keep_image)
        (Returns-pure _ true _ (
          inl (
            refl,
            subst
                (λ f.
                  Saved (image_path store a.frame_id) (j ∷ js) f
                    (disk.files (save os desk store a.frame_id (j ∷ js) a.world).1))
                e (save-Saved os desk disk store room a.frame_id (j ∷ js) a.world),
          )))

  receive_content-After :
      (fuel : ℕ) (saves : Bool) (jpeg rest : List ℕ) (a : ClientApp os desk) (w : World)
      → a.client.fd ≡ fd
      → length jpeg + milliseconds Config.link_timeout_ms < fuel
      → laws.pending fd a.world ≡ jpeg ++ rest
      → a.store ≡ store
      → disk.files a.world ≡ disk.files w
      → Returns
          (receive_content os desk fuel saves (length jpeg) a)
          (After (KeepsImage store saves a.frame_id jpeg) w)
  unfolding receive_content receive_bytes
  receive_content-After fuel saves [] rest a w e enough there s f =
      keep_image-After saves [] a w s f
  receive_content-After fuel saves (j ∷ js) rest a w e enough there s f =
      rw (lt→ltb 0 (length (j ∷ js)) (omega arith), receive_content, receive_bytes)
        (read_then os desk laws local fd reliable promise disk.files disk.unread fuel a (j ∷ js)
          rest (λ b. KeepsImage store saves a.frame_id (j ∷ js) (disk.files w) (disk.files b.world))
          (λ x. keep_image os desk saves x (length (j ∷ js))) e enough there
          (λ v left kept. keep_image-After saves (j ∷ js) (record a { world = v }) w s (kept ∙ f)))

  pub receive_image-After :
      (fuel : ℕ) (saves : Bool) (id : ℕ) (jpeg rest : List ℕ) (a : ClientApp os desk) (w : World)
      → a.client.fd ≡ fd
      → length jpeg < u32_mod
      → length jpeg + 4 + milliseconds Config.link_timeout_ms < fuel
      → laws.pending fd a.world ≡ net_bytes (length jpeg) ++ (jpeg ++ rest)
      → a.store ≡ store
      → a.frame_id ≡ id
      → disk.files a.world ≡ disk.files w
      → Returns (receive_image os desk fuel saves a) (After (KeepsImage store saves id jpeg) w)
  unfolding receive_image net_bytes
  receive_image-After fuel saves id jpeg rest a w e small enough there s n f =
      read_then os desk laws local fd reliable promise disk.files disk.unread fuel a
        (net_bytes (length jpeg)) (jpeg ++ rest)
        (λ b. KeepsImage store saves id jpeg (disk.files w) (disk.files b.world))
        (λ x. receive_content os desk fuel saves (of_net_bytes x)) e (omega arith) there
        (λ v left kept. rw (of_net_bytes-net_bytes (length jpeg) small) (
          subst
            (λ k.
              Returns (receive_content os desk fuel saves (length jpeg) (record a { world = v }))
                (After (KeepsImage store saves k jpeg) w))
            n
            (receive_content-After fuel saves jpeg rest (record a { world = v }) w e (omega arith)
              left s (kept ∙ f))))
