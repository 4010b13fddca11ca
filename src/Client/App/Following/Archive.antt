-- ===== src/Client/App/Following/Archive.antt =====
-- The cycles of a session over the answers of the server: which files are there after them.
use Prim.Native.String.{String}
use embedded_client_server_v.Prelude.{
  ℕ, ◌+◌, ◌≤◌, ◌<◌, ◌≡◌, refl, sym, ap, ◌∙◌, ◌⊎◌, inl, inr, false, List, [], ◌∷◌, ◌++◌, none, some,
  length, subst, Returns, Returns-mono, Returns-both, Returns-Ensures,
}
use embedded_client_server_v.Protocol.Bytes.{net_bytes}
use embedded_client_server_v.Protocol.Message.{
  Message, IsAnswer, header, after_id, id_of, encode, encode_parts,
}
use embedded_client_server_v.Protocol.Stream.{encode_all, AreAnswers}
use embedded_client_server_v.Posix.{Posix, Laws, milliseconds}
use embedded_client_server_v.Client.Config
use embedded_client_server_v.Client.Desktop.{Desktop, IsLocal}
use embedded_client_server_v.Client.Socket.Unread.{blind}
use embedded_client_server_v.Client.Store.{ImageStore}
use embedded_client_server_v.Client.Store.Files.{FileSystem, HasRoom}
use embedded_client_server_v.Client.App.{ClientApp, cycle, handle_response}
use embedded_client_server_v.Client.App.Archiving.{
  put_all, put_all-append, put_answer_same, Files-put,
}
use embedded_client_server_v.Client.App.Cycling.{Cycles, begun}
use embedded_client_server_v.Client.App.Decoding.{handle_response-Ends}
use embedded_client_server_v.Client.App.Following.{Follows, Carries, all-Follows}
use embedded_client_server_v.Client.App.Cycling.{Seen, cycle-Took}
use embedded_client_server_v.Client.App.Following.Windows.{ShowsThose}
use embedded_client_server_v.Client.App.Handling.{Aside}
use embedded_client_server_v.Client.App.Handling
use embedded_client_server_v.Client.App.Keeping.{Files, handle_response-After}
use embedded_client_server_v.Client.App.Losing.{Draws}
use embedded_client_server_v.Client.App.Showing.{Ends, Suffices}
use embedded_client_server_v.Client.App.Taking.{Idle}
use embedded_client_server_v.Client.App.Window.{window, show, show_all-append, Shown, Shows-Shown}

-- The window writes no files.
pub record DrawsNoFiles (os : Posix) (desk : Desktop os) (disk : FileSystem os desk) : Type 0 where
  pub by_imshow :
      (name : String) (m : desk.Mat) (w : os.World)
      → disk.files (desk.imshow name m w) ≡ disk.files w
  pub by_wait_key : (ms : ℕ) (w : os.World) → disk.files (desk.wait_key ms w).1 ≡ disk.files w

module _ (os : Posix) (desk : Desktop os) (disk : FileSystem os desk) (store : ImageStore) where
  -- The window is the one that the answers make of that of a; the directory is the same, and the
  -- files are those of a with the presses among the answers put to them.
  abbrev pub Archives : ClientApp os desk → List Message → ClientApp os desk → Type 0
  Archives a shown b =
      (b.store ≡ store)
      × ShowsThose os desk a shown b
      × ((path : List ℕ) → disk.files b.world path ≡ put_all store shown (disk.files a.world) path)

module _ (os : Posix) (desk : Desktop os) (laws : Laws os) (draws : Draws os laws desk)
    (disk : FileSystem os desk) (bare : DrawsNoFiles os desk disk) where
  filed : Seen os desk laws disk.files
  filed = record {
    unasked = record { unread = disk.unread; by_send = disk.send_files };
    passes = λ fd. record {
      same = λ w. (refl, refl);
      both = λ u v w p q. (q.0 ∙ p.0, q.1 ∙ p.1);
      by_now = λ w. (laws.now_pending fd w, disk.unread.by_now w);
      by_imshow = λ name m w. (draws.imshow_pending fd name m w, bare.by_imshow name m w);
      by_wait_key = λ ms w. (draws.wait_key_pending fd ms w, bare.by_wait_key ms w);
    };
  }

module _ (os : Posix) (desk : Desktop os) (laws : Laws os) (local : IsLocal os laws desk)
    (disk : FileSystem os desk) (store : ImageStore) (room : HasRoom os desk store) where
  open os use {World}

  anything : Aside os desk {X = Unit {0}} (λ _. tt)
  anything = record {
    unread = blind os;
    by_open = λ path w. refl;
    by_write = λ path content w. refl;
  }

  -- What a handled answer has done, from the app before and the world at the start of the cycle.
  abbrev Filed : Message → List ℕ → ClientApp os desk → World → ClientApp os desk → Type 0
  Filed m y b v d =
      Shown os desk laws b.client.fd m y b d
      × (d.store ≡ store)
      × Files store m (disk.files v) (disk.files d.world)

  -- A run that handles an answer with success has done all of it.
  handle_response-Filed :
      (f : ℕ) (m : Message) (y : List ℕ) (b : ClientApp os desk) (v : World)
      → b.store ≡ store
      → IsAnswer m
      → Suffices f m
      → laws.pending b.client.fd b.world ≡ (net_bytes (id_of m) ++ after_id m) ++ y
      → disk.files b.world ≡ disk.files v
      → Returns (handle_response os desk f (header m) b) (Ends os desk false (Filed m y b v))
  handle_response-Filed f m y b v s h enough there kept =
      let fd = b.client.fd in
      let shows =
        handle_response-Ends os desk laws local fd false (λ e. absurd (cc e)) f m y b refl h enough
          (ap (◌∷◌ (header m)) there ∙ ap (λ x. x ++ y) (sym (encode_parts m h))) in
      let files =
        handle_response-After os desk laws local fd false (λ e. absurd (cc e)) disk store room f m y
          b v refl h enough there s kept in
      let stores =
        Handling.handle_response-Keeps os desk (λ _. tt) anything (λ c s x. s ≡ store) f (header m)
          b s in
      Returns-mono _ _
        (λ done d r. elim r.0.0 [
          | inr failed ↦ inr failed
          | inl (ok, shown) ↦ elim r.0.1 [
            | inl (_, put) ↦ inl (ok, (Shows-Shown os desk laws fd m y b d shown, r.1, put))
            | inr (failed, _) ↦ absurd (cc (sym ok ∙ failed))
          ]
        ])
        (Returns-Ensures _ _ (Returns-both _ _ shows files) stores)

module _ (os : Posix) (desk : Desktop os) (laws : Laws os) (local : IsLocal os laws desk)
    (draws : Draws os laws desk) (disk : FileSystem os desk) (bare : DrawsNoFiles os desk disk)
    (store : ImageStore) (room : HasRoom os desk store) where
  open os use {World}

  cycle-Filed :
      (f : ℕ) (m : Message) (y : List ℕ) (b c : ClientApp os desk)
      → b.store ≡ store
      → IsAnswer m
      → Suffices f m
      → laws.pending b.client.fd b.world ≡ encode m ++ y
      → cycle os desk f b ≡ some (none, c)
      → Filed os desk laws local disk store room m y b b.world c ⊎ Idle os desk laws disk.files b c
  cycle-Filed f m y b c s h enough there run =
      cycle-Took os desk laws disk.files (filed os desk laws draws disk bare) f m y b c
        (Filed os desk laws local disk store room m y b b.world)
        (λ t w left kept.
          handle_response-Filed os desk laws local disk store room f m y
            (record (begun os desk b) { last_response = t; world = w }) b.world s h enough left
            kept)
        (λ d same level q.
          let (shown, kept, put) = q in
          (
            (
              ap (λ x. x.client) same ∙ shown.0,
              ap (window os desk) same ∙ shown.1,
              level.0 ∙ shown.2,
            ),
            ap (λ x. x.store) same ∙ kept,
            subst (Files store m (disk.files b.world)) (sym level.1) put,
          ))
        h there run

  archives :
      (a : ClientApp os desk) → Carries os desk laws (Archives os desk disk store a) disk.files
  archives a = record {
    still = λ shown b c idle h. (
      ap (λ x. x.store) idle.0 ∙ h.0,
      ap (window os desk) idle.0 ∙ h.1,
      λ path. ap (λ x. x path) idle.2 ∙ h.2 path,
    );
    handles = λ f m y shown b c h enough there run k.
        elim (cycle-Filed f m y b c k.0 h enough there run) [
          | inr idle ↦ inr idle
          | inl (got, kept, put) ↦ inl (
            got.0,
            got.2,
            (
              kept,
              got.1
                  ∙ ap (show os desk m) k.1
                  ∙ sym (show_all-append os desk shown (m ∷ []) (window os desk a)),
              λ path.
                  Files-put store m (disk.files b.world) (disk.files c.world) put path
                  ∙ put_answer_same store m (disk.files b.world) _ path (k.2 path)
                  ∙ ap (λ x. x path)
                      (sym (put_all-append store shown (m ∷ []) (disk.files a.world))),
            ),
          )
        ];
  }

  -- The connection delivers answers, with numbers and sizes below 2^32, and then `rest`; it may
  -- time out, fail or lose the server at any point. The directory of the images can be written, and
  -- the window writes no files. After n cycles that went on, at most as many as there are answers
  -- unless `rest` is empty, each with fuel above the number of the answers' bytes plus the
  -- nanoseconds of the link's delay: the first answers, at most n, have been shown in their order
  -- and in full, exactly the others are still to be read, and the files are those from before with,
  -- for each
  -- BUTTON_PRESS among the first ones, one after the other, its image, if it has bytes, put byte for
  -- byte under the name of its number. Nothing else has changed in the directory or elsewhere.
  pub Cycles-Archives :
      (fuel : ℕ) (ms : List Message) (rest : List ℕ) (a : ClientApp os desk)
      → a.store ≡ store
      → AreAnswers ms
      → length (encode_all ms) + milliseconds Config.link_timeout_ms < fuel
      → laws.pending a.client.fd a.world ≡ encode_all ms ++ rest
      → (n : ℕ) (b : ClientApp os desk) → (n ≤ length ms) ⊎ (rest ≡ [])
      → Cycles os desk fuel a n b
      → Follows os desk laws (Archives os desk disk store a) ms rest a n b
  Cycles-Archives fuel ms rest a s h enough there n b few cycles =
      all-Follows os desk laws disk.files (filed os desk laws draws disk bare)
        (Archives os desk disk store a) (archives a) ms rest a fuel h enough (s, refl, λ path. refl)
        there n b few cycles
