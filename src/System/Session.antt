-- ===== src/System/Session.antt =====
-- Both programs over a stretch of a session: what the server answers, and what the client shows.
mod Examples
use embedded_client_server_v.Prelude.{
  ℕ, ◌+◌, ◌≤◌, ◌<◌, ◌≡◌, refl, sym, ap, ◌∙◌, inr, List, [], ◌∷◌, ◌++◌, append-nil, append_cut, ℤ,
  some, arith, length, length-append, subst,
}
use embedded_client_server_v.Protocol.Bytes.{u32_mod}
use embedded_client_server_v.Protocol.Message.{Message, frame, press, dark, mismatch, acknowledge}
use embedded_client_server_v.Protocol.Stream.{encode_all, AreAnswers}
use embedded_client_server_v.Posix.{Posix, Laws, milliseconds}
use embedded_client_server_v.Server.Hardware.{Hardware}
use embedded_client_server_v.Server.Hardware
use embedded_client_server_v.Server.App.{ServerApp}
use embedded_client_server_v.Server.App.Sessions.{Serves}
use embedded_client_server_v.Server.App.Conversation.{Numbered, Pictured, requests, requests_bound}
use embedded_client_server_v.Server.App.Trace.{Serves-Conversed}
use embedded_client_server_v.Client.Config
use embedded_client_server_v.Client.Desktop.{Desktop}
use embedded_client_server_v.Client.Desktop
use embedded_client_server_v.Client.App.{ClientApp}
use embedded_client_server_v.Client.App.Asking.{SendsNothing, asks, length-asks, Cycles-asks}
use embedded_client_server_v.Client.App.Cycling.{Cycles}
use embedded_client_server_v.Client.App.Archiving.{put_all}
use embedded_client_server_v.Client.App.Following.Archive.{DrawsNoFiles, Cycles-Archives}
use embedded_client_server_v.Client.Store.{ImageStore}
use embedded_client_server_v.Client.Store.Files.{FileSystem, HasRoom}
use embedded_client_server_v.Client.App.Losing.{Draws}
use embedded_client_server_v.Client.App.Window.{window, show_all}

module _ (os : Posix) (hw : Hardware os) where
  -- The camera's encoder makes images whose size fits a uint32_t.
  pub record EncodesSmall : Type 0 where
    pub small : (m : hw.Mat) (jpeg : List ℕ) → hw.imencode m ≡ some jpeg → length jpeg < u32_mod

module _ (os : Posix) (hw : Hardware os) (encodes : EncodesSmall os hw) where
  -- The server's numbered pictures are answers.
  Numbered-AreAnswers :
      (n k : ℕ) (ms : List Message)
      → n < u32_mod
      → Numbered n ms k
      → Pictured os hw ms
      → AreAnswers ms
  Numbered-AreAnswers n k [] h g p = tt
  Numbered-AreAnswers n k (frame id jpeg ∷ ms) h g p =
      let fits : id < u32_mod = omega (arith, g.0) in
      ((fits, encodes.small p.0.0 jpeg p.0.1), Numbered-AreAnswers id k ms fits g.1 p.1)
  Numbered-AreAnswers n k (press id jpeg ∷ ms) h g p =
      let fits : id < u32_mod = omega (arith, g.0) in
      ((fits, encodes.small p.0.0 jpeg p.0.1), Numbered-AreAnswers id k ms fits g.1 p.1)
  Numbered-AreAnswers n k (dark id ∷ ms) h g p =
      (omega (arith, g.0), Numbered-AreAnswers n k ms h g.1 p)
  Numbered-AreAnswers n k (mismatch id ∷ ms) h g p =
      (omega (arith, g.0), Numbered-AreAnswers n k ms h g.1 p)
  Numbered-AreAnswers n k (acknowledge ∷ ms) h g p = absurd g

module _ (os : Posix) (hw : Hardware os) (laws : Laws os) (client_os : Posix)
    (desk : Desktop client_os) (client_laws : Laws client_os) (disk : FileSystem client_os desk)
    (store : ImageStore) where
  -- The server's answers on the way from a to b, at most n, of which the client has shown the first
  -- ones on the way from c to d.
  pub record Watches (a b : ServerApp os hw) (c : ClientApp client_os desk) (n : ℕ)
      (d : ClientApp client_os desk) : Type 0 where
    pub shown : List Message
    pub left : List Message
    pub asked : length (shown ++ left) ≤ n
    pub sent :
        laws.sent a.server.client_fd b.world
        ≡ laws.sent a.server.client_fd a.world ++ encode_all (shown ++ left)
    pub numbered : Numbered a.frame_id (shown ++ left) b.frame_id
    pub pictured : Pictured os hw (shown ++ left)
    pub shows : window client_os desk d ≡ show_all client_os desk shown (window client_os desk c)
    pub files :
        (path : List ℕ) → disk.files d.world path ≡ put_all store shown (disk.files c.world) path
    pub unread : client_laws.pending c.client.fd d.world ≡ encode_all left

module _ (os : Posix) (hw : Hardware os) (laws : Laws os) (local : Hardware.IsLocal os laws hw)
    (encodes : EncodesSmall os hw) (client_os : Posix) (desk : Desktop client_os)
    (client_laws : Laws client_os) (client_local : Desktop.IsLocal client_os client_laws desk)
    (draws : Draws client_os client_laws desk) (mute : SendsNothing client_os client_laws desk)
    (disk : FileSystem client_os desk) (bare : DrawsNoFiles client_os desk disk)
    (store : ImageStore) (room : HasRoom client_os desk store) where
  -- Commands that are all requests.
  few_answers :
      (n answers : ℕ) (commands later : List ℕ)
      → answers ≤ requests commands
      → asks n ≡ commands ++ later
      → answers ≤ n
  few_answers n answers commands later h e =
      omega (
        arith,
        h,
        requests_bound commands,
        length-asks n,
        ap length e,
        length-append commands later,
      )

  -- A session of the server has gone on from a, with a number below 2^32 and an encoder whose
  -- images are below 2^32 bytes, to b, and has sent the bytes x, which the client's connection
  -- delivers, if it does not fail, and nothing more. A session of the client has gone on for n
  -- cycles, each with fuel above the number of these bytes plus the nanoseconds of the link's
  -- delay, and has sent the bytes y, which the server's connection delivers and nothing more;
  -- receives may have timed out. At the client neither receives nor the window nor the files send
  -- anything, the window writes no files, and the directory of the images can be written.
  -- Then x are the bytes of messages of the server, at most n, each image with the number of the
  -- one before plus 1 modulo 2^32 and a JPEG that the encoder made, each other answer with the
  -- number of the last image; the client has shown the first of them, in the order sent and each in
  -- full; its window's state, image and number are those that they make of the ones before; the
  -- image of each BUTTON_PRESS among them, if it has bytes, has been put under the name of its
  -- number, one after the other, and no other file has changed; and exactly the bytes of the others
  -- are still to be read, so that no more answers are under way than there were cycles that showed
  -- none.
  pub Cycles-Watches :
      (fuel n : ℕ) (a b : ServerApp os hw) (c d : ClientApp client_os desk) (x y : List ℕ)
      → a.frame_id < u32_mod
      → Serves os hw a b
      → laws.sent a.server.client_fd b.world ≡ laws.sent a.server.client_fd a.world ++ x
      → client_laws.pending c.client.fd c.world ≡ x
      → length x + milliseconds Config.link_timeout_ms < fuel
      → client_laws.sent c.client.fd d.world ≡ client_laws.sent c.client.fd c.world ++ y
      → laws.pending a.server.client_fd a.world ≡ y
      → c.store ≡ store
      → Cycles client_os desk fuel c n d
      → Watches os hw laws client_os desk client_laws disk store a b c n d
  Cycles-Watches fuel n a b c d x y small serves sent there enough client_sent incoming directory
        cycles =
      let s = Serves-Conversed os hw laws local a b serves in
      let before = laws.sent a.server.client_fd a.world in
      let same = (append_cut before x before (encode_all s.answers) refl (sym sent ∙ s.sent)).1 in
      let answers =
        Numbered-AreAnswers os hw encodes a.frame_id b.frame_id s.answers small s.numbered
          s.pictured in
      let k =
        Cycles-Archives client_os desk client_laws client_local draws disk bare store room fuel
          s.answers [] c directory answers (omega (arith, ap length same, enough))
          (there ∙ same ∙ sym (append-nil (encode_all s.answers))) n d (inr refl) cycles in
      let client_before = client_laws.sent c.client.fd c.world in
      let (_, requested) = Cycles-asks client_os desk client_laws mute fuel c n d cycles in
      let commands =
        (append_cut client_before y client_before (asks n) refl (sym client_sent ∙ requested)).1 in
      record {
        shown = k.shown;
        left = k.left;
        asked =
            subst (λ ms. length ms ≤ n) k.cut
              (few_answers n (length s.answers) s.commands (laws.pending a.server.client_fd b.world)
                s.asked (sym commands ∙ sym incoming ∙ s.read));
        sent = s.sent ∙ ap (λ ms. before ++ encode_all ms) k.cut;
        numbered = subst (λ ms. Numbered a.frame_id ms b.frame_id) k.cut s.numbered;
        pictured = subst (Pictured os hw) k.cut s.pictured;
        shows = k.holds.1;
        files = k.holds.2;
        unread = k.unread ∙ append-nil (encode_all k.left);
      }
