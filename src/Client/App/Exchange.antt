-- ===== src/Client/App/Exchange.antt =====
-- exchangeFrame: one GET_FRAME and the answer to it.
use embedded_client_server_v.Prelude.{
  ℕ, ◌≡◌, refl, ap, ◌∙◌, sym, ◌⊎◌, inl, inr, Bool, true, false, List, [], ◌∷◌, ◌++◌, ℤ, Bool-cases,
  Returns, Returns-pure, Returns-mono,
}
use embedded_client_server_v.Client.Protocol
use embedded_client_server_v.Protocol.Bytes.{net_bytes}
use embedded_client_server_v.Protocol.Message.{
  Message, frame, press, dark, mismatch, acknowledge, IsAnswer, header, after_id, id_of, encode,
  encode_parts,
}
use embedded_client_server_v.Posix.{Posix, Laws}
use embedded_client_server_v.Client.Desktop.{Desktop, IsLocal}
use embedded_client_server_v.Client.Socket.{receive, send}
use embedded_client_server_v.Client.Socket.Receiving.{IsReliable}
use embedded_client_server_v.Client.App.{ClientApp, after_receive, exchange_frame}
use embedded_client_server_v.Client.App.Arrival.{recv_byte, certain, send_pending_on}
use embedded_client_server_v.Client.App.Decoding.{handle_response-Ends}
use embedded_client_server_v.Client.App.Showing.{Shows, Suffices}

module _ (os : Posix) (desk : Desktop os) (laws : Laws os) (fd : ℤ) where
  -- The request left, and the answer is shown in full; or it did not leave.
  abbrev pub Exchanges : Message → List ℕ → ClientApp os desk → Bool → ClientApp os desk → Type 0
  Exchanges m rest a done b =
      let asked = (send os a.client Protocol.get_frame a.world).0 in
      ((asked ≡ true) × (done ≡ true) × Shows os desk laws fd m rest a b)
      ⊎ ((asked ≡ false) × (done ≡ false))

module _ (os : Posix) (desk : Desktop os) (laws : Laws os) (local : IsLocal os laws desk) (fd : ℤ)
    (reliable : IsReliable os laws fd) where
  open os use {World}

  -- When the last answer arrived does not matter to what is shown.
  stamped-Shows :
      (m : Message) (rest : List ℕ) (a : ClientApp os desk) (t : ℕ) (b : ClientApp os desk)
      → Shows os desk laws fd m rest (record a { last_response = t }) b
      → Shows os desk laws fd m rest a b
  stamped-Shows (frame id jpeg) rest a t b s = s
  stamped-Shows (press id jpeg) rest a t b s = s
  stamped-Shows (dark id) rest a t b s = s
  stamped-Shows (mismatch id) rest a t b s = s
  stamped-Shows acknowledge rest a t b s = s

  -- An answer whose number and size are below 2^32, then `rest`, is what a reliable connection
  -- delivers. With enough fuel for it (as for handleResponse), exchangeFrame returns. It succeeds
  -- if the send of GET_FRAME does, and then state, image and number are those of the answer (an
  -- image that does not decode leaves the old one) and exactly `rest` is left to be read. If the
  -- send fails, it fails.
  pub exchange_frame-Exchanges :
      (fuel : ℕ) (m : Message) (rest : List ℕ) (a : ClientApp os desk)
      → a.client.fd ≡ fd
      → IsAnswer m
      → Suffices fuel m
      → laws.pending fd a.world ≡ encode m ++ rest
      → Returns (exchange_frame os desk fuel a) (Exchanges os desk laws fd m rest a)
  unfolding exchange_frame send receive after_receive
  exchange_frame-Exchanges fuel m rest a e h enough there =
      let w1 = (os.send a.client.fd (Protocol.get_frame ∷ []) a.world).1 in
      let y = (net_bytes (id_of m) ++ after_id m) ++ rest in
      let split = there ∙ ap (λ x. x ++ rest) (encode_parts m h) in
      let kept =
        send_pending_on os desk laws local fd reliable a.client.fd (Protocol.get_frame ∷ []) a.world
          e in
      elim (Bool-cases (send os a.client Protocol.get_frame a.world).0) [
        | inr refused ↦ rw (refused, exchange_frame) (Returns-pure _ false _ (inr (refused, refl)))
        | inl asked ↦
            let (r, left) =
              recv_byte os desk laws local fd reliable a.client.fd w1 (header m) y e
                (kept ∙ split) in
            let w2 = (os.recv a.client.fd 1 w1).1 in
            let t = (os.now w2).0 in
            let w3 = (os.now w2).1 in
            let whole = laws.now_pending fd w2 ∙ left in
            rw (asked, r, exchange_frame, receive, after_receive)
              (Returns-mono _ _
                (λ done b ends.
                  let (ok, s) =
                    certain os desk laws local fd reliable m rest (record a { last_response = t })
                      w3 done b ends in
                  inl (asked, ok, stamped-Shows m rest a t b s))
                (handle_response-Ends os desk laws local fd true (λ _. reliable) fuel m rest
                  (record a { last_response = t; world = w3 }) e h enough
                  (ap (◌∷◌ (header m)) whole ∙ sym split ∙ there)))
      ]
