-- ===== src/Client/App/Following.antt =====
-- The cycles of a session over the answers of the server, whatever it is that an answer brings
-- about. What it is for the window and for the files is said in the child modules.
pub mod Windows
pub mod Archive
use embedded_client_server_v.Prelude.{
  ℕ, suc, ◌+◌, ◌≤◌, ◌<◌, ◌≡◌, refl, sym, ap, ◌∙◌, ◌⊎◌, inl, inr, Bool, true, false, List, [], ◌∷◌,
  ◌++◌, append_assoc, ℤ, none, some, arith, length, length-append, subst, Returns, Returns-mono,
}
use embedded_client_server_v.Protocol.Bytes.{net_bytes}
use embedded_client_server_v.Protocol.Message.{
  Message, IsAnswer, header, after_id, id_of, encode, encode_parts,
}
use embedded_client_server_v.Protocol.Stream.{
  encode_all, encode_all-append, AreAnswers, right_AreAnswers,
}
use embedded_client_server_v.Posix.{Posix, Laws, milliseconds}
use embedded_client_server_v.Client.Config
use embedded_client_server_v.Client.Desktop.{Desktop, IsLocal}
use embedded_client_server_v.Client.Reporter.{begin_cycle}
use embedded_client_server_v.Client.Socket.Unread.{blind}
use embedded_client_server_v.Client.App.{ClientApp, cycle, handle_response}
use embedded_client_server_v.Client.App.Cycling.{
  Seen, cycle-Idle, cycle-Took, Cycles, here, next, cycle-GoesOn, begun,
}
use embedded_client_server_v.Client.App.Decoding.{handle_response-Ends}
use embedded_client_server_v.Client.App.Drawing.{Passes}
use embedded_client_server_v.Client.App.Losing.{Draws}
use embedded_client_server_v.Client.App.Showing.{Ends, Suffices}
use embedded_client_server_v.Client.App.Taking.{
  Unasked, Idle, exchange_frame-Took, exchange_frame-Idle,
}
use embedded_client_server_v.Client.App.Window.{
  window, show, show_all, show_all-append, Shown, Shows-Shown,
}

module _ (os : Posix) (desk : Desktop os) (laws : Laws os)
    (T : List Message → ClientApp os desk → Type 0) where
  -- After so many cycles, some of the answers have been handled, in their order, with what they
  -- bring about, and the others are still to be read, with `rest` behind them.
  pub record Follows (ms : List Message) (rest : List ℕ) (a : ClientApp os desk) (n : ℕ)
      (b : ClientApp os desk) : Type 0 where
    pub shown : List Message
    pub left : List Message
    pub cut : ms ≡ shown ++ left
    pub few : length shown ≤ n
    pub same : b.client ≡ a.client
    pub unread : laws.pending a.client.fd b.world ≡ encode_all left ++ rest
    pub holds : T shown b

  -- A cycle has handled the answer m with success.
  abbrev pub Handles :
      Message → List ℕ → List Message → ClientApp os desk → ClientApp os desk → Type 0
  Handles m y shown b c =
      (c.client ≡ b.client) × (laws.pending b.client.fd c.world ≡ y) × T (shown ++ (m ∷ [])) c

  -- What each cycle does to what the answers bring about.
  pub record Carries {X : Type 0} (view : os.World → X) : Type 0 where
    pub still :
        (shown : List Message) (b c : ClientApp os desk)
        → Idle os desk laws view b c
        → T shown b
        → T shown c
    pub handles :
        (f : ℕ) (m : Message) (y : List ℕ) (shown : List Message) (b c : ClientApp os desk)
        → IsAnswer m
        → Suffices f m
        → laws.pending b.client.fd b.world ≡ encode m ++ y
        → cycle os desk f b ≡ some (none, c)
        → T shown b
        → Handles m y shown b c ⊎ Idle os desk laws view b c

module _ (os : Posix) (desk : Desktop os) (laws : Laws os) where
  -- The fuel for all of the answers is enough for each of them.
  pub enough_each :
      (fuel f : ℕ) (ms shown left : List Message) (m : Message)
      → IsAnswer m
      → length (encode_all ms) + milliseconds Config.link_timeout_ms < fuel
      → fuel ≤ f
      → ms ≡ shown ++ (m ∷ left)
      → Suffices f m
  unfolding encode_all net_bytes
  enough_each fuel f ms shown left m h enough more cut = omega (
    arith,
    ap (λ x. length (encode_all x)) cut,
    ap length (encode_all-append shown (m ∷ left)),
    length-append (encode_all shown) (encode_all (m ∷ left)),
    length-append (encode m) (encode_all left),
    ap length (encode_parts m h),
  )

module _ (os : Posix) (desk : Desktop os) (laws : Laws os) {X : Type 0} (view : os.World → X)
    (seen : Seen os desk laws view) (T : List Message → ClientApp os desk → Type 0)
    (carries : Carries os desk laws T view) (ms : List Message) (rest : List ℕ)
    (a : ClientApp os desk) where
  -- A cycle in which nothing happens.
  Idle-Follows :
      (n : ℕ) (b c : ClientApp os desk)
      → Follows os desk laws T ms rest a n b
      → Idle os desk laws view b c
      → Follows os desk laws T ms rest a (suc n) c
  Idle-Follows n b c k (same, p, kept) = record {
    shown = k.shown;
    left = k.left;
    cut = k.cut;
    few = omega (arith, k.few);
    same = ap (λ x. x.client) same ∙ k.same;
    unread = subst (λ x. laws.pending x.fd c.world ≡ laws.pending x.fd b.world) k.same p ∙ k.unread;
    holds = carries.still k.shown b c (same, p, kept) k.holds;
  }

  -- A cycle that handles the next answer.
  Handles-Follows :
      (n : ℕ) (m : Message) (left : List Message) (b c : ClientApp os desk)
      → (k : Follows os desk laws T ms rest a n b) → k.left ≡ m ∷ left
      → Handles os desk laws T m (encode_all left ++ rest) k.shown b c
      → Follows os desk laws T ms rest a (suc n) c
  Handles-Follows n m left b c k e (s, p, holds) = record {
    shown = k.shown ++ (m ∷ []);
    left = left;
    cut = k.cut ∙ ap (◌++◌ k.shown) e ∙ sym (append_assoc k.shown (m ∷ []) left);
    few = omega (arith, k.few, length-append k.shown (m ∷ []));
    same = s ∙ k.same;
    unread = subst (λ x. laws.pending x.fd c.world ≡ encode_all left ++ rest) k.same p;
    holds = holds;
  }

  module _ (fuel : ℕ) (h : AreAnswers ms)
      (enough : length (encode_all ms) + milliseconds Config.link_timeout_ms < fuel) where
    one_more-Follows :
        (f n : ℕ) (b c : ClientApp os desk)
        → fuel ≤ f
        → (suc n ≤ length ms) ⊎ (rest ≡ [])
        → (k : Follows os desk laws T ms rest a n b) → (left : List Message) → k.left ≡ left
        → cycle os desk f b ≡ some (none, c)
        → Follows os desk laws T ms rest a (suc n) c
    unfolding encode_all
    one_more-Follows f n b c more few k [] e run =
        let cut = k.cut ∙ ap (◌++◌ k.shown) e in
        let unread = k.unread ∙ ap (λ x. encode_all x ++ rest) e in
        elim few [
          | inl less ↦ absurd (omega (arith, k.few, ap length cut, length-append k.shown []))
          | inr none_left ↦ Idle-Follows n b c k (
              cycle-Idle os desk laws view seen f b c
                (subst (λ x. laws.pending x.fd b.world ≡ []) (sym k.same) (unread ∙ none_left)) run)
        ]
    one_more-Follows f n b c more few k (m ∷ left) e run =
        let cut = k.cut ∙ ap (◌++◌ k.shown) e in
        let unread = k.unread ∙ ap (λ x. encode_all x ++ rest) e in
        let (is_answer, _) = right_AreAnswers k.shown (m ∷ left) (subst AreAnswers cut h) in
        let y = encode_all left ++ rest in
        elim (carries.handles f m y k.shown b c is_answer
          (enough_each os desk laws fuel f ms k.shown left m is_answer enough more cut)
          (subst (λ x. laws.pending x.fd b.world ≡ encode m ++ y) (sym k.same)
            (unread ∙ append_assoc (encode m) (encode_all left) rest))
          run k.holds) [
            | inl got ↦ Handles-Follows n m left b c k e got
            | inr idle ↦ Idle-Follows n b c k idle
          ]

    -- Over all of the cycles, from what holds before the first one.
    pub all-Follows :
        T [] a
        → laws.pending a.client.fd a.world ≡ encode_all ms ++ rest
        → (n : ℕ) (b : ClientApp os desk) → (n ≤ length ms) ⊎ (rest ≡ [])
        → Cycles os desk fuel a n b
        → Follows os desk laws T ms rest a n b
    all-Follows start there n b few here = record {
      shown = [];
      left = ms;
      cut = refl;
      few = omega arith;
      same = refl;
      unread = there;
      holds = start;
    }
    all-Follows start there (suc n) c few (next {b} f s more run) =
        let fewer : (n ≤ length ms) ⊎ (rest ≡ []) = elim few [
          | inl less ↦ inl (omega arith)
          | inr none_left ↦ inr none_left
        ] in
        let k = all-Follows start there n b fewer s in
        one_more-Follows f n b c more few k k.left refl run
