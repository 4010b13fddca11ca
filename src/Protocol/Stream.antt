-- ===== src/Protocol/Stream.antt =====
-- Messages one behind the other, as protocol.h lays them out on the connection.
use embedded_client_server_v.Prelude.{ℕ, ◌≡◌, refl, sym, ap, ◌∙◌, List, [], ◌∷◌, ◌++◌, append_assoc}
use embedded_client_server_v.Protocol.Message.{Message, IsAnswer, encode}

-- The bytes of messages, one behind the other.
unfoldable pub encode_all : List Message → List ℕ
encode_all [] = []
encode_all (m ∷ ms) = encode m ++ encode_all ms

abbrev pub AreAnswers : List Message → Type 0
AreAnswers [] = Unit
AreAnswers (m ∷ ms) = IsAnswer m × AreAnswers ms

pub encode_all-append :
    (xs ys : List Message) → encode_all (xs ++ ys) ≡ encode_all xs ++ encode_all ys
unfolding encode_all
encode_all-append [] ys = refl
encode_all-append (m ∷ xs) ys =
    ap (◌++◌ (encode m)) (encode_all-append xs ys) ∙ sym (append_assoc (encode m) _ _)

pub right_AreAnswers : (xs ys : List Message) → AreAnswers (xs ++ ys) → AreAnswers ys
right_AreAnswers [] ys h = h
right_AreAnswers (x ∷ xs) ys h = right_AreAnswers xs ys h.1
