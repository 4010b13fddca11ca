-- ===== src/Protocol/Message.antt =====
-- The answers of the server as protocol.h lays them out: a header byte, then `frameId` but for
-- STOP_ACK, then `jpegSize` and the image for FRAME_HDR and BUTTON_PRESS.
use embedded_client_server_v.Prelude.{
  ℕ, ◌<◌, ◌≡◌, refl, sym, ap, List, [], ◌∷◌, ◌++◌, append-nil, length,
}
use embedded_client_server_v.Protocol.Bytes.{net_bytes, u32_mod}

pub data Message : Type 0 where
  frame : ℕ → List ℕ → Message
  press : ℕ → List ℕ → Message
  dark : ℕ → Message
  mismatch : ℕ → Message
  acknowledge : Message

unfoldable pub with_image : ℕ → ℕ → List ℕ → List ℕ
with_image header id jpeg = header ∷ (net_bytes id ++ (net_bytes (length jpeg) ++ jpeg))

unfoldable pub encode : Message → List ℕ
unfolding with_image
encode (frame id jpeg) = with_image 101 id jpeg
encode (press id jpeg) = with_image 200 id jpeg
encode (dark id) = 201 ∷ net_bytes id
encode (mismatch id) = 202 ∷ net_bytes id
encode acknowledge = 102 ∷ []

-- The header byte of an answer and what follows it.
abbrev pub header : Message → ℕ
header (frame id jpeg) = 101
header (press id jpeg) = 200
header (dark id) = 201
header (mismatch id) = 202
header acknowledge = 102

abbrev pub after_id : Message → List ℕ
after_id (frame id jpeg) = net_bytes (length jpeg) ++ jpeg
after_id (press id jpeg) = net_bytes (length jpeg) ++ jpeg
after_id (dark id) = []
after_id (mismatch id) = []
after_id acknowledge = []

-- The messages that answer GET_FRAME, with numbers and sizes that fit a uint32_t.
abbrev pub IsAnswer : Message → Type 0
IsAnswer (frame id jpeg) = (id < u32_mod) × (length jpeg < u32_mod)
IsAnswer (press id jpeg) = (id < u32_mod) × (length jpeg < u32_mod)
IsAnswer (dark id) = id < u32_mod
IsAnswer (mismatch id) = id < u32_mod
IsAnswer acknowledge = ⊥

abbrev pub id_of : Message → ℕ
id_of (frame id jpeg) = id
id_of (press id jpeg) = id
id_of (dark id) = id
id_of (mismatch id) = id
id_of acknowledge = 0

pub id_of_bound : (m : Message) → IsAnswer m → id_of m < u32_mod
id_of_bound (frame id jpeg) h = h.0
id_of_bound (press id jpeg) h = h.0
id_of_bound (dark id) h = h
id_of_bound (mismatch id) h = h
id_of_bound acknowledge h = absurd h

pub encode_parts :
    (m : Message) → IsAnswer m → encode m ≡ header m ∷ (net_bytes (id_of m) ++ after_id m)
unfolding encode with_image
encode_parts (frame id jpeg) h = refl
encode_parts (press id jpeg) h = refl
encode_parts (dark id) h = sym (ap (◌∷◌ 201) (append-nil (net_bytes id)))
encode_parts (mismatch id) h = sym (ap (◌∷◌ 202) (append-nil (net_bytes id)))
encode_parts acknowledge h = absurd h
