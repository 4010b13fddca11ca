-- ===== src/Protocol/Bytes.antt =====
-- htonl and ntohl as the programs use them: the four bytes in memory of `htonl(n)`, most
-- significant first, and the number that `ntohl` gives back for four such bytes.
use embedded_client_server_v.Prelude.{
  ℕ, ◌+◌, ◌*◌, ◌/◌, ◌%◌, ◌<◌, ◌≡◌, refl, List, [], ◌∷◌, length, arith,
}

-- The values of a uint32_t stay below this.
abbrev pub u32_mod : ℕ
u32_mod = 4294967296

unfoldable pub net_bytes : ℕ → List ℕ
net_bytes n = n / 16777216 % 256 ∷ n / 65536 % 256 ∷ n / 256 % 256 ∷ n % 256 ∷ []

unfoldable pub of_net_bytes : List ℕ → ℕ
of_net_bytes (a ∷ b ∷ c ∷ d ∷ []) = a * 16777216 + b * 65536 + c * 256 + d
of_net_bytes _ = 0

pub length-net_bytes : (n : ℕ) → length (net_bytes n) ≡ 4
unfolding net_bytes
length-net_bytes n = refl

-- ntohl undoes htonl on every uint32_t.
pub of_net_bytes-net_bytes : (n : ℕ) → n < u32_mod → of_net_bytes (net_bytes n) ≡ n
unfolding net_bytes of_net_bytes
of_net_bytes-net_bytes n h = omega arith
