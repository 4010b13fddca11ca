-- ===== src/Client/Store/Names.antt =====
-- The names of the saved images.
use embedded_client_server_v.Prelude.{
  ℕ, zero, suc, ◌+◌, ◌-◌, ◌*◌, ◌/◌, ◌%◌, ◌<◌, ◌≡◌, ◌≢◌, refl, sym, ap, ◌∙◌, inl, inr, List, [], ◌∷◌,
  ◌++◌, arith, length, length-append, ltb, append_cut, Bool-cases,
}
use embedded_client_server_v.Client.Desktop.{codes}
use embedded_client_server_v.Client.Store.{ImageStore, digits, to_string, image_path}

-- The number that decimal digits stand for, behind those already read.
number : ℕ → List ℕ → ℕ
number n [] = n
number n (d ∷ ds) = number (n * 10 + (d - 48)) ds

number-digits :
    (fuel n : ℕ) (written : List ℕ) → n < fuel → number 0 (digits fuel n written) ≡ number n written
unfolding number digits
number-digits zero n written h = absurd (omega arith)
number-digits (suc fuel) n written h = elim (Bool-cases (ltb n 10)) [
  | inl small ↦ rw (small, digits) (ap (λ k. number k written) (omega arith))
  | inr large ↦
      rw (large, digits)
        (number-digits fuel (n / 10) ((b'0' + n % 10) ∷ written) (ground (arith, large))
          ∙ ap (λ k. number k written) (omega arith))
]

number-to_string : (n : ℕ) → number 0 (to_string n) ≡ n
unfolding to_string number
number-to_string n = number-digits (suc n) n [] (omega arith)

tail_cut : (xs ys us : List ℕ) → xs ++ us ≡ ys ++ us → xs ≡ ys
tail_cut xs ys us e =
    (append_cut xs us ys us (omega (arith, length-append xs us, length-append ys us, ap length e))
      e).0

image_path-injective : (s : ImageStore) (m n : ℕ) → image_path s m ≡ image_path s n → m ≡ n
unfolding image_path
image_path-injective s m n e =
    let named = (append_cut s.dir _ s.dir _ refl e).1 in
    let prefixed = (append_cut (codes "/") _ (codes "/") _ refl named).1 in
    let numbered =
      (append_cut (codes "capture_frame_") _ (codes "capture_frame_") _ refl prefixed).1 in
    let same = tail_cut (to_string m) (to_string n) (codes ".jpg") numbered in
    sym (number-to_string m) ∙ ap (number 0) same ∙ number-to_string n

-- In one directory, images with different numbers are saved under different names.
pub image_path_distinct : (s : ImageStore) (m n : ℕ) → m ≢ n → image_path s m ≢ image_path s n
image_path_distinct s m n differ same = differ (image_path-injective s m n same)
