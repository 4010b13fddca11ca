-- ===== src/Client/Store/Paths.antt =====
-- The names of files: whether two are the same.
use embedded_client_server_v.Prelude.{
  ℕ, ◌≡◌, refl, ap, ◌∙◌, inl, inr, Bool, true, false, ◌&&◌, List, [], ◌∷◌, arith, ◌==◌, Bool-cases,
}

abbrev pub same_path : List ℕ → List ℕ → Bool
same_path [] [] = true
same_path [] (y ∷ ys) = false
same_path (x ∷ xs) [] = false
same_path (x ∷ xs) (y ∷ ys) = x == y && same_path xs ys

pub same_path_refl : (xs : List ℕ) → same_path xs xs ≡ true
same_path_refl [] = refl
same_path_refl (x ∷ xs) = ground (arith, same_path_refl xs)

pub same_path_eq : (xs ys : List ℕ) → same_path xs ys ≡ true → xs ≡ ys
same_path_eq [] [] h = refl
same_path_eq [] (y ∷ ys) h = absurd (cc h)
same_path_eq (x ∷ xs) [] h = absurd (cc h)
same_path_eq (x ∷ xs) (y ∷ ys) h = elim (Bool-cases (same_path xs ys)) [
  | inl rest ↦
      let first : x ≡ y = ground (arith, h) in
      ap (λ n. n ∷ xs) first ∙ ap (◌∷◌ y) (same_path_eq xs ys rest)
  | inr differs ↦ absurd (ground (arith, h, differs))
]
