-- ===== src/Client/App/Archiving.antt =====
-- The directory of the images after answers.
use embedded_client_server_v.Prelude.{
  ℕ, ◌≡◌, refl, sym, ap, ◌∙◌, inl, inr, List, [], ◌∷◌, ◌++◌, some, if◌then◌else◌, Bool-cases,
}
use embedded_client_server_v.Protocol.Message.{Message, frame, press, dark, mismatch, acknowledge}
use embedded_client_server_v.Client.Store.{ImageStore, image_path}
use embedded_client_server_v.Client.Store.Files.{Saved}
use embedded_client_server_v.Client.Store.Paths.{same_path, same_path_refl, same_path_eq}
use embedded_client_server_v.Client.App.Keeping.{Files}
use embedded_client_server_v.Client.App.Saving.{Contents}

-- The files after an answer: the image of a press, if it has bytes, is put under its name.
abbrev pub put_answer : ImageStore → Message → Contents → Contents
put_answer store (press id (j ∷ js)) f =
    λ path. if same_path path (image_path store id) then some (j ∷ js) else f path
put_answer store (press id []) f = f
put_answer store (frame id jpeg) f = f
put_answer store (dark id) f = f
put_answer store (mismatch id) f = f
put_answer store acknowledge f = f

-- The files after answers, one put after the other.
abbrev pub put_all : ImageStore → List Message → Contents → Contents
put_all store [] f = f
put_all store (m ∷ ms) f = put_all store ms (put_answer store m f)

pub put_all-append :
    (store : ImageStore) (xs ys : List Message) (f : Contents)
    → put_all store (xs ++ ys) f ≡ put_all store ys (put_all store xs f)
put_all-append store [] ys f = refl
put_all-append store (x ∷ xs) ys f = put_all-append store xs ys (put_answer store x f)

pub put_answer_same :
    (store : ImageStore) (m : Message) (f g : Contents) (path : List ℕ)
    → f path ≡ g path
    → put_answer store m f path ≡ put_answer store m g path
put_answer_same store (press id (j ∷ js)) f g path e =
    ap (λ x. if same_path path (image_path store id) then some (j ∷ js) else x) e
put_answer_same store (press id []) f g path e = e
put_answer_same store (frame id jpeg) f g path e = e
put_answer_same store (dark id) f g path e = e
put_answer_same store (mismatch id) f g path e = e
put_answer_same store acknowledge f g path e = e

Saved-put :
    (name content : List ℕ) (before after : Contents)
    → Saved name content before after
    → (path : List ℕ) → after path ≡ (if same_path path name then some content else before path)
Saved-put name content before after s path = elim (Bool-cases (same_path path name)) [
  | inl e ↦ rw e (ap after (same_path_eq path name e) ∙ s.there)
  | inr e ↦ rw e (
      s.others path
        (λ same. absurd (cc (sym e ∙ ap (same_path path) (sym same) ∙ same_path_refl path))))
]

pub Files-put :
    (store : ImageStore) (m : Message) (before after : Contents)
    → Files store m before after
    → (path : List ℕ) → after path ≡ put_answer store m before path
Files-put store (press id (j ∷ js)) before after h path =
    Saved-put (image_path store id) (j ∷ js) before after h path
Files-put store (press id []) before after h path = ap (λ f. f path) h
Files-put store (frame id jpeg) before after h path = ap (λ f. f path) h
Files-put store (dark id) before after h path = ap (λ f. f path) h
Files-put store (mismatch id) before after h path = ap (λ f. f path) h
Files-put store acknowledge before after h path = ap (λ f. f path) h
