-- ===== src/Server/Camera/Images.antt =====
-- Where the image of a capture comes from.
use mathlib.Core.Option.{some-injective}
use embedded_client_server_v.Prelude.{
  ◌≡◌, refl, ap, ◌∙◌, inl, inr, not, ◌||◌, List, ℕ, Option, none, some, Bool-cases,
}
use embedded_client_server_v.Posix.{Posix}
use embedded_client_server_v.Server.Hardware.{Hardware}
use embedded_client_server_v.Server.Camera.{Capture, encoded, capture_jpeg}

module _ (os : Posix) (hw : Hardware os) where
  open os use {World}

  -- The bytes are a JPEG of some picture.
  abbrev pub IsPicture : List ℕ → Type 0
  IsPicture jpeg = (m : hw.Mat) × (hw.imencode m ≡ some jpeg)

  encoded-IsPicture :
      (m : hw.Mat) (r : Option (List ℕ)) (c : Capture os hw)
      → hw.imencode m ≡ r
      → encoded os hw m r ≡ some c
      → IsPicture c.jpeg
  unfolding encoded
  encoded-IsPicture m none c e h = absurd (cc h)
  encoded-IsPicture m (some jpeg) c e h = (m, e ∙ ap some (ap (λ x. x.jpeg) (some-injective _ _ h)))

  pub capture_jpeg-IsPicture :
      (w v : World) (c : Capture os hw) → capture_jpeg os hw w ≡ (some c, v) → IsPicture c.jpeg
  unfolding capture_jpeg
  capture_jpeg-IsPicture w v c h =
      let m = (hw.read w).0.1 in
      elim (Bool-cases (not (hw.read w).0.0 || hw.is_empty m)) [
        | inl failed ↦ absurd (cc (ap (λ r. r.0) (rw (failed, capture_jpeg) at h)))
        | inr taken ↦ encoded-IsPicture m _ c refl (ap (λ r. r.0) (rw (taken, capture_jpeg) at h))
      ]
