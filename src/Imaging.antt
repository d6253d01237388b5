-- ===== src/Imaging.antt =====
-- internal/imaging/imaging.go and server.go, and internal/resizer/resizer.go: resizing an image, the
-- service that bounds how many are decoded at once, and its client. The codecs and the scaler are the
-- interface `Codec`.
pub mod Server
pub mod Bounded
pub mod Draining
pub mod Client
use go_image_service.Base.{
  ℕ, String, ◌<>◌, List, ◌==◌, string_eq, if◌then◌else◌, Result, ok, err, wrapped, status,
  invalid_argument, error_text,
}
use go_image_service.Base.Integers.{ℤ}

-- `decode` also answers the format. `scale` is `draw.CatmullRom.Scale` into a new image of a width and
-- a height.
pub record Codec (Image : Type 0) : Type 0 where
  pub decode : List ℕ → Result (Image × String)
  pub scale : ℤ → ℤ → Image → Image
  pub png_encode : Image → Result (List ℕ)
  pub jpeg_encode : Image → Result (List ℕ)

-- `imageprocess.ResizeRequest`
pub record ResizeRequest : Type 0 where
  pub image_to_resize : List ℕ
  pub image_width : ℤ
  pub image_height : ℤ

abbrev encoded : Result (List ℕ) → Result (List ℕ)
encoded (ok bytes) = ok bytes
encoded (err e) = err (wrapped "encode" e)

module _ {Image : Type 0} (c : Codec Image) where
  unfoldable pub encode : String → Image → Result (List ℕ)
  encode format dst = encoded (if format == "png" then c.png_encode dst else c.jpeg_encode dst)

  unfoldable pub after_decode : ℤ → ℤ → Result (Image × String) → Result (List ℕ)
  unfolding encode
  after_decode width height (err e) = err (wrapped "decode" e)
  after_decode width height (ok (src, format)) = encode format (c.scale width height src)

  -- `Resize` of imaging.go.
  unfoldable pub resize : List ℕ → ℤ → ℤ → Result (List ℕ)
  unfolding after_decode
  resize content width height = after_decode width height (c.decode content)

  abbrev as_status : Result (List ℕ) → Result (List ℕ)
  as_status (ok bytes) = ok bytes
  as_status (err e) = err (status invalid_argument ("resize: " <> error_text e))

  -- What `Server.Resize` answers once it has its slot.
  unfoldable pub answer : ResizeRequest → Result (List ℕ)
  unfolding resize
  answer req = as_status (resize req.image_to_resize req.image_width req.image_height)
