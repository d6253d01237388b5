-- ===== src/Cmd/Thumbnailed.antt =====
-- The worker over the image service: the thumbnails are what the codec makes of the upload.
use go_image_service.Base.{
  ℕ, String, ◌≡◌, refl, sym, ◌∙◌, List, Option, some, true, Result, ok, err, arith, ◌<◌,
}
use go_image_service.Base.Integers.{pos}
use go_image_service.Postgres.{Postgres}
use go_image_service.Storage.{MinioStore}
use go_image_service.Storage.Contents.{Unchanged}
use go_image_service.Imaging.{Codec, ResizeRequest, resize, answer}
use go_image_service.Imaging.Client.{Client, client_resize, client_resize-IsInt32}
use go_image_service.Pipeline.Activities.{object_key}
use go_image_service.Pipeline.Workflow.{Temporal, UploadInput, upload_workflow, upload_timeout}
use go_image_service.Pipeline.Workflow.Attempts.{IsTemporal}
use go_image_service.Pipeline.Workflow.Thumbnails.{Source}
use go_image_service.Pipeline.Workflow.Fulfilled.{upload_workflow-thumbnails}
use go_image_service.Cmd.Worker.{Libraries, activities_of}

-- A response with bytes is what the image service answered to the request.
pub record IsDelivered {W Image : Type 0} (c : Codec Image) (client : Client W) : Type 0 where
  pub grpc_resize-answer :
      (req : ResizeRequest) (w w' : W) (bytes : List ℕ)
      → client.grpc_resize req w ≡ (ok bytes, w')
      → answer c req ≡ ok bytes

answer-eq-ok :
    {Image : Type 0} (c : Codec Image) (req : ResizeRequest) (r : Result (List ℕ)) {bytes : List ℕ}
    → resize c req.image_to_resize req.image_width req.image_height ≡ r
    → answer c req ≡ ok bytes
    → r ≡ ok bytes
unfolding answer
answer-eq-ok c req (ok b) e h = rw e at h
answer-eq-ok c req (err x) e h = cc (rw e at h)

resize-eq-ok :
    {W Image : Type 0} (c : Codec Image) (client : Client W)
    → IsDelivered c client
    → (content : List ℕ) (x y : ℕ) (w w' : W) (bytes : List ℕ) → x < 0x80000000
    → y < 0x80000000
    → client_resize client content (pos x) (pos y) w ≡ (ok bytes, w')
    → resize c content (pos x) (pos y) ≡ ok bytes
resize-eq-ok c client h content x y w w' bytes a b e =
    let req : ResizeRequest = record {
      image_to_resize = content;
      image_width = pos x;
      image_height = pos y;
    } in
    answer-eq-ok c req _ refl (
      h.grpc_resize-answer req w w' bytes
        (sym (client_resize-IsInt32 client content (pos x) (pos y) w a b) ∙ e))

module _ {W Source' Conn Polled MinioClient Object Image : Type 0}
    (lib : Libraries W Source' Conn Polled MinioClient Object) (c : Codec Image)
    (resizer : Client W) (delivered : IsDelivered c resizer) (pool : Postgres W)
    (objects : MinioStore MinioClient) (i : UploadInput)
    (o : Source (activities_of lib resizer pool objects)) where
  -- The object of the upload's id and the name is the original, resized to the width and the height, with the
  -- content type of the upload.
  abbrev pub IsScaled : String → ℕ → ℕ → W → Type 0
  IsScaled name width height w =
      (bytes : List ℕ) × (resize c o.content (pos width) (pos height) ≡ ok bytes)
      × (o.stored w (object_key i.id name) ≡ some (bytes, i.content_type))

  -- For the activities that the worker registers, with an image service whose responses arrive as
  -- it answers them: if the signal came, the object was there when it came, and the workflow
  -- succeeded, then `{id}/12x12` and `{id}/25x25` hold what `Resize` of imaging.go makes of the
  -- original for 12 by 12 and for 25 by 25, with the content type of the upload. The table, the
  -- image service and the timer are assumed to leave the objects as they are, and Temporal to
  -- attempt an activity as its policy says.
  pub workflow-resize :
      (t : Temporal W) (status_of : W → Option String)
      → IsTemporal t (activities_of lib resizer pool objects) status_of
      → ((w : W) → Unchanged (o.stored w) (o.stored (t.cancel_timer w)))
      → (w v w' : W) → t.wait (t.new_timer upload_timeout w) ≡ (true, v)
      → o.stored v (object_key i.id "original") ≡ some (o.content, o.content_type)
      → upload_workflow t i w ≡ (ok tt, w')
      → IsScaled "12x12" 12 12 w' × IsScaled "25x25" 25 25 w'
  workflow-resize t status_of temporal timer w v w' signaled there e =
      let a = activities_of lib resizer pool objects in
      let (_, s, l) =
        upload_workflow-thumbnails a i o t status_of temporal timer w v w' signaled there e in
      (
        (
          s.bytes,
          resize-eq-ok c resizer delivered o.content 12 12 s.before s.after s.bytes (omega arith)
              (omega arith) s.made,
          s.kept,
        ),
        (
          l.bytes,
          resize-eq-ok c resizer delivered o.content 25 25 l.before l.after l.bytes (omega arith)
              (omega arith) l.made,
          l.kept,
        ),
      )
