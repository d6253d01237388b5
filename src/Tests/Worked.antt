-- ===== src/Tests/Worked.antt =====
-- The worker's activities over an object store that holds an upload, and an image service.
use go_image_service.Base.{
  has_prefix, ℕ, String, List, ◌∷◌, none, some, ◌≡◌, refl, ap, true, nat_eq, string_eq, Result, ok,
  pure,
}
use go_image_service.Base.Inversion.{catch-pure}
use go_image_service.Base.Integers.{ℤ, pos, negsuc, int32, signed32}
use go_image_service.Metadata.{update_status}
use go_image_service.Storage
use go_image_service.Storage.{Minio, MinioStore, bytes, object_store}
use go_image_service.Storage.Contents.{IsStore}
use go_image_service.Imaging.{Codec, answer, resize}
use go_image_service.Imaging.Client.{Client, client_resize}
use go_image_service.Pipeline.Activities as Acts
use go_image_service.Pipeline.Activities.{Activities, object_key}
use go_image_service.Pipeline.Workflow.{upload_workflow}
use go_image_service.Pipeline.Workflow.Thumbnails.{Source}
use go_image_service.TemporalClient
use go_image_service.GrpcAuth
use go_image_service.Cmd.Worker.{Libraries, Worker, activities_of, main}
use go_image_service.Tests.Commands.{config}
use go_image_service.Cmd.Thumbnailed.{IsDelivered, IsScaled, workflow-resize}
use go_image_service.Tests.Schedule.{simple_temporal, simple-IsTemporal, execute_all}
use go_image_service.Tests.Stored.{
  Objects, stored, read, read_ok, written-IsPut, silent, photo, uploaded, resized, jpeg,
}

-- A scaled image has the width before its bytes.
abbrev pub scaled : ℤ → List ℕ → List ℕ
scaled (pos n) image = n ∷ image
scaled (negsuc n) image = image

abbrev pub codec : Codec (List ℕ)
codec = record {
  decode = λ content. ok (content, "jpeg");
  scale = λ width _ image. scaled width image;
  png_encode = λ image. ok image;
  jpeg_encode = λ image. ok image;
}

abbrev pub image_service : Client Objects
image_service = record { grpc_resize = λ req w. (answer codec req, w) }

pub image_service-IsDelivered : IsDelivered codec image_service
image_service-IsDelivered = record {
  grpc_resize-answer = λ req w w' b e. delivered (answer codec req) w w' b e;
}
  where
    delivered :
        (r : Result (List ℕ)) (w w' : Objects) (b : List ℕ)
        → ◌≡◌ {A = Result (List ℕ) × Objects} (r, w) (ok b, w')
        → r ≡ ok b
    delivered r w w' b e = ap (λ p. p.0) e

-- An object of the library is its key.
abbrev pub minio : Minio Objects String String
minio = record {
  new_client = λ endpoint _. ok endpoint;
  set_range = λ first last. ok (bytes first last);
  bucket_exists = λ _ _. pure true;
  make_bucket = λ _ _. pure tt;
  presigned_put_object = λ client _ key _. pure key;
  presigned_get_object = λ client _ key _. pure key;
  get_object = λ _ _ key _. pure key;
  read_all = λ key w. (read (stored w key), w);
  put_object = λ _ _ key content _ ct w. (ok tt, (key, content, ct) ∷ w);
  stat_object = λ _ _ _. pure (4, "image/jpeg");
  remove_object = λ _ _ _. pure tt;
}

abbrev pub bucket : MinioStore String
bucket = record { ops = "minio:9000"; presigner = "localhost:9000"; bucket = "images" }

abbrev pub libraries : Libraries Objects String String String String String
libraries = record {
  client_dial = λ _. pure "temporal";
  new_token_source = λ audience. ok audience;
  new_client = λ target _. ok target;
  new_resizer_client = λ _. image_service;
  pool_new = λ _. pure silent;
  minio = minio;
}

pub bucket-IsStore : IsStore (object_store minio bucket) stored
unfolding Storage.get Storage.get_first_n_bytes Storage.put Storage.head
bucket-IsStore = record {
  get_ok = λ key w w' content e. read_ok w w' (stored w key) content e;
  get_same = λ _ _ _. refl;
  sniff_same = λ _ _ _ _. refl;
  head_same = λ _ _ _. refl;
  put_ok = λ key ct content w w' e. written-IsPut key ct content w w' e;
  put_err = λ _ _ _ _ _ _ e. cc;
}

abbrev pub registered : Activities Objects
registered = activities_of libraries image_service silent bucket

pub resize-world :
    (content : List ℕ) (x y : ℕ) (w : Objects)
    → (client_resize image_service content (pos x) (pos y) w).1 ≡ w
unfolding client_resize
resize-world content x y w = ap (λ p. p.1) (catch-pure _)

abbrev pub source : Source registered
unfolding update_status
source = record {
  stored = stored;
  store = bucket-IsStore;
  resize_same = λ content x y w k. ap (λ w. stored w k) (resize-world content x y w);
  update_same = λ _ _ _ _. refl;
  content = photo;
  content_type = "image/jpeg";
}

there : stored uploaded (object_key "u1" "original") ≡ some (photo, "image/jpeg")
unfolding string_eq
there = refl

succeeds : upload_workflow (simple_temporal registered true) jpeg uploaded ≡ (ok tt, resized)
unfolding upload_workflow execute_all Acts.validate Acts.processing Acts.resize Acts.complete
    string_eq nat_eq Storage.get Storage.get_first_n_bytes Storage.put Storage.head client_resize
    answer int32 signed32 resize
succeeds = refl

workflow-resize_example :
    IsScaled libraries codec image_service image_service-IsDelivered silent bucket jpeg source
      "12x12" 12 12 resized
    × IsScaled libraries codec image_service image_service-IsDelivered silent bucket jpeg source
        "25x25" 25 25 resized
unfolding source
workflow-resize_example =
    workflow-resize libraries codec image_service image_service-IsDelivered silent bucket jpeg
      source (simple_temporal registered true) (λ _. none)
      (simple-IsTemporal registered (λ _. none) true) (λ _ _. refl) uploaded uploaded resized refl
      there succeeds

abbrev worker : Worker Objects String
worker = record { client = "temporal"; task_queue = "uploads"; activities = registered }

comes_up : main libraries config uploaded ≡ (ok worker, uploaded)
unfolding main TemporalClient.dial TemporalClient.options GrpcAuth.dial GrpcAuth.is_cloud_run
    has_prefix Storage.new_minio_store Storage.ensure_bucket string_eq nat_eq
comes_up = refl
