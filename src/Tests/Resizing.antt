-- ===== src/Tests/Resizing.antt =====
-- The image service with two slots, its client, a validation, and the object store.
use go_image_service.Base.{
  ◌<>◌, true, false, ℕ, suc, ◌+◌, ◌≤◌, ◌<◌, String, ◌≡◌, ◌≢◌, refl, List, [], ◌∷◌, All, none, some,
  arith, ok, pure, length,
}
use go_image_service.Base.Integers.{pos, negsuc}
use go_image_service.Storage.{ObjectStore, Minio, MinioStore, bytes, new_minio_store}
use go_image_service.Imaging.{Codec, ResizeRequest}
use go_image_service.Imaging.Server.{
  new_server, Running, started, Reach, here, next, arrive, acquire,
}
use go_image_service.Imaging.Bounded.{IsAnswer, CanEnter, Reach-bounded}
use go_image_service.Imaging.Draining.{calls, load, IsDrained, Quiet, still, Reach-drains}
use go_image_service.Imaging.Client.{Client, client_resize, client_resize-IsInt32}
use go_image_service.Pipeline.Activities.{Activities, ValidateInput, validate}
use go_image_service.Pipeline.Activities.Validated.{ValidateOutcome, validate-ValidateOutcome}

-- An image is its bytes.
abbrev plain : Codec (List ℕ)
plain = record {
  decode = λ bytes. ok (bytes, "png");
  scale = λ _ _ bytes. bytes;
  png_encode = λ bytes. ok bytes;
  jpeg_encode = λ bytes. ok bytes;
}

abbrev thumbnail : ResizeRequest
thumbnail = record { image_to_resize = 1 ∷ []; image_width = pos 12; image_height = pos 12 }

abbrev busy : Running
busy = record {
  sem = some 2;
  taken = 1;
  waiting = thumbnail ∷ [];
  decoding = thumbnail ∷ [];
  answered = [];
}

busy-Reach : Reach plain (started (new_server (pos 2))) busy
busy-Reach =
    next (next (next here (arrive thumbnail)) (acquire [] thumbnail [] refl (omega arith)))
      (arrive thumbnail)

Reach-bounded_example :
    (length busy.decoding ≤ 2)
    × All (IsAnswer plain) busy.answered
    × (busy.waiting ≢ [] → length busy.decoding < 2 → CanEnter plain busy)
Reach-bounded_example = Reach-bounded plain (pos 2) busy-Reach

Reach-drains_example :
    (0 + load busy ≤ load busy)
    × ((n : ℕ) × (u : Running) × Quiet plain busy n u
        × IsDrained u
        × (length u.answered ≡ calls busy))
Reach-drains_example = Reach-drains plain (pos 2) busy-Reach 0 busy still

abbrev echo : Client ℕ
echo = record { grpc_resize = λ req n. (ok req.image_to_resize, suc n) }

client_resize-IsInt32_example :
    client_resize echo (1 ∷ []) (pos 12) (negsuc 0) 0
    ≡ echo.grpc_resize
        (record { image_to_resize = 1 ∷ []; image_width = pos 12; image_height = negsuc 0 })
        0
client_resize-IsInt32_example =
    client_resize-IsInt32 echo (1 ∷ []) (pos 12) (negsuc 0) 0 (omega arith) (omega arith)

abbrev text_object : ObjectStore ℕ
text_object = record {
  presign = λ _ _ _. pure "url";
  get = λ _. pure [];
  get_first_n_bytes = λ _ _. pure (b't' ∷ b'x' ∷ []);
  put = λ _ _ _. pure tt;
  head = λ _. pure (2, "image/png");
  delete = λ _ n. (ok tt, suc n);
}

abbrev counting : Activities ℕ
counting = record {
  resize = λ _ _ _. pure [];
  objects = text_object;
  repo = record {
    exec = λ _ _ n. (ok tt, suc n);
    query_row = λ _ _. pure [];
    query = λ _ _. pure (record { rows = []; failure = none });
  };
}

abbrev an_upload : ValidateInput
an_upload = record { id = "u1"; content_type = "image/png" }

validate-ValidateOutcome_example :
    ValidateOutcome counting an_upload 0 (validate counting an_upload 0)
validate-ValidateOutcome_example = validate-ValidateOutcome counting an_upload 0

-- A minio library whose clients are their endpoints, and whose objects are their keys.
abbrev demo_minio : Minio ℕ String String
demo_minio = record {
  new_client = λ endpoint _. ok endpoint;
  set_range = λ first last. ok (bytes first last);
  bucket_exists = λ _ _. pure true;
  make_bucket = λ _ _. pure tt;
  presigned_put_object = λ client _ key _. pure (client <> key);
  presigned_get_object = λ client _ key _. pure (client <> key);
  get_object = λ _ _ key _. pure key;
  read_all = λ _. pure [];
  put_object = λ _ _ _ _ _ _. pure tt;
  stat_object = λ _ _ _. pure (0, "image/png");
  remove_object = λ _ _ _. pure tt;
}

abbrev demo_store : MinioStore String
demo_store = record { ops = "minio:9000"; presigner = "localhost:9000"; bucket = "images" }

demo_store-made :
    new_minio_store demo_minio "minio:9000" "localhost:9000" "key" "secret" "images" false
    ≡ ok demo_store
unfolding new_minio_store
demo_store-made = refl
