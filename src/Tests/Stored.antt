-- ===== src/Tests/Stored.antt =====
-- A workflow over an object store that holds an upload.
use go_image_service.Base.{
  ℕ, String, List, [], ◌∷◌, Option, none, some, ◌≡◌, refl, ap, true, ◌==◌, string_eq, nat_eq,
  if◌then◌else◌, Result, ok, err, sentinel, image_not_found, pure,
}
use mathlib.Core.Path.{subst}
use go_image_service.Postgres.{Postgres}
use go_image_service.Metadata.{update_status}
use go_image_service.Storage.{ObjectStore}
use go_image_service.Storage.Contents.{Contents, IsPut, IsStore}
use go_image_service.Pipeline.Activities as Acts
use go_image_service.Pipeline.Activities.{Activities, object_key}
use go_image_service.Pipeline.Workflow.{UploadInput, upload_workflow}
use go_image_service.Pipeline.Workflow.Thumbnails.{Source}
use go_image_service.Tests.Schedule.{simple_temporal, execute_all}

-- The world is the objects, the last one that was put in front.
abbrev pub Objects : Type 0
Objects = List (String × List ℕ × String)

abbrev pub stored : Objects → Contents
stored [] k = none
stored ((key, content, ct) ∷ objects) k = if k == key then some (content, ct) else stored objects k

abbrev pub read : Option (List ℕ × String) → Result (List ℕ)
read none = err (sentinel image_not_found)
read (some (content, _)) = ok content

abbrev memory : ObjectStore Objects
memory = record {
  presign = λ _ _ _. pure "url";
  get = λ key w. (read (stored w key), w);
  get_first_n_bytes = λ key _ w. (read (stored w key), w);
  put = λ key content ct w. (ok tt, (key, content, ct) ∷ w);
  head = λ _. pure (4, "image/jpeg");
  delete = λ _. pure tt;
}

abbrev pub silent : Postgres Objects
silent = record {
  exec = λ _ _. pure tt;
  query_row = λ _ _. pure [];
  query = λ _ _. pure (record { rows = []; failure = none });
}

-- The image service writes the width before the bytes.
abbrev activities : Activities Objects
activities = record {
  resize = λ content width _. pure (width ∷ content);
  objects = memory;
  repo = silent;
}

pub read_ok :
    (w w' : Objects) (o : Option (List ℕ × String)) (bytes : List ℕ)
    → ◌≡◌ {A = Result (List ℕ) × Objects} (read o, w) (ok bytes, w')
    → (ct : String) × (o ≡ some (bytes, ct))
read_ok w w' none bytes e = cc
read_ok w w' (some (content, ct)) bytes e = (ct, ap (λ b. some (b, ct)) same)
  where
    same : content ≡ bytes
    same = cc

pub written-IsPut :
    (key ct : String) (content : List ℕ) (w w' : Objects)
    → ◌≡◌ {A = Result (Unit {0}) × Objects} (ok tt, (key, content, ct) ∷ w) (ok tt, w')
    → IsPut key content ct (stored w) (stored w')
written-IsPut key ct content w w' e =
    subst (λ w'. IsPut key content ct (stored w) (stored w')) (ap (λ p. p.1) e) (λ k. refl)

memory-IsStore : IsStore memory stored
memory-IsStore = record {
  get_ok = λ key w w' bytes e. read_ok w w' (stored w key) bytes e;
  get_same = λ _ _ _. refl;
  sniff_same = λ _ _ _ _. refl;
  head_same = λ _ _ _. refl;
  put_ok = λ key ct content w w' e. written-IsPut key ct content w w' e;
  put_err = λ _ _ _ _ _ _ e. cc;
}

abbrev pub photo : List ℕ
photo = 0xFF ∷ 0xD8 ∷ 0xFF ∷ 0xE0 ∷ []

abbrev source : Source activities
unfolding update_status
source = record {
  stored = stored;
  store = memory-IsStore;
  resize_same = λ _ _ _ _ _. refl;
  update_same = λ _ _ _ _. refl;
  content = photo;
  content_type = "image/jpeg";
}

abbrev pub uploaded : Objects
uploaded = ("u1/original", photo, "image/jpeg") ∷ []

abbrev pub resized : Objects
resized = ("u1/25x25", 25 ∷ photo, "image/jpeg") ∷ ("u1/12x12", 12 ∷ photo, "image/jpeg") ∷ uploaded

abbrev pub jpeg : UploadInput
jpeg = record { id = "u1"; content_type = "image/jpeg"; filename = "f.jpg" }

succeeds : upload_workflow (simple_temporal activities true) jpeg uploaded ≡ (ok tt, resized)
unfolding upload_workflow execute_all Acts.validate Acts.processing Acts.resize Acts.complete
    string_eq nat_eq
succeeds = refl

there : stored uploaded (object_key "u1" "original") ≡ some (photo, "image/jpeg")
unfolding string_eq
there = refl
