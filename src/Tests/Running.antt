-- ===== src/Tests/Running.antt =====
-- A workflow over a table of one row, whose activities are tried again where they fail.
use go_image_service.Base.{
  String, List, [], ◌∷◌, Option, none, some, ◌≡◌, ◌≢◌, refl, Bool, true, false, ok, err, Err, pure,
  ◌⊎◌, inr,
}
use go_image_service.Postgres.{Postgres}
use go_image_service.Metadata.{update_status}
use go_image_service.Storage.{ObjectStore}
use go_image_service.Pipeline.Activities as Acts
use go_image_service.Pipeline.Activities.{Activities}
use go_image_service.Pipeline.Workflow.{Temporal, UploadInput, upload_workflow}
use go_image_service.Tests.Schedule.{simple_temporal, execute_all}
use go_image_service.Pipeline.Workflow.Lifecycle.{IsStatus}

-- The world is the status of the row, if there is one.
abbrev update : List String → Option String → Option String
update (s ∷ _) (some _) = some s
update _ row = row

abbrev demo_objects : ObjectStore (Option String)
demo_objects = record {
  presign = λ _ _ _. pure "url";
  get = λ _. pure (1 ∷ []);
  get_first_n_bytes = λ _ _. pure (0xFF ∷ 0xD8 ∷ 0xFF ∷ []);
  put = λ _ _ _. pure tt;
  head = λ _. pure (3, "image/jpeg");
  delete = λ _. pure tt;
}

abbrev demo_repo : Postgres (Option String)
demo_repo = record {
  exec = λ _ args row. (ok tt, update args row);
  query_row = λ _ _. pure [];
  query = λ _ _. pure (record { rows = []; failure = none });
}

abbrev demo_activities : Activities (Option String)
demo_activities = record {
  resize = λ _ _ _. pure (2 ∷ []);
  objects = demo_objects;
  repo = demo_repo;
}

abbrev the_status : Option String → Option String
the_status row = row

update_ok :
    (s : String) (w : Option String)
    → w ≢ none
    → (update_status demo_repo "u1" s w).0 ≡ ok tt
    → (update_status demo_repo "u1" s w).1 ≡ some s
unfolding update_status
update_ok s none h e = absurd (h refl)
update_ok s (some _) h e = refl

update_err :
    (s : String) (w : Option String) (e : Err)
    → w ≢ none
    → (update_status demo_repo "u1" s w).0 ≡ err e
    → ((update_status demo_repo "u1" s w).1 ≡ w) ⊎ ((update_status demo_repo "u1" s w).1 ≡ some s)
unfolding update_status
update_err s none e h p = absurd (h refl)
update_err s (some _) e h p = inr refl

demo-IsStatus : IsStatus demo_activities "u1" the_status
demo-IsStatus = record {
  update_ok = update_ok;
  update_err = update_err;
  status-get = λ _ _. refl;
  status-sniff = λ _ _ _. refl;
  status-head = λ _ _. refl;
  status-put = λ _ _ _ _. refl;
  status-delete = λ _ _. refl;
  status-resize = λ _ _ _ _. refl;
}

abbrev demo_temporal : Bool → Temporal (Option String)
demo_temporal = simple_temporal demo_activities

abbrev pub the_upload : UploadInput
the_upload = record { id = "u1"; content_type = "image/jpeg"; filename = "f.jpg" }

ends_complete :
    upload_workflow (demo_temporal true) the_upload (some "pending") ≡ (ok tt, some "complete")
unfolding upload_workflow execute_all Acts.validate Acts.processing Acts.resize Acts.complete
ends_complete = refl

ends_abandoned :
    upload_workflow (demo_temporal false) the_upload (some "pending") ≡ (ok tt, some "abandoned")
unfolding upload_workflow Acts.abandon
ends_abandoned = refl
