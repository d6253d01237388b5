-- ===== src/Tests/Apart.antt =====
-- A workflow over a table that has room for one row.
use go_image_service.Base.{string_eq, [], ◌∷◌, Option, none, some, true, refl, pure, ◌≡◌}
use go_image_service.Metadata.Table.{Row, new_row}
use go_image_service.Storage.{ObjectStore}
use go_image_service.Pipeline.Activities.{Activities}
use go_image_service.Pipeline.Workflow.{UploadInput, upload_workflow}
use go_image_service.Pipeline.Workflow.Apart.{IsApart, IsTouched, upload_workflow-IsTouched}
use go_image_service.Pipeline.Workflow.Ending.{Final}
use go_image_service.Pipeline.Workflow.Recorded.{row_status, upload_workflow-row_status}
use go_image_service.Tests.Rows.{find, one_row, one_row-IsTable}
use go_image_service.Tests.Schedule.{simple_temporal, simple-IsTemporal}

abbrev jpegs : ObjectStore (Option Row)
jpegs = record {
  presign = λ _ _ _. pure "url";
  get = λ _. pure (1 ∷ []);
  get_first_n_bytes = λ _ _. pure (0xFF ∷ 0xD8 ∷ 0xFF ∷ []);
  put = λ _ _ _. pure tt;
  head = λ _. pure (3, "image/jpeg");
  delete = λ _. pure tt;
}

abbrev pub over_one_row : Activities (Option Row)
over_one_row = record { resize = λ _ _ _. pure (2 ∷ []); objects = jpegs; repo = one_row }

pub over_one_row-IsApart : IsApart over_one_row find
over_one_row-IsApart = record {
  table = one_row-IsTable;
  get_same = λ _ _ _. refl;
  sniff_same = λ _ _ _ _. refl;
  head_same = λ _ _ _. refl;
  put_same = λ _ _ _ _ _. refl;
  delete_same = λ _ _ _. refl;
  resize_same = λ _ _ _ _ _. refl;
}

abbrev pending : Option Row
pending = some (new_row "u1" "f.jpg" "image/jpeg" "pending" "ann" 7)

abbrev the_upload : UploadInput
the_upload = record { id = "u1"; content_type = "image/jpeg"; filename = "f.jpg" }

upload_workflow-IsTouched_example :
    IsTouched "u1"
      (find pending)
      (find (upload_workflow (simple_temporal over_one_row true) the_upload pending).1)
upload_workflow-IsTouched_example =
    upload_workflow-IsTouched over_one_row the_upload find over_one_row-IsApart
      (simple_temporal over_one_row true) (λ _. none)
      (simple-IsTemporal over_one_row (λ _. none) true) (λ _ _ _. refl) (λ _ _. refl) (λ _ _. refl)
      pending

found : find pending "u1" ≡ some (new_row "u1" "f.jpg" "image/jpeg" "pending" "ann" 7)
unfolding string_eq
found = refl

upload_workflow-row_status_example :
    Final true (upload_workflow (simple_temporal over_one_row true) the_upload pending).0 (
      row_status "u1"
        (find (upload_workflow (simple_temporal over_one_row true) the_upload pending).1))
upload_workflow-row_status_example =
    upload_workflow-row_status over_one_row the_upload find over_one_row-IsApart
      (simple_temporal over_one_row true)
      (simple-IsTemporal over_one_row (λ w. row_status "u1" (find w)) true) pending
      (new_row "u1" "f.jpg" "image/jpeg" "pending" "ann" 7) found refl
