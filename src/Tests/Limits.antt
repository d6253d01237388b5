-- ===== src/Tests/Limits.antt =====
-- A world that counts the calls of the image service, which always fails.
use go_image_service.Base.{
  ℕ, suc, ◌+◌, ◌*◌, ◌≤◌, [], ◌∷◌, none, ◌≡◌, refl, true, false, err, message, pure, arith,
}
use go_image_service.Metadata.{update_status}
use go_image_service.Pipeline.Activities as Acts
use go_image_service.Pipeline.Activities.{Activities}
use go_image_service.Pipeline.Workflow.{
  Call, validate, processing, resize, complete, mark_failed, abandon, run, upload_workflow,
}
use go_image_service.Pipeline.Workflow.Limits.{budget, upload_workflow-le}
use go_image_service.Tests.Schedule.{simple_temporal, simple-IsTemporal, execute_all}
use go_image_service.Tests.Running.{the_upload}

abbrev counted : Activities ℕ
counted = record {
  resize = λ _ _ _ n. (err (message "busy"), suc n);
  objects = record {
    presign = λ _ _ _. pure "url";
    get = λ _. pure (1 ∷ []);
    get_first_n_bytes = λ _ _. pure (0xFF ∷ 0xD8 ∷ 0xFF ∷ []);
    put = λ _ _ _. pure tt;
    head = λ _. pure (3, "image/jpeg");
    delete = λ _. pure tt;
  };
  repo = record {
    exec = λ _ _. pure tt;
    query_row = λ _ _. pure [];
    query = λ _ _. pure (record { rows = []; failure = none });
  };
}

-- Only a resize calls the image service.
abbrev calls : Call → ℕ
calls (resize _) = 1
calls _ = 0

each : (c : Call) (n : ℕ) → (run counted c n).1 ≤ n + calls c
unfolding Acts.validate Acts.processing Acts.resize Acts.complete Acts.mark_failed Acts.abandon
    update_status
each (validate _) n = omega arith
each (processing _) n = omega arith
each (resize _) n = omega arith
each (complete _) n = omega arith
each (mark_failed _) n = omega arith
each (abandon _) n = omega arith

two_calls : (upload_workflow (simple_temporal counted true) the_upload 0).1 ≡ 2
unfolding upload_workflow execute_all Acts.validate Acts.processing Acts.resize Acts.mark_failed
    update_status
two_calls = refl

upload_workflow-le_example :
    (true ≡ true
      → (upload_workflow (simple_temporal counted true) the_upload 0).1
        ≤ 0 + budget calls the_upload 0)
    × (true ≡ false
        → (upload_workflow (simple_temporal counted true) the_upload 0).1
          ≤ 0 + 3 * calls (abandon "u1"))
upload_workflow-le_example =
    upload_workflow-le counted calls (λ n. n) each (simple_temporal counted true) (λ _. none)
      (simple-IsTemporal counted (λ _. none) true) the_upload 0 (omega arith) (omega arith)
      (λ _ _. omega arith) (λ _. omega arith) (λ _. omega arith) 0
