-- ===== src/Pipeline/Workflow/Framing.antt =====
-- What a workflow leaves alone: a property of the world that its activities keep.
use mathlib.Core.Path.{subst}
use go_image_service.Base.{
  ℕ, String, ◌≡◌, refl, sym, Bool, true, false, inl, inr, List, map, Option, none, some, All, ltb,
  Bool-cases, Result, ok, err, Err,
}
use go_image_service.Base.Keeps.{Keeps, bind-Keeps}
use go_image_service.Base.Hoare.{Landed, Landed-either}
use go_image_service.Metadata.{update_status}
use go_image_service.Pipeline.Activities as Acts
use go_image_service.Pipeline.Activities.{
  Activities, ValidateInput, ResizeInput, object_key, image_type, reject, check_size, check_type,
  max_image_bytes,
}
use go_image_service.Pipeline.Workflow.{
  Call, validate, processing, resize, complete, mark_failed, abandon, run, Policy, Temporal,
  UploadInput, sizes, resize_call, finish, fan_out, process, after_wait, upload_workflow,
  activity_options, validate_options, upload_timeout,
}
use go_image_service.Pipeline.Workflow.Attempts.{IsTemporal, Attempts-Landed}
use go_image_service.Pipeline.Workflow.Fan.{Fan-IsSettled, jobs-IsSettled}

module _ {W : Type 0} (a : Activities W) (id : String) (P : W → Type 0) where
  -- What the calls of the activities keep, for the row of the id.
  pub record IsKept : Type 0 where
    pub update-Keeps : (s : String) → Keeps P (update_status a.repo id s)
    pub get-Keeps : (key : String) → Keeps P (a.objects.get key)
    pub sniff-Keeps : (key : String) (n : ℕ) → Keeps P (a.objects.get_first_n_bytes key n)
    pub head-Keeps : (key : String) → Keeps P (a.objects.head key)
    pub put-Keeps :
        (key : String) (content : List ℕ) (ct : String) → Keeps P (a.objects.put key content ct)
    pub delete-Keeps : (key : String) → Keeps P (a.objects.delete key)
    pub resize-Keeps : (content : List ℕ) (x y : ℕ) → Keeps P (a.resize content x y)

  module _ (kept : IsKept) where
    reject-Keeps : (key reason : String) → Keeps P (reject a id key reason)
    unfolding reject
    reject-Keeps key reason = record {
      at = λ w h. (kept.update-Keeps "rejected").at _ ((kept.delete-Keeps key).at w h);
    }

    check_size-Keeps : (info : ℕ × String) → Keeps P (check_size a id info)
    unfolding check_size
    check_size-Keeps (size, ct) = elim (Bool-cases (ltb max_image_bytes size)) [
      | inl e ↦ rw e (reject-Keeps (object_key id "original") "image too large")
      | inr e ↦ rw e (record { at = λ w h. h })
    ]

    check_type-Keeps : (type : Option String) → Keeps P (check_type a id type)
    unfolding check_type
    check_type-Keeps none = reject-Keeps (object_key id "original") "unsupported content type"
    check_type-Keeps (some _) =
        bind-Keeps (kept.head-Keeps (object_key id "original")) check_size-Keeps

    validate-Keeps :
        (ct : String) → Keeps P (Acts.validate a (record { id = id; content_type = ct }))
    unfolding Acts.validate
    validate-Keeps ct = bind-Keeps (kept.update-Keeps "validating") (λ _.
        bind-Keeps (kept.sniff-Keeps (object_key id "original") 512)
          (λ sniff. check_type-Keeps (image_type sniff)))

    stored-Keeps :
        (ct name : String) (x y : ℕ)
        → Keeps P (
            Acts.resize a
              (record { id = id; content_type = ct; name = name; width = x; height = y }))
    unfolding Acts.resize
    stored-Keeps ct name x y = bind-Keeps (kept.get-Keeps (object_key id "original")) (λ original.
        bind-Keeps (kept.resize-Keeps original x y)
          (λ resized. kept.put-Keeps (object_key id name) resized ct))

    abandon-Keeps : Keeps P (Acts.abandon a id)
    unfolding Acts.abandon
    abandon-Keeps = record {
      at = λ w h.
          (kept.update-Keeps "abandoned").at _
            ((kept.delete-Keeps (object_key id "original")).at w h);
    }

-- The id that an activity is about.
abbrev pub call_id : Call → String
call_id (validate i) = i.id
call_id (processing id) = id
call_id (resize i) = i.id
call_id (complete id) = id
call_id (mark_failed id) = id
call_id (abandon id) = id

module _ {W : Type 0} (a : Activities W) (P : W → Type 0) where
  pub run-Keeps : (c : Call) → IsKept a (call_id c) P → Keeps P (run a c)
  run-Keeps (validate i) k = validate-Keeps a i.id P k i.content_type
  run-Keeps (processing id) k = unfold Acts.processing in k.update-Keeps "processing"
  run-Keeps (resize i) k = stored-Keeps a i.id P k i.content_type i.name i.width i.height
  run-Keeps (complete id) k = unfold Acts.complete in k.update-Keeps "complete"
  run-Keeps (mark_failed id) k = unfold Acts.mark_failed in k.update-Keeps "failed"
  run-Keeps (abandon id) k = abandon-Keeps a id P k

  module _ (i : UploadInput) (kept : IsKept a i.id P) (t : Temporal W) (status : W → Option String)
      (temporal : IsTemporal t a status) where
    own-Keeps : (c : Call) → call_id c ≡ i.id → Keeps P (run a c)
    own-Keeps c e = run-Keeps c (subst (λ id. IsKept a id P) (sym e) kept)

    landed : {A : Type 0} (r : Result A) (w : W) → P w → Landed P P r w
    landed (ok _) w h = h
    landed (err _) w h = h

    execute-Keeps : (p : Policy) (c : Call) → call_id c ≡ i.id → Keeps P (t.execute p c)
    execute-Keeps p c e = record {
      at = λ w h.
          Landed-either P P P (λ _ k. k) (λ _ k. k) _ _
            (Attempts-Landed P P (λ _ k. k) (run a c)
              (record { at = λ v k. landed _ _ ((own-Keeps c e).at v k) })
              (temporal.execute-Attempts p c w) h);
    }

    execute_all-Keeps :
        (p : Policy) (cs : List Call) (w : W)
        → All (λ c. call_id c ≡ i.id) cs
        → P w
        → P (t.execute_all p cs w).1
    execute_all-Keeps p cs w own h =
        let (js, fan, _) = temporal.execute_all-Fan p cs w in
        (Fan-IsSettled a (λ c. call_id c ≡ i.id) P (λ _ _. Unit {0}) (λ c e. (own-Keeps c e).at)
          (λ _ _ _ _ _. tt) (λ _ _ _ _ _ _ _. tt) fan h
          (jobs-IsSettled a (λ c. call_id c ≡ i.id) P (λ _ _. Unit {0}) (λ c e. (own-Keeps c e).at)
            (λ _ _ _ _ _. tt) (λ _ _ _ _ _ _ _. tt) p.maximum_attempts cs w own)).0

    finish-Keeps : (e : Option Err) → Keeps P (finish t i e)
    unfolding finish
    finish-Keeps none = execute-Keeps activity_options (complete i.id) refl
    finish-Keeps (some e) = record {
      at = (execute-Keeps activity_options (mark_failed i.id) refl).at;
    }

    fan_out-Keeps : Keeps P (fan_out t i)
    unfolding fan_out
    fan_out-Keeps = record {
      at = λ w h.
          (finish-Keeps _).at _
            (execute_all-Keeps activity_options (map (resize_call i) sizes) w (refl, (refl, tt)) h);
    }

    process-Keeps : Keeps P (process t i)
    unfolding process
    process-Keeps = bind-Keeps (execute-Keeps validate_options _ refl) (λ _.
        bind-Keeps (execute-Keeps activity_options (processing i.id) refl) (λ _. fan_out-Keeps))

    module _ (timer : (n : ℕ) (w : W) → P w → P (t.new_timer n w))
        (wait : (w : W) → P w → P (t.wait w).1)
        (cancel : (w : W) → P w → P (t.cancel_timer w)) where
      after_wait-Keeps : (signaled : Bool) (w : W) → P w → P (after_wait t i (signaled, w)).1
      after_wait-Keeps true w h = process-Keeps.at (t.cancel_timer w) (cancel w h)
      after_wait-Keeps false w h = (execute-Keeps activity_options (abandon i.id) refl).at w h

      pub upload_workflow-Keeps : Keeps P (upload_workflow t i)
      unfolding upload_workflow
      upload_workflow-Keeps = record {
        at = λ w h. after_wait-Keeps _ _ (wait _ (timer upload_timeout w h));
      }
