-- ===== src/Pipeline/Workflow/Ending.antt =====
-- The statuses in which `UploadWorkflow` may end.
use mathlib.Core.Path.{subst}
use go_image_service.Base.{
  String, Bool, true, false, ◌≡◌, refl, sym, ◌∙◌, inl, inr, List, [], ◌∷◌, map, Option, none, some,
  All, Err, Result, ok, err,
}
use go_image_service.Base.Hoare.{Landed, Hoare, Hoare-bind, Hoare-either, Hoare-weaken}
use go_image_service.Metadata.{update_status}
use go_image_service.Pipeline.Activities as Acts
use go_image_service.Pipeline.Activities.{Activities, ResizeInput, object_key}
use go_image_service.Pipeline.Workflow.{
  Call, validate, processing, complete, mark_failed, abandon, run, Policy, Temporal, UploadInput,
  ResizeSpec, sizes, resize_call, resize_error, finish, fan_out, process, after_wait,
  upload_workflow, activity_options, validate_options, upload_timeout,
}
use go_image_service.Pipeline.Workflow.Attempts.{status-execute_all, IsTemporal, Attempts-Landed}
use go_image_service.Pipeline.Workflow.Lifecycle.{
  OneOf, IsStatus, Is, In, checking, In-checking, Hoare-update, Hoare-keep, Hoare-validate,
}

-- The statuses of a workflow that was signalled and failed.
abbrev pub failed_statuses : List String
failed_statuses = "pending" ∷ "validating" ∷ "rejected" ∷ "processing" ∷ "failed" ∷ "complete" ∷ []

-- What the row's status may be, from whether the signal came and how the workflow ended.
abbrev pub Final : Bool → Result (Unit {0}) → Option String → Type 0
Final false (ok _) st = st ≡ some "abandoned"
Final false (err _) st = OneOf ("pending" ∷ "abandoned" ∷ []) st
Final true (ok _) st = st ≡ some "complete"
Final true (err _) st = OneOf failed_statuses st

module _ {W : Type 0} (a : Activities W) (i : UploadInput) (status : W → Option String)
    (table : IsStatus a i.id status) (t : Temporal W) (temporal : IsTemporal t a status) where
  abbrev Now : String → W → Type 0
  Now = Is a i.id status table

  abbrev Within : List String → W → Type 0
  Within = In a i.id status table

  execute-Hoare :
      (p : Policy) (c : Call) (xs : List String) (s : String)
      → ((w : W) → Now s w → Within xs w)
      → Hoare (Within xs) (run a c) (Now s) (Within xs)
      → Hoare (Within xs) (t.execute p c) (Now s) (Within xs)
  execute-Hoare p c xs s inside lands = record {
    at = λ w h.
        Attempts-Landed (Within xs) (Now s) inside (run a c) lands (temporal.execute-Attempts p c w)
          h;
  }

  -- An activity that only updates the status, under a policy.
  updates :
      (p : Policy) (c : Call) (x s : String)
      → run a c ≡ update_status a.repo i.id s
      → Hoare (Now x) (t.execute p c) (Now s) (Within (x ∷ s ∷ []))
  updates p c x s same =
      let inside : (w : W) → Now s w → Within (x ∷ s ∷ []) w = λ w e. inr (inl e) in
      let lands =
        execute-Hoare p c (x ∷ s ∷ []) s inside
          (rw same (Hoare-update a i.id status table (x ∷ s ∷ []) s inside)) in
      record { at = λ w h. lands.at w (inl h) }

  Hoare-resize :
      (r : ResizeInput) (T : Option String → Type 0)
      → Hoare (λ v. T (status v)) (Acts.resize a r) (λ v. T (status v)) (λ v. T (status v))
  unfolding Acts.resize
  Hoare-resize r T =
      Hoare-bind
        (Hoare-keep a i.id status table (a.objects.get (object_key r.id "original"))
          (table.status-get _) T)
        (λ original.
          Hoare-bind
            (Hoare-keep a i.id status table (a.resize original r.width r.height)
              (table.status-resize original r.width r.height) T)
            (λ resized.
              Hoare-keep a i.id status table
                (a.objects.put (object_key r.id r.name) resized r.content_type)
                (table.status-put _ _ resized) T))

  status-resize_call : (s : ResizeSpec) (w : W) → status (run a (resize_call i s) w).1 ≡ status w
  status-resize_call s w =
      Hoare-either (λ v. status v ≡ status w) (Hoare-resize _ (λ st. st ≡ status w)) (λ _ e. e)
        (λ _ e. e) w refl

  resizes-keep :
      (ss : List ResizeSpec)
      → All (λ c. (v : W) → status (run a c v).1 ≡ status v) (map (resize_call i) ss)
  resizes-keep [] = tt
  resizes-keep (s ∷ ss) = (status-resize_call s, resizes-keep ss)

  -- Every failure once the signal has come leaves one of these statuses.
  widen :
      (x y : String) (w : W)
      → ((st : Option String) → st ≡ some x → OneOf failed_statuses st)
      → ((st : Option String) → st ≡ some y → OneOf failed_statuses st)
      → Within (x ∷ y ∷ []) w
      → Within failed_statuses w
  widen x y w p q (inl e) = p (status w) e
  widen x y w p q (inr (inl e)) = q (status w) e
  widen x y w p q (inr (inr e)) = absurd e

  in_processing : (st : Option String) → st ≡ some "processing" → OneOf failed_statuses st
  in_processing st e = inr (inr (inr (inl e)))

  Hoare-finish :
      (e : Option Err)
      → Hoare (Now "processing") (finish t i e) (Now "complete") (Within failed_statuses)
  unfolding finish
  Hoare-finish none =
      Hoare-weaken
        (updates activity_options (complete i.id) "processing" "complete"
          (unfold Acts.complete in refl))
        (λ w.
          widen "processing" "complete" w in_processing
            (λ st e. inr (inr (inr (inr (inr (inl e)))))))
  Hoare-finish (some e) = record {
    at = λ w h.
        Hoare-either (Within failed_statuses)
          (updates activity_options (mark_failed i.id) "processing" "failed"
            (unfold Acts.mark_failed in refl))
          (λ _ f. inr (inr (inr (inr (inl f)))))
          (λ v. widen "processing" "failed" v in_processing (λ st f. inr (inr (inr (inr (inl f))))))
          w h;
  }

  Hoare-fan_out : Hoare (Now "processing") (fan_out t i) (Now "complete") (Within failed_statuses)
  unfolding fan_out
  Hoare-fan_out = record {
    at = λ w h.
        (Hoare-finish
            (resize_error none (t.execute_all activity_options (map (resize_call i) sizes) w).0)).at
          _
          (status-execute_all t a status temporal activity_options (map (resize_call i) sizes) w
              (resizes-keep sizes)
            ∙ h);
  }

  from_checking : (w : W) → Within (checking a i.id status table) w → Within failed_statuses w
  from_checking w (inl e) = inl e
  from_checking w (inr (inl e)) = inr (inl e)
  from_checking w (inr (inr (inl e))) = inr (inr (inl e))
  from_checking w (inr (inr (inr e))) = absurd e

  Hoare-checked :
      Hoare
        (Within (checking a i.id status table))
        (t.execute validate_options
          (validate (record { id = i.id; content_type = i.content_type })))
        (Now "validating")
        (Within (checking a i.id status table))
  Hoare-checked =
      execute-Hoare validate_options _ (checking a i.id status table) "validating"
        (In-checking a i.id status table) (Hoare-validate a i.id status table i.content_type)

  Hoare-process :
      Hoare
        (Within (checking a i.id status table))
        (process t i)
        (Now "complete")
        (Within failed_statuses)
  unfolding process
  Hoare-process = Hoare-bind (Hoare-weaken Hoare-checked from_checking) (λ _.
      Hoare-bind
        (Hoare-weaken
          (updates activity_options (processing i.id) "validating" "processing"
            (unfold Acts.processing in refl))
          (λ w. widen "validating" "processing" w (λ st e. inr (inl e)) in_processing))
        (λ _. Hoare-fan_out))

  Hoare-abandon :
      Hoare
        (Within ("pending" ∷ "abandoned" ∷ []))
        (Acts.abandon a i.id)
        (Now "abandoned")
        (Within ("pending" ∷ "abandoned" ∷ []))
  unfolding Acts.abandon
  Hoare-abandon = record {
    at = λ w h.
        (Hoare-update a i.id status table ("pending" ∷ "abandoned" ∷ []) "abandoned"
            (λ _ e. inr (inl e))).at
          _ (subst (OneOf ("pending" ∷ "abandoned" ∷ [])) (sym (table.status-delete _ w)) h);
  }

  Final-process :
      (w : W) (r : Result (Unit {0}))
      → Landed (Now "complete") (Within failed_statuses) r w
      → Final true r (status w)
  Final-process w (ok _) h = h
  Final-process w (err _) h = h

  Final-abandon :
      (w : W) (r : Result (Unit {0}))
      → Landed (Now "abandoned") (Within ("pending" ∷ "abandoned" ∷ [])) r w
      → Final false r (status w)
  Final-abandon w (ok _) h = h
  Final-abandon w (err _) h = h

  after_wait-Final :
      (signaled : Bool) (w : W)
      → Now "pending" w
      → Final signaled (after_wait t i (signaled, w)).0 (status (after_wait t i (signaled, w)).1)
  after_wait-Final true w h =
      Final-process _ _ (Hoare-process.at _ (inl (temporal.status-cancel_timer w ∙ h)))
  after_wait-Final false w h = Final-abandon _ _ (
      (execute-Hoare activity_options (abandon i.id) ("pending" ∷ "abandoned" ∷ []) "abandoned"
          (λ _ e. inr (inl e)) Hoare-abandon).at
        w (inl h))

  -- A workflow that starts with its row pending ends complete if it was signalled and succeeds, and
  -- abandoned if it was not and succeeds. Where it fails, a row whose upload was not signalled is still
  -- pending or abandoned, and one that was signalled is never abandoned. This holds whatever activities
  -- fail, are retried, or lose their answers, if Temporal attempts an activity as often as its policy
  -- says and an update of the row sets the status or leaves it.
  pub upload_workflow-Final :
      (w : W)
      → Now "pending" w
      → Final
          (t.wait (t.new_timer upload_timeout w)).0
          (upload_workflow t i w).0
          (status (upload_workflow t i w).1)
  unfolding upload_workflow
  upload_workflow-Final w h =
      after_wait-Final (t.wait (t.new_timer upload_timeout w)).0 _
        (temporal.status-wait _ ∙ (temporal.status-new_timer upload_timeout w ∙ h))
