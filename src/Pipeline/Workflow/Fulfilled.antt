-- ===== src/Pipeline/Workflow/Fulfilled.antt =====
-- A workflow that succeeds leaves the thumbnails.
use mathlib.Core.Path.{subst}
use go_image_service.Base.{
  String, true, ◌≡◌, refl, sym, ap, ◌∙◌, inl, inr, map, Option, none, some, All, string_eq, Result,
  ok, err, Err, ◌>>◌,
}
use go_image_service.Base.Inversion.{bind-IsBound}
use go_image_service.Base.Hoare.{Landed, Landed-either, Hoare}
use go_image_service.Metadata.{update_status}
use go_image_service.Storage.Contents.{Contents, Unchanged}
use go_image_service.Pipeline.Activities as Acts
use go_image_service.Pipeline.Activities.{
  Activities, ResizeInput, object_key, image_type, reject, check_size, check_type,
}
use go_image_service.Pipeline.Workflow.{
  Call, validate, processing, complete, run, Policy, Temporal, UploadInput, sizes, resize_call,
  resize_error, finish, fan_out, process, after_wait, upload_workflow, activity_options,
  validate_options, upload_timeout,
}
use go_image_service.Pipeline.Workflow.Attempts.{IsTemporal, Attempts-Landed}
use go_image_service.Pipeline.Workflow.Fan.{
  err_ne_ok, Fan-IsSettled, jobs-IsSettled, All-map, calls-Fan, calls-jobs,
}
use go_image_service.Pipeline.Activities.{ValidateInput}
use go_image_service.Pipeline.Activities.Validated.{
  ValidateOutcome, unmarked, unread, no_image, unsized, too_large, valid, original,
  validate-ValidateOutcome,
}
use go_image_service.Pipeline.Workflow.Succeeding.{Attempts-one, resize_error-none, reached}
use go_image_service.Pipeline.Workflow.Thumbnails.{
  Source, Uploaded, IsThumbnail, small, large, IsResize, Reached, keep, land, stay, carry,
}

chain : {x y z : Contents} → Unchanged x y → Unchanged y z → Unchanged x z
chain p q k = q k ∙ p k

-- A validation that succeeds leaves the objects as they are.
valid-Unchanged :
    {W : Type 0} (a : Activities W) (o : Source a) (v : ValidateInput) {w : W}
    {r : Result (Unit {0}) × W}
    → ValidateOutcome a v w r
    → r.0 ≡ ok tt
    → Unchanged (o.stored w) (o.stored r.1)
valid-Unchanged a o v (unmarked e _ _) good = absurd (err_ne_ok e good)
valid-Unchanged a o v (unread e _ _ _ _) good = absurd (err_ne_ok e good)
valid-Unchanged a o v (no_image _ _ _ _) good = absurd (err_ne_ok _ good)
valid-Unchanged a o v (unsized _ e _ _ _ _ _) good = absurd (err_ne_ok e good)
valid-Unchanged a o v (too_large _ _ _ _) good = absurd (err_ne_ok _ good)
valid-Unchanged {W} a o v {w} (valid size w' h _) good =
    let first = h.first in
    chain
      (chain (after first.marked (o.update_same v.id "validating" w))
        (after first.read (o.store.sniff_same (original a v) 512 first.marked_world)))
      (after h.sized (o.store.head_same (original a v) h.read_world))
  where
    after :
        {A : Type 0} {x : Contents} {p q : Result A × W}
        → p ≡ q
        → Unchanged x (o.stored p.1)
        → Unchanged x (o.stored q.1)
    after {x} e = subst (λ p. Unchanged x (o.stored p.1)) e

module _ {W : Type 0} (a : Activities W) (i : UploadInput) (o : Source a) (t : Temporal W)
    (status : W → Option String) (temporal : IsTemporal t a status) where
  abbrev Done : W → Type 0
  Done w = Uploaded a i o w × IsThumbnail a i o small w × IsThumbnail a i o large w

  Done-Unchanged : (w w' : W) → Unchanged (o.stored w) (o.stored w') → Done w → Done w'
  Done-Unchanged w w' same (u, s, l) =
      (same _ ∙ u, carry a i o small w w' (same _) s, carry a i o large w w' (same _) l)

  execute_all-Done :
      (w : W)
      → Uploaded a i o w
      → All (λ r. r ≡ ok tt) (t.execute_all activity_options (map (resize_call i) sizes) w).0
      → Done (t.execute_all activity_options (map (resize_call i) sizes) w).1
  execute_all-Done w h good =
      let cs = map (resize_call i) sizes in
      let (js, fan, futures) = temporal.execute_all-Fan activity_options cs w in
      let start =
        jobs-IsSettled a (IsResize a i o) (Uploaded a i o) (Reached a i o) (keep a i o) (land a i o)
          (stay a i o) activity_options.maximum_attempts cs w (inl refl, (inr refl, tt)) in
      let (kept, settled) =
        Fan-IsSettled a (IsResize a i o) (Uploaded a i o) (Reached a i o) (keep a i o) (land a i o)
          (stay a i o) fan h start in
      let w' = (t.execute_all activity_options cs w).1 in
      let ends =
        reached (λ c. Reached a i o c w') js _ futures good (All-map _ _ (λ j p. p.1) js settled) in
      let (s, (l, _)) =
        subst (All (λ c. Reached a i o c w'))
          (calls-Fan a fan ∙ calls-jobs activity_options.maximum_attempts cs) ends in
      (kept, s small refl, l large refl)

  either-Landed : (P : W → Type 0) (r : Result (Unit {0})) (w : W) → P w → Landed P P r w
  either-Landed P (ok _) w h = h
  either-Landed P (err _) w h = h

  -- What only looks at the objects survives an activity that updates the status.
  execute-keeps :
      (P : W → Type 0)
      → ((w w' : W) → Unchanged (o.stored w) (o.stored w') → P w → P w')
      → (p : Policy) (c : Call) (s : String) → run a c ≡ update_status a.repo i.id s
      → (w : W) → P w
      → P (t.execute p c w).1
  execute-keeps P stable p c s same w h =
      let lands : Hoare P (run a c) P P = record {
        at = λ v k. either-Landed P _ _ (stable v _ (rw same (o.update_same i.id s v)) k);
      } in
      Landed-either P P P (λ _ k. k) (λ _ k. k) _ _
        (Attempts-Landed P P (λ _ k. k) (run a c) lands (temporal.execute-Attempts p c w) h)

  finish-none : (e : Option Err) (w : W) → (finish t i e w).0 ≡ ok tt → e ≡ none
  unfolding finish
  finish-none none w good = refl
  finish-none (some e) w good = absurd (err_ne_ok e good)

  finish-Done : (w : W) → Done w → Done (finish t i none w).1
  unfolding finish
  finish-Done w h =
      execute-keeps Done Done-Unchanged activity_options (complete i.id) "complete"
        (unfold Acts.complete in refl) w h

  fan_out-Done : (w : W) → Uploaded a i o w → (fan_out t i w).0 ≡ ok tt → Done (fan_out t i w).1
  unfolding fan_out
  fan_out-Done w h good =
      let rs = (t.execute_all activity_options (map (resize_call i) sizes) w).0 in
      let w' = (t.execute_all activity_options (map (resize_call i) sizes) w).1 in
      let clean = finish-none (resize_error none rs) w' good in
      rw clean (finish-Done w' (execute_all-Done w h (resize_error-none rs clean)))

  abbrev input : ValidateInput
  input = record { id = i.id; content_type = i.content_type }

  checked :
      (w v : W)
      → Uploaded a i o w
      → t.execute validate_options (validate input) w ≡ (ok tt, v)
      → Uploaded a i o v
  checked w v h e =
      let attempts = temporal.execute-Attempts validate_options (validate input) w in
      let once = Attempts-one (run a (validate input)) attempts refl (ap (λ p. p.0) e) in
      let same =
        valid-Unchanged a o input (validate-ValidateOutcome a input w) (ap (λ p. p.0) once) in
      subst (λ p. Uploaded a i o p.1) (once ∙ ap (λ p. (ok tt, p.1)) e) (same _ ∙ h)

  processed :
      (w v : W)
      → Uploaded a i o w
      → t.execute activity_options (processing i.id) w ≡ (ok tt, v)
      → Uploaded a i o v
  processed w v h e =
      subst (λ p. Uploaded a i o p.1) e
        (execute-keeps (Uploaded a i o) (λ x y same k. same _ ∙ k) activity_options
          (processing i.id) "processing" (unfold Acts.processing in refl) w h)

  process-Done : (w w' : W) → Uploaded a i o w → process t i w ≡ (ok tt, w') → Done w'
  unfolding process
  process-Done w w' h e =
      let first =
        bind-IsBound (t.execute validate_options (validate input))
          (λ _. t.execute activity_options (processing i.id) >> fan_out t i) w e in
      let second =
        bind-IsBound (t.execute activity_options (processing i.id)) (λ _. fan_out t i) first.world
          first.second in
      let ready =
        processed first.world second.world (checked w first.world h first.first) second.first in
      subst (λ p. Done p.1) second.second
        (fan_out-Done second.world ready (ap (λ p. p.0) second.second))

  -- If the signal came, the object was there when it came, and the workflow succeeded, then each
  -- of the two thumbnails is stored under its key, with the content type of the upload, as bytes
  -- that the image service made of the original for its size, and the original is still stored;
  -- however the two resizing activities interleave and whatever attempts are lost or repeated. The
  -- table, the image service and the timer are assumed to leave the objects as they are, and
  -- Temporal to attempt an activity as its policy says.
  pub upload_workflow-thumbnails :
      ((w : W) → Unchanged (o.stored w) (o.stored (t.cancel_timer w)))
      → (w v w' : W) → t.wait (t.new_timer upload_timeout w) ≡ (true, v)
      → o.stored v (object_key i.id "original") ≡ some (o.content, o.content_type)
      → upload_workflow t i w ≡ (ok tt, w')
      → (o.stored w' (object_key i.id "original") ≡ some (o.content, o.content_type))
        × IsThumbnail a i o small w'
        × IsThumbnail a i o large w'
  unfolding upload_workflow
  upload_workflow-thumbnails timer w v w' signaled h e =
      process-Done (t.cancel_timer v) w' (timer v _ ∙ h) (sym (ap (after_wait t i) signaled) ∙ e)
