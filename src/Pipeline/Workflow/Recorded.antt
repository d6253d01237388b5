-- ===== src/Pipeline/Workflow/Recorded.antt =====
-- The status of the row in the uploads table, while its workflow runs and when it ends.
use mathlib.Core.Option
use go_image_service.Base.{
  String, ◌≡◌, ◌≢◌, refl, ap, ◌∙◌, ◌⊎◌, inl, inr, Option, none, some, ==_refl, string_eq, if_true,
  Result, ok,
}
use go_image_service.Metadata.Table.{
  Table, Row, Updated, Same, set_status, WriteSpec, done, undone, unconfirmed,
}
use go_image_service.Metadata.Refinement.{update-go}
use go_image_service.Pipeline.Activities.{Activities}
use go_image_service.Pipeline.Workflow.{Temporal, UploadInput, upload_workflow, upload_timeout}
use go_image_service.Pipeline.Workflow.Attempts.{IsTemporal}
use go_image_service.Pipeline.Workflow.Lifecycle.{IsStatus}
use go_image_service.Pipeline.Workflow.Ending.{Final, upload_workflow-Final}
use go_image_service.Pipeline.Workflow.Apart.{IsApart}

-- The status of the row of an id.
abbrev pub row_status : String → Table → Option String
row_status id t = Option.map (λ (r : Row). r.status) (t id)

map_set :
    (s : String) (o : Option Row)
    → Option.map (λ (r : Row). r.status) o ≢ none
    → Option.map (λ (r : Row). r.status) (Option.map (set_status s) o) ≡ some s
map_set s none h = absurd (h refl)
map_set s (some row) h = refl

Updated-row_status :
    (id s : String) (t t' : Table)
    → row_status id t ≢ none
    → Updated id s t t'
    → row_status id t' ≡ some s
Updated-row_status id s t t' h u =
    ap (Option.map (λ (r : Row). r.status)) (u id ∙ if_true _ _ _ (==_refl id)) ∙ map_set s (t id) h

written_ok :
    (id s : String) (t t' : Table) {r : Result (Unit {0})}
    → row_status id t ≢ none
    → WriteSpec (Updated id s) t t' r
    → r ≡ ok tt
    → row_status id t' ≡ some s
written_ok id s t t' h (done u) e = Updated-row_status id s t t' h u
written_ok id s t t' h (undone x _) e = cc
written_ok id s t t' h (unconfirmed x _) e = cc

written :
    (id s : String) (t t' : Table) {r : Result (Unit {0})}
    → row_status id t ≢ none
    → WriteSpec (Updated id s) t t' r
    → (row_status id t' ≡ row_status id t) ⊎ (row_status id t' ≡ some s)
written id s t t' h (done u) = inr (Updated-row_status id s t t' h u)
written id s t t' h (undone x same) = inl (ap (Option.map (λ (r : Row). r.status)) (same id))
written id s t t' h (unconfirmed x u) = inr (Updated-row_status id s t t' h u)

module _ {W : Type 0} (a : Activities W) (i : UploadInput) (find : W → Table)
    (apart : IsApart a find) where
  kept : (t t' : Table) → Same t t' → row_status i.id t' ≡ row_status i.id t
  kept t t' same = ap (Option.map (λ (r : Row). r.status)) (same i.id)

  -- The table shows the status that the workflow is proved about.
  row-IsStatus : IsStatus a i.id (λ w. row_status i.id (find w))
  row-IsStatus = record {
    update_ok =
        λ s w h e. written_ok i.id s _ _ h (update-go a.repo find apart.table w i.id s _ refl) e;
    update_err =
        λ s w x h e. written i.id s _ _ h (update-go a.repo find apart.table w i.id s _ refl);
    status-get = λ key w. kept _ _ (apart.get_same key w);
    status-sniff = λ key n w. kept _ _ (apart.sniff_same key n w);
    status-head = λ key w. kept _ _ (apart.head_same key w);
    status-put = λ key ct content w. kept _ _ (apart.put_same key content ct w);
    status-delete = λ key w. kept _ _ (apart.delete_same key w);
    status-resize = λ content x y w. kept _ _ (apart.resize_same content x y w);
  }

  -- In the uploads table, the row of an upload whose workflow starts while it is pending ends
  -- complete if the workflow was signalled and succeeds, and abandoned if it was not and succeeds;
  -- where it fails, the row is still pending or abandoned if there was no signal, and never
  -- abandoned if there was one. The pool is assumed to do to the table what its statements say,
  -- the store and the image service to leave it, and Temporal to attempt an activity as its policy
  -- says.
  pub upload_workflow-row_status :
      (t : Temporal W)
      → IsTemporal t a (λ w. row_status i.id (find w))
      → (w : W) (row : Row) → find w i.id ≡ some row
      → row.status ≡ "pending"
      → Final
          (t.wait (t.new_timer upload_timeout w)).0
          (upload_workflow t i w).0
          (row_status i.id (find (upload_workflow t i w).1))
  upload_workflow-row_status t temporal w row there pending =
      upload_workflow-Final a i (λ w. row_status i.id (find w)) row-IsStatus t temporal w
        (ap (Option.map (λ (r : Row). r.status)) there ∙ ap (λ s. some s) pending)
