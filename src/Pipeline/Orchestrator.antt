-- ===== src/Pipeline/Orchestrator.antt =====
-- internal/pipeline/orchestrator.go: starting and signalling workflows through the Temporal client.
use go_image_service.Base.{
  String, ◌<>◌, ◌≡◌, refl, true, false, if◌then◌else◌, Result, ok, err, Err, M, catch,
  is_workflow_gone, Bool-cases, inl, inr,
}
use go_image_service.Pipeline.Workflow.{UploadInput}

-- The client's `ExecuteWorkflow` takes the workflow id, the task queue and the input of `UploadWorkflow`;
-- its `SignalWorkflow` the workflow id and the signal's name.
pub record TemporalClient (W : Type 0) : Type 0 where
  pub execute_workflow : String → String → UploadInput → M W (Unit {0})
  pub signal_workflow : String → String → M W (Unit {0})

abbrev pub complete_signal : String
complete_signal = "upload-complete"

-- `Orchestrator`
pub record Orchestrator (W : Type 0) : Type 0 where
  pub client : TemporalClient W
  pub task_queue : String

-- `workflowID`
abbrev pub workflow_id : String → String
workflow_id id = "upload-" <> id

abbrev forgive : Err → Result (Unit {0})
forgive e = if is_workflow_gone e then ok tt else err e

module _ {W : Type 0} (o : Orchestrator W) where
  -- `Start`
  unfoldable pub start : String → String → String → M W (Unit {0})
  start id content_type filename =
      o.client.execute_workflow (workflow_id id) o.task_queue
        (record { id = id; content_type = content_type; filename = filename })

  -- `Signal`
  unfoldable pub signal : String → M W (Unit {0})
  signal id w =
      catch (o.client.signal_workflow (workflow_id id) complete_signal w) (λ _ w. (ok tt, w))
        (λ e w. (forgive e, w))

  -- What `Signal` may answer.
  pub data SignalOutcome (id : String) (w : W) : Result (Unit {0}) × W → Type 0 where
    delivered :
        (w' : W)
        → o.client.signal_workflow (workflow_id id) complete_signal w ≡ (ok tt, w')
        → SignalOutcome id w (ok tt, w')
    gone :
        (e : Err) (w' : W)
        → o.client.signal_workflow (workflow_id id) complete_signal w ≡ (err e, w')
        → is_workflow_gone e ≡ true
        → SignalOutcome id w (ok tt, w')
    failed :
        (e : Err) (w' : W)
        → o.client.signal_workflow (workflow_id id) complete_signal w ≡ (err e, w')
        → is_workflow_gone e ≡ false
        → SignalOutcome id w (err e, w')

  signal-go :
      (id : String) (w : W) (r : Result (Unit {0}) × W)
      → o.client.signal_workflow (workflow_id id) complete_signal w ≡ r
      → SignalOutcome id w (signal id w)
  unfolding signal
  signal-go id w (ok _, w') e = rw e (delivered w' e)
  signal-go id w (err x, w') e = elim (Bool-cases (is_workflow_gone x)) [
    | inl h ↦ rw (e, h) (gone x w' e h)
    | inr h ↦ rw (e, h) (failed x w' e h)
  ]

  -- Signalling sends `upload-complete` to the workflow of the id once. It succeeds when the signal is
  -- delivered and also when the workflow is gone; any other error is passed on.
  pub signal-SignalOutcome : (id : String) (w : W) → SignalOutcome id w (signal id w)
  signal-SignalOutcome id w = signal-go id w _ refl
