-- ===== src/Tests/Uploading.antt =====
-- A negotiation and a signal.
use go_image_service.Base.{ℕ, suc, [], ◌∷◌, Result, ok, err, message, workflow_gone, M}
use go_image_service.Upload.{Service, negotiate}
use go_image_service.Upload.Outcome.{NegotiateOutcome, negotiate-NegotiateOutcome}
use go_image_service.Pipeline.Orchestrator.{
  Orchestrator, SignalOutcome, signal, signal-SignalOutcome,
}

-- The world counts the calls.
abbrev called : {A : Type 0} → Result A → M ℕ A
called r n = (r, suc n)

abbrev demo_service : Service ℕ
demo_service = record {
  repo = record { create = λ _ _ _ _ _. called (ok tt) };
  objects = record { presign = λ _ _ _. called (ok "url") };
  pipe = record { start = λ _ _ _. called (err (message "down")); signal = λ _. called (ok tt) };
  rand_read = λ _. called (ok (1 ∷ 2 ∷ []));
}

negotiate-NegotiateOutcome_example :
    NegotiateOutcome demo_service "f.png" "image/png" "ann" 0
      (negotiate demo_service "f.png" "image/png" "ann" 0)
negotiate-NegotiateOutcome_example =
    negotiate-NegotiateOutcome demo_service "f.png" "image/png" "ann" 0

abbrev demo_orchestrator : Orchestrator ℕ
demo_orchestrator = record {
  client = record {
    execute_workflow = λ _ _ _. called (ok tt);
    signal_workflow = λ _ _. called (err workflow_gone);
  };
  task_queue = "image-resize";
}

signal-SignalOutcome_example :
    SignalOutcome demo_orchestrator "u1" 0 (signal demo_orchestrator "u1" 0)
signal-SignalOutcome_example = signal-SignalOutcome demo_orchestrator "u1" 0
