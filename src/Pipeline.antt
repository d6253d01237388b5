-- ===== src/Pipeline.antt =====
-- internal/pipeline: the activities of the worker, the upload workflow, and the client that starts and
-- signals it.
pub mod Activities
pub mod Workflow
pub mod Orchestrator
