-- ===== src/Workflow.antt =====
-- lib/src/workflow: the engine that runs the steps of a workflow, and what it keeps.
pub mod Types
pub mod Recovery
pub mod Engine
