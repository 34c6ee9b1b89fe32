-- ===== src/Workflow.antt =====
-- kailab-control/internal/workflow: when a workflow runs, and the jobs that it expands to.
pub mod Matrix
pub mod Glob
pub mod Trigger
pub mod JobOrder
pub mod Expressions
