-- ===== src/Workflow/Expressions.antt =====
-- kailab-control/internal/workflow/expressions.go: the expressions of a workflow.
pub mod Values
pub mod Context
pub mod Parser
pub mod Interpolation
mod Tests
